-- ===== src/Proposer/Outcomes.antt =====
-- What a step comes to at its quorum.
use raxos.Prelude.{
  ℕ, ◌%◌, ◌<◌, ◌≡◌, ◌≢◌, ◌⊎◌, ◌↔◌, inl, inr, refl, ap, sym, ◌∙◌, true, Option, none, some, List, [],
  ◌∷◌, length, All, add_u32, arith, IsGreatest, IsGreatest-unique, Contains, subst, Option-cases,
  Bool-cases,
}
use raxos.Types.{Proposal, priority_h, proposal_ord, proposal_eq, proposal_eq_iff}
use raxos.Proposer.{
  Run, StepOutcome, decided, advance, retry, reset_tracking, step_on, phase0, phase2, phase3,
  step_complete,
}
use raxos.Proposer.Tracking.{Reply, Tracks, firsts, aggs, all_high, reset_tracking-Tracks}

all_high_iff :
    (cs : List Reply) → (all_high cs ≡ true) ↔ All (λ p. p.priority ≡ priority_h) (firsts cs)
unfolding all_high firsts
all_high_iff [] = ((λ _. tt), (λ _. refl))
all_high_iff (c ∷ cs) = (
  λ h. (ground arith, (all_high_iff cs).0 (ground arith)),
  λ a. ground (arith, (all_high_iff cs).1 a.1, a.0),
)

abbrev pub AllHigh : List Reply → Type 0
AllHigh cs = All (λ p. p.priority ≡ priority_h) (firsts cs)

-- What a step of `run` may come to when `cs` are its counted replies.
pub data Completes (n : ℕ) (run : Run) (cs : List Reply) : StepOutcome × Run → Type 0 where
  -- Phase 0, and every first proposal has the reserved priority: the greatest one decides.
  fast_decision :
      (p : Proposal) (run' : Run)
      → run.step % 4 ≡ 0
      → AllHigh cs
      → IsGreatest (some p) (firsts cs)
      → Completes n run cs (decided p.value, run')
  -- Phase 2, and the greatest aggregate is the proposal of the run: it decides.
  slow_decision :
      run.step % 4 ≡ 2
      → IsGreatest (some run.proposal) (aggs cs)
      → Completes n run cs (decided run.proposal.value, run)
  -- Phase 0 with some other first proposal: the greatest one is carried on.
  adopts_first :
      (p : Proposal) (run' : Run)
      → run.step % 4 ≡ 0
      → ¬ AllHigh cs
      → IsGreatest (some p) (firsts cs)
      → run'.proposal ≡ p
      → run'.step ≡ add_u32 run.step 1
      → Completes n run cs (advance, run')
  -- Phase 1, and phase 2 without a decision: the proposal is kept.
  keeps :
      (run' : Run)
      → (run.step % 4 ≡ 1) ⊎ ((run.step % 4 ≡ 2) × ¬ IsGreatest (some run.proposal) (aggs cs))
      → run'.proposal ≡ run.proposal
      → run'.step ≡ add_u32 run.step 1
      → Completes n run cs (advance, run')
  -- Phase 3: the greatest aggregate is carried on.
  adopts_agg :
      (p : Proposal) (run' : Run)
      → run.step % 4 ≡ 3
      → IsGreatest (some p) (aggs cs)
      → run'.proposal ≡ p
      → run'.step ≡ add_u32 run.step 1
      → Completes n run cs (advance, run')
  -- Phase 3 with no aggregate at all: the step is collected anew.
  stalls :
      (run' : Run)
      → run.step % 4 ≡ 3
      → aggs cs ≡ []
      → Tracks n run' []
      → run'.proposal ≡ run.proposal
      → run'.phase0_priorities ≡ run.phase0_priorities
      → run'.step ≡ run.step
      → Completes n run cs (retry, run')

abbrev Ends : ℕ → Run → List Reply → Type 0
Ends n run cs = (r : StepOutcome × Run) × (step_complete run ≡ some r) × Completes n run cs r

no_greatest : (xs : List Proposal) → IsGreatest none xs → xs ≡ []
no_greatest [] h = refl
no_greatest (x ∷ xs) h = absurd h

firsts-ne-nil : (cs : List Reply) → 0 < length cs → firsts cs ≢ []
unfolding firsts
firsts-ne-nil [] h e = absurd (omega arith)
firsts-ne-nil (c ∷ cs) h e = cc

no_member : (p : Proposal) {xs : List Proposal} → xs ≡ [] → Contains p xs → ⊥
no_member p e c = subst (λ ys. Contains p ys) e c

pub phases : (s : ℕ) → (s % 4 ≡ 0) ⊎ ((s % 4 ≡ 1) ⊎ ((s % 4 ≡ 2) ⊎ (s % 4 ≡ 3)))
phases s = omega arith

module _ (run : Run) where
  pub at_phase0 : run.step % 4 ≡ 0 → step_complete run ≡ phase0 run
  unfolding step_complete
  at_phase0 e = ground arith

  pub at_phase1 : run.step % 4 ≡ 1 → step_complete run ≡ some (step_on run)
  unfolding step_complete
  at_phase1 e = ground arith

  pub at_phase2 : run.step % 4 ≡ 2 → step_complete run ≡ some (phase2 run)
  unfolding step_complete
  at_phase2 e = ground arith

  pub at_phase3 : run.step % 4 ≡ 3 → step_complete run ≡ some (phase3 run)
  unfolding step_complete
  at_phase3 e = ground arith

module _ (n : ℕ) (run : Run) (cs : List Reply) (t : Tracks n run cs) where
  first_is : {o : Option Proposal} → run.best_first ≡ o → IsGreatest o (firsts cs)
  first_is e = subst (λ o. IsGreatest o (firsts cs)) e t.best_first

  agg_is : {o : Option Proposal} → run.best_agg ≡ o → IsGreatest o (aggs cs)
  agg_is e = subst (λ o. IsGreatest o (aggs cs)) e t.best_agg

  phase0_known :
      (p : Proposal)
      → run.step % 4 ≡ 0
      → run.best_first ≡ some p
      → (r : StepOutcome × Run) × (phase0 run ≡ some r) × Completes n run cs r
  unfolding phase0
  phase0_known p e best = elim (Bool-cases run.all_first_high) [
    | inl high ↦
        let run' : Run = record run { best_first = none } in
        (
          (decided p.value, run'),
          rw (best, high),
          fast_decision p run' e ((all_high_iff cs).0 (sym t.high ∙ high)) (first_is best),
        )
    | inr low ↦
        let run' : Run = record run {
          best_first = none;
          proposal = p;
          step = add_u32 run.step 1;
        } in
        (
          (advance, run'),
          rw (best, low),
          adopts_first p run' e (λ a. cc (low, t.high, (all_high_iff cs).1 a)) (first_is best) refl
              refl,
        )
  ]

  phase0-Ends : run.step % 4 ≡ 0 → 0 < length cs → Ends n run cs
  phase0-Ends e pos = elim (Option-cases run.best_first) [
    | inl nil ↦ absurd (firsts-ne-nil cs pos (no_greatest (firsts cs) (first_is nil)))
    | inr (p, best) ↦
        let (r, same, ends) = phase0_known p e best in (r, at_phase0 run e ∙ same, ends)
  ]

  phase1-Ends : run.step % 4 ≡ 1 → Ends n run cs
  phase1-Ends e =
      let run' : Run = record run { step = add_u32 run.step 1 } in
      ((advance, run'), at_phase1 run e, keeps run' (inl e) refl refl)

  phase2_goes_on :
      phase2 run ≡ step_on run
      → ¬ IsGreatest (some run.proposal) (aggs cs)
      → run.step % 4 ≡ 2
      → Ends n run cs
  phase2_goes_on same other e = (
    step_on run,
    at_phase2 run e ∙ ap some same,
    keeps (step_on run).1 (inr (e, other)) refl refl,
  )

  phase2-Ends : run.step % 4 ≡ 2 → Ends n run cs
  phase2-Ends e = elim (Option-cases run.best_agg) [
    | inl nil ↦
        phase2_goes_on (unfold phase2 in rw nil)
          (λ g. no_member run.proposal (no_greatest (aggs cs) (agg_is nil)) g.0) e
    | inr (p, best) ↦ elim (Bool-cases (proposal_eq p run.proposal)) [
      | inl same ↦
          let it = (proposal_eq_iff p run.proposal).0 same in
          (
            (decided run.proposal.value, run),
            at_phase2 run e ∙ ap some (unfold phase2 in rw (best, same)),
            slow_decision e (subst (λ x. IsGreatest (some x) (aggs cs)) it (agg_is best)),
          )
      | inr other ↦
          phase2_goes_on (unfold phase2 in rw (best, other))
            (λ g. cc (
              other,
              (proposal_eq_iff p run.proposal).1
                  (IsGreatest-unique p run.proposal (aggs cs) (agg_is best) g),
            ))
            e
    ]
  ]

  phase3-Ends : run.step % 4 ≡ 3 → Ends n run cs
  phase3-Ends e = elim (Option-cases run.best_agg) [
    | inl nil ↦ (
      (retry, reset_tracking run),
      at_phase3 run e ∙ ap some (unfold phase3 in rw nil),
      stalls (reset_tracking run) e (no_greatest (aggs cs) (agg_is nil))
          (subst (λ k. Tracks k (reset_tracking run) []) t.size (reset_tracking-Tracks run))
          (unfold reset_tracking in refl) (unfold reset_tracking in refl)
          (unfold reset_tracking in refl),
    )
    | inr (p, best) ↦
        let run' : Run = record run { best_agg = none; proposal = p; step = add_u32 run.step 1 } in
        (
          (advance, run'),
          at_phase3 run e ∙ ap some (unfold phase3 in rw best),
          adopts_agg p run' e (agg_is best) refl refl,
        )
  ]

  -- With at least one reply counted, a step completes without a panic and comes to one of the
  -- outcomes of `Completes`, which are told apart by the phase and by what the replies hold.
  pub step_complete-Completes :
      0 < length cs → (r : StepOutcome × Run) × (step_complete run ≡ some r) × Completes n run cs r
  step_complete-Completes pos = elim (phases run.step) [
    | inl e ↦ phase0-Ends e pos
    | inr (inl e) ↦ phase1-Ends e
    | inr (inr (inl e)) ↦ phase2-Ends e
    | inr (inr (inr e)) ↦ phase3-Ends e
  ]
