-- ===== src/Proposer/Advancing.antt =====
-- What a step that advances leaves of the run.
use raxos.Prelude.{
  ℕ, ◌≡◌, inl, inr, refl, ap, sym, ◌∙◌, some, List, add_u32, arith, Option-cases, Bool-cases,
  some_inv,
}
use raxos.Types.{proposal_ord, proposal_eq}
use raxos.Proposer.{Run, StepOutcome, advance, phase0, phase2, phase3, step_complete}
use raxos.Proposer.Tracking.{Reply}
use raxos.Proposer.Outcomes.{
  Completes, keeps, adopts_first, adopts_agg, phases, at_phase0, at_phase1, at_phase2, at_phase3,
}

module _ (n : ℕ) (run : Run) (cs : List Reply) where
  -- A step that advances is followed by the next one.
  pub Completes-step :
      (run' : Run) → Completes n run cs (advance, run') → run'.step ≡ add_u32 run.step 1
  Completes-step run' (adopts_first p run'' a b c d e) = e
  Completes-step run' (keeps run'' a b e) = e
  Completes-step run' (adopts_agg p run'' a b c e) = e

phase2-replied : (run : Run) → (phase2 run).1.replied ≡ run.replied
unfolding phase2
phase2-replied run = elim (Option-cases run.best_agg) [
  | inl b ↦ rw b refl
  | inr (p, b) ↦ elim (Bool-cases (proposal_eq p run.proposal)) [
    | inl f ↦ rw (b, f) refl
    | inr f ↦ rw (b, f) refl
  ]
]

-- The marks of a step that advances are left to `begin_step`.
pub step_complete-replied :
    (run run' : Run) → step_complete run ≡ some (advance, run') → run'.replied ≡ run.replied
step_complete-replied run run' e = elim (phases run.step) [
  | inl z ↦
      let q : phase0 run ≡ some (advance, run') = sym (at_phase0 run z) ∙ e in
      elim (Option-cases run.best_first) [
        | inl b ↦ unfold phase0 in absurd (ground (arith, q, b))
        | inr (p, b) ↦ elim (Bool-cases run.all_first_high) [
          | inl f ↦ unfold phase0 in absurd (ground (arith, q, b, f))
          | inr f ↦
              unfold phase0 in
              sym (ap (λ (x : StepOutcome × Run). x.1.replied) (some_inv (rw (b, f) at q)))
        ]
      ]
  | inr (inl z) ↦
      sym (ap (λ (x : StepOutcome × Run). x.1.replied) (some_inv (sym (at_phase1 run z) ∙ e)))
  | inr (inr (inl z)) ↦
      sym (ap (λ (x : StepOutcome × Run). x.1.replied) (some_inv (sym (at_phase2 run z) ∙ e)))
      ∙ phase2-replied run
  | inr (inr (inr z)) ↦
      let q : phase3 run ≡ (advance, run') = some_inv (sym (at_phase3 run z) ∙ e) in
      elim (Option-cases run.best_agg) [
        | inl b ↦ unfold phase3 in absurd (ground (arith, ap (λ (x : StepOutcome × Run). x.0) q, b))
        | inr (p, b) ↦
            unfold phase3 in sym (ap (λ (x : StepOutcome × Run). x.1.replied) (rw b at q))
      ]
]
