-- ===== src/Agreement/Completing.antt =====
-- What a complete step may send next, and what it may decide.
use raxos.Prelude.{
  ℕ, ◌+◌, ◌-◌, ◌%◌, ◌≤◌, ◌<◌, ◌≡◌, ◌≢◌, ◌⊎◌, inl, inr, refl, sym, ap, subst, ◌∙◌, true, false, some,
  some_inv, List, [], Bytes, length, All, All-map, All-contains, Contains, IsGreatest, IsU32, Bool,
  arith,
}
use native.Mathlib.Decide.{dec_lt}
use raxos.Prelude.Ordered.{less}
use raxos.Types.{Proposal, priority_h, proposal_ord}
use raxos.Recorder.History.{recorded, oldest}
use raxos.Proposer.{Run, decided, advance, proposal_for}
use raxos.Proposer.Tracking.{Reply, firsts, aggs}
use raxos.Proposer.Outcomes.{
  Completes, fast_decision, slow_decision, adopts_first, keeps, adopts_agg, AllHigh,
}
use raxos.Agreement.{Group}
use raxos.Agreement.Quorums.{Quorum, IsDistinct, repliers, has_replied-All}
use raxos.Agreement.Histories.{Histories, oldest-Contains}
use raxos.Agreement.Justified.{
  Bounds, FirstBelow, Justified, renewed, best_first, spread, gathered, fresh, Decided, fast, slow,
}
use raxos.Agreement.Locks.{IsSound}
use raxos.Agreement.Invariant.{IsCounted}
use raxos.Agreement.Running.{Carried}
use raxos.Agreement.Counted.{
  firsts-All, firsts-Contains, aggs-Contains, AggBelow, aggs-All, IsBound-AggBelow,
}

module _ (g : Group) (H : Histories) (run : Run) (cs : List Reply)
    (counted : All (IsCounted g H run) cs) (distinct : IsDistinct cs)
    (enough : g.quorum ≤ length cs) (late : 4 ≤ run.step)
    (whole : (run.step % 4 ≡ 0) ⊎ (run.phase0_priorities ≡ [])) where
  -- What holds of all counted replies holds of a quorum of recorders.
  of_quorum :
      (P : Reply → Type 0) (R : ℕ → Type 0)
      → All P cs
      → ((c : Reply) → P c → R c.from)
      → (Q : Quorum g.size g.quorum) × ((i : ℕ) → i < g.size → Q.has i ≡ true → R i)
  of_quorum P R all f =
      let inside =
        All-map (IsCounted g H run) (λ (c : Reply). c.from < g.size) (λ c k. k.inside) cs counted in
      let (Q, is) = repliers g.size g.quorum cs inside distinct enough in
      (
        Q,
        λ i l q.
            let (c, p, from) =
              has_replied-All P i cs all (ap (λ (s : ℕ → Bool). s i) (sym is) ∙ q) in
            subst R from (f c p),
      )

  -- In a phase other than 0 a counted reply is to the proposal of the run.
  own_is :
      (c : Reply)
      → run.step % 4 ≢ 0
      → IsCounted g H run c
      → Contains run.proposal (recorded run.step (H c.from))
  own_is c phase k =
      let (p, e, in_h) = k.own in
      elim whole [
        | inl z ↦ absurd (phase z)
        | inr plain ↦
            let same : proposal_for run c.from ≡ some run.proposal =
              unfold proposal_for in rw plain refl in
            subst (λ x. Contains x (recorded run.step (H c.from))) (some_inv (sym e ∙ same)) in_h
      ]

  -- The greatest aggregate bounds all that was recorded in the step before.
  agg_is_bound :
      (y : Proposal) (c : Reply)
      → IsCounted g H run c × AggBelow y c.agg
      → Bounds (run.step - 1) y (H c.from)
  agg_is_bound y c (k, below) = (
    omega (arith, k.tells.reached, k.tells.later),
    IsBound-AggBelow y c.agg (recorded (run.step - 1) (H c.from)) below k.tells.is_agg,
  )

  next_first :
      (t : ℕ) (y : Proposal)
      → t ≡ run.step + 1
      → run.step % 4 ≡ 0
      → IsGreatest (some y) (firsts cs)
      → Justified g H t y
  next_first t y at phase (inside, bound) =
      let back : run.step ≡ t - 1 = omega arith in
      let (Q, below) =
        of_quorum (λ (c : Reply). IsCounted g H run c × (less y c.first ≡ false))
          (λ i. FirstBelow (t - 1) y (H i))
          (firsts-All (IsCounted g H run) (λ x. less y x ≡ false) cs counted bound)
          (λ c (k, le). (
            c.first,
            subst (λ s. oldest (recorded s (H c.from)) ≡ some c.first) back k.tells.is_first,
            le,
          )) in
      let (c, k, is) = firsts-Contains (IsCounted g H run) y cs counted inside in
      best_first Q c.from (omega (arith, at, phase)) below
        (subst (λ s. oldest (recorded s (H c.from)) ≡ some y) back (k.tells.is_first ∙ ap some is))

  next_spread : (t : ℕ) → t ≡ run.step + 1 → run.step % 4 ≡ 1 → Justified g H t run.proposal
  next_spread t at phase =
      let back : run.step ≡ t - 1 = omega arith in
      let (Q, all) =
        of_quorum (IsCounted g H run) (λ i. Contains run.proposal (recorded (t - 1) (H i))) counted
          (λ c k.
            subst (λ s. Contains run.proposal (recorded s (H c.from))) back
              (own_is c (λ z. absurd (omega (arith, z, phase))) k)) in
      spread Q (omega (arith, at, phase)) all

  next_round :
      (t : ℕ) (y p : Proposal)
      → t ≡ run.step + 1
      → run.step % 4 ≡ 3
      → IsGreatest (some y) (aggs cs)
      → p.value ≡ y.value
      → p.priority < priority_h
      → Justified g H t p
  next_round t y p at phase (inside, bound) value low =
      let back : run.step - 1 ≡ t - 2 = omega arith in
      let (Q, all) =
        of_quorum (λ (c : Reply). IsCounted g H run c × AggBelow y c.agg)
          (λ i. Bounds (t - 2) y (H i)) (aggs-All (IsCounted g H run) y cs counted bound)
          (λ c k. subst (λ s. Bounds s y (H c.from)) back (agg_is_bound y c k)) in
      let (c, k, is) = aggs-Contains (IsCounted g H run) y cs counted inside in
      let greatest : IsGreatest (some y) (recorded (run.step - 1) (H c.from)) =
        subst (λ o. IsGreatest o (recorded (run.step - 1) (H c.from))) is k.tells.is_agg in
      renewed y Q c.from (omega (arith, at, phase)) (omega (arith, at, late)) all
        (subst (λ s. Contains y (recorded s (H c.from))) back greatest.0) value low

  -- A step that advances carries on what the next one may send.
  pub advance-Justified :
      (run' : Run) (p : Proposal)
      → Completes g.size run cs (advance, run')
      → IsU32 (run.step + 1)
      → Carried run'.step run'.proposal p
      → Justified g H run'.step p
  advance-Justified run' p (adopts_first y run'' phase _ best is at) word (inl (z, _, _)) =
      absurd (omega (arith, phase, at, z, word))
  advance-Justified run' p (adopts_first y run'' phase _ best is at) word (inr (_, same)) =
      subst (Justified g H run'.step) (sym (same ∙ is))
        (next_first run'.step y (omega (arith, at, word)) phase best)
  advance-Justified run' p (keeps run'' phase is at) word (inl (z, _, _)) = absurd (elim phase [
    | inl one ↦ omega (arith, one, at, z, word)
    | inr (two, _) ↦ omega (arith, two, at, z, word)
  ])
  advance-Justified run' p (keeps run'' (inl one) is at) word (inr (_, same)) =
      subst (Justified g H run'.step) (sym (same ∙ is))
        (next_spread run'.step (omega (arith, at, word)) one)
  advance-Justified run' p (keeps run'' (inr (two, _)) is at) word (inr (_, same)) =
      gathered (omega (arith, at, word, two))
  advance-Justified run' p (adopts_agg y run'' phase best is at) word (inl (_, value, low)) =
      next_round run'.step y p (omega (arith, at, word)) phase best
        (value ∙ ap (λ (x : Proposal). x.value) is) low
  advance-Justified run' p (adopts_agg y run'' phase best is at) word (inr (n, _)) =
      absurd (n (omega (arith, at, word, phase)))

  -- A fast decision is only taken in step 4.
  fast_is_first :
      (y : Proposal) (j : ℕ)
      → IsSound g H
      → Contains y (recorded run.step (H j))
      → run.step % 4 ≡ 0
      → y.priority ≡ priority_h
      → run.step ≡ 4
  fast_is_first y j sound c phase high = elim (dec_lt 4 run.step) [
    | no le ↦ omega (arith, late)
    | yes up ↦ absurd (low_of (sound j run.step y c) up)
  ]
    where
      low_of : Justified g H run.step y → 4 < run.step → ⊥
      low_of (fresh e _) up = absurd (omega (arith, e, up))
      low_of (renewed _ _ _ _ _ _ _ _ low) up = absurd (omega (arith, low, high))
      low_of (best_first _ _ e _ _) up = absurd (omega (arith, e, phase))
      low_of (spread _ e _) up = absurd (omega (arith, e, phase))
      low_of (gathered e) up = absurd (omega (arith, e, phase))

  decide_fast :
      (y : Proposal)
      → IsSound g H
      → run.step % 4 ≡ 0
      → AllHigh cs
      → IsGreatest (some y) (firsts cs)
      → Decided g H y.value
  decide_fast y sound phase all_high (inside, bound) =
      let (c, k, is) = firsts-Contains (IsCounted g H run) y cs counted inside in
      let high : y.priority ≡ priority_h =
        All-contains (λ (x : Proposal). x.priority ≡ priority_h) y (firsts cs) all_high inside in
      let y_in : Contains y (recorded run.step (H c.from)) =
        oldest-Contains y (recorded run.step (H c.from)) (k.tells.is_first ∙ ap some is) in
      let four = fast_is_first y c.from sound y_in phase high in
      let (Q, firsts_high) =
        of_quorum (λ (d : Reply). IsCounted g H run d × (d.first.priority ≡ priority_h))
          (λ i. (f : Proposal) × (oldest (recorded 4 (H i)) ≡ some f) × (f.priority ≡ priority_h))
          (firsts-All (IsCounted g H run) (λ x. x.priority ≡ priority_h) cs counted all_high)
          (λ d (m, h). (
            d.first,
            subst (λ s. oldest (recorded s (H d.from)) ≡ some d.first) four m.tells.is_first,
            h,
          )) in
      fast y Q c.from refl firsts_high (subst (λ s. Contains y (recorded s (H c.from))) four y_in)
        high

  decide_slow :
      run.step % 4 ≡ 2 → IsGreatest (some run.proposal) (aggs cs) → Decided g H run.proposal.value
  decide_slow phase (inside, bound) =
      let (Q, all) =
        of_quorum (λ (c : Reply). IsCounted g H run c × AggBelow run.proposal c.agg)
          (λ i.
            Bounds (run.step - 1) run.proposal (H i)
            × Contains run.proposal (recorded run.step (H i)))
          (aggs-All (IsCounted g H run) run.proposal cs counted bound)
          (λ c k. (
            agg_is_bound run.proposal c k,
            own_is c (λ z. absurd (omega (arith, z, phase))) k.0,
          )) in
      slow run.step run.proposal Q phase (omega (arith, phase, late)) refl all

  pub decided-Decided :
      (value : Bytes) (run' : Run)
      → Completes g.size run cs (decided value, run')
      → IsSound g H
      → Decided g H value
  decided-Decided value run' (fast_decision y run'' phase high best) sound =
      decide_fast y sound phase high best
  decided-Decided value run' (slow_decision phase best) sound = decide_slow phase best
