-- ===== src/Agreement/Bases.antt =====
-- What a decision says of the first step that it locks.
use raxos.Prelude.{
  ℕ, ◌+◌, ◌-◌, ◌%◌, ◌<◌, ◌≡◌, inl, inr, sym, ap, subst, ◌∙◌, true, false, some, some_inv, Contains,
  All-contains, less_antisym, arith,
}
use native.Mathlib.Decide.{dec_lt}
use raxos.Prelude.Ordered.{less}
use raxos.Types.{Proposal, priority_h, proposal_ord}
use raxos.Recorder.History.{recorded, oldest}
use raxos.Agreement.{Group}
use raxos.Agreement.Quorums.{Quorum, Quorum-common}
use raxos.Agreement.Histories.{Histories, oldest-Contains}
use raxos.Agreement.Justified.{
  lead, Bounds, Justified, fresh, renewed, best_first, spread, gathered,
}
use raxos.Agreement.Locks.{IsSound}

-- A quorum of recorders took a proposal of the reserved priority first, in step 4.
abbrev pub FastAt : (g : Group) → Histories → Quorum g.size g.quorum → Type 0
FastAt g H Q =
    (i : ℕ)
    → i < g.size
    → Q.has i ≡ true
    → (f : Proposal) × (oldest (recorded 4 (H i)) ≡ some f) × (f.priority ≡ priority_h)

-- A quorum of recorders has `p` in step `t`, and nothing above it in the step before.
abbrev pub SlowAt : (g : Group) → Histories → ℕ → Proposal → Quorum g.size g.quorum → Type 0
SlowAt g H t p Q =
    (i : ℕ) → i < g.size → Q.has i ≡ true → Bounds (t - 1) p (H i) × Contains p (recorded t (H i))

priority-less : (a b : Proposal) → a.priority < b.priority → less a b ≡ true
unfolding proposal_ord
priority-less a b l = ground (arith, l)

module _ (g : Group) (H : Histories) (majority : g.size < g.quorum + g.quorum)
    (sound : IsSound g H) where
  -- In step 4 only the leader's proposal has the reserved priority.
  pub high_is_lead :
      (j : ℕ) (y : Proposal)
      → Contains y (recorded 4 (H j))
      → ¬ (y.priority < priority_h)
      → y ≡ lead g
  high_is_lead j y c high = high_of (sound j 4 y c)
    where
      high_of : Justified g H 4 y → y ≡ lead g
      high_of (fresh e (inl low)) = absurd (high low)
      high_of (fresh e (inr is)) = is
      high_of (renewed _ _ _ _ l _ _ _ _) = absurd (omega (arith, l))
      high_of (best_first _ _ e _ _) = absurd (omega (arith, e))
      high_of (spread _ e _) = absurd (omega (arith, e))
      high_of (gathered e) = absurd (omega (arith, e))

  -- After a fast decision every proposal of step 5 is the leader's.
  pub fast_base :
      (Q : Quorum g.size g.quorum)
      → FastAt g H Q
      → (j : ℕ) (y : Proposal) → Contains y (recorded 5 (H j))
      → y.value ≡ g.values 0
  fast_base Q firsts j y c = base_of (sound j 5 y c)
    where
      base_of : Justified g H 5 y → y.value ≡ g.values 0
      base_of (fresh e _) = absurd (omega (arith, e))
      base_of (renewed _ _ _ e _ _ _ _ _) = absurd (omega (arith, e))
      base_of (best_first P k e below o) =
          let (i, l, p, q) = Quorum-common g.size g.quorum P Q majority in
          let (f, at, le) = below i l p in
          let (f', at', high) = firsts i l q in
          let same : f ≡ f' = some_inv (sym at ∙ at') in
          let y_in = oldest-Contains y (recorded 4 (H k)) o in
          elim (dec_lt y.priority priority_h) [
            | yes low ↦ absurd (
                ground (
                  arith,
                  le,
                  priority-less y f
                      (omega (arith, low, high, ap (λ (x : Proposal). x.priority) same)),
                ))
            | no ge ↦ ap (λ (x : Proposal). x.value) (high_is_lead k y y_in ge)
          ]
      base_of (spread _ e _) = absurd (omega (arith, e))
      base_of (gathered e) = absurd (omega (arith, e))

  -- After a slow decision nothing above `p` is recorded in its step,
  pub slow_upper :
      (t : ℕ) (p : Proposal) (Q : Quorum g.size g.quorum)
      → t % 4 ≡ 2
      → 4 < t
      → SlowAt g H t p Q
      → (j : ℕ) (y : Proposal) → Contains y (recorded t (H j))
      → less p y ≡ false
  slow_upper t p Q e l all j y c = upper_of (sound j t y c)
    where
      upper_of : Justified g H t y → less p y ≡ false
      upper_of (fresh is _) = absurd (omega (arith, is, l))
      upper_of (renewed _ _ _ z _ _ _ _ _) = absurd (omega (arith, e, z))
      upper_of (best_first _ _ z _ _) = absurd (omega (arith, e, z))
      upper_of (spread P z each) =
          let (i, k, a, b) = Quorum-common g.size g.quorum P Q majority in
          let ((_, bound), _) = all i k b in
          All-contains (λ (x : Proposal). less p x ≡ false) y (recorded (t - 1) (H i)) bound
            (each i k a)
      upper_of (gathered z) = absurd (omega (arith, e, z))

  -- and every proposal of the next round has its value.
  pub slow_base :
      (t : ℕ) (p : Proposal) (Q : Quorum g.size g.quorum)
      → t % 4 ≡ 2
      → 4 < t
      → SlowAt g H t p Q
      → (j : ℕ) (y : Proposal) → Contains y (recorded (t + 2) (H j))
      → y.value ≡ p.value
  slow_base t p Q e l all j y c = base_of (sound j (t + 2) y c)
    where
      base_of : Justified g H (t + 2) y → y.value ≡ p.value
      base_of (fresh is _) = absurd (omega (arith, is, l))
      base_of (renewed b P k _ _ bounds c same _) =
          let back : t + 2 - 2 ≡ t = omega arith in
          let (i, m, a, q) = Quorum-common g.size g.quorum P Q majority in
          let b_in : Contains b (recorded t (H k)) =
            subst (λ s. Contains b (recorded s (H k))) back c in
          let bound : Bounds t b (H i) = subst (λ s. Bounds s b (H i)) back (bounds i m a) in
          let above =
            All-contains (λ (x : Proposal). less b x ≡ false) p (recorded t (H i)) bound.1
              (all i m q).1 in
          same
          ∙ ap (λ (x : Proposal). x.value)
              (less_antisym b p above (slow_upper t p Q e l all k b b_in))
      base_of (best_first _ _ z _ _) = absurd (omega (arith, e, z))
      base_of (spread _ z _) = absurd (omega (arith, e, z))
      base_of (gathered z) = absurd (omega (arith, e, z))
