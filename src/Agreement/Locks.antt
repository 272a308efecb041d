-- ===== src/Agreement/Locks.antt =====
-- Once a step records one value only, so does every later one, where every recorded proposal is
-- justified.
use raxos.Prelude.{
  ℕ, zero, suc, ◌+◌, ◌-◌, ◌%◌, ◌≤◌, ◌<◌, ◌≡◌, ◌≢◌, sym, subst, ◌∙◌, true, Bytes, Contains, arith,
}
use native.Mathlib.Decide.{ℕ_discrete}
use raxos.Types.{Proposal, proposal_ord}
use raxos.Recorder.History.{recorded}
use raxos.Agreement.{Group}
use raxos.Agreement.Quorums.{Quorum, Quorum-common}
use raxos.Agreement.Histories.{Histories, oldest-Contains}
use raxos.Agreement.Justified.{Justified, fresh, renewed, best_first, spread, gathered}

-- Every recorded proposal is justified.
abbrev pub IsSound : Group → Histories → Type 0
IsSound g H = (j t : ℕ) (y : Proposal) → Contains y (recorded t (H j)) → Justified g H t y

-- From step `low` on, in every phase but the last, only `v` is recorded.
abbrev pub IsLocked : Histories → ℕ → Bytes → Type 0
IsLocked H low v =
    (t j : ℕ) (y : Proposal) → low ≤ t → t % 4 ≢ 3 → Contains y (recorded t (H j)) → y.value ≡ v

module _ (g : Group) (H : Histories) (majority : g.size < g.quorum + g.quorum)
    (sound : IsSound g H) where
  -- A quorum is not empty.
  pub member : (Q : Quorum g.size g.quorum) → (i : ℕ) × (i < g.size) × (Q.has i ≡ true)
  member Q = let (i, l, q, _) = Quorum-common g.size g.quorum Q Q majority in (i, l, q)

  -- One step, from those before it.
  locked_at :
      (low t : ℕ) (v : Bytes) (y : Proposal)
      → 4 < low
      → low < t
      → low % 4 ≤ 1
      → t % 4 ≢ 3
      → ((s j : ℕ) (x : Proposal)
          → low ≤ s
          → s < t
          → s % 4 ≢ 3
          → Contains x (recorded s (H j))
          → x.value ≡ v)
      → Justified g H t y
      → y.value ≡ v
  locked_at low t v y a b c d before (fresh e o) = absurd (omega (arith, e, a, b))
  locked_at low t v y a b c d before (renewed x Q j e l bounds k same low_priority) =
      same
      ∙ before (t - 2) j x (omega (arith, a, b, c, e)) (omega (arith, l))
          (λ z. absurd (omega (arith, e, z, l))) k
  locked_at low t v y a b c d before (best_first Q j e below o) =
      before (t - 1) j y (omega (arith, b)) (omega (arith, b))
        (λ z. absurd (omega (arith, e, z, b))) (oldest-Contains y (recorded (t - 1) (H j)) o)
  locked_at low t v y a b c d before (spread Q e all) =
      let (i, l, q) = member Q in
      before (t - 1) i y (omega (arith, b)) (omega (arith, b))
        (λ z. absurd (omega (arith, e, z, b))) (all i l q)
  locked_at low t v y a b c d before (gathered e) = absurd (d e)

  locked_below :
      (low : ℕ) (v : Bytes)
      → 4 < low
      → low % 4 ≤ 1
      → ((j : ℕ) (y : Proposal) → Contains y (recorded low (H j)) → y.value ≡ v)
      → (k t j : ℕ) (y : Proposal) → t < k
      → low ≤ t
      → t % 4 ≢ 3
      → Contains y (recorded t (H j))
      → y.value ≡ v
  locked_below low v a c base zero t j y l le d k = absurd (omega (arith, l))
  locked_below low v a c base (suc n) t j y l le d k = elim (ℕ_discrete low t) [
    | yes e ↦ base j y (subst (λ s. Contains y (recorded s (H j))) (sym e) k)
    | no other ↦
        locked_at low t v y a (omega arith) c d
          (λ s i x lo up ph at. locked_below low v a c base n s i x (omega arith) lo ph at)
          (sound j t y k)
  ]

  pub locked :
      (low : ℕ) (v : Bytes)
      → 4 < low
      → low % 4 ≤ 1
      → ((j : ℕ) (y : Proposal) → Contains y (recorded low (H j)) → y.value ≡ v)
      → IsLocked H low v
  locked low v a c base t j y le d k =
      locked_below low v a c base (suc t) t j y (omega arith) le d k
