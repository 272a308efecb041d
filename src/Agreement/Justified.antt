-- ===== src/Agreement/Justified.antt =====
-- Why a proposal may be sent in a step, and a value decided, said of the histories alone.
use raxos.Prelude.{
  ℕ, ◌-◌, ◌%◌, ◌<◌, ◌≡◌, ◌⊎◌, sym, subst, true, false, some, List, Bytes, All, Contains, arith,
}
use raxos.Prelude.Ordered.{less}
use raxos.Types.{Proposal, priority_h, proposal_ord}
use raxos.Recorder.History.{Invocation, clock, recorded, oldest}
use raxos.Agreement.{Group}
use raxos.Agreement.Quorums.{Quorum}
use raxos.Agreement.Histories.{
  Histories, Grown, AllGrown, Contains-Grown, oldest-Grown, clock-Grown, recorded-Grown,
}

-- The proposal of the leader's first step.
abbrev pub lead : Group → Proposal
lead g = record { priority = priority_h; proposer = g.ids 0; value = g.values 0 }

abbrev pub IsBound : Proposal → List Proposal → Type 0
IsBound p xs = All (λ (x : Proposal). less p x ≡ false) xs

-- No proposal of step `t`, which is over at the recorder, is above `p`.
abbrev pub Bounds : ℕ → Proposal → List Invocation → Type 0
Bounds t p h = (t < clock h) × IsBound p (recorded t h)

-- The first proposal of step `t` is not above `p`.
abbrev pub FirstBelow : ℕ → Proposal → List Invocation → Type 0
FirstBelow t p h = (f : Proposal) × (oldest (recorded t h) ≡ some f) × (less p f ≡ false)

-- What a proposal sent in step `t` rests on.
pub data Justified (g : Group) (H : Histories) (t : ℕ) (p : Proposal) : Type 0 where
  -- The first phase 0: drawn below the reserved priority, or the leader's.
  fresh : t ≡ 4 → (p.priority < priority_h) ⊎ (p ≡ lead g) → Justified g H t p
  -- A later phase 0: the value of the greatest proposal that a quorum recorded two steps before.
  renewed :
      (b : Proposal) (Q : Quorum g.size g.quorum) (j : ℕ)
      → t % 4 ≡ 0
      → 4 < t
      → ((i : ℕ) → i < g.size → Q.has i ≡ true → Bounds (t - 2) b (H i))
      → Contains b (recorded (t - 2) (H j))
      → p.value ≡ b.value
      → p.priority < priority_h
      → Justified g H t p
  -- Phase 1: the greatest of the first proposals of a quorum in the step before.
  best_first :
      (Q : Quorum g.size g.quorum) (j : ℕ)
      → t % 4 ≡ 1
      → ((i : ℕ) → i < g.size → Q.has i ≡ true → FirstBelow (t - 1) p (H i))
      → oldest (recorded (t - 1) (H j)) ≡ some p
      → Justified g H t p
  -- Phase 2: recorded by a quorum in the step before.
  spread :
      (Q : Quorum g.size g.quorum)
      → t % 4 ≡ 2
      → ((i : ℕ) → i < g.size → Q.has i ≡ true → Contains p (recorded (t - 1) (H i)))
      → Justified g H t p
  -- Phase 3 is free.
  gathered : t % 4 ≡ 3 → Justified g H t p

-- What a decision rests on.
pub data Decided (g : Group) (H : Histories) (v : Bytes) : Type 0 where
  -- Every first proposal of a quorum in step 4 has the reserved priority, and `p` is one.
  fast :
      (p : Proposal) (Q : Quorum g.size g.quorum) (k : ℕ)
      → p.value ≡ v
      → ((i : ℕ)
          → i < g.size
          → Q.has i ≡ true
          → (f : Proposal) × (oldest (recorded 4 (H i)) ≡ some f) × (f.priority ≡ priority_h))
      → Contains p (recorded 4 (H k))
      → p.priority ≡ priority_h
      → Decided g H v
  -- In phase 2 a quorum has recorded `p`, and nothing above it in the step before.
  slow :
      (t : ℕ) (p : Proposal) (Q : Quorum g.size g.quorum)
      → t % 4 ≡ 2
      → 4 < t
      → p.value ≡ v
      → ((i : ℕ)
          → i < g.size
          → Q.has i ≡ true
          → Bounds (t - 1) p (H i) × Contains p (recorded t (H i)))
      → Decided g H v

Bounds-Grown :
    (t : ℕ) (p : Proposal) (h h' : List Invocation) → Grown h h' → Bounds t p h → Bounds t p h'
Bounds-Grown t p h h' grown (l, b) = (
  omega (arith, l, clock-Grown h h' grown),
  subst (IsBound p) (sym (recorded-Grown t h h' grown l)) b,
)

-- Nothing that holds is undone.
pub Justified-Grown :
    (g : Group) (H H' : Histories) (t : ℕ) (p : Proposal)
    → AllGrown H H'
    → Justified g H t p
    → Justified g H' t p
Justified-Grown g H H' t p grown (fresh e o) = fresh e o
Justified-Grown g H H' t p grown (renewed b Q j e l bounds c v low) =
    renewed b Q j e l (λ i k q. Bounds-Grown (t - 2) b (H i) (H' i) (grown i) (bounds i k q))
      (Contains-Grown (t - 2) b (H j) (H' j) (grown j) c) v low
Justified-Grown g H H' t p grown (best_first Q j e below o) =
    best_first Q j e
      (λ i k q.
        let (f, at, le) = below i k q in (f, oldest-Grown (t - 1) f (H i) (H' i) (grown i) at, le))
      (oldest-Grown (t - 1) p (H j) (H' j) (grown j) o)
Justified-Grown g H H' t p grown (spread Q e all) =
    spread Q e (λ i k q. Contains-Grown (t - 1) p (H i) (H' i) (grown i) (all i k q))
Justified-Grown g H H' t p grown (gathered e) = gathered e

pub Decided-Grown :
    (g : Group) (H H' : Histories) (v : Bytes) → AllGrown H H' → Decided g H v → Decided g H' v
Decided-Grown g H H' v grown (fast p Q k e firsts c high) =
    fast p Q k e
      (λ i l q. let (f, at, h) = firsts i l q in (f, oldest-Grown 4 f (H i) (H' i) (grown i) at, h))
      (Contains-Grown 4 p (H k) (H' k) (grown k) c) high
Decided-Grown g H H' v grown (slow t p Q e l is all) = slow t p Q e l is (λ i k q.
    let (bounds, c) = all i k q in
    (
      Bounds-Grown (t - 1) p (H i) (H' i) (grown i) bounds,
      Contains-Grown t p (H i) (H' i) (grown i) c,
    ))
