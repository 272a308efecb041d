-- ===== src/Agreement/Histories.antt =====
-- What stays true of a history when it grows by an invocation.
use raxos.Prelude.{
  ℕ, ◌≤◌, ◌<◌, ◌≡◌, ◌⊎◌, inl, inr, refl, ap, ◌&&◌, Bool-cases, some, List, [], ◌∷◌, leb, ◌==◌,
  Contains, arith,
}
use raxos.Types.{Proposal}
use raxos.Recorder.History.{Invocation, clock, recorded, oldest}
use raxos.Agreement.{put}

-- `h'` is `h` with one more invocation, or with none.
abbrev pub Grown : List Invocation → List Invocation → Type 0
Grown h h' = (h' ≡ h) ⊎ ((x : Invocation) × (h' ≡ x ∷ h))

abbrev pub Histories : Type 0
Histories = ℕ → List Invocation

abbrev pub AllGrown : Histories → Histories → Type 0
AllGrown H H' = (j : ℕ) → Grown (H j) (H' j)

pub AllGrown-put : (i : ℕ) (x : Invocation) (H : Histories) → AllGrown H (put i (x ∷ H i) H)
AllGrown-put i x H j = elim (Bool-cases (i == j)) [
  | inr e ↦ inl (rw e refl)
  | inl e ↦ let is : i ≡ j = ground (arith, e) in inr (x, rw e (ap (λ k. x ∷ H k) is))
]

pub recorded-cons :
    (t s : ℕ) (p y : Proposal) (h : List Invocation)
    → Contains y (recorded t ((s, p) ∷ h))
    → ((y ≡ p) × (s ≡ t)) ⊎ Contains y (recorded t h)
unfolding recorded
recorded-cons t s p y h c = elim (Bool-cases (s == t && leb (clock h) s)) [
  | inr e ↦ inr (rw e at c)
  | inl e ↦ elim (let d : (y ≡ p) ⊎ Contains y (recorded t h) = rw e at c in d) [
    | inl is ↦ inl (is, ground (arith, e))
    | inr old ↦ inr old
  ]
]

pub Contains-Grown :
    (t : ℕ) (y : Proposal) (h h' : List Invocation)
    → Grown h h'
    → Contains y (recorded t h)
    → Contains y (recorded t h')
unfolding recorded
Contains-Grown t y h h' (inl e) c = rw e c
Contains-Grown t y h h' (inr ((s, p), e)) c =
    rw e (elim (Bool-cases (s == t && leb (clock h) s)) [ inr n ↦ rw n c | inl n ↦ rw n (inr c) ])

oldest-cons : (p f : Proposal) (ps : List Proposal) → oldest ps ≡ some f → oldest (p ∷ ps) ≡ some f
oldest-cons p f [] e = cc
oldest-cons p f (q ∷ ps) e = e

pub oldest-Grown :
    (t : ℕ) (f : Proposal) (h h' : List Invocation)
    → Grown h h'
    → oldest (recorded t h) ≡ some f
    → oldest (recorded t h') ≡ some f
unfolding recorded
oldest-Grown t f h h' (inl e) o = rw e o
oldest-Grown t f h h' (inr ((s, p), e)) o = rw e (elim (Bool-cases (s == t && leb (clock h) s)) [
  | inr n ↦ rw n o
  | inl n ↦ rw n (oldest-cons p f (recorded t h) o)
])

pub clock-Grown : (h h' : List Invocation) → Grown h h' → clock h ≤ clock h'
unfolding clock
clock-Grown h h' (inl e) = rw e (omega arith)
clock-Grown h h' (inr ((s, p), e)) = rw e (omega arith)

-- A step that the clock has passed records nothing more.
pub recorded-Grown :
    (t : ℕ) (h h' : List Invocation) → Grown h h' → t < clock h → recorded t h' ≡ recorded t h
unfolding recorded
recorded-Grown t h h' (inl e) l = ap (recorded t) e
recorded-Grown t h h' (inr ((s, p), e)) l = rw e (ground (arith, l))

pub oldest-Contains : (f : Proposal) (ps : List Proposal) → oldest ps ≡ some f → Contains f ps
oldest-Contains f [] e = cc
oldest-Contains f (p ∷ []) e = inl cc
oldest-Contains f (p ∷ q ∷ ps) e = inr (oldest-Contains f (q ∷ ps) e)
