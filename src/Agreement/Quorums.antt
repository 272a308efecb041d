-- ===== src/Agreement/Quorums.antt =====
-- Sets of recorders, counted: two quorums have a member in common.
use raxos.Prelude.{
  ℕ, zero, suc, ◌+◌, ◌≤◌, ◌<◌, ◌≡◌, inl, inr, refl, ap, ◌∙◌, Bool, true, false, ◌||◌, Bool-cases,
  List, [], ◌∷◌, length, ◌==◌, if◌then◌else◌, All, arith,
}
use native.Mathlib.Decide.{dec_lt}
use raxos.Proposer.Tracking.{Reply, has_replied}

-- The members of a set among the first `n` recorders.
unfoldable pub count : ℕ → (ℕ → Bool) → ℕ
count zero Q = 0
count (suc n) Q = let rest = count n Q in if Q n then suc rest else rest

pub common :
    (n : ℕ) (P Q : ℕ → Bool)
    → n < count n P + count n Q
    → (j : ℕ) × (j < n) × (P j ≡ true) × (Q j ≡ true)
unfolding count
common zero P Q h = absurd (omega (arith, h))
common (suc n) P Q h = elim (Bool-cases (P n)) [
  | inr a ↦ let (j, l, p, q) = common n P Q (ground (arith, h, a)) in (j, omega arith, p, q)
  | inl a ↦ elim (Bool-cases (Q n)) [
    | inl b ↦ (n, omega arith, a, b)
    | inr b ↦ let (j, l, p, q) = common n P Q (ground (arith, h, a, b)) in (j, omega arith, p, q)
  ]
]

-- Nobody replies twice.
abbrev pub IsDistinct : List Reply → Type 0
IsDistinct [] = Unit {0}
IsDistinct (c ∷ cs) = (has_replied c.from cs ≡ false) × IsDistinct cs

count_same : (n : ℕ) (P Q : ℕ → Bool) → ((j : ℕ) → j < n → P j ≡ Q j) → count n P ≡ count n Q
unfolding count
count_same zero P Q h = refl
count_same (suc n) P Q h =
    ground (arith, h n (omega arith), count_same n P Q (λ j l. h j (omega arith)))

count_one :
    (n i : ℕ) (Q : ℕ → Bool) → i < n → Q i ≡ false → count n (λ j. j == i || Q j) ≡ suc (count n Q)
unfolding count
count_one zero i Q l e = absurd (omega arith)
count_one (suc n) i Q l e = elim (dec_lt i n) [
  | yes lt ↦ ground (arith, count_one n i Q lt e)
  | no ge ↦
      let is : n ≡ i = omega arith in
      let out : Q n ≡ false = ap Q is ∙ e in
      let rest = count_same n (λ j. j == i || Q j) Q (λ j k. ground (arith, ge, k)) in
      ground (arith, is, out, rest)
]

count_none : (n : ℕ) → count n (λ j. false) ≡ 0
unfolding count
count_none zero = refl
count_none (suc n) = count_none n

-- The recorders that have replied are as many as the replies.
pub count-has_replied :
    (n : ℕ) (cs : List Reply)
    → All (λ (c : Reply). c.from < n) cs
    → IsDistinct cs
    → count n (λ j. has_replied j cs) ≡ length cs
unfolding has_replied
count-has_replied n [] h d = count_none n
count-has_replied n (c ∷ cs) h d =
    count_one n c.from (λ j. has_replied j cs) h.0 d.0 ∙ ap suc (count-has_replied n cs h.1 d.1)

-- What holds of every reply holds of the reply of a recorder that has replied.
pub has_replied-All :
    (P : Reply → Type 0) (j : ℕ) (cs : List Reply)
    → All P cs
    → has_replied j cs ≡ true
    → (c : Reply) × P c × (c.from ≡ j)
unfolding has_replied
has_replied-All P j [] h e = absurd (ground (arith, e))
has_replied-All P j (c ∷ cs) h e = elim (Bool-cases (j == c.from)) [
  | inl q ↦ (c, h.0, ground (arith, q))
  | inr q ↦ has_replied-All P j cs h.1 (ground (arith, q, e))
]

-- The sets of at least `q` of the first `n` recorders.
pub record Quorum (n q : ℕ) : Type 0 where
  pub has : ℕ → Bool
  pub enough : q ≤ count n has

pub Quorum-common :
    (n q : ℕ) (P Q : Quorum n q)
    → n < q + q
    → (j : ℕ) × (j < n) × (P.has j ≡ true) × (Q.has j ≡ true)
Quorum-common n q P Q h = common n P.has Q.has (omega (arith, h, P.enough, Q.enough))

pub repliers :
    (n q : ℕ) (cs : List Reply)
    → All (λ (c : Reply). c.from < n) cs
    → IsDistinct cs
    → q ≤ length cs
    → (Q : Quorum n q) × (Q.has ≡ (λ j. has_replied j cs))
repliers n q cs h d l = (
  record { has = λ j. has_replied j cs; enough = omega (arith, l, count-has_replied n cs h d) },
  refl,
)
