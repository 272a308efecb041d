-- ===== src/Agreement/Counted.antt =====
-- What the counted replies of a quorum say together.
use raxos.Prelude.{
  ◌≡◌, ◌⊎◌, inl, inr, sym, ap, ◌∙◌, false, Option, Option-cases, none, some, List, [], ◌∷◌, All,
  All-map, Contains, IsGreatest, arith,
}
use raxos.Prelude.Ordered.{less}
use raxos.Types.{Proposal, proposal_ord}
use raxos.Proposer.Tracking.{Reply, firsts, aggs}
use raxos.Agreement.Justified.{IsBound}

module _ (P : Reply → Type 0) (R : Proposal → Type 0) where
  pub firsts-All :
      (cs : List Reply) → All P cs → All R (firsts cs) → All (λ (c : Reply). P c × R c.first) cs
  unfolding firsts
  firsts-All [] h k = tt
  firsts-All (c ∷ cs) h k = ((h.0, k.0), firsts-All cs h.1 k.1)

module _ (P : Reply → Type 0) where
  pub firsts-Contains :
      (y : Proposal) (cs : List Reply)
      → All P cs
      → Contains y (firsts cs)
      → (c : Reply) × P c × (c.first ≡ y)
  unfolding firsts
  firsts-Contains y [] h k = absurd k
  firsts-Contains y (c ∷ cs) h (inl e) = (c, h.0, sym e)
  firsts-Contains y (c ∷ cs) h (inr k) = firsts-Contains y cs h.1 k

  pub aggs-Contains :
      (y : Proposal) (cs : List Reply)
      → All P cs
      → Contains y (aggs cs)
      → (c : Reply) × P c × (c.agg ≡ some y)
  unfolding aggs
  aggs-Contains y [] h k = absurd k
  aggs-Contains y (c ∷ cs) h k = elim (Option-cases c.agg) [
    | inl e ↦ aggs-Contains y cs h.1 (rw e at k)
    | inr (a, e) ↦
        let d : (y ≡ a) ⊎ Contains y (aggs cs) = rw e at k in
        elim d [ inl is ↦ (c, h.0, e ∙ ap some (sym is)) | inr old ↦ aggs-Contains y cs h.1 old ]
  ]

-- An aggregate that is not above `y`.
abbrev pub AggBelow : Proposal → Option Proposal → Type 0
AggBelow y none = Unit {0}
AggBelow y (some a) = less y a ≡ false

pub aggs-All :
    (P : Reply → Type 0) (y : Proposal) (cs : List Reply)
    → All P cs
    → IsBound y (aggs cs)
    → All (λ (c : Reply). P c × AggBelow y c.agg) cs
unfolding aggs
aggs-All P y [] h k = tt
aggs-All P y (c ∷ cs) h k = elim (Option-cases c.agg) [
  | inl e ↦ ((h.0, rw e tt), aggs-All P y cs h.1 (rw e at k))
  | inr (a, e) ↦
      let both : (less y a ≡ false) × IsBound y (aggs cs) = rw e at k in
      ((h.0, rw e both.0), aggs-All P y cs h.1 both.1)
]

not_less_trans : (a b c : Proposal) → less a b ≡ false → less b c ≡ false → less a c ≡ false
not_less_trans a b c h k = ground (
  arith,
  proposal_ord.lt_trans a c b,
  proposal_ord.cmp-flip b c,
  proposal_ord.eq_of_cmp b c,
  h,
  k,
)

-- The greatest of some proposals bounds them, and so does whatever it is not above.
pub IsBound-AggBelow :
    (y : Proposal) (agg : Option Proposal) (xs : List Proposal)
    → AggBelow y agg
    → IsGreatest agg xs
    → IsBound y xs
IsBound-AggBelow y none [] b h = tt
IsBound-AggBelow y none (x ∷ xs) b h = absurd h
IsBound-AggBelow y (some a) xs b h =
    All-map (λ (x : Proposal). less a x ≡ false) (λ (x : Proposal). less y x ≡ false)
      (λ x k. not_less_trans y a x b k) xs h.1
