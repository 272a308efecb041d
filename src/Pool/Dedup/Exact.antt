-- ===== src/Pool/Dedup/Exact.antt =====
-- All origins: what `mark_delivered` does to the set of delivered commands.
use raxos.Prelude.{
  ℕ, suc, ◌<◌, ◌≤◌, ◌≡◌, ◌⊎◌, inl, inr, refl, sym, ap, ◌∙◌, Bool, true, false, not, ◌||◌, ◌&&◌,
  Bool-cases, List, [], ◌∷◌, IsU64, All, arith, if◌then◌else◌, ◌==◌,
}
use raxos.Prelude.Ordered.{same, same_iff, nat_ord, pair_ord}
use raxos.Prelude.Map
use raxos.Types.{CommandId, id_ord}
use raxos.Pool.Dedup.{
  Dedup, dedup_default, Key, key_of, origin_of, high_water, has_seq, is_delivered, mark_seq,
  mark_delivered,
}
use raxos.Pool.Dedup.Origins.{IsOrigin, mark_seq-IsOrigin}

-- Every origin's mark has caught up with its sparse set.
abbrev pub IsDedup : Dedup → Type 0
IsDedup d = (key : Key) → IsOrigin (origin_of d key)

pub dedup_default-IsDedup : IsDedup dedup_default
unfolding origin_of Map.get
dedup_default-IsDedup key = record {
  sparse = record { high = omega arith; above = λ n m. ground arith };
  drained = refl;
}

-- Numbers begin at 1, and the mark of an origin that was never seen is 0.
is_delivered-has_seq :
    (d : Dedup) (id : CommandId)
    → 0 < id.seq
    → is_delivered d id ≡ has_seq (origin_of d (key_of id)) id.seq
unfolding is_delivered origin_of Map.get
is_delivered-has_seq d id h = ground arith

origin_of-mark_delivered :
    (d : Dedup) (id : CommandId) (key : Key)
    → origin_of (mark_delivered d id).1 key ≡ (
        if same (key_of id) key
        then (mark_seq (origin_of d (key_of id)) id.seq).1
        else origin_of d key)
unfolding origin_of mark_delivered
origin_of-mark_delivered d id key = ground (
  arith,
  Map.get-insert d.per_origin (key_of id) key (mark_seq (origin_of d (key_of id)) id.seq).1,
)

mark_delivered-IsDedup :
    (d : Dedup) (id : CommandId) → IsDedup d → IsU64 id.seq → IsDedup (mark_delivered d id).1
mark_delivered-IsDedup d id h u key = elim (Bool-cases (same (key_of id) key)) [
  | inl e ↦
      let (o, _, _) = mark_seq-IsOrigin (origin_of d (key_of id)) id.seq (h (key_of id)) u in
      rw (origin_of-mark_delivered d id key, e) o
  | inr e ↦ rw (origin_of-mark_delivered d id key, e) (h key)
]

mark_delivered-flag :
    (d : Dedup) (id : CommandId)
    → (mark_delivered d id).0 ≡ (mark_seq (origin_of d (key_of id)) id.seq).0
unfolding mark_delivered
mark_delivered-flag d id = refl

same-id : (a b : CommandId) → same a b ≡ (same (key_of a) (key_of b) && (a.seq == b.seq))
unfolding id_ord
same-id a b = ground arith

-- `mark_delivered` answers whether the command was new, and afterwards it and what was delivered
-- before are delivered and nothing else is, for commands numbered from 1; the state stays
-- well formed.
pub mark_delivered_once :
    (d : Dedup) (id other : CommandId)
    → IsDedup d
    → IsU64 id.seq
    → 0 < id.seq
    → 0 < other.seq
    → IsDedup (mark_delivered d id).1
      × ((mark_delivered d id).0 ≡ not (is_delivered d id))
      × (is_delivered (mark_delivered d id).1 other ≡ (same id other || is_delivered d other))
mark_delivered_once d id other h u p q =
    let (_, fresh, seqs) = mark_seq-IsOrigin (origin_of d (key_of id)) id.seq (h (key_of id)) u in
    (
      mark_delivered-IsDedup d id h u,
      mark_delivered-flag d id ∙ fresh ∙ ap not (sym (is_delivered-has_seq d id p)),
      is_delivered-has_seq (mark_delivered d id).1 other q
          ∙ ground (
            arith,
            origin_of-mark_delivered d id (key_of other),
            same-id id other,
            is_delivered-has_seq d other q,
            seqs other.seq,
            λ (e : same (key_of id) (key_of other) ≡ true).
                ap (λ k. has_seq (origin_of d k) other.seq)
                  ((same_iff (key_of id) (key_of other)).0 e),
          ),
    )

-- How often a command stands in a list, and whether it does.
unfoldable pub count : CommandId → List CommandId → ℕ
count id [] = 0
count id (x ∷ xs) = let rest = count id xs in if same x id then suc rest else rest

unfoldable pub mem : CommandId → List CommandId → Bool
mem id [] = false
mem id (x ∷ xs) = same x id || mem id xs

-- The commands of an agreed order that are handed to the application: those that
-- `mark_delivered` calls new.
unfoldable pub handed_over : Dedup → List CommandId → List CommandId
handed_over d [] = []
handed_over d (id ∷ ids) =
    let rest = handed_over (mark_delivered d id).1 ids in
    if (mark_delivered d id).0 then id ∷ rest else rest

-- A command that was not delivered before is handed over exactly once if it stands in the order
-- at all, however often and wherever, and one that was delivered before never is.
pub handed_over_once :
    (d : Dedup) (ids : List CommandId) (id : CommandId)
    → IsDedup d
    → All (λ (c : CommandId). (0 < c.seq) × IsU64 c.seq) ids
    → 0 < id.seq
    → count id (handed_over d ids) ≡ (if is_delivered d id then 0 else if mem id ids then 1 else 0)
unfolding count mem handed_over
handed_over_once d [] id h v p = ground arith
handed_over_once d (x ∷ xs) id h v p =
    let (next, fresh, seqs) = mark_delivered_once d x id h v.0.1 v.0.0 p in
    let rest = handed_over_once (mark_delivered d x).1 xs id next v.1 p in
    ground (
      arith,
      fresh,
      seqs,
      rest,
      λ (e : same x id ≡ true). ap (λ c. is_delivered d c) ((same_iff x id).0 e),
    )

high_water-origin_of :
    (d : Dedup) (id : CommandId)
    → high_water d id.origin id.boot ≡ (origin_of d (key_of id)).high_water
unfolding high_water origin_of
high_water-origin_of d id = ground arith

-- The mark is exact: everything up to it is delivered, and its successor is not.
pub high_water_exact :
    (d : Dedup) (id : CommandId)
    → IsDedup d
    → 0 < id.seq
    → IsU64 id.seq
    → ((id.seq ≤ high_water d id.origin id.boot) × (is_delivered d id ≡ true))
      ⊎ ((id.seq ≡ suc (high_water d id.origin id.boot)) × (is_delivered d id ≡ false))
      ⊎ (suc (high_water d id.origin id.boot) < id.seq)
high_water_exact d id h p u =
    let drained = (h (key_of id)).drained in
    let delivered = is_delivered-has_seq d id p in
    let mark = high_water-origin_of d id in rw mark (ground (arith, drained, delivered))
