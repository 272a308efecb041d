-- ===== src/Replica/Retention/Freeing.antt =====
-- `maybe_gc`: what it frees, what it keeps and how far it goes.
use raxos.Prelude.{
  ℕ, zero, suc, ◌-◌, ◌≤◌, ◌<◌, ◌≡◌, ◌⊎◌, inl, inr, refl, sym, ap, max, Bytes, ◌+◌, ◌∙◌, ◌&&◌,
  Bool-cases, some, Option-cases, List, [], ◌∷◌, length, empty_of_length, set, ltb, leb, min, arith,
}
use raxos.Prelude.Map
use raxos.Prelude.Map.{Map}
use raxos.Prelude.Map.Sorted.{get-first_key, get-before_first_key, empty_of_first_key}
use raxos.Prelude.Map.Total.{total}
use raxos.Prelude.Map.Sizes.{length-remove}
use raxos.Prelude.Ordered.{nat_ord}
use raxos.Types.{Slot, next}
use raxos.Replica.{Replica}
use raxos.Replica.Retention.{
  free_slot, free_acked, free_over_budget, free_below, ack_self, minimum, least, maybe_gc,
}
use raxos.Replica.Retention.Retaining.{
  IsRetaining, Frees, Frees-refl, Frees-trans, free_slot-IsRetaining, free_slot-Frees,
}

-- The values that everyone has acknowledged go, and no other.
free_acked-IsRetaining :
    (fuel : ℕ) (floor : Slot) (r : Replica)
    → IsRetaining r
    → floor ≤ r.decided_contig
    → floor - r.gc_floor ≤ fuel
    → IsRetaining (free_acked fuel floor r)
      × Frees r (free_acked fuel floor r)
      × ((free_acked fuel floor r).gc_floor ≡ max r.gc_floor floor)
unfolding free_acked
free_acked-IsRetaining zero floor r h b f = (h, Frees-refl r, omega arith)
free_acked-IsRetaining (suc fuel) floor r h b f = elim (Bool-cases (ltb r.gc_floor floor)) [
  | inr e ↦ rw e (h, Frees-refl r, ground (arith, e))
  | inl e ↦
      let lt : r.gc_floor < floor = ground (arith, e) in
      let at : next r.gc_floor ≡ suc r.gc_floor = omega (arith, h.word) in
      let same : max (next r.gc_floor) floor ≡ max r.gc_floor floor = omega (arith, at, lt) in
      let freed : IsRetaining (free_slot (next r.gc_floor) r) =
        free_slot-IsRetaining (next r.gc_floor) r h (omega arith) (omega arith)
          (λ t l. h.freed t (omega arith)) in
      let (kept, frees, reached) =
        free_acked-IsRetaining fuel floor (free_slot (next r.gc_floor) r) freed b (omega arith) in
      rw e (
        kept,
        Frees-trans r (free_slot (next r.gc_floor) r) _ (free_slot-Frees (next r.gc_floor) r at)
            frees,
        reached ∙ same,
      )
]

-- The budget is kept, or all that is delivered has been freed.
abbrev pub IsWithinBudget : Replica → Type 0
IsWithinBudget r =
    (r.retained_bytes ≤ r.config.max_retained_bytes) ⊎ (r.gc_floor ≡ r.decided_contig)

-- The budget has freed nothing, or no more than it had to: with the last value that it freed, the
-- retained values were over it.
abbrev pub IsSparing : Replica → Replica → Type 0
IsSparing r r' =
    (r' ≡ r)
    ⊎ ((value : Bytes) × (Map.get r.retained r'.gc_floor ≡ some value)
        × (r.config.max_retained_bytes < r'.retained_bytes + length value))

free_slot-IsSparing :
    (k : Slot) (v : Bytes) (r r' : Replica)
    → Map.get r.retained k ≡ some v
    → r.config.max_retained_bytes < r.retained_bytes
    → IsSparing (free_slot k r) r'
    → IsSparing r r'
free_slot-IsSparing k v r r' at over (inl is) =
    let floor : r'.gc_floor ≡ k = ap (λ (x : Replica). x.gc_floor) is in
    let bytes : r'.retained_bytes ≡ r.retained_bytes - length v =
      ap (λ (x : Replica). x.retained_bytes) is ∙ ground (arith, at) in
    inr (v, ap (Map.get r.retained) floor ∙ at, omega (arith, bytes, over))
free_slot-IsSparing k v r r' at over (inr (value, e, beyond)) =
    inr (value, ground (arith, Map.get-remove r.retained k r'.gc_floor, e), beyond)

-- Where the oldest value is beyond the frontier, no delivered value is retained.
freed_to_frontier :
    (r : Replica) (k : Slot)
    → IsRetaining r
    → Map.first_key r.retained ≡ some k
    → r.decided_contig < k
    → r.gc_floor ≡ r.decided_contig
freed_to_frontier r k h e beyond = omega (
  arith,
  h.behind,
  λ (l : r.gc_floor < r.decided_contig).
      h.kept r.decided_contig l (omega arith)
        (get-before_first_key k r.decided_contig r.retained h.sorted e (ground arith)),
)

-- The oldest value, once delivered, is that of the slot after the floor.
oldest_is_next :
    (r : Replica) (k : Slot)
    → IsRetaining r
    → Map.first_key r.retained ≡ some k
    → r.gc_floor < k
    → k ≤ r.decided_contig
    → k ≡ suc r.gc_floor
oldest_is_next r k h e above below = omega (
  arith,
  above,
  λ (l : suc r.gc_floor < k).
      h.kept (suc r.gc_floor) (omega arith) (omega (arith, l, below))
        (get-before_first_key k (suc r.gc_floor) r.retained h.sorted e (ground (arith, l))),
)

empty_is_within :
    (r : Replica) → IsRetaining r → r.retained ≡ [] → r.retained_bytes ≤ r.config.max_retained_bytes
unfolding total
empty_is_within r h e =
    let size : total length r.retained ≡ 0 = ap (λ m. total length m) e in
    omega (arith, size, h.counted)

free_over_budget-IsRetaining :
    (fuel : ℕ) (r : Replica)
    → IsRetaining r
    → length r.retained ≤ fuel
    → IsRetaining (free_over_budget fuel r)
      × Frees r (free_over_budget fuel r)
      × IsWithinBudget (free_over_budget fuel r)
      × IsSparing r (free_over_budget fuel r)
unfolding free_over_budget
free_over_budget-IsRetaining zero r h f = (
  h,
  Frees-refl r,
  inl (empty_is_within r h (empty_of_length r.retained (omega arith))),
  inl refl,
)
free_over_budget-IsRetaining (suc fuel) r h f = elim (Option-cases (Map.first_key r.retained)) [
  | inl e ↦
      rw (e, free_over_budget)
        (h, Frees-refl r, inl (empty_is_within r h (empty_of_first_key r.retained e)), inl refl)
  | inr (k, e) ↦
      elim (Bool-cases
        (ltb r.config.max_retained_bytes r.retained_bytes && leb k r.decided_contig)) [
          | inr d ↦
              rw (e, free_over_budget, d)
                (h, Frees-refl r, (ground (arith, d, freed_to_frontier r k h e)), inl refl)
          | inl d ↦
              let (v, at) = get-first_key k r.retained e in
              let above : r.gc_floor < k = ground (arith, h.freed k, at) in
              let freed =
                free_slot-IsRetaining k r h above (ground (arith, d))
                  (λ t l. get-before_first_key k t r.retained h.sorted e (ground arith)) in
              let smaller = length-remove k v r.retained at in
              let (kept, frees, within, sparing) =
                free_over_budget-IsRetaining fuel (free_slot k r) freed (omega arith) in
              rw (e, free_over_budget, d)
                (
                  kept,
                  Frees-trans r (free_slot k r) _
                      (free_slot-Frees k r (oldest_is_next r k h e above (ground (arith, d))))
                      frees,
                  within,
                  free_slot-IsSparing k v r _ at (ground (arith, d)) sparing,
                )
        ]
]

minimum-le : (a : Slot) (l : List Slot) → minimum a l ≤ a
minimum-le a [] = omega arith
minimum-le a (b ∷ l) = omega (arith, minimum-le (min a b) l)

-- The least is a bound of every element, here of the one just written.
minimum-set : (a : Slot) (l : List Slot) (i v : ℕ) → i < length l → minimum a (set l i v) ≤ v
minimum-set a [] i v h = absurd (omega arith)
minimum-set a (b ∷ l) zero v h = omega (arith, minimum-le (min a v) l)
minimum-set a (b ∷ l) (suc i) v h = minimum-set (min a b) l i v (omega arith)

least-set :
    (l : List Slot) (i v : ℕ) → i < length l → (m : Slot) × (least (set l i v) ≡ some m) × (m ≤ v)
least-set [] i v h = absurd (omega arith)
least-set (b ∷ l) zero v h = (minimum v l, refl, minimum-le v l)
least-set (b ∷ l) (suc i) v h = (minimum b (set l i v), refl, minimum-set b l i v (omega arith))

-- What is freed either everyone has acknowledged, or the budget asked for it: the floor is the
-- least acknowledgment, or was above it already; or else, with the value at the floor, the retained
-- values would be over the budget.
abbrev pub FreesNoMore : Slot → Replica → Replica → Type 0
FreesNoMore floor r r' =
    (r'.gc_floor ≡ max r.gc_floor floor)
    ⊎ ((value : Bytes) × (Map.get r.retained r'.gc_floor ≡ some value)
        × (r.config.max_retained_bytes < r'.retained_bytes + length value))

acked-FreesNoMore :
    (floor : Slot) (r mid r' : Replica)
    → Frees r mid
    → IsRetaining mid
    → mid.gc_floor ≡ max r.gc_floor floor
    → IsSparing mid r'
    → FreesNoMore floor r r'
acked-FreesNoMore floor r mid r' f h at (inl is) = inl (ap (λ (x : Replica). x.gc_floor) is ∙ at)
acked-FreesNoMore floor r mid r' f h at (inr (value, e, over)) =
    let beyond : mid.gc_floor < r'.gc_floor = ground (arith, h.freed r'.gc_floor, e) in
    let config : mid.config.max_retained_bytes ≡ r.config.max_retained_bytes =
      ap (λ (x : Replica). x.config.max_retained_bytes) f.rest in
    inr (value, sym (f.above r'.gc_floor beyond) ∙ e, omega (arith, over, config))

free_below-IsRetaining :
    (floor : Slot) (r : Replica)
    → IsRetaining r
    → floor ≤ r.decided_contig
    → IsRetaining (free_below floor r)
      × Frees r (free_below floor r)
      × (floor ≤ (free_below floor r).gc_floor)
      × IsWithinBudget (free_below floor r)
      × FreesNoMore floor r (free_below floor r)
free_below-IsRetaining floor r h b =
    let acked = free_acked (floor - r.gc_floor) floor r in
    let (kept, frees, reached) =
      free_acked-IsRetaining (floor - r.gc_floor) floor r h b (omega arith) in
    let (kept', frees', within, sparing) =
      free_over_budget-IsRetaining (length acked.retained) acked kept (omega arith) in
    (
      kept',
      Frees-trans r acked _ frees frees',
      omega (arith, reached, frees'.floor),
      within,
      acked-FreesNoMore floor r acked _ frees kept reached sparing,
    )

-- `maybe_gc` does not panic. It keeps the retained values without a gap and their size exact. The
-- floor never falls and reaches the least acknowledgment; no value above it is lost; the slot
-- states that it passes are dropped, and no other; and nothing else changes but the replica's own
-- acknowledgment. In the end the budget is kept or everything delivered has been freed; and it has
-- freed no more than the least acknowledgment allows or the budget asks for.
pub maybe_gc-IsRetaining :
    (r : Replica)
    → IsRetaining r
    → r.me_idx < length r.peer_acked
    → (r' : Replica) × (floor : Slot) × (maybe_gc r ≡ some r')
      × (least (ack_self r).peer_acked ≡ some floor)
      × IsRetaining r'
      × Frees (ack_self r) r'
      × (floor ≤ r'.gc_floor)
      × IsWithinBudget r'
      × FreesNoMore floor r r'
unfolding maybe_gc
maybe_gc-IsRetaining r h i =
    let (floor, at, below) = least-set r.peer_acked r.me_idx r.decided_contig i in
    let acked : IsRetaining (ack_self r) = record {
      sorted = h.sorted;
      counted = h.counted;
      kept = h.kept;
      freed = h.freed;
      behind = h.behind;
      word = h.word;
    } in
    let (kept, frees, reached, within, no_more) =
      free_below-IsRetaining floor (ack_self r) acked below in
    (
      free_below floor (ack_self r),
      floor,
      rw (at, maybe_gc) refl,
      at,
      kept,
      frees,
      reached,
      within,
      no_more,
    )
