-- ===== src/Pool/Dedup/Origins.antt =====
-- One origin: what `mark_seq` does to the set of delivered sequence numbers.
use raxos.Prelude.{
  ℕ, zero, suc, ◌≤◌, ◌<◌, ◌≡◌, inl, inr, refl, ◌∙◌, true, false, not, ◌||◌, Bool-cases, [], ◌∷◌,
  add_u64, IsU64, leb, length, arith, if◌then◌else◌, ◌==◌,
}
use raxos.Prelude.Ordered.{nat_ord}
use raxos.Prelude.Map
use raxos.Prelude.Map.{Map}
use raxos.Pool.Dedup.{SeqSet, contains, OriginDedup, has_seq, drain, mark_seq}

-- Everything in the sparse set is a u64 above the mark.
pub record IsAbove (o : OriginDedup) : Type 0 where
  pub high : IsU64 o.high_water
  pub above : (n : ℕ) → contains o.above n ≡ true → (o.high_water < n) × IsU64 n

-- The mark has caught up: its successor is not delivered.
pub record IsOrigin (o : OriginDedup) : Type 0 where
  pub sparse : IsAbove o
  pub drained : contains o.above (add_u64 o.high_water 1) ≡ false

contains-remove :
    (s : SeqSet) (k n : ℕ) → contains (Map.remove k s) n ≡ (if k == n then false else contains s n)
contains-remove s k n = ground (arith, Map.get-remove s k n)

contains-insert :
    (s : SeqSet) (k n : ℕ)
    → contains (Map.insert k tt s) n ≡ (if k == n then true else contains s n)
contains-insert s k n = ground (arith, Map.get-insert s k n tt)

length-remove_le : (s : SeqSet) (k : ℕ) → length (Map.remove k s) ≤ length s
unfolding Map.remove
length-remove_le [] k = omega arith
length-remove_le ((j, w) ∷ s) k = ground (arith, length-remove_le s k)

-- Taking out an element makes the set smaller, which bounds the rounds of `drain`.
length-remove :
    (s : SeqSet) (k : ℕ) → contains s k ≡ true → suc (length (Map.remove k s)) ≤ length s
unfolding Map.remove Map.get
length-remove [] k h = ground arith
length-remove ((j, w) ∷ s) k h = ground (arith, length-remove_le s k, length-remove s k)

-- One round of `drain`.
abbrev advanced : OriginDedup → OriginDedup
advanced o = record {
  high_water = add_u64 o.high_water 1;
  above = Map.remove (add_u64 o.high_water 1) o.above;
}

-- The mark moves on by one without a wrap, since its successor is a u64 above it.
add_u64_above :
    (o : OriginDedup)
    → IsAbove o
    → contains o.above (add_u64 o.high_water 1) ≡ true
    → add_u64 o.high_water 1 ≡ suc o.high_water
add_u64_above o h e = omega (arith, h.above (add_u64 o.high_water 1) e, h.high)

advanced-IsAbove :
    (o : OriginDedup)
    → IsAbove o
    → contains o.above (add_u64 o.high_water 1) ≡ true
    → IsAbove (advanced o)
advanced-IsAbove o h e = record {
  high = (h.above (add_u64 o.high_water 1) e).1;
  above = λ n m. ground (
    arith,
    contains-remove o.above (add_u64 o.high_water 1) n,
    m,
    h.above n,
    add_u64_above o h e,
  );
}

advanced-has_seq :
    (o : OriginDedup)
    → IsAbove o
    → contains o.above (add_u64 o.high_water 1) ≡ true
    → (n : ℕ) → has_seq (advanced o) n ≡ has_seq o n
advanced-has_seq o h e n =
    ground (arith, contains-remove o.above (add_u64 o.high_water 1) n, e, add_u64_above o h e)

contains_empty : (s : SeqSet) (n : ℕ) → length s ≤ 0 → contains s n ≡ false
unfolding Map.get
contains_empty [] n h = refl
contains_empty (e ∷ s) n h = absurd (omega arith)

-- With as much fuel as the sparse set has elements, `drain` stops where the successor of the
-- mark is missing, and delivers nothing and forgets nothing.
pub drain-IsOrigin :
    (fuel : ℕ) (o : OriginDedup)
    → IsAbove o
    → length o.above ≤ fuel
    → IsOrigin (drain fuel o) × ((n : ℕ) → has_seq (drain fuel o) n ≡ has_seq o n)
unfolding drain
drain-IsOrigin zero o h b = (
  record { sparse = h; drained = contains_empty o.above (add_u64 o.high_water 1) (omega arith) },
  λ n. refl,
)
drain-IsOrigin (suc fuel) o h b = elim (Bool-cases (contains o.above (add_u64 o.high_water 1))) [
  | inr e ↦ rw e (record { sparse = h; drained = e }, λ n. refl)
  | inl e ↦
      let smaller = length-remove o.above (add_u64 o.high_water 1) e in
      let (rest, seqs) = drain-IsOrigin fuel (advanced o) (advanced-IsAbove o h e) (omega arith) in
      rw e (rest, λ n. seqs n ∙ advanced-has_seq o h e n)
]

insert-IsAbove :
    (o : OriginDedup) (seq : ℕ)
    → IsAbove o
    → IsU64 seq
    → leb seq o.high_water ≡ false
    → IsAbove (record o { above = Map.insert seq tt o.above })
insert-IsAbove o seq h u e = record {
  high = h.high;
  above = λ n m. ground (arith, contains-insert o.above seq n, m, h.above n, e);
}

-- Marking a number reports whether it was new, delivers it and no other, and keeps the origin
-- drained.
pub mark_seq-IsOrigin :
    (o : OriginDedup) (seq : ℕ)
    → IsOrigin o
    → IsU64 seq
    → IsOrigin (mark_seq o seq).1
      × ((mark_seq o seq).0 ≡ not (has_seq o seq))
      × ((n : ℕ) → has_seq (mark_seq o seq).1 n ≡ (seq == n || has_seq o n))
unfolding mark_seq
mark_seq-IsOrigin o seq h u = elim (Bool-cases (has_seq o seq)) [
  | inl e ↦ rw e (h, refl, λ n. ground (arith, e))
  | inr e ↦
      let (rest, seqs) =
        drain-IsOrigin (length (Map.insert seq tt o.above))
          (record o { above = Map.insert seq tt o.above })
          (insert-IsAbove o seq h.sparse u (ground arith)) (omega arith) in
      rw e (rest, refl, λ n. seqs n ∙ ground (arith, contains-insert o.above seq n))
]
