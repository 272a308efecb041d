-- ===== src/Replica/Retention/Retaining.antt =====
-- What is retained, and what freeing leaves of a replica.
use raxos.Prelude.{
  suc, ◌≤◌, ◌<◌, ◌≡◌, ◌≢◌, refl, ap, ◌∙◌, ◌&&◌, none, length, IsU64, ltb, leb, arith, if◌then◌else◌,
}
use raxos.Prelude.Map
use raxos.Prelude.Map.{Map}
use raxos.Prelude.Map.Sorted.{IsSorted, remove-IsSorted}
use raxos.Prelude.Map.Total.{total, total-remove}
use raxos.Prelude.Ordered.{nat_ord}
use raxos.Types.{Slot}
use raxos.Replica.{Replica}
use raxos.Replica.Retention.{free_slot}

-- What is retained: the values from the floor to the frontier without a gap, perhaps some beyond
-- it, none up to the floor; and `retained_bytes` is their size.
pub record IsRetaining (r : Replica) : Type 0 where
  pub sorted : IsSorted r.retained
  pub counted : r.retained_bytes ≡ total length r.retained
  pub kept : (s : Slot) → r.gc_floor < s → s ≤ r.decided_contig → Map.get r.retained s ≢ none
  pub freed : (s : Slot) → s ≤ r.gc_floor → Map.get r.retained s ≡ none
  pub behind : r.gc_floor ≤ r.decided_contig
  pub word : IsU64 r.decided_contig

-- From `r` to `r'` the floor may have risen: the values up to it are gone, and so are the states of
-- the slots that it passed. Nothing else has changed.
pub record Frees (r r' : Replica) : Type 0 where
  pub floor : r.gc_floor ≤ r'.gc_floor
  pub above : (s : Slot) → r'.gc_floor < s → Map.get r'.retained s ≡ Map.get r.retained s
  pub dropped :
      (s : Slot)
      → Map.get r'.slots s
        ≡ (if ltb r.gc_floor s && leb s r'.gc_floor then none else Map.get r.slots s)
  pub rest : r' ≡ record r {
    gc_floor = r'.gc_floor;
    retained = r'.retained;
    retained_bytes = r'.retained_bytes;
    slots = r'.slots;
  }

pub Frees-refl : (r : Replica) → Frees r r
Frees-refl r = record {
  floor = omega arith;
  above = λ s h. refl;
  dropped = λ s. ground arith;
  rest = refl;
}

pub Frees-trans : (a b c : Replica) → Frees a b → Frees b c → Frees a c
Frees-trans a b c f g = record {
  floor = omega (arith, f.floor, g.floor);
  above = λ s h. g.above s h ∙ f.above s (omega (arith, g.floor));
  dropped = λ s. ground (arith, f.dropped s, g.dropped s, f.floor, g.floor);
  rest =
      g.rest
      ∙ ap
          (λ (x : Replica). record x {
            gc_floor = c.gc_floor;
            retained = c.retained;
            retained_bytes = c.retained_bytes;
            slots = c.slots;
          })
          f.rest;
}

pub free_slot-IsRetaining :
    (s : Slot) (r : Replica)
    → IsRetaining r
    → r.gc_floor < s
    → s ≤ r.decided_contig
    → ((t : Slot) → t < s → Map.get r.retained t ≡ none)
    → IsRetaining (free_slot s r)
free_slot-IsRetaining s r h above below none_before = record {
  sorted = remove-IsSorted s r.retained h.sorted;
  counted = ground (arith, h.counted, total-remove length s r.retained h.sorted);
  kept = λ t l b e. h.kept t (omega arith) b (ground (arith, Map.get-remove r.retained s t, e));
  freed = λ t l. ground (arith, Map.get-remove r.retained s t, none_before t);
  behind = below;
  word = h.word;
}

pub free_slot-Frees : (s : Slot) (r : Replica) → s ≡ suc r.gc_floor → Frees r (free_slot s r)
free_slot-Frees s r above = record {
  floor = omega arith;
  above = λ t l. ground (arith, Map.get-remove r.retained s t);
  dropped = λ t. ground (arith, Map.get-remove r.slots s t);
  rest = refl;
}
