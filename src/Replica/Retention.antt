-- ===== src/Replica/Retention.antt =====
-- src/replica.rs: decided values: their in-order delivery, their retention and their release.
-- An empty batch stands for a value that does not decode, as in a release build, where
-- `debug_assert!` is nothing.
pub mod Retaining
pub mod Freeing
pub mod Batches
pub mod Delivering
pub mod Log
pub mod Lifetime
use raxos.Prelude.{
  ℕ, zero, suc, ◌+◌, ◌-◌, Bool, true, false, not, ◌&&◌, ◌||◌, Option, none, some, List, [], ◌∷◌,
  ◌++◌, Bytes, length, set, ltb, leb, ◌==◌, if◌then◌else◌, min,
}
use raxos.Prelude.Map
use raxos.Prelude.Map.{Map}
use raxos.Prelude.Ordered.{nat_ord}
use raxos.Types.{Slot, CommandId, id_ord, next}
use raxos.Codec.{Command, decode_batch}
use raxos.Pool
use raxos.Pool.{Pool}
use raxos.Pool.Dedup.{Dedup, mark_delivered}
use raxos.Replica.{Replica, Action, deliver, push, refresh_pool_pending}

-- `decode_batch(value).unwrap_or_else(Vec::new)`
abbrev pub batch_of : Bytes → List Command
batch_of value = elim (decode_batch value) [ none ↦ [] | some batch ↦ batch ]

-- The commands of a batch in turn: one that is new is taken out of the pool and handed over.
unfoldable pub deliver_batch : List Command → Dedup → Pool → List Command × (Dedup × Pool)
deliver_batch [] dedup pool = ([], (dedup, pool))
deliver_batch ((id, bytes) ∷ batch) dedup pool =
    let (fresh, marked) = mark_delivered dedup id in
    let kept = if fresh then Pool.remove pool id else pool in
    let (commands, after) = deliver_batch batch marked kept in
    ((if fresh then (id, bytes) ∷ commands else commands), after)

-- A round of the loop of `try_deliver` on the value of the slot after the frontier.
abbrev pub deliver_next : Bytes → Replica → Replica
deliver_next value r =
    let (commands, (dedup, pool)) = deliver_batch (batch_of value) r.dedup r.pool in
    push (deliver (next r.decided_contig) commands)
      (record r { dedup = dedup; pool = pool; decided_contig = next r.decided_contig })

-- The loop; every round uses up a retained value, so that their number is fuel enough.
unfoldable pub deliver_loop : ℕ → Replica → Replica
deliver_loop zero r = r
deliver_loop (suc fuel) r = elim (Map.get r.retained (next r.decided_contig)) [
  | none ↦ r
  | some value ↦ deliver_loop fuel (deliver_next value r)
]

abbrev pub free_slot : Slot → Replica → Replica
free_slot slot r = record r {
  gc_floor = slot;
  retained = Map.remove slot r.retained;
  retained_bytes = elim (Map.get r.retained slot) [
    | none ↦ r.retained_bytes
    | some value ↦ r.retained_bytes - length value
  ];
  slots = Map.remove slot r.slots;
}

-- `while self.gc_floor < floor`
unfoldable pub free_acked : ℕ → Slot → Replica → Replica
free_acked zero floor r = r
free_acked (suc fuel) floor r =
    let rest = free_acked fuel floor (free_slot (next r.gc_floor) r) in
    if ltb r.gc_floor floor then rest else r

-- `while self.retained_bytes > self.config.max_retained_bytes`: the oldest value goes, unless it
-- is not delivered yet.
unfoldable pub free_over_budget : ℕ → Replica → Replica
free_over_budget zero r = r
free_over_budget (suc fuel) r = elim (Map.first_key r.retained) [
  | none ↦ r
  | some oldest ↦
      let rest = free_over_budget fuel (free_slot oldest r) in
      if ltb r.config.max_retained_bytes r.retained_bytes && leb oldest r.decided_contig
      then rest
      else r
]

-- `iter().min().expect(…)`
abbrev pub minimum : Slot → List Slot → Slot
minimum a [] = a
minimum a (b ∷ bs) = minimum (min a b) bs

abbrev pub least : List Slot → Option Slot
least [] = none
least (a ∷ rest) = some (minimum a rest)

-- `self.peer_acked[self.me_idx] = self.decided_contig`, with an index that is in range.
abbrev pub ack_self : Replica → Replica
ack_self r = record r { peer_acked = set r.peer_acked r.me_idx r.decided_contig }

-- The loops of `maybe_gc` with the floor that the acknowledgments allow.
abbrev pub free_below : Slot → Replica → Replica
free_below floor r =
    let acked = free_acked (floor - r.gc_floor) floor r in
    free_over_budget (length acked.retained) acked

-- `maybe_gc`; a group without members would panic.
unfoldable pub maybe_gc : Replica → Option Replica
maybe_gc r = elim (least (ack_self r).peer_acked) [
  | none ↦ none
  | some floor ↦ some (free_below floor (ack_self r))
]

-- `try_deliver`
unfoldable pub try_deliver : ℕ → Replica → Option Replica
try_deliver now r =
    maybe_gc (refresh_pool_pending now (ack_self (deliver_loop (length r.retained) r)))
