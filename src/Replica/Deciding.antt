-- ===== src/Replica/Deciding.antt =====
-- src/replica.rs: `decide_slot` up to its last call, which is `maybe_open_slots`.
pub mod Installing
use raxos.Prelude.{
  ℕ, ◌+◌, Bool, true, false, not, ◌&&◌, ◌||◌, Option, none, some, ◌>>=◌, List, [], ◌∷◌, Bytes,
  length, ltb, leb, ◌==◌, if◌then◌else◌,
}
use raxos.Prelude.Map
use raxos.Prelude.Map.{Map}
use raxos.Prelude.Ordered.{nat_ord, same}
use raxos.Types.{Slot, CommandId, id_ord, next}
use raxos.Codec.{Command}
use raxos.Wire.{decide}
use raxos.Recorder.{RecorderSlot, open_slot, decided}
use raxos.Proposer.{done}
use raxos.Pool.{Pool, PoolEntry}
use raxos.Replica.{Replica, SlotState, others, send_all, refresh_pool_pending}
use raxos.Replica.Recording.{slot_at, put_slot}
use raxos.Replica.Retention.{batch_of, try_deliver}

-- `winners.contains(id)`
abbrev pub is_winner : CommandId → List Command → Bool
is_winner id [] = false
is_winner id ((other, bytes) ∷ batch) = same other id || is_winner id batch

abbrev pub rides : Slot → PoolEntry → Bool
rides slot entry = elim entry.proposed_in [ none ↦ false | some other ↦ other == slot ]

-- Commands that rode in the slot and lost may be batched again.
abbrev pub release : Slot → List Command → Map CommandId PoolEntry → Map CommandId PoolEntry
release slot winners [] = []
release slot winners ((id, entry) ∷ entries) =
    (
      id,
      if rides slot entry && not (is_winner id winners)
          then record entry { proposed_in = none }
          else entry,
    )
    ∷ release slot winners entries

-- `self.retained.insert`, with the count.
abbrev pub store : Slot → Bytes → Replica → Replica
store slot value r = record r {
  retained = Map.insert slot value r.retained;
  retained_bytes = elim (Map.get r.retained slot) [
    | none ↦ r.retained_bytes + length value
    | some old ↦ r.retained_bytes
  ];
}

-- What follows the installation: dissemination by the decider, the pool, and delivery.
abbrev pub spread : ℕ → Slot → Bytes → Bool → Replica → Option Replica
spread now slot value is_decider r = do
  sent ← if is_decider then send_all (decide slot value) (others r) r else some r
  try_deliver now (
      refresh_pool_pending now (record sent {
        pool = record sent.pool { entries = release slot (batch_of value) sent.pool.entries };
      }))

-- By the recorder of the slot.
abbrev pub install_at :
    ℕ → Slot → Bytes → Bool → RecorderSlot → SlotState → Replica → Option Replica
install_at now slot value is_decider (decided old) state r =
    some (put_slot slot (record state { proposer = done }) r)
install_at now slot value is_decider (open_slot isr) state r = spread now slot value is_decider (
    store slot value (put_slot slot (record state { recorder = decided value; proposer = done }) r))

-- A remote decision beyond the frontier that does not fit the budget is not kept.
abbrev pub is_over_budget : Slot → Bytes → Bool → Replica → Bool
is_over_budget slot value is_decider r =
    not is_decider
    && (ltb (next r.decided_contig) slot
        && ltb r.config.max_retained_bytes (r.retained_bytes + length value))

unfoldable pub install : ℕ → Slot → Bytes → Bool → Replica → Option Replica
install now slot value is_decider r =
    if leb slot r.gc_floor
    then some r
    else if is_over_budget slot value is_decider r
    then some r
    else (let state = slot_at now slot r in
        install_at now slot value is_decider state.recorder state r)
