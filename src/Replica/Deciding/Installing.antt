-- ===== src/Replica/Deciding/Installing.antt =====
-- An installed decision keeps what is retained in order, and is retained itself.
use raxos.Prelude.{ℕ, ◌<◌, ◌≡◌, ◌≢◌, Bool, true, some, List, [], Bytes, if◌then◌else◌}
use raxos.Prelude.Map
use raxos.Prelude.Map.{Map}
use raxos.Prelude.Ordered.{nat_ord}
use raxos.Types.{Slot, CommandId, id_ord}
use raxos.Pool.{PoolEntry}
use raxos.Wire.{decide}
use raxos.Recorder.{decided}
use raxos.Proposer.{done}
use raxos.Replica.{Replica, SlotState, Action, message_of, others}
use raxos.Replica.Sending.{to_each}
use raxos.Replica.Recording.{slot_at, put_slot}
use raxos.Replica.Retention.{batch_of}
use raxos.Replica.Deciding.{store, is_winner, rides, release}

-- The messages of the decider.
abbrev pub announced : Slot → Bytes → Bool → Replica → List Action
announced slot value is_decider r =
    if is_decider
    then to_each r.config.replicas (message_of (decide slot value) r) (others r)
    else []

-- The replica once the commands that rode in the slot and lost are free again.
abbrev released : Slot → Bytes → Replica → Replica
released slot value r = record r {
  pool = record r.pool { entries = release slot (batch_of value) r.pool.entries };
}

-- The replica as it is when a decision of an open slot has been stored.
abbrev pub settled : Slot → Bytes → SlotState → Replica → Replica
settled slot value state r =
    store slot value (put_slot slot (record state { recorder = decided value; proposer = done }) r)

-- The decision as it stands afterwards, unless it has been delivered and freed at once: the slot is
-- decided and its proposer done, the value is retained, and the other slots are as they were. Of
-- the pool, no command rides in the slot that is not in the value.
pub record IsInstalled (now : ℕ) (slot : Slot) (value : Bytes) (r r' : Replica) : Type 0 where
  pub retained : r'.gc_floor < slot → Map.get r'.retained slot ≡ some value
  pub state :
      r'.gc_floor < slot
      → Map.get r'.slots slot
        ≡ some (record (slot_at now slot r) { recorder = decided value; proposer = done })
  pub losers :
      (id : CommandId) (entry : PoolEntry)
      → Map.get r'.pool.entries id ≡ some entry
      → rides slot entry ≡ true
      → is_winner id (batch_of value) ≡ true
  pub others : (s : Slot) → r'.gc_floor < s → s ≢ slot → Map.get r'.slots s ≡ Map.get r.slots s
