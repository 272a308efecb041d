-- ===== src/Replica.antt =====
-- src/replica.rs: the state of one member of the group, and the helpers of its handlers. A queue
-- of actions is a list, the next one first. A `BTreeMap` is a sorted list of its entries.
pub mod Retention
pub mod Recording
pub mod CatchUp
pub mod Batching
pub mod Timers
pub mod Replying
pub mod Sending
pub mod Deciding
pub mod Driving
pub mod Opening
pub mod Forwarding
pub mod Hedging
pub mod Inputs
pub mod Waking
mod Tests
mod LifetimeTests
mod RunTests
mod InputTests
use raxos.Prelude.{
  not, select, range, ℕ, zero, suc, ◌+◌, ◌-◌, ◌*◌, ◌/◌, ◌%◌, Bool, true, false, Option, none, some,
  List, [], ◌∷◌, ◌++◌, Bytes, length, get_elem?, ◌>>=◌, replicate, range, ◌==◌, if◌then◌else◌,
  u64_mod, min, max,
}
use raxos.Prelude.Map.{Map}
use raxos.Types.{ReplicaId, Slot, CommandId}
use raxos.Codec.{Command}
use raxos.Wire.{Message, Payload}
use raxos.Recorder.{RecorderSlot, new_recorder}
use raxos.Proposer.{ProposerState, idle}
use raxos.Pool.{Pool, pool_default, has_unassigned}
use raxos.Pool.Dedup.{Dedup, dedup_default}
use raxos.Rng
use raxos.Rng.{Rng}
use raxos.Config.{Config}

abbrev pub ping_interval : ℕ
ping_interval = 1000000000

abbrev pub learn_chunk_bytes : ℕ
learn_chunk_bytes = 1048576

abbrev pub dedup_window : ℕ
dedup_window = 1024

pub data Action : Type 0 where
  send : (to : ReplicaId) → (message : Message) → Action
  deliver : (slot : Slot) → (commands : List Command) → Action

pub record SlotState : Type 0 where
  pub recorder : RecorderSlot
  pub proposer : ProposerState
  pub first_observed : ℕ
  pub last_progress : ℕ

-- `SlotState::new`
abbrev pub new_slot : ℕ → SlotState
new_slot now = record {
  recorder = new_recorder;
  proposer = idle;
  first_observed = now;
  last_progress = now;
}

pub record Replica : Type 0 where
  pub config : Config
  pub quorum : ℕ
  pub me_idx : ℕ
  pub boot : ℕ
  pub rng : Rng
  pub slots : Map Slot SlotState
  pub decided_contig : Slot
  pub retained : Map Slot Bytes
  pub retained_bytes : ℕ
  pub gc_floor : Slot
  pub peer_acked : List Slot
  pub pool : Pool
  pub dedup : Dedup
  pub next_seq : ℕ
  pub max_open : Slot
  pub pool_pending_since : Option ℕ
  pub learn_in_flight : Option (ℕ × ℕ)
  pub learn_attempts : ℕ
  pub last_ping : ℕ
  pub actions : List Action

-- `binary_search` in ids that ascend and differ.
unfoldable pub index_of : ReplicaId → List ReplicaId → Option ℕ
index_of r [] = none
index_of r (x ∷ xs) =
    let rest = index_of r xs in if x == r then some 0 else (rest >>= λ i. some (suc i))

abbrev pub initial : Config → ℕ → Replica
initial config me_idx = record {
  config = config;
  quorum = length config.replicas / 2 + 1;
  me_idx = me_idx;
  boot = config.rng_seed;
  rng = Rng.new config.rng_seed;
  slots = [];
  decided_contig = 0;
  retained = [];
  retained_bytes = 0;
  gc_floor = 0;
  peer_acked = replicate (length config.replicas) 0;
  pool = pool_default;
  dedup = dedup_default;
  next_seq = 0;
  max_open = 0;
  pool_pending_since = none;
  learn_in_flight = none;
  learn_attempts = 0;
  last_ping = 0;
  actions = [];
}

-- `Replica::new`; `none` is the panic of `expect`.
unfoldable pub new : Config → Option Replica
new config = do me_idx ← index_of config.me config.replicas; some (initial config me_idx)

-- `n`
abbrev pub size : Replica → ℕ
size r = length r.config.replicas

abbrev pub is_leader : Replica → Bool
is_leader r = r.me_idx == 0

-- `self.actions.push_back`
abbrev pub push : Action → Replica → Replica
push action r = record r { actions = r.actions ++ (action ∷ []) }

abbrev pub message_of : Payload → Replica → Message
message_of payload r = record { from = r.config.me; decided = r.decided_contig; payload = payload }

-- `send_to`; `none` is the panic of an index out of range.
unfoldable pub send_to : ℕ → Payload → Replica → Option Replica
send_to idx payload r = do
  to ← get_elem? r.config.replicas idx
  some (push (send to (message_of payload r)) r)

-- The indices of the other members.
abbrev pub others : Replica → List ℕ
others r = select (λ idx. not (idx == r.me_idx)) (range (size r))

-- A message to each of some members.
abbrev pub send_all : Payload → List ℕ → Replica → Option Replica
send_all payload [] r = some r
send_all payload (idx ∷ rest) r = do sent ← send_to idx payload r; send_all payload rest sent

-- `4 * pipeline as u64 + 64`, which is no overflow for a u32.
abbrev pub ahead_window : Replica → ℕ
ahead_window r = 4 * r.config.pipeline + 64

unfoldable pub refresh_pool_pending : ℕ → Replica → Replica
refresh_pool_pending now r = record r {
  pool_pending_since =
      if has_unassigned r.pool
      then elim r.pool_pending_since [ none ↦ some now | some since ↦ some since ]
      else none;
}
