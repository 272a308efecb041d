-- ===== src/Replica/Batching.antt =====
-- src/replica.rs: `take_unassigned_batch`, which claims pool commands for a slot.
pub mod Costs
pub mod Limits
pub mod Keeping
use raxos.Prelude.{
  ℕ, ◌+◌, Bool, true, false, not, ◌&&◌, ◌||◌, Option, none, some, ◌>>=◌, List, [], ◌∷◌, Bytes,
  length, ltb, leb, if◌then◌else◌, add_u64,
}
use raxos.Prelude.Map
use raxos.Prelude.Map.{Map}
use raxos.Types.{Slot, CommandId, id_ord, command_wire_overhead}
use raxos.Codec.{Command}
use raxos.Pool.{Pool, PoolEntry}
use raxos.Pool.Dedup.{Dedup, high_water}
use raxos.Replica.{Replica, dedup_window}

-- `entry.proposed_in.is_some()`, or a number beyond the window of its origin.
unfoldable pub is_passed_over : Dedup → CommandId → PoolEntry → Bool
is_passed_over dedup id entry =
    (elim entry.proposed_in [ none ↦ false | some slot ↦ true ])
    || ltb (add_u64 (high_water dedup id.origin id.boot) dedup_window) id.seq

abbrev pub wire_cost : PoolEntry → ℕ
wire_cost entry = length entry.bytes + command_wire_overhead

-- The loop over the entries; `is_first` says that the batch is empty so far, `bytes` is its cost.
unfoldable pub claim : ℕ → Dedup → Map CommandId PoolEntry → Bool → ℕ → List Command
claim limit dedup [] is_first bytes = []
claim limit dedup ((id, entry) ∷ entries) is_first bytes =
    let passed = claim limit dedup entries is_first bytes in
    let more = claim limit dedup entries false (bytes + wire_cost entry) in
    if is_passed_over dedup id entry
    then passed
    else if not is_first && ltb limit (bytes + wire_cost entry)
    then []
    else if leb limit (bytes + wire_cost entry)
    then (id, entry.bytes) ∷ []
    else (id, entry.bytes) ∷ more

-- `proposed_in = Some(slot)` for the commands of a batch; `none` is the panic of `expect`.
unfoldable pub assign :
    Slot → List Command → Map CommandId PoolEntry → Option (Map CommandId PoolEntry)
assign slot [] entries = some entries
assign slot ((id, bytes) ∷ batch) entries = do
  entry ← Map.get entries id
  assign slot batch (Map.insert id (record entry { proposed_in = some slot }) entries)

unfoldable pub take_unassigned_batch : Slot → Replica → Option (List Command × Replica)
take_unassigned_batch slot r = do
  let batch = claim r.config.max_batch_bytes r.dedup r.pool.entries true 0
  entries ← assign slot batch r.pool.entries
  some (batch, record r { pool = record r.pool { entries = entries } })
