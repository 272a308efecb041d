-- ===== src/Replica/Tests.antt =====
-- The replica's handlers at a concrete member of a group of three.
use raxos.Prelude.{
  suc, ◌+◌, ◌≤◌, ◌<◌, ◌≡◌, ◌⊎◌, refl, none, some, List, [], ◌∷◌, ◌++◌, Bytes, length, All, IsU64,
  range_from, if◌then◌else◌, arith, ◌-◌, ◌≢◌,
}
use raxos.Prelude.Map
use raxos.Prelude.Map.{Map}
use raxos.Prelude.Map.Total.{total}
use raxos.Prelude.Ordered.{nat_ord}
use raxos.Types.{Slot, CommandId, Proposal, id_ord}
use raxos.Codec.{
  Command, encode_batch, decode_batch, decode_whole, batch_reader, decode_counted, decode_command,
  decode_command_id, decode_bytes, read_many, read_u8, read_u32, read_u64, read_bytes,
  from_le_bytes, finished, reject_if, pure, ◌>>=◌,
}
use raxos.Wire.{learn_reply, ping}
use raxos.Recorder.Steps.{isr_default-IsOpened}
use raxos.Config.{Config, defaults}
use raxos.Pool.{new_entry}
use raxos.Pool.Dedup.{
  Dedup, dedup_default, is_delivered, mark_delivered, mark_seq, drain, origin_of,
}
use raxos.Pool.Dedup.Exact.{dedup_default-IsDedup, count, mem}
use raxos.Replica.{
  others, Replica, Action, send, deliver, initial, push, message_of, learn_chunk_bytes, index_of,
  new, size, new_slot, ping_interval,
}
use raxos.Replica.Retention.{ack_self, least, maybe_gc, try_deliver, batch_of}
use raxos.Replica.Retention.Freeing.{FreesNoMore, IsWithinBudget, maybe_gc-IsRetaining}
use raxos.Replica.Retention.Retaining.{IsRetaining, Frees}
use raxos.Replica.Retention.Delivering.{KeepsAbove, try_deliver-Advances}
use raxos.Replica.Retention.Batches.{stuck, onward, Delivers, ids, marked, news}
use raxos.Replica.Retention.Log.{slots_of, commands_of, log_ids, Delivers-once}
use raxos.Replica.Recording.{slot_at}
use raxos.Replica.Recording.Answers.{IsRecording, Answers}
use raxos.Replica.CatchUp.{on_learn}
use raxos.Replica.Timers.{ping_tick, forward_target, forward_interval, ensure_frontier_observed}
use raxos.Replica.Timers.Pinging.{ping_tick-to_each}
use raxos.Replica.Sending.{to_each}
use raxos.Replica.CatchUp.Serving.{IsRun, size_of, but_last, on_learn-IsRun}
use raxos.Replica.Batching.{take_unassigned_batch}
use raxos.Replica.Batching.Limits.{IsClaimable, IsAssigned, take_unassigned_batch-IsClaimable}

abbrev pub trio : Config
trio = defaults (1 ∷ 2 ∷ 3 ∷ []) 2 7

abbrev pub member : Replica
member = initial trio 1

member_is_new : new trio ≡ some member
unfolding new index_of
member_is_new = refl

-- An empty batch, and a member that holds it for slot 1, which is not delivered yet.
abbrev empty_batch : Bytes
empty_batch = 0 ∷ 0 ∷ 0 ∷ 0 ∷ 0 ∷ []

abbrev pub holding : Replica
holding = record member { retained = (1, empty_batch) ∷ []; retained_bytes = 5 }

holding-IsRetaining : IsRetaining holding
unfolding total Map.get
holding-IsRetaining = record {
  sorted = (tt, tt);
  counted = refl;
  kept = λ s l b. absurd (omega arith);
  freed = λ s l. ground arith;
  behind = omega arith;
  word = omega arith;
}

abbrev delivered : Replica
delivered = record holding { decided_contig = 1 }

delivered-IsRetaining : IsRetaining delivered
unfolding total Map.get
delivered-IsRetaining = record {
  sorted = (tt, tt);
  counted = refl;
  kept = λ s l b e. ground (arith, l, b, e);
  freed = λ s l. ground arith;
  behind = omega arith;
  word = omega arith;
}

maybe_gc-IsRetaining_example :
    (r' : Replica) × (floor : Slot) × (maybe_gc delivered ≡ some r')
    × (least (ack_self delivered).peer_acked ≡ some floor)
    × IsRetaining r'
    × Frees (ack_self delivered) r'
    × (floor ≤ r'.gc_floor)
    × IsWithinBudget r'
    × FreesNoMore floor delivered r'
maybe_gc-IsRetaining_example = maybe_gc-IsRetaining delivered delivered-IsRetaining (omega arith)

try_deliver-Advances_example :
    (r' : Replica) × (later : List Action) × (try_deliver 9 holding ≡ some r')
    × (r'.actions ≡ holding.actions ++ later)
    × Delivers holding.retained 0 dedup_default later r'.decided_contig r'.dedup
    × IsRetaining r'
    × IsWithinBudget r'
    × KeepsAbove holding r'
try_deliver-Advances_example = try_deliver-Advances 9 holding holding-IsRetaining (omega arith)

abbrev pub first_command : CommandId
first_command = record { origin = 1; boot = 7; seq = 1 }

abbrev pub batch : List Command
batch = (first_command, 97 ∷ []) ∷ []

-- The batch as a value, which slots 1 and 2 have both decided.
abbrev pub value : Bytes
value =
    0 ∷ 1 ∷ 0 ∷ 0 ∷ 0 ∷ 1 ∷ 0 ∷ 0 ∷ 0 ∷ 0 ∷ 0 ∷ 0 ∷ 0 ∷ 7 ∷ 0 ∷ 0 ∷ 0 ∷ 0 ∷ 0 ∷ 0 ∷ 0 ∷ 1 ∷ 0 ∷ 0
    ∷ 0 ∷ 0 ∷ 0 ∷ 0 ∷ 0 ∷ 1 ∷ 0 ∷ 0 ∷ 0 ∷ 97 ∷ []

abbrev pub log : Map Slot Bytes
log = (1, value) ∷ (2, value) ∷ []

pub value_is_batch : batch_of value ≡ batch
unfolding decode_batch decode_whole batch_reader decode_counted decode_command decode_command_id
    decode_bytes read_many read_u8 read_u32 read_u64 read_bytes from_le_bytes finished reject_if
    pure ◌>>=◌
value_is_batch = refl

-- Slot 1 hands the command over, slot 2 nothing.
abbrev pub both : List Action
both = deliver 1 batch ∷ deliver 2 [] ∷ []

abbrev pub after_one : Dedup
after_one = marked dedup_default (ids (batch_of value))

abbrev pub after_two : Dedup
after_two = marked after_one (ids (batch_of value))

at_slots : (Map.get log 1 ≡ some value) × (Map.get log 2 ≡ some value) × (Map.get log 3 ≡ none)
unfolding Map.get
at_slots = (refl, refl, refl)

handed_first : batch ≡ news dedup_default (batch_of value)
unfolding news mark_delivered mark_seq origin_of Map.get Map.insert
handed_first = rw value_is_batch refl

handed_second : [] ≡ news after_one (batch_of value)
unfolding news mark_delivered mark_seq drain origin_of marked Map.get Map.insert Map.remove
handed_second = rw value_is_batch refl

both-Delivers : Delivers log 0 dedup_default both 2 after_two
both-Delivers =
    onward 0 dedup_default value batch (deliver 2 [] ∷ []) 2 after_two at_slots.0 handed_first (
      onward 1 after_one value [] [] 2 after_two at_slots.1 handed_second
        (stuck 2 after_two at_slots.2))

log_numbers : All (λ (c : CommandId). (0 < c.seq) × IsU64 c.seq) (log_ids log 0 2)
unfolding log_ids Map.get
log_numbers = rw value_is_batch (omega arith)

Delivers-once_example :
    (count first_command (commands_of both) ≡ (
      if is_delivered dedup_default first_command
      then 0
      else if mem first_command (log_ids log 0 2)
      then 1
      else 0))
    × (slots_of both ≡ range_from 1 2)
    × (2 ≡ 0 + 2)
Delivers-once_example =
    Delivers-once log 0 dedup_default both 2 after_two first_command both-Delivers
      dedup_default-IsDedup log_numbers (omega arith)

pub member-IsRecording : IsRecording member
unfolding slot_at Map.get
member-IsRecording now slot = isr_default-IsOpened

abbrev offer : Proposal
offer = record { priority = 5; proposer = 1; value = empty_batch }

on_learn-IsRun_example :
    (values : List Bytes) × (on_learn 0 1 delivered
      ≡ some (push (send 1 (message_of (learn_reply 1 values) delivered)) delivered))
    × IsRun delivered.retained 1 values
    × (0 < length values)
    × ((1 + length values ≡ suc delivered.decided_contig)
        ⊎ ((1 + length values ≤ suc delivered.decided_contig)
            × (learn_chunk_bytes ≤ size_of values)))
    × (size_of (but_last values) < learn_chunk_bytes)
on_learn-IsRun_example =
    on_learn-IsRun 0 1 1 delivered delivered-IsRetaining refl (omega arith) (omega arith)
      (omega arith)

abbrev loaded : Replica
loaded = record member {
  pool = record { entries = (first_command, new_entry (97 ∷ []) 3) ∷ []; bytes = 29 };
}

take_unassigned_batch-IsClaimable_example :
    (batch : List Command) × (r' : Replica) × (take_unassigned_batch 1 loaded ≡ some (batch, r'))
    × All (IsClaimable loaded.pool.entries loaded.dedup) batch
    × All (IsAssigned 1 r'.pool.entries) batch
    × ((length (encode_batch batch) ≤ loaded.config.max_batch_bytes + 5) ⊎ (length batch ≡ 1))
    × (r'.pool.bytes ≡ loaded.pool.bytes)
take_unassigned_batch-IsClaimable_example = take_unassigned_batch-IsClaimable 1 loaded (tt, tt)

-- Member 2 knows that member 3 has delivered two slots.
abbrev lagging : Replica
lagging = record member { peer_acked = 0 ∷ 0 ∷ 2 ∷ [] }

ping_tick-to_each_example :
    ((ping_tick 2000000000 member ≡ some member)
      × ((size member ≡ 1) ⊎ (2000000000 - member.last_ping < ping_interval)))
    ⊎ ((ping_tick 2000000000 member
          ≡ some (record member {
            last_ping = 2000000000;
            actions =
                member.actions
                ++ to_each member.config.replicas (message_of ping member) (others member);
          }))
        × (size member ≢ 1)
        × (ping_interval ≤ 2000000000 - member.last_ping))
ping_tick-to_each_example = ping_tick-to_each 2000000000 member

frontier_observed :
    (ensure_frontier_observed 9 (record member { pool_pending_since = some 3 })).slots
    ≡ (1, new_slot 9) ∷ []
unfolding ensure_frontier_observed Map.get Map.insert
frontier_observed = refl

forwards_to_leader_first :
    (forward_target 0 member ≡ some 0)
    × (forward_target 1 member ≡ some 2)
    × (forward_target 2 member ≡ some 0)
    × (forward_interval member ≡ 500000000)
unfolding forward_target forward_interval
forwards_to_leader_first = (refl, refl, refl, refl)
