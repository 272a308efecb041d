-- ===== src/Replica/Opening.antt =====
-- src/replica.rs: `decide_slot`, `drive`, `activate` and `maybe_open_slots`, which call each other.
-- `opening` stands for the call of `maybe_open_slots` inside `decide_slot`; `open_loop` ties the
-- knot on fuel.
pub mod Activating
pub mod Pipeline
pub mod Ending
use raxos.Prelude.{
  ℕ, zero, suc, ◌+◌, Bool, true, false, not, ◌&&◌, ◌||◌, Option, none, some, List, [], ◌∷◌, Bytes,
  ltb, leb, if◌then◌else◌, max, add_u64, Ran, ran, panicked, unfinished, tried, chain,
}
use raxos.Prelude.Map.{Map}
use raxos.Types.{Slot, next}
use raxos.Codec.{Command, encode_batch}
use raxos.Recorder.{RecorderSlot, open_slot, decided}
use raxos.Proposer.{Run, ProposerState, idle, running, done, start}
use raxos.Rng.{Rng}
use raxos.Replica.{Replica, SlotState, size, is_leader, refresh_pool_pending}
use raxos.Replica.Recording.{slot_at, put_slot}
use raxos.Replica.Batching.{take_unassigned_batch}
use raxos.Replica.Deciding.{install, is_over_budget}
use raxos.Replica.Replying.{put_run}
use raxos.Replica.Driving.{drive_loop}

abbrev pub is_decided : RecorderSlot → Bool
is_decided (open_slot isr) = false
is_decided (decided value) = true

abbrev pub is_idle : ProposerState → Bool
is_idle idle = true
is_idle (running run) = false
is_idle done = false

abbrev pub is_running : ProposerState → Bool
is_running idle = false
is_running (running run) = true
is_running done = false

-- The tests of `decide_slot` that end it early.
abbrev pub is_settled : ℕ → Slot → Bytes → Bool → Replica → Bool
is_settled now slot value is_decider r =
    leb slot r.gc_floor
    || (is_over_budget slot value is_decider r || is_decided (slot_at now slot r).recorder)

unfoldable pub decide_slot :
    (Replica → Ran Replica) → ℕ → Slot → Bytes → Bool → Replica → Ran Replica
decide_slot opening now slot value is_decider r =
    chain (tried (install now slot value is_decider r)) λ installed.
      if is_settled now slot value is_decider r then ran installed else opening installed

-- What follows the loop of `drive`.
abbrev pub decide_driven : (Replica → Ran Replica) → ℕ → Slot → Option Bytes × Replica → Ran Replica
decide_driven opening now slot (none, r) = ran r
decide_driven opening now slot (some value, r) = decide_slot opening now slot value true r

unfoldable pub drive : (Replica → Ran Replica) → ℕ → ℕ → Slot → Replica → Ran Replica
drive opening fuel now slot r =
    chain (drive_loop fuel now slot r) λ out. decide_driven opening now slot out

-- The replica with a run that has been started for a slot.
abbrev pub started : Slot → SlotState → Run × Rng → Replica → Replica
started slot state (run, rng) r = record (put_run slot state run r) { rng = rng }

unfoldable pub activate : (Replica → Ran Replica) → ℕ → ℕ → Slot → Bytes → Replica → Ran Replica
activate opening fuel now slot value r =
    let state = slot_at now slot r in
    if not (is_idle state.proposer) || is_decided state.recorder
    then ran (put_slot slot state r)
    else (chain (tried (start value r.config.me r.me_idx (size r) (is_leader r) now r.rng))
        λ begun. drive opening fuel now slot (started slot state begun r))

-- The running proposers from a slot on.
unfoldable pub count_running : Slot → Map Slot SlotState → ℕ
count_running from [] = 0
count_running from ((slot, state) ∷ slots) =
    let rest = count_running from slots in
    if leb from slot && is_running state.proposer then suc rest else rest

-- `last_key_value`, or slot 0.
abbrev pub last_from : Slot → Map Slot SlotState → Slot
last_from found [] = found
last_from found ((slot, state) ∷ slots) = last_from slot slots

abbrev pub last_known : Map Slot SlotState → Slot
last_known slots = last_from 0 slots

-- The slot to open next.
abbrev pub next_open : Replica → Slot
next_open r = next (max (max r.max_open r.decided_contig) (last_known r.slots))

-- The two tests on the depth of the pipeline.
unfoldable pub has_room : Replica → Bool
has_room r =
    ltb (count_running (next r.decided_contig) r.slots) r.config.pipeline
    && not (ltb (add_u64 r.decided_contig r.config.pipeline) (next_open r))

-- `maybe_open_slots`, given its loop.
abbrev pub opened : (Replica → Ran Replica) → ℕ → Replica → Ran Replica
opened loop now r =
    if is_leader r then chain (loop r) (λ r'. ran (refresh_pool_pending now r')) else ran r

-- A round of the loop with the batch that it took for `slot`; `loop` is the rest of it.
abbrev pub open_batch :
    (Replica → Ran Replica) → ℕ → ℕ → Slot → Option (List Command × Replica) → Ran Replica
open_batch loop fuel now slot none = panicked
open_batch loop fuel now slot (some ([], r)) = ran r
open_batch loop fuel now slot (some (c ∷ cs, r)) =
    chain
      (activate (opened loop now) fuel now slot (encode_batch (c ∷ cs))
        (record r { max_open = slot }))
      loop

unfoldable pub open_loop : ℕ → ℕ → Replica → Ran Replica
open_loop zero now r = unfinished
open_loop (suc fuel) now r =
    if has_room r
    then open_batch (open_loop fuel now) fuel now (next_open r)
        (take_unassigned_batch (next_open r) r)
    else ran r

unfoldable pub maybe_open_slots : ℕ → ℕ → Replica → Ran Replica
maybe_open_slots fuel now r = opened (open_loop fuel now) now r
