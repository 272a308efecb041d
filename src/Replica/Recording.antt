-- ===== src/Replica/Recording.antt =====
-- src/replica.rs: the recorder's side, `on_record`.
pub mod Answers
use raxos.Prelude.{
  ℕ, Bool, true, false, ◌||◌, Option, none, some, ◌>>=◌, ltb, leb, ◌==◌, if◌then◌else◌, add_u64,
}
use raxos.Prelude.Map
use raxos.Prelude.Ordered.{nat_ord}
use raxos.Types.{Slot, Proposal}
use raxos.Wire.{Payload, ReplyFirst, full, record_reply, decide}
use raxos.Recorder.{IsrSlot, IsrSummary, RecorderSlot, open_slot, decided, record_step, reply_first}
use raxos.Replica.{Replica, SlotState, new_slot, ahead_window, send_to}

-- `slots.entry(slot).or_insert_with(…)`
unfoldable pub slot_at : ℕ → Slot → Replica → SlotState
slot_at now slot r = elim (Map.get r.slots slot) [ none ↦ new_slot now | some state ↦ state ]

abbrev pub put_slot : Slot → SlotState → Replica → Replica
put_slot slot state r = record r { slots = Map.insert slot state r.slots }

-- The echo is elided only in a reply of the same step.
abbrev pub elided : ℕ → IsrSummary → Proposal → ReplyFirst
elided step summary request =
    if summary.step == step then reply_first summary.first request else full summary.first

-- The state of the slot after the invocation.
abbrev pub recorded_at : ℕ → SlotState → IsrSlot → Bool → SlotState
recorded_at now state isr changed = record state {
  recorder = open_slot isr;
  last_progress = if changed then now else state.last_progress;
}

-- The reply of a slot in `state`, which is put into the map; the recorder is its field.
abbrev pub answer :
    ℕ → ℕ → Slot → ℕ → Proposal → RecorderSlot → SlotState → Replica → Option Replica
answer now from_idx slot step proposal (decided value) state r =
    send_to from_idx (decide slot value) (put_slot slot state r)
answer now from_idx slot step proposal (open_slot isr) state r = do
  (summary, changed, isr') ← record_step isr step proposal
  send_to from_idx
      (record_reply slot step summary.step (elided step summary proposal) summary.prior_agg)
      (put_slot slot (recorded_at now state isr' changed) r)

unfoldable pub on_record : ℕ → ℕ → Slot → ℕ → Proposal → Replica → Option Replica
on_record now from_idx slot step proposal r =
    if leb slot r.gc_floor || ltb step 4
    then some r
    else if ltb (add_u64 r.decided_contig (ahead_window r)) slot
    then some r
    else (let state = slot_at now slot r in
        answer now from_idx slot step proposal state.recorder state r)
