-- ===== src/Replica/Driving.antt =====
-- src/replica.rs: `drive` up to its last call, which is `decide_slot`: the proposer's current step
-- goes to the replica's own recorder, and then to the others.
pub mod Rounds
pub mod Ends
pub mod Looping
use raxos.Prelude.{
  ℕ, zero, suc, Bool, true, false, not, Option, none, some, ◌>>=◌, List, [], ◌∷◌, Bytes,
  if◌then◌else◌, Ran, ran, panicked, unfinished,
}
use raxos.Prelude.Map
use raxos.Prelude.Ordered.{nat_ord}
use raxos.Types.{Slot, Proposal}
use raxos.Wire.{record_call}
use raxos.Recorder.{IsrSlot, RecorderSlot, open_slot, decided, record_step}
use raxos.Proposer
use raxos.Proposer.{
  Run, ProposerState, idle, running, done, Folded, ignored, catch_up, quorum, StepOutcome, advance,
  retry, proposal_for, fold, step_complete,
}
use raxos.Replica.{Replica, SlotState, send_to, others}
use raxos.Replica.Recording.{put_slot}
use raxos.Replica.Replying.{Next, rest, decide, drive, put_run, begin}

-- The broadcast of a step to other members, each with its own proposal.
abbrev pub send_step : Slot → ℕ → Run → List ℕ → Replica → Option Replica
send_step slot step run [] r = some r
send_step slot step run (idx ∷ idxs) r = do
  p ← proposal_for run idx
  sent ← send_to idx (record_call slot step p) r
  send_step slot step run idxs sent

-- The loop is left after the broadcast.
abbrev pub broadcast : Slot → ℕ → SlotState → Run → Replica → Option (Next × Replica)
broadcast slot step state run r = do
  sent ← send_step slot step run (others r) (put_run slot state run r)
  some (rest, sent)

abbrev pub after_own_quorum :
    ℕ → Slot → ℕ → SlotState → StepOutcome × Run → Replica → Option (Next × Replica)
after_own_quorum now slot step state (Proposer.decided value, run) r =
    some (decide value, put_run slot state run r)
after_own_quorum now slot step state (advance, run) r = begin now slot state run r
after_own_quorum now slot step state (retry, run) r = broadcast slot step state run r

-- What follows the reply of the replica's own recorder.
abbrev pub after_own : ℕ → Slot → ℕ → SlotState → Folded × Run → Replica → Option (Next × Replica)
after_own now slot step state (ignored, run) r = broadcast slot step state run r
after_own now slot step state (catch_up up adopt, run) r =
    begin now slot state (record run { step = up; proposal = adopt }) r
after_own now slot step state (quorum, run) r = do
  outcome ← step_complete run
  after_own_quorum now slot step state outcome r

abbrev pub record_own :
    ℕ → Slot → RecorderSlot → SlotState → Run → Replica → Option (Next × Replica)
record_own now slot (decided value) state run r =
    some (rest, put_slot slot (record state { proposer = done }) r)
record_own now slot (open_slot isr) state run r = do
  mine ← proposal_for run r.me_idx
  (summary, changed, isr') ← record_step isr run.step mine
  folded ← fold run r.me_idx run.step summary.step summary.first summary.prior_agg r.quorum
  after_own now slot run.step (record state { recorder = open_slot isr' }) folded r

abbrev pub sent_now : ℕ → Run → Run
sent_now now run = record run { needs_send = false; sent_at = now }

-- A round of the loop for a slot whose proposer is in some state; `drive` means another round.
abbrev pub drive_proposer : ℕ → Slot → SlotState → ProposerState → Replica → Option (Next × Replica)
drive_proposer now slot state idle r = some (rest, r)
drive_proposer now slot state done r = some (rest, r)
drive_proposer now slot state (running run) r =
    if not run.needs_send
    then some (rest, r)
    else record_own now slot state.recorder state (sent_now now run) r

unfoldable pub drive_round : ℕ → Slot → Replica → Option (Next × Replica)
drive_round now slot r = elim (Map.get r.slots slot) [
  | none ↦ some (rest, r)
  | some state ↦ drive_proposer now slot state state.proposer r
]

-- The loop, to the value that it decides, if any.
unfoldable pub drive_loop : ℕ → ℕ → Slot → Replica → Ran (Option Bytes × Replica)
drive_loop zero now slot r = unfinished
drive_loop (suc fuel) now slot r = elim (drive_round now slot r) [
  | none ↦ panicked
  | some (rest, r') ↦ ran (none, r')
  | some (decide value, r') ↦ ran (some value, r')
  | some (drive, r') ↦ drive_loop fuel now slot r'
]
