-- ===== src/Replica/Replying.antt =====
-- src/replica.rs: the first part of `on_record_reply`, up to the call of `decide_slot` or `drive`
-- that it ends in.
pub mod Echoes
pub mod Totals
use raxos.Prelude.{
  ℕ, Bool, true, false, not, Option, none, some, ◌>>=◌, Bytes, length, ◌==◌, if◌then◌else◌,
}
use raxos.Prelude.Map
use raxos.Prelude.Ordered.{nat_ord}
use raxos.Types.{Slot, Proposal}
use raxos.Wire.{ReplyFirst, echo, full}
use raxos.Proposer.{
  Run, ProposerState, idle, running, done, Folded, ignored, catch_up, quorum, StepOutcome, decided,
  advance, retry, proposal_for, begin_step, fold, step_complete,
}
use raxos.Rng.{Rng}
use raxos.Replica.{Replica, SlotState, size, is_leader}
use raxos.Replica.Recording.{put_slot}

-- What is left to do: nothing, `decide_slot` with a value, or `drive`.
pub data Next : Type 0 where
  rest : Next
  decide : Bytes → Next
  drive : Next

-- The run of a slot, put back.
abbrev pub put_run : Slot → SlotState → Run → Replica → Replica
put_run slot state run r = put_slot slot (record state { proposer = running run }) r

-- The first proposal of a reply; the inner `none` is a stale echo, the outer one a panic.
abbrev pub first_of : ReplyFirst → ℕ → ℕ → Run → Option (Option Proposal)
first_of (full proposal) req_step from_idx run = some (some proposal)
first_of echo req_step from_idx run =
    if req_step == run.step then (do p ← proposal_for run from_idx; some (some p)) else some none

-- `begin_step` on the run, which is then to be driven.
abbrev pub begin : ℕ → Slot → SlotState → Run → Replica → Option (Next × Replica)
begin now slot state run r = do
  (begun, rng) ← begin_step run r.config.me r.me_idx (size r) (is_leader r) now r.rng
  some (drive, record (put_run slot state begun r) { rng = rng })

abbrev pub after_quorum :
    ℕ → Slot → SlotState → StepOutcome × Run → Replica → Option (Next × Replica)
after_quorum now slot state (decided value, run) r = some (decide value, put_run slot state run r)
after_quorum now slot state (advance, run) r = begin now slot state run r
after_quorum now slot state (retry, run) r = some (rest, put_run slot state run r)

abbrev pub after_fold : ℕ → Slot → SlotState → Folded × Run → Replica → Option (Next × Replica)
after_fold now slot state (ignored, run) r = some (rest, put_run slot state run r)
after_fold now slot state (catch_up step adopt, run) r =
    begin now slot state (record run { step = step; proposal = adopt }) r
after_fold now slot state (quorum, run) r = do
  outcome ← step_complete run
  after_quorum now slot state outcome r

unfoldable pub fold_first :
    ℕ
    → ℕ
    → Slot
    → ℕ
    → ℕ
    → Option Proposal
    → Option Proposal
    → SlotState
    → Run
    → Replica
    → Option (Next × Replica)
fold_first now from_idx slot req_step reply_step none prior_agg state run r = some (rest, r)
fold_first now from_idx slot req_step reply_step (some first) prior_agg state run r = do
  folded ← fold run from_idx req_step reply_step first prior_agg r.quorum
  after_fold now slot state folded r

-- The reply for a slot whose proposer is in some state.
abbrev pub on_proposer :
    ℕ
    → ℕ
    → Slot
    → ℕ
    → ℕ
    → ReplyFirst
    → Option Proposal
    → SlotState
    → ProposerState
    → Replica
    → Option (Next × Replica)
on_proposer now from_idx slot req_step reply_step first prior_agg state idle r = some (rest, r)
on_proposer now from_idx slot req_step reply_step first prior_agg state done r = some (rest, r)
on_proposer now from_idx slot req_step reply_step first prior_agg state (running run) r = do
  known ← first_of first req_step from_idx run
  fold_first now from_idx slot req_step reply_step known prior_agg state run r

unfoldable pub fold_reply :
    ℕ → ℕ → Slot → ℕ → ℕ → ReplyFirst → Option Proposal → Replica → Option (Next × Replica)
fold_reply now from_idx slot req_step reply_step first prior_agg r = elim (Map.get r.slots slot) [
  | none ↦ some (rest, r)
  | some state ↦
      on_proposer now from_idx slot req_step reply_step first prior_agg state state.proposer r
]
