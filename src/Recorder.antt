-- ===== src/Recorder.antt =====
-- src/recorder.rs: the interval summary register of one slot, and a recorder's view of a slot.
pub mod Steps
pub mod History
pub mod Repeating
mod Tests
use raxos.Prelude.{
  ℕ, Bool, true, false, Option, none, some, Bytes, add_u32, ltb, ◌==◌, if◌then◌else◌,
  is_none_or_less, ◌>>=◌,
}
use raxos.Types.{Proposal, proposal_ord, proposal_eq}
use raxos.Wire.{ReplyFirst, echo, full}

pub record IsrSlot : Type 0 where
  pub step : ℕ
  pub first : Option Proposal
  pub current_agg : Option Proposal
  pub prior_agg : Option Proposal

-- The derived default.
abbrev pub isr_default : IsrSlot
isr_default = record { step = 0; first = none; current_agg = none; prior_agg = none }

pub record IsrSummary : Type 0 where
  pub step : ℕ
  pub first : Proposal
  pub prior_agg : Option Proposal

abbrev pub agg_less : Option Proposal → Proposal → Bool
agg_less current candidate = is_none_or_less current candidate

-- The part of `record` that changes the register, with the flag `changed`.
unfoldable pub update_register : IsrSlot → ℕ → Proposal → IsrSlot × Bool
update_register isr step proposal =
    if step == isr.step
    then (if agg_less isr.current_agg proposal
        then (record isr { current_agg = some proposal }, true)
        else (isr, false))
    else (if ltb isr.step step
        then (
          record {
            step = step;
            first = some proposal;
            current_agg = some proposal;
            prior_agg = if step == add_u32 isr.step 1 then isr.current_agg else none;
          },
          true,
        )
        else (isr, false))

-- The summary that `record` returns; `none` is the panic of its `expect`.
unfoldable pub summarize : IsrSlot → Option IsrSummary
summarize isr = do
  f ← isr.first
  some (record { step = isr.step; first = f; prior_agg = isr.prior_agg })

-- `IsrSlot::record`
unfoldable pub record_step : IsrSlot → ℕ → Proposal → Option (IsrSummary × Bool × IsrSlot)
record_step isr step proposal =
    let (isr', changed) = update_register isr step proposal in
    (do summary ← summarize isr'; some (summary, changed, isr'))

pub data RecorderSlot : Type 0 where
  open_slot : IsrSlot → RecorderSlot
  decided : Bytes → RecorderSlot

-- `RecorderSlot::new`
abbrev pub new_recorder : RecorderSlot
new_recorder = open_slot isr_default

unfoldable pub reply_first : Proposal → Proposal → ReplyFirst
reply_first summary_first request =
    if proposal_eq summary_first request then echo else full summary_first
