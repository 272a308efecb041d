-- ===== src/Recorder/Steps.antt =====
-- One invocation of the register: what it changes, what it keeps, and what it reports.
use raxos.Prelude.{
  ℕ, ◌≤◌, ◌<◌, ◌≡◌, ◌≢◌, ◌⊎◌, ◌↔◌, inl, inr, refl, ap, Bool, false, none, some, arith, less_irrefl,
  Option-cases,
}
use native.Mathlib.Decide.{dec_lt}
use raxos.Types.{Proposal, proposal_ord}
use raxos.Recorder.{IsrSlot, IsrSummary, isr_default, update_register, summarize, record_step}

-- `first` is set as soon as a step has been entered.
pub record IsOpened (isr : IsrSlot) : Type 0 where
  pub entered : (isr.step ≡ 0) ⊎ (isr.first ≢ none)

pub isr_default-IsOpened : IsOpened isr_default
isr_default-IsOpened = record { entered = inl refl }

pub update_register-IsOpened :
    (isr : IsrSlot) (step : ℕ) (p : Proposal)
    → IsOpened isr
    → IsOpened (update_register isr step p).0
unfolding update_register
update_register-IsOpened isr step p h = ground (arith, h)

update_register-first :
    (isr : IsrSlot) (step : ℕ) (p : Proposal)
    → IsOpened isr
    → 0 < step
    → (f : Proposal) × ((update_register isr step p).0.first ≡ some f)
update_register-first isr step p h pos = elim (Option-cases (update_register isr step p).0.first) [
  | inl e ↦ absurd (unfold update_register in ground (arith, e, h))
  | inr r ↦ r
]

-- The summary of what `update_register` leaves.
abbrev pub summary_of : IsrSlot → Proposal → IsrSummary
summary_of isr f = record { step = isr.step; first = f; prior_agg = isr.prior_agg }

pub record_step-eq-some :
    (isr : IsrSlot) (step : ℕ) (p : Proposal)
    → IsOpened isr
    → 0 < step
    → (f : Proposal) × ((update_register isr step p).0.first ≡ some f)
      × (record_step isr step p
          ≡ some (
            summary_of (update_register isr step p).0 f,
            (update_register isr step p).1,
            (update_register isr step p).0,
          ))
record_step-eq-some isr step p h pos =
    let (f, e) = update_register-first isr step p h pos in
    (f, e, unfold record_step summarize in rw e refl)

-- On an opened register an invocation with a step from 1 on does not panic, and the
-- register that it leaves is opened again.
pub record_step_total :
    (isr : IsrSlot) (step : ℕ) (p : Proposal)
    → IsOpened isr
    → 0 < step
    → (r : IsrSummary × Bool × IsrSlot) × (record_step isr step p ≡ some r) × IsOpened r.2
record_step_total isr step p h pos =
    let (f, e) = update_register-first isr step p h pos in
    let isr' = (update_register isr step p).0 in
    let summary : IsrSummary = record { step = isr'.step; first = f; prior_agg = isr'.prior_agg } in
    (
      (summary, (update_register isr step p).1, isr'),
      (unfold record_step summarize in rw e),
      update_register-IsOpened isr step p h,
    )

-- The flag is false exactly when the register is left as it was.
pub record_step_changed :
    (isr : IsrSlot) (step : ℕ) (p : Proposal)
    → ((update_register isr step p).1 ≡ false) ↔ ((update_register isr step p).0 ≡ isr)
unfolding update_register
record_step_changed isr step p = (
  λ h. ground arith,
  λ h.
      ground (
        arith,
        less_irrefl p,
        ap (λ (i : IsrSlot). i.step) h,
        ap (λ (i : IsrSlot). i.current_agg) h,
      ),
)

-- The clock never falls and reaches the step of the invocation; if it stands still, the first
-- proposal and the aggregate of the prior step are as they were.
pub record_step_monotone :
    (isr : IsrSlot) (step : ℕ) (p : Proposal)
    → (step ≤ (update_register isr step p).0.step)
      × ((isr.step < (update_register isr step p).0.step)
          ⊎ (((update_register isr step p).0.step ≡ isr.step)
              × ((update_register isr step p).0.first ≡ isr.first)
              × ((update_register isr step p).0.prior_agg ≡ isr.prior_agg)))
unfolding update_register
record_step_monotone isr step p = (
  ground arith,
  elim (dec_lt isr.step step) [
    | yes up ↦ inl (ground arith)
    | no le ↦ inr (ground arith, ground arith, ground arith)
  ],
)
