-- ===== src/Recorder/Tests.antt =====
-- The runs of recorder.rs's tests, and the theorems at concrete histories.
use raxos.Prelude.{ℕ, ◌≡◌, refl, Bool, none, some, [], ◌∷◌, arith, Bytes, List}
use raxos.Types.{Proposal, proposal_ord, proposal_eq}
use raxos.Wire.{echo, full}
use raxos.Recorder.{
  IsrSlot, IsrSummary, isr_default, update_register, summarize, record_step, reply_first,
}
use raxos.Recorder.Steps.{IsOpened, isr_default-IsOpened, record_step_total}
use raxos.Recorder.History.{Invocation, replay, IsSummaryOf, replay-IsSummaryOf}

abbrev p : ℕ → ℕ → Bytes → Proposal
p priority proposer value = record { priority = priority; proposer = proposer; value = value }

-- Latest first: step 4 twice, the maximum last, then step 5.
abbrev climbed : List Invocation
climbed = (5, p 1 3 (99 ∷ [])) ∷ (4, p 50 2 (98 ∷ [])) ∷ (4, p 10 1 (97 ∷ [])) ∷ []

same_step_aggregates : replay climbed ≡ record {
  step = 5;
  first = some (p 1 3 (99 ∷ []));
  current_agg = some (p 1 3 (99 ∷ []));
  prior_agg = some (p 50 2 (98 ∷ []));
}
unfolding replay update_register proposal_ord
same_step_aggregates = refl

-- A skipped step leaves no prior aggregate; a stale invocation is dropped.
skipping_steps :
    replay ((4, p 99 2 (98 ∷ [])) ∷ (6, p 20 2 (98 ∷ [])) ∷ (4, p 10 1 (97 ∷ [])) ∷ []) ≡ record {
      step = 6;
      first = some (p 20 2 (98 ∷ []));
      current_agg = some (p 20 2 (98 ∷ []));
      prior_agg = none;
    }
unfolding replay update_register proposal_ord
skipping_steps = refl

-- A register at step 0 has nothing to report: this is the panic of `expect`.
step_zero_panics : record_step isr_default 0 (p 1 1 []) ≡ none
unfolding record_step update_register summarize
step_zero_panics = refl

elides_exact_echo_only :
    (reply_first (p 10 1 (97 ∷ [])) (p 10 1 (97 ∷ [])) ≡ echo)
    × (reply_first (p 10 1 (98 ∷ [])) (p 10 1 (97 ∷ [])) ≡ full (p 10 1 (98 ∷ [])))
unfolding reply_first proposal_eq
elides_exact_echo_only = (refl, refl)

replay-IsSummaryOf_example : IsSummaryOf climbed (replay climbed)
replay-IsSummaryOf_example = replay-IsSummaryOf climbed (omega arith)

record_step_total_example :
    (r : IsrSummary × Bool × IsrSlot) × (record_step isr_default 4 (p 10 1 (97 ∷ [])) ≡ some r)
    × IsOpened r.2
record_step_total_example =
    record_step_total isr_default 4 (p 10 1 (97 ∷ [])) isr_default-IsOpened (omega arith)
