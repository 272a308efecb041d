-- ===== src/Proposer/Tests.antt =====
-- The runs of proposer.rs's tests, and the theorems at concrete runs.
use raxos.Prelude.{ℕ, ◌≡◌, refl, true, false, none, some, [], ◌∷◌, Bytes, arith}
use raxos.Types.{Proposal, proposal_ord, priority_h}
use raxos.Rng.{Rng, new}
use raxos.Proposer.{
  Run, Folded, ignored, catch_up, quorum, StepOutcome, decided, fresh_run, start, begin_step,
  count_reply, fold, phase0, step_complete,
}
use raxos.Proposer.Draws.{AsDrawn, SendsDrawn, SendsSame, IsBegun, start_sends, begin_step_drawn}
use raxos.Proposer.Tracking.{Reply, Tracks, Folds, fresh_run-Tracks, count_reply-Tracks, fold-Folds}
use raxos.Proposer.Outcomes.{Completes, step_complete-Completes}

abbrev p : ℕ → ℕ → Bytes → Proposal
p priority proposer value = record { priority = priority; proposer = proposer; value = value }

abbrev leader_run : Run
leader_run = fresh_run (118 ∷ []) 1 3 0

-- The leader's own proposal comes back from two recorders.
abbrev first_reply : Reply
first_reply = record { from = 0; first = p priority_h 1 (118 ∷ []); agg = none }

abbrev second_reply : Reply
second_reply = record { from = 1; first = p priority_h 1 (118 ∷ []); agg = none }

abbrev run_one : Run
run_one = count_reply leader_run 0 (p priority_h 1 (118 ∷ [])) none

abbrev run_two : Run
run_two = count_reply run_one 1 (p priority_h 1 (118 ∷ [])) none

one_ignored : fold leader_run 0 4 4 (p priority_h 1 (118 ∷ [])) none 2 ≡ some (ignored, run_one)
unfolding fold fresh_run count_reply proposal_ord
one_ignored = refl

two_quorum : fold run_one 1 4 4 (p priority_h 1 (118 ∷ [])) none 2 ≡ some (quorum, run_two)
unfolding fold fresh_run count_reply proposal_ord
two_quorum = refl

fast_path : (r : Run) × (step_complete run_two ≡ some (decided (118 ∷ []), r))
unfolding step_complete phase0 fresh_run count_reply proposal_ord
fast_path = (_, refl)

recorder_ahead :
    fold leader_run 2 4 11 (p 55 3 (97 ∷ [])) none 2
    ≡ some (catch_up 11 (p 55 3 (97 ∷ [])), leader_run)
unfolding fold fresh_run
recorder_ahead = refl

one_Tracks : Tracks 3 run_one (first_reply ∷ [])
one_Tracks =
    count_reply-Tracks 3 2 leader_run first_reply [] (fresh_run-Tracks (118 ∷ []) 1 3 0)
      (omega arith) (omega arith)

two_Tracks : Tracks 3 run_two (second_reply ∷ first_reply ∷ [])
two_Tracks =
    count_reply-Tracks 3 2 run_one second_reply (first_reply ∷ []) one_Tracks (omega arith)
      (omega arith)

fold-Folds_example :
    (r : Folded × Run) × (fold run_one 1 4 4 (p priority_h 1 (118 ∷ [])) none 2 ≡ some r)
    × Folds 3 2 run_one (first_reply ∷ []) 4 4 second_reply r
fold-Folds_example =
    fold-Folds 3 2 run_one (first_reply ∷ []) 4 4 second_reply one_Tracks (omega arith)
      (omega arith) (omega arith)

step_complete-Completes_example :
    (r : StepOutcome × Run) × (step_complete run_two ≡ some r)
    × Completes 3 run_two (second_reply ∷ first_reply ∷ []) r
step_complete-Completes_example =
    step_complete-Completes 3 run_two (second_reply ∷ first_reply ∷ []) two_Tracks (omega arith)

start_sends_example :
    ((r : Run × Rng) × (start (118 ∷ []) 2 1 3 true 0 (new 5) ≡ some r)
      × SendsSame r.0 (p priority_h 2 (118 ∷ [])) 3
      × (r.0.step ≡ 4)
      × (r.1 ≡ new 5))
    × ((r : Run × Rng) × (start (118 ∷ []) 2 1 3 false 0 (new 5) ≡ some r)
        × SendsDrawn r.0 2 (118 ∷ []) 3
        × (r.0.step ≡ 4)
        × AsDrawn r 2 (118 ∷ []) 3 (new 5))
start_sends_example = start_sends (118 ∷ []) 2 1 3 0 (new 5) (omega arith)

abbrev round_two : Run
round_two = record leader_run { step = 8 }

begin_step_drawn_example :
    (r : Run × Rng) × (begin_step round_two 2 1 3 false 9 (new 5) ≡ some r)
    × IsBegun round_two r.0 9
    × SendsDrawn r.0 2 round_two.proposal.value 3
    × AsDrawn r 2 round_two.proposal.value 3 (new 5)
begin_step_drawn_example = begin_step_drawn round_two 2 1 3 9 false (new 5) (omega arith) refl

abbrev phase_one : Run
phase_one = record leader_run { step = 5 }
