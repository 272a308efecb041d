-- ===== src/Agreement/Tests.antt =====
-- A group of three: the leader's value is decided in the first step, by the leader's answer to
-- itself and that of one other recorder.
use raxos.Prelude.{ℕ, ◌+◌, true, ◌≡◌, refl, inl, inr, none, some, [], ◌∷◌, Bytes, arith}
use raxos.Types.{proposal_ord}
use raxos.Rng.{Rng}
use raxos.Recorder.{IsrSummary, IsrSlot, isr_default, record_step, update_register, summarize}
use raxos.Recorder.History.{replay}
use raxos.Proposer.{
  Run, running, done, fresh_run, start, proposal_for, fold, count_reply, step_complete, phase0,
}
use raxos.Agreement.{
  Group, Call, World, Reach, put, empty_world, here, onward, put_proposer, answer_of, starts, calls,
  records, folds, decides,
}
use raxos.Agreement.Justified.{lead}
use raxos.Agreement.Safety.{Reach-agree}

abbrev letter : Bytes
letter = 97 ∷ []

abbrev trio : Group
trio = record { size = 3; quorum = 2; ids = λ i. 10 + i; values = λ i. letter }

abbrev rng : Rng
rng = record { s0 = 1; s1 = 2; s2 = 3; s3 = 4 }

abbrev started : Run
started = fresh_run letter 10 3 5

abbrev w1 : World
w1 = put_proposer 0 (running started) empty_world

abbrev call : ℕ → Call
call j = record { from = 0; to = j; step = 4; proposal = lead trio }

abbrev w2 : World
w2 = record w1 { calls = call 0 ∷ [] }

abbrev w3 : World
w3 = record w2 { calls = call 1 ∷ call 0 ∷ [] }

abbrev summary : IsrSummary
summary = record { step = 4; first = lead trio; prior_agg = none }

abbrev register : IsrSlot
register = record {
  step = 4;
  first = some (lead trio);
  current_agg = some (lead trio);
  prior_agg = none;
}

abbrev w4 : World
w4 = record w3 {
  histories = put 0 ((4, lead trio) ∷ []) w3.histories;
  answers = answer_of (call 0) summary ∷ [];
}

abbrev w5 : World
w5 = record w4 {
  histories = put 1 ((4, lead trio) ∷ []) w4.histories;
  answers = answer_of (call 1) summary ∷ answer_of (call 0) summary ∷ [];
}

abbrev counted_one : Run
counted_one = count_reply started 0 (lead trio) none

abbrev counted_two : Run
counted_two = count_reply counted_one 1 (lead trio) none

abbrev w6 : World
w6 = put_proposer 0 (running counted_one) w5

abbrev w7 : World
w7 = record (put_proposer 0 done w6) { decisions = letter ∷ [] }

recorded_once : record_step isr_default 4 (lead trio) ≡ some (summary, true, register)
unfolding record_step update_register summarize
recorded_once = refl

w7-Reach : Reach trio w7
unfolding start fresh_run proposal_for record_step update_register summarize replay fold count_reply
    step_complete phase0 proposal_ord
w7-Reach =
    onward w6 w7
      (onward w5 w6
        (onward w4 w5
          (onward w3 w4
            (onward w2 w3
              (onward w1 w2
                (onward empty_world w1 here (starts 0 5 rng (started, rng) (omega arith) refl refl))
                (calls 0 0 started (lead trio) (omega arith) refl refl))
              (calls 0 1 started (lead trio) (omega arith) refl refl))
            (records (call 0) summary true register (inr (inl refl)) refl))
          (records (call 1) summary true register (inl refl) refl))
        (folds (answer_of (call 0) summary) started counted_one (inr (inl refl)) refl refl))
      (decides (answer_of (call 1) summary) counted_one counted_two
        (record counted_two { best_first = none }) letter (inl refl) refl refl refl)

Reach-agree_example : letter ≡ letter
Reach-agree_example =
    Reach-agree trio w7 letter letter (omega arith) (omega arith) w7-Reach (inl refl) (inl refl)
