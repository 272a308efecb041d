-- ===== src/Agreement/HandlerTests.antt =====
-- A member of a group of three that records its peer's first call; and the leader of one, which
-- has activated a slot, in a world that is reached, where the first answer of a peer decides.
use raxos.Prelude.{
  ℕ, ◌+◌, ◌≡◌, ◌<◌, refl, inl, true, false, none, some, [], ◌∷◌, Bytes, u32_mod, ran, arith,
}
use raxos.Prelude.Map
use raxos.Prelude.Ordered.{nat_ord}
use raxos.Types.{ReplicaId, Proposal, priority_h, proposal_ord}
use raxos.Wire.{full, record_call}
use raxos.Recorder.{IsrSlot, IsrSummary, open_slot, record_step, update_register, summarize}
use raxos.Recorder.Steps.{isr_default-IsOpened}
use raxos.Recorder.History.{replay}
use raxos.Config.{defaults}
use raxos.Proposer.{
  Run, running, fresh_run, start, proposal_for, fold, count_reply, step_complete, phase0,
}
use raxos.Replica.{Replica, SlotState, Action, send, message_of, send_to, initial, new_slot}
use raxos.Replica.Recording.{slot_at, on_record}
use raxos.Replica.Recording.Answers.{IsRecording}
use raxos.Replica.Replying.{Next, decide, put_run, fold_first, fold_reply}
use raxos.Replica.Driving.{sent_now, drive_loop, drive_round}
use raxos.Replica.Opening.{activate, drive}
use raxos.Agreement.{
  Group, Call, Answer, World, Reach, here, onward, put, put_proposer, empty_world, answer_of,
  starts, marks, calls, records, folds,
}
use raxos.Agreement.Refining.{group_of, Refines, fold_reply-Refines}
use raxos.Agreement.Recording.{Recorded, on_record-Recorded}

abbrev value : Bytes
value = 0 ∷ 0 ∷ 0 ∷ 0 ∷ 0 ∷ []

abbrev values : ℕ → Bytes
values i = value

abbrev member : Replica
member = initial (defaults (1 ∷ 2 ∷ 3 ∷ []) 2 7) 1

member-IsRecording : IsRecording member
unfolding slot_at Map.get
member-IsRecording now slot = isr_default-IsOpened

abbrev offer : Proposal
offer = record { priority = 5; proposer = 1; value = value }

abbrev call : Call
call = record { from = 0; to = 1; step = 4; proposal = offer }

abbrev called : World
called = record empty_world { calls = call ∷ [] }

new_register : (slot_at 9 1 member).recorder ≡ open_slot (replay [])
unfolding slot_at Map.get replay
new_register = refl

on_record-Recorded_example :
    (r' : Replica) × (on_record 9 0 1 4 offer member ≡ some r')
    × Recorded (group_of values member) called call 9 1 1 member r'
on_record-Recorded_example =
    on_record-Recorded (group_of values member) called call 9 1 1 member (inl refl)
      member-IsRecording refl new_register (omega arith) (omega arith) (omega arith)

-- The leader of the group, before and after it has activated slot 1: it has recorded its own first
-- step, counted its own answer, and called the others.
abbrev lead : Replica
lead = initial (defaults (1 ∷ 2 ∷ 3 ∷ []) 1 7) 0

abbrev own : Proposal
own = record { priority = priority_h; proposer = 1; value = value }

abbrev begun : Run
begun = fresh_run value 1 3 9

abbrev counted_one : Run
counted_one = count_reply (sent_now 9 begun) 0 own none

abbrev register : IsrSlot
register = record { step = 4; first = some own; current_agg = some own; prior_agg = none }

abbrev proposing : SlotState
proposing = record (new_slot 9) { recorder = open_slot register; proposer = running counted_one }

abbrev call_to : ReplicaId → Action
call_to id = send id (message_of (record_call 1 4 own) lead)

abbrev driven : Replica
driven = record lead { slots = (1, proposing) ∷ []; actions = call_to 2 ∷ call_to 3 ∷ [] }

activates_leader : activate (λ r. ran r) 1 9 1 value lead ≡ ran driven
unfolding activate drive drive_loop drive_round slot_at start fresh_run proposal_for record_step
    update_register summarize fold count_reply send_to Map.get Map.insert proposal_ord
activates_leader = refl

-- The world as it is then, in which the second member has answered too.
abbrev g : Group
g = group_of values driven

abbrev w1 : World
w1 = put_proposer 0 (running begun) empty_world

abbrev w2 : World
w2 = put_proposer 0 (running (sent_now 9 begun)) w1

abbrev own_call : ℕ → Call
own_call j = record { from = 0; to = j; step = 4; proposal = own }

abbrev summary : IsrSummary
summary = record { step = 4; first = own; prior_agg = none }

abbrev own_answer : ℕ → Answer
own_answer j = answer_of (own_call j) summary

abbrev w3 : World
w3 = record w2 { calls = own_call 0 ∷ [] }

abbrev w4 : World
w4 = record w3 { histories = put 0 ((4, own) ∷ []) w3.histories; answers = own_answer 0 ∷ [] }

abbrev w5 : World
w5 = put_proposer 0 (running counted_one) w4

abbrev w6 : World
w6 = record w5 { calls = own_call 1 ∷ own_call 0 ∷ [] }

abbrev answered : World
answered = record w6 {
  histories = put 1 ((4, own) ∷ []) w6.histories;
  answers = own_answer 1 ∷ own_answer 0 ∷ [];
}

answered-Reach : Reach g answered
unfolding start fresh_run proposal_for record_step update_register summarize replay fold count_reply
    proposal_ord
answered-Reach =
    onward w6 answered
      (onward w5 w6
        (onward w4 w5
          (onward w3 w4
            (onward w2 w3
              (onward w1 w2
                (onward empty_world w1 here
                  (starts 0 9 lead.rng (begun, lead.rng) (omega arith) refl refl))
                (marks 0 9 false begun refl))
              (calls 0 0 (sent_now 9 begun) own (omega arith) refl refl))
            (records (own_call 0) summary true register (inl refl) refl))
          (folds (own_answer 0) (sent_now 9 begun) counted_one (inl refl) refl refl))
        (calls 0 1 counted_one own (omega arith) refl refl))
      (records (own_call 1) summary true register (inl refl) refl)

-- The second answer decides the slot.
abbrev decides_own : Next × Replica
decides_own = (
  decide value,
  put_run 1 proposing (record (count_reply counted_one 1 own none) { best_first = none }) driven,
)

driven_at : Map.get driven.slots 1 ≡ some proposing
unfolding Map.get
driven_at = refl

counts_reply : fold_reply 9 1 1 4 4 (full own) none driven ≡ some decides_own
unfolding fold_reply fold_first Map.get fold count_reply fresh_run proposal_for proposal_ord
    step_complete phase0
counts_reply = refl

early : counted_one.step + 1 < u32_mod
unfolding fresh_run count_reply
early = omega arith

fold_reply-Refines_example : Refines g answered 0 1 decides_own
fold_reply-Refines_example =
    fold_reply-Refines values 9 1 driven proposing answered (own_answer 1) counted_one decides_own
      (inl refl) refl refl refl driven_at refl early counts_reply
