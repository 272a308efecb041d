-- ===== src/Replica/RunTests.antt =====
-- The replies that a running member gets, and a decision that it takes in.
use raxos.Prelude.{◌≡◌, refl, none, some, [], ◌∷◌, arith}
use raxos.Prelude.Map
use raxos.Prelude.Map.{Map}
use raxos.Prelude.Ordered.{nat_ord}
use raxos.Types.{Proposal, id_ord, priority_h}
use raxos.Wire.{echo, full}
use raxos.Recorder.{reply_first}
use raxos.Proposer.{running, fresh_run, proposal_for}
use raxos.Proposer.Tracking.{fresh_run-Tracks}
use raxos.Replica.Replying.{Next, fold_reply}
use raxos.Replica.Replying.Echoes.{fold_reply-reply_first}
use raxos.Replica.Replying.Totals.{fold_reply-Returns}
use raxos.Replica.{Replica, new_slot, SlotState}
use raxos.Replica.Tests.{member, value}

-- Member 2 is running a proposer of slot 1, which has sent its value with the reserved priority.
abbrev proposing : SlotState
proposing = record (new_slot 9) { proposer = running (fresh_run value 2 3 9) }

abbrev busy : Replica
busy = record member { slots = (1, proposing) ∷ [] }

abbrev own : Proposal
own = record { priority = priority_h; proposer = 2; value = value }

busy_at : Map.get busy.slots 1 ≡ some proposing
unfolding Map.get
busy_at = refl

busy_sends :
    (proposal_for (fresh_run value 2 3 9) 2 ≡ some own) × ((fresh_run value 2 3 9).step ≡ 4)
unfolding proposal_for fresh_run
busy_sends = (refl, refl)

fold_reply-reply_first_example :
    fold_reply 9 2 1 (fresh_run value 2 3 9).step 4 (reply_first own own) none busy
    ≡ fold_reply 9 2 1 (fresh_run value 2 3 9).step 4 (full own) none busy
fold_reply-reply_first_example =
    fold_reply-reply_first 9 2 1 4 own own none busy proposing (fresh_run value 2 3 9) busy_at refl
      busy_sends.0

fold_reply-Returns_example :
    (out : Next × Replica) × (fold_reply 9 2 1 4 4 echo none busy ≡ some out)
fold_reply-Returns_example =
    fold_reply-Returns 9 2 1 4 4 echo none busy proposing (fresh_run value 2 3 9) [] own busy_at
      refl (fresh_run-Tracks value 2 3 9) (omega arith) (omega arith) (omega arith) (omega arith)
      busy_sends.0
