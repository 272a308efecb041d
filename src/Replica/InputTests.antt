-- ===== src/Replica/InputTests.antt =====
-- What a replica is given from outside, at concrete members of a group of three.
use raxos.Prelude.{
  ◌≡◌, ◌≤◌, max, ◌⊎◌, inl, refl, sym, subst, true, false, none, some, [], ◌∷◌, Bytes, All, ran,
  arith,
}
use raxos.Prelude.Map
use raxos.Prelude.Ordered.{nat_ord}
use raxos.Types.{id_ord}
use raxos.Recorder.{isr_default, open_slot}
use raxos.Recorder.Steps.{isr_default-IsOpened}
use raxos.Proposer.{running, fresh_run, proposal_for}
use raxos.Proposer.Tracking.{fresh_run-Tracks}
use raxos.Config.{defaults}
use raxos.Replica.{Replica, SlotState, initial, is_leader}
use raxos.Replica.Recording.{slot_at}
use raxos.Replica.Driving.{drive_loop}
use raxos.Replica.Driving.Ends.{IsDriven}
use raxos.Replica.Driving.Looping.{Drives, drive_loop-Drives}
use raxos.Replica.Opening.{next_open, maybe_open_slots}
use raxos.Replica.Opening.Pipeline.{IsPipelined, Opens, IsFull}
use raxos.Replica.Opening.Ending.{maybe_open_slots-Opens}
use raxos.Replica.Forwarding.{on_forward}
use raxos.Replica.Forwarding.Taking.{IsTaken, on_forward-Takes}
use raxos.Replica.Batching.Keeping.{Keeps}
use raxos.Replica.Hedging.{settle_pending}
use raxos.Replica.Inputs.{tick}
use raxos.Replica.Waking.{
  next_wakeup, slots_deadline, frontier_deadline, forward_deadline, learn_deadline, ping_deadline,
}
use raxos.Replica.Waking.Early.{tick-next_wakeup}
use raxos.Replica.Waking.Deadlines.{IsBefore}
use raxos.Replica.Tests.{member, first_command}

abbrev lead : Replica
lead = initial (defaults (1 ∷ 2 ∷ 3 ∷ []) 1 7) 0

lead-IsPipelined : IsPipelined lead
unfolding slot_at Map.get
lead-IsPipelined = record {
  recording = λ now slot. isr_default-IsOpened;
  inside = omega arith;
  quorum = (omega arith, omega arith);
  pool = tt;
  known = omega arith;
  highest = omega arith;
  word = omega arith;
}

abbrev letter : Bytes
letter = 97 ∷ []

maybe_open_slots-Opens_example :
    (r' : Replica) × (maybe_open_slots 7 5 lead ≡ ran r')
    × Opens (next_open lead) lead r'
    × IsPipelined r'
    × (((is_leader lead ≡ true) × IsFull r') ⊎ ((is_leader lead ≡ false) × (r' ≡ lead)))
maybe_open_slots-Opens_example = maybe_open_slots-Opens 7 5 lead lead-IsPipelined (omega arith)

on_forward-Takes_example :
    (r' : Replica) × (on_forward 7 5 ((first_command, letter) ∷ []) lead ≡ ran r')
    × All (IsTaken ((first_command, letter) ∷ []) lead r') ((first_command, letter) ∷ [])
    × Keeps lead.pool.entries r'.pool.entries
    × (lead.pool.bytes ≤ r'.pool.bytes)
    × (r'.pool.bytes ≤ max lead.pool.bytes lead.config.max_pool_bytes)
    × (r'.dedup ≡ lead.dedup)
    × (r'.decided_contig ≡ lead.decided_contig)
    × (IsFull r' ⊎ (is_leader lead ≡ false))
on_forward-Takes_example =
    on_forward-Takes 7 5 ((first_command, letter) ∷ []) lead lead-IsPipelined (omega arith)

-- A member whose proposer for slot 1 is about to send its first step.
abbrev proposing : SlotState
proposing = record {
  recorder = open_slot isr_default;
  proposer = running (fresh_run letter 1 3 5);
  first_observed = 5;
  last_progress = 5;
}

abbrev ready : Replica
ready = record lead { slots = (1, proposing) ∷ [] }

proposing-IsDriven : IsDriven 3 proposing (fresh_run letter 1 3 5) isr_default
unfolding fresh_run proposal_for
proposing-IsDriven = record {
  runs = refl;
  records = refl;
  opened = isr_default-IsOpened;
  fresh = record {
    tracks = fresh_run-Tracks letter 1 3 5;
    sends = λ idx l. ((fresh_run letter 1 3 5).proposal, refl);
    unsent = refl;
  };
  later = omega arith;
}

ready_at : Map.get ready.slots 1 ≡ some proposing
unfolding Map.get
ready_at = refl

drive_loop-Drives_example :
    (r' : Replica) × (drive_loop 2 5 1 ready ≡ ran (none, r'))
    × Drives 1 (fresh_run letter 1 3 5) ready r'
unfolding fresh_run
drive_loop-Drives_example =
    drive_loop-Drives 0 5 1 ready proposing (fresh_run letter 1 3 5) isr_default (omega arith)
      (omega arith) (omega arith) ready_at proposing-IsDriven

-- A quiet member pings a second after the start.
wakes_to_ping : next_wakeup member ≡ some 1000000000
unfolding next_wakeup slots_deadline frontier_deadline forward_deadline learn_deadline ping_deadline
    Map.get
wakes_to_ping = refl

next_wakeup-IsBefore : IsBefore 999999999 (next_wakeup member)
next_wakeup-IsBefore = subst (IsBefore 999999999) (sym wakes_to_ping) (omega arith)

tick-next_wakeup_example : tick 7 999999999 member ≡ ran (settle_pending member)
tick-next_wakeup_example =
    tick-next_wakeup 7 999999999 member refl next_wakeup-IsBefore (omega arith) (omega arith)
      (inl refl)
