-- ===== src/Replica/Inputs.antt =====
-- src/replica.rs: what an embedding calls: `receive`, `tick` and the readers.
use raxos.Prelude.{
  ℕ, true, false, Option, none, some, List, [], ◌∷◌, Bytes, get_elem?, set, ltb, ◌==◌,
  if◌then◌else◌, Ran, ran, tried, chain,
}
use raxos.Types.{ReplicaId, Slot, Proposal, next}
use raxos.Wire.{
  Message, Payload, ReplyFirst, record_call, record_reply, decide, forward, learn, learn_reply,
  ping,
}
use raxos.Replica.{Replica, Action, index_of}
use raxos.Replica.Retention.{maybe_gc}
use raxos.Replica.Recording.{on_record}
use raxos.Replica.CatchUp.{maybe_request_learn, on_learn}
use raxos.Replica.Timers.{ensure_frontier_observed, learn_tick, ping_tick}
use raxos.Replica.Replying
use raxos.Replica.Replying.{Next, fold_reply}
use raxos.Replica.Opening.{decide_slot, drive, maybe_open_slots}
use raxos.Replica.Hedging.{hedge_activate_due, retransmit_due}
use raxos.Replica.Forwarding.{on_forward, reforward_due}

-- `leader`; `none` is the panic of an index out of range.
abbrev pub leader : Replica → Option ReplicaId
leader r = get_elem? r.config.replicas 0

abbrev pub pop_front : List Action → Option Action × List Action
pop_front [] = (none, [])
pop_front (action ∷ actions) = (some action, actions)

abbrev pub poll_action : Replica → Option Action × Replica
poll_action r =
    let (action, actions) = pop_front r.actions in (action, record r { actions = actions })

-- The end of `on_record_reply`.
abbrev pub finish_reply : ℕ → ℕ → Slot → Next × Replica → Ran Replica
finish_reply fuel now slot (Replying.rest, r) = ran r
finish_reply fuel now slot (Replying.decide value, r) =
    decide_slot (maybe_open_slots fuel now) now slot value true r
finish_reply fuel now slot (Replying.drive, r) = drive (maybe_open_slots fuel now) fuel now slot r

unfoldable pub on_record_reply :
    ℕ → ℕ → ℕ → Slot → ℕ → ℕ → ReplyFirst → Option Proposal → Replica → Ran Replica
on_record_reply fuel now from_idx slot req_step reply_step first prior_agg r =
    chain (tried (fold_reply now from_idx slot req_step reply_step first prior_agg r))
      λ out. finish_reply fuel now slot out

-- The loop of `on_learn_reply`, at the slot of the next value.
unfoldable pub decide_each : ℕ → ℕ → Slot → List Bytes → Replica → Ran Replica
decide_each fuel now slot [] r = ran r
decide_each fuel now slot (value ∷ values) r =
    chain (decide_slot (maybe_open_slots fuel now) now slot value false r)
      λ decided. decide_each fuel now (next slot) values decided

unfoldable pub on_learn_reply : ℕ → ℕ → Slot → List Bytes → Replica → Ran Replica
on_learn_reply fuel now first_slot values r =
    decide_each fuel now first_slot values (record r { learn_in_flight = none })

-- The match of `receive`.
abbrev pub dispatch : ℕ → ℕ → ℕ → Payload → Replica → Ran Replica
dispatch fuel now from_idx (record_call slot step proposal) r =
    tried (on_record now from_idx slot step proposal r)
dispatch fuel now from_idx (record_reply slot req_step step first prior_agg) r =
    on_record_reply fuel now from_idx slot req_step step first prior_agg r
dispatch fuel now from_idx (decide slot value) r =
    decide_slot (maybe_open_slots fuel now) now slot value false r
dispatch fuel now from_idx (forward commands) r = on_forward fuel now commands r
dispatch fuel now from_idx (learn from_slot) r = tried (on_learn from_idx from_slot r)
dispatch fuel now from_idx (learn_reply first_slot values) r =
    on_learn_reply fuel now first_slot values r
dispatch fuel now from_idx ping r = ran r

-- The watermark of a peer's header; the inner test leaves a lower one aside.
abbrev pub observe : ℕ → Slot → Replica → Option Replica
observe from_idx their_decided r = elim (get_elem? r.peer_acked from_idx) [
  | none ↦ none
  | some acked ↦ some (record r {
    peer_acked =
        if ltb acked their_decided then set r.peer_acked from_idx their_decided else r.peer_acked;
  })
]

-- `receive` of a message from another member.
abbrev pub receive_from : ℕ → ℕ → ℕ → Message → Replica → Ran Replica
receive_from fuel now from_idx message r =
    chain (tried (observe from_idx message.decided r)) λ seen.
      chain (dispatch fuel now from_idx message.payload seen) λ handled.
        chain (tried (maybe_request_learn now from_idx message.decided handled))
          λ asked. tried (maybe_gc asked)

unfoldable pub receive : ℕ → ℕ → Message → Replica → Ran Replica
receive fuel now message r = elim (index_of message.from r.config.replicas) [
  | none ↦ ran r
  | some from_idx ↦ if from_idx == r.me_idx then ran r else receive_from fuel now from_idx message r
]

unfoldable pub tick : ℕ → ℕ → Replica → Ran Replica
tick fuel now r = chain (hedge_activate_due fuel now (ensure_frontier_observed now r)) λ hedged.
    chain (maybe_open_slots fuel now hedged) λ opened.
      chain (retransmit_due fuel now opened) λ resent.
        chain (tried (reforward_due now resent))
          λ forwarded. chain (tried (learn_tick now forwarded)) λ asked. tried (ping_tick now asked)
