-- ===== src/Replica/Hedging.antt =====
-- src/replica.rs: the timers that start and resend proposals.
use raxos.Prelude.{
  ℕ, ◌*◌, ◌-◌, Bool, true, false, not, ◌&&◌, none, some, List, [], ◌∷◌, leb, min, max,
  if◌then◌else◌, u64_mod, saturating_add, Ran, ran, tried, chain,
}
use raxos.Prelude.Map
use raxos.Prelude.Map.{Map}
use raxos.Prelude.Ordered.{nat_ord}
use raxos.Types.{Slot, next}
use raxos.Codec.{encode_batch}
use raxos.Proposer.{ProposerState, idle, running, done}
use raxos.Pool.{has_unassigned}
use raxos.Replica.{Replica, SlotState}
use raxos.Replica.Replying.{put_run}
use raxos.Replica.Batching.{take_unassigned_batch}
use raxos.Replica.Opening.{is_idle, is_decided, drive, activate, maybe_open_slots}

-- `base.saturating_add(k.saturating_mul(hedge_delay))`
abbrev pub hedge_deadline : SlotState → Replica → ℕ
hedge_deadline state r =
    saturating_add (max state.first_observed state.last_progress)
      (min (r.me_idx * r.config.hedge_delay) (u64_mod - 1))

-- An undecided slot without a proposer.
abbrev pub is_open_idle : SlotState → Bool
is_open_idle state = is_idle state.proposer && not (is_decided state.recorder)

-- The slots from `from` on that are due.
unfoldable pub hedge_due : ℕ → Slot → Map Slot SlotState → Replica → List Slot
hedge_due now from [] r = []
hedge_due now from ((slot, state) ∷ slots) r =
    let rest = hedge_due now from slots r in
    if leb from slot && (is_open_idle state && leb (hedge_deadline state r) now)
    then slot ∷ rest
    else rest

unfoldable pub activate_each : ℕ → ℕ → List Slot → Replica → Ran Replica
activate_each fuel now [] r = ran r
activate_each fuel now (slot ∷ due) r =
    chain (tried (take_unassigned_batch slot r)) λ (batch, taken).
      chain (activate (maybe_open_slots fuel now) fuel now slot (encode_batch batch) taken)
        λ after. activate_each fuel now due after

abbrev pub settle_pending : Replica → Replica
settle_pending r = record r {
  pool_pending_since = if has_unassigned r.pool then r.pool_pending_since else none;
}

unfoldable pub hedge_activate_due : ℕ → ℕ → Replica → Ran Replica
hedge_activate_due fuel now r =
    chain (activate_each fuel now (hedge_due now (next r.decided_contig) r.slots r) r)
      λ after. ran (settle_pending after)

-- A running proposer that last sent `retransmit_delay` ago.
abbrev pub is_stale : ℕ → ProposerState → Replica → Bool
is_stale now idle r = false
is_stale now done r = false
is_stale now (running run) r = leb r.config.retransmit_delay (now - run.sent_at)

unfoldable pub stale_slots : ℕ → Slot → Map Slot SlotState → Replica → List Slot
stale_slots now from [] r = []
stale_slots now from ((slot, state) ∷ slots) r =
    let rest = stale_slots now from slots r in
    if leb from slot && is_stale now state.proposer r then slot ∷ rest else rest

-- `run.needs_send = true`, if the proposer is still running.
abbrev pub mark_state : Slot → SlotState → ProposerState → Replica → Replica
mark_state slot state idle r = r
mark_state slot state done r = r
mark_state slot state (running run) r = put_run slot state (record run { needs_send = true }) r

abbrev pub mark_unsent : Slot → Replica → Replica
mark_unsent slot r = elim (Map.get r.slots slot) [
  | none ↦ r
  | some state ↦ mark_state slot state state.proposer r
]

unfoldable pub redrive_each : ℕ → ℕ → List Slot → Replica → Ran Replica
redrive_each fuel now [] r = ran r
redrive_each fuel now (slot ∷ stale) r =
    chain (drive (maybe_open_slots fuel now) fuel now slot (mark_unsent slot r))
      λ after. redrive_each fuel now stale after

unfoldable pub retransmit_due : ℕ → ℕ → Replica → Ran Replica
retransmit_due fuel now r =
    redrive_each fuel now (stale_slots now (next r.decided_contig) r.slots r) r
