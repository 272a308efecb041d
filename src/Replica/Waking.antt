-- ===== src/Replica/Waking.antt =====
-- src/replica.rs: `next_wakeup`.
pub mod Deadlines
pub mod Early
use raxos.Prelude.{
  ℕ, Bool, true, false, not, ◌&&◌, Option, none, some, List, [], ◌∷◌, ltb, leb, min, if◌then◌else◌,
  saturating_add,
}
use raxos.Prelude.Map
use raxos.Prelude.Map.{Map}
use raxos.Prelude.Ordered.{nat_ord}
use raxos.Types.{Slot, CommandId, next}
use raxos.Proposer.{ProposerState, idle, running, done}
use raxos.Pool.{PoolEntry}
use raxos.Replica.{Replica, SlotState, size, is_leader, ping_interval}
use raxos.Replica.Timers.{any_from, ahead, forward_interval}
use raxos.Replica.Opening.{is_decided}
use raxos.Replica.Hedging.{hedge_deadline}
use raxos.Replica.Forwarding.{is_own}

-- The deadline of a slot, by its proposer.
abbrev pub slot_deadline : SlotState → ProposerState → Replica → Option ℕ
slot_deadline state (running run) r = some (saturating_add run.sent_at r.config.retransmit_delay)
slot_deadline state idle r =
    if not (is_decided state.recorder) then some (hedge_deadline state r) else none
slot_deadline state done r = none

-- `fold`
abbrev pub sooner : Option ℕ → Option ℕ → Option ℕ
sooner none earliest = earliest
sooner (some deadline) none = some deadline
sooner (some deadline) (some current) = some (min current deadline)

unfoldable pub slots_deadline : Slot → Map Slot SlotState → Replica → Option ℕ
slots_deadline from [] r = none
slots_deadline from ((slot, state) ∷ slots) r =
    sooner (if leb from slot then slot_deadline state state.proposer r else none)
      (slots_deadline from slots r)

-- A frontier slot that the next tick materializes.
unfoldable pub frontier_deadline : Replica → Option ℕ
frontier_deadline r = elim (Map.get r.slots (next r.decided_contig)) [
  | some state ↦ none
  | none ↦ elim r.pool_pending_since [
    | some since ↦ some since
    | none ↦ if any_from (next r.decided_contig) r.slots then some 0 else none
  ]
]

unfoldable pub forward_deadline : Map CommandId PoolEntry → Replica → Option ℕ
forward_deadline [] r = none
forward_deadline ((id, entry) ∷ entries) r =
    sooner
      (if is_own id entry r && not (is_leader r)
        then some (saturating_add entry.last_forward (forward_interval r))
        else none)
      (forward_deadline entries r)

abbrev pub is_nil : List ℕ → Bool
is_nil [] = true
is_nil (x ∷ xs) = false

unfoldable pub learn_deadline : Replica → Option ℕ
learn_deadline r = elim r.learn_in_flight [
  | some (idx, sent_at) ↦ some (saturating_add sent_at r.config.retransmit_delay)
  | none ↦ if is_nil (ahead r) then none else some 0
]

unfoldable pub ping_deadline : Replica → Option ℕ
ping_deadline r = if ltb 1 (size r) then some (saturating_add r.last_ping ping_interval) else none

unfoldable pub next_wakeup : Replica → Option ℕ
next_wakeup r = sooner (slots_deadline (next r.decided_contig) r.slots r) (
    sooner (frontier_deadline r)
      (sooner (forward_deadline r.pool.entries r) (sooner (learn_deadline r) (ping_deadline r))))
