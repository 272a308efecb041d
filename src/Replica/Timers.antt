-- ===== src/Replica/Timers.antt =====
-- src/replica.rs: the timers that send nothing but requests and pings, and where commands are
-- forwarded to.
pub mod Asking
pub mod Pinging
use raxos.Prelude.{
  ℕ, suc, ◌+◌, ◌-◌, ◌*◌, ◌%◌, Bool, true, false, not, ◌&&◌, ◌||◌, Option, none, some, ◌>>=◌, List,
  [], ◌∷◌, length, get_elem?, get_or, select, range, ltb, leb, ◌==◌, if◌then◌else◌, min, max,
  add_u64, u64_mod,
}
use raxos.Prelude.Map
use raxos.Prelude.Map.{Map}
use raxos.Prelude.Ordered.{nat_ord}
use raxos.Types.{Slot, next}
use raxos.Wire.{ping}
use raxos.Replica.{others, send_all, Replica, SlotState, new_slot, size, send_to, ping_interval}
use raxos.Replica.CatchUp.{maybe_request_learn}

-- `candidates[attempts % candidates.len()]`, or nothing where there is no candidate.
abbrev pub rotate : ℕ → List ℕ → Option ℕ
rotate attempts [] = none
rotate attempts (c ∷ cs) = get_elem? (c ∷ cs) (attempts % length (c ∷ cs))

unfoldable pub forward_target : ℕ → Replica → Option ℕ
forward_target attempts r = rotate attempts (others r)

-- `saturating_mul(2)` of the delay, or the retransmission delay if that is longer.
unfoldable pub forward_interval : Replica → ℕ
forward_interval r = max (min (r.config.hedge_delay * 2) (u64_mod - 1)) r.config.retransmit_delay

-- `slots.range(frontier..).next().is_some()`
abbrev pub any_from : Slot → Map Slot SlotState → Bool
any_from slot [] = false
any_from slot ((s, state) ∷ slots) = leb slot s || any_from slot slots

abbrev is_pending : Replica → Bool
is_pending r = elim r.pool_pending_since [ none ↦ false | some since ↦ true ]

unfoldable pub ensure_frontier_observed : ℕ → Replica → Replica
ensure_frontier_observed now r = elim (Map.get r.slots (next r.decided_contig)) [
  | some state ↦ r
  | none ↦
      if any_from (next r.decided_contig) r.slots || is_pending r
      then record r { slots = Map.insert (next r.decided_contig) (new_slot now) r.slots }
      else r
]

-- The request in flight is due.
abbrev pub is_expired : ℕ → Replica → Bool
is_expired now r = elim r.learn_in_flight [
  | none ↦ false
  | some (idx, sent_at) ↦ leb r.config.retransmit_delay (now - sent_at)
]

abbrev pub expire : ℕ → Replica → Replica
expire now r = record r {
  learn_in_flight = if is_expired now r then none else r.learn_in_flight;
  learn_attempts = if is_expired now r then add_u64 r.learn_attempts 1 else r.learn_attempts;
}

-- The peers that have acknowledged more than is delivered here.
abbrev pub ahead : Replica → List ℕ
ahead r =
    select (λ idx. not (idx == r.me_idx) && ltb r.decided_contig (get_or r.peer_acked idx 0))
      (range (size r))

-- Asks the next of them in turn.
abbrev pub ask : ℕ → List ℕ → Replica → Option Replica
ask now [] r = some r
ask now (c ∷ cs) r = do
  idx ← rotate r.learn_attempts (c ∷ cs)
  acked ← get_elem? r.peer_acked idx
  maybe_request_learn now idx acked r

-- The second half of `learn_tick`, by the request in flight.
abbrev pub ask_unless : Option (ℕ × ℕ) → ℕ → Replica → Option Replica
ask_unless (some request) now r = some r
ask_unless none now r = ask now (ahead r) r

unfoldable pub learn_tick : ℕ → Replica → Option Replica
learn_tick now r = let after = expire now r in ask_unless after.learn_in_flight now after

unfoldable pub ping_tick : ℕ → Replica → Option Replica
ping_tick now r =
    if size r == 1
    then some r
    else if leb ping_interval (now - r.last_ping)
    then send_all ping (others r) (record r { last_ping = now })
    else some r
