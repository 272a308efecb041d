-- ===== src/Replica/Timers/Asking.antt =====
-- `learn_tick`: a member that knows of a peer ahead of it is waiting for an answer afterwards.
use raxos.Prelude.{ℕ, ◌<◌, ◌≡◌, true, false, Bool, add_u64, if◌then◌else◌, none, some, [], get_or}
use raxos.Types.{next}
use raxos.Wire.{learn}
use raxos.Replica.{Replica, send, message_of, size, push}
use raxos.Replica.CatchUp.{is_awaiting}
use raxos.Replica.Timers.{rotate, ahead, expire}

-- A peer that may be asked.
abbrev IsAhead : Replica → ℕ → Type 0
IsAhead r idx = (idx < size r) × (r.decided_contig < get_or r.peer_acked idx 0)

-- The replica when it has asked a peer.
abbrev pub asked : ℕ → ℕ → Replica → Replica
asked now idx r =
    push (send (get_or r.config.replicas idx 0) (message_of (learn (next r.decided_contig)) r))
      (record r { learn_in_flight = some (idx, now) })

-- The ends of `learn_tick`: an answer that is not due yet is left in flight; or one that is due, or
-- none, is given up, and then the next peer that is ahead, if there is one, is asked for the values
-- after the frontier.
pub data Asks (now : ℕ) (r : Replica) : Replica → Type 0 where
  waits : is_awaiting now r ≡ true → Asks now r r
  level : is_awaiting now r ≡ false → ahead r ≡ [] → Asks now r (expire now r)
  asks :
      (idx : ℕ)
      → is_awaiting now r ≡ false
      → rotate (expire now r).learn_attempts (ahead r) ≡ some idx
      → idx < size r
      → r.decided_contig < get_or r.peer_acked idx 0
      → Asks now r (asked now idx (expire now r))

-- `expire` by whether the request is due.
abbrev expired_by : Replica → Bool → Replica
expired_by r due = record r {
  learn_in_flight = if due then none else r.learn_in_flight;
  learn_attempts = if due then add_u64 r.learn_attempts 1 else r.learn_attempts;
}
