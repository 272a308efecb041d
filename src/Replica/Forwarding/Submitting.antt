-- ===== src/Replica/Forwarding/Submitting.antt =====
-- `submit`: what is refused, and where an accepted command is.
use raxos.Prelude.{
  ℕ, ◌+◌, ◌≤◌, ◌<◌, ◌≡◌, ◌⊎◌, true, false, some, [], ◌∷◌, ◌++◌, Bytes, length, Result, ok, err,
  get_or,
}
use raxos.Prelude.Map
use raxos.Prelude.Map.{Map}
use raxos.Types.{CommandId, id_ord, max_command_bytes}
use raxos.Wire.{forward}
use raxos.Pool.{cost}
use raxos.Replica.{Replica, send, message_of, others, is_leader}
use raxos.Replica.Timers.{forward_target}
use raxos.Replica.Opening.Pipeline.{IsFull}
use raxos.Replica.Forwarding.{SubmitError, pool_full, command_too_large, next_id}
use raxos.Replica.Forwarding.Pooling.{Holds}

-- The message that carries a command for the first time, if there is anybody to send it to.
abbrev pub IsForwarded : CommandId → Bytes → Replica → Replica → Type 0
IsForwarded id command r r' =
    ((others r ≡ []) × (r'.actions ≡ r.actions))
    ⊎ ((idx : ℕ) × (forward_target 0 r ≡ some idx)
        × (r'.actions
            ≡ r.actions
              ++ (send (get_or r.config.replicas idx 0)
                    (message_of (forward ((id, command) ∷ [])) r)
                  ∷ [])))

-- An accepted command: it is in the pool under the new id, and the pool is within its limit. The
-- leader has opened slots until its pipeline has no room or nothing may be claimed; anybody else
-- has forwarded the command.
pub record Accepts (command : Bytes) (r r' : Replica) : Type 0 where
  pub held : Holds (next_id r) command r'
  pub fits : r'.pool.bytes ≤ r.config.max_pool_bytes
  pub numbered : r'.next_seq ≡ (next_id r).seq
  pub under_way :
      ((is_leader r ≡ true) × IsFull r')
      ⊎ ((is_leader r ≡ false) × IsForwarded (next_id r) command r r')

-- The ends of `submit`.
pub data Submits (command : Bytes) (r : Replica)
    : Result CommandId SubmitError × Replica → Type 0 where
  too_large : max_command_bytes < length command → Submits command r (err command_too_large, r)
  full :
      length command ≤ max_command_bytes
      → r.config.max_pool_bytes < r.pool.bytes + cost (length command)
      → Submits command r (err pool_full, r)
  accepted :
      length command ≤ max_command_bytes
      → r.pool.bytes + cost (length command) ≤ r.config.max_pool_bytes
      → (r' : Replica) → Accepts command r r'
      → Submits command r (ok (next_id r), r')
