-- ===== src/Replica/Forwarding.antt =====
-- src/replica.rs: commands on their way into the pool: `submit`, `on_forward` and `reforward_due`.
pub mod Pooling
pub mod Submitting
pub mod Taking
use raxos.Prelude.{
  ℕ, ◌+◌, ◌-◌, Bool, true, false, not, ◌&&◌, ◌||◌, Option, none, some, ◌>>=◌, List, [], ◌∷◌, ◌++◌,
  Bytes, length, ltb, leb, ◌==◌, if◌then◌else◌, add_u64, Ran, ran, tried, chain, Result, ok, err,
}
use raxos.Prelude.Map
use raxos.Prelude.Map.{Map}
use raxos.Prelude.Ordered.{nat_ord}
use raxos.Types.{CommandId, id_ord, max_command_bytes}
use raxos.Codec.{Command}
use raxos.Wire.{forward}
use raxos.Pool
use raxos.Pool.{PoolEntry, cost}
use raxos.Pool.Dedup.{is_delivered}
use raxos.Replica.{Replica, is_leader, others, send_to, refresh_pool_pending}
use raxos.Replica.Batching.{wire_cost}
use raxos.Replica.Timers.{rotate, forward_target, forward_interval}
use raxos.Replica.Opening.{maybe_open_slots}

pub data SubmitError : Type 0 where
  pool_full command_too_large : SubmitError

-- `self.pool.insert`
abbrev pub pooled : ℕ → CommandId → Bytes → Replica → Replica
pooled now id bytes r = record r { pool = Pool.insert r.pool id bytes now }

-- The command does not fit the pool.
abbrev pub is_pool_full : Bytes → Replica → Bool
is_pool_full bytes r = ltb r.config.max_pool_bytes (r.pool.bytes + cost (length bytes))

-- The first transmission of a command that is in the pool; `none` is the panic of `expect`.
abbrev pub forward_to : ℕ → CommandId → Bytes → Option ℕ → Replica → Option Replica
forward_to now id bytes none r = some r
forward_to now id bytes (some target) r = do
  entry ← Map.get r.pool.entries id
  let sent : PoolEntry = record entry { last_forward = now; forward_attempts = 1 }
  send_to target (forward ((id, bytes) ∷ []))
      (record r { pool = record r.pool { entries = Map.insert id sent r.pool.entries } })

abbrev pub next_id : Replica → CommandId
next_id r = record { origin = r.config.me; boot = r.boot; seq = add_u64 r.next_seq 1 }

-- `submit` of a command that is accepted, up to the last call.
abbrev pub place : ℕ → ℕ → CommandId → Bytes → Replica → Ran Replica
place fuel now id bytes r =
    if is_leader r
    then maybe_open_slots fuel now r
    else tried (forward_to now id bytes (forward_target 0 r) r)

abbrev pub accept : ℕ → ℕ → Bytes → Replica → Ran (Result CommandId SubmitError × Replica)
accept fuel now command r =
    let id = next_id r in
    chain (place fuel now id command (pooled now id command (record r { next_seq = id.seq })))
      λ placed. ran (ok id, refresh_pool_pending now placed)

unfoldable pub submit : ℕ → ℕ → Bytes → Replica → Ran (Result CommandId SubmitError × Replica)
submit fuel now command r =
    if ltb max_command_bytes (length command)
    then ran (err command_too_large, r)
    else if is_pool_full command r
    then ran (err pool_full, r)
    else accept fuel now command r

-- `self.pool.entries.contains_key`
abbrev pub is_pooled : CommandId → Replica → Bool
is_pooled id r = elim (Map.get r.pool.entries id) [ none ↦ false | some entry ↦ true ]

-- A round of the loop of `on_forward`, and the loop.
abbrev pub take_one : ℕ → CommandId → Bytes → Replica → Replica
take_one now id bytes r =
    if is_delivered r.dedup id || is_pooled id r
    then r
    else if ltb max_command_bytes (length bytes) || is_pool_full bytes r
    then r
    else pooled now id bytes r

unfoldable pub take_in : ℕ → List Command → Replica → Replica
take_in now [] r = r
take_in now ((id, bytes) ∷ commands) r = take_in now commands (take_one now id bytes r)

unfoldable pub on_forward : ℕ → ℕ → List Command → Replica → Ran Replica
on_forward fuel now commands r =
    maybe_open_slots fuel now (refresh_pool_pending now (take_in now commands r))

-- The Forward messages of a tick: the full ones, with their targets, and the one that is being
-- filled for each target, with its size.
pub record Outbox : Type 0 where
  pub chunks : List (ℕ × List Command)
  pub filling : Map ℕ (List Command × ℕ)

-- `open.entry(target).or_default()`
abbrev pub filled_for : ℕ → Outbox → List Command × ℕ
filled_for target box = elim (Map.get box.filling target) [ none ↦ ([], 0) | some filled ↦ filled ]

abbrev pub is_empty : List Command → Bool
is_empty [] = true
is_empty (c ∷ cs) = false

abbrev pub enclose : ℕ → ℕ → Command → ℕ → List Command × ℕ → Outbox → Outbox
enclose limit target command size (commands, bytes) box =
    if not (is_empty commands) && ltb limit (bytes + size)
    then record {
      chunks = box.chunks ++ ((target, commands) ∷ []);
      filling = Map.insert target (command ∷ [], size) box.filling;
    }
    else record box {
      filling = Map.insert target (commands ++ (command ∷ []), bytes + size) box.filling;
    }

-- An own command that rides in no slot, and was last sent an interval ago.
abbrev pub is_own : CommandId → PoolEntry → Replica → Bool
is_own id entry r =
    (id.origin == r.config.me && id.boot == r.boot)
    && (elim entry.proposed_in [ none ↦ true | some slot ↦ false ])

abbrev pub is_forward_due : ℕ → CommandId → PoolEntry → Replica → Bool
is_forward_due now id entry r =
    is_own id entry r && leb (forward_interval r) (now - entry.last_forward)

abbrev pub forwarded : ℕ → PoolEntry → PoolEntry
forwarded now entry = record entry {
  last_forward = now;
  forward_attempts = add_u64 entry.forward_attempts 1;
}

-- The loop of `reforward_due` over the entries, which it updates.
unfoldable pub reforward :
    ℕ → Replica → Map CommandId PoolEntry → Outbox → Map CommandId PoolEntry × Outbox
reforward now r [] box = ([], box)
reforward now r ((id, entry) ∷ entries) box =
    if not (is_forward_due now id entry r)
    then (let (passed, out) = reforward now r entries box in ((id, entry) ∷ passed, out))
    else elim (rotate entry.forward_attempts (others r)) [
      | none ↦ ((id, entry) ∷ entries, box)
      | some target ↦
          let (passed, out) = reforward now r entries (
            enclose r.config.max_batch_bytes target (id, entry.bytes) (wire_cost entry)
              (filled_for target box) box) in
          ((id, forwarded now entry) ∷ passed, out)
    ]

abbrev pub leftover : Map ℕ (List Command × ℕ) → List (ℕ × List Command)
leftover [] = []
leftover ((target, (commands, bytes)) ∷ filling) =
    if not (is_empty commands) then (target, commands) ∷ leftover filling else leftover filling

abbrev pub send_chunks : List (ℕ × List Command) → Replica → Option Replica
send_chunks [] r = some r
send_chunks ((target, commands) ∷ chunks) r = do
  sent ← send_to target (forward commands) r
  send_chunks chunks sent

unfoldable pub reforward_due : ℕ → Replica → Option Replica
reforward_due now r =
    if is_leader r
    then some r
    else (let (entries, box) =
          reforward now r r.pool.entries (record { chunks = []; filling = [] }) in
        send_chunks (box.chunks ++ leftover box.filling)
          (record r { pool = record r.pool { entries = entries } }))
