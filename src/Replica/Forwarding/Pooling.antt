-- ===== src/Replica/Forwarding/Pooling.antt =====
-- The pool of a member that has accepted a command.
use raxos.Prelude.{ℕ, ◌≤◌, ◌≡◌, refl, false, some, Bytes, arith}
use raxos.Prelude.Map
use raxos.Prelude.Map.{Map, get-insert_self}
use raxos.Prelude.Map.Sorted.{insert-IsSorted}
use raxos.Types.{CommandId, id_ord}
use raxos.Pool
use raxos.Pool.{PoolEntry, cost, new_entry}
use raxos.Replica.{Replica}
use raxos.Replica.Recording.{slot_at}
use raxos.Replica.Opening.Pipeline.{IsPipelined}
use raxos.Replica.Forwarding.{pooled, is_pool_full, next_id}

-- The pool has the command.
abbrev pub Holds : CommandId → Bytes → Replica → Type 0
Holds id bytes r =
    (entry : PoolEntry) × (Map.get r.pool.entries id ≡ some entry) × (entry.bytes ≡ bytes)

-- The replica with the command in its pool and the number used up.
abbrev pub with_command : ℕ → Bytes → Replica → Replica
with_command now command r =
    pooled now (next_id r) command (record r { next_seq = (next_id r).seq })

pub pooled_fits :
    (now : ℕ) (id : CommandId) (bytes : Bytes) (r : Replica)
    → is_pool_full bytes r ≡ false
    → (pooled now id bytes r).pool.bytes ≤ r.config.max_pool_bytes
unfolding Pool.insert
pooled_fits now id bytes r e = ground (arith, e)

pub pooled-IsPipelined :
    (now : ℕ) (id : CommandId) (bytes : Bytes) (r : Replica)
    → IsPipelined r
    → IsPipelined (pooled now id bytes r)
unfolding slot_at Pool.insert
pooled-IsPipelined now id bytes r h = record {
  recording = h.recording;
  inside = h.inside;
  quorum = h.quorum;
  pool = insert-IsSorted id (new_entry bytes now) r.pool.entries h.pool;
  known = h.known;
  highest = h.highest;
  word = h.word;
}

pub numbered-IsPipelined :
    (n : ℕ) (r : Replica) → IsPipelined r → IsPipelined (record r { next_seq = n })
unfolding slot_at
numbered-IsPipelined n r h = record {
  recording = h.recording;
  inside = h.inside;
  quorum = h.quorum;
  pool = h.pool;
  known = h.known;
  highest = h.highest;
  word = h.word;
}

pub pooled-Holds :
    (now : ℕ) (id : CommandId) (bytes : Bytes) (r : Replica)
    → Holds id bytes (pooled now id bytes r)
unfolding Pool.insert
pooled-Holds now id bytes r =
    (new_entry bytes now, get-insert_self r.pool.entries id (new_entry bytes now), refl)
