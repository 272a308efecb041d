-- ===== src/Replica/Retention/Batches.antt =====
-- What the delivery of a run of slots hands over, and how long it may be.
use raxos.Prelude.{
  Bool-cases, Option-cases, inl, inr, ℕ, suc, ◌≤◌, ◌≡◌, refl, none, some, List, [], ◌∷◌, Bytes,
  length, ltb, if◌then◌else◌, arith,
}
use raxos.Prelude.Map
use raxos.Prelude.Map.{Map}
use raxos.Prelude.Ordered.{nat_ord}
use raxos.Types.{Slot, CommandId, next, id_ord}
use raxos.Codec.{Command}
use raxos.Pool
use raxos.Pool.{Pool, PoolEntry}
use raxos.Pool.Dedup.{Dedup, mark_delivered}
use raxos.Pool.Dedup.Exact.{handed_over}
use raxos.Replica.{Action, deliver}
use raxos.Replica.Retention.{batch_of, deliver_batch}

-- The ids of a batch, and the set of delivered commands after it.
abbrev pub ids : List Command → List CommandId
ids [] = []
ids ((id, bytes) ∷ batch) = id ∷ ids batch

unfoldable pub marked : Dedup → List CommandId → Dedup
marked d [] = d
marked d (id ∷ rest) = marked (mark_delivered d id).1 rest

-- The commands of a batch that are new when it is its turn.
unfoldable pub news : Dedup → List Command → List Command
news d [] = []
news d ((id, bytes) ∷ batch) =
    let rest = news (mark_delivered d id).1 batch in
    if (mark_delivered d id).0 then (id, bytes) ∷ rest else rest

pub ids-news : (d : Dedup) (batch : List Command) → ids (news d batch) ≡ handed_over d (ids batch)
unfolding news handed_over
ids-news d [] = refl
ids-news d ((id, bytes) ∷ batch) = ground (arith, ids-news (mark_delivered d id).1 batch)

-- A batch hands over what is new in it, in its order, and marks all of it.
pub deliver_batch_lem :
    (batch : List Command) (d : Dedup) (pool : Pool)
    → ((deliver_batch batch d pool).0 ≡ news d batch)
      × ((deliver_batch batch d pool).1.0 ≡ marked d (ids batch))
unfolding deliver_batch news marked
deliver_batch_lem [] d pool = (refl, refl)
deliver_batch_lem ((id, bytes) ∷ batch) d pool =
    let rest =
      deliver_batch_lem batch (mark_delivered d id).1
        (if (mark_delivered d id).0 then Pool.remove pool id else pool) in
    (ground (arith, rest.0), rest.1)

-- No entry is new or changed.
abbrev pub Shrinks : Map CommandId PoolEntry → Map CommandId PoolEntry → Type 0
Shrinks entries entries' =
    (id : CommandId) (entry : PoolEntry)
    → Map.get entries' id ≡ some entry
    → Map.get entries id ≡ some entry

remove-Shrinks : (pool : Pool) (id : CommandId) → Shrinks pool.entries (Pool.remove pool id).entries
unfolding Pool.remove
remove-Shrinks pool id other entry e = elim (Option-cases (Map.get pool.entries id)) [
  | inl z ↦ rw (z, Pool.remove) at e
  | inr (old, z) ↦
      let at : Map.get (Map.remove id pool.entries) other ≡ some entry = rw (z, Pool.remove) at e in
      ground (arith, Map.get-remove pool.entries id other, at)
]

-- A batch takes entries out of the pool only.
pub deliver_batch-Shrinks :
    (batch : List Command) (d : Dedup) (pool : Pool)
    → Shrinks pool.entries (deliver_batch batch d pool).1.1.entries
unfolding deliver_batch
deliver_batch-Shrinks [] d pool id entry e = e
deliver_batch-Shrinks ((first, bytes) ∷ batch) d pool id entry e =
    elim (Bool-cases (mark_delivered d first).0) [
      | inl fresh ↦ remove-Shrinks pool first id entry (
          deliver_batch-Shrinks batch (mark_delivered d first).1 (Pool.remove pool first) id entry
            (rw fresh at e))
      | inr old ↦ deliver_batch-Shrinks batch (mark_delivered d first).1 pool id entry (rw old at e)
    ]

-- The actions deliver the retained values from the one after the frontier `s` up to `s'`, where the
-- next one is missing: each with the commands that are new in it, in its order.
pub data Delivers (retained : Map Slot Bytes)
    : Slot → Dedup → List Action → Slot → Dedup → Type 0 where
  stuck : (s : Slot) (d : Dedup) → Map.get retained (next s) ≡ none → Delivers retained s d [] s d
  onward :
      (s : Slot) (d : Dedup) (value : Bytes) (commands : List Command) (later : List Action)
      (s' : Slot) (d' : Dedup)
      → Map.get retained (suc s) ≡ some value
      → commands ≡ news d (batch_of value)
      → Delivers retained (suc s) (marked d (ids (batch_of value))) later s' d'
      → Delivers retained s d (deliver (suc s) commands ∷ later) s' d'

-- How many values are beyond a frontier.
unfoldable pub beyond : Slot → Map Slot Bytes → ℕ
beyond s [] = 0
beyond s ((k, v) ∷ m) = let rest = beyond s m in if ltb s k then suc rest else rest

pub beyond-le-length : (s : Slot) (m : Map Slot Bytes) → beyond s m ≤ length m
unfolding beyond
beyond-le-length s [] = omega arith
beyond-le-length s ((k, v) ∷ m) = ground (arith, beyond-le-length s m)

beyond-suc_le : (s : Slot) (m : Map Slot Bytes) → beyond (suc s) m ≤ beyond s m
unfolding beyond
beyond-suc_le s [] = omega arith
beyond-suc_le s ((k, v) ∷ m) = ground (arith, beyond-suc_le s m)

pub beyond-suc :
    (s : Slot) (m : Map Slot Bytes) (v : Bytes)
    → Map.get m (suc s) ≡ some v
    → suc (beyond (suc s) m) ≤ beyond s m
unfolding beyond Map.get
beyond-suc s [] v h = ground (arith, h)
beyond-suc s ((k, w) ∷ m) v h = ground (arith, h, beyond-suc_le s m, beyond-suc s m v)
