-- ===== src/Pool/Accounting.antt =====
-- The byte counter of the pool is the cost of what it holds.
use raxos.Prelude.{ℕ, ◌+◌, ◌≡◌, refl, ◌∙◌, none, Option-cases, inl, inr, Bytes, length, arith}
use raxos.Prelude.Map
use raxos.Prelude.Ordered.{same_iff}
use raxos.Prelude.Map.Sorted.{IsSorted, insert-IsSorted, remove-IsSorted}
use raxos.Prelude.Map.Total.{total, total-insert, total-remove, weight_of}
use raxos.Types.{CommandId, id_ord}
use raxos.Pool.{Pool, PoolEntry, new_entry, cost, insert, remove, pool_default}

abbrev pub entry_cost : PoolEntry → ℕ
entry_cost entry = cost (length entry.bytes)

-- The entries stand in the order of their ids, each id once, and `bytes` is their cost.
pub record IsAccounted (pool : Pool) : Type 0 where
  pub sorted : IsSorted pool.entries
  pub counted : pool.bytes ≡ total entry_cost pool.entries

pub pool_default-IsAccounted : IsAccounted pool_default
unfolding total
pool_default-IsAccounted = record { sorted = tt; counted = refl }

-- An insertion under a new id, which is what `submit` and `on_forward` make, keeps the books and
-- adds the cost of the command.
pub insert-IsAccounted :
    (pool : Pool) (id : CommandId) (bytes : Bytes) (now : ℕ)
    → IsAccounted pool
    → Map.get pool.entries id ≡ none
    → IsAccounted (insert pool id bytes now)
      × ((insert pool id bytes now).bytes ≡ pool.bytes + cost (length bytes))
unfolding insert
insert-IsAccounted pool id bytes now h fresh = (
  record {
    sorted = insert-IsSorted id (new_entry bytes now) pool.entries h.sorted;
    counted = ground (
      arith,
      fresh,
      h.counted,
      total-insert entry_cost id (new_entry bytes now) pool.entries h.sorted,
    );
  },
  ground (arith, fresh),
)

-- A removal keeps the books, whether or not the id is held, and never takes off more than
-- there is: what is left and the cost of what was held make up the old count.
pub remove-IsAccounted :
    (pool : Pool) (id : CommandId)
    → IsAccounted pool
    → IsAccounted (remove pool id)
      × ((remove pool id).bytes + weight_of entry_cost (Map.get pool.entries id) ≡ pool.bytes)
      × (Map.get (remove pool id).entries id ≡ none)
unfolding remove
remove-IsAccounted pool id h =
    let t = total-remove entry_cost id pool.entries h.sorted in
    elim (Option-cases (Map.get pool.entries id)) [
      | inl e ↦ rw (e, remove) (h, omega arith, e)
      | inr (entry, e) ↦
          let t' = rw e at t in
          rw (e, remove)
            (
              record {
                sorted = remove-IsSorted id pool.entries h.sorted;
                counted = omega (arith, t', h.counted);
              },
              omega (arith, t', h.counted),
              Map.get-remove pool.entries id id ∙ rw ((same_iff id id).1 refl),
            )
    ]
