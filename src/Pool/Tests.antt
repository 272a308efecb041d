-- ===== src/Pool/Tests.antt =====
-- The runs of pool.rs's tests, and the theorems at concrete pools and orders.
use raxos.Prelude.{
  ℕ, suc, ◌+◌, ◌<◌, ◌≤◌, ◌≡◌, ◌⊎◌, refl, true, false, not, ◌||◌, none, [], ◌∷◌, arith,
  if◌then◌else◌,
}
use raxos.Prelude.Map
use raxos.Prelude.Map.{Map}
use raxos.Prelude.Map.Total.{weight_of}
use raxos.Prelude.Ordered.{same}
use raxos.Types.{CommandId, id_ord}
use raxos.Pool.{Pool, cost, insert, remove, pool_default, has_unassigned}
use raxos.Pool.Accounting.{
  IsAccounted, entry_cost, pool_default-IsAccounted, insert-IsAccounted, remove-IsAccounted,
}
use raxos.Pool.Dedup.{
  Dedup, dedup_default, mark_delivered, is_delivered, high_water, drain, mark_seq, origin_of,
}
use raxos.Pool.Dedup.Exact.{
  IsDedup, dedup_default-IsDedup, mark_delivered_once, handed_over, handed_over_once, count, mem,
  high_water_exact,
}

abbrev id : ℕ → ℕ → CommandId
id origin seq = record { origin = origin; boot = 7; seq = seq }

abbrev held : Pool
held = insert pool_default (id 1 1) (97 ∷ 98 ∷ 99 ∷ 100 ∷ []) 0

held_bytes :
    (held.bytes ≡ cost 4) × (has_unassigned held ≡ true) × ((remove held (id 1 1)).bytes ≡ 0)
unfolding insert remove has_unassigned Map.get Map.insert id_ord
held_bytes = (refl, refl, refl)

held-fresh : Map.get held.entries (id 1 2) ≡ none
unfolding insert Map.get Map.insert id_ord
held-fresh = refl

pool_default-fresh : Map.get pool_default.entries (id 1 1) ≡ none
unfolding Map.get
pool_default-fresh = refl

held-IsAccounted : IsAccounted held
held-IsAccounted =
    (insert-IsAccounted pool_default (id 1 1) (97 ∷ 98 ∷ 99 ∷ 100 ∷ []) 0 pool_default-IsAccounted
      pool_default-fresh).0

insert-IsAccounted_example :
    IsAccounted (insert held (id 1 2) (120 ∷ 121 ∷ []) 0)
    × ((insert held (id 1 2) (120 ∷ 121 ∷ []) 0).bytes ≡ held.bytes + 30)
insert-IsAccounted_example =
    insert-IsAccounted held (id 1 2) (120 ∷ 121 ∷ []) 0 held-IsAccounted held-fresh

remove-IsAccounted_example :
    IsAccounted (remove held (id 1 1))
    × ((remove held (id 1 1)).bytes + weight_of entry_cost (Map.get held.entries (id 1 1))
        ≡ held.bytes)
    × (Map.get (remove held (id 1 1)).entries (id 1 1) ≡ none)
remove-IsAccounted_example = remove-IsAccounted held (id 1 1) held-IsAccounted

-- Out-of-order delivery parks number 3, and number 2 drains both into the mark.
abbrev parked : Dedup
parked = (mark_delivered (mark_delivered dedup_default (id 1 1)).1 (id 1 3)).1

parked_then_drained :
    (is_delivered parked (id 1 2) ≡ false)
    × (is_delivered parked (id 1 3) ≡ true)
    × (high_water parked 1 7 ≡ 1)
    × (high_water (mark_delivered parked (id 1 2)).1 1 7 ≡ 3)
    × ((mark_delivered parked (id 1 1)).0 ≡ false)
unfolding mark_delivered mark_seq drain is_delivered high_water origin_of Map.get Map.insert
    Map.remove
parked_then_drained = (refl, refl, refl, refl, refl)

mark_delivered_once_example :
    IsDedup (mark_delivered dedup_default (id 1 3)).1
    × ((mark_delivered dedup_default (id 1 3)).0 ≡ not (is_delivered dedup_default (id 1 3)))
    × (is_delivered (mark_delivered dedup_default (id 1 3)).1 (id 1 2)
        ≡ (same (id 1 3) (id 1 2) || is_delivered dedup_default (id 1 2)))
mark_delivered_once_example =
    mark_delivered_once dedup_default (id 1 3) (id 1 2) dedup_default-IsDedup (omega arith)
      (omega arith) (omega arith)

handed_over_once_example :
    count (id 1 2) (handed_over dedup_default (id 1 2 ∷ id 1 1 ∷ id 1 2 ∷ [])) ≡ (
      if is_delivered dedup_default (id 1 2)
      then 0
      else if mem (id 1 2) (id 1 2 ∷ id 1 1 ∷ id 1 2 ∷ [])
      then 1
      else 0)
handed_over_once_example =
    handed_over_once dedup_default (id 1 2 ∷ id 1 1 ∷ id 1 2 ∷ []) (id 1 2) dedup_default-IsDedup
      ((omega arith, omega arith), ((omega arith, omega arith), ((omega arith, omega arith), tt)))
      (omega arith)

high_water_exact_example :
    ((1 ≤ high_water dedup_default 1 7) × (is_delivered dedup_default (id 1 1) ≡ true))
    ⊎ ((1 ≡ suc (high_water dedup_default 1 7)) × (is_delivered dedup_default (id 1 1) ≡ false))
    ⊎ (suc (high_water dedup_default 1 7) < 1)
high_water_exact_example =
    high_water_exact dedup_default (id 1 1) dedup_default-IsDedup (omega arith) (omega arith)
