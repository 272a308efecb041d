-- ===== src/Config/Tests.antt =====
-- The runs of config.rs's tests, and the theorems at concrete groups.
use raxos.Prelude.{◌≡◌, refl, [], ◌∷◌, ok, err}
use mathlib.Core.List.Perm
use raxos.Prelude.Sorting.{sort, insert_sorted, has}
use raxos.Config.{
  Config, no_replicas, zero_replica_id, duplicate_replica_id, unknown_local_replica, any_adjacent,
  defaults, new,
}
use raxos.Config.Checks.{Answers, new-Answers, new_any_order}

validates_replica_set :
    (new [] 1 0 ≡ err no_replicas)
    × (new (0 ∷ 1 ∷ []) 1 0 ≡ err zero_replica_id)
    × (new (1 ∷ 2 ∷ 1 ∷ []) 1 0 ≡ err duplicate_replica_id)
    × (new (1 ∷ 2 ∷ []) 3 0 ≡ err unknown_local_replica)
unfolding new sort insert_sorted any_adjacent has
validates_replica_set = (refl, refl, refl, refl)

schedule_is_sorted_id_order : new (5 ∷ 2 ∷ 9 ∷ []) 5 0 ≡ ok (defaults (2 ∷ 5 ∷ 9 ∷ []) 5 0)
unfolding new sort insert_sorted any_adjacent has
schedule_is_sorted_id_order = refl

new-Answers_example : Answers (5 ∷ 2 ∷ 9 ∷ []) 5 0 (new (5 ∷ 2 ∷ 9 ∷ []) 5 0)
new-Answers_example = new-Answers (5 ∷ 2 ∷ 9 ∷ []) 5 0

new_any_order_example : new (5 ∷ 2 ∷ 9 ∷ []) 5 0 ≡ new (2 ∷ 5 ∷ 9 ∷ []) 5 0
new_any_order_example = new_any_order (5 ∷ 2 ∷ 9 ∷ []) (2 ∷ 5 ∷ 9 ∷ []) 5 0 (Perm.swap 2 5 (9 ∷ []))

abbrev single : Config
single = defaults (1 ∷ []) 1 0
