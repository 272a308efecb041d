-- ===== src/Config.antt =====
-- src/config.rs: the configuration of a replica. A `Duration` is its count of nanoseconds, a
-- u128; `as u64` after the clamps loses nothing.
pub mod Checks
mod Tests
use raxos.Prelude.{
  ℕ, ◌^◌, ◌*◌, Bool, true, false, not, ◌||◌, List, [], ◌∷◌, ◌==◌, if◌then◌else◌, min, max, get_or,
  Result, ok, err,
}
use raxos.Prelude.Sorting.{sort, has}
use raxos.Types.{ReplicaId, max_batch_bytes_limit}

pub record Config : Type 0 where
  pub replicas : List ReplicaId
  pub me : ReplicaId
  pub rng_seed : ℕ
  pub hedge_delay : ℕ
  pub retransmit_delay : ℕ
  pub pipeline : ℕ
  pub max_batch_bytes : ℕ
  pub max_pool_bytes : ℕ
  pub max_retained_bytes : ℕ

pub data ConfigError : Type 0 where
  no_replicas zero_replica_id duplicate_replica_id unknown_local_replica : ConfigError

abbrev is_empty : List ReplicaId → Bool
is_empty [] = true
is_empty (r ∷ rs) = false

-- `windows(2).any(|pair| pair[0] == pair[1])`
unfoldable pub any_adjacent : List ReplicaId → Bool
any_adjacent [] = false
any_adjacent (a ∷ []) = false
any_adjacent (a ∷ b ∷ rs) = a == b || any_adjacent (b ∷ rs)

abbrev pub defaults : List ReplicaId → ReplicaId → ℕ → Config
defaults replicas me rng_seed = record {
  replicas = replicas;
  me = me;
  rng_seed = rng_seed;
  hedge_delay = 200 * 1000000;
  retransmit_delay = 500 * 1000000;
  pipeline = 4;
  max_batch_bytes = 2 ^ 20;
  max_pool_bytes = 16 * 2 ^ 20;
  max_retained_bytes = 32 * 2 ^ 20;
}

-- The checks of `new` on the sorted ids, in their order.
abbrev pub check_sorted : List ReplicaId → ReplicaId → ℕ → Result Config ConfigError
check_sorted replicas me rng_seed =
    if is_empty replicas
    then err no_replicas
    else if get_or replicas 0 0 == 0
    then err zero_replica_id
    else if any_adjacent replicas
    then err duplicate_replica_id
    else if not (has me replicas)
    then err unknown_local_replica
    else ok (defaults replicas me rng_seed)

-- `Config::new`
unfoldable pub new : List ReplicaId → ReplicaId → ℕ → Result Config ConfigError
new replicas me rng_seed = check_sorted (sort replicas) me rng_seed

-- The setters; `clamp lo hi` is Rust's.
abbrev pub clamp : ℕ → ℕ → ℕ → ℕ
clamp lo hi n = min (max n lo) hi

unfoldable pub set_hedge_delay : Config → ℕ → Config
set_hedge_delay c delay = record c { hedge_delay = min delay (2 ^ 55) }

unfoldable pub set_retransmit_delay : Config → ℕ → Config
set_retransmit_delay c delay = record c { retransmit_delay = clamp 1000000 (2 ^ 55) delay }

unfoldable pub set_pipeline : Config → ℕ → Config
set_pipeline c depth = record c { pipeline = max depth 1 }

unfoldable pub set_max_batch_bytes : Config → ℕ → Config
set_max_batch_bytes c bytes = record c { max_batch_bytes = clamp 1 max_batch_bytes_limit bytes }

unfoldable pub set_max_pool_bytes : Config → ℕ → Config
set_max_pool_bytes c bytes = record c { max_pool_bytes = max bytes 1 }

unfoldable pub set_max_retained_bytes : Config → ℕ → Config
set_max_retained_bytes c bytes = record c { max_retained_bytes = max bytes 1 }
