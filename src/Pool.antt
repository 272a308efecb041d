-- ===== src/Pool.antt =====
-- src/pool.rs: the command pool. `usize` counts of bytes held in memory are numbers.
pub mod Accounting
pub mod Dedup
mod Tests
use raxos.Prelude.{ℕ, ◌+◌, ◌-◌, Bool, true, false, ◌||◌, Option, none, some, [], ◌∷◌, Bytes, length}
use raxos.Prelude.Map
use raxos.Prelude.Map.{Map}
use raxos.Types.{command_wire_overhead, CommandId, Slot, id_ord}

-- The field `data` of the source is `bytes`.
pub record PoolEntry : Type 0 where
  pub bytes : Bytes
  pub proposed_in : Option Slot
  pub last_forward : ℕ
  pub forward_attempts : ℕ

pub record Pool : Type 0 where
  pub entries : Map CommandId PoolEntry
  pub bytes : ℕ

-- The derived default.
abbrev pub pool_default : Pool
pool_default = record { entries = []; bytes = 0 }

-- `Pool::cost`
abbrev pub cost : ℕ → ℕ
cost data_len = data_len + command_wire_overhead

-- The entry that `insert` makes.
abbrev pub new_entry : Bytes → ℕ → PoolEntry
new_entry bytes now = record {
  bytes = bytes;
  proposed_in = none;
  last_forward = now;
  forward_attempts = 0;
}

unfoldable pub insert : Pool → CommandId → Bytes → ℕ → Pool
insert pool id bytes now = record {
  entries = Map.insert id (new_entry bytes now) pool.entries;
  bytes = elim (Map.get pool.entries id) [
    | none ↦ pool.bytes + cost (length bytes)
    | some _ ↦ pool.bytes
  ];
}

-- `self.bytes -= …` would underflow below 0; `remove-IsAccounted` rules that out.
unfoldable pub remove : Pool → CommandId → Pool
remove pool id = elim (Map.get pool.entries id) [
  | none ↦ pool
  | some entry ↦ record {
    entries = Map.remove id pool.entries;
    bytes = pool.bytes - cost (length entry.bytes);
  }
]

abbrev is_unassigned : PoolEntry → Bool
is_unassigned entry = elim entry.proposed_in [ none ↦ true | some _ ↦ false ]

abbrev any_unassigned : Map CommandId PoolEntry → Bool
any_unassigned [] = false
any_unassigned ((id, entry) ∷ m) = is_unassigned entry || any_unassigned m

unfoldable pub has_unassigned : Pool → Bool
has_unassigned pool = any_unassigned pool.entries
