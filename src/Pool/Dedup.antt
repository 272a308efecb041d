-- ===== src/Pool/Dedup.antt =====
-- src/pool.rs: which commands have been delivered, for each origin and boot.
pub mod Origins
pub mod Exact
use raxos.Prelude.{
  ℕ, zero, suc, Bool, true, false, not, ◌||◌, Option, none, some, [], ◌∷◌, add_u64, leb, length,
  if◌then◌else◌,
}
use raxos.Prelude.Ordered.{nat_ord, pair_ord}
use raxos.Prelude.Map
use raxos.Prelude.Map.{Map}
use raxos.Types.{CommandId, ReplicaId}

-- `BTreeSet<u64>`: a map to nothing.
abbrev pub SeqSet : Type 0
SeqSet = Map ℕ (Unit {0})

abbrev pub contains : SeqSet → ℕ → Bool
contains s n = elim (Map.get s n) [ none ↦ false | some _ ↦ true ]

pub record OriginDedup : Type 0 where
  pub high_water : ℕ
  pub above : SeqSet

abbrev pub origin_default : OriginDedup
origin_default = record { high_water = 0; above = [] }

-- The key `(origin, boot)`.
abbrev pub Key : Type 0
Key = ReplicaId × ℕ

abbrev pub key_of : CommandId → Key
key_of id = (id.origin, id.boot)

pub record Dedup : Type 0 where
  pub per_origin : Map Key OriginDedup

abbrev pub dedup_default : Dedup
dedup_default = record { per_origin = [] }

-- The state of an origin, or the default of one that is not there.
unfoldable pub origin_of : Dedup → Key → OriginDedup
origin_of d key = elim (Map.get d.per_origin key) [ none ↦ origin_default | some o ↦ o ]

-- `high_water(origin, boot)`
unfoldable pub high_water : Dedup → ReplicaId → ℕ → ℕ
high_water d origin boot = elim (Map.get d.per_origin (origin, boot)) [
  | none ↦ 0
  | some state ↦ state.high_water
]

-- `id.seq <= origin.high_water || origin.above.contains(&id.seq)`
abbrev pub has_seq : OriginDedup → ℕ → Bool
has_seq o seq = leb seq o.high_water || contains o.above seq

unfoldable pub is_delivered : Dedup → CommandId → Bool
is_delivered d id = elim (Map.get d.per_origin (key_of id)) [
  | none ↦ false
  | some origin ↦ has_seq origin id.seq
]

-- `while origin.above.remove(&(origin.high_water + 1)) { origin.high_water += 1; }`; each round
-- takes an element out of `above`, so that its size is fuel enough.
unfoldable pub drain : ℕ → OriginDedup → OriginDedup
drain zero o = o
drain (suc fuel) o =
    let up = add_u64 o.high_water 1 in
    let rest = drain fuel (record { high_water = up; above = Map.remove up o.above }) in
    if contains o.above up then rest else o

-- The body of `mark_delivered` on the state of the origin.
unfoldable pub mark_seq : OriginDedup → ℕ → Bool × OriginDedup
mark_seq o seq =
    if leb seq o.high_water || contains o.above seq
    then (false, o)
    else (let added = record o { above = Map.insert seq tt o.above } in
        (true, drain (length added.above) added))

unfoldable pub mark_delivered : Dedup → CommandId → Bool × Dedup
mark_delivered d id =
    let (fresh, o) = mark_seq (origin_of d (key_of id)) id.seq in
    (fresh, record { per_origin = Map.insert (key_of id) o d.per_origin })
