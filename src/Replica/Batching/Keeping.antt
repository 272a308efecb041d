-- ===== src/Replica/Batching/Keeping.antt =====
-- What `take_unassigned_batch` keeps.
use raxos.Prelude.{
  ◌≡◌, refl, sym, ap, subst, ◌∙◌, inl, inr, true, Bool-cases, some, >>=-eq-some, some_pair,
  some_inv, List, [], ◌∷◌,
}
use raxos.Prelude.Map
use raxos.Prelude.Map.{Map}
use raxos.Prelude.Map.Sorted.{IsSorted, insert-IsSorted}
use raxos.Prelude.Ordered.{same, same_iff}
use raxos.Types.{Slot, CommandId, id_ord}
use raxos.Codec.{Command}
use raxos.Pool.{PoolEntry}
use raxos.Replica.{Replica}
use raxos.Replica.Batching.{claim, assign, take_unassigned_batch}

assign-IsSorted :
    (slot : Slot) (batch : List Command) (entries entries' : Map CommandId PoolEntry)
    → assign slot batch entries ≡ some entries'
    → IsSorted entries
    → IsSorted entries'
unfolding assign
assign-IsSorted slot [] entries entries' e s = subst IsSorted (some_inv e) s
assign-IsSorted slot ((id, bytes) ∷ batch) entries entries' e s =
    let (entry, _, q) = >>=-eq-some (Map.get entries id) _ e in
    assign-IsSorted slot batch (Map.insert id (record entry { proposed_in = some slot }) entries)
      entries' q (insert-IsSorted id _ entries s)

-- The batch is what was claimed, and nothing but the entries of the pool has changed.
pub take_unassigned_batch_lem :
    (slot : Slot) (r r' : Replica) (batch : List Command)
    → take_unassigned_batch slot r ≡ some (batch, r')
    → IsSorted r.pool.entries
    → (claim r.config.max_batch_bytes r.dedup r.pool.entries true 0 ≡ batch)
      × (entries : Map CommandId PoolEntry) × (assign slot batch r.pool.entries ≡ some entries)
      × IsSorted entries
      × (record r { pool = record r.pool { entries = entries } } ≡ r')
unfolding take_unassigned_batch
take_unassigned_batch_lem slot r r' batch e s =
    let claimed = claim r.config.max_batch_bytes r.dedup r.pool.entries true 0 in
    let (entries, a, q) = >>=-eq-some (assign slot claimed r.pool.entries) _ e in
    let (is_batch, is_r') = some_pair q in
    (
      is_batch,
      entries,
      subst (λ b. assign slot b r.pool.entries ≡ some entries) is_batch a,
      assign-IsSorted slot claimed r.pool.entries entries a s,
      is_r',
    )

-- What is in the pool stays there, with its bytes.
abbrev pub Keeps : Map CommandId PoolEntry → Map CommandId PoolEntry → Type 0
Keeps entries entries' =
    (id : CommandId) (entry : PoolEntry)
    → Map.get entries id ≡ some entry
    → (entry' : PoolEntry) × (Map.get entries' id ≡ some entry') × (entry'.bytes ≡ entry.bytes)

pub Keeps-refl : (entries : Map CommandId PoolEntry) → Keeps entries entries
Keeps-refl entries id entry e = (entry, e, refl)

pub Keeps-trans : (a b c : Map CommandId PoolEntry) → Keeps a b → Keeps b c → Keeps a c
Keeps-trans a b c ab bc id entry e =
    let (entry', e', same') = ab id entry e in
    let (entry'', e'', same'') = bc id entry' e' in (entry'', e'', same'' ∙ same')

-- An entry may be overwritten by one with the same bytes.
pub insert-Keeps :
    (entries : Map CommandId PoolEntry) (id : CommandId) (old new : PoolEntry)
    → Map.get entries id ≡ some old
    → new.bytes ≡ old.bytes
    → Keeps entries (Map.insert id new entries)
insert-Keeps entries id old new at same_bytes other entry e = elim (Bool-cases (same id other)) [
  | inl q ↦ (
    new,
    Map.get-insert entries id other new ∙ rw q refl,
    same_bytes
        ∙ ap (λ (x : PoolEntry). x.bytes)
            (some_inv (sym at ∙ ap (Map.get entries) ((same_iff id other).0 q) ∙ e)),
  )
  | inr q ↦ (entry, Map.get-insert entries id other new ∙ rw q e, refl)
]

pub assign-Keeps :
    (slot : Slot) (batch : List Command) (entries entries' : Map CommandId PoolEntry)
    → assign slot batch entries ≡ some entries'
    → Keeps entries entries'
unfolding assign
assign-Keeps slot [] entries entries' e = subst (Keeps entries) (some_inv e) (Keeps-refl entries)
assign-Keeps slot ((id, bytes) ∷ batch) entries entries' e =
    let (entry, at, q) = >>=-eq-some (Map.get entries id) _ e in
    let one = Map.insert id (record entry { proposed_in = some slot }) entries in
    Keeps-trans entries one entries'
      (insert-Keeps entries id entry (record entry { proposed_in = some slot }) at refl)
      (assign-Keeps slot batch one entries' q)
