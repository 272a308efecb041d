-- ===== src/Replica/Batching/Limits.antt =====
-- What is claimed, and how large the value is that it makes.
use raxos.Prelude.{
  ℕ, ◌+◌, ◌≤◌, ◌≡◌, ◌⊎◌, inl, inr, refl, ap, ◌∙◌, Bool, true, false, not, ◌&&◌, Bool-cases, some,
  List, [], ◌∷◌, Bytes, length, All, All-map, All-if, ltb, leb, if◌then◌else◌, arith,
}
use raxos.Prelude.Map
use raxos.Prelude.Map.{Map}
use raxos.Prelude.Ordered.{same, same_iff}
use raxos.Prelude.Map.Sorted.{IsSorted, get-Below}
use raxos.Types.{Slot, CommandId, id_ord}
use raxos.Codec.{Command, encode_batch}
use raxos.Pool.{PoolEntry}
use raxos.Pool.Dedup.{Dedup}
use raxos.Replica.{Replica}
use raxos.Replica.Batching.{is_passed_over, wire_cost, claim, assign, take_unassigned_batch}
use raxos.Replica.Batching.Costs.{batch_cost, claim_cost, length-encode_batch}

-- An entry of the pool that may be claimed with these bytes.
abbrev pub IsClaimable : Map CommandId PoolEntry → Dedup → Command → Type 0
IsClaimable entries d c =
    (entry : PoolEntry) × (Map.get entries c.0 ≡ some entry)
    × (entry.bytes ≡ c.1)
    × (is_passed_over d c.0 entry ≡ false)

get-tail :
    (k : CommandId) (v : PoolEntry) (m : Map CommandId PoolEntry) (j : CommandId) (e : PoolEntry)
    → IsSorted ((k, v) ∷ m)
    → Map.get m j ≡ some e
    → Map.get ((k, v) ∷ m) j ≡ some e
unfolding Map.get
get-tail k v m j e s h = ground (
  arith,
  h,
  get-Below k m s.0,
  λ (q : same k j ≡ true). ap (λ i. Map.get m i) ((same_iff k j).0 q),
)

get-head :
    (k : CommandId) (v : PoolEntry) (m : Map CommandId PoolEntry) → Map.get ((k, v) ∷ m) k ≡ some v
unfolding Map.get
get-head k v m = ground (arith, (same_iff k k).1 refl)

claim-IsClaimable :
    (limit : ℕ) (d : Dedup) (entries : Map CommandId PoolEntry) (is_first : Bool) (bytes : ℕ)
    → IsSorted entries
    → All (IsClaimable entries d) (claim limit d entries is_first bytes)
unfolding claim
claim-IsClaimable limit d [] is_first bytes s = tt
claim-IsClaimable limit d ((id, entry) ∷ entries) is_first bytes s =
    let P = IsClaimable ((id, entry) ∷ entries) d in
    let lift = λ (xs : List Command).
      All-map (IsClaimable entries d) P
        (λ c (e, at, same_bytes, free). (e, get-tail id entry entries c.0 e s at, same_bytes, free))
        xs in
    let passed =
      lift (claim limit d entries is_first bytes)
        (claim-IsClaimable limit d entries is_first bytes s.1) in
    let more =
      lift (claim limit d entries false (bytes + wire_cost entry))
        (claim-IsClaimable limit d entries false (bytes + wire_cost entry) s.1) in
    let head : (is_passed_over d id entry ≡ false) → P (id, entry.bytes) =
      λ free. (entry, get-head id entry entries, refl, free) in
    let cost = bytes + wire_cost entry in
    let rest = claim limit d entries false cost in
    let one : List Command = (id, entry.bytes) ∷ [] in
    let many : List Command = (id, entry.bytes) ∷ rest in
    let taken = if leb limit cost then one else many in
    let fitting = if not is_first && ltb limit cost then [] else taken in
    All-if P (is_passed_over d id entry) (claim limit d entries is_first bytes) fitting
      (λ p. passed)
      (λ free.
        All-if P (not is_first && ltb limit cost) [] taken (λ over. tt)
          (λ fits.
            All-if P (leb limit cost) one many (λ full. (head free, tt))
              (λ room. (head free, more))))

-- A command that rides in `slot`.
abbrev pub IsAssigned : Slot → Map CommandId PoolEntry → Command → Type 0
IsAssigned slot entries c =
    (entry : PoolEntry) × (Map.get entries c.0 ≡ some entry) × (entry.proposed_in ≡ some slot)

IsHeld : Map CommandId PoolEntry → Command → Type 0
IsHeld entries c = (entry : PoolEntry) × (Map.get entries c.0 ≡ some entry)

-- Assigning one command keeps what is held, and what is assigned.
assign_one :
    (slot : Slot) (id : CommandId) (entry : PoolEntry) (entries : Map CommandId PoolEntry)
    → Map CommandId PoolEntry
assign_one slot id entry entries = Map.insert id (record entry { proposed_in = some slot }) entries

IsHeld-assign_one :
    (slot : Slot) (id : CommandId) (entry : PoolEntry) (entries : Map CommandId PoolEntry)
    (c : Command)
    → IsHeld entries c
    → IsHeld (assign_one slot id entry entries) c
unfolding IsHeld assign_one
IsHeld-assign_one slot id entry entries c (e, at) = elim (Bool-cases (same id c.0)) [
  | inl q ↦ (record entry { proposed_in = some slot }, Map.get-insert entries id c.0 _ ∙ rw q refl)
  | inr q ↦ (e, Map.get-insert entries id c.0 _ ∙ rw q at)
]

IsAssigned-assign_one :
    (slot : Slot) (id : CommandId) (entry : PoolEntry) (entries : Map CommandId PoolEntry)
    (c : Command)
    → IsAssigned slot entries c
    → IsAssigned slot (assign_one slot id entry entries) c
unfolding assign_one
IsAssigned-assign_one slot id entry entries c (e, at, to) = elim (Bool-cases (same id c.0)) [
  | inl q ↦
      (record entry { proposed_in = some slot }, Map.get-insert entries id c.0 _ ∙ rw q refl, refl)
  | inr q ↦ (e, Map.get-insert entries id c.0 _ ∙ rw q at, to)
]

IsAssigned-itself :
    (slot : Slot) (id : CommandId) (bytes : Bytes) (entry : PoolEntry)
    (entries : Map CommandId PoolEntry)
    → IsAssigned slot (assign_one slot id entry entries) (id, bytes)
unfolding assign_one
IsAssigned-itself slot id bytes entry entries =
    let itself : same id id ≡ true = (same_iff id id).1 refl in
    (
      record entry { proposed_in = some slot },
      Map.get-insert entries id id _ ∙ rw itself refl,
      refl,
    )

assign-IsAssigned :
    (slot : Slot) (batch : List Command) (entries : Map CommandId PoolEntry)
    → All (IsHeld entries) batch
    → (entries' : Map CommandId PoolEntry) × (assign slot batch entries ≡ some entries')
      × All (IsAssigned slot entries') batch
      × ((c : Command) → IsAssigned slot entries c → IsAssigned slot entries' c)
unfolding assign assign_one IsHeld
assign-IsAssigned slot [] entries h = (entries, refl, tt, λ c a. a)
assign-IsAssigned slot ((id, bytes) ∷ batch) entries ((entry, at), held) =
    let next = assign_one slot id entry entries in
    let (entries', e, all, keeps) = assign-IsAssigned slot batch next (
      All-map (IsHeld entries) (IsHeld next) (IsHeld-assign_one slot id entry entries) batch
        held) in
    (
      entries',
      rw at e,
      (keeps (id, bytes) (IsAssigned-itself slot id bytes entry entries), all),
      λ c a. keeps c (IsAssigned-assign_one slot id entry entries c a),
    )

-- `take_unassigned_batch` does not panic on a pool in the order of its ids. What it claims was in
-- the pool with these bytes, was riding in no slot and lies in the window of its origin; it rides
-- in `slot` afterwards; and the value that the batch makes is at most the limit and 5 bytes long,
-- unless the batch is a single command. The byte count of the pool stays.
pub take_unassigned_batch-IsClaimable :
    (slot : Slot) (r : Replica)
    → IsSorted r.pool.entries
    → (batch : List Command) × (r' : Replica) × (take_unassigned_batch slot r ≡ some (batch, r'))
      × All (IsClaimable r.pool.entries r.dedup) batch
      × All (IsAssigned slot r'.pool.entries) batch
      × ((length (encode_batch batch) ≤ r.config.max_batch_bytes + 5) ⊎ (length batch ≡ 1))
      × (r'.pool.bytes ≡ r.pool.bytes)
unfolding take_unassigned_batch IsHeld
take_unassigned_batch-IsClaimable slot r s =
    let batch = claim r.config.max_batch_bytes r.dedup r.pool.entries true 0 in
    let claimable = claim-IsClaimable r.config.max_batch_bytes r.dedup r.pool.entries true 0 s in
    let held =
      All-map (IsClaimable r.pool.entries r.dedup) (IsHeld r.pool.entries)
        (λ c (e, at, _, _). (e, at)) batch claimable in
    let (entries', e, assigned, _) = assign-IsAssigned slot batch r.pool.entries held in
    let r' : Replica = record r { pool = record r.pool { entries = entries' } } in
    let fits : (length (encode_batch batch) ≤ r.config.max_batch_bytes + 5) ⊎ (length batch ≡ 1) =
      elim (claim_cost r.config.max_batch_bytes r.dedup r.pool.entries true 0) [
        | inl le ↦ inl (omega (arith, le, length-encode_batch batch))
        | inr (inl none_fits) ↦
            inl (omega (arith, ap batch_cost none_fits, length-encode_batch batch))
        | inr (inr (_, single)) ↦ inr single
      ] in
    (batch, r', rw e refl, claimable, assigned, fits, refl)
