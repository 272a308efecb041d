-- ===== src/Replica/Batching/Costs.antt =====
-- The size of the value that a batch makes.
use raxos.Prelude.{
  ℕ, ◌+◌, ◌%◌, ◌≤◌, ◌≡◌, ◌⊎◌, inl, inr, refl, Bool, true, false, Bool-cases, List, [], ◌∷◌, ◌++◌,
  length, length-append, u32_mod, arith,
}
use raxos.Prelude.Map.{Map}
use raxos.Types.{CommandId, id_ord, command_wire_overhead}
use raxos.Codec.{
  Command, encode_batch, encode_command, encode_command_id, encode_bytes, encode_all,
  encode_counted, to_le_bytes,
}
use raxos.Codec.Words.{length-to_le_bytes}
use raxos.Pool.{PoolEntry}
use raxos.Pool.Dedup.{Dedup}
use raxos.Replica.Batching.{wire_cost, claim}

-- The cost of a batch as the limit counts it.
abbrev pub batch_cost : List Command → ℕ
batch_cost [] = 0
batch_cost ((id, bytes) ∷ batch) = length bytes + command_wire_overhead + batch_cost batch

-- A claim that is begun with `bytes` stays within the limit, or is empty, or is one command at
-- the beginning of a batch.
pub claim_cost :
    (limit : ℕ) (d : Dedup) (entries : Map CommandId PoolEntry) (is_first : Bool) (bytes : ℕ)
    → (bytes + batch_cost (claim limit d entries is_first bytes) ≤ limit)
      ⊎ (claim limit d entries is_first bytes ≡ [])
      ⊎ ((is_first ≡ true) × (length (claim limit d entries is_first bytes) ≡ 1))
unfolding claim
claim_cost limit d [] is_first bytes = inr (inl refl)
claim_cost limit d ((id, entry) ∷ entries) is_first bytes =
    let more = claim_cost limit d entries false (bytes + wire_cost entry) in
    let empty : claim limit d entries false (bytes + wire_cost entry) ≡ []
        → (batch_cost (claim limit d entries false (bytes + wire_cost entry)) ≡ 0)
          × (length (claim limit d entries false (bytes + wire_cost entry)) ≡ 0) =
      λ e. rw e (refl, refl) in
    elim (Bool-cases is_first) [
      | inl e ↦ rw e (ground (arith, claim_cost limit d entries true bytes, more, empty))
      | inr e ↦ rw e (ground (arith, claim_cost limit d entries false bytes, more, empty))
    ]

length-encode_command :
    (c : Command) → length (encode_command c) ≡ length c.1 + command_wire_overhead
unfolding encode_command encode_command_id encode_bytes
length-encode_command (id, bytes) = omega (
  arith,
  length-append (to_le_bytes 8 id.origin ++ (to_le_bytes 8 id.boot ++ to_le_bytes 8 id.seq))
      (to_le_bytes 4 (length bytes % u32_mod) ++ bytes),
  length-append (to_le_bytes 8 id.origin) (to_le_bytes 8 id.boot ++ to_le_bytes 8 id.seq),
  length-append (to_le_bytes 8 id.boot) (to_le_bytes 8 id.seq),
  length-append (to_le_bytes 4 (length bytes % u32_mod)) bytes,
  length-to_le_bytes 8 id.origin,
  length-to_le_bytes 8 id.boot,
  length-to_le_bytes 8 id.seq,
  length-to_le_bytes 4 (length bytes % u32_mod),
)

length-encode_all :
    (batch : List Command) → length (encode_all encode_command batch) ≡ batch_cost batch
unfolding encode_all
length-encode_all [] = refl
length-encode_all ((id, bytes) ∷ batch) = omega (
  arith,
  length-append (encode_command (id, bytes)) (encode_all encode_command batch),
  length-encode_command (id, bytes),
  length-encode_all batch,
)

-- The size of the value is the cost and the frame of 5 bytes: what the limit bounds is the
-- encoded size.
pub length-encode_batch :
    (batch : List Command) → length (encode_batch batch) ≡ 5 + batch_cost batch
unfolding encode_batch encode_counted
length-encode_batch batch = omega (
  arith,
  length-append (to_le_bytes 4 (length batch % u32_mod)) (encode_all encode_command batch),
  length-to_le_bytes 4 (length batch % u32_mod),
  length-encode_all batch,
)
