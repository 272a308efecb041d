-- ===== src/Types.antt =====
-- src/types.rs: identifiers, proposals and their order, size limits. The batch encoding and the
-- cursor are in `Codec`. `ReplicaId` and `Slot` are newtypes of `u64`, and are numbers here.
use raxos.Prelude.{
  ℕ, ◌^◌, ◌-◌, ◌≡◌, ◌↔◌, refl, ap, Bool, true, ◌&&◌, ◌==◌, Bytes, add_u64, u32_mod, arith,
}
use raxos.Prelude.Ordered.{Ord, same, same_iff, order_on, nat_ord, slice_ord, pair_ord}

abbrev pub ReplicaId : Type 0
ReplicaId = ℕ

abbrev pub Slot : Type 0
Slot = ℕ

-- `Slot::next`
abbrev pub next : Slot → Slot
next s = add_u64 s 1

pub record CommandId : Type 0 where
  pub origin : ReplicaId
  pub boot : ℕ
  pub seq : ℕ

-- The derived order goes by the fields in turn.
abbrev pub id_key : CommandId → ℕ × (ℕ × ℕ)
id_key c = (c.origin, (c.boot, c.seq))

pub id_key_injective : (a b : CommandId) → id_key a ≡ id_key b → a ≡ b
id_key_injective a b h = ground (
  arith,
  ap (λ (t : ℕ × (ℕ × ℕ)). t.0) h,
  ap (λ (t : ℕ × (ℕ × ℕ)). t.1.0) h,
  ap (λ (t : ℕ × (ℕ × ℕ)). t.1.1) h,
)

instance unfoldable pub id_ord : Ord CommandId
id_ord = order_on id_key id_key_injective pair_ord

abbrev pub Priority : Type 0
Priority = ℕ

-- `u32::MAX`
abbrev pub priority_h : Priority
priority_h = u32_mod - 1

pub record Proposal : Type 0 where
  pub priority : Priority
  pub proposer : ReplicaId
  pub value : Bytes

-- The tuple that `cmp` compares.
abbrev pub proposal_key : Proposal → ℕ × (ℕ × Bytes)
proposal_key p = (p.priority, (p.proposer, p.value))

pub proposal_key_injective : (a b : Proposal) → proposal_key a ≡ proposal_key b → a ≡ b
proposal_key_injective a b h = ground (
  arith,
  ap (λ (t : ℕ × (ℕ × Bytes)). t.0) h,
  ap (λ (t : ℕ × (ℕ × Bytes)). t.1.0) h,
  ap (λ (t : ℕ × (ℕ × Bytes)). t.1.1) h,
)

-- `Ord for Proposal`
instance unfoldable pub proposal_ord : Ord Proposal
proposal_ord = order_on proposal_key proposal_key_injective pair_ord

-- The derived `==`, field by field.
unfoldable pub proposal_eq : Proposal → Proposal → Bool
proposal_eq a b = a.priority == b.priority && (a.proposer == b.proposer && same a.value b.value)

pub proposal_eq_iff : (a b : Proposal) → (proposal_eq a b ≡ true) ↔ (a ≡ b)
unfolding proposal_eq
proposal_eq_iff a b = (
  (λ h. ground (arith, (same_iff a.value b.value).0)),
  (λ e. ground (arith, e, (same_iff a.value a.value).1 refl)),
)

-- `MAX_BATCH_BYTES_LIMIT`
abbrev pub max_batch_bytes_limit : ℕ
max_batch_bytes_limit = 2 ^ 30

-- `MAX_COMMAND_BYTES`
abbrev pub max_command_bytes : ℕ
max_command_bytes = 2 ^ 30

-- Encoded overhead of a command: its id and the length prefix.
abbrev pub command_wire_overhead : ℕ
command_wire_overhead = 28
