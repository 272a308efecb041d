-- ===== src/Replica/Opening/Ending.antt =====
-- The loop of `maybe_open_slots` ends.
use raxos.Prelude.{
  ℕ, zero, suc, ◌+◌, ◌≤◌, ◌≡◌, ◌⊎◌, inl, inr, refl, sym, ap, ◌∙◌, true, false, Bool-cases, some,
  List, [], ◌∷◌, max, some_inv, Ran, ran, chain, arith,
}
use raxos.Prelude.Map.{Map}
use raxos.Prelude.Map.Sorted.{IsSorted}
use raxos.Prelude.Ordered.{nat_ord}
use raxos.Types.{Slot, CommandId, id_ord}
use raxos.Codec.{Command, encode_batch}
use raxos.Pool.{PoolEntry}
use raxos.Replica.{Replica, is_leader, refresh_pool_pending}
use raxos.Replica.Recording.{slot_at}
use raxos.Replica.Batching.{claim, assign}
use raxos.Replica.Batching.Limits.{take_unassigned_batch-IsClaimable}
use raxos.Replica.Batching.Keeping.{assign-Keeps, take_unassigned_batch_lem}
use raxos.Replica.Opening.{next_open, has_room, opened, open_batch, open_loop, maybe_open_slots}
use raxos.Replica.Opening.Activating.{activate-Activates}
use raxos.Replica.Opening.Pipeline.{
  IsPipelined, Opens, Opens-refl, Opens-trans, Activates-Opens, next_open-bounds, IsFull, taken,
  taken-IsPipelined, taken-Opens, refresh_pool_pending-IsPipelined,
}

-- The loop ends in a replica with nothing left to open.
abbrev OpensAll : Slot → Replica → Ran Replica → Type 0
OpensAll low r out = (r' : Replica) × (out ≡ ran r') × Opens low r r' × IsPipelined r' × IsFull r'

-- The fuel is enough for the rounds that are left.
abbrev IsEnough : ℕ → Replica → Type 0
IsEnough fuel r =
    (3 ≤ fuel) × (r.decided_contig + r.config.pipeline + 3 ≤ fuel + max r.max_open r.decided_contig)

-- The rest of a round that has room, by the batch; `ends` speaks of the rounds after it.
round-Opens :
    (fuel now : ℕ) (low : Slot) (r : Replica) (batch : List Command)
    (entries : Map CommandId PoolEntry)
    → ((x : Replica)
        → IsPipelined x
        → low ≤ next_open x
        → IsEnough fuel x
        → OpensAll low x (open_loop fuel now x))
    → IsPipelined r
    → has_room r ≡ true
    → low ≤ next_open r
    → IsEnough (suc fuel) r
    → IsSorted entries
    → claim r.config.max_batch_bytes r.dedup r.pool.entries true 0 ≡ batch
    → assign (next_open r) batch r.pool.entries ≡ some entries
    → OpensAll low r (
        open_batch
          (open_loop fuel now)
          fuel
          now
          (next_open r)
          (some (batch, record r { pool = record r.pool { entries = entries } })))
unfolding assign
round-Opens fuel now low r [] entries ends h room le enough s claimed a = (
  r,
  ap (λ es. ran (record r { pool = record r.pool { entries = es } })) (sym (some_inv a)),
  Opens-refl low r,
  h,
  inr claimed,
)
round-Opens zero now low r (c ∷ cs) entries ends h room le enough s claimed a =
    let (step, within) = next_open-bounds r h in absurd (omega (arith, step, within room))
round-Opens (suc zero) now low r (c ∷ cs) entries ends h room le enough s claimed a =
    let (step, within) = next_open-bounds r h in absurd (omega (arith, step, within room))
round-Opens (suc (suc fuel)) now low r (c ∷ cs) entries ends h room le enough s claimed a =
    let (step, within) = next_open-bounds r h in
    let slot = next_open r in
    let r1 = taken slot entries r in
    let h1 = taken-IsPipelined slot entries r h s (omega (arith, within room, h.word)) in
    let loop = open_loop (suc (suc fuel)) now in
    let (r2, e, activates) =
      activate-Activates (opened loop now) fuel now slot (encode_batch (c ∷ cs)) r1
        (h1.recording now slot) h.inside h.quorum.0 h.quorum.1 in
    let (opens, h2, highest) =
      Activates-Opens now low slot (encode_batch (c ∷ cs)) r1 r2 activates h1 le (within room) in
    let pipeline : r2.config.pipeline ≡ r.config.pipeline = ap (λ x. x.pipeline) opens.config in
    let after : low ≤ next_open r2 = omega (arith, (next_open-bounds r2 h2).0, highest, le) in
    let (r', q, more, h', full) = ends r2 h2 after (
      omega (arith, step, within room),
      omega (arith, enough, step, highest, opens.frontier, pipeline, within room),
    ) in
    (
      r',
      ap (λ m. chain m loop) e ∙ q,
      Opens-trans low r r1 r'
          (taken-Opens low slot entries r (assign-Keeps slot (c ∷ cs) r.pool.entries entries a))
          (Opens-trans low r1 r2 r' opens more),
      h',
      full,
    )

open_loop-Opens :
    (fuel now : ℕ) (low : Slot) (r : Replica)
    → IsPipelined r
    → low ≤ next_open r
    → IsEnough fuel r
    → OpensAll low r (open_loop fuel now r)
unfolding open_loop
open_loop-Opens zero now low r h le enough = absurd (omega (arith, enough.0))
open_loop-Opens (suc fuel) now low r h le enough = elim (Bool-cases (has_room r)) [
  | inr e ↦ (r, rw e refl, Opens-refl low r, h, inl e)
  | inl e ↦
      let (batch, r1, t, _, _, _, _) = take_unassigned_batch-IsClaimable (next_open r) r h.pool in
      let (claimed, entries, a, s, is) =
        take_unassigned_batch_lem (next_open r) r r1 batch t h.pool in
      let (r', q, opens, h', full) =
        round-Opens fuel now low r batch entries (open_loop-Opens fuel now low) h e le enough s
          claimed a in
      (
        r',
        rw e (
            ap (λ o. open_batch (open_loop fuel now) fuel now (next_open r) o)
              (t ∙ ap (λ x. some (batch, x)) (sym is))
            ∙ q),
        opens,
        h',
        full,
      )
]

refresh_pool_pending-Opens :
    (now : ℕ) (low : Slot) (r r' : Replica)
    → Opens low r r'
    → IsPipelined r'
    → IsFull r'
    → Opens low r (refresh_pool_pending now r')
      × IsPipelined (refresh_pool_pending now r')
      × IsFull (refresh_pool_pending now r')
unfolding refresh_pool_pending slot_at has_room
refresh_pool_pending-Opens now low r r' o h full = (
  record {
    config = o.config;
    frontier = o.frontier;
    dedup = o.dedup;
    bytes = o.bytes;
    keeps = o.keeps;
    numbered = o.numbered;
    below = o.below;
    above = o.above;
  },
  refresh_pool_pending-IsPipelined now r' h,
  full,
)

-- In a group of two or more, `maybe_open_slots` ends and does not panic: three rounds more than
-- the depth of the pipeline are fuel enough. At the leader it goes on until the pipeline has no
-- room left or no command is left to be proposed. It changes slots only within the pipeline: none
-- below the first slot that is new, and none further from the frontier than the depth; and it
-- leaves the frontier, the delivered commands and the byte count of the pool as they are.
-- Anybody else does nothing.
pub maybe_open_slots-Opens :
    (fuel now : ℕ) (r : Replica)
    → IsPipelined r
    → r.config.pipeline + 3 ≤ fuel
    → (r' : Replica) × (maybe_open_slots fuel now r ≡ ran r')
      × Opens (next_open r) r r'
      × IsPipelined r'
      × (((is_leader r ≡ true) × IsFull r') ⊎ ((is_leader r ≡ false) × (r' ≡ r)))
unfolding maybe_open_slots
maybe_open_slots-Opens fuel now r h enough = elim (Bool-cases (is_leader r)) [
  | inr e ↦ (r, rw e refl, Opens-refl (next_open r) r, h, inr (e, refl))
  | inl e ↦
      let (r', q, opens, h', full) =
        open_loop-Opens fuel now (next_open r) r h (omega arith) (omega arith, omega arith) in
      let (opens', h1, full') = refresh_pool_pending-Opens now (next_open r) r r' opens h' full in
      (refresh_pool_pending now r', rw (e, q) refl, opens', h1, inl (e, full'))
]
