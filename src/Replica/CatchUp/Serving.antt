-- ===== src/Replica/CatchUp/Serving.antt =====
-- `on_learn` serves a gapless run of the retained values.
use raxos.Prelude.{
  ℕ, zero, suc, ◌+◌, ◌-◌, ◌≤◌, ◌<◌, ◌≡◌, ◌⊎◌, inl, inr, refl, ◌∙◌, true, false, ◌||◌, Bool-cases,
  some, Option-cases, ◌>>=◌, List, [], ◌∷◌, Bytes, length, get_elem?, ltb, leb, ◌==◌, u64_mod,
  arith,
}
use raxos.Prelude.Map
use raxos.Prelude.Map.{Map}
use raxos.Prelude.Ordered.{nat_ord}
use raxos.Types.{ReplicaId, Slot, next}
use raxos.Wire.{learn_reply}
use raxos.Replica.{Replica, send, push, message_of, send_to, learn_chunk_bytes}
use raxos.Replica.Retention.Retaining.{IsRetaining}
use raxos.Replica.CatchUp.{chunk, on_learn}

-- `values` are the values of the slots from `slot` on.
abbrev pub IsRun : Map Slot Bytes → Slot → List Bytes → Type 0
IsRun retained slot [] = Unit {0}
IsRun retained slot (value ∷ values) =
    (Map.get retained slot ≡ some value) × IsRun retained (suc slot) values

abbrev pub size_of : List Bytes → ℕ
size_of [] = 0
size_of (value ∷ values) = length value + size_of values

abbrev pub but_last : List Bytes → List Bytes
but_last [] = []
but_last (value ∷ []) = []
but_last (value ∷ (other ∷ values)) = value ∷ but_last (other ∷ values)

but_last-cons :
    (v : Bytes) (values : List Bytes)
    → 0 < length values
    → size_of (but_last (v ∷ values)) ≡ length v + size_of (but_last values)
but_last-cons v [] l = absurd (omega arith)
but_last-cons v (w ∷ values) l = refl

-- A chunk that was begun with `bytes` ends at the frontier or with a size that is enough.
record IsChunk (r : Replica) (slot : Slot) (bytes : ℕ) (values : List Bytes) : Type 0 where
  run : IsRun r.retained slot values
  some_progress : 0 < length values
  ends :
      (slot + length values ≡ suc r.decided_contig)
      ⊎ ((slot + length values ≤ suc r.decided_contig)
          × (learn_chunk_bytes ≤ bytes + size_of values))
  short : bytes + size_of (but_last values) < learn_chunk_bytes

chunk-past :
    (fuel : ℕ) (slot : Slot) (bytes : ℕ) (r : Replica)
    → r.decided_contig < slot
    → chunk fuel slot bytes r ≡ some []
unfolding chunk
chunk-past zero slot bytes r h = refl
chunk-past (suc fuel) slot bytes r h =
    let past : ltb r.decided_contig slot ≡ true = ground arith in rw past refl

chunk-suc :
    (fuel : ℕ) (slot : Slot) (bytes : ℕ) (r : Replica) (v : Bytes)
    → slot ≤ r.decided_contig
    → suc r.decided_contig < u64_mod
    → Map.get r.retained slot ≡ some v
    → leb learn_chunk_bytes (bytes + length v) ≡ false
    → chunk (suc fuel) slot bytes r
      ≡ (chunk fuel (suc slot) (bytes + length v) r >>= λ values. some (v ∷ values))
unfolding chunk
chunk-suc fuel slot bytes r v b u e d =
    let inside : ltb r.decided_contig slot ≡ false = ground arith in
    let at : next slot ≡ suc slot = omega arith in rw (inside, e, d, at) refl

chunk-IsChunk :
    (fuel : ℕ) (slot : Slot) (bytes : ℕ) (r : Replica)
    → IsRetaining r
    → r.gc_floor < slot
    → slot ≤ r.decided_contig
    → suc r.decided_contig < u64_mod
    → suc (suc r.decided_contig) ≤ slot + fuel
    → bytes < learn_chunk_bytes
    → (values : List Bytes) × (chunk fuel slot bytes r ≡ some values) × IsChunk r slot bytes values
unfolding chunk
chunk-IsChunk zero slot bytes r h a b u f low = absurd (omega arith)
chunk-IsChunk (suc fuel) slot bytes r h a b u f low =
    elim (Option-cases (Map.get r.retained slot)) [
      | inl e ↦ absurd (h.kept slot a b e)
      | inr (v, e) ↦
          let inside : ltb r.decided_contig slot ≡ false = ground arith in
          elim (Bool-cases (leb learn_chunk_bytes (bytes + length v))) [
            | inl d ↦ (
              v ∷ [],
              rw (inside, e, d) refl,
              record {
                run = (e, tt);
                some_progress = omega arith;
                ends = inr (omega arith, ground (arith, d));
                short = omega arith;
              },
            )
            | inr d ↦ elim (Bool-cases (ltb slot r.decided_contig)) [
              | inl more ↦
                  let (values, q, c) =
                    chunk-IsChunk fuel (suc slot) (bytes + length v) r h (omega arith)
                      (ground (arith, more)) u (omega arith) (ground (arith, d)) in
                  (
                    v ∷ values,
                    chunk-suc fuel slot bytes r v b u e d ∙ rw q refl,
                    record {
                      run = (e, c.run);
                      some_progress = omega arith;
                      ends = ground (arith, c.ends);
                      short = omega (arith, c.short, but_last-cons v values c.some_progress);
                    },
                  )
              | inr last ↦ (
                v ∷ [],
                chunk-suc fuel slot bytes r v b u e d
                    ∙ rw (chunk-past fuel (suc slot) (bytes + length v) r (ground (arith, last)))
                        refl,
                record {
                  run = (e, tt);
                  some_progress = omega arith;
                  ends = inl (ground (arith, last));
                  short = omega arith;
                },
              )
            ]
          ]
    ]

-- A peer that asks from a slot above the floor and up to the frontier is sent, without a panic,
-- the retained values of the slots from that one on: at least one, in their order and without a
-- gap, up to the frontier or until they make up the size of a chunk, which without the last of
-- them they do not. Nothing else changes.
pub on_learn-IsRun :
    (from_idx : ℕ) (to : ReplicaId) (from_slot : Slot) (r : Replica)
    → IsRetaining r
    → get_elem? r.config.replicas from_idx ≡ some to
    → r.gc_floor < from_slot
    → from_slot ≤ r.decided_contig
    → suc r.decided_contig < u64_mod
    → (values : List Bytes) × (on_learn from_idx from_slot r
        ≡ some (push (send to (message_of (learn_reply from_slot values) r)) r))
      × IsRun r.retained from_slot values
      × (0 < length values)
      × ((from_slot + length values ≡ suc r.decided_contig)
          ⊎ ((from_slot + length values ≤ suc r.decided_contig)
              × (learn_chunk_bytes ≤ size_of values)))
      × (size_of (but_last values) < learn_chunk_bytes)
unfolding on_learn send_to
on_learn-IsRun from_idx to from_slot r h at a b u =
    let (values, q, c) =
      chunk-IsChunk (suc (suc r.decided_contig) - from_slot) from_slot 0 r h a b u (omega arith)
        (omega arith) in
    let served : (leb from_slot r.gc_floor || (ltb r.decided_contig from_slot || from_slot == 0))
        ≡ false =
      ground arith in
    (
      values,
      rw (served, q, at) refl,
      c.run,
      c.some_progress,
      ground (arith, c.ends),
      omega (arith, c.short),
    )
