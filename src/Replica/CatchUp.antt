-- ===== src/Replica/CatchUp.antt =====
-- src/replica.rs: catching up: who is asked for decided values, and what is served.
pub mod Serving
use raxos.Prelude.{
  ℕ, zero, suc, ◌+◌, ◌-◌, Bool, true, false, ◌||◌, Option, none, some, ◌>>=◌, List, [], ◌∷◌, Bytes,
  length, ltb, leb, ◌==◌, if◌then◌else◌,
}
use raxos.Prelude.Map
use raxos.Prelude.Ordered.{nat_ord}
use raxos.Types.{Slot, next}
use raxos.Wire.{learn, learn_reply}
use raxos.Replica.{Replica, send_to, learn_chunk_bytes}

-- A request that was sent less than `retransmit_delay` ago is still awaited.
unfoldable pub is_awaiting : ℕ → Replica → Bool
is_awaiting now r = elim r.learn_in_flight [
  | none ↦ false
  | some (idx, sent_at) ↦ ltb (now - sent_at) r.config.retransmit_delay
]

unfoldable pub maybe_request_learn : ℕ → ℕ → Slot → Replica → Option Replica
maybe_request_learn now from_idx their_decided r =
    if leb their_decided r.decided_contig
    then some r
    else if is_awaiting now r
    then some r
    else send_to from_idx (learn (next r.decided_contig))
        (record r { learn_in_flight = some (from_idx, now) })

-- The loop of `on_learn`: the values from `slot` to the frontier, until they make up a chunk.
-- `none` is the panic on a gap; a round for every slot left and one to stop is fuel enough.
unfoldable pub chunk : ℕ → Slot → ℕ → Replica → Option (List Bytes)
chunk zero slot bytes r = some []
chunk (suc fuel) slot bytes r =
    if ltb r.decided_contig slot then some [] else elim (Map.get r.retained slot) [
      | none ↦ none
      | some value ↦
          let rest = chunk fuel (next slot) (bytes + length value) r in
          if leb learn_chunk_bytes (bytes + length value)
          then some (value ∷ [])
          else (do values ← rest; some (value ∷ values))
    ]

unfoldable pub on_learn : ℕ → Slot → Replica → Option Replica
on_learn from_idx from_slot r =
    if leb from_slot r.gc_floor || (ltb r.decided_contig from_slot || from_slot == 0)
    then some r
    else (do
      values ← chunk (suc (suc r.decided_contig) - from_slot) from_slot 0 r
      send_to from_idx (learn_reply from_slot values) r)
