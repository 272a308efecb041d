-- ===== src/Replica/Retention/Log.antt =====
-- A run of deliveries as a piece of the log: which slots, and which commands over all of them.
use raxos.Prelude.{
  ℕ, zero, suc, ◌+◌, ◌<◌, ◌≡◌, refl, sym, ap, ◌∙◌, none, some, List, [], ◌∷◌, ◌++◌, All, Bytes,
  length, range_from, IsU64, if◌then◌else◌, arith,
}
use raxos.Prelude.Map
use raxos.Prelude.Map.{Map}
use raxos.Prelude.Ordered.{nat_ord}
use raxos.Types.{Slot, CommandId, id_ord}
use raxos.Pool.Dedup.{Dedup, mark_delivered, is_delivered}
use raxos.Pool.Dedup.Exact.{IsDedup, handed_over, handed_over_once, count, mem}
use raxos.Replica.{Action, send, deliver}
use raxos.Replica.Retention.{batch_of}
use raxos.Replica.Retention.Batches.{stuck, onward, Delivers, ids, ids-news, marked}

-- The slots and the commands of the deliveries among some actions.
abbrev pub slots_of : List Action → List Slot
slots_of [] = []
slots_of (send to message ∷ rest) = slots_of rest
slots_of (deliver slot commands ∷ rest) = slot ∷ slots_of rest

abbrev pub commands_of : List Action → List CommandId
commands_of [] = []
commands_of (send to message ∷ rest) = commands_of rest
commands_of (deliver slot commands ∷ rest) = ids commands ++ commands_of rest

-- The commands that the values of the `k` slots after `s` hold, repetitions included.
unfoldable pub log_ids : Map Slot Bytes → Slot → ℕ → List CommandId
log_ids retained s zero = []
log_ids retained s (suc k) =
    (elim (Map.get retained (suc s)) [ none ↦ [] | some value ↦ ids (batch_of value) ])
    ++ log_ids retained (suc s) k

handed_over-append :
    (d : Dedup) (xs ys : List CommandId)
    → handed_over d (xs ++ ys) ≡ handed_over d xs ++ handed_over (marked d xs) ys
unfolding handed_over marked
handed_over-append d [] ys = refl
handed_over-append d (x ∷ xs) ys = ground (arith, handed_over-append (mark_delivered d x).1 xs ys)

log_ids-suc :
    (retained : Map Slot Bytes) (s k : ℕ) (value : Bytes)
    → Map.get retained (suc s) ≡ some value
    → log_ids retained s (suc k) ≡ ids (batch_of value) ++ log_ids retained (suc s) k
unfolding log_ids
log_ids-suc retained s k value e = rw e refl

-- Deliveries go through consecutive slots, each once, and hand over over all of them the
-- commands that are new when the whole piece of the log is taken as one sequence.
Delivers-log :
    (retained : Map Slot Bytes) {s : Slot} {d : Dedup} {later : List Action} {s' : Slot}
    {d' : Dedup}
    → Delivers retained s d later s' d'
    → (slots_of later ≡ range_from (suc s) (length later))
      × (s' ≡ s + length later)
      × (commands_of later ≡ handed_over d (log_ids retained s (length later)))
unfolding handed_over log_ids
Delivers-log retained (stuck s d e) = (refl, omega arith, refl)
Delivers-log retained (onward s d value commands later s' d' e handed rest) =
    let (slots, to, log) = Delivers-log retained rest in
    (
      ap (λ xs. suc s ∷ xs) slots,
      omega (arith, to),
      ap (λ xs. xs ++ commands_of later) (ap ids handed ∙ ids-news d (batch_of value))
          ∙ ap (λ ys. handed_over d (ids (batch_of value)) ++ ys) log
          ∙ sym (
              handed_over-append d (ids (batch_of value)) (log_ids retained (suc s) (length later)))
          ∙ ap (λ xs. handed_over d xs) (sym (log_ids-suc retained s (length later) value e)),
    )

-- Over a run of deliveries a command comes out exactly once if it was not delivered before and
-- stands in the piece of the log at all, however often and in however many slots; otherwise it
-- does not come out. The numbers of the commands are u64 values from 1 on. The slots of the
-- deliveries are consecutive from the one after the frontier up to the new frontier.
pub Delivers-once :
    (retained : Map Slot Bytes) (s : Slot) (d : Dedup) (later : List Action) (s' : Slot)
    (d' : Dedup) (id : CommandId)
    → Delivers retained s d later s' d'
    → IsDedup d
    → All (λ (c : CommandId). (0 < c.seq) × IsU64 c.seq) (log_ids retained s (length later))
    → 0 < id.seq
    → (count id (commands_of later) ≡ (
        if is_delivered d id
        then 0
        else if mem id (log_ids retained s (length later))
        then 1
        else 0))
      × (slots_of later ≡ range_from (suc s) (length later))
      × (s' ≡ s + length later)
Delivers-once retained s d later s' d' id run h v p =
    let (slots, to, log) = Delivers-log retained run in
    (
      ap (λ xs. count id xs) log ∙ handed_over_once d (log_ids retained s (length later)) id h v p,
      slots,
      to,
    )
