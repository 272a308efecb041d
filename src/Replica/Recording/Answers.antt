-- ===== src/Replica/Recording/Answers.antt =====
-- What `on_record` answers, and what it does to the register of the slot.
use raxos.Prelude.{
  ℕ, ◌≤◌, ◌<◌, ◌≡◌, ◌⊎◌, inl, inr, refl, sym, ap, subst, ◌∙◌, ◌||◌, Bool-cases, some, Bytes,
  get_elem?, ltb, leb, ◌==◌, if◌then◌else◌, add_u64, arith,
}
use raxos.Prelude.Map
use raxos.Prelude.Ordered.{nat_ord}
use raxos.Types.{ReplicaId, Slot, Proposal, proposal_eq_iff}
use raxos.Wire.{Payload, ReplyFirst, echo, full, record_reply, decide}
use raxos.Recorder.{
  IsrSlot, IsrSummary, RecorderSlot, open_slot, decided, update_register, reply_first,
}
use raxos.Recorder.Steps.{IsOpened, summary_of, record_step-eq-some, update_register-IsOpened}
use raxos.Replica.{Replica, SlotState, send, ahead_window, send_to, message_of, push}
use raxos.Replica.Recording.{slot_at, put_slot, elided, recorded_at, answer, on_record}

-- What the sender of `request` takes for the first proposal of a reply to it.
abbrev pub resolve : ReplyFirst → Proposal → Proposal
resolve echo request = request
resolve (full p) request = p

-- Eliding the echo loses nothing.
resolve-elided :
    (step : ℕ) (summary : IsrSummary) (request : Proposal)
    → resolve (elided step summary request) request ≡ summary.first
unfolding reply_first
resolve-elided step summary request = ground (arith, (proposal_eq_iff summary.first request).0)

abbrev pub IsOpen : RecorderSlot → Type 0
IsOpen (open_slot isr) = IsOpened isr
IsOpen (decided value) = Unit {0}

-- Every open register has its first proposal once it has a step.
abbrev pub IsRecording : Replica → Type 0
IsRecording r = (now : ℕ) (slot : Slot) → IsOpen (slot_at now slot r).recorder

pub slot_at-put_slot :
    (now : ℕ) (slot other : Slot) (state : SlotState) (r : Replica)
    → slot_at now other (put_slot slot state r)
      ≡ (if slot == other then state else slot_at now other r)
unfolding slot_at
slot_at-put_slot now slot other state r = ground (arith, Map.get-insert r.slots slot other state)

pub put_slot-IsRecording :
    (slot : Slot) (state : SlotState) (r : Replica)
    → IsRecording r
    → IsOpen state.recorder
    → IsRecording (put_slot slot state r)
put_slot-IsRecording slot state r h o now other = elim (Bool-cases (slot == other)) [
  | inl e ↦ rw (slot_at-put_slot now slot other state r, e) o
  | inr e ↦ rw (slot_at-put_slot now slot other state r, e) (h now other)
]

-- `r'` is `r` with the state of one slot set and a message to `to` queued.
abbrev pub replied : ReplicaId → Payload → Slot → SlotState → Replica → Replica
replied to payload slot state r = push (send to (message_of payload r)) (put_slot slot state r)

replied-IsRecording :
    (to : ReplicaId) (payload : Payload) (slot : Slot) (state : SlotState) (r : Replica)
    → IsRecording r
    → IsOpen state.recorder
    → IsRecording (replied to payload slot state r)
unfolding slot_at
replied-IsRecording to payload slot state r h o = put_slot-IsRecording slot state r h o

-- The outcomes of an accepted record of `(step, p)` at a slot in `state`: a decided slot sends
-- its value; an open one records, and its reply names the step of the register as it then is,
-- the aggregate of the step before, and what `p`'s sender will take for its first proposal.
pub data Answers (now : ℕ) (to : ReplicaId) (slot : Slot) (step : ℕ) (p : Proposal) (r : Replica)
    : SlotState → Replica → Type 0 where
  with_value :
      (state : SlotState) (value : Bytes)
      → state.recorder ≡ decided value
      → Answers now to slot step p r state (replied to (decide slot value) slot state r)
  with_summary :
      (state : SlotState) (isr : IsrSlot) (first : ReplyFirst)
      → state.recorder ≡ open_slot isr
      → (update_register isr step p).0.first ≡ some (resolve first p)
      → Answers now to slot step p r state (
          replied to
            (record_reply slot step
              (update_register isr step p).0.step
              first
              (update_register isr step p).0.prior_agg)
            slot
            (recorded_at now state (update_register isr step p).0 (update_register isr step p).1)
            r)

pub recorder_cases :
    (c : RecorderSlot) → ((v : Bytes) × (c ≡ decided v)) ⊎ ((isr : IsrSlot) × (c ≡ open_slot isr))
recorder_cases (decided v) = inl (v, refl)
recorder_cases (open_slot isr) = inr (isr, refl)

send_to-eq-some :
    (idx : ℕ) (to : ReplicaId) (payload : Payload) (r : Replica)
    → get_elem? r.config.replicas idx ≡ some to
    → send_to idx payload r ≡ some (push (send to (message_of payload r)) r)
unfolding send_to
send_to-eq-some idx to payload r e = rw e refl

-- The two ways `answer` ends.
answer-Answers :
    (now from_idx : ℕ) (to : ReplicaId) (slot : Slot) (step : ℕ) (p : Proposal) (state : SlotState)
    (r : Replica)
    → IsRecording r
    → IsOpen state.recorder
    → get_elem? r.config.replicas from_idx ≡ some to
    → 0 < step
    → (r' : Replica) × (answer now from_idx slot step p state.recorder state r ≡ some r')
      × Answers now to slot step p r state r'
      × IsRecording r'
answer-Answers now from_idx to slot step p state r h o at pos =
    elim (recorder_cases state.recorder) [
      | inl (v, e) ↦ (
        replied to (decide slot v) slot state r,
        ap (λ c. answer now from_idx slot step p c state r) e
            ∙ send_to-eq-some from_idx to (decide slot v) (put_slot slot state r) at,
        with_value state v e,
        replied-IsRecording to (decide slot v) slot state r h o,
      )
      | inr (isr, e) ↦
          let opened : IsOpened isr = subst IsOpen e o in
          let (f, first, records) = record_step-eq-some isr step p opened pos in
          let isr' = (update_register isr step p).0 in
          let state' = recorded_at now state isr' (update_register isr step p).1 in
          let reply =
            record_reply slot step isr'.step (elided step (summary_of isr' f) p) isr'.prior_agg in
          (
            replied to reply slot state' r,
            ap (λ c. answer now from_idx slot step p c state r) e
                ∙ rw records (send_to-eq-some from_idx to reply (put_slot slot state' r) at),
            with_summary state isr (elided step (summary_of isr' f) p) e
                (first ∙ ap some (sym (resolve-elided step (summary_of isr' f) p))),
            replied-IsRecording to reply slot state' r h
                (update_register-IsOpened isr step p opened),
          )
    ]

pub on_record-Answers :
    (now from_idx : ℕ) (to : ReplicaId) (slot : Slot) (step : ℕ) (p : Proposal) (r : Replica)
    → IsRecording r
    → get_elem? r.config.replicas from_idx ≡ some to
    → ((on_record now from_idx slot step p r ≡ some r)
        × ((slot ≤ r.gc_floor) ⊎ (step < 4) ⊎ (add_u64 r.decided_contig (ahead_window r) < slot)))
      ⊎ ((r' : Replica) × (on_record now from_idx slot step p r ≡ some r')
          × Answers now to slot step p r (slot_at now slot r) r'
          × IsRecording r')
unfolding on_record
on_record-Answers now from_idx to slot step p r h at =
    elim (Bool-cases (leb slot r.gc_floor || ltb step 4)) [
      | inl a ↦ inl (rw (a, on_record) refl, ground (arith, a))
      | inr a ↦ elim (Bool-cases (ltb (add_u64 r.decided_contig (ahead_window r)) slot)) [
        | inl b ↦ inl (rw (on_record, a, b) refl, ground (arith, b))
        | inr b ↦
            let (r', e, answers, kept) =
              answer-Answers now from_idx to slot step p (slot_at now slot r) r h (h now slot) at
                (ground (arith, a)) in
            inr (r', rw (on_record, a, b) e, answers, kept)
      ]
    ]
