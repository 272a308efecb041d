-- ===== src/Agreement/Recording.antt =====
-- The handler of a call is a step of the group: `on_record` at a slot whose register is the replay
-- of the recorder's history.
use raxos.Prelude.{
  ℕ, ◌≤◌, ◌<◌, ◌≡◌, inl, inr, refl, sym, ap, ◌∙◌, some, some_inv, List, [], ◌∷◌, ◌++◌, true, ◌==◌,
  get_elem?, Contains, add_u64, arith,
}
use raxos.Prelude.Ordered.{nat_ord}
use raxos.Types.{ReplicaId, Slot, Proposal}
use raxos.Wire.{Payload, ReplyFirst, record_reply}
use raxos.Recorder.{IsrSlot, open_slot, update_register}
use raxos.Recorder.Steps.{summary_of, record_step-eq-some}
use raxos.Recorder.History.{Invocation, replay}
use raxos.Replica.{Replica, SlotState, send, message_of, ahead_window}
use raxos.Replica.Recording.{slot_at, recorded_at, on_record}
use raxos.Replica.Recording.Answers.{
  replied, resolve, IsRecording, Answers, with_value, with_summary, on_record-Answers,
  slot_at-put_slot,
}
use raxos.Agreement.{Group, Call, Answer, World, answer_of, Step, records}
use raxos.Agreement.Receiving.{after_record}
use raxos.Agreement.Answering.{put_self, replay-IsOpened}

-- What a handled call leaves: the register is again the replay of the recorder's history, and the
-- reply is the answer that stands in the world.
pub record Recorded (g : Group) (w : World) (c : Call) (now : ℕ) (slot : Slot) (to : ReplicaId)
    (r r' : Replica) : Type 0 where
  pub world : World
  pub step : Step g w world
  pub answer : Answer
  pub first : ReplyFirst
  pub stands : Contains answer world.answers
  pub register : (slot_at now slot r').recorder ≡ open_slot (replay (world.histories c.to))
  pub resolved : resolve first c.proposal ≡ answer.first
  pub replies :
      r'.actions
      ≡ r.actions
        ++ (send to (message_of (record_reply slot answer.req_step answer.step first answer.agg) r)
            ∷ [])

open_slot_inv : {a b : IsrSlot} → open_slot a ≡ open_slot b → a ≡ b
open_slot_inv e = cc

replay_one :
    (step : ℕ) (p : Proposal) (h : List Invocation)
    → replay ((step, p) ∷ h) ≡ (update_register (replay h) step p).0
unfolding replay
replay_one step p h = refl

module _ (g : Group) (w : World) (c : Call) (now : ℕ) (slot : Slot) (to : ReplicaId) (r : Replica)
    (m : Contains c w.calls) (later : 0 < c.step) where
  slot_at_replied :
      (payload : Payload) (state : SlotState)
      → slot_at now slot (replied to payload slot state r) ≡ state
  unfolding slot_at
  slot_at_replied payload state =
      slot_at-put_slot now slot slot state r
      ∙ (let e : (slot == slot) ≡ true = ground arith in rw e refl)

  answered :
      (state : SlotState) (r' : Replica)
      → Answers now to slot c.step c.proposal r state r'
      → state.recorder ≡ open_slot (replay (w.histories c.to))
      → Recorded g w c now slot to r r'
  answered state r' (with_value s value e) at = absurd (cc (e, at))
  answered state r' (with_summary s isr first e f) at =
      let h = w.histories c.to in
      let is : isr ≡ replay h = open_slot_inv (sym e ∙ at) in
      let (f', first_is, records_as) =
        record_step-eq-some (replay h) c.step c.proposal (replay-IsOpened h) later in
      let next = update_register (replay h) c.step c.proposal in
      let reply_of = λ (x : IsrSlot).
        record_reply slot c.step (update_register x c.step c.proposal).0.step first
          (update_register x c.step c.proposal).0.prior_agg in
      let state' =
        recorded_at now state (update_register isr c.step c.proposal).0
          (update_register isr c.step c.proposal).1 in
      record {
        world = after_record c (summary_of next.0 f') w;
        step = records c (summary_of next.0 f') next.1 next.0 m records_as;
        answer = answer_of c (summary_of next.0 f');
        first = first;
        stands = inl refl;
        register =
            ap (λ (x : SlotState). x.recorder) (slot_at_replied (reply_of isr) state')
            ∙ ap (λ x. open_slot (update_register x c.step c.proposal).0) is
            ∙ ap open_slot (sym (replay_one c.step c.proposal h))
            ∙ ap (λ x. open_slot (replay x))
                (sym (put_self c.to ((c.step, c.proposal) ∷ h) w.histories));
        resolved =
            some_inv
              (sym f ∙ ap (λ x. (update_register x c.step c.proposal).0.first) is ∙ first_is);
        replies = ap (λ x. r.actions ++ (send to (message_of (reply_of x) r) ∷ [])) is;
      }

-- An accepted record is a step of the group: for a call that is on its way, at an open slot whose
-- register is the replay of the recorder's history in the world, `on_record` does not panic; the
-- world has a step in which the call is recorded and answered, the register is the replay of the
-- history after it, and the one message sent is that answer, in which the receiver takes the
-- answer's proposal for the first. The slot must be retained and not too far ahead, the step at
-- least the first, and every open register of the replica one with a first proposal.
pub on_record-Recorded :
    (g : Group) (w : World) (c : Call) (now : ℕ) (slot : Slot) (to : ReplicaId) (r : Replica)
    → Contains c w.calls
    → IsRecording r
    → get_elem? r.config.replicas c.from ≡ some to
    → (slot_at now slot r).recorder ≡ open_slot (replay (w.histories c.to))
    → r.gc_floor < slot
    → slot ≤ add_u64 r.decided_contig (ahead_window r)
    → 4 ≤ c.step
    → (r' : Replica) × (on_record now c.from slot c.step c.proposal r ≡ some r')
      × Recorded g w c now slot to r r'
on_record-Recorded g w c now slot to r m h known at kept near later =
    elim (on_record-Answers now c.from to slot c.step c.proposal r h known) [
      | inl (e, refused) ↦ absurd (omega (arith, refused))
      | inr (r', e, answers, k) ↦
          (r', e, answered g w c now slot to r m (omega arith) (slot_at now slot r) r' answers at)
    ]
