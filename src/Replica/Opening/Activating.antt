-- ===== src/Replica/Opening/Activating.antt =====
-- What `activate` does to a slot, in a group of two or more.
use raxos.Prelude.{
  ℕ, suc, ◌≤◌, ◌<◌, ◌≡◌, ◌⊎◌, inl, inr, refl, ap, true, false, some, not, ◌||◌, Bool-cases, Bytes,
  IsU32, Ran, ran, chain, arith,
}
use raxos.Prelude.Map.{get-insert_self}
use raxos.Prelude.Ordered.{nat_ord}
use raxos.Types.{Slot}
use raxos.Recorder.{IsrSlot, RecorderSlot, open_slot, decided}
use raxos.Recorder.Steps.{IsOpened}
use raxos.Proposer.{Run, running, start}
use raxos.Rng.{Rng}
use raxos.Proposer.Beginning.{start-IsFresh}
use raxos.Replica.{Replica, SlotState, size, is_leader}
use raxos.Replica.Recording.{slot_at, put_slot}
use raxos.Replica.Recording.Answers.{IsOpen}
use raxos.Replica.Driving.Rounds.{touched}
use raxos.Replica.Driving.Ends.{IsDriven}
use raxos.Replica.Driving.Looping.{Drives, Drives-touched, drive_loop-Drives}
use raxos.Replica.Opening.{is_decided, is_idle, decide_driven, drive, activate}

-- The ends of `activate`: a slot with a proposer or a decision is only looked up; any other gets
-- the run that `start` makes for the value, and its step has gone out.
pub data Activates (now : ℕ) (slot : Slot) (value : Bytes) (r : Replica) : Replica → Type 0 where
  kept :
      (is_idle (slot_at now slot r).proposer ≡ false)
        ⊎ (is_decided (slot_at now slot r).recorder ≡ true)
      → Activates now slot value r (put_slot slot (slot_at now slot r) r)
  begun :
      (run : Run) (rng : Rng) (r' : Replica)
      → is_idle (slot_at now slot r).proposer ≡ true
      → is_decided (slot_at now slot r).recorder ≡ false
      → start value r.config.me r.me_idx (size r) (is_leader r) now r.rng ≡ some (run, rng)
      → Drives slot run r r'
      → Activates now slot value r r'

undecided-IsOpened :
    (c : RecorderSlot)
    → is_decided c ≡ false
    → IsOpen c
    → (isr : IsrSlot) × (c ≡ open_slot isr) × IsOpened isr
undecided-IsOpened (open_slot isr) e o = (isr, refl, o)
undecided-IsOpened (decided value) e o = absurd (ground (arith, e))

pub activate-Activates :
    (opening : Replica → Ran Replica) (fuel now : ℕ) (slot : Slot) (value : Bytes) (r : Replica)
    → IsOpen (slot_at now slot r).recorder
    → r.me_idx < size r
    → 2 ≤ r.quorum
    → IsU32 r.quorum
    → (r' : Replica) × (activate opening (suc (suc fuel)) now slot value r ≡ ran r')
      × Activates now slot value r r'
unfolding activate
activate-Activates opening fuel now slot value r o inside q2 u =
    let state = slot_at now slot r in
    elim (Bool-cases (not (is_idle state.proposer) || is_decided state.recorder)) [
      | inl e ↦ (_, rw e refl, kept (ground (arith, e)))
      | inr e ↦
          let ((run, rng), s, fresh, step) =
            start-IsFresh value r.config.me r.me_idx (size r) now (is_leader r) r.rng inside in
          let (isr, is_open, opened) = undecided-IsOpened state.recorder (ground (arith, e)) o in
          let running_state : SlotState = record state { proposer = running run } in
          let r1 = touched slot running_state rng r.actions r in
          let d : IsDriven (size r) running_state run isr = record {
            runs = refl;
            records = is_open;
            opened = opened;
            fresh = fresh;
            later = omega (arith, step);
          } in
          let (r', q, drives) =
            drive_loop-Drives fuel now slot r1 running_state run isr inside q2 u
              (get-insert_self r.slots slot running_state) d in
          let whole : Drives slot run r r' =
            Drives-touched slot r running_state rng run r' drives in
          (
            r',
            rw (e, s)
                (unfold drive in ap (λ m. chain m (λ out. decide_driven opening now slot out)) q),
            begun run rng r' (ground (arith, e)) (ground (arith, e)) s whole,
          )
    ]
