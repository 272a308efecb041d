-- ===== src/Replica/Driving/Looping.antt =====
-- The loop of `drive` for a run that has counted nothing ends after two rounds at most.
use raxos.Prelude.{
  ℕ, suc, ◌≤◌, ◌<◌, ◌≡◌, refl, sym, ap, ◌∙◌, Option, none, some, List, ◌++◌, IsU32, Ran, ran,
  panicked, Bytes, arith,
}
use raxos.Prelude.Map
use raxos.Prelude.Map.{insert-insert, get-insert_self}
use raxos.Prelude.Ordered.{nat_ord}
use raxos.Types.{Slot, Proposal}
use raxos.Rng.{Rng}
use raxos.Recorder.{IsrSlot, update_register}
use raxos.Recorder.Steps.{update_register-IsOpened}
use raxos.Proposer.{Run}
use raxos.Replica.{Replica, SlotState, Action, size}
use raxos.Replica.Replying.{Next, rest, decide, drive}
use raxos.Replica.Driving.{drive_round, drive_loop}
use raxos.Replica.Driving.Rounds.{touched}
use raxos.Replica.Driving.Ends.{IsSent, IsDriven, FreshRound, left, onward, first_round}

-- What `drive` is handed: the replica after the loop, and the value that it decided.
abbrev loop_on : ℕ → ℕ → Slot → Option (Next × Replica) → Ran (Option Bytes × Replica)
loop_on fuel now slot none = panicked
loop_on fuel now slot (some (rest, r')) = ran (none, r')
loop_on fuel now slot (some (decide value, r')) = ran (some value, r')
loop_on fuel now slot (some (drive, r')) = drive_loop fuel now slot r'

drive_loop-suc :
    (fuel now : ℕ) (slot : Slot) (r : Replica)
    → drive_loop (suc fuel) now slot r ≡ loop_on fuel now slot (drive_round now slot r)
unfolding drive_loop
drive_loop-suc fuel now slot r = refl

update_register-in_step :
    (isr : IsrSlot) (step : ℕ) (p : Proposal)
    → isr.step ≡ step
    → (update_register isr step p).0.step ≡ step
unfolding update_register
update_register-in_step isr step p e = ground (arith, e)

-- The slot as it stands when the loop is left; `actions` have been added to the queue.
pub record Drives (slot : Slot) (begun : Run) (r r' : Replica) : Type 0 where
  pub state : SlotState
  pub rng : Rng
  pub acts : List Action
  pub is : r' ≡ touched slot state rng (r.actions ++ acts) r
  pub sent : IsSent slot begun r state acts

module _ (now : ℕ) (slot : Slot) (r : Replica) (inside : r.me_idx < size r) (q2 : 2 ≤ r.quorum)
    (u : IsU32 r.quorum) where
  -- A second round catches up with nothing, and so leaves the loop.
  last_round :
      (fuel : ℕ) (state : SlotState) (run : Run) (isr : IsrSlot) (begun : Run)
      → Map.get r.slots slot ≡ some state
      → IsDriven (size r) state run isr
      → isr.step ≡ run.step
      → begun.step < run.step
      → (r' : Replica) × (drive_loop (suc fuel) now slot r ≡ ran (none, r'))
        × Drives slot begun r r'
  last_round fuel state run isr begun at d in_step le =
      let (out, e, ends) = first_round now slot r inside q2 u state run isr at d in
      last_of out ends (drive_loop-suc fuel now slot r ∙ ap (loop_on fuel now slot) e)
    where
      last_of :
          (out : Next × Replica)
          → FreshRound slot run isr r out
          → drive_loop (suc fuel) now slot r ≡ loop_on fuel now slot (some out)
          → (r' : Replica) × (drive_loop (suc fuel) now slot r ≡ ran (none, r'))
            × Drives slot begun r r'
      last_of out (left state' acts sent) q = (
        _,
        q,
        record {
          state = state';
          rng = r.rng;
          acts = acts;
          is = refl;
          sent = record {
            run = sent.run;
            isr = sent.isr;
            runs = sent.runs;
            records = sent.records;
            opened = sent.opened;
            in_step = sent.in_step;
            onward = omega (arith, le, sent.onward);
            same = λ e. absurd (omega (arith, le, sent.onward, e));
            sent = sent.sent;
            calls = sent.calls;
          };
        },
      )
      last_of out (onward state' p run' rng _ _ _ step up) q =
          absurd (omega (arith, up, step, update_register-in_step isr run.step p in_step))

module _ (slot : Slot) (r : Replica) where
  pub touched-touched :
      (s1 s2 : SlotState) (rng1 rng2 : Rng) (acts1 acts2 : List Action)
      → touched slot s2 rng2 acts2 (touched slot s1 rng1 acts1 r) ≡ touched slot s2 rng2 acts2 r
  touched-touched s1 s2 rng1 rng2 acts1 acts2 =
      ap (λ slots. record r { slots = slots; rng = rng2; actions = acts2 })
        (insert-insert r.slots slot s2 s1)

  -- What is true after the second round is true of both together.
  pub Drives-touched :
      (state : SlotState) (rng : Rng) (begun : Run) (r' : Replica)
      → Drives slot begun (touched slot state rng r.actions r) r'
      → Drives slot begun r r'
  Drives-touched state rng begun r' d = record {
    state = d.state;
    rng = d.rng;
    acts = d.acts;
    is = d.is ∙ touched-touched state d.state rng d.rng r.actions (r.actions ++ d.acts);
    sent = record {
      run = d.sent.run;
      isr = d.sent.isr;
      runs = d.sent.runs;
      records = d.sent.records;
      opened = d.sent.opened;
      in_step = d.sent.in_step;
      onward = d.sent.onward;
      same = d.sent.same;
      sent = d.sent.sent;
      calls = d.sent.calls;
    };
  }

-- In a group of two or more, the loop of `drive` ends after two rounds at most when the run has
-- counted nothing yet, and decides nothing. Afterwards the slot is still running and its step has
-- gone out: the own register has recorded that very step, which is no lower than before, and
-- every other member is called with the proposal for it, the very one of the run that the loop
-- began with unless the step is a later one. Nothing but the slot, the generator and
-- the queue has changed. The register must be open and in order.
pub drive_loop-Drives :
    (fuel now : ℕ) (slot : Slot) (r : Replica) (state : SlotState) (run : Run) (isr : IsrSlot)
    → r.me_idx < size r
    → 2 ≤ r.quorum
    → IsU32 r.quorum
    → Map.get r.slots slot ≡ some state
    → IsDriven (size r) state run isr
    → (r' : Replica) × (drive_loop (suc (suc fuel)) now slot r ≡ ran (none, r'))
      × Drives slot run r r'
drive_loop-Drives fuel now slot r state run isr inside q2 u at d =
    let (out, e, ends) = first_round now slot r inside q2 u state run isr at d in
    rounds_of out ends (drive_loop-suc (suc fuel) now slot r ∙ ap (loop_on (suc fuel) now slot) e)
  where
    rounds_of :
        (out : Next × Replica)
        → FreshRound slot run isr r out
        → drive_loop (suc (suc fuel)) now slot r ≡ loop_on (suc fuel) now slot (some out)
        → (r' : Replica) × (drive_loop (suc (suc fuel)) now slot r ≡ ran (none, r'))
          × Drives slot run r r'
    rounds_of out (left state' acts sent) q =
        (_, q, record { state = state'; rng = r.rng; acts = acts; is = refl; sent = sent })
    rounds_of out (onward state' p run' rng records runs fresh step up) q =
        let isr' = (update_register isr run.step p).0 in
        let r1 = touched slot state' rng r.actions r in
        let d1 : IsDriven (size r1) state' run' isr' = record {
          runs = runs;
          records = records;
          opened = update_register-IsOpened isr run.step p d.opened;
          fresh = fresh;
          later = omega arith;
        } in
        let (r', e, drives) =
          last_round now slot r1 inside q2 u fuel state' run' isr' run
            (get-insert_self r.slots slot state') d1 (sym step) (omega arith) in
        (r', q ∙ e, Drives-touched slot r state' rng run r' drives)
