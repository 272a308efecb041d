-- ===== src/Replica/Driving/Ends.antt =====
-- How a round of the loop of `drive` ends for a run that has counted nothing.
use raxos.Prelude.{
  ℕ, ◌≤◌, ◌<◌, ◌≡◌, refl, ap, ◌∙◌, false, not, Option, none, some, List, [], ◌++◌, IsU32,
  if◌then◌else◌, arith,
}
use raxos.Prelude.Map
use raxos.Prelude.Map.{insert-insert, get-insert_self}
use raxos.Prelude.Ordered.{nat_ord}
use raxos.Types.{Slot, Proposal}
use raxos.Rng.{Rng}
use raxos.Recorder.{IsrSlot, open_slot, update_register}
use raxos.Recorder.Steps.{
  IsOpened, record_step-eq-some, record_step_monotone, update_register-IsOpened,
}
use raxos.Proposer.{Run, running, Folded, ignored, proposal_for, count_reply}
use raxos.Proposer.Tracking.{Reply, Tracks, Folds, fold-Folds}
use raxos.Proposer.Beginning.{Sends, IsFresh}
use raxos.Replica.{Replica, SlotState, Action, message_of, size, others}
use raxos.Replica.Replying.{Next, rest, drive}
use raxos.Replica.Driving.{broadcast, after_own, record_own, sent_now, drive_round, drive_proposer}
use raxos.Replica.Driving.Rounds.{touched, Calls, broadcast-Calls, begin-IsFresh}

-- A slot whose step has gone out, from the run `begun` on: its own register has recorded the step,
-- and every other member is called; and while the step is still that of `begun`, so are the
-- proposals.
pub record IsSent (slot : Slot) (begun : Run) (r : Replica) (state : SlotState) (acts : List Action)
    : Type 0 where
  pub run : Run
  pub isr : IsrSlot
  pub runs : state.proposer ≡ running run
  pub records : state.recorder ≡ open_slot isr
  pub opened : IsOpened isr
  pub in_step : isr.step ≡ run.step
  pub onward : begun.step ≤ run.step
  pub same : run.step ≡ begun.step → (idx : ℕ) → proposal_for run idx ≡ proposal_for begun idx
  pub sent : run.needs_send ≡ false
  pub calls :
      Calls slot run.step run r.config.replicas (λ payload. message_of payload r) (others r) acts

-- The ends of a round from the run `begun`, which has counted nothing.
pub data FreshRound (slot : Slot) (begun : Run) (isr : IsrSlot) (r : Replica)
    : Next × Replica → Type 0 where
  left :
      (state : SlotState) (acts : List Action)
      → IsSent slot begun r state acts
      → FreshRound slot begun isr r (rest, touched slot state r.rng (r.actions ++ acts) r)
  onward :
      (state : SlotState) (p : Proposal) (run : Run) (rng : Rng)
      → state.recorder ≡ open_slot (update_register isr begun.step p).0
      → state.proposer ≡ running run
      → IsFresh (size r) run
      → run.step ≡ (update_register isr begun.step p).0.step
      → begun.step < run.step
      → FreshRound slot begun isr r (drive, touched slot state rng r.actions r)

-- A slot whose proposer has a fresh run to send, in a group of `n`, and whose register is open.
pub record IsDriven (n : ℕ) (state : SlotState) (run : Run) (isr : IsrSlot) : Type 0 where
  pub runs : state.proposer ≡ running run
  pub records : state.recorder ≡ open_slot isr
  pub opened : IsOpened isr
  pub fresh : IsFresh n run
  pub later : 0 < run.step

module _ (now : ℕ) (slot : Slot) (r : Replica) (inside : r.me_idx < size r) (q2 : 2 ≤ r.quorum)
    (u : IsU32 r.quorum) where
  -- The loop is left once the step has gone out.
  sent_left :
      (state : SlotState) (run : Run) (isr isr' : IsrSlot) (begun : Run)
      → state.recorder ≡ open_slot isr'
      → IsOpened isr'
      → isr'.step ≡ run.step
      → begun.step ≤ run.step
      → (run.step ≡ begun.step → (idx : ℕ) → proposal_for run idx ≡ proposal_for begun idx)
      → run.needs_send ≡ false
      → Sends run (size r)
      → (out : Next × Replica) × (broadcast slot run.step state run r ≡ some out)
        × FreshRound slot begun isr r out
  sent_left state run isr isr' begun at opened in_step up same unsent sends =
      let (acts, calls, e) = broadcast-Calls slot run.step state run r sends in
      (
        _,
        e,
        left (record state { proposer = running run }) acts
            (record {
              run = run;
              isr = isr';
              runs = refl;
              records = at;
              opened = opened;
              in_step = in_step;
              onward = up;
              same = same;
              sent = unsent;
              calls = calls;
            }),
      )

  after_fresh :
      (state : SlotState) (run : Run) (isr : IsrSlot) (p : Proposal) (c : Reply)
      (folded : Folded × Run)
      → state.recorder ≡ open_slot (update_register isr run.step p).0
      → IsOpened (update_register isr run.step p).0
      → run.step ≤ (update_register isr run.step p).0.step
      → IsFresh (size r) run
      → Folds
          (size r)
          r.quorum
          (sent_now now run)
          []
          run.step
          (update_register isr run.step p).0.step
          c
          folded
      → (out : Next × Replica) × (after_own now slot run.step state folded r ≡ some out)
        × FreshRound slot run isr r out
  after_fresh state run isr p c folded at opened le fresh (Folds.ahead up) =
      let isr' = (update_register isr run.step p).0 in
      let (run', rng, fresh', step, e) =
        begin-IsFresh now slot state
          (record (sent_now now run) { step = isr'.step; proposal = c.first }) r inside
          fresh.tracks.size in
      (
        _,
        e,
        onward (record state { proposer = running run' }) p run' rng at refl fresh' step
            (omega (arith, step, up)),
      )
  after_fresh state run isr p c folded at opened le fresh (Folds.skipped back other) =
      sent_left state (sent_now now run) isr (update_register isr run.step p).0 run at opened
        (omega (arith, le, back)) (omega arith) (λ _ idx. unfold proposal_for in refl) refl
        (unfold proposal_for in fresh.sends)
  after_fresh state run isr p c folded at opened le fresh (Folds.counts a b unseen answer e t) =
      unfold count_reply proposal_for in
      let lone : answer ≡ ignored = e ∙ ground arith in
      rw lone (
        sent_left state (count_reply (sent_now now run) c.from c.first c.agg) isr
          (update_register isr run.step p).0 run at opened b (omega arith) (λ _ idx. refl) refl
          fresh.sends)

  own_round :
      (state : SlotState) (run : Run) (isr : IsrSlot)
      → IsDriven (size r) state run isr
      → (out : Next × Replica) × (record_own now slot (open_slot isr) state (sent_now now run) r
          ≡ some out)
        × FreshRound slot run isr r out
  own_round state run isr d =
      let (mine, m) = d.fresh.sends r.me_idx inside in
      let mine_sent : proposal_for (sent_now now run) r.me_idx ≡ some mine =
        unfold proposal_for in m in
      let (f, first, records) = record_step-eq-some isr run.step mine d.opened d.later in
      let isr' = (update_register isr run.step mine).0 in
      let c : Reply = record { from = r.me_idx; first = f; agg = isr'.prior_agg } in
      let t : Tracks (size r) (sent_now now run) [] = record {
        size = d.fresh.tracks.size;
        marks = d.fresh.tracks.marks;
        count = d.fresh.tracks.count;
        high = d.fresh.tracks.high;
        best_first = d.fresh.tracks.best_first;
        best_agg = d.fresh.tracks.best_agg;
      } in
      let (folded, e, folds) =
        fold-Folds (size r) r.quorum (sent_now now run) [] run.step isr'.step c t inside
          (omega arith) u in
      let (out, after, ends) =
        after_fresh (record state { recorder = open_slot isr' }) run isr mine c folded refl
          (update_register-IsOpened isr run.step mine d.opened)
          (record_step_monotone isr run.step mine).0 d.fresh folds in
      (out, rw (mine_sent, records, e) after, ends)

  round_of :
      (state : SlotState) (run : Run) (isr : IsrSlot)
      → Map.get r.slots slot ≡ some state
      → IsDriven (size r) state run isr
      → drive_round now slot r ≡ record_own now slot (open_slot isr) state (sent_now now run) r
  unfolding drive_round
  round_of state run isr at d =
      let unsent : not run.needs_send ≡ false = ap not d.fresh.unsent in
      ap
        (λ (o : Option SlotState). elim o [
          | none ↦ some (rest, r)
          | some x ↦ drive_proposer now slot x x.proposer r
        ])
        at
      ∙ ap (λ x. drive_proposer now slot state x r) d.runs
      ∙ ap
          (λ b.
            if b
            then some (rest, r)
            else record_own now slot state.recorder state (sent_now now run) r)
          unsent
      ∙ ap (λ x. record_own now slot x state (sent_now now run) r) d.records

  pub first_round :
      (state : SlotState) (run : Run) (isr : IsrSlot)
      → Map.get r.slots slot ≡ some state
      → IsDriven (size r) state run isr
      → (out : Next × Replica) × (drive_round now slot r ≡ some out) × FreshRound slot run isr r out
  first_round state run isr at d =
      let (out, e, ends) = own_round state run isr d in (out, round_of state run isr at d ∙ e, ends)
