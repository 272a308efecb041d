-- ===== src/Agreement/Safety.antt =====
-- Agreement: all that is decided for a slot is one value.
use raxos.Prelude.{
  ℕ, ◌+◌, ◌%◌, ◌≤◌, ◌<◌, ◌≡◌, ◌⊎◌, inl, inr, refl, sym, ap, subst, ◌∙◌, some, some_inv, [], ◌∷◌,
  Bytes, length, Contains, IsU32, u32_mod, arith,
}
use raxos.Types.{Proposal}
use raxos.Rng.{Rng}
use raxos.Recorder.History.{recorded}
use raxos.Proposer.{
  Run, running, done, StepOutcome, decided, advance, retry, quorum, catch_up, step_complete,
  proposal_for,
}
use raxos.Proposer.Outcomes.{Completes, stalls, step_complete-Completes}
use raxos.Proposer.Advancing.{Completes-step, step_complete-replied}
use raxos.Agreement.{
  marks, Group, Answer, World, put_proposer, begin_at, fold_answer, Step, starts, calls, records,
  folds, catches_up, advances, retries, decides, empty_world, Reach, here, onward,
}
use raxos.Agreement.Histories.{oldest-Contains}
use raxos.Agreement.Justified.{Justified, gathered, Decided}
use raxos.Agreement.Agreeing.{Decided-agree}
use raxos.Agreement.Invariant.{Sent, IsRun, IsConsistent}
use raxos.Agreement.Running.{begin-IsRun, start-IsRun, recorded_carries}
use raxos.Agreement.Completing.{advance-Justified, decided-Decided}
use raxos.Agreement.Counting.{HasCounted, fold_ignored, fold_catch_up, fold_quorum}
use raxos.Agreement.Answering.{running_inv}
use raxos.Agreement.Receiving.{records-IsConsistent}
use raxos.Agreement.Preserving.{proposer_put, run_put, calls-IsConsistent}
use raxos.Agreement.Marking.{marks-IsConsistent}

proposal_for-same :
    (a b : Run)
    → a.proposal ≡ b.proposal
    → a.phase0_priorities ≡ b.phase0_priorities
    → (j : ℕ) → proposal_for a j ≡ proposal_for b j
unfolding proposal_for
proposal_for-same a b e d j = rw (e, d) refl

module _ (g : Group) (w : World) (h : IsConsistent g w) (majority : g.size < g.quorum + g.quorum)
    (word : IsU32 g.quorum) (a : Answer) (run : Run) (m : Contains a w.answers)
    (at : w.proposers a.to ≡ running run) where
  catches_up-IsConsistent :
      (run' : Run) (step now : ℕ) (p : Proposal) (rng : Rng) (out : Run × Rng)
      → fold_answer g a run ≡ some (catch_up step p, run')
      → begin_at g a.to (record run' { step = step; proposal = p }) now rng ≡ some out
      → IsConsistent g (put_proposer a.to (running out.0) w)
  catches_up-IsConsistent run' step now p rng out e b =
      let r = h.runs a.to run at in
      let answer = h.answers a m in
      let (up, step_is, p_is, run_is) = fold_catch_up g w word a run answer at r step p run' e in
      let late : 4 < step = omega (arith, up, r.late) in
      let first_in : Contains a.first (recorded a.step (w.histories a.from)) =
        oldest-Contains a.first (recorded a.step (w.histories a.from)) answer.tells.is_first in
      let justified : Justified g w.histories step p =
        subst (λ t. Justified g w.histories t p) (sym step_is)
          (subst (Justified g w.histories a.step) (sym p_is)
            (h.sound a.from a.step a.first first_in)) in
      let (begun, step') =
        begin-IsRun g w.histories a.to r.inside (omega arith)
          (record run' { step = step; proposal = p }) now rng out b
          (ap (λ (x : Run). length x.replied) run_is ∙ r.tracks.size) late
          (omega (arith, step_is, answer.word))
          (λ q c. recorded_carries g w.histories step p q late justified c) in
      run_put g w h a.to run out.0 at (inl (omega (arith, step', up))) begun

  module _ (counted run' : Run) (e : fold_answer g a run ≡ some (quorum, counted)) where
    -- The outcome of a quorum, against the counted replies.
    completed :
        (k : HasCounted g w.histories run counted)
        → g.quorum ≤ length k.replies
        → (out : StepOutcome × Run) → step_complete counted ≡ some out
        → Completes g.size counted k.replies out
    completed k enough out s =
        let (out', q, completes) =
          step_complete-Completes g.size counted k.replies k.tracks
            (omega (arith, enough, majority)) in
        subst (Completes g.size counted k.replies) (some_inv (sym q ∙ s)) completes

    still_whole :
        HasCounted g w.histories run counted
        → (counted.step % 4 ≡ 0) ⊎ (counted.phase0_priorities ≡ [])
    still_whole k = elim (h.runs a.to run at).whole [
      | inl z ↦ inl (omega (arith, z, k.step))
      | inr plain ↦ inr (k.priorities ∙ plain)
    ]

    advances-IsConsistent :
        (now : ℕ) (rng : Rng) (out : Run × Rng)
        → step_complete counted ≡ some (advance, run')
        → run.step + 1 < u32_mod
        → begin_at g a.to run' now rng ≡ some out
        → IsConsistent g (put_proposer a.to (running out.0) w)
    advances-IsConsistent now rng out s fits b =
        let r = h.runs a.to run at in
        let (k, enough) = fold_quorum g w word a run (h.answers a m) at r counted e in
        let completes = completed k enough (advance, run') s in
        let late : 4 ≤ counted.step = omega (arith, r.late, k.step) in
        let step : run'.step ≡ run.step + 1 =
          omega (arith, Completes-step g.size counted k.replies run' completes, k.step, fits) in
        let sized : length run'.replied ≡ g.size =
          ap length (step_complete-replied counted run' s) ∙ k.tracks.size in
        let (begun, step') =
          begin-IsRun g w.histories a.to r.inside (omega arith) run' now rng out b sized
            (omega (arith, step, r.late)) (omega (arith, step, fits))
            (λ p c.
              advance-Justified g w.histories counted k.replies k.counted k.distinct enough late
                (still_whole k) run' p completes (omega (arith, k.step, fits)) c) in
        run_put g w h a.to run out.0 at (inl (omega (arith, step', step))) begun

    retries-IsConsistent :
        step_complete counted ≡ some (retry, run')
        → IsConsistent g (put_proposer a.to (running run') w)
    retries-IsConsistent s =
        let r = h.runs a.to run at in
        let (k, enough) = fold_quorum g w word a run (h.answers a m) at r counted e in
        retried k (completed k enough (retry, run') s)
      where
        retried :
            (k : HasCounted g w.histories run counted)
            → Completes g.size counted k.replies (retry, run')
            → IsConsistent g (put_proposer a.to (running run') w)
        retried k (stalls run'' phase none_there tracks proposal priorities step) =
            let r = h.runs a.to run at in
            let same =
              proposal_for-same run' run (proposal ∙ k.proposal) (priorities ∙ k.priorities) in
            let again : run'.step ≡ run.step = step ∙ k.step in
            run_put g w h a.to run run' at (inr (again, same)) (record {
              inside = r.inside;
              replies = [];
              tracks = tracks;
              few = omega (arith, majority);
              distinct = tt;
              counted = tt;
              sends = λ j p l q. gathered (omega (arith, phase, step));
              whole = elim (still_whole k) [
                | inl z ↦ inl (omega (arith, z, step))
                | inr plain ↦ inr (priorities ∙ plain)
              ];
              late = omega (arith, again, r.late);
              word = omega (arith, again, r.word);
            })

    decides-IsConsistent :
        (value : Bytes)
        → step_complete counted ≡ some (decided value, run')
        → IsConsistent g (record (put_proposer a.to done w) { decisions = value ∷ w.decisions })
    decides-IsConsistent value s =
        let r = h.runs a.to run at in
        let (k, enough) = fold_quorum g w word a run (h.answers a m) at r counted e in
        let late : 4 ≤ counted.step = omega (arith, r.late, k.step) in
        let rests =
          decided-Decided g w.histories counted k.replies k.counted k.distinct enough late
            (still_whole k) value run' (completed k enough (decided value, run') s) h.sound in
        let h' = proposer_put g w h a.to done (λ j t p x. tt) (λ x q. absurd (cc q)) in
        record {
          sound = h'.sound;
          steps = h'.steps;
          calls = λ c n.
              let x = h'.calls c n in
              record {
                inside = x.inside;
                justified = x.justified;
                is_step = x.is_step;
                sent = x.sent;
              };
          answers = λ b n.
              let x = h'.answers b n in
              record { inside = x.inside; word = x.word; tells = x.tells; own = x.own };
          runs = h'.runs;
          decisions = λ v n. elim n [
            | inl is ↦ subst (Decided g w.histories) (sym is) rests
            | inr old ↦ h.decisions v old
          ];
        }

module _ (g : Group) (majority : g.size < g.quorum + g.quorum) (word : IsU32 g.quorum) where
  Step-IsConsistent : (w w' : World) → Step g w w' → IsConsistent g w → IsConsistent g w'
  Step-IsConsistent w w' (starts i now rng out l at e) h =
      proposer_put g w h i (running out.0) (λ j t p x. absurd (subst (Sent j t p) at x))
        (λ run q.
          subst (IsRun g w.histories i) (running_inv q)
            (start-IsRun g w.histories i l (omega (arith, majority)) now rng out e))
  Step-IsConsistent w w' (marks i now unsent run at) h =
      marks-IsConsistent g w h i now unsent run at
  Step-IsConsistent w w' (calls i j run p l at e) h = calls-IsConsistent g w i j run p h l at e
  Step-IsConsistent w w' (records c summary changed isr m e) h =
      records-IsConsistent g w c summary changed isr h m e
  Step-IsConsistent w w' (folds a run run' m at e) h =
      let (r, later) = fold_ignored g w word a run (h.answers a m) at (h.runs a.to run at) run' e in
      run_put g w h a.to run run' at later r
  Step-IsConsistent w w' (catches_up a run run' step now p rng out m at e b) h =
      catches_up-IsConsistent g w h majority word a run m at run' step now p rng out e b
  Step-IsConsistent w w' (advances a run counted run' now rng out m at e s fits b) h =
      advances-IsConsistent g w h majority word a run m at counted run' e now rng out s fits b
  Step-IsConsistent w w' (retries a run counted run' m at e s) h =
      retries-IsConsistent g w h majority word a run m at counted run' e s
  Step-IsConsistent w w' (decides a run counted run' value m at e s) h =
      decides-IsConsistent g w h majority word a run m at counted run' e value s

  empty-IsConsistent : IsConsistent g empty_world
  unfolding recorded
  empty-IsConsistent = record {
    sound = λ j t y k. absurd k;
    steps = λ j. tt;
    calls = λ c k. absurd k;
    answers = λ a k. absurd k;
    runs = λ i run e. absurd (cc e);
    decisions = λ v k. absurd k;
  }

  Reach-IsConsistent : (w : World) → Reach g w → IsConsistent g w
  Reach-IsConsistent w here = empty-IsConsistent
  Reach-IsConsistent w (onward v w' r s) = Step-IsConsistent v w s (Reach-IsConsistent v r)

-- Agreement. In every world that the recorders and proposers of a slot can reach, with messages
-- that are lost, repeated and reordered at will, all decided values are the same, on the fast
-- path of the first round as in any later round: as long as two quorums are more than the group,
-- a quorum is a u32 value, each proposer starts at most once, and no step goes past the greatest
-- u32.
pub Reach-agree :
    (g : Group) (w : World) (v v' : Bytes)
    → g.size < g.quorum + g.quorum
    → IsU32 g.quorum
    → Reach g w
    → Contains v w.decisions
    → Contains v' w.decisions
    → v ≡ v'
Reach-agree g w v v' majority word r c c' =
    let h = Reach-IsConsistent g majority word w r in
    Decided-agree g w.histories majority h.sound v v' (h.decisions v c) (h.decisions v' c')
