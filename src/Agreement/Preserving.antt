-- ===== src/Agreement/Preserving.antt =====
-- Every step keeps what holds of a reachable world.
use raxos.Prelude.{ℕ, ◌<◌, ◌≡◌, inl, inr, refl, sym, subst, ◌∙◌, some, ◌∷◌, arith}
use raxos.Types.{Proposal, proposal_ord}
use raxos.Proposer.{Run, ProposerState, running, proposal_for}
use raxos.Agreement.{Group, Call, World, put, put_proposer}
use raxos.Agreement.Invariant.{Sent, IsCall, IsRun, IsConsistent}
use raxos.Agreement.Counting.{Later, Sent-Later}
use raxos.Agreement.Answering.{put_cases, running_inv}

module _ (g : Group) (w : World) (h : IsConsistent g w) where
  -- A proposer changes, and has still sent what it had.
  pub proposer_put :
      (i : ℕ) (s : ProposerState)
      → ((j t : ℕ) (p : Proposal) → Sent j t p (w.proposers i) → Sent j t p s)
      → ((run : Run) → s ≡ running run → IsRun g w.histories i run)
      → IsConsistent g (put_proposer i s w)
  proposer_put i s sent runs =
      let kept = λ (k j t : ℕ) (p : Proposal) (x : Sent j t p (w.proposers k)).
        let y : Sent j t p (put i s w.proposers k) = elim (put_cases i k s w.proposers) [
          | inl (is, e) ↦
              subst (Sent j t p) (sym e)
                (sent j t p (subst (λ m. Sent j t p (w.proposers m)) (sym is) x))
          | inr e ↦ subst (Sent j t p) (sym e) x
        ] in
        y in
      record {
        sound = h.sound;
        steps = h.steps;
        calls = λ c m.
            let k = h.calls c m in
            record {
              inside = k.inside;
              justified = k.justified;
              is_step = k.is_step;
              sent = kept c.from c.to c.step c.proposal k.sent;
            };
        answers = λ a m.
            let k = h.answers a m in
            record {
              inside = k.inside;
              word = k.word;
              tells = k.tells;
              own = elim k.own [
                | inl n ↦ inl n
                | inr (p, x, q) ↦ inr (p, kept a.to a.from a.req_step p x, q)
              ];
            };
        runs = λ k run e. elim (put_cases i k s w.proposers) [
          | inl (is, q) ↦ subst (λ m. IsRun g w.histories m run) is (runs run (sym q ∙ e))
          | inr q ↦ h.runs k run (sym q ∙ e)
        ];
        decisions = h.decisions;
      }

  -- A run goes on.
  pub run_put :
      (i : ℕ) (run run' : Run)
      → w.proposers i ≡ running run
      → Later run run'
      → IsRun g w.histories i run'
      → IsConsistent g (put_proposer i (running run') w)
  run_put i run run' at later r =
      proposer_put i (running run')
        (λ j t p x. Sent-Later run run' j t p later (subst (Sent j t p) at x))
        (λ x e. subst (IsRun g w.histories i) (running_inv e) r)

-- A proposer calls a recorder.
pub calls-IsConsistent :
    (g : Group) (w : World) (i j : ℕ) (run : Run) (p : Proposal)
    → IsConsistent g w
    → j < g.size
    → w.proposers i ≡ running run
    → proposal_for run j ≡ some p
    → IsConsistent g
        (record w { calls = record { from = i; to = j; step = run.step; proposal = p } ∷ w.calls })
calls-IsConsistent g w i j run p h l at e =
    let r = h.runs i run at in
    let c : Call = record { from = i; to = j; step = run.step; proposal = p } in
    let called : IsCall g (record w { calls = c ∷ w.calls }) c = record {
      inside = l;
      justified = r.sends j p l e;
      is_step = (omega (arith, r.late), r.word);
      sent = subst (Sent j run.step p) (sym at) (inr (refl, e));
    } in
    record {
      sound = h.sound;
      steps = h.steps;
      calls = λ d n. elim n [
        | inl is ↦ subst (IsCall g (record w { calls = c ∷ w.calls })) (sym is) called
        | inr old ↦
            let x = h.calls d old in
            record {
              inside = x.inside;
              justified = x.justified;
              is_step = x.is_step;
              sent = x.sent;
            }
      ];
      answers = λ a n.
          let x = h.answers a n in
          record { inside = x.inside; word = x.word; tells = x.tells; own = x.own };
      runs = h.runs;
      decisions = h.decisions;
    }
