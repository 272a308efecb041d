-- ===== src/Agreement/Counting.antt =====
-- What folding a true answer into a run comes to.
use raxos.Prelude.{
  ℕ, suc, ◌≤◌, ◌<◌, ◌≡◌, ◌⊎◌, inl, inr, refl, sym, subst, ◌∙◌, false, some, some_inv, List, ◌∷◌,
  length, All, All-map, Contains, IsU32, arith,
}
use raxos.Types.{Proposal}
use raxos.Recorder.History.{recorded}
use raxos.Proposer.{Run, running, Folded, ignored, catch_up, quorum, proposal_for, count_reply}
use raxos.Proposer.Tracking.{Reply, Tracks, has_replied, Folds, fold-Folds}
use raxos.Agreement.{Group, Answer, World, fold_answer}
use raxos.Agreement.Quorums.{IsDistinct}
use raxos.Agreement.Histories.{Histories}
use raxos.Agreement.Justified.{Justified}
use raxos.Agreement.Invariant.{Sent, Tells, IsAnswer, IsCounted, IsRun}

-- The reply in an answer.
abbrev pub reply_of : Answer → Reply
reply_of a = record { from = a.from; first = a.first; agg = a.agg }

-- A later state of a run, which has sent all that the earlier one had.
abbrev pub Later : Run → Run → Type 0
Later run run' =
    (run.step < run'.step)
    ⊎ ((run'.step ≡ run.step) × ((j : ℕ) → proposal_for run' j ≡ proposal_for run j))

pub Sent-Later :
    (run run' : Run) (j s : ℕ) (p : Proposal)
    → Later run run'
    → Sent j s p (running run)
    → Sent j s p (running run')
Sent-Later run run' j s p (inl up) (inl old) = inl (omega arith)
Sent-Later run run' j s p (inl up) (inr (at, e)) = inl (omega (arith, at, up))
Sent-Later run run' j s p (inr (same, sends)) (inl old) = inl (omega (arith, same, old))
Sent-Later run run' j s p (inr (same, sends)) (inr (at, e)) = inr (at ∙ sym same, sends j ∙ e)

-- All replies of a run, with the latest; the run has counted them in the same step.
pub record HasCounted (g : Group) (H : Histories) (run run' : Run) : Type 0 where
  pub replies : List Reply
  pub tracks : Tracks g.size run' replies
  pub distinct : IsDistinct replies
  pub counted : All (IsCounted g H run') replies
  pub size : (length replies ≤ g.quorum)
  pub step : run'.step ≡ run.step
  pub priorities : run'.phase0_priorities ≡ run.phase0_priorities
  pub proposal : run'.proposal ≡ run.proposal
  pub same_sends : (j : ℕ) → proposal_for run' j ≡ proposal_for run j

module _ (g : Group) (w : World) (word : IsU32 g.quorum) (a : Answer) (run : Run)
    (answer : IsAnswer g w a) (at : w.proposers a.to ≡ running run)
    (r : IsRun g w.histories a.to run) where
  folds_as :
      (out : Folded × Run)
      → fold_answer g a run ≡ some out
      → Folds g.size g.quorum run r.replies a.req_step a.step (reply_of a) out
  folds_as out e =
      let (out', q, folds) =
        fold-Folds g.size g.quorum run r.replies a.req_step a.step (reply_of a) r.tracks
          answer.inside r.few word in
      subst (Folds g.size g.quorum run r.replies a.req_step a.step (reply_of a))
        (some_inv (sym q ∙ e)) folds

  -- The answer to a request of this very step.
  own_reply : a.req_step ≡ run.step → a.step ≡ run.step → IsCounted g w.histories run (reply_of a)
  own_reply req rep = record {
    inside = answer.inside;
    tells = subst (λ s. Tells (w.histories a.from) s a.first a.agg) rep answer.tells;
    own = elim answer.own [
      | inl other ↦ absurd (other (req ∙ sym rep))
      | inr (p, sent, k) ↦ elim (subst (Sent a.from a.req_step p) at sent) [
        | inl old ↦ absurd (omega (arith, old, req))
        | inr (_, e) ↦ (p, e, subst (λ s. Contains p (recorded s (w.histories a.from))) rep k)
      ]
    ];
  }

  has_counted :
      a.req_step ≡ run.step
      → a.step ≡ run.step
      → has_replied a.from r.replies ≡ false
      → Tracks g.size (count_reply run a.from a.first a.agg) (reply_of a ∷ r.replies)
      → (k : HasCounted g w.histories run (count_reply run a.from a.first a.agg)) × (length
            k.replies
          ≡ suc (length r.replies))
  unfolding count_reply proposal_for
  has_counted req rep new tracks =
      let run' = count_reply run a.from a.first a.agg in
      let moved = λ (c : Reply) (k : IsCounted g w.histories run c).
        let m : IsCounted g w.histories run' c = record {
          inside = k.inside;
          tells = k.tells;
          own = k.own;
        } in
        m in
      (
        record {
          replies = reply_of a ∷ r.replies;
          tracks = tracks;
          distinct = (new, r.distinct);
          counted = (
            moved (reply_of a) (own_reply req rep),
            All-map (IsCounted g w.histories run) (IsCounted g w.histories run') moved r.replies
                r.counted,
          );
          size = omega (arith, r.few);
          step = refl;
          priorities = refl;
          proposal = refl;
          same_sends = λ j. refl;
        },
        refl,
      )

  -- A run that has counted fewer than a quorum is as good as before.
  pub HasCounted-IsRun :
      (run' : Run)
      → (k : HasCounted g w.histories run run') → length k.replies < g.quorum
      → IsRun g w.histories a.to run'
  HasCounted-IsRun run' k few = record {
    inside = r.inside;
    replies = k.replies;
    tracks = k.tracks;
    few = few;
    distinct = k.distinct;
    counted = k.counted;
    sends = λ j p l e.
        subst (λ t. Justified g w.histories t p) (sym k.step)
          (r.sends j p l (sym (k.same_sends j) ∙ e));
    whole = elim r.whole [
      | inl z ↦ inl (omega (arith, z, k.step))
      | inr plain ↦ inr (k.priorities ∙ plain)
    ];
    late = omega (arith, r.late, k.step);
    word = omega (arith, r.word, k.step);
  }

  pub fold_ignored :
      (run' : Run)
      → fold_answer g a run ≡ some (ignored, run')
      → IsRun g w.histories a.to run' × Later run run'
  fold_ignored run' e = ignored_of run' (folds_as (ignored, run') e)
    where
      ignored_of :
          (run' : Run)
          → Folds g.size g.quorum run r.replies a.req_step a.step (reply_of a) (ignored, run')
          → IsRun g w.histories a.to run' × Later run run'
      ignored_of run' (Folds.skipped back other) = (r, inr (refl, λ j. refl))
      ignored_of run' (Folds.counts req rep new answer q t) =
          let (k, n) = has_counted req rep new t in
          (
            HasCounted-IsRun (count_reply run a.from a.first a.agg) k (ground (arith, q, r.few, n)),
            inr (k.step, k.same_sends),
          )

  pub fold_catch_up :
      (step : ℕ) (p : Proposal) (run' : Run)
      → fold_answer g a run ≡ some (catch_up step p, run')
      → (run.step < step) × (step ≡ a.step) × (p ≡ a.first) × (run' ≡ run)
  fold_catch_up step p run' e = ahead_of step p run' (folds_as (catch_up step p, run') e)
    where
      ahead_of :
          (step : ℕ) (p : Proposal) (run' : Run)
          → Folds g.size g.quorum run r.replies a.req_step a.step
              (reply_of a)
              (catch_up step p, run')
          → (run.step < step) × (step ≡ a.step) × (p ≡ a.first) × (run' ≡ run)
      ahead_of step p run' (Folds.ahead up) = (up, refl, refl, refl)
      ahead_of step p run' (Folds.counts req rep new answer q t) = ground (arith, q)

  pub fold_quorum :
      (run' : Run)
      → fold_answer g a run ≡ some (quorum, run')
      → (k : HasCounted g w.histories run run') × (g.quorum ≤ length k.replies)
  fold_quorum run' e = repliers run' (folds_as (quorum, run') e)
    where
      repliers :
          (run' : Run)
          → Folds g.size g.quorum run r.replies a.req_step a.step (reply_of a) (quorum, run')
          → (k : HasCounted g w.histories run run') × (g.quorum ≤ length k.replies)
      repliers run' (Folds.counts req rep new answer q t) =
          let (k, n) = has_counted req rep new t in (k, ground (arith, q, n))
