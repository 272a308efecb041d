-- ===== src/Agreement/Marking.antt =====
-- Marking a step as sent, or as to be sent again, keeps what holds of a reachable world.
use raxos.Prelude.{All-map, Bool, ℕ, ◌≡◌, inr, refl}
use raxos.Proposer.{Run, running, proposal_for}
use raxos.Agreement.{Group, World, put_proposer}
use raxos.Agreement.Invariant.{IsCounted, IsConsistent}
use raxos.Agreement.Preserving.{run_put}

-- The mark of a run says nothing of what it has counted or sent.
pub marks-IsConsistent :
    (g : Group) (w : World) (h : IsConsistent g w) (i now : ℕ) (unsent : Bool) (run : Run)
    → w.proposers i ≡ running run
    → IsConsistent g
        (put_proposer i (running (record run { needs_send = unsent; sent_at = now })) w)
unfolding proposal_for
marks-IsConsistent g w h i now unsent run at =
    let r = h.runs i run at in
    let marked : Run = record run { needs_send = unsent; sent_at = now } in
    run_put g w h i run marked at (inr (refl, λ j. refl)) (record {
      inside = r.inside;
      replies = r.replies;
      tracks = record {
        size = r.tracks.size;
        marks = r.tracks.marks;
        count = r.tracks.count;
        high = r.tracks.high;
        best_first = r.tracks.best_first;
        best_agg = r.tracks.best_agg;
      };
      few = r.few;
      distinct = r.distinct;
      counted =
          All-map (IsCounted g w.histories run) (IsCounted g w.histories marked)
            (λ c k. record { inside = k.inside; tells = k.tells; own = k.own }) r.replies r.counted;
      sends = r.sends;
      whole = r.whole;
      late = r.late;
      word = r.word;
    })
