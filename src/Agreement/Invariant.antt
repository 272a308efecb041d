-- ===== src/Agreement/Invariant.antt =====
-- What holds of every reachable world, and that it survives the growth of the histories.
use raxos.Prelude.{
  ℕ, ◌-◌, ◌%◌, ◌≤◌, ◌<◌, ◌≡◌, ◌≢◌, ◌⊎◌, sym, subst, Option, some, List, [], Bytes, length, All,
  All-map, Contains, IsGreatest, IsU32, arith,
}
use raxos.Types.{Proposal, proposal_ord}
use raxos.Recorder.History.{Invocation, clock, recorded, oldest, IsStep}
use raxos.Proposer.{Run, ProposerState, idle, running, done, proposal_for}
use raxos.Proposer.Tracking.{Reply, Tracks}
use raxos.Agreement.{Group, Call, Answer, World}
use raxos.Agreement.Quorums.{IsDistinct}
use raxos.Agreement.Histories.{
  Histories, Grown, AllGrown, Contains-Grown, oldest-Grown, clock-Grown, recorded-Grown,
}
use raxos.Agreement.Justified.{Justified, Justified-Grown, Decided}
use raxos.Agreement.Locks.{IsSound}

-- The proposer has sent `p` to recorder `j` in step `s`, unless that step is over for it.
abbrev pub Sent : ℕ → ℕ → Proposal → ProposerState → Type 0
Sent j s p idle = ⊥
Sent j s p done = Unit {0}
Sent j s p (running run) = (s < run.step) ⊎ ((s ≡ run.step) × (proposal_for run j ≡ some p))

-- What recorder `j` has told about step `s`: its first proposal, and the greatest one of the step
-- before, which is over.
pub record Tells (h : List Invocation) (s : ℕ) (first : Proposal) (agg : Option Proposal)
    : Type 0 where
  pub reached : s ≤ clock h
  pub later : 0 < s
  pub is_first : oldest (recorded s h) ≡ some first
  pub is_agg : IsGreatest agg (recorded (s - 1) h)

pub Tells-Grown :
    (h h' : List Invocation) (s : ℕ) (first : Proposal) (agg : Option Proposal)
    → Grown h h'
    → Tells h s first agg
    → Tells h' s first agg
Tells-Grown h h' s first agg grown t = record {
  reached = omega (arith, t.reached, clock-Grown h h' grown);
  later = t.later;
  is_first = oldest-Grown s first h h' grown t.is_first;
  is_agg =
      subst (IsGreatest agg)
        (sym (recorded-Grown (s - 1) h h' grown (omega (arith, t.reached, t.later)))) t.is_agg;
}

-- A call is justified, and was sent.
pub record IsCall (g : Group) (w : World) (c : Call) : Type 0 where
  pub inside : c.to < g.size
  pub justified : Justified g w.histories c.step c.proposal
  pub is_step : IsStep (c.step, c.proposal)
  pub sent : Sent c.to c.step c.proposal (w.proposers c.from)

-- An answer tells the truth, and if it is of the step of the request, the request is recorded.
pub record IsAnswer (g : Group) (w : World) (a : Answer) : Type 0 where
  pub inside : a.from < g.size
  pub word : IsU32 a.step
  pub tells : Tells (w.histories a.from) a.step a.first a.agg
  pub own :
      (a.req_step ≢ a.step)
      ⊎ ((p : Proposal) × Sent a.from a.req_step p (w.proposers a.to)
          × Contains p (recorded a.step (w.histories a.from)))

-- A reply that a run has counted in its step.
pub record IsCounted (g : Group) (H : Histories) (run : Run) (c : Reply) : Type 0 where
  pub inside : c.from < g.size
  pub tells : Tells (H c.from) run.step c.first c.agg
  pub own :
      (p : Proposal) × (proposal_for run c.from ≡ some p)
      × Contains p (recorded run.step (H c.from))

-- A run has counted true replies of its step, fewer than a quorum, and sends what is justified.
pub record IsRun (g : Group) (H : Histories) (i : ℕ) (run : Run) : Type 0 where
  pub inside : i < g.size
  pub replies : List Reply
  pub tracks : Tracks g.size run replies
  pub few : length replies < g.quorum
  pub distinct : IsDistinct replies
  pub counted : All (IsCounted g H run) replies
  pub sends :
      (j : ℕ) (p : Proposal) → j < g.size → proposal_for run j ≡ some p → Justified g H run.step p
  pub whole : (run.step % 4 ≡ 0) ⊎ (run.phase0_priorities ≡ [])
  pub late : 4 ≤ run.step
  pub word : IsU32 run.step

pub record IsConsistent (g : Group) (w : World) : Type 0 where
  pub sound : IsSound g w.histories
  pub steps : (j : ℕ) → All IsStep (w.histories j)
  pub calls : (c : Call) → Contains c w.calls → IsCall g w c
  pub answers : (a : Answer) → Contains a w.answers → IsAnswer g w a
  pub runs : (i : ℕ) (run : Run) → w.proposers i ≡ running run → IsRun g w.histories i run
  pub decisions : (v : Bytes) → Contains v w.decisions → Decided g w.histories v

pub IsCounted-Grown :
    (g : Group) (H H' : Histories) (run : Run) (c : Reply)
    → AllGrown H H'
    → IsCounted g H run c
    → IsCounted g H' run c
IsCounted-Grown g H H' run c grown t =
    let (p, e, k) = t.own in
    record {
      inside = t.inside;
      tells = Tells-Grown (H c.from) (H' c.from) run.step c.first c.agg (grown c.from) t.tells;
      own = (p, e, Contains-Grown run.step p (H c.from) (H' c.from) (grown c.from) k);
    }

pub IsRun-Grown :
    (g : Group) (H H' : Histories) (i : ℕ) (run : Run)
    → AllGrown H H'
    → IsRun g H i run
    → IsRun g H' i run
IsRun-Grown g H H' i run grown r = record {
  inside = r.inside;
  replies = r.replies;
  tracks = r.tracks;
  few = r.few;
  distinct = r.distinct;
  counted =
      All-map (IsCounted g H run) (IsCounted g H' run) (λ c. IsCounted-Grown g H H' run c grown)
        r.replies r.counted;
  sends = λ j p l e. Justified-Grown g H H' run.step p grown (r.sends j p l e);
  whole = r.whole;
  late = r.late;
  word = r.word;
}
