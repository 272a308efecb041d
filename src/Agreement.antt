-- ===== src/Agreement.antt =====
-- src/recorder.rs and src/proposer.rs: the recorders and proposers of one slot, whose messages may
-- be lost, repeated and reordered. What each does is the code of those files, composed as
-- src/replica.rs composes it: `activate` starts a run, `drive` calls the recorders, `on_record`
-- records and replies, and `on_record_reply` folds a reply into the run and goes on from there.
pub mod Quorums
pub mod Histories
pub mod Justified
pub mod Locks
pub mod Bases
pub mod Agreeing
pub mod Invariant
pub mod Running
pub mod Counted
pub mod Completing
pub mod Counting
pub mod Answering
pub mod Receiving
pub mod Preserving
pub mod Marking
pub mod Safety
pub mod Refining
pub mod Recording
mod Tests
mod HandlerTests
use raxos.Prelude.{
  ℕ, suc, ◌+◌, ◌<◌, ◌≡◌, Bool, true, false, Option, none, some, List, [], ◌∷◌, Bytes, ◌==◌,
  if◌then◌else◌, Contains, u32_mod,
}
use raxos.Types.{ReplicaId, Proposal}
use raxos.Rng.{Rng}
use raxos.Recorder.{IsrSlot, IsrSummary, record_step}
use raxos.Recorder.History.{Invocation, replay}
use raxos.Proposer.{
  Run, ProposerState, idle, running, done, Folded, ignored, catch_up, quorum, StepOutcome, decided,
  advance, retry, start, proposal_for, begin_step, fold, step_complete,
}

-- The group: its size and quorum, and each proposer's id and the value it starts with.
pub record Group : Type 0 where
  pub size : ℕ
  pub quorum : ℕ
  pub ids : ℕ → ReplicaId
  pub values : ℕ → Bytes

-- A call of recorder `to` by proposer `from`.
pub record Call : Type 0 where
  pub from : ℕ
  pub to : ℕ
  pub step : ℕ
  pub proposal : Proposal

-- The answer of recorder `from` to proposer `to`.
pub record Answer : Type 0 where
  pub from : ℕ
  pub to : ℕ
  pub req_step : ℕ
  pub step : ℕ
  pub first : Proposal
  pub agg : Option Proposal

-- A recorder is the history of its invocations: its register is the replay of that. Messages are
-- never taken out, so that each may arrive any number of times, or never.
pub record World : Type 0 where
  pub histories : ℕ → List Invocation
  pub proposers : ℕ → ProposerState
  pub calls : List Call
  pub answers : List Answer
  pub decisions : List Bytes

abbrev pub put {ℓ} : {A : Type ℓ} → ℕ → A → (ℕ → A) → ℕ → A
put i a f j = if i == j then a else f j

abbrev pub empty_world : World
empty_world = record {
  histories = λ j. [];
  proposers = λ i. idle;
  calls = [];
  answers = [];
  decisions = [];
}

abbrev pub put_proposer : ℕ → ProposerState → World → World
put_proposer i state w = record w { proposers = put i state w.proposers }

abbrev pub answer_of : Call → IsrSummary → Answer
answer_of c summary = record {
  from = c.to;
  to = c.from;
  req_step = c.step;
  step = summary.step;
  first = summary.first;
  agg = summary.prior_agg;
}

-- `begin_step` of proposer `i`.
abbrev pub begin_at : Group → ℕ → Run → ℕ → Rng → Option (Run × Rng)
begin_at g i run now rng = begin_step run (g.ids i) i g.size (i == 0) now rng

-- Proposer `i` folds an answer into its run.
abbrev pub fold_answer : Group → Answer → Run → Option (Folded × Run)
fold_answer g a run = fold run a.from a.req_step a.step a.first a.agg g.quorum

pub data Step (g : Group) (w : World) : World → Type 0 where
  starts :
      (i now : ℕ) (rng : Rng) (out : Run × Rng)
      → i < g.size
      → w.proposers i ≡ idle
      → start (g.values i) (g.ids i) i g.size (i == 0) now rng ≡ some out
      → Step g w (put_proposer i (running out.0) w)
  -- `drive` marks a step as sent, and `retransmit_due` as to be sent again.
  marks :
      (i now : ℕ) (unsent : Bool) (run : Run)
      → w.proposers i ≡ running run
      → Step g w (put_proposer i (running (record run { needs_send = unsent; sent_at = now })) w)
  calls :
      (i j : ℕ) (run : Run) (p : Proposal)
      → j < g.size
      → w.proposers i ≡ running run
      → proposal_for run j ≡ some p
      → Step g w (record w {
        calls = record { from = i; to = j; step = run.step; proposal = p } ∷ w.calls;
      })
  records :
      (c : Call) (summary : IsrSummary) (changed : Bool) (isr : IsrSlot)
      → Contains c w.calls
      → record_step (replay (w.histories c.to)) c.step c.proposal ≡ some (summary, changed, isr)
      → Step g w (record w {
        histories = put c.to ((c.step, c.proposal) ∷ w.histories c.to) w.histories;
        answers = answer_of c summary ∷ w.answers;
      })
  folds :
      (a : Answer) (run run' : Run)
      → Contains a w.answers
      → w.proposers a.to ≡ running run
      → fold_answer g a run ≡ some (ignored, run')
      → Step g w (put_proposer a.to (running run') w)
  catches_up :
      (a : Answer) (run run' : Run) (step now : ℕ) (p : Proposal) (rng : Rng) (out : Run × Rng)
      → Contains a w.answers
      → w.proposers a.to ≡ running run
      → fold_answer g a run ≡ some (catch_up step p, run')
      → begin_at g a.to (record run' { step = step; proposal = p }) now rng ≡ some out
      → Step g w (put_proposer a.to (running out.0) w)
  -- A step is at most the greatest u32.
  advances :
      (a : Answer) (run counted run' : Run) (now : ℕ) (rng : Rng) (out : Run × Rng)
      → Contains a w.answers
      → w.proposers a.to ≡ running run
      → fold_answer g a run ≡ some (quorum, counted)
      → step_complete counted ≡ some (advance, run')
      → run.step + 1 < u32_mod
      → begin_at g a.to run' now rng ≡ some out
      → Step g w (put_proposer a.to (running out.0) w)
  retries :
      (a : Answer) (run counted run' : Run)
      → Contains a w.answers
      → w.proposers a.to ≡ running run
      → fold_answer g a run ≡ some (quorum, counted)
      → step_complete counted ≡ some (retry, run')
      → Step g w (put_proposer a.to (running run') w)
  decides :
      (a : Answer) (run counted run' : Run) (value : Bytes)
      → Contains a w.answers
      → w.proposers a.to ≡ running run
      → fold_answer g a run ≡ some (quorum, counted)
      → step_complete counted ≡ some (decided value, run')
      → Step g w (record (put_proposer a.to done w) { decisions = value ∷ w.decisions })

pub data Reach (g : Group) : World → Type 0 where
  here : Reach g empty_world
  onward : (w w' : World) → Reach g w → Step g w w' → Reach g w'
