-- ===== src/Replica/Replying/Echoes.antt =====
-- An elided echo is counted as the proposal that it stands for.
use raxos.Prelude.{
  ℕ, ◌≡◌, inl, inr, refl, sym, ap, ◌∙◌, true, Bool-cases, Option, none, some, ◌>>=◌, ◌==◌, arith,
}
use raxos.Prelude.Map
use raxos.Prelude.Ordered.{nat_ord}
use raxos.Types.{Slot, Proposal, proposal_eq, proposal_eq_iff}
use raxos.Wire.{ReplyFirst, full}
use raxos.Recorder.{reply_first}
use raxos.Proposer.{Run, running, proposal_for}
use raxos.Replica.{Replica, SlotState}
use raxos.Replica.Replying.{rest, first_of, fold_first, on_proposer, fold_reply}

first_of-reply_first :
    (run : Run) (from_idx : ℕ) (f request : Proposal)
    → proposal_for run from_idx ≡ some request
    → first_of (reply_first f request) run.step from_idx run ≡ some (some f)
unfolding reply_first
first_of-reply_first run from_idx f request e = elim (Bool-cases (proposal_eq f request)) [
  | inr d ↦ rw d refl
  | inl d ↦
      let same_step : (run.step == run.step) ≡ true = ground arith in
      rw (d, same_step, e) (ap (λ p. some (some p)) (sym ((proposal_eq_iff f request).0 d)))
]

-- A reply for a slot whose proposer is running.
pub fold_reply-running :
    (now from_idx : ℕ) (slot : Slot) (req_step reply_step : ℕ) (first : ReplyFirst)
    (agg : Option Proposal) (r : Replica) (state : SlotState) (run : Run)
    → Map.get r.slots slot ≡ some state
    → state.proposer ≡ running run
    → fold_reply now from_idx slot req_step reply_step first agg r ≡ (
        first_of first req_step from_idx run >>= λ known.
        fold_first now from_idx slot req_step reply_step known agg state run r)
unfolding fold_reply
fold_reply-running now from_idx slot req_step reply_step first agg r state run at runs =
    ap
      (λ (o : Option SlotState). elim o [
        | none ↦ some (rest, r)
        | some x ↦ on_proposer now from_idx slot req_step reply_step first agg x x.proposer r
      ])
      at
    ∙ ap (λ p. on_proposer now from_idx slot req_step reply_step first agg state p r) runs

-- A recorder that elides the echo of the request it answers is understood: where a proposer is
-- running and still in the step of the request, the reply that `reply_first` makes has the same
-- effect as one that spells the proposal out, whatever it is.
pub fold_reply-reply_first :
    (now from_idx : ℕ) (slot : Slot) (reply_step : ℕ) (f request : Proposal) (agg : Option Proposal)
    (r : Replica) (state : SlotState) (run : Run)
    → Map.get r.slots slot ≡ some state
    → state.proposer ≡ running run
    → proposal_for run from_idx ≡ some request
    → fold_reply now from_idx slot run.step reply_step (reply_first f request) agg r
      ≡ fold_reply now from_idx slot run.step reply_step (full f) agg r
fold_reply-reply_first now from_idx slot reply_step f request agg r state run at runs e =
    fold_reply-running now from_idx slot run.step reply_step (reply_first f request) agg r state run
      at runs
    ∙ ap
        (λ m. m >>= λ known. fold_first now from_idx slot run.step reply_step known agg state run r)
        (first_of-reply_first run from_idx f request e)
    ∙ sym
        (fold_reply-running now from_idx slot run.step reply_step (full f) agg r state run at runs)
