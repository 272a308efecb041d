-- ===== src/Replica/Replying/Totals.antt =====
-- No reply makes a proposer panic.
use raxos.Prelude.{
  ℕ, ◌<◌, ◌≡◌, inl, inr, refl, ◌∙◌, Bool-cases, Option, none, some, Returns, >>=-Returns, List, ◌∷◌,
  length, IsU32, ◌==◌, arith,
}
use raxos.Prelude.Map
use raxos.Prelude.Ordered.{nat_ord}
use raxos.Types.{Slot, Proposal}
use raxos.Wire.{ReplyFirst, echo, full}
use raxos.Proposer.{
  Run, running, StepOutcome, decided, advance, retry, Folded, ignored, catch_up, quorum,
  is_randomized, begin_step, proposal_for, fold, step_complete, count_reply,
}
use raxos.Proposer.Draws.{begin_step_drawn, begin_step_same}
use raxos.Proposer.Tracking.{Reply, Tracks, Folds, fold-Folds}
use raxos.Proposer.Outcomes.{step_complete-Completes}
use raxos.Replica.{Replica, SlotState, size, is_leader}
use raxos.Replica.Replying.{Next, first_of, begin, after_quorum, after_fold, fold_first, fold_reply}
use raxos.Replica.Replying.Echoes.{fold_reply-running}

begin-Returns :
    (now : ℕ) (slot : Slot) (state : SlotState) (run : Run) (r : Replica)
    → r.me_idx < size r
    → Returns (begin now slot state run r)
begin-Returns now slot state run r h = elim (Bool-cases (is_randomized run.step (is_leader r))) [
  | inl e ↦
      let (begun, b, _, _, _) =
        begin_step_drawn run r.config.me r.me_idx (size r) now (is_leader r) r.rng h e in
      >>=-Returns (begin_step run r.config.me r.me_idx (size r) (is_leader r) now r.rng) _ b
        (_, refl)
  | inr e ↦
      let (begun, b, _, _, _) =
        begin_step_same run r.config.me r.me_idx (size r) now (is_leader r) r.rng e in
      >>=-Returns (begin_step run r.config.me r.me_idx (size r) (is_leader r) now r.rng) _ b
        (_, refl)
]

after_quorum-Returns :
    (now : ℕ) (slot : Slot) (state : SlotState) (outcome : StepOutcome × Run) (r : Replica)
    → r.me_idx < size r
    → Returns (after_quorum now slot state outcome r)
after_quorum-Returns now slot state (decided value, run) r h = (_, refl)
after_quorum-Returns now slot state (advance, run) r h = begin-Returns now slot state run r h
after_quorum-Returns now slot state (retry, run) r h = (_, refl)

after_fold-Returns :
    (now : ℕ) (slot : Slot) (state : SlotState) (r : Replica) (n q : ℕ) (run : Run)
    (cs : List Reply) (req rep : ℕ) (c : Reply) (folded : Folded × Run)
    → Folds n q run cs req rep c folded
    → r.me_idx < size r
    → Returns (after_fold now slot state folded r)
after_fold-Returns now slot state r n q run cs req rep c folded (Folds.ahead up) h =
    begin-Returns now slot state _ r h
after_fold-Returns now slot state r n q run cs req rep c folded (Folds.skipped le other) h =
    (_, refl)
after_fold-Returns now slot state r n q run cs req rep c folded
      (Folds.counts req_is rep_is unseen ignored e t) h =
    (_, refl)
after_fold-Returns now slot state r n q run cs req rep c folded
      (Folds.counts req_is rep_is unseen (catch_up step p) e t) h =
    begin-Returns now slot state _ r h
after_fold-Returns now slot state r n q run cs req rep c folded
      (Folds.counts req_is rep_is unseen quorum e t) h =
    let counted = count_reply run c.from c.first c.agg in
    let (outcome, o, _) = step_complete-Completes n counted (c ∷ cs) t (omega arith) in
    >>=-Returns (step_complete counted) (λ x. after_quorum now slot state x r) o
      (after_quorum-Returns now slot state outcome r h)

first_of-Returns :
    (first : ReplyFirst) (req from_idx : ℕ) (run : Run) (request : Proposal)
    → proposal_for run from_idx ≡ some request
    → Returns (first_of first req from_idx run)
first_of-Returns (full p) req from_idx run request e = (_, refl)
first_of-Returns echo req from_idx run request e = elim (Bool-cases (req == run.step)) [
  | inl d ↦ (some request, rw (d, e) refl)
  | inr d ↦ (none, rw d refl)
]

fold_first-Returns :
    (now : ℕ) (slot : Slot) (req rep : ℕ) (agg known : Option Proposal) (r : Replica)
    (state : SlotState) (run : Run) (cs : List Reply) (from_idx : ℕ)
    → Tracks (size r) run cs
    → length cs < r.quorum
    → IsU32 r.quorum
    → from_idx < size r
    → r.me_idx < size r
    → Returns (fold_first now from_idx slot req rep known agg state run r)
unfolding fold_first
fold_first-Returns now slot req rep agg none r state run cs from_idx t l u f h = (_, refl)
fold_first-Returns now slot req rep agg (some first) r state run cs from_idx t l u f h =
    let c : Reply = record { from = from_idx; first = first; agg = agg } in
    let (folded, e, folds) = fold-Folds (size r) r.quorum run cs req rep c t f l u in
    >>=-Returns (fold run from_idx req rep first agg r.quorum) (λ x. after_fold now slot state x r)
      e (after_fold-Returns now slot state r (size r) r.quorum run cs req rep c folded folds h)

-- A reply for a running proposer never makes it panic: whatever its steps and its contents, from
-- whichever member, as long as the fields of the run are true to the replies counted so far,
-- these are fewer than a quorum, and the run has a proposal for the member that replies.
pub fold_reply-Returns :
    (now from_idx : ℕ) (slot : Slot) (req rep : ℕ) (first : ReplyFirst) (agg : Option Proposal)
    (r : Replica) (state : SlotState) (run : Run) (cs : List Reply) (request : Proposal)
    → Map.get r.slots slot ≡ some state
    → state.proposer ≡ running run
    → Tracks (size r) run cs
    → length cs < r.quorum
    → IsU32 r.quorum
    → from_idx < size r
    → r.me_idx < size r
    → proposal_for run from_idx ≡ some request
    → (out : Next × Replica) × (fold_reply now from_idx slot req rep first agg r ≡ some out)
fold_reply-Returns now from_idx slot req rep first agg r state run cs request at runs t l u f h e =
    let (known, k) = first_of-Returns first req from_idx run request e in
    let (out, o) =
      >>=-Returns (first_of first req from_idx run)
        (λ x. fold_first now from_idx slot req rep x agg state run r) k
        (fold_first-Returns now slot req rep agg known r state run cs from_idx t l u f h) in
    (out, fold_reply-running now from_idx slot req rep first agg r state run at runs ∙ o)
