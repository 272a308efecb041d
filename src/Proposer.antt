-- ===== src/Proposer.antt =====
-- src/proposer.rs: the proposer role for one slot. `none` of a function that returns an `Option`
-- is a panic: an index out of range or a failed `expect`.
pub mod Draws
pub mod Tracking
pub mod Outcomes
pub mod Advancing
pub mod Beginning
mod Tests
use raxos.Prelude.{
  ℕ, zero, suc, ◌-◌, ◌%◌, Bool, true, false, not, ◌&&◌, ◌||◌, Option, none, some, ◌>>=◌, List, [],
  ◌∷◌, Bytes, add_u32, u32_mod, ◌==◌, ltb, if◌then◌else◌, get_elem?, set, replicate,
  is_none_or_less,
}
use raxos.Types.{ReplicaId, Priority, Proposal, priority_h, proposal_ord, proposal_eq}
use raxos.Rng.{Rng, range_inclusive}

pub record Run : Type 0 where
  pub step : ℕ
  pub proposal : Proposal
  pub phase0_priorities : List Priority
  pub replied : List Bool
  pub reply_count : ℕ
  pub best_first : Option Proposal
  pub best_agg : Option Proposal
  pub all_first_high : Bool
  pub sent_at : ℕ
  pub needs_send : Bool

pub data ProposerState : Type 0 where
  idle : ProposerState
  running : Run → ProposerState
  done : ProposerState

pub data Folded : Type 0 where
  ignored : Folded
  catch_up : ℕ → Proposal → Folded
  quorum : Folded

pub data StepOutcome : Type 0 where
  decided : Bytes → StepOutcome
  advance retry : StepOutcome

-- The `map(…).collect()` of `draw_priorities`: one draw for each recorder, cast to u32.
unfoldable pub draws : ℕ → Rng → List Priority × Rng
draws zero rng = ([], rng)
draws (suc n) rng =
    let (x, rng1) = range_inclusive 1 (priority_h - 1) rng in
    let (rest, rng2) = draws n rng1 in ((x % u32_mod) ∷ rest, rng2)

unfoldable pub draw_priorities : Run → ReplicaId → ℕ → ℕ → Rng → Option (Run × Rng)
draw_priorities run me me_idx n rng =
    let (priorities, rng') = draws n rng in
    (do
      mine ← get_elem? priorities me_idx
      some (
        record run {
          phase0_priorities = priorities;
          proposal = record { priority = mine; proposer = me; value = run.proposal.value };
        },
        rng',
      ))

-- The literal at the head of `Run::start`.
unfoldable pub fresh_run : Bytes → ReplicaId → ℕ → ℕ → Run
fresh_run value me n now = record {
  step = 4;
  proposal = record { priority = priority_h; proposer = me; value = value };
  phase0_priorities = [];
  replied = replicate n false;
  reply_count = 0;
  best_first = none;
  best_agg = none;
  all_first_high = true;
  sent_at = now;
  needs_send = true;
}

-- `Run::start`
unfoldable pub start : Bytes → ReplicaId → ℕ → ℕ → Bool → ℕ → Rng → Option (Run × Rng)
start value me me_idx n fast_path_leader now rng =
    if not fast_path_leader
    then draw_priorities (fresh_run value me n now) me me_idx n rng
    else some (fresh_run value me n now, rng)

unfoldable pub proposal_for : Run → ℕ → Option Proposal
proposal_for run idx = elim run.phase0_priorities [
  | [] ↦ some run.proposal
  | p ∷ ps ↦ do
    priority ← get_elem? (p ∷ ps) idx
    some (record {
      priority = priority;
      proposer = run.proposal.proposer;
      value = run.proposal.value;
    })
]

-- `self.replied.fill(false)`
abbrev pub fill_false : List Bool → List Bool
fill_false [] = []
fill_false (x ∷ xs) = false ∷ fill_false xs

unfoldable pub reset_tracking : Run → Run
reset_tracking run = record run {
  replied = fill_false run.replied;
  reply_count = 0;
  best_first = none;
  best_agg = none;
  all_first_high = true;
}

-- The test of `begin_step`: a phase 0 that is not the leader's first round.
abbrev pub is_randomized : ℕ → Bool → Bool
is_randomized step leader_first_round = step % 4 == 0 && not (step == 4 && leader_first_round)

unfoldable pub begin_step : Run → ReplicaId → ℕ → ℕ → Bool → ℕ → Rng → Option (Run × Rng)
begin_step run me me_idx n leader_first_round now rng =
    let cleared = record (reset_tracking run) { phase0_priorities = [] } in
    (do
      (drawn, rng') ←
          if is_randomized cleared.step leader_first_round
          then draw_priorities cleared me me_idx n rng
          else some (cleared, rng)
      some (record drawn { sent_at = now; needs_send = true }, rng'))

-- The bookkeeping of `fold` for a reply that counts.
unfoldable pub count_reply : Run → ℕ → Proposal → Option Proposal → Run
count_reply run from_idx first prior_agg = record run {
  replied = set run.replied from_idx true;
  reply_count = add_u32 run.reply_count 1;
  all_first_high = run.all_first_high && (first.priority == priority_h);
  best_first = if is_none_or_less run.best_first first then some first else run.best_first;
  best_agg = elim prior_agg [
    | none ↦ run.best_agg
    | some agg ↦ if is_none_or_less run.best_agg agg then some agg else run.best_agg
  ];
}

-- `Run::fold`; the index `replied[from_idx]` is read only where the steps agree.
unfoldable pub fold : Run → ℕ → ℕ → ℕ → Proposal → Option Proposal → ℕ → Option (Folded × Run)
fold run from_idx req_step reply_step first prior_agg q =
    if ltb run.step reply_step
    then some (catch_up reply_step first, run)
    else (if not (req_step == run.step) || not (reply_step == run.step)
        then some (ignored, run)
        else (do
          seen ← get_elem? run.replied from_idx
          if seen
              then some (ignored, run)
              else (let counted = count_reply run from_idx first prior_agg in
                  some (if counted.reply_count == q then quorum else ignored, counted))))

-- `self.step += 1; StepOutcome::Advance`
abbrev pub step_on : Run → StepOutcome × Run
step_on run = (advance, record run { step = add_u32 run.step 1 })

-- Phases 0, 2 and 3 of `step_complete`; phase 1 is `step_on`.
unfoldable pub phase0 : Run → Option (StepOutcome × Run)
phase0 run = do
  best_first ← run.best_first
  if run.all_first_high
      then some (decided best_first.value, record run { best_first = none })
      else some (step_on (record run { best_first = none; proposal = best_first }))

unfoldable pub phase2 : Run → StepOutcome × Run
phase2 run = elim run.best_agg [
  | none ↦ step_on run
  | some best_agg ↦
      if proposal_eq best_agg run.proposal then (decided run.proposal.value, run) else step_on run
]

-- The failed `debug_assert!` of the `None` arm is no panic in a release build.
unfoldable pub phase3 : Run → StepOutcome × Run
unfolding reset_tracking
phase3 run = elim run.best_agg [
  | none ↦ (retry, reset_tracking run)
  | some best_agg ↦ step_on (record run { best_agg = none; proposal = best_agg })
]

-- `Run::step_complete`
unfoldable pub step_complete : Run → Option (StepOutcome × Run)
step_complete run =
    let phase = run.step % 4 in
    if phase == 0
    then phase0 run
    else (if phase == 1
        then some (step_on run)
        else (if phase == 2 then some (phase2 run) else some (phase3 run)))
