-- ===== src/Agreement/Refining.antt =====
-- The handler of a reply is a step of the group: what a replica does to the run of a slot in
-- `on_record_reply`, up to its last call, is a step of the world in which the proposers of that
-- slot and the recorders play.
use raxos.Prelude.{
  ℕ, ◌+◌, ◌<◌, ◌≡◌, ◌⊎◌, inl, inr, refl, sym, ap, subst, ◌∙◌, some, >>=-eq-some, some_inv, ◌∷◌,
  Bytes, get_or, Contains, u32_mod, ◌==◌,
}
use raxos.Prelude.Map
use raxos.Prelude.Map.{get-insert_self}
use raxos.Prelude.Ordered.{nat_ord}
use raxos.Types.{Slot}
use raxos.Wire.{full}
use raxos.Rng.{Rng}
use raxos.Proposer.{
  Run, running, done, Folded, ignored, catch_up, quorum, StepOutcome, decided, advance, retry,
  begin_step, fold, step_complete,
}
use raxos.Replica.{Replica, SlotState, size, is_leader}
use raxos.Replica.Replying.{
  Next, rest, decide, drive, put_run, begin, after_quorum, after_fold, fold_first, fold_reply,
}
use raxos.Replica.Replying.Echoes.{fold_reply-running}
use raxos.Agreement.{
  Group, Answer, World, put_proposer, begin_at, fold_answer, Step, folds, catches_up, advances,
  retries, decides,
}
use raxos.Agreement.Answering.{put_self}

-- The group that a replica is in, with the values that its members start with.
abbrev pub group_of : (ℕ → Bytes) → Replica → Group
group_of values r = record {
  size = size r;
  quorum = r.quorum;
  ids = λ i. get_or r.config.replicas i 0;
  values = values;
}

-- What a handler leaves is a step of the world: the run of the slot is the proposer's, and a value
-- to decide is decided.
pub data Refines (g : Group) (w : World) (i : ℕ) (slot : Slot) : Next × Replica → Type 0 where
  goes_on :
      (next : Next) (r' : Replica) (w' : World) (state : SlotState) (run : Run)
      → (next ≡ rest) ⊎ (next ≡ drive)
      → Step g w w'
      → Map.get r'.slots slot ≡ some state
      → state.proposer ≡ running run
      → w'.proposers i ≡ running run
      → Refines g w i slot (next, r')
  has_decided :
      (value : Bytes) (r' : Replica) (w' : World)
      → Step g w w'
      → Contains value w'.decisions
      → Refines g w i slot (decide value, r')

module _ (values : ℕ → Bytes) (now : ℕ) (slot : Slot) (r : Replica) (state : SlotState) (w : World)
    (a : Answer) (run : Run) (m : Contains a w.answers) (me : a.to ≡ r.me_idx)
    (at : w.proposers a.to ≡ running run)
    (named : get_or r.config.replicas r.me_idx 0 ≡ r.config.me) where
  -- A run that is put back.
  put_back :
      (next : Next) (r' : Replica) (run' : Run)
      → (next ≡ rest) ⊎ (next ≡ drive)
      → Step (group_of values r) w (put_proposer a.to (running run') w)
      → Map.get r'.slots slot ≡ some (record state { proposer = running run' })
      → Refines (group_of values r) w a.to slot (next, r')
  put_back next r' run' is step get =
      goes_on next r' (put_proposer a.to (running run') w)
        (record state { proposer = running run' }) run' is step get refl
        (put_self a.to (running run') w.proposers)

  -- `begin` is the beginning of a step of the group.
  begun_as :
      (run' : Run) (out : Next × Replica)
      → begin now slot state run' r ≡ some out
      → (begun : Run × Rng) × (begin_at (group_of values r) a.to run' now r.rng ≡ some begun)
        × (out ≡ (drive, record (put_run slot state begun.0 r) { rng = begun.1 }))
  begun_as run' out e =
      let (begun, b, q) =
        >>=-eq-some (begin_step run' r.config.me r.me_idx (size r) (is_leader r) now r.rng) _ e in
      (
        begun,
        ap (λ i. begin_step run' (get_or r.config.replicas i 0) i (size r) (i == 0) now r.rng) me
            ∙ ap (λ id. begin_step run' id r.me_idx (size r) (is_leader r) now r.rng) named
            ∙ b,
        sym (some_inv q),
      )

  begun_back :
      (begun : Run × Rng) (out : Next × Replica)
      → out ≡ (drive, record (put_run slot state begun.0 r) { rng = begun.1 })
      → Step (group_of values r) w (put_proposer a.to (running begun.0) w)
      → Refines (group_of values r) w a.to slot out
  begun_back begun out is step = subst (Refines (group_of values r) w a.to slot) (sym is) (
      put_back drive (record (put_run slot state begun.0 r) { rng = begun.1 }) begun.0 (inr refl)
        step (get-insert_self r.slots slot (record state { proposer = running begun.0 })))

  kept_back :
      (run' : Run) (out : Next × Replica)
      → some (rest, put_run slot state run' r) ≡ some out
      → Step (group_of values r) w (put_proposer a.to (running run') w)
      → Refines (group_of values r) w a.to slot out
  kept_back run' out e step = subst (Refines (group_of values r) w a.to slot) (some_inv e) (
      put_back rest (put_run slot state run' r) run' (inl refl) step
        (get-insert_self r.slots slot (record state { proposer = running run' })))

  quorum-Refines :
      (counted : Run) (outcome : StepOutcome × Run) (out : Next × Replica)
      → fold_answer (group_of values r) a run ≡ some (quorum, counted)
      → step_complete counted ≡ some outcome
      → run.step + 1 < u32_mod
      → after_quorum now slot state outcome r ≡ some out
      → Refines (group_of values r) w a.to slot out
  quorum-Refines counted (decided value, run') out f s fits e =
      subst (Refines (group_of values r) w a.to slot) (some_inv e) (
        has_decided value (put_run slot state run' r)
          (record (put_proposer a.to done w) { decisions = value ∷ w.decisions })
          (decides a run counted run' value m at f s) (inl refl))
  quorum-Refines counted (advance, run') out f s fits e =
      let (begun, b, is) = begun_as run' out e in
      begun_back begun out is (advances a run counted run' now r.rng begun m at f s fits b)
  quorum-Refines counted (retry, run') out f s fits e =
      kept_back run' out e (retries a run counted run' m at f s)

  fold-Refines :
      (folded : Folded × Run) (out : Next × Replica)
      → fold_answer (group_of values r) a run ≡ some folded
      → run.step + 1 < u32_mod
      → after_fold now slot state folded r ≡ some out
      → Refines (group_of values r) w a.to slot out
  fold-Refines (ignored, run') out f fits e = kept_back run' out e (folds a run run' m at f)
  fold-Refines (catch_up step p, run') out f fits e =
      let (begun, b, is) = begun_as (record run' { step = step; proposal = p }) out e in
      begun_back begun out is (catches_up a run run' step now p r.rng begun m at f b)
  fold-Refines (quorum, counted) out f fits e =
      let (outcome, s, q) = >>=-eq-some (step_complete counted) _ e in
      quorum-Refines counted outcome out f s fits q

-- What `on_record_reply` does to a running slot, up to its last call, is a step of the group: for
-- an answer that is on its way to this replica, whose run in the slot is the proposer's run in the
-- world, there is a step of the world after which the run in the slot is again the proposer's, or
-- the value that goes to `decide_slot` is among those decided. The run must not be in the last
-- step that a u32 can count, and the replica's index must be that of its id.
pub fold_reply-Refines :
    (values : ℕ → Bytes) (now : ℕ) (slot : Slot) (r : Replica) (state : SlotState) (w : World)
    (a : Answer) (run : Run) (out : Next × Replica)
    → Contains a w.answers
    → a.to ≡ r.me_idx
    → w.proposers a.to ≡ running run
    → get_or r.config.replicas r.me_idx 0 ≡ r.config.me
    → Map.get r.slots slot ≡ some state
    → state.proposer ≡ running run
    → run.step + 1 < u32_mod
    → fold_reply now a.from slot a.req_step a.step (full a.first) a.agg r ≡ some out
    → Refines (group_of values r) w a.to slot out
unfolding fold_first
fold_reply-Refines values now slot r state w a run out m me at named get runs fits e =
    let reached =
      sym (
        fold_reply-running now a.from slot a.req_step a.step (full a.first) a.agg r state run get
          runs)
      ∙ e in
    let (folded, f, q) =
      >>=-eq-some (fold run a.from a.req_step a.step a.first a.agg r.quorum) _ reached in
    fold-Refines values now slot r state w a run m me at named folded out f fits q
