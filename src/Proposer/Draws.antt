-- ===== src/Proposer/Draws.antt =====
-- What a step sends: the priorities that `start` and `begin_step` choose.
use raxos.Prelude.{
  ℕ, zero, suc, ◌-◌, ◌<◌, ◌≡◌, refl, sym, ap, ◌∙◌, some_inv, >>=-eq-some, Bool, true, false, Option,
  none, some, List, [], ◌∷◌, Bytes, All, length, range, All-range, get_elem?, arith,
}
use raxos.Types.{ReplicaId, Priority, Proposal, priority_h}
use raxos.Rng.{Rng, range_inclusive}
use raxos.Rng.Range.{range_inclusive_bounds}
use raxos.Proposer.{
  fill_false, Run, draws, draw_priorities, fresh_run, start, proposal_for, reset_tracking,
  is_randomized, begin_step,
}

-- A drawn priority: nonzero and below the reserved one.
abbrev pub IsDrawn : Priority → Type 0
IsDrawn p = (0 < p) × (p < priority_h)

-- The generator after `k` draws of a priority, and the priority that it draws next.
unfoldable pub after_draws : ℕ → Rng → Rng
after_draws zero rng = rng
after_draws (suc k) rng = after_draws k (range_inclusive 1 (priority_h - 1) rng).1

abbrev pub nth_draw : ℕ → Rng → Priority
nth_draw k rng = (range_inclusive 1 (priority_h - 1) (after_draws k rng)).0

-- The priorities are the first `n` draws in turn, and the generator is left after them.
draws-nth :
    (n : ℕ) (rng : Rng) (idx : ℕ)
    → idx < n
    → get_elem? (draws n rng).0 idx ≡ some (nth_draw idx rng)
unfolding draws after_draws
draws-nth zero rng idx l = absurd (omega arith)
draws-nth (suc n) rng zero l =
    let (low, high) =
      range_inclusive_bounds 1 (priority_h - 1) rng (omega arith) (omega arith) (omega arith) in
    ap some (omega (arith, high))
draws-nth (suc n) rng (suc idx) l =
    draws-nth n (range_inclusive 1 (priority_h - 1) rng).1 idx (omega arith)

draws-after : (n : ℕ) (rng : Rng) → (draws n rng).1 ≡ after_draws n rng
unfolding draws after_draws
draws-after zero rng = refl
draws-after (suc n) rng = draws-after n (range_inclusive 1 (priority_h - 1) rng).1

draws-length : (n : ℕ) (rng : Rng) → length (draws n rng).0 ≡ n
unfolding draws
draws-length zero rng = refl
draws-length (suc n) rng = omega (arith, draws-length n (range_inclusive 1 (priority_h - 1) rng).1)

draws-IsDrawn : (n : ℕ) (rng : Rng) → All IsDrawn (draws n rng).0
unfolding draws
draws-IsDrawn zero rng = tt
draws-IsDrawn (suc n) rng =
    let b =
      range_inclusive_bounds 1 (priority_h - 1) rng (omega arith) (omega arith) (omega arith) in
    (omega arith, draws-IsDrawn n (range_inclusive 1 (priority_h - 1) rng).1)

get_elem?-All :
    {A : Type 0} (P : A → Type 0) (xs : List A) (i : ℕ)
    → All P xs
    → i < length xs
    → (x : A) × (get_elem? xs i ≡ some x) × P x
get_elem?-All P [] i a h = absurd (omega arith)
get_elem?-All P (x ∷ xs) zero a h = (x, refl, a.0)
get_elem?-All P (x ∷ xs) (suc i) a h = get_elem?-All P xs i a.1 (omega arith)

-- A proposal of `me` for `value` with a drawn priority.
abbrev pub IsDrawnBy : ReplicaId → Bytes → Option Proposal → Type 0
IsDrawnBy me value none = ⊥
IsDrawnBy me value (some p) = IsDrawn p.priority × (p.proposer ≡ me) × (p.value ≡ value)

-- Every recorder up to `n` is sent such a proposal.
abbrev pub SendsDrawn : Run → ReplicaId → Bytes → ℕ → Type 0
SendsDrawn run me value n = All (λ idx. IsDrawnBy me value (proposal_for run idx)) (range n)

-- The recorder `idx` is sent the `idx`th priority that the generator draws, and no more is drawn.
abbrev pub AsDrawn : Run × Rng → ReplicaId → Bytes → ℕ → Rng → Type 0
AsDrawn r me value n rng =
    All
      (λ idx.
        proposal_for r.0 idx
        ≡ some (record { priority = nth_draw idx rng; proposer = me; value = value }))
      (range n)
    × (r.1 ≡ after_draws n rng)

-- Every recorder up to `n` is sent `p` itself.
abbrev pub SendsSame : Run → Proposal → ℕ → Type 0
SendsSame run p n = All (λ idx. proposal_for run idx ≡ some p) (range n)

proposal_for_picks :
    (run : Run) (idx : ℕ) (x : Priority)
    → get_elem? run.phase0_priorities idx ≡ some x
    → proposal_for run idx
      ≡ some (record { priority = x; proposer = run.proposal.proposer; value = run.proposal.value })
unfolding proposal_for
proposal_for_picks run idx x e = ground (arith, e)

proposal_for_drawn :
    (run : Run) (n : ℕ)
    → length run.phase0_priorities ≡ n
    → All IsDrawn run.phase0_priorities
    → SendsDrawn run run.proposal.proposer run.proposal.value n
proposal_for_drawn run n l a = All-range _ n λ idx h.
    let (x, e, d) = get_elem?-All IsDrawn run.phase0_priorities idx a (omega arith) in
    rw (proposal_for_picks run idx x e) (d, refl, refl)

SendsSame-template : (run : Run) (n : ℕ) → run.phase0_priorities ≡ [] → SendsSame run run.proposal n
unfolding proposal_for
SendsSame-template run n e = All-range _ n λ idx h. rw e

-- A draw gives every recorder its own priority, and the template the one of `me_idx`.
draw_priorities_lem :
    (run : Run) (me : ReplicaId) (me_idx n : ℕ) (rng : Rng)
    → me_idx < n
    → (r : Run × Rng) × (draw_priorities run me me_idx n rng ≡ some r)
      × SendsDrawn r.0 me run.proposal.value n
      × (r.0.step ≡ run.step)
      × AsDrawn r me run.proposal.value n rng
unfolding draw_priorities
draw_priorities_lem run me me_idx n rng h =
    let (ps, rng') = draws n rng in
    let l : length ps ≡ n = draws-length n rng in
    let (mine, e, d) = get_elem?-All IsDrawn ps me_idx (draws-IsDrawn n rng) (omega arith) in
    let run' : Run = record run {
      phase0_priorities = ps;
      proposal = record { priority = mine; proposer = me; value = run.proposal.value };
    } in
    (
      (run', rng'),
      rw e,
      proposal_for_drawn run' n l (draws-IsDrawn n rng),
      refl,
      (
        All-range _ n
            λ idx i. proposal_for_picks run' idx (nth_draw idx rng) (draws-nth n rng idx i),
        draws-after n rng,
      ),
    )

-- The leader starts a slot by sending its value with the reserved priority to every recorder, and
-- draws nothing; anyone else starts it by sending the value, under its own name, to each recorder
-- with its own priority: the first that the generator draws to the first recorder, the next to the
-- next, all nonzero and below the reserved one, and no more is drawn. Both start at step 4, and
-- neither panics.
pub start_sends :
    (value : Bytes) (me : ReplicaId) (me_idx n now : ℕ) (rng : Rng)
    → me_idx < n
    → ((r : Run × Rng) × (start value me me_idx n true now rng ≡ some r)
        × SendsSame r.0 (record { priority = priority_h; proposer = me; value = value }) n
        × (r.0.step ≡ 4)
        × (r.1 ≡ rng))
      × ((r : Run × Rng) × (start value me me_idx n false now rng ≡ some r)
          × SendsDrawn r.0 me value n
          × (r.0.step ≡ 4)
          × AsDrawn r me value n rng)
unfolding start fresh_run
start_sends value me me_idx n now rng h = (
  (
    (fresh_run value me n now, rng),
    refl,
    SendsSame-template (fresh_run value me n now) n refl,
    refl,
    refl,
  ),
  draw_priorities_lem (fresh_run value me n now) me me_idx n rng h,
)

-- What holds of a run that `begin_step` returns, whatever the step.
abbrev pub IsBegun : Run → Run → ℕ → Type 0
IsBegun run run' now =
    (run'.step ≡ run.step)
    × (run'.needs_send ≡ true)
    × (run'.sent_at ≡ now)
    × (run'.replied ≡ fill_false run.replied)
    × (run'.reply_count ≡ 0)
    × (run'.best_first ≡ none)
    × (run'.best_agg ≡ none)
    × (run'.all_first_high ≡ true)

-- Drawing touches none of the counts.
draw_priorities-IsBegun :
    (run drawn : Run) (me : ReplicaId) (me_idx n now : ℕ) (rng rng' : Rng)
    → draw_priorities run me me_idx n rng ≡ some (drawn, rng')
    → drawn ≡ record run { phase0_priorities = drawn.phase0_priorities; proposal = drawn.proposal }
unfolding draw_priorities
draw_priorities-IsBegun run drawn me me_idx n now rng rng' e =
    let (mine, _, q) = >>=-eq-some (get_elem? (draws n rng).0 me_idx) _ e in
    let is = sym (ap (λ (x : Run × Rng). x.0) (some_inv q)) in
    is
    ∙ ap
        (λ (x : Run). record run { phase0_priorities = x.phase0_priorities; proposal = x.proposal })
        (sym is)

-- `proposal_for` reads the priorities and the template only.
SendsDrawn-marked :
    (run : Run) (me : ReplicaId) (value : Bytes) (n now : ℕ)
    → SendsDrawn run me value n
    → SendsDrawn (record run { sent_at = now; needs_send = true }) me value n
unfolding proposal_for
SendsDrawn-marked run me value n now s = s

AsDrawn-marked :
    (run : Run) (rng' : Rng) (me : ReplicaId) (value : Bytes) (n now : ℕ) (rng : Rng)
    → AsDrawn (run, rng') me value n rng
    → AsDrawn (record run { sent_at = now; needs_send = true }, rng') me value n rng
unfolding proposal_for
AsDrawn-marked run rng' me value n now rng s = s

-- A randomized phase 0 is begun without a panic, with nothing counted, and marked for sending at
-- `now`. It sends the carried value under the proposer's own name, to each recorder with its own
-- priority: the first that the generator draws to the first recorder, the next to the next, all
-- nonzero and below the reserved one; and no more is drawn.
pub begin_step_drawn :
    (run : Run) (me : ReplicaId) (me_idx n now : ℕ) (leader : Bool) (rng : Rng)
    → me_idx < n
    → is_randomized run.step leader ≡ true
    → (r : Run × Rng) × (begin_step run me me_idx n leader now rng ≡ some r)
      × IsBegun run r.0 now
      × SendsDrawn r.0 me run.proposal.value n
      × AsDrawn r me run.proposal.value n rng
unfolding begin_step reset_tracking
begin_step_drawn run me me_idx n now leader rng h e =
    let cleared : Run = record (reset_tracking run) { phase0_priorities = [] } in
    let ((drawn, rng'), d, sends, at, as_drawn) = draw_priorities_lem cleared me me_idx n rng h in
    let is = draw_priorities-IsBegun cleared drawn me me_idx n now rng rng' d in
    (
      (record drawn { sent_at = now; needs_send = true }, rng'),
      rw (e, d),
      (
        at,
        refl,
        refl,
        ap (λ (x : Run). x.replied) is,
        ap (λ (x : Run). x.reply_count) is,
        ap (λ (x : Run). x.best_first) is,
        ap (λ (x : Run). x.best_agg) is,
        ap (λ (x : Run). x.all_first_high) is,
      ),
      SendsDrawn-marked drawn me run.proposal.value n now sends,
      AsDrawn-marked drawn rng' me run.proposal.value n now rng as_drawn,
    )

-- Any other step is begun without a panic and marked for sending at `now`, draws nothing, and
-- sends the template itself to every recorder.
pub begin_step_same :
    (run : Run) (me : ReplicaId) (me_idx n now : ℕ) (leader : Bool) (rng : Rng)
    → is_randomized run.step leader ≡ false
    → (r : Run × Rng) × (begin_step run me me_idx n leader now rng ≡ some r)
      × IsBegun run r.0 now
      × (r.1 ≡ rng)
      × SendsSame r.0 run.proposal n
unfolding begin_step reset_tracking
begin_step_same run me me_idx n now leader rng e =
    let run' : Run = record (reset_tracking run) {
      phase0_priorities = [];
      sent_at = now;
      needs_send = true;
    } in
    (
      (run', rng),
      rw e,
      (refl, refl, refl, refl, refl, refl, refl, refl),
      refl,
      SendsSame-template run' n refl,
    )
