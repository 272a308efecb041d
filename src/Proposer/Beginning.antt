-- ===== src/Proposer/Beginning.antt =====
-- A run at the beginning of a step: it has counted nothing, and has a proposal for everybody.
use raxos.Prelude.{
  ℕ, ◌<◌, ◌≡◌, inl, inr, refl, sym, subst, Bool, true, false, Bool-cases, Option, none, some,
  >>=-eq-some, some_inv, Returns, List, [], Bytes, length, ap, ◌∙◌, get_elem?, All-range_get,
  if◌then◌else◌,
}
use raxos.Types.{ReplicaId, Proposal}
use raxos.Rng.{Rng}
use raxos.Proposer.{
  Run, draws, draw_priorities, fresh_run, start, proposal_for, reset_tracking, is_randomized,
  begin_step,
}
use raxos.Proposer.Draws.{
  IsDrawnBy, SendsDrawn, SendsSame, start_sends, begin_step_drawn, begin_step_same,
}
use raxos.Proposer.Tracking.{Reply, Tracks, fresh_run-Tracks, reset_tracking-Tracks}

-- There is a proposal for each of `n` recorders.
abbrev pub Sends : Run → ℕ → Type 0
Sends run n = (idx : ℕ) → idx < n → Returns (proposal_for run idx)

IsDrawnBy-Returns :
    (me : ReplicaId) (value : Bytes) (o : Option Proposal) → IsDrawnBy me value o → Returns o
IsDrawnBy-Returns me value none h = absurd h
IsDrawnBy-Returns me value (some p) h = (p, refl)

SendsDrawn-Sends :
    (run : Run) (me : ReplicaId) (value : Bytes) (n : ℕ) → SendsDrawn run me value n → Sends run n
SendsDrawn-Sends run me value n s idx h =
    IsDrawnBy-Returns me value (proposal_for run idx)
      (All-range_get (λ i. IsDrawnBy me value (proposal_for run i)) n idx s h)

SendsSame-Sends : (run : Run) (p : Proposal) (n : ℕ) → SendsSame run p n → Sends run n
SendsSame-Sends run p n s idx h = (p, All-range_get (λ i. proposal_for run i ≡ some p) n idx s h)

draw_priorities-Tracks :
    (run : Run) (me : ReplicaId) (me_idx n : ℕ) (rng : Rng) (cs : List Reply) (r : Run × Rng)
    → draw_priorities run me me_idx n rng ≡ some r
    → Tracks n run cs
    → Tracks n r.0 cs
unfolding draw_priorities
draw_priorities-Tracks run me me_idx n rng cs r e t =
    let (mine, _, q) = >>=-eq-some (get_elem? (draws n rng).0 me_idx) _ e in
    subst (λ (x : Run × Rng). Tracks n x.0 cs) (some_inv q)
      (record {
        size = t.size;
        marks = t.marks;
        count = t.count;
        high = t.high;
        best_first = t.best_first;
        best_agg = t.best_agg;
      })

begin_step-Tracks :
    (run : Run) (me : ReplicaId) (me_idx now : ℕ) (leader : Bool) (rng : Rng) (r : Run × Rng)
    → begin_step run me me_idx (length run.replied) leader now rng ≡ some r
    → Tracks (length run.replied) r.0 []
unfolding begin_step
begin_step-Tracks run me me_idx now leader rng r e =
    let n = length run.replied in
    let cleared : Run = record (reset_tracking run) { phase0_priorities = [] } in
    let t = reset_tracking-Tracks run in
    let cleared_t : Tracks n cleared [] = record {
      size = t.size;
      marks = t.marks;
      count = t.count;
      high = t.high;
      best_first = t.best_first;
      best_agg = t.best_agg;
    } in
    let (drawn, d, q) =
      >>=-eq-some
        (if is_randomized cleared.step leader
          then draw_priorities cleared me me_idx n rng
          else some (cleared, rng))
        _ e in
    let drawn_t : Tracks n drawn.0 [] = elim (Bool-cases (is_randomized cleared.step leader)) [
      | inl b ↦ draw_priorities-Tracks cleared me me_idx n rng [] drawn (rw b at d) cleared_t
      | inr b ↦ subst (λ (x : Run × Rng). Tracks n x.0 []) (some_inv (rw b at d)) cleared_t
    ] in
    subst (λ (x : Run × Rng). Tracks n x.0 []) (some_inv q)
      (record {
        size = drawn_t.size;
        marks = drawn_t.marks;
        count = drawn_t.count;
        high = drawn_t.high;
        best_first = drawn_t.best_first;
        best_agg = drawn_t.best_agg;
      })

-- What a run is in at the beginning of a step, in a group of `n`.
pub record IsFresh (n : ℕ) (run : Run) : Type 0 where
  pub tracks : Tracks n run []
  pub sends : Sends run n
  pub unsent : run.needs_send ≡ true

module _ (run : Run) (me : ReplicaId) (me_idx n now : ℕ) (leader : Bool) (rng : Rng) where
  begun-IsFresh :
      (r : Run × Rng)
      → begin_step run me me_idx n leader now rng ≡ some r
      → length run.replied ≡ n
      → Sends r.0 n
      → r.0.needs_send ≡ true
      → IsFresh n r.0
  begun-IsFresh r e l sends unsent = record {
    tracks =
        subst (λ k. Tracks k r.0 []) l
          (begin_step-Tracks run me me_idx now leader rng r
            (ap (λ k. begin_step run me me_idx k leader now rng) l ∙ e));
    sends = sends;
    unsent = unsent;
  }

  pub begin_step-IsFresh :
      me_idx < n
      → length run.replied ≡ n
      → (r : Run × Rng) × (begin_step run me me_idx n leader now rng ≡ some r)
        × IsFresh n r.0
        × (r.0.step ≡ run.step)
  begin_step-IsFresh h l = elim (Bool-cases (is_randomized run.step leader)) [
    | inl b ↦
        let (r, e, (at, unsent, _, _, _, _, _, _), sends, _) =
          begin_step_drawn run me me_idx n now leader rng h b in
        (r, e, begun-IsFresh r e l (SendsDrawn-Sends r.0 me run.proposal.value n sends) unsent, at)
    | inr b ↦
        let (r, e, (at, unsent, _, _, _, _, _, _), _, sends) =
          begin_step_same run me me_idx n now leader rng b in
        (r, e, begun-IsFresh r e l (SendsSame-Sends r.0 run.proposal n sends) unsent, at)
  ]

-- Drawing changes neither the flag nor the counts.
draw_priorities-unsent :
    (run : Run) (me : ReplicaId) (me_idx n : ℕ) (rng : Rng) (r : Run × Rng)
    → draw_priorities run me me_idx n rng ≡ some r
    → r.0.needs_send ≡ run.needs_send
unfolding draw_priorities
draw_priorities-unsent run me me_idx n rng r e =
    let (mine, _, q) = >>=-eq-some (get_elem? (draws n rng).0 me_idx) _ e in
    sym (ap (λ (x : Run × Rng). x.0.needs_send) (some_inv q))

-- A new run is fresh as well, and in step 4.
pub start-IsFresh :
    (value : Bytes) (me : ReplicaId) (me_idx n now : ℕ) (leader : Bool) (rng : Rng)
    → me_idx < n
    → (r : Run × Rng) × (start value me me_idx n leader now rng ≡ some r)
      × IsFresh n r.0
      × (r.0.step ≡ 4)
unfolding start fresh_run
start-IsFresh value me me_idx n now true rng h =
    let ((r, e, sends, at, _), _) = start_sends value me me_idx n now rng h in
    (
      r,
      e,
      record {
        tracks =
            subst (λ (x : Run × Rng). Tracks n x.0 []) (some_inv e)
              (fresh_run-Tracks value me n now);
        sends = SendsSame-Sends r.0 _ n sends;
        unsent = sym (ap (λ (x : Run × Rng). x.0.needs_send) (some_inv e));
      },
      at,
    )
start-IsFresh value me me_idx n now false rng h =
    let (_, (r, e, sends, at, _)) = start_sends value me me_idx n now rng h in
    (
      r,
      e,
      record {
        tracks =
            draw_priorities-Tracks (fresh_run value me n now) me me_idx n rng [] r e
              (fresh_run-Tracks value me n now);
        sends = SendsDrawn-Sends r.0 me value n sends;
        unsent = draw_priorities-unsent (fresh_run value me n now) me me_idx n rng r e;
      },
      at,
    )

-- A step that draws nothing sends its template.
pub begin_step-plain :
    (run : Run) (me : ReplicaId) (me_idx n now : ℕ) (leader : Bool) (rng : Rng) (r : Run × Rng)
    → begin_step run me me_idx n leader now rng ≡ some r
    → is_randomized run.step leader ≡ false
    → (r.0.phase0_priorities ≡ []) × (r.0.proposal ≡ run.proposal)
unfolding begin_step reset_tracking
begin_step-plain run me me_idx n now leader rng r e b =
    let q = some_inv (rw b at e) in
    (
      sym (ap (λ (x : Run × Rng). x.0.phase0_priorities) q),
      sym (ap (λ (x : Run × Rng). x.0.proposal) q),
    )
