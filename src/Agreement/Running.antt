-- ===== src/Agreement/Running.antt =====
-- What a run sends at the beginning of a step, and why it may.
use raxos.Prelude.{
  ℕ, ◌%◌, ◌≤◌, ◌<◌, ◌≡◌, ◌≢◌, ◌⊎◌, inl, inr, refl, sym, ap, subst, ◌∙◌, Bool, true, false,
  Bool-cases, some, some_inv, [], Bytes, length, All-range_get, IsU32, ◌==◌, arith,
}
use raxos.Types.{Proposal, priority_h}
use raxos.Rng.{Rng}
use raxos.Proposer.{Run, start, proposal_for, is_randomized}
use raxos.Proposer.Draws.{IsDrawnBy, start_sends, begin_step_drawn, begin_step_same}
use raxos.Proposer.Beginning.{IsFresh, begin_step-IsFresh, begin_step-plain, start-IsFresh}
use raxos.Agreement.{Group, begin_at}
use raxos.Agreement.Histories.{Histories}
use raxos.Agreement.Justified.{lead, Justified, fresh, renewed, best_first, spread, gathered}
use raxos.Agreement.Invariant.{IsRun}

-- What a run may send in step `t` when it carries `y`: in a phase 0 the value of `y` under a
-- priority below the reserved one, in any other phase `y` itself.
abbrev pub Carried : ℕ → Proposal → Proposal → Type 0
Carried t y p =
    ((t % 4 ≡ 0) × (p.value ≡ y.value) × (p.priority < priority_h)) ⊎ ((t % 4 ≢ 0) × (p ≡ y))

drawn_is :
    (me : ℕ) (value : Bytes) (run : Run) (j : ℕ) (p : Proposal)
    → IsDrawnBy me value (proposal_for run j)
    → proposal_for run j ≡ some p
    → (p.value ≡ value) × (p.priority < priority_h)
drawn_is me value run j p d e =
    let (drawn, _, same) : IsDrawnBy me value (some p) = subst (IsDrawnBy me value) e d in
    (same, drawn.1)

module _ (g : Group) (H : Histories) (i : ℕ) (inside : i < g.size) (pos : 0 < g.quorum) where
  fresh-IsRun :
      (run : Run)
      → IsFresh g.size run
      → 4 ≤ run.step
      → IsU32 run.step
      → ((j : ℕ) (p : Proposal)
          → j < g.size
          → proposal_for run j ≡ some p
          → Justified g H run.step p)
      → (run.step % 4 ≡ 0) ⊎ (run.phase0_priorities ≡ [])
      → IsRun g H i run
  fresh-IsRun run f late word sends whole = record {
    whole = whole;
    inside = inside;
    replies = [];
    tracks = f.tracks;
    few = omega (arith, pos);
    distinct = tt;
    counted = tt;
    sends = sends;
    late = late;
    word = word;
  }

  begin_carries :
      (run : Run) (now : ℕ) (rng : Rng) (out : Run × Rng) (j : ℕ) (p : Proposal)
      → begin_at g i run now rng ≡ some out
      → 4 < run.step
      → j < g.size
      → proposal_for out.0 j ≡ some p
      → Carried run.step run.proposal p
  begin_carries run now rng out j p e late l at =
      elim (Bool-cases (is_randomized run.step (i == 0))) [
        | inl b ↦
            let (r, q, _, sends, _) =
              begin_step_drawn run (g.ids i) i g.size now (i == 0) rng inside b in
            let same : r ≡ out = some_inv (sym q ∙ e) in
            let drawn =
              All-range_get (λ k. IsDrawnBy (g.ids i) run.proposal.value (proposal_for r.0 k))
                g.size j sends l in
            let (value, low) =
              drawn_is (g.ids i) run.proposal.value r.0 j p drawn
                (ap (λ (x : Run × Rng). proposal_for x.0 j) same ∙ at) in
            inl (ground (arith, b), value, low)
        | inr b ↦
            let (r, q, _, _, sends) = begin_step_same run (g.ids i) i g.size now (i == 0) rng b in
            let same : r ≡ out = some_inv (sym q ∙ e) in
            let is = All-range_get (λ k. proposal_for r.0 k ≡ some run.proposal) g.size j sends l in
            inr (
              λ z. ground (arith, b, z, late),
              some_inv (sym at ∙ ap (λ (x : Run × Rng). proposal_for x.0 j) (sym same) ∙ is),
            )
      ]

  -- A step that begins is sent as far as what it carries is justified.
  pub begin-IsRun :
      (run : Run) (now : ℕ) (rng : Rng) (out : Run × Rng)
      → begin_at g i run now rng ≡ some out
      → length run.replied ≡ g.size
      → 4 < run.step
      → IsU32 run.step
      → ((p : Proposal) → Carried run.step run.proposal p → Justified g H run.step p)
      → IsRun g H i out.0 × (out.0.step ≡ run.step)
  begin-IsRun run now rng out e sized late word carries =
      let (r, q, f, step) =
        begin_step-IsFresh run (g.ids i) i g.size now (i == 0) rng inside sized in
      let same : r ≡ out = some_inv (sym q ∙ e) in
      let at : out.0.step ≡ run.step = sym (ap (λ (x : Run × Rng). x.0.step) same) ∙ step in
      (
        fresh-IsRun out.0 (subst (λ (x : Run × Rng). IsFresh g.size x.0) same f)
            (omega (arith, at, late)) (omega (arith, at, word))
            (λ j p l k.
              subst (λ t. Justified g H t p) (sym at)
                (carries p (begin_carries run now rng out j p e late l k)))
            (elim (Bool-cases (is_randomized run.step (i == 0))) [
              | inl b ↦ inl (ground (arith, b, at))
              | inr b ↦ inr (begin_step-plain run (g.ids i) i g.size now (i == 0) rng out e b).0
            ]),
        at,
      )

  start_carries :
      (leader : Bool) (now : ℕ) (rng : Rng) (out : Run × Rng) (j : ℕ) (p : Proposal)
      → start (g.values i) (g.ids i) i g.size leader now rng ≡ some out
      → (leader ≡ true → i ≡ 0)
      → j < g.size
      → proposal_for out.0 j ≡ some p
      → (p.priority < priority_h) ⊎ (p ≡ lead g)
  start_carries false now rng out j p e zero l at =
      let (_, (r, q, sends, _, _)) = start_sends (g.values i) (g.ids i) i g.size now rng inside in
      let same : r ≡ out = some_inv (sym q ∙ e) in
      let drawn =
        All-range_get (λ k. IsDrawnBy (g.ids i) (g.values i) (proposal_for r.0 k)) g.size j sends
          l in
      inl
        (drawn_is (g.ids i) (g.values i) r.0 j p drawn
          (ap (λ (x : Run × Rng). proposal_for x.0 j) same ∙ at)).1
  start_carries true now rng out j p e zero l at =
      let ((r, q, sends, _, _), _) = start_sends (g.values i) (g.ids i) i g.size now rng inside in
      let same : r ≡ out = some_inv (sym q ∙ e) in
      let own : Proposal = record {
        priority = priority_h;
        proposer = g.ids i;
        value = g.values i;
      } in
      let is = All-range_get (λ k. proposal_for r.0 k ≡ some own) g.size j sends l in
      let leads : own ≡ lead g =
        ap (λ k. record { priority = priority_h; proposer = g.ids k; value = g.values k })
          (zero refl) in
      inr (some_inv (sym at ∙ ap (λ (x : Run × Rng). proposal_for x.0 j) (sym same) ∙ is) ∙ leads)

  pub start-IsRun :
      (now : ℕ) (rng : Rng) (out : Run × Rng)
      → start (g.values i) (g.ids i) i g.size (i == 0) now rng ≡ some out
      → IsRun g H i out.0
  start-IsRun now rng out e =
      let (r, q, f, step) = start-IsFresh (g.values i) (g.ids i) i g.size now (i == 0) rng inside in
      let same : r ≡ out = some_inv (sym q ∙ e) in
      let at : out.0.step ≡ 4 = sym (ap (λ (x : Run × Rng). x.0.step) same) ∙ step in
      fresh-IsRun out.0 (subst (λ (x : Run × Rng). IsFresh g.size x.0) same f) (omega (arith, at))
        (omega (arith, at))
        (λ j p l k.
          fresh at (start_carries (i == 0) now rng out j p e (λ z. ground (arith, z)) l k))
        (inl (omega (arith, at)))

-- What has been recorded in a step may be carried on in that step.
pub recorded_carries :
    (g : Group) (H : Histories) (t : ℕ) (y p : Proposal)
    → 4 < t
    → Justified g H t y
    → Carried t y p
    → Justified g H t p
recorded_carries g H t y p late (fresh e _) c = absurd (omega (arith, e, late))
recorded_carries g H t y p late (renewed b Q j e l bounds k v low) (inl (_, value, low')) =
    renewed b Q j e l bounds k (value ∙ v) low'
recorded_carries g H t y p late (best_first Q j e below o) (inl (z, _, _)) =
    absurd (omega (arith, e, z))
recorded_carries g H t y p late (spread Q e all) (inl (z, _, _)) = absurd (omega (arith, e, z))
recorded_carries g H t y p late (gathered e) (inl (z, _, _)) = absurd (omega (arith, e, z))
recorded_carries g H t y p late old (inr (_, is)) = subst (Justified g H t) (sym is) old
