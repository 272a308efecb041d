-- ===== src/Agreement/Answering.antt =====
-- What a recorder answers is true of its history.
use raxos.Prelude.{
  ℕ, ◌≤◌, ◌≡◌, ◌≢◌, ◌⊎◌, inl, inr, refl, sym, ap, subst, ◌∙◌, Bool, true, Bool-cases, some,
  some_inv, List, [], ◌∷◌, All, Contains, ◌==◌, arith,
}
use native.Mathlib.Decide.{ℕ_discrete}
use raxos.Types.{Proposal, proposal_ord}
use raxos.Recorder.{IsrSlot, IsrSummary, record_step, update_register}
use raxos.Recorder.Steps.{
  IsOpened, isr_default-IsOpened, update_register-IsOpened, summary_of, record_step-eq-some,
}
use raxos.Recorder.History.{
  Invocation, recorded_now, replay, clock, recorded, IsStep, replay-IsSummaryOf,
}
use raxos.Proposer.{Run, running}
use raxos.Agreement.{put}
use raxos.Agreement.Invariant.{Tells}

pub put_self {ℓ} : {A : Type ℓ} (i : ℕ) (a : A) (f : ℕ → A) → put i a f i ≡ a
put_self i a f = let e : (i == i) ≡ true = ground arith in rw e refl

pub put_cases {ℓ} :
    {A : Type ℓ} (i j : ℕ) (a : A) (f : ℕ → A) → ((i ≡ j) × (put i a f j ≡ a)) ⊎ (put i a f j ≡ f j)
put_cases i j a f = elim (Bool-cases (i == j)) [
  | inl e ↦ inl (ground (arith, e), rw e refl)
  | inr e ↦ inr (rw e refl)
]

pub running_inv : {a b : Run} → running a ≡ running b → a ≡ b
running_inv e = cc

pub replay-IsOpened : (h : List Invocation) → IsOpened (replay h)
unfolding replay
replay-IsOpened [] = isr_default-IsOpened
replay-IsOpened ((s, p) ∷ h) = update_register-IsOpened (replay h) s p (replay-IsOpened h)

-- What a recorder answers after an invocation is true of its history with that invocation.
pub record_step-Tells :
    (h : List Invocation) (s : ℕ) (p : Proposal) (summary : IsrSummary) (changed : Bool)
    (isr : IsrSlot)
    → All IsStep ((s, p) ∷ h)
    → record_step (replay h) s p ≡ some (summary, changed, isr)
    → Tells ((s, p) ∷ h) summary.step summary.first summary.prior_agg
      × (summary.step ≡ clock ((s, p) ∷ h))
      × ((s ≢ summary.step) ⊎ Contains p (recorded summary.step ((s, p) ∷ h)))
record_step-Tells h s p summary changed isr steps e =
    let (f, first, at) = record_step-eq-some (replay h) s p (replay-IsOpened h) steps.0.0 in
    let h' : List Invocation = (s, p) ∷ h in
    let is : replay h' ≡ (update_register (replay h) s p).0 = unfold replay in refl in
    let same : summary ≡ summary_of (replay h') f =
      ap (λ (x : IsrSummary × Bool × IsrSlot). x.0) (some_inv (sym e ∙ at))
      ∙ ap (λ x. summary_of x f) (sym is) in
    let m = replay-IsSummaryOf h' steps in
    let step : summary.step ≡ clock h' = ap (λ (x : IsrSummary). x.step) same ∙ m.step in
    let grows : s ≤ clock h' = unfold clock in omega arith in
    let le_of = λ (q : s ≡ summary.step).
      let le : clock h ≤ s = unfold clock in omega (arith, q, step) in le in
    let told : Tells h' (clock h') f (replay h').prior_agg = record {
      reached = omega arith;
      later = omega (arith, grows, steps.0.0);
      is_first = sym m.first ∙ ap (λ (x : IsrSlot). x.first) is ∙ first;
      is_agg = m.prior;
    } in
    (
      rw same (subst (λ t. Tells h' t f (replay h').prior_agg) (sym m.step) told),
      step,
      elim (ℕ_discrete s summary.step) [
        | no n ↦ inl n
        | yes q ↦ inr (
            subst (λ t. Contains p (recorded t h')) q
              (rw (recorded_now s p h (le_of q)) (inl refl)))
      ],
    )
