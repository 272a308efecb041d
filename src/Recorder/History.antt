-- ===== src/Recorder/History.antt =====
-- What a register holds after any sequence of invocations, said without the register: histories
-- are lists with the latest invocation first.
use raxos.Prelude.{
  ℕ, ◌+◌, ◌-◌, ◌≤◌, ◌<◌, ◌≡◌, ◌≢◌, inl, inr, refl, sym, ◌∙◌, ap, true, Option, none, some, arith,
  List, [], ◌∷◌, ◌&&◌, leb, ◌==◌, All, max, is_none_or_less, IsGreatest, IsGreatest-cons,
  Bool-cases, if◌then◌else◌, IsU32,
}
use native.Mathlib.Decide.{dec_lt}
use raxos.Types.{Proposal, proposal_ord}
use raxos.Recorder.{IsrSlot, isr_default, update_register}

abbrev pub Invocation : Type 0
Invocation = ℕ × Proposal

-- The register after a history.
unfoldable pub replay : List Invocation → IsrSlot
replay [] = isr_default
replay ((s, p) ∷ h) = (update_register (replay h) s p).0

-- The highest step named.
unfoldable pub clock : List Invocation → ℕ
clock [] = 0
clock ((s, p) ∷ h) = max s (clock h)

-- The proposals of step `t` that came before any later step was named, latest first.
unfoldable pub recorded : ℕ → List Invocation → List Proposal
recorded t [] = []
recorded t ((s, p) ∷ h) = if s == t && leb (clock h) s then p ∷ recorded t h else recorded t h

abbrev pub oldest : List Proposal → Option Proposal
oldest [] = none
oldest (p ∷ []) = some p
oldest (p ∷ q ∷ ps) = oldest (q ∷ ps)

-- Steps are u32 values from 1 on.
abbrev pub IsStep : Invocation → Type 0
IsStep i = (0 < i.0) × IsU32 i.0

-- `isr` is the summary of `h`: the clock, the first proposal recorded in its step, and the
-- greatest proposals recorded in its step and in the one before.
pub record IsSummaryOf (h : List Invocation) (isr : IsrSlot) : Type 0 where
  pub step : isr.step ≡ clock h
  pub first : isr.first ≡ oldest (recorded (clock h) h)
  pub current : IsGreatest isr.current_agg (recorded (clock h) h)
  pub prior : IsGreatest isr.prior_agg (recorded (clock h - 1) h)

recorded_later : (t : ℕ) (h : List Invocation) → clock h < t → recorded t h ≡ []
unfolding recorded clock
recorded_later t [] lt = refl
recorded_later t ((s, p) ∷ h) lt = ground (arith, recorded_later t h)

pub clock-IsU32 : (h : List Invocation) → All IsStep h → IsU32 (clock h)
unfolding clock
clock-IsU32 [] a = omega arith
clock-IsU32 ((s, p) ∷ h) (i, a) = omega (arith, clock-IsU32 h a)

recorded_stale :
    (t s : ℕ) (p : Proposal) (h : List Invocation)
    → s < clock h
    → recorded t ((s, p) ∷ h) ≡ recorded t h
unfolding recorded
recorded_stale t s p h lt = ground arith

oldest-cons : (p : Proposal) (ps : List Proposal) → ps ≢ [] → oldest (p ∷ ps) ≡ oldest ps
oldest-cons p [] n = absurd (n refl)
oldest-cons p (q ∷ ps) n = refl

pub recorded_now :
    (s : ℕ) (p : Proposal) (h : List Invocation)
    → clock h ≤ s
    → recorded s ((s, p) ∷ h) ≡ p ∷ recorded s h
unfolding recorded
recorded_now s p h le = ground arith

recorded_other :
    (t s : ℕ) (p : Proposal) (h : List Invocation) → s ≢ t → recorded t ((s, p) ∷ h) ≡ recorded t h
unfolding recorded
recorded_other t s p h n = ground arith

clock_stale :
    (s : ℕ) (p : Proposal) (h : List Invocation) → s ≤ clock h → clock ((s, p) ∷ h) ≡ clock h
unfolding clock
clock_stale s p h le = omega arith

clock_now : (s : ℕ) (p : Proposal) (h : List Invocation) → clock h ≤ s → clock ((s, p) ∷ h) ≡ s
unfolding clock
clock_now s p h le = omega arith

cons-ne-nil : (p : Proposal) (ps : List Proposal) → p ∷ ps ≢ []
cons-ne-nil p ps e = cc

recorded-ne-nil : (h : List Invocation) → 0 < clock h → recorded (clock h) h ≢ []
recorded-ne-nil [] pos = absurd (unfold clock in omega arith)
recorded-ne-nil ((s, p) ∷ h) pos = elim (dec_lt s (clock h)) [
  | yes lt ↦
      rw (clock_stale s p h (omega arith), recorded_stale (clock h) s p h lt)
        (recorded-ne-nil h (omega arith))
  | no ge ↦
      rw (clock_now s p h (omega arith), recorded_now s p h (omega arith))
        (cons-ne-nil p (recorded s h))
]

update_stale :
    (isr : IsrSlot) (s : ℕ) (p : Proposal) → s < isr.step → (update_register isr s p).0 ≡ isr
unfolding update_register
update_stale isr s p lt = ground arith

update_same :
    (isr : IsrSlot) (s : ℕ) (p : Proposal)
    → s ≡ isr.step
    → (update_register isr s p).0 ≡ record isr {
      current_agg = if is_none_or_less isr.current_agg p then some p else isr.current_agg;
    }
unfolding update_register
update_same isr s p e = ground arith

update_next :
    (isr : IsrSlot) (s : ℕ) (p : Proposal)
    → isr.step < s
    → IsU32 s
    → (update_register isr s p).0 ≡ record {
      step = s;
      first = some p;
      current_agg = some p;
      prior_agg = if s == isr.step + 1 then isr.current_agg else none;
    }
unfolding update_register
update_next isr s p lt u = ground arith

module _ (s : ℕ) (p : Proposal) (h : List Invocation) (m : IsSummaryOf h (replay h)) where
  stale_summary : s < clock h → IsSummaryOf ((s, p) ∷ h) (replay h)
  stale_summary lt =
      let ec = clock_stale s p h (omega arith) in
      record {
        step = rw ec m.step;
        first = rw (ec, recorded_stale (clock h) s p h lt) m.first;
        current = rw (ec, recorded_stale (clock h) s p h lt) m.current;
        prior = rw (ec, recorded_stale (clock h - 1) s p h lt) m.prior;
      }

  same_summary :
      0 < s
      → s ≡ clock h
      → IsSummaryOf ((s, p) ∷ h) (record (replay h) {
        current_agg =
            if is_none_or_less (replay h).current_agg p then some p else (replay h).current_agg;
      })
  same_summary pos e =
      let ec = clock_stale s p h (omega arith) in
      record {
        step = rw ec m.step;
        first =
            m.first
            ∙ rw (ec, ← e, recorded_now s p h (omega arith))
                (sym
                  (oldest-cons p (recorded s h) (rw (← e) at (recorded-ne-nil h (omega arith)))));
        current =
            rw (ec, ← e, recorded_now s p h (omega arith))
              (IsGreatest-cons (replay h).current_agg p (recorded s h) (rw (← e) at m.current));
        prior = rw (ec, recorded_other (clock h - 1) s p h (omega arith)) m.prior;
      }

  next_summary :
      clock h < s
      → IsSummaryOf ((s, p) ∷ h) (record {
        step = s;
        first = some p;
        current_agg = some p;
        prior_agg = if s == (replay h).step + 1 then (replay h).current_agg else none;
      })
  next_summary lt =
      let ec = clock_now s p h (omega arith) in
      let now = recorded_now s p h (omega arith) ∙ ap (λ ps. p ∷ ps) (recorded_later s h lt) in
      record {
        step = sym ec;
        first = rw (ec, now);
        current = rw (ec, now) (IsGreatest-cons none p [] tt);
        prior =
            rw (ec, recorded_other (s - 1) s p h (omega arith), m.step)
              (elim (Bool-cases (s == clock h + 1)) [
                | inl e ↦ rw e (rw (sub_step e) m.current)
                | inr n ↦ rw n (rw (recorded_later (s - 1) h (ground arith)) tt)
              ]);
      }
    where
      sub_step : (s == clock h + 1) ≡ true → s - 1 ≡ clock h
      sub_step e = ground arith

summary_step :
    (s : ℕ) (p : Proposal) (h : List Invocation)
    → IsStep (s, p)
    → IsSummaryOf h (replay h)
    → IsSummaryOf ((s, p) ∷ h) (update_register (replay h) s p).0
summary_step s p h i m = elim (dec_lt s (clock h)) [
  | yes lt ↦ rw (update_stale (replay h) s p (omega (arith, m.step))) (stale_summary s p h m lt)
  | no ge ↦ elim (dec_lt (clock h) s) [
    | yes up ↦ rw (update_next (replay h) s p (omega (arith, m.step)) i.1) (next_summary s p h m up)
    | no le ↦
        rw (update_same (replay h) s p (omega (arith, m.step)))
          (same_summary s p h m i.0 (omega arith))
  ]
]

-- After any sequence of invocations with steps that are u32 values from 1 on, the register holds
-- the highest step named, the first proposal recorded in it, the greatest proposal recorded in
-- it and the greatest one recorded in the step just before it, where a proposal is recorded in
-- its step if no later step had been named when it came.
pub replay-IsSummaryOf : (h : List Invocation) → All IsStep h → IsSummaryOf h (replay h)
unfolding replay
replay-IsSummaryOf [] a =
    unfold clock recorded in record { step = refl; first = refl; current = tt; prior = tt }
replay-IsSummaryOf ((s, p) ∷ h) (i, a) = summary_step s p h i (replay-IsSummaryOf h a)
