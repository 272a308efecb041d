-- ===== src/Agreement/Receiving.antt =====
-- A recorder that records a call keeps what holds of a reachable world.
use raxos.Prelude.{ℕ, ◌≡◌, inl, inr, sym, subst, Bool, some, List, ◌∷◌, All, Contains, IsU32}
use raxos.Types.{proposal_ord}
use raxos.Recorder.{IsrSlot, IsrSummary, record_step}
use raxos.Recorder.History.{Invocation, clock-IsU32, replay, recorded, IsStep}
use raxos.Agreement.{Group, Call, Answer, World, put, answer_of}
use raxos.Agreement.Histories.{Histories, AllGrown, AllGrown-put, recorded-cons, Contains-Grown}
use raxos.Agreement.Justified.{Justified, Justified-Grown, Decided-Grown}
use raxos.Agreement.Invariant.{Tells, Tells-Grown, IsCall, IsAnswer, IsRun-Grown, IsConsistent}
use raxos.Agreement.Answering.{put_self, put_cases, record_step-Tells}
use raxos.Agreement.Locks.{IsSound}

-- The histories after a call has been recorded.
abbrev pub after_call : Call → Histories → Histories
after_call c H = put c.to ((c.step, c.proposal) ∷ H c.to) H

-- The world in which it is answered too.
abbrev pub after_record : Call → IsrSummary → World → World
after_record c summary w = record w {
  histories = after_call c w.histories;
  answers = answer_of c summary ∷ w.answers;
}

module _ (g : Group) (w : World) (c : Call) (h : IsConsistent g w) (k : IsCall g w c) where
  -- What is recorded is justified,
  after_call-IsSound : IsSound g (after_call c w.histories)
  after_call-IsSound j t y q =
      let H = w.histories in
      let grown : AllGrown H (after_call c H) = AllGrown-put c.to (c.step, c.proposal) H in
      elim (put_cases c.to j ((c.step, c.proposal) ∷ H c.to) H) [
        | inr same ↦
            Justified-Grown g H (after_call c H) t y grown
              (h.sound j t y (subst (λ x. Contains y (recorded t x)) same q))
        | inl (is, same) ↦
            elim (recorded-cons t c.step c.proposal y (H c.to)
              (subst (λ x. Contains y (recorded t x)) same q)) [
                | inl (y_is, t_is) ↦
                    subst (λ x. Justified g (after_call c H) x y) t_is
                      (subst (Justified g (after_call c H) c.step) (sym y_is)
                        (Justified-Grown g H (after_call c H) c.step c.proposal grown k.justified))
                | inr old ↦ Justified-Grown g H (after_call c H) t y grown (h.sound c.to t y old)
              ]
      ]

  -- in steps that a u32 can count;
  after_call-IsStep : (j : ℕ) → All IsStep (after_call c w.histories j)
  after_call-IsStep j =
      elim (put_cases c.to j ((c.step, c.proposal) ∷ w.histories c.to) w.histories) [
        | inr same ↦ subst (All IsStep) (sym same) (h.steps j)
        | inl (_, same) ↦ subst (All IsStep) (sym same) (k.is_step, h.steps c.to)
      ]

  -- and what has been called is still justified.
  after_call-IsCall :
      (summary : IsrSummary) (d : Call) → IsCall g w d → IsCall g (after_record c summary w) d
  after_call-IsCall summary d x =
      let grown = AllGrown-put c.to (c.step, c.proposal) w.histories in
      record {
        inside = x.inside;
        justified =
            Justified-Grown g w.histories (after_call c w.histories) d.step d.proposal grown
              x.justified;
        is_step = x.is_step;
        sent = x.sent;
      }

  -- The new answer is true,
  answer_of-IsAnswer :
      (summary : IsrSummary) (changed : Bool) (isr : IsrSlot)
      → record_step (replay (w.histories c.to)) c.step c.proposal ≡ some (summary, changed, isr)
      → IsAnswer g (after_record c summary w) (answer_of c summary)
  answer_of-IsAnswer summary changed isr e =
      let h' : List Invocation = (c.step, c.proposal) ∷ w.histories c.to in
      let self : after_call c w.histories c.to ≡ h' = put_self c.to h' w.histories in
      let steps' : All IsStep h' = (k.is_step, h.steps c.to) in
      let (tells, step, own) =
        record_step-Tells (w.histories c.to) c.step c.proposal summary changed isr steps' e in
      record {
        inside = k.inside;
        word = subst IsU32 (sym step) (clock-IsU32 h' steps');
        tells = subst (λ x. Tells x summary.step summary.first summary.prior_agg) (sym self) tells;
        own = elim own [
          | inl n ↦ inl n
          | inr q ↦ inr (
            c.proposal,
            k.sent,
            subst (λ x. Contains c.proposal (recorded summary.step x)) (sym self) q,
          )
        ];
      }

  -- and the older ones stay so.
  older-IsAnswer :
      (summary : IsrSummary) (a : Answer) → IsAnswer g w a → IsAnswer g (after_record c summary w) a
  older-IsAnswer summary a x =
      let H = w.histories in
      let grown : AllGrown H (after_call c H) = AllGrown-put c.to (c.step, c.proposal) H in
      record {
        inside = x.inside;
        word = x.word;
        tells =
            Tells-Grown (H a.from) (after_call c H a.from) a.step a.first a.agg (grown a.from)
              x.tells;
        own = elim x.own [
          | inl n ↦ inl n
          | inr (p, s, q) ↦
              inr
                (p, s, Contains-Grown a.step p (H a.from) (after_call c H a.from) (grown a.from) q)
        ];
      }

-- A recorder records a call and answers.
pub records-IsConsistent :
    (g : Group) (w : World) (c : Call) (summary : IsrSummary) (changed : Bool) (isr : IsrSlot)
    → IsConsistent g w
    → Contains c w.calls
    → record_step (replay (w.histories c.to)) c.step c.proposal ≡ some (summary, changed, isr)
    → IsConsistent g (after_record c summary w)
records-IsConsistent g w c summary changed isr h m e =
    let H = w.histories in
    let k = h.calls c m in
    let grown : AllGrown H (after_call c H) = AllGrown-put c.to (c.step, c.proposal) H in
    record {
      sound = after_call-IsSound g w c h k;
      steps = after_call-IsStep g w c h k;
      calls = λ d n. after_call-IsCall g w c h k summary d (h.calls d n);
      answers = λ a n. elim n [
        | inl is ↦
            subst (IsAnswer g (after_record c summary w)) (sym is)
              (answer_of-IsAnswer g w c h k summary changed isr e)
        | inr old ↦ older-IsAnswer g w c h k summary a (h.answers a old)
      ];
      runs = λ i run at. IsRun-Grown g H (after_call c H) i run grown (h.runs i run at);
      decisions = λ v n. Decided-Grown g H (after_call c H) v grown (h.decisions v n);
    }
