-- ===== src/Agreement/Agreeing.antt =====
-- Two decisions agree, whatever the histories, where every recorded proposal is justified.
use raxos.Prelude.{
  ℕ, ◌+◌, ◌%◌, ◌≤◌, ◌<◌, ◌≡◌, sym, ap, subst, ◌∙◌, Bytes, Contains, less_antisym, arith,
}
use native.Mathlib.Decide.{dec_lt}
use raxos.Types.{Proposal, priority_h, proposal_ord}
use raxos.Recorder.History.{recorded}
use raxos.Agreement.{Group}
use raxos.Agreement.Quorums.{Quorum}
use raxos.Agreement.Histories.{Histories}
use raxos.Agreement.Justified.{Decided, fast, slow}
use raxos.Agreement.Locks.{IsSound, IsLocked, member, locked}
use raxos.Agreement.Bases.{FastAt, SlowAt, high_is_lead, fast_base, slow_upper, slow_base}

module _ (g : Group) (H : Histories) (majority : g.size < g.quorum + g.quorum)
    (sound : IsSound g H) where
  -- A slow decision locks the rounds after it, and a fast one those after its own step.
  slow-IsLocked :
      (t : ℕ) (p : Proposal) (Q : Quorum g.size g.quorum)
      → t % 4 ≡ 2
      → 4 < t
      → SlowAt g H t p Q
      → IsLocked H (t + 2) p.value
  slow-IsLocked t p Q e l all =
      locked g H majority sound (t + 2) p.value (omega arith) (omega arith)
        (slow_base g H majority sound t p Q e l all)

  agree_slow :
      (t s : ℕ) (p r : Proposal) (P Q : Quorum g.size g.quorum)
      → t % 4 ≡ 2
      → s % 4 ≡ 2
      → 4 < t
      → 4 < s
      → SlowAt g H t p P
      → SlowAt g H s r Q
      → t ≤ s
      → r.value ≡ p.value
  agree_slow t s p r P Q et es lt ls all_p all_r le = elim (dec_lt t s) [
    | yes up ↦
        let (i, l, q) = member g H majority sound Q in
        slow-IsLocked t p P et lt all_p s i r (omega arith) (λ z. absurd (omega (arith, es, z)))
          (all_r i l q).1
    | no ge ↦
        let same : t ≡ s = omega arith in
        let (i, l, q) = member g H majority sound Q in
        let (j, k, a) = member g H majority sound P in
        let r_in : Contains r (recorded t (H i)) =
          subst (λ x. Contains r (recorded x (H i))) (sym same) (all_r i l q).1 in
        let p_in : Contains p (recorded s (H j)) =
          subst (λ x. Contains p (recorded x (H j))) same (all_p j k a).1 in
        ap (λ (x : Proposal). x.value)
          (less_antisym r p (slow_upper g H majority sound s r Q es ls all_r j p p_in)
            (slow_upper g H majority sound t p P et lt all_p i r r_in))
  ]

  -- A fast decision is for the leader's value, and so is a slow one beside it.
  fast_value :
      (j : ℕ) (p : Proposal)
      → Contains p (recorded 4 (H j))
      → p.priority ≡ priority_h
      → p.value ≡ g.values 0
  fast_value j p c high =
      ap (λ (x : Proposal). x.value)
        (high_is_lead g H majority sound j p c (λ l. absurd (omega (arith, l, high))))

  beside_fast :
      (P Q : Quorum g.size g.quorum) (t : ℕ) (r : Proposal)
      → FastAt g H P
      → t % 4 ≡ 2
      → 4 < t
      → SlowAt g H t r Q
      → r.value ≡ g.values 0
  beside_fast P Q t r firsts d l all =
      let (i, k, q) = member g H majority sound Q in
      locked g H majority sound 5 (g.values 0) (omega arith) (omega arith)
        (fast_base g H majority sound P firsts) t i r (omega (arith, d, l))
        (λ z. absurd (omega (arith, d, z))) (all i k q).1

  -- Two decided values are the same: in a group of fewer than two quorums, whatever the
  -- histories of the recorders are, as long as every recorded proposal is justified.
  pub Decided-agree : (v w : Bytes) → Decided g H v → Decided g H w → v ≡ w
  Decided-agree v w (fast p P j e firsts c high) (fast r Q k d _ c' high') =
      sym e ∙ fast_value j p c high ∙ sym (fast_value k r c' high') ∙ d
  Decided-agree v w (fast p P j e firsts c high) (slow t r Q d l is all) =
      sym e ∙ fast_value j p c high ∙ sym (beside_fast P Q t r firsts d l all) ∙ is
  Decided-agree v w (slow t r Q d l is all) (fast p P j e firsts c high) =
      sym is ∙ beside_fast P Q t r firsts d l all ∙ sym (fast_value j p c high) ∙ e
  Decided-agree v w (slow t p P et lt ip all_p) (slow s r Q es ls ir all_r) = elim (dec_lt t s) [
    | yes up ↦ sym ip ∙ sym (agree_slow t s p r P Q et es lt ls all_p all_r (omega arith)) ∙ ir
    | no ge ↦ sym ip ∙ agree_slow s t r p Q P es et ls lt all_r all_p (omega arith) ∙ ir
  ]
