-- ===== src/Recorder/Repeating.antt =====
-- A register to which a proposal comes again, as retransmission makes it.
use raxos.Prelude.{
  ℕ, ◌<◌, ◌≡◌, ◌⊎◌, inl, inr, false, Option, none, some, arith, List, [], ◌∷◌, ◌++◌,
  is_none_or_less, not_less_below, less_irrefl, if◌then◌else◌,
}
use native.Mathlib.Decide.{dec_lt}
use raxos.Types.{Proposal, proposal_ord}
use raxos.Recorder.{IsrSlot, update_register}
use raxos.Recorder.History.{Invocation, replay}

-- What makes a repetition of `(s, p)` change nothing.
abbrev Covers : ℕ → Proposal → IsrSlot → Type 0
Covers s p isr = (s < isr.step) ⊎ ((isr.step ≡ s) × (is_none_or_less isr.current_agg p ≡ false))

agg_keeps :
    (best : Option Proposal) (p q : Proposal)
    → is_none_or_less best p ≡ false
    → is_none_or_less (if is_none_or_less best q then some q else best) p ≡ false
agg_keeps none p q c = cc
agg_keeps (some g) p q c = ground (arith, not_less_below g q p)

-- The register's change does not touch what is covered.
Covers-update :
    (s t : ℕ) (p q : Proposal) (isr : IsrSlot)
    → Covers s p isr
    → Covers s p (update_register isr t q).0
unfolding update_register
Covers-update s t p q isr (inl lt) = inl (ground arith)
Covers-update s t p q isr (inr (e, c)) = elim (dec_lt isr.step t) [
  | yes up ↦ inl (ground arith)
  | no le ↦ inr (ground arith, ground (arith, agg_keeps isr.current_agg p q))
]

Covers-self : (s : ℕ) (p : Proposal) (isr : IsrSlot) → Covers s p (update_register isr s p).0
unfolding update_register
Covers-self s p isr = elim (dec_lt s isr.step) [
  | yes lt ↦ inl (ground arith)
  | no ge ↦ inr (ground arith, ground (arith, less_irrefl p))
]

Covers-replay :
    (h after : List Invocation) (s : ℕ) (p : Proposal) → Covers s p (replay (after ++ ((s, p) ∷ h)))
unfolding replay
Covers-replay h [] s p = Covers-self s p (replay h)
Covers-replay h ((t, q) ∷ after) s p =
    Covers-update s t p q (replay (after ++ ((s, p) ∷ h))) (Covers-replay h after s p)

Covers-unchanged :
    (s : ℕ) (p : Proposal) (isr : IsrSlot) → Covers s p isr → update_register isr s p ≡ (isr, false)
unfolding update_register
Covers-unchanged s p isr (inl lt) = ground arith
Covers-unchanged s p isr (inr (e, c)) = ground arith

-- A proposal that has been recorded, or refused as stale, is answered as a repetition: whatever
-- came since, the register reports no change and stays as it is.
pub replay_again :
    (h after : List Invocation) (s : ℕ) (p : Proposal)
    → update_register (replay (after ++ ((s, p) ∷ h))) s p ≡ (replay (after ++ ((s, p) ∷ h)), false)
replay_again h after s p = Covers-unchanged s p _ (Covers-replay h after s p)
