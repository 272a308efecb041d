-- ===== src/Replica/Waking/Deadlines.antt =====
-- The deadlines of `next_wakeup`, one timer at a time.
use raxos.Prelude.{
  ℕ, ◌≤◌, ◌<◌, ◌≡◌, inl, inr, refl, ap, ◌∙◌, true, false, not, ◌&&◌, ◌⊎◌, Bool-cases, Option, none,
  some, List, [], ◌∷◌, leb, if◌then◌else◌, saturating_add, arith,
}
use raxos.Prelude.Map.{Map}
use raxos.Prelude.Ordered.{nat_ord}
use raxos.Types.{Slot, CommandId}
use raxos.Proposer.{ProposerState, idle, running, done}
use raxos.Pool.{PoolEntry}
use raxos.Replica.{Replica, SlotState, size, is_leader}
use raxos.Replica.Timers.{
  ahead, ask, ask_unless, expire, is_expired, forward_interval, ensure_frontier_observed,
  learn_tick, ping_tick,
}
use raxos.Replica.Opening.{is_idle, is_decided}
use raxos.Replica.Hedging.{hedge_deadline, hedge_due, is_stale, stale_slots}
use raxos.Replica.Forwarding.{Outbox, is_own, is_forward_due, reforward}
use raxos.Replica.Waking.{
  slot_deadline, sooner, slots_deadline, frontier_deadline, forward_deadline, is_nil,
  learn_deadline, ping_deadline,
}

-- `now` is before the deadline, if there is one.
abbrev pub IsBefore : ℕ → Option ℕ → Type 0
IsBefore now none = Unit {0}
IsBefore now (some deadline) = now < deadline

pub IsBefore-sooner :
    (now : ℕ) (a b : Option ℕ) → IsBefore now (sooner a b) → IsBefore now a × IsBefore now b
IsBefore-sooner now none b h = (tt, h)
IsBefore-sooner now (some a) none h = (h, tt)
IsBefore-sooner now (some a) (some b) h = (omega (arith, h), omega (arith, h))

slot_deadline-due :
    (now : ℕ) (state : SlotState) (p : ProposerState) (r : Replica)
    → 0 < r.config.retransmit_delay
    → IsBefore now (slot_deadline state p r)
    → (((is_idle p && not (is_decided state.recorder)) && leb (hedge_deadline state r) now) ≡ false)
      × (is_stale now p r ≡ false)
slot_deadline-due now state idle r d h = (ground (arith, h), refl)
slot_deadline-due now state (running run) r d h = (refl, ground (arith, h, d))
slot_deadline-due now state done r d h = (refl, refl)

pub slots_deadline-due :
    (now : ℕ) (from : Slot) (slots : Map Slot SlotState) (r : Replica)
    → 0 < r.config.retransmit_delay
    → IsBefore now (slots_deadline from slots r)
    → (hedge_due now from slots r ≡ []) × (stale_slots now from slots r ≡ [])
unfolding slots_deadline hedge_due stale_slots
slots_deadline-due now from [] r d h = (refl, refl)
slots_deadline-due now from ((slot, state) ∷ slots) r d h =
    let (own, others) =
      IsBefore-sooner now (if leb from slot then slot_deadline state state.proposer r else none)
        (slots_deadline from slots r) h in
    let (hedges, stales) = slots_deadline-due now from slots r d others in
    elim (Bool-cases (leb from slot)) [
      | inr e ↦ (rw e hedges, rw e stales)
      | inl e ↦
          let (no_hedge, fresh) = slot_deadline-due now state state.proposer r d (rw e at own) in
          (rw (e, no_hedge) hedges, rw (e, fresh) stales)
    ]

-- The frontier slot is there, or nothing needs it; `past` says that the clock does not go back.
pub frontier_deadline-due :
    (now : ℕ) (r : Replica)
    → IsBefore now (frontier_deadline r)
    → (r.pool_pending_since ≡ none)
      ⊎ ((since : ℕ) × (r.pool_pending_since ≡ some since) × (since ≤ now))
    → ensure_frontier_observed now r ≡ r
unfolding frontier_deadline ensure_frontier_observed
frontier_deadline-due now r h (inl e) = ground (arith, h, e)
frontier_deadline-due now r h (inr (since, e, le)) = ground (arith, h, e, le)

pub forward_deadline-due :
    (now : ℕ) (r : Replica) (entries : Map CommandId PoolEntry) (box : Outbox)
    → 0 < r.config.retransmit_delay
    → IsBefore now (forward_deadline entries r)
    → is_leader r ≡ false
    → reforward now r entries box ≡ (entries, box)
unfolding forward_deadline reforward
forward_deadline-due now r [] box d h l = refl
forward_deadline-due now r ((id, entry) ∷ entries) box d h l =
    let (own, others) =
      IsBefore-sooner now
        (if is_own id entry r && not (is_leader r)
          then some (saturating_add entry.last_forward (forward_interval r))
          else none)
        (forward_deadline entries r) h in
    let not_due : is_forward_due now id entry r ≡ false = elim (Bool-cases (is_own id entry r)) [
      | inr e ↦ rw e refl
      | inl e ↦
          let later : now < saturating_add entry.last_forward (forward_interval r) =
            rw (e, l) at own in
          rw e (unfold forward_interval in ground (arith, later, d))
    ] in
    rw not_due (
      ap (λ (x : _ × Outbox). ((id, entry) ∷ x.0, x.1))
        (forward_deadline-due now r entries box d others l))

empty_of_is_nil : (xs : List ℕ) → is_nil xs ≡ true → xs ≡ []
empty_of_is_nil [] e = refl
empty_of_is_nil (x ∷ xs) e = absurd (ground (arith, e))

-- By the request in flight.
learn_deadline-at :
    (now : ℕ) (r : Replica) (o : Option (ℕ × ℕ))
    → r.learn_in_flight ≡ o
    → 0 < r.config.retransmit_delay
    → IsBefore now (learn_deadline r)
    → (is_expired now r ≡ false) × (ask_unless o now r ≡ some r)
unfolding learn_deadline
learn_deadline-at now r none e d h = (
  rw e refl,
  elim (Bool-cases (is_nil (ahead r))) [
    | inl n ↦ ap (λ xs. ask now xs r) (empty_of_is_nil (ahead r) n)
    | inr n ↦ let never : now < 0 = rw (e, n) at h in absurd (omega (arith, never))
  ],
)
learn_deadline-at now r (some (idx, sent_at)) e d h =
    let later : now < saturating_add sent_at r.config.retransmit_delay = rw e at h in
    (rw e (ground (arith, later, d)), refl)

pub learn_deadline-due :
    (now : ℕ) (r : Replica)
    → 0 < r.config.retransmit_delay
    → IsBefore now (learn_deadline r)
    → learn_tick now r ≡ some r
unfolding learn_tick
learn_deadline-due now r d h =
    let (waits, asks) = learn_deadline-at now r r.learn_in_flight refl d h in
    let kept : expire now r ≡ r = rw waits refl in
    ap (λ (x : Replica). ask_unless x.learn_in_flight now x) kept ∙ asks

pub ping_deadline-due :
    (now : ℕ) (r : Replica) → IsBefore now (ping_deadline r) → 0 < size r → ping_tick now r ≡ some r
unfolding ping_deadline ping_tick
ping_deadline-due now r h n = ground (arith, h, n)
