-- ===== src/Replica/Waking/Early.antt =====
-- `next_wakeup` against `tick`: before the deadline that the one names, the other has nothing due.
use raxos.Prelude.{
  ℕ, ◌≤◌, ◌<◌, ◌≡◌, refl, sym, ap, subst, ◌∙◌, false, not, ◌&&◌, ◌⊎◌, none, some, [], ◌∷◌,
  if◌then◌else◌, saturating_add, ran, chain,
}
use raxos.Prelude.Map.{Map}
use raxos.Prelude.Ordered.{nat_ord}
use raxos.Types.{Slot, CommandId, next}
use raxos.Proposer.{ProposerState, idle, running, done}
use raxos.Pool.{PoolEntry}
use raxos.Replica.{Replica, SlotState, size, is_leader}
use raxos.Replica.Timers.{forward_interval}
use raxos.Replica.Opening.{maybe_open_slots}
use raxos.Replica.Hedging.{
  hedge_due, hedge_activate_due, settle_pending, is_stale, stale_slots, retransmit_due,
  activate_each, redrive_each,
}
use raxos.Replica.Forwarding.{is_own, reforward_due}
use raxos.Replica.Inputs.{tick}
use raxos.Replica.Waking.{
  sooner, slots_deadline, frontier_deadline, forward_deadline, learn_deadline, ping_deadline,
  next_wakeup,
}
use raxos.Replica.Waking.Deadlines.{
  IsBefore, IsBefore-sooner, slots_deadline-due, frontier_deadline-due, forward_deadline-due,
  learn_deadline-due, ping_deadline-due,
}

-- The mark of waiting commands is read by none of the other timers.
is_stale-settle_pending :
    (now : ℕ) (p : ProposerState) (r : Replica)
    → is_stale now p (settle_pending r) ≡ is_stale now p r
is_stale-settle_pending now idle r = refl
is_stale-settle_pending now (running run) r = refl
is_stale-settle_pending now done r = refl

stale_slots-settle_pending :
    (now : ℕ) (from : Slot) (slots : Map Slot SlotState) (r : Replica)
    → stale_slots now from slots (settle_pending r) ≡ stale_slots now from slots r
unfolding stale_slots
stale_slots-settle_pending now from [] r = refl
stale_slots-settle_pending now from ((slot, state) ∷ slots) r =
    rw (stale_slots-settle_pending now from slots r, is_stale-settle_pending now state.proposer r)
      refl

forward_deadline-settle_pending :
    (entries : Map CommandId PoolEntry) (r : Replica)
    → forward_deadline entries (settle_pending r) ≡ forward_deadline entries r
unfolding forward_deadline forward_interval
forward_deadline-settle_pending [] r = refl
forward_deadline-settle_pending ((id, entry) ∷ entries) r =
    ap
      (sooner (
        if is_own id entry r && not (is_leader r)
        then some (saturating_add entry.last_forward (forward_interval r))
        else none))
      (forward_deadline-settle_pending entries r)

module _ (fuel now : ℕ) (r : Replica) where
  hedge_activate_due-none :
      hedge_due now (next r.decided_contig) r.slots r ≡ []
      → hedge_activate_due fuel now r ≡ ran (settle_pending r)
  unfolding hedge_activate_due activate_each
  hedge_activate_due-none e =
      ap (λ due. chain (activate_each fuel now due r) (λ after. ran (settle_pending after))) e

  retransmit_due-none :
      stale_slots now (next r.decided_contig) r.slots r ≡ [] → retransmit_due fuel now r ≡ ran r
  unfolding retransmit_due redrive_each
  retransmit_due-none e = ap (λ stale. redrive_each fuel now stale r) e

  maybe_open_slots-follower : is_leader r ≡ false → maybe_open_slots fuel now r ≡ ran r
  unfolding maybe_open_slots
  maybe_open_slots-follower l = rw l refl

  reforward_due-none :
      is_leader r ≡ false
      → 0 < r.config.retransmit_delay
      → IsBefore now (forward_deadline r.pool.entries r)
      → reforward_due now r ≡ some r
  unfolding reforward_due
  reforward_due-none l d h =
      rw (l, forward_deadline-due now r r.pool.entries (record { chunks = []; filling = [] }) d h l)
        refl

-- A tick before the time that `next_wakeup` names, or at any time if it names none, does nothing
-- at a member that is not the leader but to drop the mark of waiting commands where none is left:
-- no proposer is started or driven again, and no message is sent. So sleeping until the wakeup
-- misses nothing. The clock must not have gone back behind that mark, and the retransmission
-- delay must be positive, as `Config` makes it.
pub tick-next_wakeup :
    (fuel now : ℕ) (r : Replica)
    → is_leader r ≡ false
    → IsBefore now (next_wakeup r)
    → 0 < r.config.retransmit_delay
    → 0 < size r
    → (r.pool_pending_since ≡ none)
      ⊎ ((since : ℕ) × (r.pool_pending_since ≡ some since) × (since ≤ now))
    → tick fuel now r ≡ ran (settle_pending r)
unfolding tick next_wakeup learn_deadline ping_deadline
tick-next_wakeup fuel now r l h d n past =
    let (slots, h1) = IsBefore-sooner now (slots_deadline (next r.decided_contig) r.slots r) _ h in
    let (frontier, h2) = IsBefore-sooner now (frontier_deadline r) _ h1 in
    let (forwards, h3) = IsBefore-sooner now (forward_deadline r.pool.entries r) _ h2 in
    let (learns, pings) = IsBefore-sooner now (learn_deadline r) (ping_deadline r) h3 in
    let (no_hedge, no_stale) = slots_deadline-due now (next r.decided_contig) r.slots r d slots in
    let q = settle_pending r in
    let stale = stale_slots-settle_pending now (next r.decided_contig) r.slots r ∙ no_stale in
    let forwards' : IsBefore now (forward_deadline q.pool.entries q) =
      subst (IsBefore now) (sym (forward_deadline-settle_pending r.pool.entries r)) forwards in
    rw
      (
        frontier_deadline-due now r frontier past,
        hedge_activate_due-none fuel now r no_hedge,
        maybe_open_slots-follower fuel now q l,
        retransmit_due-none fuel now q stale,
        reforward_due-none fuel now q l d forwards',
        learn_deadline-due now q d learns,
        ping_deadline-due now q pings n,
      )
      refl
