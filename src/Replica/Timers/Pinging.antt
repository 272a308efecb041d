-- ===== src/Replica/Timers/Pinging.antt =====
-- `ping_tick`: a ping to every other member, once in an interval.
use raxos.Prelude.{
  ℕ, ◌-◌, ◌≤◌, ◌<◌, ◌≡◌, ◌≢◌, ◌⊎◌, inl, inr, refl, Bool-cases, some, ◌++◌, leb, ◌==◌, arith,
}
use raxos.Wire.{ping}
use raxos.Replica.{others, Replica, message_of, size, ping_interval}
use raxos.Replica.Sending.{to_each, others-lt, send_all-to_each}
use raxos.Replica.Timers.{ping_tick}

-- A tick does not panic. In a group of one, or before the interval is over, it does nothing;
-- otherwise it notes the time and sends one ping to each other member, in the order of the
-- schedule, and changes nothing else.
pub ping_tick-to_each :
    (now : ℕ) (r : Replica)
    → ((ping_tick now r ≡ some r) × ((size r ≡ 1) ⊎ (now - r.last_ping < ping_interval)))
      ⊎ ((ping_tick now r
            ≡ some (record r {
              last_ping = now;
              actions = r.actions ++ to_each r.config.replicas (message_of ping r) (others r);
            }))
          × (size r ≢ 1)
          × (ping_interval ≤ now - r.last_ping))
unfolding ping_tick
ping_tick-to_each now r = elim (Bool-cases (size r == 1)) [
  | inl e ↦ inl (rw (e, ping_tick) refl, inl (ground (arith, e)))
  | inr e ↦ elim (Bool-cases (leb ping_interval (now - r.last_ping))) [
    | inl d ↦ inr (
      rw (ping_tick, e, d)
          (send_all-to_each ping (others r) (record r { last_ping = now }) (others-lt r)),
      ground (arith, e),
      ground (arith, d),
    )
    | inr d ↦ inl (rw (ping_tick, e, d) refl, inr (ground (arith, d)))
  ]
]
