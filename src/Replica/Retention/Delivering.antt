-- ===== src/Replica/Retention/Delivering.antt =====
-- `try_deliver`: which slots it delivers, with which commands.
use raxos.Prelude.{
  ℕ, zero, suc, ◌≤◌, ◌<◌, ◌≡◌, inl, inr, sym, ap, subst, ◌∙◌, Bool-cases, none, some, Option-cases,
  List, [], ◌∷◌, ◌++◌, append-nil, append_assoc, Bytes, length, length-set, set, IsU64, ltb, arith,
  u64_mod,
}
use raxos.Prelude.Map
use raxos.Prelude.Map.{Map}
use raxos.Prelude.Ordered.{nat_ord}
use raxos.Types.{Slot, next, id_ord}
use raxos.Pool.Dedup.{Dedup}
use raxos.Replica.{Replica, Action, deliver, refresh_pool_pending}
use raxos.Replica.Retention.{
  batch_of, deliver_batch, deliver_next, deliver_loop, ack_self, try_deliver,
}
use raxos.Replica.Retention.Freeing.{IsWithinBudget, maybe_gc-IsRetaining}
use raxos.Replica.Retention.Retaining.{IsRetaining}
use raxos.Replica.Retention.Batches.{
  Shrinks, deliver_batch-Shrinks, stuck, onward, deliver_batch_lem, Delivers, beyond,
  beyond-le-length, beyond-suc,
}

-- A retained slot is beyond the floor, so that the next slot is no wrap-around.
next_retained :
    (r : Replica) (v : Bytes)
    → IsRetaining r
    → Map.get r.retained (next r.decided_contig) ≡ some v
    → (next r.decided_contig ≡ suc r.decided_contig) × IsU64 (suc r.decided_contig)
next_retained r v h e = elim (Bool-cases (ltb (suc r.decided_contig) u64_mod)) [
  | inl d ↦ (ground (arith, d), ground (arith, d))
  | inr d ↦
      let wrapped : next r.decided_contig ≡ 0 = ground (arith, d, h.word) in
      absurd (ground (arith, h.freed 0 (omega arith), ap (λ s. Map.get r.retained s) wrapped, e))
]

deliver_next-IsRetaining :
    (r : Replica) (v w : Bytes)
    → IsRetaining r
    → Map.get r.retained (next r.decided_contig) ≡ some v
    → IsRetaining (deliver_next w r)
deliver_next-IsRetaining r v w h e =
    let (at, word) = next_retained r v h e in
    record {
      sorted = h.sorted;
      counted = h.counted;
      kept = λ s l b z. ground (
        arith,
        at,
        b,
        z,
        h.kept s l,
        e,
        λ (q : s ≡ next r.decided_contig). ap (λ t. Map.get r.retained t) q,
      );
      freed = h.freed;
      behind = omega (arith, at, h.behind);
      word = omega (arith, at, word);
    }

-- `r'` is `r` with `later` delivered and the frontier, the delivered set and the pool moved on.
pub record Advances (r r' : Replica) (later : List Action) : Type 0 where
  pub delivers : Delivers r.retained r.decided_contig r.dedup later r'.decided_contig r'.dedup
  pub pool : Shrinks r.pool.entries r'.pool.entries
  pub rest : r' ≡ record r {
    decided_contig = r'.decided_contig;
    dedup = r'.dedup;
    pool = r'.pool;
    actions = r.actions ++ later;
  }

deliver_next-Advances :
    (r : Replica) (v : Bytes) (r' : Replica) (later : List Action)
    → IsRetaining r
    → Map.get r.retained (next r.decided_contig) ≡ some v
    → Advances (deliver_next v r) r' later
    → Advances r r'
        (deliver (suc r.decided_contig) (deliver_batch (batch_of v) r.dedup r.pool).0 ∷ later)
deliver_next-Advances r v r' later h e a =
    let (at, word) = next_retained r v h e in
    let (handed, after) = deliver_batch_lem (batch_of v) r.dedup r.pool in
    record {
      delivers =
          onward r.decided_contig r.dedup v _ later r'.decided_contig r'.dedup
            (ap (λ s. Map.get r.retained s) (sym at) ∙ e) handed
            (subst
              (λ d. Delivers r.retained (suc r.decided_contig) d later r'.decided_contig r'.dedup)
              after
              (subst
                (λ s.
                  Delivers r.retained s (deliver_batch (batch_of v) r.dedup r.pool).1.0 later
                    r'.decided_contig r'.dedup)
                at a.delivers));
      pool = λ id entry z.
          deliver_batch-Shrinks (batch_of v) r.dedup r.pool id entry (a.pool id entry z);
      rest =
          a.rest
          ∙ ap
              (λ xs. record r {
                decided_contig = r'.decided_contig;
                dedup = r'.dedup;
                pool = r'.pool;
                actions = xs;
              })
              (append_assoc r.actions _ later
                ∙ ap
                    (λ s.
                      r.actions
                      ++ (deliver s (deliver_batch (batch_of v) r.dedup r.pool).0 ∷ later))
                    at);
    }

-- A frontier whose next slot is missing stays.
stays : (r : Replica) → Map.get r.retained (next r.decided_contig) ≡ none → Advances r r []
stays r e = record {
  delivers = stuck r.decided_contig r.dedup e;
  pool = λ id entry z. z;
  rest = ap (λ xs. record r { actions = xs }) (sym (append-nil r.actions));
}

deliver_loop-Advances :
    (fuel : ℕ) (r : Replica)
    → IsRetaining r
    → beyond r.decided_contig r.retained ≤ fuel
    → IsRetaining (deliver_loop fuel r)
      × (later : List Action) × Advances r (deliver_loop fuel r) later
unfolding deliver_loop
deliver_loop-Advances zero r h f =
    elim (Option-cases (Map.get r.retained (next r.decided_contig))) [
      | inl e ↦ (h, [], stays r e)
      | inr (v, e) ↦
          let (at, word) = next_retained r v h e in
          absurd (
            omega (
              arith,
              beyond-suc r.decided_contig r.retained v
                  (ap (λ s. Map.get r.retained s) (sym at) ∙ e),
            ))
    ]
deliver_loop-Advances (suc fuel) r h f =
    elim (Option-cases (Map.get r.retained (next r.decided_contig))) [
      | inl e ↦ rw (e, deliver_loop) (h, [], stays r e)
      | inr (v, e) ↦
          let (at, word) = next_retained r v h e in
          let smaller =
            beyond-suc r.decided_contig r.retained v
              (ap (λ s. Map.get r.retained s) (sym at) ∙ e) in
          let (kept, later, a) =
            deliver_loop-Advances fuel (deliver_next v r) (deliver_next-IsRetaining r v v h e)
              (rw at (omega (arith, smaller))) in
          rw (e, deliver_loop) (kept, _, deliver_next-Advances r v _ later h e a)
    ]

-- Above the floor of `r'`, the slots and the retained values are as in `r`; and the pool has no
-- entry that is new or changed.
pub record KeepsAbove (r r' : Replica) : Type 0 where
  pub retained : (s : Slot) → r'.gc_floor < s → Map.get r'.retained s ≡ Map.get r.retained s
  pub slots : (s : Slot) → r'.gc_floor < s → Map.get r'.slots s ≡ Map.get r.slots s
  pub pool : Shrinks r.pool.entries r'.pool.entries

-- `try_deliver` does not panic. It delivers, in their order and without a gap, all retained
-- slots from the one after the frontier up to the first that is missing, each with the commands
-- of its value that are new at that point of the log; only then it frees what may go, and the
-- retained values are without a gap again and their size exact. Above the floor no value and no
-- slot state is touched, and no entry of the pool is new or changed.
pub try_deliver-Advances :
    (now : ℕ) (r : Replica)
    → IsRetaining r
    → r.me_idx < length r.peer_acked
    → (r' : Replica) × (later : List Action) × (try_deliver now r ≡ some r')
      × (r'.actions ≡ r.actions ++ later)
      × Delivers r.retained r.decided_contig r.dedup later r'.decided_contig r'.dedup
      × IsRetaining r'
      × IsWithinBudget r'
      × KeepsAbove r r'
unfolding try_deliver refresh_pool_pending
try_deliver-Advances now r h i =
    let l = deliver_loop (length r.retained) r in
    let (kept, later, a) =
      deliver_loop-Advances (length r.retained) r h
        (beyond-le-length r.decided_contig r.retained) in
    let settled = refresh_pool_pending now (ack_self l) in
    let retaining : IsRetaining settled = record {
      sorted = kept.sorted;
      counted = kept.counted;
      kept = kept.kept;
      freed = kept.freed;
      behind = kept.behind;
      word = kept.word;
    } in
    let in_range : l.me_idx < length (set l.peer_acked l.me_idx l.decided_contig) =
      rw
        (
          length-set l.peer_acked l.me_idx l.decided_contig,
          ap (λ (x : Replica). x.me_idx) a.rest,
          ap (λ (x : Replica). x.peer_acked) a.rest,
        )
        i in
    let (r', floor, at, _, kept', frees, _, within, _) =
      maybe_gc-IsRetaining settled retaining in_range in
    let acts : r'.actions ≡ r.actions ++ later =
      ap (λ (x : Replica). x.actions) frees.rest ∙ ap (λ (x : Replica). x.actions) a.rest in
    let delivers : Delivers r.retained r.decided_contig r.dedup later r'.decided_contig r'.dedup =
      subst (λ (x : Slot × Dedup). Delivers r.retained r.decided_contig r.dedup later x.0 x.1)
        (sym (ap (λ (x : Replica). (x.decided_contig, x.dedup)) frees.rest)) a.delivers in
    let keeps : KeepsAbove r r' = record {
      retained = λ s l. frees.above s l ∙ ap (λ (x : Replica). Map.get x.retained s) a.rest;
      slots = λ s l.
          frees.dropped s ∙ ground (arith, l) ∙ ap (λ (x : Replica). Map.get x.slots s) a.rest;
      pool = λ id entry z.
          a.pool id entry (ap (λ (x : Replica). Map.get x.pool.entries id) (sym frees.rest) ∙ z);
    } in
    (r', later, at, acts, delivers, kept', within, keeps)
