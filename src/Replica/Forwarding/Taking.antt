-- ===== src/Replica/Forwarding/Taking.antt =====
-- `on_forward`: which forwarded commands the pool takes in.
use raxos.Prelude.{
  ℕ, ◌+◌, ◌≤◌, ◌<◌, ◌≡◌, ◌⊎◌, inl, inr, refl, sym, ap, subst, ◌∙◌, true, false, ◌||◌, Bool-cases,
  Option, none, some, List, [], ◌∷◌, Bytes, length, ltb, All, All-map, Contains, max, ran, arith,
}
use raxos.Prelude.Map
use raxos.Prelude.Map.{Map, get-insert_self}
use raxos.Prelude.Ordered.{same, same_iff}
use raxos.Types.{CommandId, id_ord, max_command_bytes}
use raxos.Codec.{Command}
use raxos.Pool
use raxos.Pool.{PoolEntry, cost, new_entry}
use raxos.Pool.Dedup.{is_delivered}
use raxos.Replica.{Replica, is_leader, refresh_pool_pending}
use raxos.Replica.Batching.Keeping.{Keeps, Keeps-refl, Keeps-trans}
use raxos.Replica.Opening.Pipeline.{IsPipelined, IsFull, refresh_pool_pending-IsPipelined}
use raxos.Replica.Opening.Ending.{maybe_open_slots-Opens}
use raxos.Replica.Forwarding.{pooled, is_pool_full, is_pooled, take_one, take_in, on_forward}
use raxos.Replica.Forwarding.Pooling.{Holds, pooled-Holds, pooled_fits, pooled-IsPipelined}

-- What becomes of a command of the message `commands`, which `r` took in, with the pool as it is in
-- `r'`: it had been delivered, or the pool had it, or it has been put into the pool with its bytes,
-- or with those of another command of the message under the same id; or it is too long, or the
-- pool has no room for it.
abbrev pub IsTaken : List Command → Replica → Replica → Command → Type 0
IsTaken commands r r' (id, bytes) =
    (is_delivered r.dedup id ≡ true)
    ⊎ (is_pooled id r ≡ true)
    ⊎ ((own : Bytes) × Contains (id, own) commands × Holds id own r')
    ⊎ (max_command_bytes < length bytes)
    ⊎ (r.config.max_pool_bytes < r'.pool.bytes + cost (length bytes))

-- From `r` to `r'` only the pool has grown, and not beyond its limit.
pub record Grows (r r' : Replica) : Type 0 where
  pub alike : r' ≡ record r { pool = r'.pool }
  pub keeps : Keeps r.pool.entries r'.pool.entries
  pub grown : r.pool.bytes ≤ r'.pool.bytes
  pub fits : r'.pool.bytes ≤ max r.pool.bytes r.config.max_pool_bytes

Grows-refl : (r : Replica) → Grows r r
Grows-refl r = record {
  alike = refl;
  keeps = Keeps-refl r.pool.entries;
  grown = omega arith;
  fits = omega arith;
}

Grows-trans : (a b c : Replica) → Grows a b → Grows b c → Grows a c
Grows-trans a b c ab bc =
    let config : b.config.max_pool_bytes ≡ a.config.max_pool_bytes =
      ap (λ (x : Replica). x.config.max_pool_bytes) ab.alike in
    record {
      alike = bc.alike ∙ ap (λ (x : Replica). record x { pool = c.pool }) ab.alike;
      keeps = Keeps-trans a.pool.entries b.pool.entries c.pool.entries ab.keeps bc.keeps;
      grown = omega (arith, ab.grown, bc.grown);
      fits = omega (arith, ab.fits, bc.fits, config);
    }

-- One command that is not there yet and fits.
pooled-Grows :
    (now : ℕ) (id : CommandId) (bytes : Bytes) (r : Replica)
    → is_pooled id r ≡ false
    → is_pool_full bytes r ≡ false
    → Grows r (pooled now id bytes r)
pooled-Grows now id bytes r new room = record {
  alike = refl;
  keeps = λ other entry e. elim (Bool-cases (same id other)) [
    | inl q ↦
        let at : Map.get r.pool.entries id ≡ some entry =
          ap (Map.get r.pool.entries) ((same_iff id other).0 q) ∙ e in
        absurd (ground (arith, new, at))
    | inr q ↦ (
      entry,
      (unfold Pool.insert in Map.get-insert r.pool.entries id other (new_entry bytes now) ∙ rw q e),
      refl,
    )
  ];
  grown = unfold Pool.insert in ground (arith, new);
  fits = omega (arith, pooled_fits now id bytes r room);
}

-- One round: what becomes of the command.
take_one-Grows :
    (now : ℕ) (id : CommandId) (bytes : Bytes) (r : Replica)
    → IsPipelined r
    → Grows r (take_one now id bytes r)
      × IsPipelined (take_one now id bytes r)
      × IsTaken ((id, bytes) ∷ []) r (take_one now id bytes r) (id, bytes)
take_one-Grows now id bytes r h =
    let known = is_delivered r.dedup id || is_pooled id r in
    let refused = ltb max_command_bytes (length bytes) || is_pool_full bytes r in
    elim (Bool-cases known) [
      | inl a ↦ rw a (Grows-refl r, h, ground (arith, a))
      | inr a ↦ elim (Bool-cases refused) [
        | inl b ↦ rw (a, b) (Grows-refl r, h, inr (inr (inr (ground (arith, b)))))
        | inr b ↦
            rw (a, b)
              (
                pooled-Grows now id bytes r (ground (arith, a)) (ground (arith, b)),
                pooled-IsPipelined now id bytes r h,
                inr (inr (inl (bytes, inl refl, pooled-Holds now id bytes r))),
              )
      ]
    ]

-- A pool that has grown still holds what it held.
Holds-Keeps :
    (id : CommandId) (bytes : Bytes) (r r' : Replica)
    → Keeps r.pool.entries r'.pool.entries
    → Holds id bytes r
    → Holds id bytes r'
Holds-Keeps id bytes r r' k (entry, e, same_bytes) =
    let (entry', e', s) = k id entry e in (entry', e', s ∙ same_bytes)

-- Whatever has become of a command stays so when the pool grows, and in a longer message.
IsTaken-Keeps :
    (commands more : List Command) (r mid r' : Replica) (c : Command)
    → ((d : Command) → Contains d commands → Contains d more)
    → Keeps mid.pool.entries r'.pool.entries
    → mid.pool.bytes ≤ r'.pool.bytes
    → IsTaken commands r mid c
    → IsTaken more r r' c
IsTaken-Keeps commands more r mid r' (id, bytes) all k grown (inl done) = inl done
IsTaken-Keeps commands more r mid r' (id, bytes) all k grown (inr (inl held)) = inr (inl held)
IsTaken-Keeps commands more r mid r' (id, bytes) all k grown (inr (inr (inl (own, c, h)))) =
    inr (inr (inl (own, all (id, own) c, Holds-Keeps id own mid r' k h)))
IsTaken-Keeps commands more r mid r' (id, bytes) all k grown (inr (inr (inr (inl long)))) =
    inr (inr (inr (inl long)))
IsTaken-Keeps commands more r mid r' (id, bytes) all k grown (inr (inr (inr (inr full)))) =
    inr (inr (inr (inr (omega (arith, full, grown)))))

-- What a round finds in the pool afterwards was there, or is its command.
pooled_before :
    (now : ℕ) (id other : CommandId) (bytes : Bytes) (r : Replica)
    → is_pooled other (pooled now id bytes r) ≡ true
    → (is_pooled other r ≡ true) ⊎ ((other ≡ id) × Holds other bytes (pooled now id bytes r))
pooled_before now id other bytes r held = elim (Bool-cases (same id other)) [
  | inl q ↦
      let is : id ≡ other = (same_iff id other).0 q in
      inr (
        sym is,
        subst (λ x. Holds x bytes (pooled now id bytes r)) is (pooled-Holds now id bytes r),
      )
  | inr q ↦
      let at : Map.get (pooled now id bytes r).pool.entries other ≡ Map.get r.pool.entries other =
        unfold Pool.insert in
        Map.get-insert r.pool.entries id other (new_entry bytes now) ∙ rw q refl in
      inl (ap (λ (o : Option PoolEntry). elim o [ none ↦ false | some x ↦ true ]) (sym at) ∙ held)
]

take_one_pooled :
    (now : ℕ) (id other : CommandId) (bytes : Bytes) (r : Replica)
    → is_pooled other (take_one now id bytes r) ≡ true
    → (is_pooled other r ≡ true) ⊎ ((other ≡ id) × Holds other bytes (take_one now id bytes r))
take_one_pooled now id other bytes r =
    elim (Bool-cases (is_delivered r.dedup id || is_pooled id r)) [
      | inl a ↦ rw a (λ held. inl held)
      | inr a ↦ elim (Bool-cases (ltb max_command_bytes (length bytes) || is_pool_full bytes r)) [
        | inl b ↦ rw (a, b) (λ held. inl held)
        | inr b ↦ rw (a, b) (pooled_before now id other bytes r)
      ]
    ]

-- What the first round has put in is of the message too.
IsTaken-after :
    (now : ℕ) (commands : List Command) (r r' : Replica) (c d : Command)
    → Grows r (take_one now c.0 c.1 r)
    → Keeps (take_one now c.0 c.1 r).pool.entries r'.pool.entries
    → IsTaken commands (take_one now c.0 c.1 r) r' d
    → IsTaken (c ∷ commands) r r' d
IsTaken-after now commands r r' (id, bytes) (other, own) g k (inl done) =
    inl (ap (λ (x : Replica). is_delivered x.dedup other) (sym g.alike) ∙ done)
IsTaken-after now commands r r' (id, bytes) (other, own) g k (inr (inl held)) =
    elim (take_one_pooled now id other bytes r held) [
      | inl old ↦ inr (inl old)
      | inr (is, h) ↦ inr (
          inr (
            inl (
              bytes,
              inl (ap (λ x. (x, bytes)) is),
              Holds-Keeps other bytes (take_one now id bytes r) r' k h,
            )))
    ]
IsTaken-after now commands r r' (id, bytes) (other, own) g k (inr (inr (inl (b, c, h)))) =
    inr (inr (inl (b, inr c, h)))
IsTaken-after now commands r r' (id, bytes) (other, own) g k (inr (inr (inr (inl long)))) =
    inr (inr (inr (inl long)))
IsTaken-after now commands r r' (id, bytes) (other, own) g k (inr (inr (inr (inr full)))) =
    let config : (take_one now id bytes r).config.max_pool_bytes ≡ r.config.max_pool_bytes =
      ap (λ (x : Replica). x.config.max_pool_bytes) g.alike in
    inr (inr (inr (inr (omega (arith, full, config)))))

take_in-Grows :
    (now : ℕ) (commands : List Command) (r : Replica)
    → IsPipelined r
    → Grows r (take_in now commands r)
      × IsPipelined (take_in now commands r)
      × All (IsTaken commands r (take_in now commands r)) commands
unfolding take_in
take_in-Grows now [] r h = (Grows-refl r, h, tt)
take_in-Grows now ((id, bytes) ∷ commands) r h =
    let (g, h1, t) = take_one-Grows now id bytes r h in
    let r1 = take_one now id bytes r in
    let (g', h', all) = take_in-Grows now commands r1 h1 in
    let r' = take_in now commands r1 in
    (
      Grows-trans r r1 r' g g',
      h',
      (
        IsTaken-Keeps ((id, bytes) ∷ []) ((id, bytes) ∷ commands) r r1 r' (id, bytes)
            (λ d c. elim c [ inl is ↦ inl is | inr other ↦ absurd other ]) g'.keeps g'.grown t,
        All-map (IsTaken commands r1 r') (IsTaken ((id, bytes) ∷ commands) r r')
            (λ d x. IsTaken-after now commands r r' (id, bytes) d g g'.keeps x) commands all,
      ),
    )

-- `on_forward` ends and does not panic, in a group of two or more with an open register for every
-- slot in order. Of every command of the message it holds: it had been delivered, or the pool had
-- it; or the pool has it afterwards, with its bytes or those of another command of the message
-- under the same id; or it is too long, or the pool as it is afterwards has no room for it. Nothing
-- that the pool held is lost, its bytes do not exceed its limit unless they did before, and the
-- delivered commands and the frontier stay. The leader goes on until its pipeline has no room or no
-- command may be claimed.
pub on_forward-Takes :
    (fuel now : ℕ) (commands : List Command) (r : Replica)
    → IsPipelined r
    → r.config.pipeline + 3 ≤ fuel
    → (r' : Replica) × (on_forward fuel now commands r ≡ ran r')
      × All (IsTaken commands r r') commands
      × Keeps r.pool.entries r'.pool.entries
      × (r.pool.bytes ≤ r'.pool.bytes)
      × (r'.pool.bytes ≤ max r.pool.bytes r.config.max_pool_bytes)
      × (r'.dedup ≡ r.dedup)
      × (r'.decided_contig ≡ r.decided_contig)
      × (IsFull r' ⊎ (is_leader r ≡ false))
unfolding on_forward refresh_pool_pending
on_forward-Takes fuel now commands r h enough =
    let (g, h1, all) = take_in-Grows now commands r h in
    let mid = take_in now commands r in
    let pipeline : mid.config.pipeline ≡ r.config.pipeline =
      ap (λ (x : Replica). x.config.pipeline) g.alike in
    let leads : is_leader mid ≡ is_leader r = ap is_leader g.alike in
    let (r', q, opens, _, done) =
      maybe_open_slots-Opens fuel now (refresh_pool_pending now mid)
        (refresh_pool_pending-IsPipelined now mid h1) (omega (arith, enough, pipeline)) in
    (
      r',
      q,
      All-map (IsTaken commands r mid) (IsTaken commands r r')
          (λ d x.
            IsTaken-Keeps commands commands r mid r' d (λ _ c. c) opens.keeps
              (omega (arith, opens.bytes)) x)
          commands all,
      Keeps-trans r.pool.entries mid.pool.entries r'.pool.entries g.keeps opens.keeps,
      omega (arith, g.grown, opens.bytes),
      omega (arith, g.fits, opens.bytes),
      opens.dedup ∙ ap (λ (x : Replica). x.dedup) g.alike,
      opens.frontier ∙ ap (λ (x : Replica). x.decided_contig) g.alike,
      elim done [ inl (_, f) ↦ inl f | inr (n, _) ↦ inr (sym leads ∙ n) ],
    )
