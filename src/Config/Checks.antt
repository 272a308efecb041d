-- ===== src/Config/Checks.antt =====
-- What `new` accepts and what it answers otherwise, and the bounds that the setters keep.
use raxos.Prelude.{
  ℕ, zero, suc, ◌^◌, ◌≤◌, ◌<◌, ◌≡◌, ◌≢◌, inl, inr, refl, sym, subst, ap, ◌∙◌, true, false,
  Bool-cases, List, [], ◌∷◌, All, ◌==◌, Result, ok, err, arith,
}
use raxos.Prelude.Sorting.{
  sort, has, occurrences, IsAscending, IsStrict, sort-Perm, sort-IsAscending, has-sort, sort_empty,
  has_below, has-head, occurrences-sort, sort-eq_of_Perm,
}
use mathlib.Core.List.{Perm}
use raxos.Types.{ReplicaId}
use raxos.Config.{
  Config, ConfigError, no_replicas, zero_replica_id, duplicate_replica_id, unknown_local_replica,
  any_adjacent, check_sorted, defaults, new, set_hedge_delay, set_retransmit_delay, set_pipeline,
  set_max_batch_bytes, set_max_pool_bytes, set_max_retained_bytes,
}

-- Ascending ids without equal neighbours ascend strictly.
IsStrict-of : (xs : List ℕ) → IsAscending xs → any_adjacent xs ≡ false → IsStrict xs
unfolding any_adjacent
IsStrict-of [] a h = tt
IsStrict-of (x ∷ []) a h = (tt, tt)
IsStrict-of (x ∷ y ∷ xs) a h =
    let s = IsStrict-of (y ∷ xs) a.1 (ground (arith, h)) in
    ((ground (arith, h, a.0), above x y xs (ground (arith, h, a.0)) s.0), s)
  where
    above : (x y : ℕ) (xs : List ℕ) → x < y → All (λ (z : ℕ). y < z) xs → All (λ (z : ℕ). x < z) xs
    above x y [] l a = tt
    above x y (z ∷ xs) l a = (omega (arith, a.0), above x y xs l a.1)

-- Equal neighbours are an id that occurs twice.
repeated_of : (xs : List ℕ) → any_adjacent xs ≡ true → (n : ℕ) × (2 ≤ occurrences n xs)
unfolding any_adjacent occurrences
repeated_of [] h = absurd (ground (arith, h))
repeated_of (x ∷ []) h = absurd (ground (arith, h))
repeated_of (x ∷ y ∷ xs) h = elim (Bool-cases (x == y)) [
  | inl e ↦ (x, ground (arith, e))
  | inr e ↦ let (n, m) = repeated_of (y ∷ xs) (ground (arith, h, e)) in (n, ground (arith, m))
]

positive_of : (x : ℕ) (xs : List ℕ) → x ≢ 0 → All (λ (y : ℕ). x ≤ y) xs → All (λ (y : ℕ). 0 < y) xs
positive_of x [] h a = tt
positive_of x (y ∷ xs) h a = (omega (arith, a.0), positive_of x xs h a.1)

-- The answers of `new` and what each says of the ids that were passed in.
pub data Answers (replicas : List ReplicaId) (me : ReplicaId) (seed : ℕ)
    : Result Config ConfigError → Type 0 where
  empty : replicas ≡ [] → Answers replicas me seed (err no_replicas)
  zero_id : has 0 replicas ≡ true → Answers replicas me seed (err zero_replica_id)
  repeated :
      (n : ℕ)
      → 2 ≤ occurrences n replicas
      → has 0 replicas ≡ false
      → Answers replicas me seed (err duplicate_replica_id)
  unknown :
      has me replicas ≡ false
      → has 0 replicas ≡ false
      → IsStrict (sort replicas)
      → Answers replicas me seed (err unknown_local_replica)
  accepted :
      (schedule : List ReplicaId)
      → Perm schedule replicas
      → IsStrict schedule
      → All (λ (r : ℕ). 0 < r) schedule
      → has me schedule ≡ true
      → Answers replicas me seed (ok (defaults schedule me seed))

not_zero : (x : ℕ) → (suc x == 0) ≡ false
not_zero x = ground arith

check_sorted-Answers :
    (replicas s : List ReplicaId) (me : ReplicaId) (seed : ℕ)
    → sort replicas ≡ s
    → Answers replicas me seed (check_sorted s me seed)
check_sorted-Answers replicas [] me seed e = empty (sort_empty replicas e)
check_sorted-Answers replicas (zero ∷ s) me seed e =
    zero_id (sym (has-sort 0 replicas) ∙ rw e (has-head 0 s))
check_sorted-Answers replicas (suc x ∷ s) me seed e =
    let a : IsAscending (suc x ∷ s) = subst IsAscending e (sort-IsAscending replicas) in
    let positive : has 0 replicas ≡ false =
      sym (has-sort 0 replicas) ∙ ap (λ l. has 0 l) e ∙ has_below 0 (suc x) s (omega arith) a.0 in
    elim (Bool-cases (any_adjacent (suc x ∷ s))) [
      | inl d ↦
          let (n, m) = repeated_of (suc x ∷ s) d in
          rw (not_zero x, d)
            (repeated n
              (subst (λ k. 2 ≤ k) (sym (ap (λ l. occurrences n l) e) ∙ occurrences-sort n replicas)
                m)
              positive)
      | inr d ↦
          let strict = IsStrict-of (suc x ∷ s) a d in
          elim (Bool-cases (has me (suc x ∷ s))) [
            | inl k ↦
                rw (not_zero x, d, k)
                  (accepted (suc x ∷ s) (subst (λ l. Perm l replicas) e (sort-Perm replicas)) strict
                    (omega arith, positive_of (suc x) s (omega arith) a.0) k)
            | inr k ↦
                rw (not_zero x, d, k)
                  (unknown (sym (has-sort me replicas) ∙ ap (λ l. has me l) e ∙ k) positive
                    (subst IsStrict (sym e) strict))
          ]
    ]

-- `new` accepts ids that are all there, positive, different and hold the local one, and then
-- keeps them in ascending order with the defaults; otherwise its error names the first of the
-- four defects that the ids have.
pub new-Answers :
    (replicas : List ReplicaId) (me : ReplicaId) (seed : ℕ)
    → Answers replicas me seed (new replicas me seed)
unfolding new
new-Answers replicas me seed = check_sorted-Answers replicas (sort replicas) me seed refl

-- The answer does not depend on the order in which the ids are passed.
pub new_any_order :
    (xs ys : List ReplicaId) (me : ReplicaId) (seed : ℕ)
    → Perm xs ys
    → new xs me seed ≡ new ys me seed
unfolding new
new_any_order xs ys me seed p = ap (λ s. check_sorted s me seed) (sort-eq_of_Perm p)

-- The bounds that the rest of the code relies on: delays of at most 2^55 ns, a retransmission
-- delay of at least 1 ms, and limits that are not zero.
abbrev pub IsClamped : Config → Type 0
IsClamped c =
    (c.hedge_delay ≤ 2 ^ 55)
    × (1000000 ≤ c.retransmit_delay)
    × (c.retransmit_delay ≤ 2 ^ 55)
    × (1 ≤ c.pipeline)
    × (1 ≤ c.max_batch_bytes)
    × (c.max_batch_bytes ≤ 2 ^ 30)
    × (1 ≤ c.max_pool_bytes)
    × (1 ≤ c.max_retained_bytes)

-- Every setter keeps the bounds, whatever it is given, 0 and `Duration::MAX` included.
pub setters-IsClamped :
    (c : Config) (n : ℕ)
    → IsClamped c
    → IsClamped (set_hedge_delay c n)
      × IsClamped (set_retransmit_delay c n)
      × IsClamped (set_pipeline c n)
      × IsClamped (set_max_batch_bytes c n)
      × IsClamped (set_max_pool_bytes c n)
      × IsClamped (set_max_retained_bytes c n)
unfolding set_hedge_delay set_retransmit_delay set_pipeline set_max_batch_bytes set_max_pool_bytes
    set_max_retained_bytes
setters-IsClamped c n h = ground (arith, h)

pub defaults-IsClamped :
    (replicas : List ReplicaId) (me : ReplicaId) (seed : ℕ) → IsClamped (defaults replicas me seed)
defaults-IsClamped replicas me seed = ground arith
