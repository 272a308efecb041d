-- ===== src/Replica/Retention/Lifetime.antt =====
-- `try_deliver` over the lifetime of a member, where the values that it retains are those of one
-- log: what it has delivered is the beginning of that log.
use raxos.Prelude.{
  ℕ, zero, suc, ◌+◌, ◌≤◌, ◌<◌, ◌-◌, ◌≡◌, ◌≢◌, ◌⊎◌, inl, inr, refl, sym, ap, ◌∙◌, some, some_inv,
  List, [], ◌∷◌, ◌++◌, Bytes, length, arith,
}
use native.Mathlib.Decide.{ℕ_discrete}
use raxos.Prelude.Map
use raxos.Prelude.Map.{Map}
use raxos.Prelude.Ordered.{nat_ord}
use raxos.Types.{Slot}
use raxos.Pool.Dedup.{Dedup, dedup_default}
use raxos.Replica.{Replica, Action, deliver}
use raxos.Replica.Retention.{batch_of, try_deliver}
use raxos.Replica.Retention.Retaining.{IsRetaining}
use raxos.Replica.Retention.Batches.{stuck, onward, Delivers, ids, marked, news}
use raxos.Replica.Retention.Delivering.{try_deliver-Advances}

-- The deliveries of `k` slots of a log after slot `s`, and the delivered set after them.
unfoldable pub told : (Slot → Bytes) → Slot → Dedup → ℕ → List Action
told chosen s d zero = []
told chosen s d (suc k) =
    deliver (suc s) (news d (batch_of (chosen (suc s))))
    ∷ told chosen (suc s) (marked d (ids (batch_of (chosen (suc s))))) k

unfoldable pub known : (Slot → Bytes) → Slot → Dedup → ℕ → Dedup
known chosen s d zero = d
known chosen s d (suc k) = known chosen (suc s) (marked d (ids (batch_of (chosen (suc s))))) k

told-add :
    (chosen : Slot → Bytes) (s : Slot) (d : Dedup) (j k : ℕ)
    → told chosen s d (j + k) ≡ told chosen s d j ++ told chosen (s + j) (known chosen s d j) k
unfolding told known
told-add chosen s d zero k =
    let b : s + 0 ≡ s = omega arith in let z : 0 + k ≡ k = omega arith in rw (b, z) refl
told-add chosen s d (suc j) k =
    let at : suc s + j ≡ s + suc j = omega arith in
    let d' = marked d (ids (batch_of (chosen (suc s)))) in
    let more : suc j + k ≡ suc (j + k) = omega arith in
    ap (λ n. told chosen s d n) more
    ∙ ap (λ xs. deliver (suc s) (news d (batch_of (chosen (suc s)))) ∷ xs)
        (told-add chosen (suc s) d' j k
          ∙ ap (λ t. told chosen (suc s) d' j ++ told chosen t (known chosen (suc s) d' j) k) at)

known-add :
    (chosen : Slot → Bytes) (s : Slot) (d : Dedup) (j k : ℕ)
    → known chosen s d (j + k) ≡ known chosen (s + j) (known chosen s d j) k
unfolding known
known-add chosen s d zero k =
    let b : s + 0 ≡ s = omega arith in let z : 0 + k ≡ k = omega arith in rw (b, z) refl
known-add chosen s d (suc j) k =
    let at : suc s + j ≡ s + suc j = omega arith in
    let d' = marked d (ids (batch_of (chosen (suc s)))) in
    let more : suc j + k ≡ suc (j + k) = omega arith in
    ap (λ n. known chosen s d n) more
    ∙ known-add chosen (suc s) d' j k
    ∙ ap (λ t. known chosen t (known chosen (suc s) d' j) k) at

-- Every value retained is the one of the log.
abbrev pub IsOf : (Slot → Bytes) → Map Slot Bytes → Type 0
IsOf chosen retained = (t : Slot) (v : Bytes) → Map.get retained t ≡ some v → v ≡ chosen t

Delivers-told :
    (chosen : Slot → Bytes) (retained : Map Slot Bytes) {s : Slot} {d : Dedup} {later : List Action}
    {s' : Slot} {d' : Dedup}
    → IsOf chosen retained
    → Delivers retained s d later s' d'
    → (k : ℕ) × (s' ≡ s + k) × (later ≡ told chosen s d k) × (d' ≡ known chosen s d k)
unfolding told known
Delivers-told chosen retained of (stuck s d e) = (0, omega arith, refl, refl)
Delivers-told chosen retained of (onward s d value commands later s' d' e handed rest) =
    let (k, to, acts, set) = Delivers-told chosen retained of rest in
    let is = of (suc s) value e in
    (
      suc k,
      omega (arith, to),
      ap (λ c. deliver (suc s) c ∷ later) handed
          ∙ ap (λ xs. deliver (suc s) (news d (batch_of value)) ∷ xs) acts
          ∙ ap
              (λ v.
                deliver (suc s) (news d (batch_of v))
                ∷ told chosen (suc s) (marked d (ids (batch_of v))) k)
              is,
      set ∙ ap (λ v. known chosen (suc s) (marked d (ids (batch_of v))) k) is,
    )

append_cancel {ℓ} : {A : Type ℓ} (xs : List A) {ys zs : List A} → xs ++ ys ≡ xs ++ zs → ys ≡ zs
append_cancel [] e = e
append_cancel (x ∷ xs) e = append_cancel xs (cc e)

-- The deliveries of a member since it began, its frontier and its delivered set: `try_deliver` ran
-- any number of times, on values of the log.
pub data Lifetime (chosen : Slot → Bytes) : List Action → Slot → Dedup → Type 0 where
  begins : Lifetime chosen [] 0 dedup_default
  delivers :
      (now : ℕ) (r r' : Replica) (before later : List Action)
      → Lifetime chosen before r.decided_contig r.dedup
      → IsRetaining r
      → r.me_idx < length r.peer_acked
      → IsOf chosen r.retained
      → try_deliver now r ≡ some r'
      → r'.actions ≡ r.actions ++ later
      → Lifetime chosen (before ++ later) r'.decided_contig r'.dedup

Lifetime-told :
    (chosen : Slot → Bytes) {done : List Action} {s : Slot} {d : Dedup}
    → Lifetime chosen done s d
    → (done ≡ told chosen 0 dedup_default s) × (d ≡ known chosen 0 dedup_default s)
unfolding told known
Lifetime-told chosen begins = (refl, refl)
Lifetime-told chosen (delivers now r r' before later life h i of e acts) =
    let (all, set) = Lifetime-told chosen life in
    let (r'', later', at, acts', run, _, _, _) = try_deliver-Advances now r h i in
    let same : r'' ≡ r' = some_inv (sym at ∙ e) in
    let less : later' ≡ later =
      append_cancel r.actions (sym acts' ∙ ap (λ (x : Replica). x.actions) same ∙ acts) in
    let (k, to, told_later, set') = Delivers-told chosen r.retained of run in
    let end : r'.decided_contig ≡ r.decided_contig + k =
      ap (λ (x : Replica). x.decided_contig) (sym same) ∙ to in
    let from : r.decided_contig ≡ 0 + r.decided_contig = omega arith in
    (
      ap (λ xs. xs ++ later) all
          ∙ ap (λ xs. told chosen 0 dedup_default r.decided_contig ++ xs) (sym less ∙ told_later)
          ∙ ap
              (λ x.
                told chosen 0 dedup_default r.decided_contig ++ told chosen r.decided_contig x k)
              set
          ∙ ap
              (λ t.
                told chosen 0 dedup_default r.decided_contig
                ++ told chosen t (known chosen 0 dedup_default r.decided_contig) k)
              from
          ∙ sym (
              ap (λ t. told chosen 0 dedup_default t) end
              ∙ told-add chosen 0 dedup_default r.decided_contig k),
      ap (λ (x : Replica). x.dedup) (sym same)
          ∙ set'
          ∙ ap (λ x. known chosen r.decided_contig x k) set
          ∙ ap (λ t. known chosen t (known chosen 0 dedup_default r.decided_contig) k) from
          ∙ sym (
              ap (λ t. known chosen 0 dedup_default t) end
              ∙ known-add chosen 0 dedup_default r.decided_contig k),
    )

-- What two members deliver is the same, as far as the one that has delivered less has come: if the
-- values they retain whenever they deliver are those of one log, the actions of the one with the
-- lower frontier are the first of the other's, slot by slot and command by command; and with equal
-- frontiers they have delivered the same set. Both began before the first slot with nothing
-- delivered, and what they retain is always as `maybe_gc` leaves it.
pub Lifetime-agree :
    (chosen : Slot → Bytes) (done more : List Action) (s s' : Slot) (d d' : Dedup)
    → Lifetime chosen done s d
    → Lifetime chosen more s' d'
    → s ≤ s'
    → (rest : List Action) × (more ≡ done ++ rest) × ((s ≢ s') ⊎ ((rest ≡ []) × (d ≡ d')))
unfolding told
Lifetime-agree chosen done more s s' d d' a b le =
    let (is, set) = Lifetime-told chosen a in
    let (is', set') = Lifetime-told chosen b in
    let split : s' ≡ s + (s' - s) = omega arith in
    let from : 0 + s ≡ s = omega arith in
    (
      told chosen s (known chosen 0 dedup_default s) (s' - s),
      is'
          ∙ ap (λ t. told chosen 0 dedup_default t) split
          ∙ told-add chosen 0 dedup_default s (s' - s)
          ∙ ap
              (λ t.
                told chosen 0 dedup_default s
                ++ told chosen t (known chosen 0 dedup_default s) (s' - s))
              from
          ∙ ap (λ xs. xs ++ told chosen s (known chosen 0 dedup_default s) (s' - s)) (sym is),
      elim (ℕ_discrete s s') [
        | no n ↦ inl n
        | yes e ↦
            let none_left : s' - s ≡ 0 = omega (arith, e) in
            inr (
              ap (λ k. told chosen s (known chosen 0 dedup_default s) k) none_left,
              set ∙ ap (λ t. known chosen 0 dedup_default t) e ∙ sym set',
            )
      ],
    )
