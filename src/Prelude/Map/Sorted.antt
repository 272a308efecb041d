-- ===== src/Prelude/Map/Sorted.antt =====
-- The keys of a map ascend, and the map operations keep it so.
use Prim.Native.Nat.Ordering.{lt}
use mathlib.Core.Path.{◌≡◌, refl}
use mathlib.Core.Option.{some, none}
use mathlib.Core.List.{[], ◌∷◌}
use native.Mathlib.Omega.{arith}
use raxos.Prelude.Lists.{All}
use raxos.Prelude.Ordered.{Ord, same_iff}
use raxos.Prelude.Map.{Map, get, insert, remove, first_key}

module _ {K V : Type 0} ⦃o : Ord K⦄ where
  -- `k` is below every key of `m`.
  abbrev pub Below : K → Map K V → Type 0
  Below k m = All (λ (e : K × V). o.cmp k e.0 ≡ lt) m

  abbrev pub IsSorted : Map K V → Type 0
  IsSorted [] = Unit {0}
  IsSorted ((k, v) ∷ m) = Below k m × IsSorted m

  Below-trans : (j k : K) (m : Map K V) → o.cmp j k ≡ lt → Below k m → Below j m
  Below-trans j k [] h b = tt
  Below-trans j k ((i, v) ∷ m) h b = (o.lt_trans j k i h b.0, Below-trans j k m h b.1)

  pub get-Below : (k : K) (m : Map K V) → Below k m → get m k ≡ none
  unfolding get
  get-Below k [] b = refl
  get-Below k ((i, v) ∷ m) b = ground (arith, b.0, o.cmp-flip k i, get-Below k m b.1)

  Below-insert :
      (j k : K) (v : V) (m : Map K V) → o.cmp j k ≡ lt → Below j m → Below j (insert k v m)
  unfolding insert
  Below-insert j k v [] h b = (h, tt)
  Below-insert j k v ((i, w) ∷ m) h b = ground (arith, h, b.0, b.1, Below-insert j k v m h b.1)

  pub insert-IsSorted : (k : K) (v : V) (m : Map K V) → IsSorted m → IsSorted (insert k v m)
  unfolding insert
  insert-IsSorted k v [] s = (tt, tt)
  insert-IsSorted k v ((i, w) ∷ m) s = ground (
    arith,
    o.cmp-flip k i,
    o.eq_of_cmp k i,
    s.0,
    s.1,
    Below-trans k i m,
    Below-insert i k v m,
    insert-IsSorted k v m s.1,
  )

  Below-remove : (j k : K) (m : Map K V) → Below j m → Below j (remove k m)
  unfolding remove
  Below-remove j k [] b = tt
  Below-remove j k ((i, w) ∷ m) b = ground (arith, b.0, Below-remove j k m b.1)

  pub remove-IsSorted : (k : K) (m : Map K V) → IsSorted m → IsSorted (remove k m)
  unfolding remove
  remove-IsSorted k [] s = tt
  remove-IsSorted k ((i, w) ∷ m) s =
      ground (arith, s.0, s.1, Below-remove i k m s.0, remove-IsSorted k m s.1)

  -- A key below the least one is not in the map.
  pub get-lt : (k i : K) (m : Map K V) → o.cmp k i ≡ lt → Below i m → get m k ≡ none
  get-lt k i m h b = get-Below k m (Below-trans k i m h b)

  pub get-first_key : (k : K) (m : Map K V) → first_key m ≡ some k → (v : V) × (get m k ≡ some v)
  unfolding get
  get-first_key k [] h = absurd (ground (arith, h))
  get-first_key k ((i, v) ∷ m) h = (v, ground (arith, h, (same_iff i i).1 refl))

  -- Nothing is below the first key.
  pub get-before_first_key :
      (k t : K) (m : Map K V) → IsSorted m → first_key m ≡ some k → o.cmp t k ≡ lt → get m t ≡ none
  get-before_first_key k t [] s h l = absurd (ground (arith, h))
  get-before_first_key k t ((i, v) ∷ m) s h l =
      get-Below t ((i, v) ∷ m) (ground (arith, h, l), Below-trans t i m (ground (arith, h, l)) s.0)

  pub empty_of_first_key : (m : Map K V) → first_key m ≡ none → m ≡ []
  empty_of_first_key [] h = refl
  empty_of_first_key (e ∷ m) h = absurd (ground (arith, h))
