-- ===== src/Prelude/Map/Total.antt =====
-- The sum of a weight over the values of a map, as it is kept in a counter beside the map.
use Prim.Native.Nat.{ℕ, ◌+◌}
use mathlib.Core.Path.{◌≡◌, refl}
use mathlib.Core.Option.{Option, none, some}
use mathlib.Core.List.{[], ◌∷◌}
use native.Mathlib.Omega.{arith}
use raxos.Prelude.Ordered.{Ord}
use raxos.Prelude.Map.{Map, get, insert, remove}
use raxos.Prelude.Map.Sorted.{IsSorted, get-Below, get-lt}

-- The weight of a value that may be missing.
abbrev pub weight_of : {V : Type 0} → (V → ℕ) → Option V → ℕ
weight_of w none = 0
weight_of w (some v) = w v

module _ {K V : Type 0} ⦃o : Ord K⦄ (w : V → ℕ) where
  unfoldable pub total : Map K V → ℕ
  total [] = 0
  total ((k, v) ∷ m) = w v + total m

  pub total-insert :
      (k : K) (v : V) (m : Map K V)
      → IsSorted m
      → total (insert k v m) + weight_of w (get m k) ≡ total m + w v
  unfolding total insert get
  total-insert k v [] s = omega arith
  total-insert k v ((i, x) ∷ m) s = ground (
    arith,
    o.cmp-flip k i,
    o.eq_of_cmp k i,
    s.0,
    get-Below i m s.0,
    get-lt k i m,
    total-insert k v m s.1,
  )

  pub total-remove :
      (k : K) (m : Map K V) → IsSorted m → total (remove k m) + weight_of w (get m k) ≡ total m
  unfolding total remove get
  total-remove k [] s = refl
  total-remove k ((i, x) ∷ m) s =
      ground (arith, o.eq_of_cmp i k, get-Below i m s.0, total-remove k m s.1)
