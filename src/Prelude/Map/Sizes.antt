-- ===== src/Prelude/Map/Sizes.antt =====
-- The number of entries of a map, which bounds the loops that take entries out.
use Prim.Native.Nat.{suc, ◌≤◌}
use mathlib.Core.Path.{◌≡◌}
use mathlib.Core.Option.{some}
use mathlib.Core.List.{[], ◌∷◌}
use native.Mathlib.Omega.{arith}
use raxos.Prelude.Lists.{length}
use raxos.Prelude.Ordered.{Ord}
use raxos.Prelude.Map.{Map, get, remove}

module _ {K V : Type 0} ⦃o : Ord K⦄ where
  pub length-remove_le : (k : K) (m : Map K V) → length (remove k m) ≤ length m
  unfolding remove
  length-remove_le k [] = omega arith
  length-remove_le k ((j, w) ∷ m) = ground (arith, length-remove_le k m)

  -- Taking out a key that is there makes the map smaller.
  pub length-remove :
      (k : K) (v : V) (m : Map K V) → get m k ≡ some v → suc (length (remove k m)) ≤ length m
  unfolding remove get
  length-remove k v [] h = ground (arith, h)
  length-remove k v ((j, w) ∷ m) h = ground (arith, h, length-remove_le k m, length-remove k v m)
