-- ===== src/Prelude/Map.antt =====
-- `BTreeMap` of Rust's standard library: an association list in ascending key order.
pub mod Sorted
pub mod Sizes
pub mod Total
use Prim.Native.Nat.Ordering.{lt, eq, gt}
use mathlib.Core.Path.{◌≡◌, refl, ap, ◌∙◌}
use mathlib.Core.Option.{Option, none, some}
use mathlib.Core.List.{List, [], ◌∷◌}
use native.Mathlib.Omega.{arith}
use raxos.Prelude.Tests.{if◌then◌else◌}
use raxos.Prelude.Ordered.{Ord, same, same_iff}

abbrev pub Map {ℓ κ} : Type ℓ → Type κ → Type (ℓ ⊔ κ)
Map K V = List (K × V)

module _ {ℓ κ} {K : Type ℓ} {V : Type κ} ⦃o : Ord K⦄ where
  unfoldable pub get : Map K V → K → Option V
  get [] k = none
  get ((j, v) ∷ m) k = if same j k then some v else get m k

  -- `first_key_value`, without the value.
  abbrev pub first_key : Map K V → Option K
  first_key [] = none
  first_key ((k, v) ∷ m) = some k

  unfoldable pub insert : K → V → Map K V → Map K V
  insert k v [] = (k, v) ∷ []
  insert k v ((j, w) ∷ m) = elim (o.cmp k j) [
    | lt ↦ (k, v) ∷ (j, w) ∷ m
    | eq ↦ (k, v) ∷ m
    | gt ↦ (j, w) ∷ insert k v m
  ]

  unfoldable pub remove : K → Map K V → Map K V
  remove k [] = []
  remove k ((j, w) ∷ m) = let rest = remove k m in if same j k then rest else (j, w) ∷ rest

  pub get-insert :
      (m : Map K V) (k j : K) (v : V)
      → get (insert k v m) j ≡ (if same k j then some v else get m j)
  unfolding get insert
  get-insert [] k j v = refl
  get-insert ((i, w) ∷ m) k j v =
      ground (arith, o.eq_of_cmp k i, get-insert m k j v, o.cmp-flip k i, o.eq_of_cmp i j)

  pub get-remove :
      (m : Map K V) (k j : K) → get (remove k m) j ≡ (if same k j then none else get m j)
  unfolding get remove
  get-remove [] k j = ground arith
  get-remove ((i, w) ∷ m) k j =
      ground
        (arith, o.eq_of_cmp i k, o.eq_of_cmp i j, o.eq_of_cmp k j, get-remove m k j, o.cmp_refl k)

  pub insert-insert : (m : Map K V) (k : K) (v w : V) → insert k v (insert k w m) ≡ insert k v m
  unfolding insert
  insert-insert [] k v w = ground (arith, o.cmp_refl k)
  insert-insert ((j, u) ∷ m) k v w =
      ground (arith, o.cmp_refl k, insert-insert m k v w, o.cmp-flip k j)

  pub get-insert_self : (m : Map K V) (k : K) (v : V) → get (insert k v m) k ≡ some v
  get-insert_self m k v =
      get-insert m k k v ∙ ap (λ b. if b then some v else get m k) ((same_iff k k).1 refl)
