-- ===== src/Prelude/Ordered.antt =====
-- `Ord` of Rust's standard library with the laws that its documentation asks for, and the
-- instances that the code compares by: numbers, tuples and slices, in lexicographic order.
use Prim.Native.Nat.{ℕ, compare, Ordering}
use Prim.Native.Nat.Ordering.{lt, eq, gt}
use mathlib.Core.Path.{◌≡◌, refl}
use mathlib.Core.Bool.{Bool, true, false}
use mathlib.Core.List.{List, [], ◌∷◌}
use mathlib.Core.Logic.{◌↔◌}
use native.Mathlib.Omega.{arith}

abbrev pub flip : Ordering → Ordering
flip lt = gt
flip eq = eq
flip gt = lt

abbrev pub then : Ordering → Ordering → Ordering
then eq second = second
then lt second = lt
then gt second = gt

pub record Ord {ℓ} (K : Type ℓ) : Type ℓ where
  pub cmp : K → K → Ordering
  pub cmp_refl : (a : K) → cmp a a ≡ eq
  pub eq_of_cmp : (a b : K) → cmp a b ≡ eq → a ≡ b
  pub cmp-flip : (a b : K) → cmp b a ≡ flip (cmp a b)
  pub lt_trans : (a b c : K) → cmp a b ≡ lt → cmp b c ≡ lt → cmp a c ≡ lt

pub nat_flip : (a b : ℕ) → compare b a ≡ flip (compare a b)
nat_flip a b = ground arith

pub nat_eq : (a b : ℕ) → compare a b ≡ eq → a ≡ b
nat_eq a b h = ground arith

pub nat_trans : (a b c : ℕ) → compare a b ≡ lt → compare b c ≡ lt → compare a c ≡ lt
nat_trans a b c h k = ground arith

pub nat_refl : (a : ℕ) → compare a a ≡ eq
nat_refl a = ground arith

instance abbrev pub nat_ord : Ord ℕ
nat_ord = record {
  cmp = compare;
  cmp_refl = nat_refl;
  eq_of_cmp = nat_eq;
  cmp-flip = nat_flip;
  lt_trans = nat_trans;
}

module _ {ℓ} {A : Type ℓ} ⦃o : Ord A⦄ where
  -- Slices compare element by element, and a proper prefix is less.
  abbrev pub cmp_slice : List A → List A → Ordering
  cmp_slice [] [] = eq
  cmp_slice [] (y ∷ ys) = lt
  cmp_slice (x ∷ xs) [] = gt
  cmp_slice (x ∷ xs) (y ∷ ys) = then (o.cmp x y) (cmp_slice xs ys)

  pub slice_refl : (xs : List A) → cmp_slice xs xs ≡ eq
  slice_refl [] = refl
  slice_refl (x ∷ xs) = ground (arith, o.cmp_refl x, slice_refl xs)

  pub slice_eq : (xs ys : List A) → cmp_slice xs ys ≡ eq → xs ≡ ys
  slice_eq [] [] h = refl
  slice_eq [] (y ∷ ys) h = cc
  slice_eq (x ∷ xs) [] h = cc
  slice_eq (x ∷ xs) (y ∷ ys) h = ground (arith, o.eq_of_cmp x y, slice_eq xs ys)

  pub slice_flip : (xs ys : List A) → cmp_slice ys xs ≡ flip (cmp_slice xs ys)
  slice_flip [] [] = refl
  slice_flip [] (y ∷ ys) = refl
  slice_flip (x ∷ xs) [] = refl
  slice_flip (x ∷ xs) (y ∷ ys) = ground (arith, o.cmp-flip x y, slice_flip xs ys)

  pub slice_trans :
      (xs ys zs : List A) → cmp_slice xs ys ≡ lt → cmp_slice ys zs ≡ lt → cmp_slice xs zs ≡ lt
  slice_trans [] [] zs h k = cc
  slice_trans [] (y ∷ ys) [] h k = cc
  slice_trans [] (y ∷ ys) (z ∷ zs) h k = refl
  slice_trans (x ∷ xs) [] zs h k = cc
  slice_trans (x ∷ xs) (y ∷ ys) [] h k = cc
  slice_trans (x ∷ xs) (y ∷ ys) (z ∷ zs) h k = ground (
    arith,
    o.eq_of_cmp x y,
    o.eq_of_cmp y z,
    o.lt_trans x y z,
    o.cmp_refl x,
    slice_trans xs ys zs,
  )

  instance abbrev pub slice_ord : Ord (List A)
  slice_ord = record {
    cmp = cmp_slice;
    cmp_refl = slice_refl;
    eq_of_cmp = slice_eq;
    cmp-flip = slice_flip;
    lt_trans = slice_trans;
  }

module _ {ℓ κ} {A : Type ℓ} {B : Type κ} ⦃a : Ord A⦄ ⦃b : Ord B⦄ where
  abbrev pub cmp_pair : A × B → A × B → Ordering
  cmp_pair x y = then (a.cmp x.0 y.0) (b.cmp x.1 y.1)

  pub pair_refl : (x : A × B) → cmp_pair x x ≡ eq
  pair_refl x = ground (arith, a.cmp_refl x.0, b.cmp_refl x.1)

  pub pair_eq : (x y : A × B) → cmp_pair x y ≡ eq → x ≡ y
  pair_eq x y h = ground (arith, a.eq_of_cmp x.0 y.0, b.eq_of_cmp x.1 y.1)

  pub pair_flip : (x y : A × B) → cmp_pair y x ≡ flip (cmp_pair x y)
  pair_flip x y = ground (arith, a.cmp-flip x.0 y.0, b.cmp-flip x.1 y.1)

  pub pair_trans : (x y z : A × B) → cmp_pair x y ≡ lt → cmp_pair y z ≡ lt → cmp_pair x z ≡ lt
  pair_trans x y z h k = ground (
    arith,
    a.eq_of_cmp x.0 y.0,
    a.eq_of_cmp y.0 z.0,
    a.lt_trans x.0 y.0 z.0,
    a.cmp_refl x.0,
    b.lt_trans x.1 y.1 z.1,
  )

  instance abbrev pub pair_ord : Ord (A × B)
  pair_ord = record {
    cmp = cmp_pair;
    cmp_refl = pair_refl;
    eq_of_cmp = pair_eq;
    cmp-flip = pair_flip;
    lt_trans = pair_trans;
  }

module _ {ℓ} {K : Type ℓ} ⦃o : Ord K⦄ where
  abbrev pub less : K → K → Bool
  less a b = elim (o.cmp a b) [ lt ↦ true | _ ↦ false ]

  abbrev pub same : K → K → Bool
  same a b = elim (o.cmp a b) [ eq ↦ true | _ ↦ false ]

  pub same_iff : (a b : K) → (same a b ≡ true) ↔ (a ≡ b)
  same_iff a b = (λ h. ground (arith, o.eq_of_cmp a b), λ e. ground (arith, e, o.cmp_refl a))

-- The order of a type by a key that tells its values apart.
abbrev pub order_on {ℓ κ} :
    {A : Type ℓ} {B : Type κ} (f : A → B) → ((a b : A) → f a ≡ f b → a ≡ b) → Ord B → Ord A
order_on f injective o = record {
  cmp = λ a b. o.cmp (f a) (f b);
  cmp_refl = λ a. o.cmp_refl (f a);
  eq_of_cmp = λ a b h. injective a b (o.eq_of_cmp (f a) (f b) h);
  cmp-flip = λ a b. o.cmp-flip (f a) (f b);
  lt_trans = λ a b c. o.lt_trans (f a) (f b) (f c);
}
