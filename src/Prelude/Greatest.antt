-- ===== src/Prelude/Greatest.antt =====
-- What a running maximum over a list of values is: the specification of `if best < x { best = x }`.
use mathlib.Core.Path.{◌≡◌, refl, sym, subst}
use mathlib.Core.Logic.{◌⊎◌, inl, inr}
use mathlib.Core.Bool.{Bool, true, false}
use mathlib.Core.Option.{Option, none, some}
use mathlib.Core.List.{List, [], ◌∷◌}
use native.Mathlib.Omega.{arith}
use raxos.Prelude.Lists.{All}
use raxos.Prelude.Tests.{if◌then◌else◌, Bool-cases}
use raxos.Prelude.Ordered.{Ord, less}

abbrev pub Contains : {K : Type 0} → K → List K → Type 0
Contains a [] = ⊥
Contains a (x ∷ xs) = (a ≡ x) ⊎ Contains a xs

module _ {K : Type 0} ⦃o : Ord K⦄ where
  -- `Option::is_none_or(|best| best < candidate)`
  abbrev pub is_none_or_less : Option K → K → Bool
  is_none_or_less none candidate = true
  is_none_or_less (some best) candidate = less best candidate

  -- `some g`: `g` is one of the values and none is above it. `none`: there is no value.
  abbrev pub IsGreatest : Option K → List K → Type 0
  IsGreatest none [] = Unit {0}
  IsGreatest none (x ∷ xs) = ⊥
  IsGreatest (some g) xs = Contains g xs × All (λ x. less g x ≡ false) xs

  pub less_irrefl : (a : K) → less a a ≡ false
  less_irrefl a = ground (arith, o.cmp_refl a)

  pub not_less_below : (g p x : K) → less g p ≡ true → less g x ≡ false → less p x ≡ false
  not_less_below g p x h k = ground (arith, o.lt_trans g p x)

  All-below :
      (g p : K) (xs : List K)
      → less g p ≡ true
      → All (λ x. less g x ≡ false) xs
      → All (λ x. less p x ≡ false) xs
  All-below g p [] h a = tt
  All-below g p (x ∷ xs) h a = (not_less_below g p x h a.0, All-below g p xs h a.1)

  -- One round of a running maximum.
  pub IsGreatest-cons :
      (best : Option K) (p : K) (xs : List K)
      → IsGreatest best xs
      → IsGreatest (if is_none_or_less best p then some p else best) (p ∷ xs)
  IsGreatest-cons none p [] h = (inl refl, (less_irrefl p, tt))
  IsGreatest-cons none p (x ∷ xs) h = absurd h
  IsGreatest-cons (some g) p xs h = elim (Bool-cases (less g p)) [
    | inl up ↦ rw up (inl refl, (less_irrefl p, All-below g p xs up h.1))
    | inr keep ↦ rw keep (inr h.0, (keep, h.1))
  ]

pub All-contains :
    {K : Type 0} (P : K → Type 0) (a : K) (xs : List K) → All P xs → Contains a xs → P a
All-contains P a [] h c = absurd c
All-contains P a (x ∷ xs) h (inl e) = subst P (sym e) h.0
All-contains P a (x ∷ xs) h (inr c) = All-contains P a xs h.1 c

module _ {K : Type 0} ⦃o : Ord K⦄ where
  pub less_antisym : (a b : K) → less a b ≡ false → less b a ≡ false → a ≡ b
  less_antisym a b h k = ground (arith, o.eq_of_cmp a b, o.cmp-flip a b)

  pub IsGreatest-unique :
      (a b : K) (xs : List K) → IsGreatest (some a) xs → IsGreatest (some b) xs → a ≡ b
  IsGreatest-unique a b xs (ca, ha) (cb, hb) =
      less_antisym a b (All-contains (λ x. less a x ≡ false) b xs ha cb)
        (All-contains (λ x. less b x ≡ false) a xs hb ca)
