-- ===== src/Prelude/Sorting.antt =====
-- Rust's `sort` on numbers, as insertion into an ascending list, and what it keeps.
use Prim.Native.Nat.{ℕ, suc, ◌≤◌, ◌<◌}
use mathlib.Core.Path.{◌≡◌, refl, ap, ◌∙◌}
use mathlib.Core.Bool.{Bool, true, false, ◌||◌}
use mathlib.Core.Logic.{◌≢◌, ∥∥₁_elim}
use mathlib.Core.List.{List, [], ◌∷◌, Perm, Permᴰ}
use mathlib.Core.List.Perm
use native.Mathlib.Omega.{arith}
use raxos.Prelude.Tests.{if◌then◌else◌, leb, ◌==◌}
use raxos.Prelude.Lists.{All}

unfoldable pub insert_sorted : ℕ → List ℕ → List ℕ
insert_sorted x [] = x ∷ []
insert_sorted x (y ∷ ys) = let rest = insert_sorted x ys in if leb x y then x ∷ y ∷ ys else y ∷ rest

unfoldable pub sort : List ℕ → List ℕ
sort [] = []
sort (x ∷ xs) = insert_sorted x (sort xs)

-- `contains`
unfoldable pub has : ℕ → List ℕ → Bool
has n [] = false
has n (x ∷ xs) = x == n || has n xs

-- How often a number occurs.
unfoldable pub occurrences : ℕ → List ℕ → ℕ
occurrences n [] = 0
occurrences n (x ∷ xs) = let rest = occurrences n xs in if x == n then suc rest else rest

abbrev pub IsAscending : List ℕ → Type 0
IsAscending [] = Unit {0}
IsAscending (x ∷ xs) = All (λ (y : ℕ). x ≤ y) xs × IsAscending xs

abbrev pub IsStrict : List ℕ → Type 0
IsStrict [] = Unit {0}
IsStrict (x ∷ xs) = All (λ (y : ℕ). x < y) xs × IsStrict xs

insert_sorted-Perm : (x : ℕ) (l : List ℕ) → Perm (insert_sorted x l) (x ∷ l)
unfolding insert_sorted
insert_sorted-Perm x [] = Perm.rfl
insert_sorted-Perm x (y ∷ ys) =
    if_perm (leb x y) x y ys (insert_sorted x ys) (insert_sorted-Perm x ys)
  where
    if_perm :
        (b : Bool) (x y : ℕ) (ys rest : List ℕ)
        → Perm rest (x ∷ ys)
        → Perm (if b then x ∷ y ∷ ys else y ∷ rest) (x ∷ y ∷ ys)
    if_perm true x y ys rest p = Perm.rfl
    if_perm false x y ys rest p = Perm.trans (Perm.cons y p) (Perm.swap x y ys)

pub sort-Perm : (xs : List ℕ) → Perm (sort xs) xs
unfolding sort
sort-Perm [] = Perm.rfl
sort-Perm (x ∷ xs) = Perm.trans (insert_sorted-Perm x (sort xs)) (Perm.cons x (sort-Perm xs))

All-insert_sorted :
    (P : ℕ → Type 0) (x : ℕ) (l : List ℕ) → P x → All P l → All P (insert_sorted x l)
unfolding insert_sorted
All-insert_sorted P x [] p h = (p, tt)
All-insert_sorted P x (y ∷ ys) p h = ground (arith, p, h, All-insert_sorted P x ys p h.1)

All-le_trans : (x y : ℕ) (l : List ℕ) → x ≤ y → All (λ (z : ℕ). y ≤ z) l → All (λ (z : ℕ). x ≤ z) l
All-le_trans x y [] h a = tt
All-le_trans x y (z ∷ l) h a = (omega (arith, a.0), All-le_trans x y l h a.1)

insert_sorted-IsAscending : (x : ℕ) (l : List ℕ) → IsAscending l → IsAscending (insert_sorted x l)
unfolding insert_sorted
insert_sorted-IsAscending x [] a = (tt, tt)
insert_sorted-IsAscending x (y ∷ ys) a = ground (
  arith,
  a.0,
  a.1,
  All-le_trans x y ys,
  λ (h : y ≤ x). All-insert_sorted (λ z. y ≤ z) x ys h a.0,
  insert_sorted-IsAscending x ys a.1,
)

pub sort-IsAscending : (xs : List ℕ) → IsAscending (sort xs)
unfolding sort
sort-IsAscending [] = tt
sort-IsAscending (x ∷ xs) = insert_sorted-IsAscending x (sort xs) (sort-IsAscending xs)

has-insert_sorted : (n x : ℕ) (l : List ℕ) → has n (insert_sorted x l) ≡ (x == n || has n l)
unfolding has insert_sorted
has-insert_sorted n x [] = refl
has-insert_sorted n x (y ∷ ys) = ground (arith, has-insert_sorted n x ys)

pub has-sort : (n : ℕ) (xs : List ℕ) → has n (sort xs) ≡ has n xs
unfolding has sort
has-sort n [] = refl
has-sort n (x ∷ xs) = has-insert_sorted n x (sort xs) ∙ ap (λ b. x == n || b) (has-sort n xs)

occurrences-insert_sorted :
    (n x : ℕ) (l : List ℕ) → occurrences n (insert_sorted x l) ≡ occurrences n (x ∷ l)
unfolding occurrences insert_sorted
occurrences-insert_sorted n x [] = refl
occurrences-insert_sorted n x (y ∷ ys) = ground (arith, occurrences-insert_sorted n x ys)

pub occurrences-sort : (n : ℕ) (xs : List ℕ) → occurrences n (sort xs) ≡ occurrences n xs
unfolding occurrences sort
occurrences-sort n [] = refl
occurrences-sort n (x ∷ xs) =
    occurrences-insert_sorted n x (sort xs) ∙ ground (arith, occurrences-sort n xs)

insert_sorted_swap :
    (a b : ℕ) (l : List ℕ)
    → insert_sorted a (insert_sorted b l) ≡ insert_sorted b (insert_sorted a l)
unfolding insert_sorted
insert_sorted_swap a b [] = ground arith
insert_sorted_swap a b (x ∷ l) = ground (arith, insert_sorted_swap a b l)

sort_eq_of_permᴰ : {xs ys : List ℕ} → Permᴰ xs ys → sort xs ≡ sort ys
unfolding sort
sort_eq_of_permᴰ Permᴰ.nil = refl
sort_eq_of_permᴰ (Permᴰ.cons {a = a} {b = b} {l₁ = l₁} e p) =
    ap (λ x. insert_sorted x (sort l₁)) e ∙ ap (λ l. insert_sorted b l) (sort_eq_of_permᴰ p)
sort_eq_of_permᴰ (Permᴰ.swap {a = a} {b = b} {a' = a'} {b' = b'} {l = l} e f) =
    rw (e, f) (insert_sorted_swap b' a' (sort l))
sort_eq_of_permᴰ (Permᴰ.trans p q) = sort_eq_of_permᴰ p ∙ sort_eq_of_permᴰ q

-- Sorting forgets the order of its input.
pub sort-eq_of_Perm : {xs ys : List ℕ} → Perm xs ys → sort xs ≡ sort ys
sort-eq_of_Perm p = ∥∥₁_elim p (hlevel) sort_eq_of_permᴰ

pub sort_empty : (xs : List ℕ) → sort xs ≡ [] → xs ≡ []
unfolding sort insert_sorted
sort_empty [] e = refl
sort_empty (x ∷ xs) e = absurd (insert_nonempty x (sort xs) e)
  where
    insert_nonempty : (x : ℕ) (l : List ℕ) → insert_sorted x l ≢ []
    insert_nonempty x [] e = cc
    insert_nonempty x (y ∷ ys) e = ground (arith, e)

-- A number below the whole list is not in it.
pub has_below : (n x : ℕ) (xs : List ℕ) → n < x → All (λ (y : ℕ). x ≤ y) xs → has n (x ∷ xs) ≡ false
unfolding has
has_below n x [] h a = ground arith
has_below n x (y ∷ ys) h a = ground (arith, a.0, has_below n x ys h a.1)

pub has-head : (n : ℕ) (xs : List ℕ) → has n (n ∷ xs) ≡ true
unfolding has
has-head n xs = ground arith
