-- ===== src/Prelude/Lists.antt =====
-- Lists measured and indexed by native numbers, under the library's names.
use Prim.Native.Nat.{ℕ, zero, suc, ◌+◌, ◌-◌, ◌≤◌, ◌<◌}
use mathlib.Core.Path.{◌≡◌, refl, sym, ap, subst, ◌∙◌}
use native.Mathlib.Decide.{dec_lt}
use mathlib.Core.Bool.{Bool, true, false}
use raxos.Prelude.Tests.{if◌then◌else◌}
use mathlib.Core.List.{List, [], ◌∷◌, ◌++◌}
use mathlib.Core.Option.{Option, none, some}
use native.Mathlib.Omega.{arith}

module _ {ℓ} {A : Type ℓ} where
  abbrev pub length : List A → ℕ
  length [] = 0
  length (x ∷ xs) = suc (length xs)

  abbrev pub get_elem? : List A → ℕ → Option A
  get_elem? [] i = none
  get_elem? (x ∷ xs) zero = some x
  get_elem? (x ∷ xs) (suc i) = get_elem? xs i

  abbrev pub get_or : List A → ℕ → A → A
  get_or [] i d = d
  get_or (x ∷ xs) zero d = x
  get_or (x ∷ xs) (suc i) d = get_or xs i d

  -- A write out of bounds changes nothing.
  abbrev pub set : List A → ℕ → A → List A
  set [] i v = []
  set (x ∷ xs) zero v = v ∷ xs
  set (x ∷ xs) (suc i) v = x ∷ set xs i v

  abbrev pub take : ℕ → List A → List A
  take zero xs = []
  take (suc n) [] = []
  take (suc n) (x ∷ xs) = x ∷ take n xs

  abbrev pub drop : ℕ → List A → List A
  drop zero xs = xs
  drop (suc n) [] = []
  drop (suc n) (x ∷ xs) = drop n xs

  abbrev pub replicate : ℕ → A → List A
  replicate zero a = []
  replicate (suc n) a = a ∷ replicate n a

  abbrev pub All {κ} : (A → Type κ) → List A → Type κ
  All P [] = Unit {κ}
  All P (x ∷ xs) = P x × All P xs

module _ {ℓ} {A : Type ℓ} where
  pub length-append : (xs ys : List A) → length (xs ++ ys) ≡ length xs + length ys
  length-append [] ys = omega arith
  length-append (x ∷ xs) ys = omega (arith, length-append xs ys)

  pub length-set : (xs : List A) (i : ℕ) (v : A) → length (set xs i v) ≡ length xs
  length-set [] i v = refl
  length-set (x ∷ xs) zero v = refl
  length-set (x ∷ xs) (suc i) v = ap suc (length-set xs i v)

  pub length-replicate : (n : ℕ) (a : A) → length (replicate n a) ≡ n
  length-replicate zero a = refl
  length-replicate (suc n) a = ap suc (length-replicate n a)

  pub length-drop : (n : ℕ) (xs : List A) → length (drop n xs) ≡ length xs - n
  length-drop zero xs = omega arith
  length-drop (suc n) [] = omega arith
  length-drop (suc n) (x ∷ xs) = omega (arith, length-drop n xs)

  -- Splitting an append where its first part ends.
  pub take-append_self : (n : ℕ) (xs ys : List A) → length xs ≡ n → take n (xs ++ ys) ≡ xs
  take-append_self zero [] ys h = refl
  take-append_self zero (x ∷ xs) ys h = absurd (omega arith)
  take-append_self (suc n) [] ys h = absurd (omega arith)
  take-append_self (suc n) (x ∷ xs) ys h = ap (λ t. x ∷ t) (take-append_self n xs ys (omega arith))

  pub drop-append_self : (n : ℕ) (xs ys : List A) → length xs ≡ n → drop n (xs ++ ys) ≡ ys
  drop-append_self zero [] ys h = refl
  drop-append_self zero (x ∷ xs) ys h = absurd (omega arith)
  drop-append_self (suc n) [] ys h = absurd (omega arith)
  drop-append_self (suc n) (x ∷ xs) ys h = drop-append_self n xs ys (omega arith)

  pub take-append-drop : (n : ℕ) (xs : List A) → take n xs ++ drop n xs ≡ xs
  take-append-drop zero xs = refl
  take-append-drop (suc n) [] = refl
  take-append-drop (suc n) (x ∷ xs) = ap (λ t. x ∷ t) (take-append-drop n xs)

  pub length-take : (n : ℕ) (xs : List A) → n ≤ length xs → length (take n xs) ≡ n
  length-take zero xs h = refl
  length-take (suc n) [] h = absurd (omega arith)
  length-take (suc n) (x ∷ xs) h = ap suc (length-take n xs (omega arith))

  pub All-append {κ} : (P : A → Type κ) (xs ys : List A) → All P xs → All P ys → All P (xs ++ ys)
  All-append P [] ys h k = k
  All-append P (x ∷ xs) ys h k = (h.0, All-append P xs ys h.1 k)

  pub All-append_front {κ} : (P : A → Type κ) (xs ys : List A) → All P (xs ++ ys) → All P xs
  All-append_front P [] ys h = tt
  All-append_front P (x ∷ xs) ys h = (h.0, All-append_front P xs ys h.1)

  pub All-take {κ} : (P : A → Type κ) (n : ℕ) (xs : List A) → All P xs → All P (take n xs)
  All-take P zero xs h = tt
  All-take P (suc n) [] h = tt
  All-take P (suc n) (x ∷ xs) h = (h.0, All-take P n xs h.1)

  pub All-drop {κ} : (P : A → Type κ) (n : ℕ) (xs : List A) → All P xs → All P (drop n xs)
  All-drop P zero xs h = h
  All-drop P (suc n) [] h = tt
  All-drop P (suc n) (x ∷ xs) h = All-drop P n xs h.1

-- `lo..lo + k` and `0..n` as lists.
abbrev pub range_from : ℕ → ℕ → List ℕ
range_from lo zero = []
range_from lo (suc k) = lo ∷ range_from (suc lo) k

abbrev pub range : ℕ → List ℕ
range n = range_from 0 n

pub All-range_from {κ} :
    (P : ℕ → Type κ) (lo k : ℕ) → ((i : ℕ) → lo ≤ i → i < lo + k → P i) → All P (range_from lo k)
All-range_from P lo zero f = tt
All-range_from P lo (suc k) f = (
  f lo (omega arith) (omega arith),
  All-range_from P (suc lo) k (λ i h l. f i (omega arith) (omega arith)),
)

pub All-range {κ} : (P : ℕ → Type κ) (n : ℕ) → ((i : ℕ) → i < n → P i) → All P (range n)
All-range P n f = All-range_from P 0 n (λ i h l. f i (omega arith))

pub All-range_from_get {κ} :
    (P : ℕ → Type κ) (lo k i : ℕ) → All P (range_from lo k) → lo ≤ i → i < lo + k → P i
All-range_from_get P lo zero i a h l = absurd (omega arith)
All-range_from_get P lo (suc k) i a h l = elim (dec_lt lo i) [
  | yes up ↦ All-range_from_get P (suc lo) k i a.1 (omega arith) (omega arith)
  | no le ↦ subst P (let e : lo ≡ i = omega arith in e) a.0
]

pub All-range_get {κ} : (P : ℕ → Type κ) (n i : ℕ) → All P (range n) → i < n → P i
All-range_get P n i a l = All-range_from_get P 0 n i a (omega arith) (omega arith)

module _ {ℓ} {A : Type ℓ} where
  pub drop-nil : (n : ℕ) → drop {A = A} n [] ≡ []
  drop-nil zero = refl
  drop-nil (suc n) = refl

  pub drop-drop : (n m : ℕ) (xs : List A) → drop m (drop n xs) ≡ drop (n + m) xs
  drop-drop zero m xs = ap (λ k. drop k xs) (omega arith)
  drop-drop (suc n) m [] = drop-nil m ∙ sym (drop-nil (suc n + m))
  drop-drop (suc n) m (x ∷ xs) =
      drop-drop n m xs
      ∙ ap (λ k. drop k (x ∷ xs)) (let e : suc (n + m) ≡ suc n + m = omega arith in e)

  pub get_elem?-drop :
      (n : ℕ) (xs : List A) {y : A} {ys : List A} → drop n xs ≡ y ∷ ys → get_elem? xs n ≡ some y
  get_elem?-drop zero [] e = cc
  get_elem?-drop zero (x ∷ xs) e = cc
  get_elem?-drop (suc n) [] e = cc
  get_elem?-drop (suc n) (x ∷ xs) e = get_elem?-drop n xs e

  pub get_elem?-past : (xs : List A) (i : ℕ) → length xs ≤ i → get_elem? xs i ≡ none
  get_elem?-past [] i h = refl
  get_elem?-past (x ∷ xs) zero h = absurd (omega arith)
  get_elem?-past (x ∷ xs) (suc i) h = get_elem?-past xs i (omega arith)

  pub empty_of_length : (xs : List A) → length xs ≤ 0 → xs ≡ []
  empty_of_length [] h = refl
  empty_of_length (x ∷ xs) h = absurd (omega arith)

  pub All-map {κ μ} :
      (P : A → Type κ) (Q : A → Type μ) (f : (x : A) → P x → Q x) (xs : List A)
      → All P xs
      → All Q xs
  All-map P Q f [] h = tt
  All-map P Q f (x ∷ xs) h = (f x h.0, All-map P Q f xs h.1)

  pub All-if {κ} :
      (P : A → Type κ) (b : Bool) (xs ys : List A)
      → (b ≡ true → All P xs)
      → (b ≡ false → All P ys)
      → All P (if b then xs else ys)
  All-if P true xs ys f g = f refl
  All-if P false xs ys f g = g refl

  -- `filter`
  abbrev pub select : (A → Bool) → List A → List A
  select p [] = []
  select p (x ∷ xs) = let rest = select p xs in if p x then x ∷ rest else rest

  pub All-select {κ} :
      (P : A → Type κ) (p : A → Bool) (xs : List A)
      → All P xs
      → All (λ (x : A). P x × (p x ≡ true)) (select p xs)
  All-select P p [] h = tt
  All-select P p (x ∷ xs) h =
      let rest = All-select P p xs h.1 in
      All-if (λ (y : A). P y × (p y ≡ true)) (p x) (x ∷ select p xs) (select p xs)
        (λ e. ((h.0, e), rest)) (λ e. rest)

  pub get_elem?-All {κ} :
      (P : A → Type κ) (xs : List A) (i : ℕ)
      → All P xs
      → i < length xs
      → (x : A) × (get_elem? xs i ≡ some x) × P x
  get_elem?-All P [] i h l = absurd (omega arith)
  get_elem?-All P (x ∷ xs) zero h l = (x, refl, h.0)
  get_elem?-All P (x ∷ xs) (suc i) h l = get_elem?-All P xs i h.1 (omega arith)

  pub get_elem?-get_or :
      (xs : List A) (i : ℕ) (d : A) → i < length xs → get_elem? xs i ≡ some (get_or xs i d)
  get_elem?-get_or [] i d l = absurd (omega arith)
  get_elem?-get_or (x ∷ xs) zero d l = refl
  get_elem?-get_or (x ∷ xs) (suc i) d l = get_elem?-get_or xs i d (omega arith)
