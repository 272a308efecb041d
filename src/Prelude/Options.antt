-- ===== src/Prelude/Options.antt =====
-- `Option` as the monad of `?`, and of what may panic: `none` is then the panic.
use mathlib.Core.Path.{◌≡◌, refl, ap, ◌∙◌}
use mathlib.Core.Option.{Option, none, some}

infixl 5 ◌>>=◌
abbrev pub ◌>>=◌ {ℓ κ} : {A : Type ℓ} {B : Type κ} → Option A → (A → Option B) → Option B
none >>= f = none
some a >>= f = f a

pub >>=-eq-some {ℓ κ} :
    {A : Type ℓ} {B : Type κ} (m : Option A) (f : A → Option B) {b : B}
    → (m >>= f) ≡ some b
    → (a : A) × (m ≡ some a) × (f a ≡ some b)
>>=-eq-some none f h = cc
>>=-eq-some (some a) f h = (a, refl, h)

pub some_inv {ℓ} : {A : Type ℓ} {a b : A} → some a ≡ some b → a ≡ b
some_inv h = cc

pub some_pair {ℓ κ} :
    {A : Type ℓ} {B : Type κ} {a b : A} {c d : B}
    → ◌≡◌ {A = Option (A × B)} (some (a, c)) (some (b, d))
    → (a ≡ b) × (c ≡ d)
some_pair {A} {B} h = let e = some_inv h in (ap (λ (p : A × B). p.0) e, ap (λ (p : A × B). p.1) e)

-- What does not panic.
abbrev pub Returns {ℓ} : {A : Type ℓ} → Option A → Type ℓ
Returns {A = A} o = (a : A) × (o ≡ some a)

pub >>=-Returns {ℓ κ} :
    {A : Type ℓ} {B : Type κ} (m : Option A) (f : A → Option B) {a : A}
    → m ≡ some a
    → Returns (f a)
    → Returns (m >>= f)
>>=-Returns m f e (b, q) = (b, ap (λ o. o >>= f) e ∙ q)
