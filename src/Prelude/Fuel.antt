-- ===== src/Prelude/Fuel.antt =====
-- Runs of loops on fuel: a result, a panic, or a loop that the fuel did not suffice for.
use mathlib.Core.Path.{◌≡◌, ap, ◌∙◌}
use mathlib.Core.Option.{Option, none, some}

pub data Ran {ℓ} (A : Type ℓ) : Type ℓ where
  ran : A → Ran A
  panicked unfinished : Ran A

-- Code without a loop on fuel.
abbrev pub tried {ℓ} : {A : Type ℓ} → Option A → Ran A
tried none = panicked
tried (some a) = ran a

abbrev pub chain {ℓ κ} : {A : Type ℓ} {B : Type κ} → Ran A → (A → Ran B) → Ran B
chain (ran a) f = f a
chain panicked f = panicked
chain unfinished f = unfinished

-- Neither a panic nor short of fuel.
abbrev pub Finishes {ℓ} : {A : Type ℓ} → Ran A → Type ℓ
Finishes {A = A} o = (a : A) × (o ≡ ran a)

pub chain-Finishes {ℓ κ} :
    {A : Type ℓ} {B : Type κ} (m : Ran A) (f : A → Ran B) {a : A}
    → m ≡ ran a
    → Finishes (f a)
    → Finishes (chain m f)
chain-Finishes m f e (b, q) = (b, ap (λ o. chain o f) e ∙ q)
