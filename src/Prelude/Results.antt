-- ===== src/Prelude/Results.antt =====
-- Rust's `Result`.
pub data Result {ℓ κ} (A : Type ℓ) (E : Type κ) : Type (ℓ ⊔ κ) where
  ok : A → Result A E
  err : E → Result A E
