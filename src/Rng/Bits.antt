-- ===== src/Rng/Bits.antt =====
-- Bounds of the bit operations: digits do not spread.
use Prim.Native.Nat.{bit_or, bit_xor, bit_or-bitwise, bit_xor-bitwise, digits, differ}
use native.Mathlib.Nat.{pow-suc}
use raxos.Prelude.{ℕ, zero, suc, ◌/◌, ◌%◌, ◌^◌, ◌≤◌, ◌<◌, max, arith}

module _ (z : ℕ → ℕ) (f : ℕ → ℕ → ℕ) (z-le : (b : ℕ) → z b ≤ b)
    (f-lt : (x y : ℕ) → x < 2 → y < 2 → f x y < 2) where
  digits-lt : (n k a b : ℕ) → a < 2 ^ k → b < 2 ^ k → digits z f n a b < 2 ^ k
  digits-lt zero k a b ha hb = omega (arith, z-le b)
  digits-lt (suc n) k zero b ha hb = omega (arith, z-le b)
  digits-lt (suc n) zero (suc a) b ha hb = absurd (omega arith)
  digits-lt (suc n) (suc k) (suc a) b ha hb = omega (
    arith,
    pow-suc 2 k,
    digits-lt n k (suc a / 2) (b / 2) (omega (arith, pow-suc 2 k)) (omega (arith, pow-suc 2 k)),
    f-lt (suc a % 2) (b % 2) (omega arith) (omega arith),
  )

differ-lt : (x y : ℕ) → x < 2 → y < 2 → differ x y < 2
differ-lt zero y hx hy = hy
differ-lt (suc x) zero hx hy = hx
differ-lt (suc x) (suc y) hx hy = differ-lt x y (omega arith) (omega arith)

pub bit_or-lt : (k a b : ℕ) → a < 2 ^ k → b < 2 ^ k → bit_or a b < 2 ^ k
bit_or-lt k a b ha hb =
    rw (bit_or-bitwise a b)
      (digits-lt (λ b. b) max (λ b. omega arith) (λ x y hx hy. omega arith) a k a b ha hb)

pub bit_xor-lt : (k a b : ℕ) → a < 2 ^ k → b < 2 ^ k → bit_xor a b < 2 ^ k
bit_xor-lt k a b ha hb =
    rw (bit_xor-bitwise a b) (digits-lt (λ b. b) differ (λ b. omega arith) differ-lt a k a b ha hb)
