-- ===== src/Codec/Words.antt =====
-- Little-endian words: a word of `w` bytes is its bytes, both ways.
use native.Mathlib.Nat.{pow-suc}
use raxos.Prelude.{
  ℕ, zero, suc, ◌+◌, ◌*◌, ◌/◌, ◌%◌, ◌^◌, ◌<◌, ◌≡◌, refl, ap, [], ◌∷◌, Bytes, IsByte, All, length,
  arith,
}
use raxos.Codec.{to_le_bytes, from_le_bytes}

pub length-to_le_bytes : (w n : ℕ) → length (to_le_bytes w n) ≡ w
unfolding to_le_bytes
length-to_le_bytes zero n = refl
length-to_le_bytes (suc w) n = ap suc (length-to_le_bytes w (n / 256))

pub from_le_bytes-to_le_bytes : (w n : ℕ) → n < 256 ^ w → from_le_bytes (to_le_bytes w n) ≡ n
unfolding to_le_bytes from_le_bytes
from_le_bytes-to_le_bytes zero n h = omega arith
from_le_bytes-to_le_bytes (suc w) n h =
    omega (arith, from_le_bytes-to_le_bytes w (n / 256) (omega (arith, pow-suc 256 w)))

pub from_le_bytes-lt : (bs : Bytes) → All IsByte bs → from_le_bytes bs < 256 ^ length bs
unfolding from_le_bytes
from_le_bytes-lt [] a = omega arith
from_le_bytes-lt (b ∷ bs) a = omega (arith, from_le_bytes-lt bs a.1, pow-suc 256 (length bs))

pub to_le_bytes-from_le_bytes :
    (bs : Bytes) → All IsByte bs → to_le_bytes (length bs) (from_le_bytes bs) ≡ bs
unfolding to_le_bytes from_le_bytes
to_le_bytes-from_le_bytes [] a = refl
to_le_bytes-from_le_bytes (b ∷ bs) a =
    let tail : (b + from_le_bytes bs * 256) / 256 ≡ from_le_bytes bs = omega arith in
    let head : (b + from_le_bytes bs * 256) % 256 ≡ b = omega arith in
    rw (tail, head) (ap (λ t. b ∷ t) (to_le_bytes-from_le_bytes bs a.1))

pub to_le_bytes-IsByte : (w n : ℕ) → All IsByte (to_le_bytes w n)
unfolding to_le_bytes
to_le_bytes-IsByte zero n = tt
to_le_bytes-IsByte (suc w) n = (omega arith, to_le_bytes-IsByte w (n / 256))
