-- ===== src/Rng.antt =====
-- src/rng.rs: xoshiro256++ seeded by splitmix64, on u64 words that wrap.
mod Bits
pub mod Range
mod Tests
use Prim.Native.Nat.{bit_or, bit_xor}
use raxos.Prelude.{ℕ, ◌+◌, ◌-◌, ◌*◌, ◌/◌, ◌%◌, ◌^◌, add_u64, u64_mod}

-- The four words of `state`.
pub record Rng : Type 0 where
  pub s0 : ℕ
  pub s1 : ℕ
  pub s2 : ℕ
  pub s3 : ℕ

abbrev wrapping_mul : ℕ → ℕ → ℕ
wrapping_mul a b = (a * b) % u64_mod

-- `x >> k`, `x << k` and `x.rotate_left(k)` on a u64.
abbrev shr : ℕ → ℕ → ℕ
shr x k = x / 2 ^ k

abbrev shl : ℕ → ℕ → ℕ
shl x k = (x * 2 ^ k) % u64_mod

abbrev rotate_left : ℕ → ℕ → ℕ
rotate_left x k = bit_or (shl x k) (shr x (64 - k))

-- One call of the closure `next` in `Rng::new`: the counter `sm` moves on, and a word comes out.
unfoldable pub splitmix_counter : ℕ → ℕ
splitmix_counter sm = add_u64 sm 0x9e3779b97f4a7c15

unfoldable pub splitmix_mix : ℕ → ℕ
splitmix_mix sm =
    let z1 = wrapping_mul (bit_xor sm (shr sm 30)) 0xbf58476d1ce4e5b9 in
    let z2 = wrapping_mul (bit_xor z1 (shr z1 27)) 0x94d049bb133111eb in bit_xor z2 (shr z2 31)

-- `Rng::new`
unfoldable pub new : ℕ → Rng
unfolding splitmix_counter splitmix_mix
new seed =
    let sm0 = splitmix_counter seed in
    let sm1 = splitmix_counter sm0 in
    let sm2 = splitmix_counter sm1 in
    let sm3 = splitmix_counter sm2 in
    record {
      s0 = splitmix_mix sm0;
      s1 = splitmix_mix sm1;
      s2 = splitmix_mix sm2;
      s3 = splitmix_mix sm3;
    }

unfoldable pub next_u64 : Rng → ℕ × Rng
next_u64 r =
    let result = add_u64 (rotate_left (add_u64 r.s0 r.s3) 23) r.s0 in
    let t = shl r.s1 17 in
    let s2 = bit_xor r.s2 r.s0 in
    let s3 = bit_xor r.s3 r.s1 in
    let s1 = bit_xor r.s1 s2 in
    let s0 = bit_xor r.s0 s3 in
    (result, record { s0 = s0; s1 = s1; s2 = bit_xor s2 t; s3 = rotate_left s3 45 })

-- `low + self.next_u64() % (high - low + 1)`, with wrapping words.
unfoldable pub range_inclusive : ℕ → ℕ → Rng → ℕ × Rng
range_inclusive low high r =
    let (x, r') = next_u64 r in (add_u64 low (x % add_u64 ((high + u64_mod - low) % u64_mod) 1), r')
