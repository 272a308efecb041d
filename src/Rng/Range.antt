-- ===== src/Rng/Range.antt =====
-- The ranges of the generator: its words, and the bounded draw.
use raxos.Prelude.{ℕ, ◌+◌, ◌-◌, ◌%◌, ◌≡◌, add_u64, ◌≤◌, ◌<◌, u64_mod, IsU64, arith}
use Prim.Native.Nat.{bit_xor}
use raxos.Rng.{Rng, next_u64, range_inclusive, splitmix_mix, new, rotate_left}
use raxos.Rng.Bits.{bit_or-lt, bit_xor-lt}

draw_in_range :
    (low high x : ℕ)
    → low ≤ high
    → IsU64 high
    → high - low + 1 < u64_mod
    → add_u64 low (x % add_u64 ((high + u64_mod - low) % u64_mod) 1) ≡ low + x % (high - low + 1)
draw_in_range low high x le u w =
    let d : (high + u64_mod - low) % u64_mod ≡ high - low = omega arith in
    let e : add_u64 ((high + u64_mod - low) % u64_mod) 1 ≡ high - low + 1 = rw d (omega arith) in
    rw e (omega arith)

-- Every draw lies between the two bounds, whatever the state, where the bounds are u64 values in
-- order and are not 0 and `u64::MAX`, whose distance plus one is no u64.
pub range_inclusive_bounds :
    (low high : ℕ) (r : Rng)
    → low ≤ high
    → IsU64 high
    → high - low + 1 < u64_mod
    → (low ≤ (range_inclusive low high r).0) × ((range_inclusive low high r).0 ≤ high)
unfolding range_inclusive
range_inclusive_bounds low high r le u w =
    rw (draw_in_range low high (next_u64 r).0 le u w) (omega arith)

-- All four words of the state are u64 values.
pub record IsState (r : Rng) : Type 0 where
  pub w0 : IsU64 r.s0
  pub w1 : IsU64 r.s1
  pub w2 : IsU64 r.s2
  pub w3 : IsU64 r.s3

xor : (a b : ℕ) → IsU64 a → IsU64 b → IsU64 (bit_xor a b)
xor a b ha hb = bit_xor-lt 64 a b ha hb

mix-IsU64 : (sm : ℕ) → IsU64 (splitmix_mix sm)
unfolding splitmix_mix
mix-IsU64 sm = xor _ _ (omega arith) (omega arith)

rotate-IsU64 : (x : ℕ) → IsU64 x → IsU64 (rotate_left x 23) × IsU64 (rotate_left x 45)
rotate-IsU64 x h =
    (bit_or-lt 64 _ _ (omega arith) (omega arith), bit_or-lt 64 _ _ (omega arith) (omega arith))

-- Any seed gives a state of u64 words.
pub new-IsState : (seed : ℕ) → IsState (new seed)
unfolding new
new-IsState seed = record { w0 = mix-IsU64 _; w1 = mix-IsU64 _; w2 = mix-IsU64 _; w3 = mix-IsU64 _ }

-- A call on a state of u64 words returns a u64 and leaves such a state.
pub next_u64-IsState : (r : Rng) → IsState r → IsState (next_u64 r).1 × IsU64 (next_u64 r).0
unfolding next_u64
next_u64-IsState r h =
    let x2 = xor r.s2 r.s0 h.w2 h.w0 in
    let x3 = xor r.s3 r.s1 h.w3 h.w1 in
    (
      record {
        w0 = xor r.s0 _ h.w0 x3;
        w1 = xor r.s1 _ h.w1 x2;
        w2 = xor _ _ x2 (omega arith);
        w3 = (rotate-IsU64 _ x3).1;
      },
      omega arith,
    )
