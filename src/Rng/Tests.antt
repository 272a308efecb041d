-- ===== src/Rng/Tests.antt =====
-- The generator at concrete seeds.
use raxos.Prelude.{◌≤◌, ◌≡◌, refl, arith}
use raxos.Rng.{new, next_u64, range_inclusive}
use raxos.Rng.Range.{range_inclusive_bounds}

-- The first output of xoshiro256++ from the state 1, 2, 3, 4 (its authors' reference code).
first_output : (next_u64 (record { s0 = 1; s1 = 2; s2 = 3; s3 = 4 })).0 ≡ 41943041
unfolding next_u64
first_output = refl

-- The first word of splitmix64 from seed 0.
first_word : (new 0).s0 ≡ 0xe220a8397b1dcdaf
unfolding new
first_word = refl

single_point : (range_inclusive 5 5 (new 7)).0 ≡ 5
unfolding range_inclusive next_u64 new
single_point = refl

range_inclusive_bounds_example :
    (1 ≤ (range_inclusive 1 4294967294 (new 7)).0)
    × ((range_inclusive 1 4294967294 (new 7)).0 ≤ 4294967294)
range_inclusive_bounds_example =
    range_inclusive_bounds 1 4294967294 (new 7) (omega arith) (omega arith) (omega arith)
