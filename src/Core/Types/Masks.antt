-- ===== src/Core/Types/Masks.antt =====
-- Lane masks bit by bit: what the operations of include/warpsim/core/types.hpp do to one lane.
use native.Mathlib.Nat.{mod-eq_of_lt, one-le-pow}
use warp_sim.Base.{
  ℕ, zero, suc, ◌-◌, ◌*◌, ◌/◌, ◌^◌, ◌<◌, ◌≤◌, ◌==◌, if◌then◌else◌, ◌≡◌, arith, not, bit_and, min,
}
use warp_sim.Bits.{bit, bit-le-one, bit_and-pow, bit-bit_and, bit-complement, bit-pow, pow-lt-pow}
use warp_sim.Core.Types.{lane_bit, has_lane, complement, popcount, lane_count}

pub lane_bit-pow : (l : ℕ) → l < 32 → lane_bit l ≡ 2 ^ l
unfolding lane_bit
lane_bit-pow l h = mod-eq_of_lt (pow-lt-pow l 32 h)

scaled_test : (b k : ℕ) → b ≤ 1 → 1 ≤ k → not (b * k == 0) ≡ (b == 1)
scaled_test zero k hb hk = ground arith
scaled_test (suc zero) k hb hk = ground arith
scaled_test (suc (suc b)) k hb hk = absurd (omega arith)

-- The test of a lane reads its bit.
pub has_lane-bit : (m l : ℕ) → l < 32 → has_lane m l ≡ (bit m l == 1)
unfolding has_lane
has_lane-bit m l h =
    rw (lane_bit-pow l h, bit_and-pow m l)
      (scaled_test (bit m l) (2 ^ l) (bit-le-one m l) (one-le-pow l 2 (omega arith)))

pub bit-lane_bit : (j l : ℕ) → j < 32 → bit (lane_bit j) l ≡ (if l == j then 1 else 0)
bit-lane_bit j l h = rw (lane_bit-pow j h) (bit-pow j l)

-- `a & ~b` keeps the lanes of `a` that are not in `b`.
pub bit-and_not :
    (a b l : ℕ)
    → b < 2 ^ 32
    → l < 32
    → bit (bit_and a (complement b)) l ≡ min (bit a l) (1 - bit b l)
unfolding complement
bit-and_not a b l hb h = rw (bit-bit_and, bit-complement 32 b l hb h)

popcount-le : (n m : ℕ) → popcount n m ≤ n
unfolding popcount
popcount-le zero m = omega arith
popcount-le (suc n) m = omega (arith, popcount-le n (m / 2))

pub lane_count-le : (m : ℕ) → lane_count m ≤ 32
unfolding lane_count
lane_count-le m = popcount-le 32 m
