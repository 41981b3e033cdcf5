-- ===== src/Core/Signed.antt =====
-- `std::int32_t` as the integer that a 32-bit pattern stands for, with C++'s division (truncated
-- towards zero) and remainder.
use warp_sim.Base.{ℕ, zero, suc, ◌-◌, ◌/◌, ◌%◌, ◌^◌, ltb, ◌==◌, if◌then◌else◌, Bool, true, false}

-- `negsuc n` is -(n + 1).
pub data ℤ : Type 0 where
  pos : ℕ → ℤ
  negsuc : ℕ → ℤ

-- `as_s32` and `from_s32` of src/core/alu.cpp: `std::bit_cast` both ways.
unfoldable pub as_s32 : ℕ → ℤ
as_s32 w = if ltb w (2 ^ 31) then pos w else negsuc (2 ^ 32 - 1 - w)

unfoldable pub from_s32 : ℤ → ℕ
from_s32 (pos n) = n
from_s32 (negsuc n) = 2 ^ 32 - 1 - n

abbrev pub int_min : ℤ
int_min = negsuc 0x7fff_ffff

abbrev pub int_max : ℤ
int_max = pos 0x7fff_ffff

-- -n
abbrev pub negate : ℕ → ℤ
negate zero = pos 0
negate (suc n) = negsuc n

-- `x / y` and `x % y` for y ≠ 0.
unfoldable pub tdiv : ℤ → ℤ → ℤ
tdiv (pos m) (pos n) = pos (m / n)
tdiv (pos m) (negsuc n) = negate (m / suc n)
tdiv (negsuc m) (pos n) = negate (suc m / n)
tdiv (negsuc m) (negsuc n) = pos (suc m / suc n)

unfoldable pub tmod : ℤ → ℤ → ℤ
tmod (pos m) (pos n) = pos (m % n)
tmod (pos m) (negsuc n) = pos (m % suc n)
tmod (negsuc m) (pos n) = negate (suc m % n)
tmod (negsuc m) (negsuc n) = negate (suc m % suc n)

unfoldable pub eq_ℤ : ℤ → ℤ → Bool
eq_ℤ (pos m) (pos n) = m == n
eq_ℤ (negsuc m) (negsuc n) = m == n
eq_ℤ (pos m) (negsuc n) = false
eq_ℤ (negsuc m) (pos n) = false

unfoldable pub lt_ℤ : ℤ → ℤ → Bool
lt_ℤ (pos m) (pos n) = ltb m n
lt_ℤ (negsuc m) (negsuc n) = ltb n m
lt_ℤ (pos m) (negsuc n) = false
lt_ℤ (negsuc m) (pos n) = true
