-- ===== src/Core/Alu/Words.antt =====
-- The two's complement reading of a 32-bit word in src/core/alu.cpp (`as_s32`, `from_s32`).
use warp_sim.Base.{ℕ, ◌^◌, ◌<◌, ◌≡◌, arith}
use warp_sim.Core.Signed.{ℤ, pos, negsuc, as_s32, from_s32}

-- The integers that 32 bits can hold.
abbrev pub InS32 : ℤ → Type 0
InS32 (pos n) = n < 2 ^ 31
InS32 (negsuc n) = n < 2 ^ 31

pub as_s32-InS32 : (w : ℕ) → w < 2 ^ 32 → InS32 (as_s32 w)
unfolding as_s32
as_s32-InS32 w h = ground arith

pub from_s32-as_s32 : (w : ℕ) → w < 2 ^ 32 → from_s32 (as_s32 w) ≡ w
unfolding as_s32 from_s32
from_s32-as_s32 w h = ground arith

as_s32-from_s32 : (x : ℤ) → InS32 x → as_s32 (from_s32 x) ≡ x
unfolding as_s32 from_s32
as_s32-from_s32 (pos n) h = ground arith
as_s32-from_s32 (negsuc n) h = ground arith
