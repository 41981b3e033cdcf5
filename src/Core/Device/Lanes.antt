-- ===== src/Core/Device/Lanes.antt =====
-- Which lanes a block has (the first loop of `run_block` in src/core/device.cpp), and where they stand in
-- it (include/warpsim/core/lane_context.hpp; docs/wisa-spec.md section 1).
use warp_sim.Base.{
  ℕ, ◌+◌, ◌-◌, ◌*◌, ◌%◌, ◌^◌, ◌<◌, ◌≤◌, ◌≡◌, ◌≢◌, ltb, ◌==◌, if◌then◌else◌, refl, arith, Bool-cases,
  inl, inr,
}
use warp_sim.Bits.{bit-ones}
use warp_sim.Isa.Opcode.{tid_x, tid_y}
use warp_sim.Core.Types.{LaneContext, has_lane, lane_bit, linear_index, special}
use warp_sim.Core.Types.Masks.{has_lane-bit, lane_bit-pow}
use warp_sim.Core.Device.{live_mask}

low_mask : (k : ℕ) → k ≤ 32 → (if k == 32 then 0xffff_ffff else lane_bit k - 1) ≡ 2 ^ k - 1
low_mask k h = elim (Bool-cases (k == 32)) [
  | inl full ↦ rw full (ground (arith, full))
  | inr part ↦ rw (part, lane_bit-pow k (ground (arith, part, h))) refl
]

-- The lanes of warp w in a block of the given size.
abbrev in_warp : ℕ → ℕ → ℕ
in_warp lanes w = if ltb (lanes - w * 32) 32 then lanes - w * 32 else 32

in_warp-le : (lanes w : ℕ) → in_warp lanes w ≤ 32
in_warp-le lanes w = ground arith

-- Within the block the subtraction does not wrap.
no_wrap :
    (lanes w : ℕ)
    → lanes < 2 ^ 32
    → w * 32 ≤ lanes
    → (lanes + 2 ^ 32 - w * 32 % 2 ^ 32) % 2 ^ 32 ≡ lanes - w * 32
no_wrap lanes w small le = omega arith

live_mask-ones :
    (lanes w : ℕ) → lanes < 2 ^ 32 → w * 32 ≤ lanes → live_mask lanes w ≡ 2 ^ in_warp lanes w - 1
unfolding live_mask
live_mask-ones lanes w small le =
    rw (live_mask, no_wrap lanes w small le) (low_mask (in_warp lanes w) (in_warp-le lanes w))

in_warp_test :
    (lanes w l : ℕ)
    → l < 32
    → ((if ltb l (in_warp lanes w) then 1 else 0) == 1) ≡ ltb (w * 32 + l) lanes
in_warp_test lanes w l h = ground arith

-- If warp w begins within the block or at its end, lane l, below 32, of it is live at the start exactly
-- when its index 32 * w + l is below the number of lanes of the block.
pub live_mask_lane :
    (lanes w l : ℕ)
    → lanes < 2 ^ 32
    → w * 32 ≤ lanes
    → l < 32
    → has_lane (live_mask lanes w) l ≡ ltb (w * 32 + l) lanes
live_mask_lane lanes w l small le h =
    rw
      (
        has_lane-bit (live_mask lanes w) l h,
        live_mask-ones lanes w small le,
        bit-ones (in_warp lanes w) l,
      )
      (in_warp_test lanes w l h)

linear_index_lem :
    (c : LaneContext) (lane : ℕ)
    → c.warp * 32 + lane < 2 ^ 32
    → linear_index c lane ≡ c.warp * 32 + lane
unfolding linear_index
linear_index_lem c lane h = omega (arith, h)

-- If the block has a width, lane l of warp w has the coordinates of place 32 * w + l in the block,
-- counted row by row: tid.x is below the width, and tid.x + tid.y * ntid.x is 32 * w + l, if that
-- fits 32 bits.
pub special-linear_index :
    (c : LaneContext) (lane : ℕ)
    → c.ntid.x ≢ 0
    → c.warp * 32 + lane < 2 ^ 32
    → (special c tid_x lane + special c tid_y lane * c.ntid.x ≡ c.warp * 32 + lane)
      × (special c tid_x lane < c.ntid.x)
unfolding special
special-linear_index c lane h small = rw (linear_index_lem c lane small) (ground arith)
