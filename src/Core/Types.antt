-- ===== src/Core/Types.antt =====
-- include/warpsim/core/types.hpp and lane_context.hpp: lane masks, launch geometry and the special
-- registers.
pub mod Loops
pub mod Masks
use warp_sim.Base.{ℕ, zero, suc, ◌+◌, ◌-◌, ◌*◌, ◌/◌, ◌%◌, ◌^◌, ◌==◌, Bool, not, bit_and}
use warp_sim.Isa.Opcode.{
  SpecialRegister, tid_x, tid_y, ntid_x, ntid_y, ctaid_x, ctaid_y, nctaid_x, nctaid_y, lane_id,
  warp_id,
}

abbrev pub warp_size : ℕ
warp_size = 32

-- A set of lanes is a `std::uint32_t`; bit i is lane i.
abbrev pub LaneMask : Type 0
LaneMask = ℕ

abbrev pub full_mask : LaneMask
full_mask = 0xffff_ffff

unfoldable pub lane_bit : ℕ → LaneMask
lane_bit lane = 2 ^ lane % 2 ^ 32

unfoldable pub has_lane : LaneMask → ℕ → Bool
unfolding lane_bit
has_lane mask lane = not (bit_and mask (lane_bit lane) == 0)

-- `~mask` on 32 bits.
unfoldable pub complement : LaneMask → LaneMask
complement mask = full_mask - mask

-- `std::popcount` on a word of the given width.
unfoldable pub popcount : ℕ → ℕ → ℕ
popcount zero m = 0
popcount (suc width) m = m % 2 + popcount width (m / 2)

unfoldable pub lane_count : LaneMask → ℕ
unfolding popcount
lane_count mask = popcount 32 mask

-- `for (i = first; i < first + rounds; ++i) s = body(i, s)`
unfoldable pub for_range {ℓ} : {S : Type ℓ} → ℕ → ℕ → (ℕ → S → S) → S → S
for_range zero i body s = s
for_range (suc rounds) i body s = for_range rounds (i + 1) body (body i s)

pub record Dim2 : Type 0 where
  pub x : ℕ
  pub y : ℕ

unfoldable pub count : Dim2 → ℕ
count d = d.x * d.y % 2 ^ 32

pub record LaneContext : Type 0 where
  pub ntid : Dim2
  pub nctaid : Dim2
  pub ctaid : Dim2
  pub warp : ℕ

unfoldable pub linear_index : LaneContext → ℕ → ℕ
linear_index c lane = (c.warp * warp_size % 2 ^ 32 + lane) % 2 ^ 32

-- `LaneContext::special`
unfoldable pub special : LaneContext → SpecialRegister → ℕ → ℕ
unfolding linear_index
special c tid_x lane = linear_index c lane % c.ntid.x
special c tid_y lane = linear_index c lane / c.ntid.x
special c ntid_x lane = c.ntid.x
special c ntid_y lane = c.ntid.y
special c ctaid_x lane = c.ctaid.x
special c ctaid_y lane = c.ctaid.y
special c nctaid_x lane = c.nctaid.x
special c nctaid_y lane = c.nctaid.y
special c lane_id lane = lane
special c warp_id lane = c.warp
