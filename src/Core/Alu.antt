-- ===== src/Core/Alu.antt =====
-- src/core/alu.cpp. Registers hold 32-bit patterns. The binary32 operations of the processor and of
-- <cmath> are not code of this repository: they are the parameter `Binary32`, on bit patterns
-- (`std::bit_cast<float>` changes no bit).
pub mod Division
pub mod Shifts
pub mod Lanes
pub mod Words
use warp_sim.Base.{
  ℕ, ◌+◌, ◌-◌, ◌*◌, ◌/◌, ◌%◌, ◌^◌, ltb, leb, if◌then◌else◌, Bool, true, false, not, ◌&&◌, ◌||◌,
  bit_and, bit_or, bit_xor, Option, none, some,
}
use warp_sim.Isa.Opcode.{Opcode, SpecialRegisterInfo, number, opcode_info_of, special_register_info}
use warp_sim.Isa.Instruction.{Instruction, is_rr}
use warp_sim.Core.Types.{LaneMask, LaneContext, has_lane, for_range, special}
use warp_sim.Core.Signed.{
  ℤ, pos, negsuc, as_s32, from_s32, int_min, int_max, tdiv, tmod, eq_ℤ, lt_ℤ,
}
use warp_sim.Core.Registers.{RegisterFile, read, write, write_pred}

-- IEEE 754 binary32 on bit patterns: the operators of `float`, `std::fma`, `std::fmin`, `std::fmax`,
-- `std::isnan`, and the conversions from and to `std::int32_t`.
pub record Binary32 : Type 0 where
  pub add : ℕ → ℕ → ℕ
  pub sub : ℕ → ℕ → ℕ
  pub mul : ℕ → ℕ → ℕ
  pub fma : ℕ → ℕ → ℕ → ℕ
  pub fmin : ℕ → ℕ → ℕ
  pub fmax : ℕ → ℕ → ℕ
  pub eq : ℕ → ℕ → Bool
  pub lt : ℕ → ℕ → Bool
  pub le : ℕ → ℕ → Bool
  pub is_nan : ℕ → Bool
  pub from_int : ℤ → ℕ
  pub to_int : ℕ → ℤ

abbrev pub shift_mask : ℕ
shift_mask = 31

unfoldable pub wrap_add : ℕ → ℕ → ℕ
wrap_add a b = (a + b) % 2 ^ 32

unfoldable pub wrap_sub : ℕ → ℕ → ℕ
wrap_sub a b = (a + 2 ^ 32 - b) % 2 ^ 32

unfoldable pub wrap_mul : ℕ → ℕ → ℕ
wrap_mul a b = a * b % 2 ^ 32

unfoldable pub s32_div : ℕ → ℕ → ℕ
s32_div a b =
    let x = as_s32 a in
    let y = as_s32 b in
    if eq_ℤ y (pos 0)
    then 0
    else if eq_ℤ x int_min && eq_ℤ y (negsuc 0)
    then a
    else from_s32 (tdiv x y)

unfoldable pub s32_rem : ℕ → ℕ → ℕ
s32_rem a b =
    let x = as_s32 a in
    let y = as_s32 b in
    if eq_ℤ y (pos 0) || eq_ℤ x int_min && eq_ℤ y (negsuc 0) then 0 else from_s32 (tmod x y)

unfoldable pub sra : ℕ → ℕ → ℕ
sra a count =
    let n = bit_and count shift_mask in
    let logical = a / 2 ^ n in
    if lt_ℤ (as_s32 a) (pos 0) && ltb 0 n
    then bit_or logical (0xffff_ffff * 2 ^ (32 - n) % 2 ^ 32)
    else logical

-- 2147483648.0F and -2147483648.0F as bit patterns.
abbrev pub upper_bits : ℕ
upper_bits = 0x4f00_0000

abbrev pub lower_bits : ℕ
lower_bits = 0xcf00_0000

module _ (fp : Binary32) where
  open fp use {eq, lt, le, is_nan, to_int}

  unfoldable pub f32_to_s32 : ℕ → ℕ
  f32_to_s32 bits =
      if is_nan bits
      then 0
      else if le upper_bits bits
      then from_s32 int_max
      else if le bits lower_bits
      then from_s32 int_min
      else from_s32 (to_int bits)

  unfoldable pub compare_f32 : Opcode → ℕ → ℕ → Bool
  compare_f32 Opcode.setp_eq_f32 a b = eq a b
  compare_f32 Opcode.setp_ne_f32 a b = not (eq a b)
  compare_f32 Opcode.setp_lt_f32 a b = lt a b
  compare_f32 Opcode.setp_le_f32 a b = le a b
  compare_f32 Opcode.setp_gt_f32 a b = lt b a
  compare_f32 Opcode.setp_ge_f32 a b = le b a
  compare_f32 _ a b = false

unfoldable pub compare_s32 : Opcode → ℕ → ℕ → Bool
compare_s32 Opcode.setp_eq_s32 a b = eq_ℤ (as_s32 a) (as_s32 b)
compare_s32 Opcode.setp_ne_s32 a b = not (eq_ℤ (as_s32 a) (as_s32 b))
compare_s32 Opcode.setp_lt_s32 a b = lt_ℤ (as_s32 a) (as_s32 b)
compare_s32 Opcode.setp_le_s32 a b = not (lt_ℤ (as_s32 b) (as_s32 a))
compare_s32 Opcode.setp_gt_s32 a b = lt_ℤ (as_s32 b) (as_s32 a)
compare_s32 Opcode.setp_ge_s32 a b = not (lt_ℤ (as_s32 a) (as_s32 b))
compare_s32 _ a b = false

pub record Operands : Type 0 where
  pub a : ℕ
  pub b : ℕ

-- The single source of an RR instruction is src0 or the immediate.
unfoldable pub fetch : Instruction → RegisterFile → ℕ → Operands
fetch i rf lane =
    if is_rr (opcode_info_of i.opcode).shape
    then record { a = if i.imm_flag then i.imm else read rf lane i.src0; b = 0 }
    else record { a = read rf lane i.src0; b = if i.imm_flag then i.imm else read rf lane i.src1 }

-- `ctx.special(static_cast<SpecialRegister>(index), lane)`: 0 for an index that names none.
unfoldable pub special_value : LaneContext → Option SpecialRegisterInfo → ℕ → ℕ
special_value ctx none lane = 0
special_value ctx (some info) lane = special ctx info.reg lane

module _ (fp : Binary32) where
  unfoldable pub evaluate : Instruction → Opcode → Operands → ℕ → ℕ → LaneContext → ℕ
  unfolding special_value
  evaluate i Opcode.add o old lane ctx = wrap_add o.a o.b
  evaluate i Opcode.sub o old lane ctx = wrap_sub o.a o.b
  evaluate i Opcode.mul o old lane ctx = wrap_mul o.a o.b
  evaluate i Opcode.div o old lane ctx = s32_div o.a o.b
  evaluate i Opcode.rem o old lane ctx = s32_rem o.a o.b
  evaluate i Opcode.min o old lane ctx =
      from_s32 (if lt_ℤ (as_s32 o.b) (as_s32 o.a) then as_s32 o.b else as_s32 o.a)
  evaluate i Opcode.max o old lane ctx =
      from_s32 (if lt_ℤ (as_s32 o.a) (as_s32 o.b) then as_s32 o.b else as_s32 o.a)
  evaluate i Opcode.neg o old lane ctx = wrap_sub 0 o.a
  evaluate i Opcode.and o old lane ctx = bit_and o.a o.b
  evaluate i Opcode.or o old lane ctx = bit_or o.a o.b
  evaluate i Opcode.xor o old lane ctx = bit_xor o.a o.b
  evaluate i Opcode.not o old lane ctx = 0xffff_ffff - o.a
  evaluate i Opcode.shl o old lane ctx = o.a * 2 ^ bit_and o.b shift_mask % 2 ^ 32
  evaluate i Opcode.shr o old lane ctx = o.a / 2 ^ bit_and o.b shift_mask
  evaluate i Opcode.sra o old lane ctx = sra o.a o.b
  evaluate i Opcode.mov o old lane ctx = o.a
  evaluate i Opcode.fadd o old lane ctx = fp.add o.a o.b
  evaluate i Opcode.fsub o old lane ctx = fp.sub o.a o.b
  evaluate i Opcode.fmul o old lane ctx = fp.mul o.a o.b
  evaluate i Opcode.ffma o old lane ctx = fp.fma o.a o.b old
  evaluate i Opcode.fmin o old lane ctx = fp.fmin o.a o.b
  evaluate i Opcode.fmax o old lane ctx = fp.fmax o.a o.b
  evaluate i Opcode.fneg o old lane ctx = bit_xor o.a 0x8000_0000
  evaluate i Opcode.cvt_f32_s32 o old lane ctx = fp.from_int (as_s32 o.a)
  evaluate i Opcode.cvt_s32_f32 o old lane ctx = f32_to_s32 fp o.a
  evaluate i Opcode.mov_sreg o old lane ctx = special_value ctx (special_register_info i.src0) lane
  evaluate i _ o old lane ctx = 0

unfoldable pub is_setp : Opcode → Bool
is_setp op = leb 0x1a (number op) && leb (number op) 0x25

unfoldable pub is_setp_f32 : Opcode → Bool
is_setp_f32 op = leb 0x20 (number op)

unfoldable pub is_alu_opcode : Opcode → Bool
is_alu_opcode Opcode.bra = false
is_alu_opcode Opcode.exit = false
is_alu_opcode Opcode.bar_sync = false
is_alu_opcode Opcode.ld_global = false
is_alu_opcode Opcode.st_global = false
is_alu_opcode Opcode.ld_shared = false
is_alu_opcode Opcode.st_shared = false
is_alu_opcode Opcode.ld_param = false
is_alu_opcode _ = true

module _ (fp : Binary32) (i : Instruction) (ctx : LaneContext) where
  -- The body of the loop for one executing lane.
  unfoldable pub execute_lane : ℕ → RegisterFile → RegisterFile
  execute_lane lane rf =
      let o = fetch i rf lane in
      if is_setp i.opcode
      then write_pred rf lane i.dst (
          if is_setp_f32 i.opcode
          then compare_f32 fp i.opcode o.a o.b
          else compare_s32 i.opcode o.a o.b)
      else write rf lane i.dst (evaluate fp i i.opcode o (read rf lane i.dst) lane ctx)

  unfoldable pub execute_alu : LaneMask → RegisterFile → RegisterFile
  unfolding execute_lane for_range
  execute_alu exec rf =
      for_range 32 0 (λ lane s. if has_lane exec lane then execute_lane lane s else s) rf
