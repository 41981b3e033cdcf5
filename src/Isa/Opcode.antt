-- ===== src/Isa/Opcode.antt =====
-- include/warpsim/isa/opcode.hpp: the opcodes with their numbers, mnemonics and operand shapes, and
-- the lookups in the two tables. A text is looked up by the string test of the library.
use text.Mathlib.Text.{◌==◌ as str_eq}
use warp_sim.Base.{ℕ, String, ◌==◌, if◌then◌else◌, Option, none, some, List, [], ◌∷◌}

-- `enum class Opcode`, in the order of its numbers.
pub data Opcode : Type 0 where
  add sub mul div rem min max neg and or xor not shl shr sra mov fadd fsub fmul ffma : Opcode
  fmin fmax fneg cvt_f32_s32 cvt_s32_f32 setp_eq_s32 setp_ne_s32 setp_lt_s32 : Opcode
  setp_le_s32 setp_gt_s32 setp_ge_s32 setp_eq_f32 setp_ne_f32 setp_lt_f32 setp_le_f32 : Opcode
  setp_gt_f32 setp_ge_f32 mov_sreg bra exit bar_sync ld_global st_global ld_shared : Opcode
  st_shared ld_param : Opcode

-- `static_cast<std::uint8_t>(opcode)`
unfoldable pub number : Opcode → ℕ
number add = 0x01
number sub = 0x02
number mul = 0x03
number div = 0x04
number rem = 0x05
number min = 0x06
number max = 0x07
number neg = 0x08
number and = 0x09
number or = 0x0a
number xor = 0x0b
number not = 0x0c
number shl = 0x0d
number shr = 0x0e
number sra = 0x0f
number mov = 0x10
number fadd = 0x11
number fsub = 0x12
number fmul = 0x13
number ffma = 0x14
number fmin = 0x15
number fmax = 0x16
number fneg = 0x17
number cvt_f32_s32 = 0x18
number cvt_s32_f32 = 0x19
number setp_eq_s32 = 0x1a
number setp_ne_s32 = 0x1b
number setp_lt_s32 = 0x1c
number setp_le_s32 = 0x1d
number setp_gt_s32 = 0x1e
number setp_ge_s32 = 0x1f
number setp_eq_f32 = 0x20
number setp_ne_f32 = 0x21
number setp_lt_f32 = 0x22
number setp_le_f32 = 0x23
number setp_gt_f32 = 0x24
number setp_ge_f32 = 0x25
number mov_sreg = 0x26
number Opcode.bra = 0x27
number exit = 0x28
number bar_sync = 0x29
number ld_global = 0x2a
number st_global = 0x2b
number ld_shared = 0x2c
number st_shared = 0x2d
number ld_param = 0x2e

-- `enum class Shape`: which encoding fields an opcode uses.
pub data Shape : Type 0 where
  rrr rr acc prr sreg bra no_operands ld st ldp : Shape

pub record OpcodeInfo : Type 0 where
  pub opcode : Opcode
  pub mnemonic : String
  pub shape : Shape

abbrev entry : Opcode → String → Shape → OpcodeInfo
entry o m s = record { opcode = o; mnemonic = m; shape = s }

abbrev pub opcode_table : List OpcodeInfo
opcode_table =
    entry add "add" Shape.rrr
    ∷ entry sub "sub" Shape.rrr
    ∷ entry mul "mul" Shape.rrr
    ∷ entry div "div" Shape.rrr
    ∷ entry rem "rem" Shape.rrr
    ∷ entry min "min" Shape.rrr
    ∷ entry max "max" Shape.rrr
    ∷ entry neg "neg" Shape.rr
    ∷ entry and "and" Shape.rrr
    ∷ entry or "or" Shape.rrr
    ∷ entry xor "xor" Shape.rrr
    ∷ entry not "not" Shape.rr
    ∷ entry shl "shl" Shape.rrr
    ∷ entry shr "shr" Shape.rrr
    ∷ entry sra "sra" Shape.rrr
    ∷ entry mov "mov" Shape.rr
    ∷ entry fadd "fadd" Shape.rrr
    ∷ entry fsub "fsub" Shape.rrr
    ∷ entry fmul "fmul" Shape.rrr
    ∷ entry ffma "ffma" Shape.acc
    ∷ entry fmin "fmin" Shape.rrr
    ∷ entry fmax "fmax" Shape.rrr
    ∷ entry fneg "fneg" Shape.rr
    ∷ entry cvt_f32_s32 "cvt.f32.s32" Shape.rr
    ∷ entry cvt_s32_f32 "cvt.s32.f32" Shape.rr
    ∷ entry setp_eq_s32 "setp.eq.s32" Shape.prr
    ∷ entry setp_ne_s32 "setp.ne.s32" Shape.prr
    ∷ entry setp_lt_s32 "setp.lt.s32" Shape.prr
    ∷ entry setp_le_s32 "setp.le.s32" Shape.prr
    ∷ entry setp_gt_s32 "setp.gt.s32" Shape.prr
    ∷ entry setp_ge_s32 "setp.ge.s32" Shape.prr
    ∷ entry setp_eq_f32 "setp.eq.f32" Shape.prr
    ∷ entry setp_ne_f32 "setp.ne.f32" Shape.prr
    ∷ entry setp_lt_f32 "setp.lt.f32" Shape.prr
    ∷ entry setp_le_f32 "setp.le.f32" Shape.prr
    ∷ entry setp_gt_f32 "setp.gt.f32" Shape.prr
    ∷ entry setp_ge_f32 "setp.ge.f32" Shape.prr
    ∷ entry mov_sreg "mov.sreg" Shape.sreg
    ∷ entry Opcode.bra "bra" Shape.bra
    ∷ entry exit "exit" Shape.no_operands
    ∷ entry bar_sync "bar.sync" Shape.no_operands
    ∷ entry ld_global "ld.global" Shape.ld
    ∷ entry st_global "st.global" Shape.st
    ∷ entry ld_shared "ld.shared" Shape.ld
    ∷ entry st_shared "st.shared" Shape.st
    ∷ entry ld_param "ld.param" Shape.ldp
    ∷ []

unfoldable pub find_number : ℕ → List OpcodeInfo → Option OpcodeInfo
find_number n [] = none
find_number n (e ∷ es) = if number e.opcode == n then some e else find_number n es

-- `opcode_info(std::uint8_t)`
unfoldable pub opcode_info : ℕ → Option OpcodeInfo
unfolding find_number
opcode_info n = find_number n opcode_table

-- `opcode_info(Opcode)`: the fallback is the first entry of the table.
unfoldable pub opcode_info_of : Opcode → OpcodeInfo
unfolding opcode_info
opcode_info_of op = elim (opcode_info (number op)) [ none ↦ entry add "add" Shape.rrr | some e ↦ e ]

unfoldable pub find_mnemonic : String → List OpcodeInfo → Option OpcodeInfo
find_mnemonic m [] = none
find_mnemonic m (e ∷ es) = if str_eq e.mnemonic m then some e else find_mnemonic m es

-- `opcode_info(std::string_view)`
unfoldable pub opcode_info_named : String → Option OpcodeInfo
unfolding find_mnemonic
opcode_info_named m = find_mnemonic m opcode_table

-- `enum class SpecialRegister`, in the order of its indices.
pub data SpecialRegister : Type 0 where
  tid_x tid_y ntid_x ntid_y ctaid_x ctaid_y nctaid_x nctaid_y : SpecialRegister
  lane_id warp_id : SpecialRegister

unfoldable pub index : SpecialRegister → ℕ
index tid_x = 0
index tid_y = 1
index ntid_x = 2
index ntid_y = 3
index ctaid_x = 4
index ctaid_y = 5
index nctaid_x = 6
index nctaid_y = 7
index lane_id = 8
index warp_id = 9

pub record SpecialRegisterInfo : Type 0 where
  pub reg : SpecialRegister
  pub name : String

abbrev special : SpecialRegister → String → SpecialRegisterInfo
special r n = record { reg = r; name = n }

abbrev pub special_register_table : List SpecialRegisterInfo
special_register_table =
    special tid_x "%tid.x"
    ∷ special tid_y "%tid.y"
    ∷ special ntid_x "%ntid.x"
    ∷ special ntid_y "%ntid.y"
    ∷ special ctaid_x "%ctaid.x"
    ∷ special ctaid_y "%ctaid.y"
    ∷ special nctaid_x "%nctaid.x"
    ∷ special nctaid_y "%nctaid.y"
    ∷ special lane_id "%laneid"
    ∷ special warp_id "%warpid"
    ∷ []

unfoldable pub find_special : ℕ → List SpecialRegisterInfo → Option SpecialRegisterInfo
find_special n [] = none
find_special n (e ∷ es) = if index e.reg == n then some e else find_special n es

-- `special_register_info(std::uint8_t)`
unfoldable pub special_register_info : ℕ → Option SpecialRegisterInfo
unfolding find_special
special_register_info n = find_special n special_register_table

unfoldable pub find_special_name : String → List SpecialRegisterInfo → Option SpecialRegisterInfo
find_special_name m [] = none
find_special_name m (e ∷ es) = if str_eq e.name m then some e else find_special_name m es

-- `special_register_info(std::string_view)`
unfoldable pub special_register_info_named : String → Option SpecialRegisterInfo
unfolding find_special_name
special_register_info_named m = find_special_name m special_register_table
