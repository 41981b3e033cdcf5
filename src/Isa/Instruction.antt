-- ===== src/Isa/Instruction.antt =====
-- include/warpsim/isa/instruction.hpp and `validate` of src/isa/instruction.cpp. An opcode of the
-- model is one of the enumerators, so the `InvalidOpcode` branch of `validate` is written out and
-- cannot be taken; `decode` reaches it for a number outside the table.
use warp_sim.Base.{
  ℕ, String, ◌*◌, ◌/◌, ◌%◌, ◌^◌, leb, ◌==◌, if◌then◌else◌, Bool, true, false, not, ◌&&◌, ◌||◌,
  Option, none, some, bit_and, bit_or, Result, fail, fail_if, ◌>>◌,
}
use warp_sim.Isa.Opcode.{Opcode, Shape, OpcodeInfo, number, opcode_info}

abbrev pub general_register_count : ℕ
general_register_count = 64

abbrev pub predicate_register_count : ℕ
predicate_register_count = 8

abbrev pub no_reconvergence : ℕ
no_reconvergence = 0xffff

abbrev pub special_register_count : ℕ
special_register_count = 10

pub record Guard : Type 0 where
  pub present : Bool
  pub negate : Bool
  pub pred : ℕ

pub record Instruction : Type 0 where
  pub opcode : Opcode
  pub guard : Guard
  pub dst : ℕ
  pub src0 : ℕ
  pub src1 : ℕ
  pub imm_flag : Bool
  pub imm : ℕ

-- `branch_target`, `reconvergence_pc` and `make_branch_imm`: the two halves of a `bra` immediate.
unfoldable pub branch_target : Instruction → ℕ
branch_target i = bit_and i.imm 0xffff % 2 ^ 16

unfoldable pub reconvergence_pc : Instruction → ℕ
reconvergence_pc i = i.imm / 2 ^ 16 % 2 ^ 16

unfoldable pub make_branch_imm : ℕ → ℕ → ℕ
make_branch_imm target reconvergence = bit_or (reconvergence * 2 ^ 16 % 2 ^ 32) target

pub data IsaError : Type 0 where
  invalid_opcode guard_fields_without_guard unused_field_not_zero : IsaError
  predicate_out_of_range special_register_out_of_range immediate_flag_mismatch : IsaError

unfoldable pub to_string : IsaError → String
to_string invalid_opcode = "invalid opcode"
to_string guard_fields_without_guard = "guard fields set without a guard"
to_string unused_field_not_zero = "unused field is not zero"
to_string predicate_out_of_range = "predicate register out of range"
to_string special_register_out_of_range = "special register index out of range"
to_string immediate_flag_mismatch = "immediate flag does not match the operand shape"

-- `struct FieldUse`: which fields a shape uses.
pub record FieldUse : Type 0 where
  pub dst : Bool
  pub src0 : Bool
  pub src1 : Bool
  pub imm_optional : Bool
  pub imm_always : Bool
  pub imm_raw : Bool

abbrev uses : Bool → Bool → Bool → Bool → Bool → Bool → FieldUse
uses a b c d e f = record {
  dst = a;
  src0 = b;
  src1 = c;
  imm_optional = d;
  imm_always = e;
  imm_raw = f;
}

unfoldable pub field_use : Shape → FieldUse
field_use Shape.rrr = uses true true true true false false
field_use Shape.prr = uses true true true true false false
field_use Shape.rr = uses true true false true false false
field_use Shape.acc = uses true true true false false false
field_use Shape.sreg = uses true true false false false false
field_use Shape.bra = uses false false false false false true
field_use Shape.no_operands = uses false false false false false false
field_use Shape.ld = uses true true false false true false
field_use Shape.st = uses false true true false true false
field_use Shape.ldp = uses true false false false true false

abbrev pub Checked : Type 0
Checked = Result (Unit {0}) IsaError

abbrev pub is_rr : Shape → Bool
is_rr Shape.rr = true
is_rr _ = false

abbrev pub is_prr : Shape → Bool
is_prr Shape.prr = true
is_prr _ = false

abbrev pub is_sreg : Shape → Bool
is_sreg Shape.sreg = true
is_sreg _ = false

-- The guard's fields and the ranges of the register numbers.
unfoldable pub validate_ranges : Instruction → Checked
validate_ranges i = do
  fail_if (not i.guard.present && (i.guard.negate || not (i.guard.pred == 0)))
      guard_fields_without_guard
  fail_if (leb predicate_register_count i.guard.pred) predicate_out_of_range
  fail_if
      (leb general_register_count i.dst
        || leb general_register_count i.src0
        || leb general_register_count i.src1)
      unused_field_not_zero

-- Register fields that the shape does not use are zero.
unfoldable pub validate_unused : FieldUse → Instruction → Checked
validate_unused use' i = do
  fail_if (not use'.dst && not (i.dst == 0)) unused_field_not_zero
  fail_if (not use'.src0 && not (i.src0 == 0)) unused_field_not_zero
  fail_if (not use'.src1 && not (i.src1 == 0)) unused_field_not_zero

-- The immediate and its flag.
unfoldable pub validate_immediate : FieldUse → Shape → Instruction → Checked
validate_immediate use' shape i =
    if use'.imm_always
    then fail_if (not i.imm_flag) immediate_flag_mismatch
    else if use'.imm_raw
    then fail_if i.imm_flag immediate_flag_mismatch
    else if use'.imm_optional
    then (if i.imm_flag
        then fail_if (not ((if is_rr shape then i.src0 else i.src1) == 0)) unused_field_not_zero
        else fail_if (not (i.imm == 0)) unused_field_not_zero)
    else (do
      fail_if i.imm_flag immediate_flag_mismatch
      fail_if (not (i.imm == 0)) unused_field_not_zero)

-- The ranges that depend on the shape.
unfoldable pub validate_shape : Shape → Instruction → Checked
validate_shape shape i = do
  fail_if (is_prr shape && leb predicate_register_count i.dst) predicate_out_of_range
  fail_if (is_sreg shape && leb special_register_count i.src0) special_register_out_of_range

unfoldable pub validate_entry : Option OpcodeInfo → Instruction → Checked
validate_entry none i = fail invalid_opcode
validate_entry (some info) i = do
  validate_ranges i
  validate_unused (field_use info.shape) i
  validate_immediate (field_use info.shape) info.shape i
  validate_shape info.shape i

unfoldable pub validate : Instruction → Checked
unfolding validate_entry validate_ranges validate_unused validate_immediate validate_shape field_use
validate i = validate_entry (opcode_info (number i.opcode)) i
