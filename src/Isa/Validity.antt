-- ===== src/Isa/Validity.antt =====
-- What `validate` of src/isa/instruction.cpp accepts: exactly the instructions whose fields fit their
-- places in the word and that use no field outside their operand shape (docs/wisa-spec.md section 3).
use warp_sim.Base.{ℕ, ◌<◌, ◌≡◌, ◌⊎◌, ◌↔◌, true, false, ok, arith, >>=-eq-ok, ◌>>◌}
use warp_sim.Isa.Opcode.{Shape, opcode_info_of}
use warp_sim.Isa.Table.{opcode_info-number}
use warp_sim.Isa.Instruction.{
  Instruction, Checked, validate, validate_entry, validate_ranges, validate_unused,
  validate_immediate, validate_shape, field_use,
}

-- Every field fits its place in the word.
pub record FitsFields (i : Instruction) : Type 0 where
  pub pred_fits : i.guard.pred < 8
  pub dst_fits : i.dst < 64
  pub src0_fits : i.src0 < 64
  pub src1_fits : i.src1 < 64

-- A guard that is absent has no predicate and no sense.
abbrev pub GuardCanonical : Instruction → Type 0
GuardCanonical i = (i.guard.present ≡ true) ⊎ ((i.guard.negate ≡ false) × (i.guard.pred ≡ 0))

-- The second source is a register, or an immediate with no register beside it.
abbrev RegisterOrImmediate : Instruction → ℕ → Type 0
RegisterOrImmediate i register =
    ((i.imm_flag ≡ true) × (register ≡ 0)) ⊎ ((i.imm_flag ≡ false) × (i.imm ≡ 0))

-- The fields that each operand shape allows.
abbrev pub ShapeCanonical : Shape → Instruction → Type 0
ShapeCanonical Shape.rrr i = RegisterOrImmediate i i.src1
ShapeCanonical Shape.rr i = (i.src1 ≡ 0) × RegisterOrImmediate i i.src0
ShapeCanonical Shape.acc i = (i.imm_flag ≡ false) × (i.imm ≡ 0)
ShapeCanonical Shape.prr i = (i.dst < 8) × RegisterOrImmediate i i.src1
ShapeCanonical Shape.sreg i = (i.src0 < 10) × (i.src1 ≡ 0) × (i.imm_flag ≡ false) × (i.imm ≡ 0)
ShapeCanonical Shape.bra i = (i.dst ≡ 0) × (i.src0 ≡ 0) × (i.src1 ≡ 0) × (i.imm_flag ≡ false)
ShapeCanonical Shape.no_operands i =
    (i.dst ≡ 0) × (i.src0 ≡ 0) × (i.src1 ≡ 0) × (i.imm_flag ≡ false) × (i.imm ≡ 0)
ShapeCanonical Shape.ld i = (i.src1 ≡ 0) × (i.imm_flag ≡ true)
ShapeCanonical Shape.st i = (i.dst ≡ 0) × (i.imm_flag ≡ true)
ShapeCanonical Shape.ldp i = (i.src0 ≡ 0) × (i.src1 ≡ 0) × (i.imm_flag ≡ true)

abbrev pub Canonical : Instruction → Type 0
Canonical i = FitsFields i × GuardCanonical i × ShapeCanonical (opcode_info_of i.opcode).shape i

-- What follows the range checks in `validate`.
shape_checks : Shape → Instruction → Checked
shape_checks s i = do
  validate_unused (field_use s) i
  validate_immediate (field_use s) s i
  validate_shape s i

shape_checks-ShapeCanonical :
    (s : Shape) (i : Instruction) → shape_checks s i ≡ ok tt → ShapeCanonical s i
unfolding shape_checks validate_unused validate_immediate validate_shape field_use
shape_checks-ShapeCanonical Shape.rrr i h = ground arith
shape_checks-ShapeCanonical _ i h = ground arith

ShapeCanonical-shape_checks :
    (s : Shape) (i : Instruction) → ShapeCanonical s i → shape_checks s i ≡ ok tt
unfolding shape_checks validate_unused validate_immediate validate_shape field_use
ShapeCanonical-shape_checks Shape.rrr i h = ground arith
ShapeCanonical-shape_checks _ i h = ground arith

validate_ranges_iff :
    (i : Instruction) → (validate_ranges i ≡ ok tt) ↔ (FitsFields i × GuardCanonical i)
unfolding validate_ranges
validate_ranges_iff i = (λ h. ground arith, λ h. ground arith)

validate_split :
    (i : Instruction)
    → validate i ≡ (validate_ranges i >> shape_checks (opcode_info_of i.opcode).shape i)
unfolding validate shape_checks
validate_split i = rw (opcode_info-number i.opcode, validate_entry)

-- `validate` accepts an instruction exactly when it is canonical: its fields fit, an absent guard
-- is zero, and the fields that its operand shape does not use are zero.
pub validate-Canonical_iff : (i : Instruction) → (validate i ≡ ok tt) ↔ Canonical i
validate-Canonical_iff i = (accepted, canonical)
  where
    s : Shape
    s = (opcode_info_of i.opcode).shape

    accepted : validate i ≡ ok tt → Canonical i
    accepted h =
        let (u, ranges, rest) =
          >>=-eq-ok (validate_ranges i) (λ _. shape_checks s i) (rw (validate_split i) at h) in
        let (fits, guard) = (validate_ranges_iff i).0 ranges in
        (fits, guard, shape_checks-ShapeCanonical s i rest)

    canonical : Canonical i → validate i ≡ ok tt
    canonical (fits, guard, shape) =
        rw (validate_split i, (validate_ranges_iff i).1 (fits, guard))
          (ShapeCanonical-shape_checks s i shape)

pub validate-FitsFields : (i : Instruction) → validate i ≡ ok tt → FitsFields i
validate-FitsFields i h = ((validate-Canonical_iff i).0 h).0
