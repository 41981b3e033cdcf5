-- ===== src/Isa/Tests.antt =====
-- Concrete instructions: the theorems of the instruction set at work.
use warp_sim.Base.{◌^◌, ◌<◌, true, false, ◌≡◌, ◌↔◌, refl, arith, ok}
use warp_sim.Isa.Opcode.{Opcode, number, opcode_info}
use warp_sim.Isa.Instruction.{
  Instruction, validate, make_branch_imm, branch_target, reconvergence_pc,
}
use warp_sim.Isa.Encoding.{pack, unpack, encode, decode}
use warp_sim.Isa.Validity.{Canonical, validate-Canonical_iff}
use warp_sim.Isa.Roundtrip.{decode-encode, encode-decode}
use warp_sim.Isa.Branch.{make_branch_imm_fields}

-- `@!p3 add r1, r2, 5`
abbrev guarded_add : Instruction
guarded_add = record {
  opcode = Opcode.add;
  guard = record { present = true; negate = true; pred = 3 };
  dst = 1;
  src0 = 2;
  src1 = 0;
  imm_flag = true;
  imm = 5;
}

-- `@p1 bra 7`, with the reconvergence point 9.
abbrev guarded_bra : Instruction
guarded_bra = record {
  opcode = Opcode.bra;
  guard = record { present = true; negate = false; pred = 1 };
  dst = 0;
  src0 = 0;
  src1 = 0;
  imm_flag = false;
  imm = 589831;
}

validate-guarded_add : validate guarded_add ≡ ok tt
unfolding validate opcode_info number
validate-guarded_add = refl

decode-encode_example :
    (encode guarded_add ≡ ok (pack guarded_add))
    × (pack guarded_add < 2 ^ 64)
    × (decode (pack guarded_add) ≡ ok guarded_add)
decode-encode_example = decode-encode guarded_add validate-guarded_add (omega arith)

decode-guarded_add : decode 132892477186113541 ≡ ok guarded_add
unfolding decode opcode_info number validate unpack
decode-guarded_add = refl

encode-decode_example : encode guarded_add ≡ ok 132892477186113541
encode-decode_example =
    encode-decode 132892477186113541 guarded_add (omega arith) decode-guarded_add

validate-Canonical_iff_example : (validate guarded_add ≡ ok tt) ↔ Canonical guarded_add
validate-Canonical_iff_example = validate-Canonical_iff guarded_add

bra_imm : guarded_bra.imm ≡ make_branch_imm 7 9
unfolding make_branch_imm
bra_imm = refl

make_branch_imm_fields_example :
    (branch_target guarded_bra ≡ 7)
    × (reconvergence_pc guarded_bra ≡ 9)
    × (guarded_bra.imm < 2 ^ 32)
make_branch_imm_fields_example =
    make_branch_imm_fields guarded_bra 7 9 (omega arith) (omega arith) bra_imm
