-- ===== src/Isa/Encoding.antt =====
-- `encode` and `decode` of src/isa/instruction.cpp, on 64-bit words.
use warp_sim.Base.{
  ℕ, ◌*◌, ◌/◌, ◌%◌, ◌^◌, ◌==◌, Bool, true, false, not, Option, none, some, bit_and, bit_or, Result,
  ok, fail, ◌>>◌,
}
use warp_sim.Isa.Opcode.{Opcode, OpcodeInfo, number, opcode_info}
use warp_sim.Isa.Instruction.{Instruction, IsaError, invalid_opcode, validate}

-- `static_cast<std::uint64_t>(bool)`
abbrev pub of_bool : Bool → ℕ
of_bool true = 1
of_bool false = 0

-- `x << k` on a `std::uint64_t`
abbrev pub shl64 : ℕ → ℕ → ℕ
shl64 x k = x * 2 ^ k % 2 ^ 64

-- The word that `encode` builds once the instruction is valid: one `|=` for each field.
unfoldable pub pack : Instruction → ℕ
pack i =
    let w0 = bit_or 0 (shl64 (number i.opcode) 56) in
    let w1 = bit_or w0 (shl64 (of_bool i.guard.present) 55) in
    let w2 = bit_or w1 (shl64 (of_bool i.guard.negate) 54) in
    let w3 = bit_or w2 (shl64 i.guard.pred 51) in
    let w4 = bit_or w3 (shl64 i.dst 45) in
    let w5 = bit_or w4 (shl64 i.src0 39) in
    let w6 = bit_or w5 (shl64 i.src1 33) in
    let w7 = bit_or w6 (shl64 (of_bool i.imm_flag) 32) in bit_or w7 i.imm

unfoldable pub encode : Instruction → Result ℕ IsaError
encode i = do validate i; ok (pack i)

-- `((word >> k) & 1) != 0`
abbrev pub flag_at : ℕ → ℕ → Bool
flag_at k w = not (bit_and (w / 2 ^ k) 1 == 0)

-- The instruction that `decode` reads out of the fields of a word.
unfoldable pub unpack : Opcode → ℕ → Instruction
unpack op w = record {
  opcode = op;
  guard = record {
    present = flag_at 55 w;
    negate = flag_at 54 w;
    pred = bit_and (w / 2 ^ 51) 0x7 % 2 ^ 8;
  };
  dst = bit_and (w / 2 ^ 45) 0x3f % 2 ^ 8;
  src0 = bit_and (w / 2 ^ 39) 0x3f % 2 ^ 8;
  src1 = bit_and (w / 2 ^ 33) 0x3f % 2 ^ 8;
  imm_flag = flag_at 32 w;
  imm = bit_and w 0xffff_ffff % 2 ^ 32;
}

unfoldable pub decode_entry : Option OpcodeInfo → ℕ → Result Instruction IsaError
decode_entry none w = fail invalid_opcode
decode_entry (some info) w = do validate (unpack info.opcode w); ok (unpack info.opcode w)

-- The opcode field.
unfoldable pub opcode_field : ℕ → ℕ
opcode_field w = bit_and (w / 2 ^ 56) 0xff % 2 ^ 8

unfoldable pub decode : ℕ → Result Instruction IsaError
unfolding decode_entry opcode_field
decode w = decode_entry (opcode_info (opcode_field w)) w
