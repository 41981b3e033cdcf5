-- ===== src/Isa/Roundtrip.antt =====
-- `encode` and `decode` of src/isa/instruction.cpp are inverse to each other.
use warp_sim.Base.{
  ℕ, ◌/◌, ◌%◌, ◌^◌, ◌<◌, ◌≡◌, refl, Option, none, some, ok, arith, >>=-eq-ok, subst,
}
use warp_sim.Bits.{bit_and-mask}
use warp_sim.Isa.Opcode.{Opcode, OpcodeInfo, number, opcode_info}
use warp_sim.Isa.Instruction.{Instruction, validate}
use warp_sim.Isa.Encoding.{of_bool, pack, encode, unpack, decode_entry, decode, opcode_field}
use warp_sim.Isa.Table.{opcode_info-number, opcode-opcode_info_of, number-opcode_info, number-lt}
use warp_sim.Isa.Validity.{FitsFields, validate-FitsFields}
use warp_sim.Isa.Packing.{
  assemble, fields_assemble, flag_at-of_bool, of_bool-flag_at, of_bool-le, pack-assemble,
}

unpack-pack : (i : Instruction) → FitsFields i → i.imm < 2 ^ 32 → unpack i.opcode (pack i) ≡ i
unfolding unpack
unpack-pack i v h = rw (pack-assemble i v h) (
    ground (
      arith,
      flag_at-of_bool 55 w i.guard.present fs.1,
      flag_at-of_bool 54 w i.guard.negate fs.2,
      flag_at-of_bool 32 w i.imm_flag fs.7,
      bit_and-mask 3 (w / 2 ^ 51),
      bit_and-mask 6 (w / 2 ^ 45),
      bit_and-mask 6 (w / 2 ^ 39),
      bit_and-mask 6 (w / 2 ^ 33),
      bit_and-mask 32 w,
      fs,
    ))
  where
    w : ℕ
    w =
        assemble (number i.opcode) (of_bool i.guard.present) (of_bool i.guard.negate) i.guard.pred
          i.dst i.src0 i.src1 (of_bool i.imm_flag) i.imm

    fs :
        (w / 2 ^ 56 ≡ number i.opcode)
        × (w / 2 ^ 55 % 2 ≡ of_bool i.guard.present)
        × (w / 2 ^ 54 % 2 ≡ of_bool i.guard.negate)
        × (w / 2 ^ 51 % 8 ≡ i.guard.pred)
        × (w / 2 ^ 45 % 64 ≡ i.dst)
        × (w / 2 ^ 39 % 64 ≡ i.src0)
        × (w / 2 ^ 33 % 64 ≡ i.src1)
        × (w / 2 ^ 32 % 2 ≡ of_bool i.imm_flag)
        × (w % 2 ^ 32 ≡ i.imm)
    fs =
        fields_assemble _ _ _ _ _ _ _ _ _ (number-lt i.opcode) (of_bool-le i.guard.present)
          (of_bool-le i.guard.negate) v.pred_fits v.dst_fits v.src0_fits v.src1_fits
          (of_bool-le i.imm_flag) h

opcode_field-pack :
    (i : Instruction) → FitsFields i → i.imm < 2 ^ 32 → opcode_field (pack i) ≡ number i.opcode
unfolding opcode_field
opcode_field-pack i v h =
    rw (pack-assemble i v h, bit_and-mask 8)
      (omega (
        arith,
        number-lt i.opcode,
        fields_assemble _ _ _ _ _ _ _ _ _ (number-lt i.opcode) (of_bool-le i.guard.present)
            (of_bool-le i.guard.negate) v.pred_fits v.dst_fits v.src0_fits v.src1_fits
            (of_bool-le i.imm_flag) h,
      ))

-- An instruction that `validate` accepts and whose immediate fits 32 bits is encoded as `pack i`,
-- a word below 2 ^ 64 that decodes to the same instruction.
pub decode-encode :
    (i : Instruction)
    → validate i ≡ ok tt
    → i.imm < 2 ^ 32
    → (encode i ≡ ok (pack i)) × (pack i < 2 ^ 64) × (decode (pack i) ≡ ok i)
unfolding encode decode
decode-encode i valid h =
    let v = validate-FitsFields i valid in
    (
      rw valid,
      rw (pack-assemble i v h) (
          omega (
            arith,
            number-lt i.opcode,
            of_bool-le i.guard.present,
            of_bool-le i.guard.negate,
            of_bool-le i.imm_flag,
            v,
          )),
      rw (
        opcode_field-pack i v h,
        opcode_info-number i.opcode,
        decode_entry,
        opcode-opcode_info_of i.opcode,
        unpack-pack i v h,
        valid,
      ),
    )

unpack-FitsFields : (op : Opcode) (w : ℕ) → FitsFields (unpack op w)
unfolding unpack
unpack-FitsFields op w = record {
  pred_fits = omega (arith, bit_and-mask 3 (w / 2 ^ 51));
  dst_fits = omega (arith, bit_and-mask 6 (w / 2 ^ 45));
  src0_fits = omega (arith, bit_and-mask 6 (w / 2 ^ 39));
  src1_fits = omega (arith, bit_and-mask 6 (w / 2 ^ 33));
}

pack-unpack : (op : Opcode) (w : ℕ) → w / 2 ^ 56 ≡ number op → pack (unpack op w) ≡ w
pack-unpack op w h =
    rw (pack-assemble (unpack op w) (unpack-FitsFields op w) (unfold unpack in omega arith)) (
      unfold unpack in
      omega (
        arith,
        of_bool-flag_at 55 w,
        of_bool-flag_at 54 w,
        of_bool-flag_at 32 w,
        bit_and-mask 3 (w / 2 ^ 51),
        bit_and-mask 6 (w / 2 ^ 45),
        bit_and-mask 6 (w / 2 ^ 39),
        bit_and-mask 6 (w / 2 ^ 33),
        bit_and-mask 32 w,
        h,
      ))

pub decode_entry-eq-ok :
    (o : Option OpcodeInfo) (w : ℕ) {i : Instruction}
    → decode_entry o w ≡ ok i
    → (info : OpcodeInfo) × (o ≡ some info)
      × (unpack info.opcode w ≡ i)
      × (validate (unpack info.opcode w) ≡ ok tt)
unfolding decode_entry
decode_entry-eq-ok none w h = cc
decode_entry-eq-ok (some info) w h =
    let (u, valid, e) = >>=-eq-ok (validate (unpack info.opcode w)) _ h in (info, refl, cc e, valid)

-- A word below 2 ^ 64 that decodes is the encoding of the instruction that it decodes to.
pub encode-decode : (w : ℕ) (i : Instruction) → w < 2 ^ 64 → decode w ≡ ok i → encode i ≡ ok w
unfolding decode
encode-decode w i h e =
    let (info, found, same, valid) = decode_entry-eq-ok (opcode_info (opcode_field w)) w e in
    let field : w / 2 ^ 56 ≡ number info.opcode =
      unfold opcode_field in
      omega (
        arith,
        number-opcode_info (opcode_field w) {e = info} found,
        bit_and-mask 8 (w / 2 ^ 56),
      ) in
    subst (λ j. encode j ≡ ok w) same (unfold encode in rw (valid, pack-unpack info.opcode w field))
