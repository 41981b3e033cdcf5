-- ===== src/Isa/Packing.antt =====
-- The word that `encode` of src/isa/instruction.cpp packs, as arithmetic on its fields, and its fields.
use warp_sim.Base.{ℕ, ◌+◌, ◌*◌, ◌/◌, ◌%◌, ◌^◌, ◌<◌, ◌≤◌, ◌≡◌, Bool, true, false, bit_or, arith}
use warp_sim.Bits.{bit_or-disjoint, bit_and-mask}
use warp_sim.Isa.Opcode.{number}
use warp_sim.Isa.Instruction.{Instruction}
use warp_sim.Isa.Encoding.{of_bool, shl64, pack, flag_at}
use warp_sim.Isa.Table.{number-lt}
use warp_sim.Isa.Validity.{FitsFields}

pub of_bool-le : (b : Bool) → of_bool b ≤ 1
of_bool-le true = omega arith
of_bool-le false = omega arith

-- The word from the opcode's number and the fields, most significant first.
abbrev pub assemble : ℕ → ℕ → ℕ → ℕ → ℕ → ℕ → ℕ → ℕ → ℕ → ℕ
assemble op p n pred d a b f imm =
    (((((((op * 2 + p) * 2 + n) * 8 + pred) * 64 + d) * 64 + a) * 64 + b) * 2 + f) * 2 ^ 32 + imm

module _ (op p n pred d a b f imm : ℕ) where
  or_fields :
      op < 256
      → p ≤ 1
      → n ≤ 1
      → pred < 8
      → d < 64
      → a < 64
      → b < 64
      → f ≤ 1
      → imm < 2 ^ 32
      → bit_or
          (bit_or
            (bit_or
              (bit_or
                (bit_or
                  (bit_or
                    (bit_or (bit_or (bit_or 0 (shl64 op 56)) (shl64 p 55)) (shl64 n 54))
                    (shl64 pred 51))
                  (shl64 d 45))
                (shl64 a 39))
              (shl64 b 33))
            (shl64 f 32))
          imm
        ≡ assemble op p n pred d a b f imm
  or_fields hop hp hn hpred hd ha hb hf himm = rw (e0, e1, e2, e3, e4, e5, e6, e7) e8
    where
      w1 : ℕ
      w1 = op * 2 + p

      w2 : ℕ
      w2 = w1 * 2 + n

      w3 : ℕ
      w3 = w2 * 8 + pred

      w4 : ℕ
      w4 = w3 * 64 + d

      w5 : ℕ
      w5 = w4 * 64 + a

      w6 : ℕ
      w6 = w5 * 64 + b

      w7 : ℕ
      w7 = w6 * 2 + f

      e0 : bit_or 0 (shl64 op 56) ≡ op * 2 ^ 56
      e0 = omega (arith, bit_or-disjoint 64 0 (shl64 op 56) (omega arith))

      e1 : bit_or (op * 2 ^ 56) (shl64 p 55) ≡ w1 * 2 ^ 55
      e1 = omega (arith, bit_or-disjoint 56 op (shl64 p 55) (omega arith))

      e2 : bit_or (w1 * 2 ^ 55) (shl64 n 54) ≡ w2 * 2 ^ 54
      e2 = omega (arith, bit_or-disjoint 55 w1 (shl64 n 54) (omega arith))

      e3 : bit_or (w2 * 2 ^ 54) (shl64 pred 51) ≡ w3 * 2 ^ 51
      e3 = omega (arith, bit_or-disjoint 54 w2 (shl64 pred 51) (omega arith))

      e4 : bit_or (w3 * 2 ^ 51) (shl64 d 45) ≡ w4 * 2 ^ 45
      e4 = omega (arith, bit_or-disjoint 51 w3 (shl64 d 45) (omega arith))

      e5 : bit_or (w4 * 2 ^ 45) (shl64 a 39) ≡ w5 * 2 ^ 39
      e5 = omega (arith, bit_or-disjoint 45 w4 (shl64 a 39) (omega arith))

      e6 : bit_or (w5 * 2 ^ 39) (shl64 b 33) ≡ w6 * 2 ^ 33
      e6 = omega (arith, bit_or-disjoint 39 w5 (shl64 b 33) (omega arith))

      e7 : bit_or (w6 * 2 ^ 33) (shl64 f 32) ≡ w7 * 2 ^ 32
      e7 = omega (arith, bit_or-disjoint 33 w6 (shl64 f 32) (omega arith))

      e8 : bit_or (w7 * 2 ^ 32) imm ≡ w7 * 2 ^ 32 + imm
      e8 = bit_or-disjoint 32 w7 imm himm

pub pack-assemble :
    (i : Instruction)
    → FitsFields i
    → i.imm < 2 ^ 32
    → pack i
      ≡ assemble
          (number i.opcode)
          (of_bool i.guard.present)
          (of_bool i.guard.negate)
          i.guard.pred
          i.dst
          i.src0
          i.src1
          (of_bool i.imm_flag)
          i.imm
unfolding pack
pack-assemble i v h =
    or_fields _ _ _ _ _ _ _ _ _ (number-lt i.opcode) (of_bool-le i.guard.present)
      (of_bool-le i.guard.negate) v.pred_fits v.dst_fits v.src0_fits v.src1_fits
      (of_bool-le i.imm_flag) h

-- The fields of a word.
pub flag_at-of_bool : (k w : ℕ) (b : Bool) → w / 2 ^ k % 2 ≡ of_bool b → flag_at k w ≡ b
flag_at-of_bool k w true h = ground (arith, bit_and-mask 1 (w / 2 ^ k))
flag_at-of_bool k w false h = ground (arith, bit_and-mask 1 (w / 2 ^ k))

pub of_bool-flag_at : (k w : ℕ) → of_bool (flag_at k w) ≡ w / 2 ^ k % 2
of_bool-flag_at k w = ground (arith, bit_and-mask 1 (w / 2 ^ k))

module _ (op p n pred d a b f imm : ℕ) where
  pub fields_assemble :
      op < 256
      → p ≤ 1
      → n ≤ 1
      → pred < 8
      → d < 64
      → a < 64
      → b < 64
      → f ≤ 1
      → imm < 2 ^ 32
      → let w = assemble op p n pred d a b f imm in
        (w / 2 ^ 56 ≡ op)
        × (w / 2 ^ 55 % 2 ≡ p)
        × (w / 2 ^ 54 % 2 ≡ n)
        × (w / 2 ^ 51 % 8 ≡ pred)
        × (w / 2 ^ 45 % 64 ≡ d)
        × (w / 2 ^ 39 % 64 ≡ a)
        × (w / 2 ^ 33 % 64 ≡ b)
        × (w / 2 ^ 32 % 2 ≡ f)
        × (w % 2 ^ 32 ≡ imm)
  fields_assemble hop hp hn hpred hd ha hb hf himm = (
    omega arith,
    omega arith,
    omega arith,
    omega arith,
    omega arith,
    omega arith,
    omega arith,
    omega arith,
    omega arith,
  )
