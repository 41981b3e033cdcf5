-- ===== src/Asm/Roundtrip/Operands.antt =====
-- The operands that src/asm/disassembler.cpp prints, read by the parsers of src/asm/assembler.cpp.
use Prim.Native.String.{◌++◌ as ◌+++◌}
use warp_sim.Base.{
  ℕ, String, ◌-◌, ◌%◌, ◌^◌, ◌<◌, leb, ◌==◌, ◌≡◌, inl, inr, refl, sym, ◌∙◌, arith, subst, true,
  false, Option, List, [], ◌∷◌, ◌++◌, if◌then◌else◌, Bool-cases, ◌>>=◌, ==_iff, leb→le,
}
use warp_sim.Isa.Instruction.{Instruction}
use warp_sim.Asm.Lexer.{integer, comma, rbracket, minus}
use warp_sim.Asm.Lexer.Pieces.{Piece}
use warp_sim.Asm.Operands.{
  expect, Cursor, Parsed, comma_step, dst_reg, src0_reg, src1_reg, dst_pred, offset, address_step,
  sequence,
}
use warp_sim.Asm.Printing.{decimal_text, reg, pred}
use warp_sim.Asm.Disassembler.{address_text}
use warp_sim.Asm.Roundtrip.Texts.{
  NoColon, NoColon-comma, Text, Marks, Loose-Text, Text-Marks, listed, lbracket-Loose,
  rbracket-Loose, rbracket-Marks, plus-Loose, plus-Marks, minus-Loose, minus-Marks, Loose-any,
}
use warp_sim.Asm.Roundtrip.Numerals.{decimal-Text, reg-Text, pred-Text}
use warp_sim.Asm.Roundtrip.Steps.{
  Consumes, Consumes-then, dst_reg-Consumes, src0_reg-Consumes, src1_reg-Consumes,
  dst_pred-Consumes, comma_step-Consumes,
}
use warp_sim.Asm.Roundtrip.Addresses.{
  address_end, address_step-Consumes, no_offset, added_offset, subtracted_offset, bracket-Consumes,
}

-- A step reads the text a, and makes instruction j of i.
pub record Printed (a : String) (f : Cursor → Parsed) (i j : Instruction) : Type 0 where
  pub pieces : List Piece
  pub text : Text a pieces
  pub opens : NoColon pieces
  pub consumes : Consumes f pieces i j

module _ (parse_float : String → Option ℕ) (params : List String) (pc : ℕ) where
  -- An operand with a comma and others behind it.
  pub operand_first :
      (a b : String) (f : Cursor → Parsed) (fs : List (Cursor → Parsed)) (i j k : Instruction)
      → Printed a f i j
      → Printed b (sequence parse_float params pc fs) j k
      → Printed (a +++ (", " +++ b)) (sequence parse_float params pc (f ∷ comma_step ∷ fs)) i k
  unfolding sequence
  operand_first a b f fs i j k p q = record {
    pieces = p.pieces ++ ((comma, ",", false) ∷ q.pieces);
    text = listed p.text q.text;
    opens = NoColon-comma p.pieces q.pieces p.opens;
    consumes =
        Consumes-then f (λ c. comma_step c >>= sequence parse_float params pc fs) p.consumes
          (Consumes-then comma_step (sequence parse_float params pc fs) (comma_step-Consumes j)
            q.consumes);
  }

  -- The last operand.
  pub operand_last :
      (a : String) (f : Cursor → Parsed) (i j : Instruction)
      → Printed a f i j
      → Printed a (sequence parse_float params pc (f ∷ [])) i j
  unfolding sequence
  operand_last a f i j p = record {
    pieces = p.pieces;
    text = p.text;
    opens = p.opens;
    consumes = record {
      parses = λ ts shaped u us pending. rw (p.consumes.parses ts shaped u us pending) refl;
    };
  }

pub dst_reg-Printed :
    (r : ℕ) (i : Instruction) → r < 64 → Printed (reg r) dst_reg i (record i { dst = r })
dst_reg-Printed r i lt = record {
  pieces = _;
  text = reg-Text r;
  opens = refl;
  consumes = dst_reg-Consumes r i lt;
}

pub src0_reg-Printed :
    (r : ℕ) (i : Instruction) → r < 64 → Printed (reg r) src0_reg i (record i { src0 = r })
src0_reg-Printed r i lt = record {
  pieces = _;
  text = reg-Text r;
  opens = refl;
  consumes = src0_reg-Consumes r i lt;
}

pub src1_reg-Printed :
    (r : ℕ) (i : Instruction) → r < 64 → Printed (reg r) src1_reg i (record i { src1 = r })
src1_reg-Printed r i lt = record {
  pieces = _;
  text = reg-Text r;
  opens = refl;
  consumes = src1_reg-Consumes r i lt;
}

pub dst_pred-Printed :
    (r : ℕ) (i : Instruction) → r < 8 → Printed (pred r) dst_pred i (record i { dst = r })
dst_pred-Printed r i lt = record {
  pieces = _;
  text = pred-Text r;
  opens = refl;
  consumes = dst_pred-Consumes r i lt;
}

-- The end of an address as it is printed.
abbrev end_text : ℕ → String
end_text imm =
    if imm == 0
    then "]"
    else if leb (2 ^ 31) imm
    then "-" +++ (decimal_text ((2 ^ 32 - imm) % 2 ^ 32) +++ "]")
    else "+" +++ (decimal_text imm +++ "]")

address_text-end : (i : Instruction) → address_text i ≡ "[" +++ (reg i.src0 +++ end_text i.imm)
unfolding address_text
address_text-end i = elim (Bool-cases (i.imm == 0)) [
  | inl e ↦ rw (address_text, e) refl
  | inr e ↦ elim (Bool-cases (leb (2 ^ 31) i.imm)) [
    | inl f ↦ rw (address_text, e, f) refl
    | inr f ↦ rw (address_text, e, f) refl
  ]
]

-- A text that is a boundary and is read by the end of an address.
record AddressEnd (a : String) (i j : Instruction) : Type 0 where
  end : Printed a address_end i j
  marks : Marks a

number_end :
    (n : ℕ)
    → Text
        (decimal_text n +++ "]")
        ((integer, decimal_text n, false) ∷ ((rbracket, "]", false) ∷ []))
number_end n = Text-Marks (decimal-Text n) rbracket-Marks (Loose-any rbracket-Loose)

negated_twice :
    (imm : ℕ)
    → leb (2 ^ 31) imm ≡ true
    → imm < 2 ^ 32
    → (2 ^ 32 - (2 ^ 32 - imm) % 2 ^ 32) % 2 ^ 32 ≡ imm
negated_twice imm f lt = let le = leb→le (2 ^ 31) imm f in omega (arith, le, lt)

end_text-AddressEnd :
    (i : Instruction) (imm : ℕ)
    → i.imm ≡ 0
    → imm < 2 ^ 32
    → AddressEnd (end_text imm) i (record i { imm = imm })
end_text-AddressEnd i imm none' lt = elim (Bool-cases (imm == 0)) [
  | inl e ↦ rw e (record {
    end = record {
      pieces = _;
      text = Loose-any rbracket-Loose;
      opens = refl;
      consumes =
          subst
            (λ (x : ℕ). Consumes address_end ((rbracket, "]", false) ∷ []) i (record i { imm = x }))
            (none' ∙ sym ((==_iff imm 0).0 e)) (no_offset i);
    };
    marks = rbracket-Marks;
  })
  | inr e ↦ elim (Bool-cases (leb (2 ^ 31) imm)) [
    | inl f ↦
        rw (e, f)
          (record {
            end = record {
              pieces = _;
              text = Loose-Text minus-Loose (number_end ((2 ^ 32 - imm) % 2 ^ 32));
              opens = refl;
              consumes =
                  subst
                    (λ (x : ℕ).
                      Consumes address_end
                        ((minus, "-", false)
                          ∷ ((integer, decimal_text ((2 ^ 32 - imm) % 2 ^ 32), false)
                              ∷ ((rbracket, "]", false) ∷ [])))
                        i (record i { imm = x }))
                    (negated_twice imm f lt)
                    (Consumes-then offset (expect rbracket "']'")
                      (subtracted_offset ((2 ^ 32 - imm) % 2 ^ 32) i (omega arith))
                      (bracket-Consumes _));
            };
            marks = minus-Marks (decimal_text ((2 ^ 32 - imm) % 2 ^ 32) +++ "]");
          })
    | inr f ↦
        rw (e, f)
          (record {
            end = record {
              pieces = _;
              text = Loose-Text plus-Loose (number_end imm);
              opens = refl;
              consumes =
                  Consumes-then offset (expect rbracket "']'") (added_offset imm i lt)
                    (bracket-Consumes _);
            };
            marks = plus-Marks (decimal_text imm +++ "]");
          })
  ]
]

pub address_step-Printed :
    (i x : Instruction)
    → i.src0 < 64
    → i.imm < 2 ^ 32
    → Printed
        (address_text i)
        address_step
        x
        (record x { src0 = i.src0; imm_flag = true; imm = i.imm })
address_step-Printed i x fits lt =
    let base : Instruction = record x { src0 = i.src0; imm_flag = true; imm = 0 } in
    let last = end_text-AddressEnd base i.imm refl lt in
    subst
      (λ (s : String).
        Printed s address_step x (record x { src0 = i.src0; imm_flag = true; imm = i.imm }))
      (sym (address_text-end i))
      (record {
        pieces = _;
        text = Loose-Text lbracket-Loose (Text-Marks (reg-Text i.src0) last.marks last.end.text);
        opens = refl;
        consumes = address_step-Consumes i.src0 last.end.pieces x _ fits last.end.consumes;
      })
