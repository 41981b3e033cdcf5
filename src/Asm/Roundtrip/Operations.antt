-- ===== src/Asm/Roundtrip/Operations.antt =====
-- The operands of each shape but a branch's: src/asm/disassembler.cpp and src/asm/assembler.cpp.
use Prim.Native.String.{◌++◌ as ◌+++◌}
use text.Mathlib.TextLemmas.{nil-append, append_assoc}
use warp_sim.Asm.Lexer.Pieces.{stays-Reads}
use warp_sim.Base.{
  ℕ, String, ◌^◌, ◌<◌, leb, ◌≡◌, inl, inr, refl, sym, subst, true, false, Option, List, [], ◌∷◌,
  if◌then◌else◌, Bool-cases, ok, get_or, length,
}
use warp_sim.Isa.Opcode.{Shape}
use warp_sim.Isa.Instruction.{Instruction}
use warp_sim.Isa.Validity.{FitsFields, ShapeCanonical}
use warp_sim.Asm.Operands.{
  Cursor, Parsed, sequence, steps_of, dst_reg, src0_reg, src1_reg, comma_step, src1_reg_or_imm,
  src0_reg_or_imm, address_step, dst_pred, special_step, param_ref,
}
use warp_sim.Asm.Printing.{reg, pred}
use warp_sim.Asm.Disassembler.{Labels, operands_text, address_text, immediate_text}
use warp_sim.Asm.Operands.Cursors.{is_bra_shape}
use warp_sim.Asm.Roundtrip.Steps.{Consumes}
use warp_sim.Asm.Roundtrip.Operands.{
  operand_first, operand_last, dst_reg-Printed, src0_reg-Printed, src1_reg-Printed,
  dst_pred-Printed, address_step-Printed,
}
use warp_sim.Asm.Roundtrip.Immediates.{NoFloat, src0_reg_or_imm-Printed, src1_reg_or_imm-Printed}
use warp_sim.Asm.Roundtrip.Names.{special_step-Printed, param_ref-Printed}
use warp_sim.Asm.Roundtrip.Shapes.{
  instruction_ext, headed, NamesParameter, src1_last, src0_last, no_step, nothing, spaced,
  OperandsRead,
}

module _ (parse_float : String → Option ℕ) (float_text : ℕ → String) (labels : Labels)
    (params : List String) (pc : ℕ) (i : Instruction) (fits : FitsFields i) (small : i.imm < 2 ^ 32)
    (plain : NoFloat i) where
  -- The operands read by the steps of a shape.
  abbrev ReadBy : List (Cursor → Parsed) → String → Type 0
  ReadBy steps text = OperandsRead (sequence parse_float params pc steps) text i

  rrr-Read :
      ShapeCanonical Shape.rrr i
      → ReadBy (dst_reg ∷ comma_step ∷ src0_reg ∷ comma_step ∷ src1_reg_or_imm parse_float ∷ []) (
          " "
          +++ (reg i.dst
              +++ (", "
                  +++ (reg i.src0
                      +++ (", "
                          +++ (if i.imm_flag then immediate_text float_text i else reg i.src1))))))
  rrr-Read c =
      let a = record (headed i) { dst = i.dst } in
      let b = record a { src0 = i.src0 } in
      spaced _ _ i _
        (operand_first parse_float params pc _ _ dst_reg
          (src0_reg ∷ comma_step ∷ src1_reg_or_imm parse_float ∷ []) (headed i) a _
          (dst_reg-Printed i.dst (headed i) fits.dst_fits)
          (operand_first parse_float params pc _ _ src0_reg (src1_reg_or_imm parse_float ∷ []) a b _
            (src0_reg-Printed i.src0 a fits.src0_fits)
            (operand_last parse_float params pc _ _ b _
              (src1_reg_or_imm-Printed parse_float float_text i b plain small fits.src1_fits))))
        (src1_last i c)

  prr-Read :
      ShapeCanonical Shape.prr i
      → ReadBy (dst_pred ∷ comma_step ∷ src0_reg ∷ comma_step ∷ src1_reg_or_imm parse_float ∷ []) (
          " "
          +++ (pred i.dst
              +++ (", "
                  +++ (reg i.src0
                      +++ (", "
                          +++ (if i.imm_flag then immediate_text float_text i else reg i.src1))))))
  prr-Read (lt, c) =
      let a = record (headed i) { dst = i.dst } in
      let b = record a { src0 = i.src0 } in
      spaced _ _ i _
        (operand_first parse_float params pc _ _ dst_pred
          (src0_reg ∷ comma_step ∷ src1_reg_or_imm parse_float ∷ []) (headed i) a _
          (dst_pred-Printed i.dst (headed i) lt)
          (operand_first parse_float params pc _ _ src0_reg (src1_reg_or_imm parse_float ∷ []) a b _
            (src0_reg-Printed i.src0 a fits.src0_fits)
            (operand_last parse_float params pc _ _ b _
              (src1_reg_or_imm-Printed parse_float float_text i b plain small fits.src1_fits))))
        (src1_last i c)

  rr-Read :
      ShapeCanonical Shape.rr i
      → ReadBy (dst_reg ∷ comma_step ∷ src0_reg_or_imm parse_float ∷ []) (
          " "
          +++ (reg i.dst
              +++ (", " +++ (if i.imm_flag then immediate_text float_text i else reg i.src0))))
  rr-Read (z, c) =
      let a = record (headed i) { dst = i.dst } in
      spaced _ _ i _
        (operand_first parse_float params pc _ _ dst_reg (src0_reg_or_imm parse_float ∷ [])
          (headed i) a _ (dst_reg-Printed i.dst (headed i) fits.dst_fits)
          (operand_last parse_float params pc _ _ a _
            (src0_reg_or_imm-Printed parse_float float_text i a plain small fits.src0_fits)))
        (src0_last i z c)

  acc-Read :
      ShapeCanonical Shape.acc i
      → ReadBy
          (dst_reg ∷ comma_step ∷ src0_reg ∷ comma_step ∷ src1_reg ∷ [])
          (" " +++ (reg i.dst +++ (", " +++ (reg i.src0 +++ (", " +++ reg i.src1)))))
  acc-Read (f, m) =
      let a = record (headed i) { dst = i.dst } in
      let b = record a { src0 = i.src0 } in
      spaced _ _ i _
        (operand_first parse_float params pc _ _ dst_reg (src0_reg ∷ comma_step ∷ src1_reg ∷ [])
          (headed i) a _ (dst_reg-Printed i.dst (headed i) fits.dst_fits)
          (operand_first parse_float params pc _ _ src0_reg (src1_reg ∷ []) a b _
            (src0_reg-Printed i.src0 a fits.src0_fits)
            (operand_last parse_float params pc _ _ b _
              (src1_reg-Printed i.src1 b fits.src1_fits))))
        (instruction_ext _ i refl refl refl refl refl (sym f) (sym m))

  ld-Read :
      ShapeCanonical Shape.ld i
      → ReadBy
          (dst_reg ∷ comma_step ∷ address_step ∷ [])
          (" " +++ (reg i.dst +++ (", " +++ address_text i)))
  ld-Read (z, f) =
      let a = record (headed i) { dst = i.dst } in
      spaced _ _ i _
        (operand_first parse_float params pc _ _ dst_reg (address_step ∷ []) (headed i) a _
          (dst_reg-Printed i.dst (headed i) fits.dst_fits)
          (operand_last parse_float params pc _ _ a _
            (address_step-Printed i a fits.src0_fits small)))
        (instruction_ext _ i refl refl refl refl (sym z) (sym f) refl)

  st-Read :
      ShapeCanonical Shape.st i
      → ReadBy
          (address_step ∷ comma_step ∷ src1_reg ∷ [])
          (" " +++ (address_text i +++ (", " +++ reg i.src1)))
  st-Read (z, f) =
      let a = record (headed i) { src0 = i.src0; imm_flag = true; imm = i.imm } in
      spaced _ _ i _
        (operand_first parse_float params pc _ _ address_step (src1_reg ∷ []) (headed i) a _
          (address_step-Printed i (headed i) fits.src0_fits small)
          (operand_last parse_float params pc _ _ a _ (src1_reg-Printed i.src1 a fits.src1_fits)))
        (instruction_ext _ i refl refl (sym z) refl refl (sym f) refl)

  ldp-Read :
      ShapeCanonical Shape.ldp i
      → NamesParameter params i
      → ReadBy
          (dst_reg ∷ comma_step ∷ param_ref parse_float params pc ∷ [])
          (" " +++ (reg i.dst +++ (", [" +++ (get_or params i.imm "" +++ "]"))))
  ldp-Read (y, z, f) (ident, found) =
      let a = record (headed i) { dst = i.dst } in
      subst
        (λ (t : String).
          ReadBy (dst_reg ∷ comma_step ∷ param_ref parse_float params pc ∷ [])
            (" " +++ (reg i.dst +++ t)))
        (sym (append_assoc ", " "[" (get_or params i.imm "" +++ "]")))
        (spaced _ _ i _
          (operand_first parse_float params pc _ _ dst_reg (param_ref parse_float params pc ∷ [])
            (headed i) a _ (dst_reg-Printed i.dst (headed i) fits.dst_fits)
            (operand_last parse_float params pc _ _ a _ (
              param_ref-Printed parse_float params pc i.imm (get_or params i.imm "") a ident found
                small)))
          (instruction_ext _ i refl refl refl (sym y) (sym z) (sym f) refl))

  none-Read : ShapeCanonical Shape.no_operands i → ReadBy [] ""
  unfolding sequence
  none-Read (d, y, z, f, m) = record {
    pieces = [];
    reads = λ rest k. rw (nil-append rest) (stays-Reads rest);
    marks = λ rest k. rw (nil-append rest) k;
    opens = tt;
    consumes =
        subst (λ (x : Instruction). Consumes no_step [] (headed i) x)
          (instruction_ext (headed i) i refl refl (sym d) (sym y) (sym z) (sym f) (sym m))
          (nothing (headed i));
  }

  sreg-Read :
      ShapeCanonical Shape.sreg i
      → (text : String) → operands_text float_text Shape.sreg i labels params ≡ ok text
      → ReadBy (dst_reg ∷ comma_step ∷ special_step ∷ []) text
  unfolding operands_text
  sreg-Read (lt, z, f, m) text h =
      let a = record (headed i) { dst = i.dst } in
      let (entry, found, printed) = special_step-Printed i.src0 a lt in
      let same : " " +++ (reg i.dst +++ (", " +++ entry.name)) ≡ text = cc (h, found) in
      subst (λ (t : String). ReadBy (dst_reg ∷ comma_step ∷ special_step ∷ []) t) same
        (spaced _ _ i _
          (operand_first parse_float params pc _ _ dst_reg (special_step ∷ []) (headed i) a _
            (dst_reg-Printed i.dst (headed i) fits.dst_fits)
            (operand_last parse_float params pc _ _ a _ printed))
          (instruction_ext _ i refl refl refl refl (sym z) (sym f) (sym m)))

  -- The operands of a shape, if they have a text.
  pub operands-Read :
      (s : Shape) (text : String)
      → is_bra_shape s ≡ false
      → ShapeCanonical s i
      → (s ≡ Shape.ldp → NamesParameter params i)
      → operands_text float_text s i labels params ≡ ok text
      → ReadBy (steps_of parse_float params pc s) text
  unfolding operands_text steps_of
  operands-Read Shape.rrr text nb c n h =
      subst (λ (t : String). ReadBy (steps_of parse_float params pc Shape.rrr) t) (cc (h))
        (rrr-Read c)
  operands-Read Shape.prr text nb c n h =
      subst (λ (t : String). ReadBy (steps_of parse_float params pc Shape.prr) t) (cc (h))
        (prr-Read c)
  operands-Read Shape.rr text nb c n h =
      subst (λ (t : String). ReadBy (steps_of parse_float params pc Shape.rr) t) (cc (h))
        (rr-Read c)
  operands-Read Shape.acc text nb c n h =
      subst (λ (t : String). ReadBy (steps_of parse_float params pc Shape.acc) t) (cc (h))
        (acc-Read c)
  operands-Read Shape.sreg text nb c n h = sreg-Read c text h
  operands-Read Shape.bra text nb c n h = absurd (cc (nb))
  operands-Read Shape.no_operands text nb c n h =
      subst (λ (t : String). ReadBy (steps_of parse_float params pc Shape.no_operands) t) (cc (h))
        (none-Read c)
  operands-Read Shape.ld text nb c n h =
      subst (λ (t : String). ReadBy (steps_of parse_float params pc Shape.ld) t) (cc (h))
        (ld-Read c)
  operands-Read Shape.st text nb c n h =
      subst (λ (t : String). ReadBy (steps_of parse_float params pc Shape.st) t) (cc (h))
        (st-Read c)
  operands-Read Shape.ldp text nb c n h = elim (Bool-cases (leb (length params) i.imm)) [
    | inl e ↦ absurd (cc (h, e))
    | inr e ↦
        subst (λ (t : String). ReadBy (steps_of parse_float params pc Shape.ldp) t) (cc (h, e))
          (ldp-Read c (n refl))
  ]
