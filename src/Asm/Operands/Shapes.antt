-- ===== src/Asm/Operands/Shapes.antt =====
-- The immediates, and the operands of every shape but a branch's, keep what `Operands.Cursors` says.
use warp_sim.Base.{
  ℕ, String, ◌+◌, ◌%◌, ◌^◌, ◌<◌, ◌≡◌, inl, inr, arith, ltb, if◌then◌else◌, Bool, true, false, not,
  ◌&&◌, Option, none, some, List, [], ◌∷◌, Bool-cases, Option-cases,
}
use warp_sim.Isa.Opcode.{Opcode, Shape}
use warp_sim.Asm.Lexer.{identifier, integer, lbracket, rbracket, minus, float}
use warp_sim.Asm.Operands.{
  cur, at, skip, error_at, error_if, PendingBranch, Cursor, Parsed, expect, integer_literal,
  find_param, float_value, float_immediate, integer_immediate, immediate, src1_reg_or_imm,
  src0_reg_or_imm, param_ref, sequence, steps_of, accepts_float_immediate,
}
use warp_sim.Asm.Operands.Cursors.{
  is_bra_shape, Holds, >>=-Holds, error_if-Holds, skip-Left, Keeps, moved, expect-Keeps,
  comma_step-Keeps, dst_reg-Keeps, src0_reg-Keeps, src1_reg-Keeps, dst_pred-Keeps,
  special_step-Keeps, NumberLeft, integer_literal-Left, signed-lt, address_step-Keeps, Good,
}

module _ (n : ℕ) (op : Opcode) (pending : List PendingBranch) where
  module _ (parse_float : String → Option ℕ) where
    float_value-lt :
        (negative : Bool) (text : String) (v : ℕ)
        → float_value parse_float negative text ≡ some v
        → v < 2 ^ 32
    unfolding float_value
    float_value-lt negative text v h = after negative (parse_float text) h
      where
        after :
            (b : Bool) (o : Option ℕ)
            → (elim o as (λ _. Option ℕ) [
              | none ↦ none
              | some bits ↦ some (if b then (bits + 2 ^ 31) % 2 ^ 32 else bits % 2 ^ 32)
            ])
              ≡ some v
            → v < 2 ^ 32
        after b none h = ground (arith, h)
        after true (some x) h = ground (arith, h)
        after false (some x) h = ground (arith, h)

    float_immediate-Keeps :
        (negative : Bool) → (Keeps n op pending) (float_immediate parse_float negative)
    unfolding float_immediate
    float_immediate-Keeps negative c h = elim (Bool-cases (accepts_float_immediate c.out.opcode)) [
      | inr e ↦ rw (float_immediate, e) tt
      | inl e ↦ elim (Option-cases (float_value parse_float negative (cur c.rest).text)) [
        | inl f ↦ rw (float_immediate, e, f) tt
        | inr (v, f) ↦
            rw (float_immediate, e, f)
              (record {
                left = skip-Left n c.rest h.left;
                imm_fits = float_value-lt negative (cur c.rest).text v f;
                same_opcode = h.same_opcode;
                same_pending = h.same_pending;
              })
      ]
    ]

    integer_immediate-Keeps :
        (negative : Bool) → (Keeps n op pending) (integer_immediate parse_float negative)
    unfolding integer_immediate
    integer_immediate-Keeps negative c h =
        >>=-Holds _ (Good n op pending) (error_if (not (at integer c.rest)) _ c.rest) _
          (error_if-Holds (not (at integer c.rest)) _ c.rest)
          (λ u e.
            >>=-Holds (NumberLeft n op pending) (Good n op pending) (integer_literal c.rest) _
              ((integer_literal-Left n op pending) c.rest h.left)
              (λ r l.
                >>=-Holds _ (Good n op pending) (error_if (negative && ltb 0x80000000 r.0) _ r.1) _
                  (error_if-Holds (negative && ltb 0x80000000 r.0) _ r.1)
                  (λ u' e'. record {
                    left = l.1;
                    imm_fits = (signed-lt n op pending) negative r.0 l.0;
                    same_opcode = h.same_opcode;
                    same_pending = h.same_pending;
                  })))

    signed-Keeps :
        (negative float' : Bool) (d : Cursor)
        → Good n op pending d
        → Holds (Good n op pending) (
            if float'
            then float_immediate parse_float negative d
            else integer_immediate parse_float negative d)
    signed-Keeps negative true d h = float_immediate-Keeps negative d h
    signed-Keeps negative false d h = integer_immediate-Keeps negative d h

    immediate-Keeps : (Keeps n op pending) (immediate parse_float)
    unfolding immediate
    immediate-Keeps c h = elim (Bool-cases (at minus c.rest)) [
      | inl e ↦
          rw (immediate, e)
            (signed-Keeps true (at float (skip c.rest)) (record c { rest = skip c.rest })
              ((moved n op pending) c (skip c.rest) (skip-Left n c.rest h.left) h))
      | inr e ↦ rw (immediate, e) (signed-Keeps false (at float c.rest) c h)
    ]

    src1_reg_or_imm-Keeps : (Keeps n op pending) (src1_reg_or_imm parse_float)
    unfolding src1_reg_or_imm
    src1_reg_or_imm-Keeps c h = elim (Bool-cases (at identifier c.rest)) [
      | inl e ↦ rw (src1_reg_or_imm, e) (src1_reg-Keeps n op pending c h)
      | inr e ↦ rw (src1_reg_or_imm, e) (immediate-Keeps c h)
    ]

    src0_reg_or_imm-Keeps : (Keeps n op pending) (src0_reg_or_imm parse_float)
    unfolding src0_reg_or_imm
    src0_reg_or_imm-Keeps c h = elim (Bool-cases (at identifier c.rest)) [
      | inl e ↦ rw (src0_reg_or_imm, e) (src0_reg-Keeps n op pending c h)
      | inr e ↦ rw (src0_reg_or_imm, e) (immediate-Keeps c h)
    ]

    module _ (params : List String) (pc : ℕ) where
      param_ref-Keeps : (Keeps n op pending) (param_ref parse_float params pc)
      unfolding param_ref
      param_ref-Keeps c h =
          >>=-Holds (Good n op pending) (Good n op pending) (expect lbracket "'['" c) _
            ((expect-Keeps n op pending) lbracket "'['" c h)
            (λ a g.
              >>=-Holds _ (Good n op pending) (error_if (not (at identifier a.rest)) _ a.rest) _
                (error_if-Holds (not (at identifier a.rest)) _ a.rest)
                (λ u e. found _ a g (find_param (cur a.rest).text params 0)))
        where
          found :
              (message : String) (a : Cursor)
              → Good n op pending a
              → (o : Option ℕ)
              → Holds (Good n op pending) (elim o as (λ _. Parsed) [
                | some i ↦ expect rbracket "']'" (record a {
                  rest = skip a.rest;
                  out = record a.out { imm_flag = true; imm = i % 2 ^ 32 };
                })
                | none ↦ error_at message a.rest
              ])
          found message a g (some i) = (expect-Keeps n op pending) rbracket "']'" _ (record {
            left = skip-Left n a.rest g.left;
            imm_fits = omega arith;
            same_opcode = g.same_opcode;
            same_pending = g.same_pending;
          })
          found message a g none = tt

      pub AllKeep : List (Cursor → Parsed) → Type 0
      AllKeep [] = Unit {0}
      AllKeep (f ∷ fs) = (Keeps n op pending) f × AllKeep fs

      pub sequence-Keeps :
          (fs : List (Cursor → Parsed))
          → AllKeep fs
          → (Keeps n op pending) (sequence parse_float params pc fs)
      unfolding sequence AllKeep
      sequence-Keeps [] hs c h = h
      sequence-Keeps (f ∷ fs) (k, ks) c h =
          >>=-Holds (Good n op pending) (Good n op pending) (f c) _ (k c h)
            (λ d g. sequence-Keeps fs ks d g)

      -- The operands of every shape but a branch's.
      pub steps_of-AllKeep :
          (s : Shape) → is_bra_shape s ≡ false → AllKeep (steps_of parse_float params pc s)
      unfolding steps_of AllKeep
      steps_of-AllKeep Shape.rrr ne = (
        (dst_reg-Keeps n op pending),
        (
          (comma_step-Keeps n op pending),
          (
            (src0_reg-Keeps n op pending),
            ((comma_step-Keeps n op pending), (src1_reg_or_imm-Keeps, tt)),
          ),
        ),
      )
      steps_of-AllKeep Shape.rr ne = (
        (dst_reg-Keeps n op pending),
        ((comma_step-Keeps n op pending), (src0_reg_or_imm-Keeps, tt)),
      )
      steps_of-AllKeep Shape.acc ne = (
        (dst_reg-Keeps n op pending),
        (
          (comma_step-Keeps n op pending),
          (
            (src0_reg-Keeps n op pending),
            ((comma_step-Keeps n op pending), ((src1_reg-Keeps n op pending), tt)),
          ),
        ),
      )
      steps_of-AllKeep Shape.prr ne = (
        (dst_pred-Keeps n op pending),
        (
          (comma_step-Keeps n op pending),
          (
            (src0_reg-Keeps n op pending),
            ((comma_step-Keeps n op pending), (src1_reg_or_imm-Keeps, tt)),
          ),
        ),
      )
      steps_of-AllKeep Shape.sreg ne = (
        (dst_reg-Keeps n op pending),
        ((comma_step-Keeps n op pending), ((special_step-Keeps n op pending), tt)),
      )
      steps_of-AllKeep Shape.bra ne = ground (arith, ne)
      steps_of-AllKeep Shape.no_operands ne = tt
      steps_of-AllKeep Shape.ld ne = (
        (dst_reg-Keeps n op pending),
        ((comma_step-Keeps n op pending), ((address_step-Keeps n op pending), tt)),
      )
      steps_of-AllKeep Shape.st ne = (
        (address_step-Keeps n op pending),
        ((comma_step-Keeps n op pending), ((src1_reg-Keeps n op pending), tt)),
      )
      steps_of-AllKeep Shape.ldp ne =
          ((dst_reg-Keeps n op pending), ((comma_step-Keeps n op pending), (param_ref-Keeps, tt)))
