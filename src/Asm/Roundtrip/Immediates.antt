-- ===== src/Asm/Roundtrip/Immediates.antt =====
-- The immediates that src/asm/disassembler.cpp prints, but for floats, read by src/asm/assembler.cpp.
use warp_sim.Base.{
  ℕ, String, ◌-◌, ◌%◌, ◌^◌, ◌<◌, ◌≤◌, ltb, leb, ◌==◌, ◌≡◌, inl, inr, refl, sym, arith, subst, Bool,
  true, false, ◌&&◌, ◌⊎◌, Option, some, List, [], ◌∷◌, ◌++◌, if◌then◌else◌, Bool-cases, ok, leb→le,
}
use warp_sim.Isa.Instruction.{Instruction}
use warp_sim.Asm.Lexer.{Token, identifier, integer, float, minus}
use warp_sim.Asm.Lexer.Pieces.{Piece, Shaped}
use warp_sim.Asm.Operands.{
  kind_number, at, skip, PendingBranch, Cursor, Parsed, src0_reg, src1_reg, immediate,
  integer_immediate, src0_reg_or_imm, src1_reg_or_imm,
}
use warp_sim.Asm.Numbers.{integer_value}
use warp_sim.Asm.Printing.{decimal_text, reg, hex, signed_decimal}
use warp_sim.Asm.Printing.Reading.{integer_value-text}
use warp_sim.Asm.Disassembler.{immediate_text, prints_float_immediate, is_finite, is_mov}
use warp_sim.Asm.Roundtrip.Texts.{Loose-Text, minus-Loose}
use warp_sim.Asm.Roundtrip.Numerals.{decimal-Text, hex-Text, reg-Text}
use warp_sim.Asm.Roundtrip.Steps.{
  Consumes, cursor, one_piece, here, elsewhere, src0_reg-Consumes, src1_reg-Consumes,
}
use warp_sim.Asm.Roundtrip.Addresses.{two_pieces, integer_literal-text}
use warp_sim.Asm.Roundtrip.Operands.{Printed}

not_over : (m : ℕ) → m ≤ 2 ^ 31 → ltb 0x80000000 m ≡ false
not_over m le = ground (arith, le)

-- The instruction's immediate, if it has one, is printed as a number that is no float.
abbrev pub NoFloat : Instruction → Type 0
NoFloat i = (i.imm_flag && (prints_float_immediate i.opcode && is_finite i.imm)) ≡ false

-- The first token is no identifier.
abbrev NotName : List Piece → Type 0
NotName [] = ⊥
NotName ((kind, text, negate) ∷ ps) = (kind_number kind == kind_number identifier) ≡ false

-- An immediate: what `immediate` reads, and no register's name.
record IsImmediate (a : String) (f : Cursor → Parsed) (i j : Instruction) : Type 0 where
  printed : Printed a f i j
  not_name : NotName printed.pieces

immediate_text-NoFloat :
    (float_text : ℕ → String) (i : Instruction)
    → (prints_float_immediate i.opcode && is_finite i.imm) ≡ false
    → (immediate_text float_text i ≡ hex i.imm)
      ⊎ (immediate_text float_text i ≡ signed_decimal i.imm)
unfolding immediate_text
immediate_text-NoFloat float_text i plain = elim (Bool-cases (prints_float_immediate i.opcode)) [
  | inl e ↦ let f : is_finite i.imm ≡ false = cc (plain, e) in inl (rw (immediate_text, e, f) refl)
  | inr e ↦ elim (Bool-cases (is_mov i.opcode)) [
    | inl f ↦ inl (rw (immediate_text, e, f) refl)
    | inr f ↦ inr (rw (immediate_text, e, f) refl)
  ]
]

either-Printed :
    (f : Cursor → Parsed) (x : Instruction) (b : Bool) {a a' : String} {j j' : Instruction}
    → (b ≡ true → Printed a f x j)
    → Printed a' f x j'
    → Printed (if b then a else a') f x (if b then j else j')
either-Printed f x true p q = p refl
either-Printed f x false p q = q

module _ (parse_float : String → Option ℕ) where
  positive :
      (n : ℕ) (text : String) (x : Instruction)
      → integer_value text ≡ some n
      → Consumes
          (immediate parse_float)
          ((integer, text, false) ∷ [])
          x
          (record x { imm_flag = true; imm = n })
  unfolding immediate integer_immediate
  positive n text x value = one_piece (immediate parse_float) _ x _ λ t u us pending is.
      rw
        (
          elsewhere integer minus text false t (u ∷ us) is refl,
          elsewhere integer float text false t (u ∷ us) is refl,
          here integer text false t (u ∷ us) is,
          integer_literal-text n text t u us value is,
        )
        refl

  negative :
      (m : ℕ) (x : Instruction)
      → m ≤ 2 ^ 31
      → Consumes
          (immediate parse_float)
          ((minus, "-", false) ∷ ((integer, decimal_text m, false) ∷ []))
          x
          (record x { imm_flag = true; imm = (2 ^ 32 - m) % 2 ^ 32 })
  unfolding immediate integer_immediate skip
  negative m x le = two_pieces (immediate parse_float) _ _ x _ λ t v u us pending is is'.
      rw
        (
          here minus "-" false t (v ∷ (u ∷ us)) is,
          elsewhere integer float (decimal_text m) false v (u ∷ us) is' refl,
          here integer (decimal_text m) false v (u ∷ us) is',
          integer_literal-text m (decimal_text m) v u us
              (integer_value-text m (omega (arith, le))).0 is',
          not_over m le,
        )
        refl

  hex-IsImmediate :
      (n : ℕ) (x : Instruction)
      → n < 2 ^ 32
      → IsImmediate (hex n) (immediate parse_float) x (record x { imm_flag = true; imm = n })
  hex-IsImmediate n x lt = record {
    printed = record {
      pieces = (integer, hex n, false) ∷ [];
      text = hex-Text n;
      opens = refl;
      consumes = positive n (hex n) x (integer_value-text n lt).1;
    };
    not_name = refl;
  }

  signed_decimal-IsImmediate :
      (n : ℕ) (x : Instruction)
      → n < 2 ^ 32
      → IsImmediate
          (signed_decimal n)
          (immediate parse_float)
          x
          (record x { imm_flag = true; imm = n })
  unfolding signed_decimal
  signed_decimal-IsImmediate n x lt = elim (Bool-cases (leb (2 ^ 31) n)) [
    | inr e ↦
        rw (signed_decimal, e)
          (record {
            printed = record {
              pieces = (integer, decimal_text n, false) ∷ [];
              text = decimal-Text n;
              opens = refl;
              consumes = positive n (decimal_text n) x (integer_value-text n lt).0;
            };
            not_name = refl;
          })
    | inl e ↦
        let le = leb→le (2 ^ 31) n e in
        let same : (2 ^ 32 - (2 ^ 32 - n)) % 2 ^ 32 ≡ n = omega (arith, le, lt) in
        rw (signed_decimal, e)
          (record {
            printed = record {
              pieces = (minus, "-", false) ∷ ((integer, decimal_text (2 ^ 32 - n), false) ∷ []);
              text = Loose-Text minus-Loose (decimal-Text (2 ^ 32 - n));
              opens = refl;
              consumes =
                  subst
                    (λ (v : ℕ).
                      Consumes (immediate parse_float)
                        ((minus, "-", false) ∷ ((integer, decimal_text (2 ^ 32 - n), false) ∷ [])) x
                        (record x { imm_flag = true; imm = v }))
                    same (negative (2 ^ 32 - n) x (omega (arith, le)));
            };
            not_name = refl;
          })
  ]

  immediate_text-IsImmediate :
      (float_text : ℕ → String) (i x : Instruction)
      → (prints_float_immediate i.opcode && is_finite i.imm) ≡ false
      → i.imm < 2 ^ 32
      → IsImmediate
          (immediate_text float_text i)
          (immediate parse_float)
          x
          (record x { imm_flag = true; imm = i.imm })
  immediate_text-IsImmediate float_text i x plain lt =
      elim (immediate_text-NoFloat float_text i plain) [
        | inl e ↦
            subst
              (λ (s : String).
                IsImmediate s (immediate parse_float) x (record x { imm_flag = true; imm = i.imm }))
              (sym e) (hex-IsImmediate i.imm x lt)
        | inr e ↦
            subst
              (λ (s : String).
                IsImmediate s (immediate parse_float) x (record x { imm_flag = true; imm = i.imm }))
              (sym e) (signed_decimal-IsImmediate i.imm x lt)
      ]

  -- A register that may be an immediate too.
  src1_register :
      (r : ℕ) (x : Instruction)
      → r < 64
      → Printed (reg r) (src1_reg_or_imm parse_float) x (record x { src1 = r })
  unfolding src1_reg_or_imm
  src1_register r x lt = record {
    pieces = (identifier, reg r, false) ∷ [];
    text = reg-Text r;
    opens = refl;
    consumes = one_piece (src1_reg_or_imm parse_float) _ x _ λ t u us pending is.
        rw (here identifier (reg r) false t (u ∷ us) is)
          ((src1_reg-Consumes r x lt).parses (t ∷ []) (is, tt) u us pending);
  }

  src0_register :
      (r : ℕ) (x : Instruction)
      → r < 64
      → Printed (reg r) (src0_reg_or_imm parse_float) x (record x { src0 = r })
  unfolding src0_reg_or_imm
  src0_register r x lt = record {
    pieces = (identifier, reg r, false) ∷ [];
    text = reg-Text r;
    opens = refl;
    consumes = one_piece (src0_reg_or_imm parse_float) _ x _ λ t u us pending is.
        rw (here identifier (reg r) false t (u ∷ us) is)
          ((src0_reg-Consumes r x lt).parses (t ∷ []) (is, tt) u us pending);
  }

  -- A parser that chooses by the first token.
  abbrev choice : (Cursor → Parsed) → Cursor → Parsed
  choice register c = if at identifier c.rest then register c else immediate parse_float c

  choice-immediate :
      (register : Cursor → Parsed) (ps : List Piece) (i j : Instruction)
      → NotName ps
      → Consumes (immediate parse_float) ps i j
      → Consumes (choice register) ps i j
  choice-immediate register [] i j none' h = absurd none'
  choice-immediate register ((kind, text, negate) ∷ ps) i j no_name h = record {
    parses = λ ts shaped u us pending. go ts shaped u us pending;
  }
    where
      go :
          (ts : List Token)
          → Shaped ((kind, text, negate) ∷ ps) ts
          → (u : Token) (us : List Token) (pending : List PendingBranch)
          → choice register (cursor (ts ++ (u ∷ us)) i pending) ≡ ok (cursor (u ∷ us) j pending)
      go [] shaped u us pending = absurd shaped
      go (t ∷ ts) (is, shaped) u us pending =
          rw (elsewhere kind identifier text negate t (ts ++ (u ∷ us)) is no_name)
            (h.parses (t ∷ ts) (is, shaped) u us pending)

  -- The second source: a register, or the immediate.
  pub src1_reg_or_imm-Printed :
      (float_text : ℕ → String) (i x : Instruction)
      → NoFloat i
      → i.imm < 2 ^ 32
      → i.src1 < 64
      → Printed
          (if i.imm_flag then immediate_text float_text i else reg i.src1)
          (src1_reg_or_imm parse_float)
          x
          (if i.imm_flag
            then record x { imm_flag = true; imm = i.imm }
            else record x { src1 = i.src1 })
  unfolding src1_reg_or_imm
  src1_reg_or_imm-Printed float_text i x plain lt fits =
      either-Printed (src1_reg_or_imm parse_float) x i.imm_flag
        (λ flag.
          let m = immediate_text-IsImmediate float_text i x (cc (flag, plain)) lt in
          record {
            pieces = m.printed.pieces;
            text = m.printed.text;
            opens = m.printed.opens;
            consumes = choice-immediate src1_reg m.printed.pieces x _ m.not_name m.printed.consumes;
          })
        (src1_register i.src1 x fits)

  pub src0_reg_or_imm-Printed :
      (float_text : ℕ → String) (i x : Instruction)
      → NoFloat i
      → i.imm < 2 ^ 32
      → i.src0 < 64
      → Printed
          (if i.imm_flag then immediate_text float_text i else reg i.src0)
          (src0_reg_or_imm parse_float)
          x
          (if i.imm_flag
            then record x { imm_flag = true; imm = i.imm }
            else record x { src0 = i.src0 })
  unfolding src0_reg_or_imm
  src0_reg_or_imm-Printed float_text i x plain lt fits =
      either-Printed (src0_reg_or_imm parse_float) x i.imm_flag
        (λ flag.
          let m = immediate_text-IsImmediate float_text i x (cc (flag, plain)) lt in
          record {
            pieces = m.printed.pieces;
            text = m.printed.text;
            opens = m.printed.opens;
            consumes = choice-immediate src0_reg m.printed.pieces x _ m.not_name m.printed.consumes;
          })
        (src0_register i.src0 x fits)
