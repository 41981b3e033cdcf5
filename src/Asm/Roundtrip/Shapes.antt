-- ===== src/Asm/Roundtrip/Shapes.antt =====
-- The operands of each shape but a branch's, as `format_instruction` of src/asm/disassembler.cpp prints
-- them and `parse_operands` of src/asm/assembler.cpp reads them.
use Prim.Native.String.{◌++◌ as ◌+++◌}
use warp_sim.Base.{
  String, ◌≡◌, inl, inr, refl, sym, subst, Bool, true, false, ◌⊎◌, some, List, [], ◌∷◌, ◌++◌,
  if◌then◌else◌, ok, get_or,
}
use warp_sim.Isa.Opcode.{Shape}
use warp_sim.Isa.Instruction.{Instruction}
use warp_sim.Isa.Validity.{ShapeCanonical}
use warp_sim.Asm.Cfg.{default_instruction}
use warp_sim.Asm.Lexer.{Token}
use warp_sim.Asm.Lexer.Pieces.{Piece, Reads, IsIdent, Shaped}
use warp_sim.Asm.Operands.{PendingBranch, Cursor, Parsed, find_param}
use warp_sim.Asm.Roundtrip.Texts.{NoColon, Boundary, Loose-Text, space-Loose, space-Marks}
use warp_sim.Asm.Roundtrip.Steps.{Consumes, cursor}
use warp_sim.Asm.Roundtrip.Operands.{Printed}

pub instruction_ext :
    (a b : Instruction)
    → a.opcode ≡ b.opcode
    → a.guard ≡ b.guard
    → a.dst ≡ b.dst
    → a.src0 ≡ b.src0
    → a.src1 ≡ b.src1
    → a.imm_flag ≡ b.imm_flag
    → a.imm ≡ b.imm
    → a ≡ b
instruction_ext a b o g d s t f m = λ k. record {
  opcode = o k;
  guard = g k;
  dst = d k;
  src0 = s k;
  src1 = t k;
  imm_flag = f k;
  imm = m k;
}

-- The instruction before its operands are read.
abbrev pub headed : Instruction → Instruction
headed i = record default_instruction { opcode = i.opcode; guard = i.guard }

-- What the instruction's parameter is called, and that the assembler finds it under that name.
abbrev pub NamesParameter : List String → Instruction → Type 0
NamesParameter params i =
    IsIdent (get_or params i.imm "") × (find_param (get_or params i.imm "") params 0 ≡ some i.imm)

chosen :
    (b : Bool) (x y z : Instruction)
    → (b ≡ true → x ≡ z)
    → (b ≡ false → y ≡ z)
    → (if b then x else y) ≡ z
chosen true x y z p q = p refl
chosen false x y z p q = q refl

pub src1_last :
    (i : Instruction)
    → ShapeCanonical Shape.rrr i
    → (if i.imm_flag
        then record (headed i) { dst = i.dst; src0 = i.src0; imm_flag = true; imm = i.imm }
        else record (headed i) { dst = i.dst; src0 = i.src0; src1 = i.src1 })
      ≡ i
src1_last i (inl (f, z)) =
    chosen i.imm_flag _ _ i (λ e. instruction_ext _ i refl refl refl refl (sym z) (sym f) refl)
      (λ e. absurd (cc (e, f)))
src1_last i (inr (f, z)) =
    chosen i.imm_flag _ _ i (λ e. absurd (cc (e, f)))
      (λ e. instruction_ext _ i refl refl refl refl refl (sym f) (sym z))

pub src0_last :
    (i : Instruction)
    → i.src1 ≡ 0
    → ((i.imm_flag ≡ true) × (i.src0 ≡ 0)) ⊎ ((i.imm_flag ≡ false) × (i.imm ≡ 0))
    → (if i.imm_flag
        then record (headed i) { dst = i.dst; imm_flag = true; imm = i.imm }
        else record (headed i) { dst = i.dst; src0 = i.src0 })
      ≡ i
src0_last i y (inl (f, z)) =
    chosen i.imm_flag _ _ i (λ e. instruction_ext _ i refl refl refl (sym z) (sym y) (sym f) refl)
      (λ e. absurd (cc (e, f)))
src0_last i y (inr (f, z)) =
    chosen i.imm_flag _ _ i (λ e. absurd (cc (e, f)))
      (λ e. instruction_ext _ i refl refl refl refl (sym y) (sym f) (sym z))

abbrev pub no_step : Cursor → Parsed
no_step c = ok c

pub nothing : (i : Instruction) → Consumes no_step [] i i
nothing i = record { parses = λ ts shaped u us pending. go ts shaped u us pending }
  where
    go :
        (ts : List Token)
        → Shaped [] ts
        → (u : Token) (us : List Token) (pending : List PendingBranch)
        → no_step (cursor (ts ++ (u ∷ us)) i pending) ≡ ok (cursor (u ∷ us) i pending)
    go [] shaped u us pending = refl
    go (t ∷ ts) shaped u us pending = absurd shaped

-- A text of operands that is read back as the operands of i.
pub record OperandsRead (read : Cursor → Parsed) (text : String) (i : Instruction) : Type 0 where
  pub pieces : List Piece
  pub reads : (rest : String) → Boundary rest → Reads (text +++ rest) pieces rest
  pub marks : (rest : String) → Boundary rest → Boundary (text +++ rest)
  pub consumes : Consumes read pieces (headed i) i
  pub opens : NoColon pieces

pub spaced :
    (read : Cursor → Parsed) (a : String) (i j : Instruction)
    → Printed a read (headed i) j
    → j ≡ i
    → OperandsRead read (" " +++ a) i
spaced read a i j p same = record {
  pieces = p.pieces;
  reads = λ rest k. (Loose-Text space-Loose p.text).reads rest k;
  marks = λ rest k. space-Marks a rest;
  opens = p.opens;
  consumes = subst (λ (x : Instruction). Consumes read p.pieces (headed i) x) same p.consumes;
}
