-- ===== src/Asm/Operands.antt =====
-- The operand parsers of `Parser` in src/asm/assembler.cpp: steps on a cursor.
pub mod Cursors
pub mod Shapes
pub mod Branches
pub mod Params
use Prim.Native.String
use Prim.Native.String.{◌++◌ as ◌+++◌}
use text.Mathlib.Text.{◌==◌ as str_eq}
use warp_sim.Base.{
  ℕ, String, ◌+◌, ◌-◌, ◌%◌, ◌^◌, ltb, ◌==◌, if◌then◌else◌, Bool, true, false, not, ◌&&◌, ◌||◌,
  Option, none, some, List, [], ◌∷◌, ◌++◌, Result, ok, fail, ◌>>◌, ◌>>=◌,
}
use warp_sim.Isa.Opcode.{Opcode, Shape, OpcodeInfo, index, special_register_info_named}
use warp_sim.Isa.Instruction.{
  Instruction, general_register_count, no_reconvergence, make_branch_imm,
}
use warp_sim.Asm.Lexer.{
  AssemblyError, TokenKind, identifier, directive, guard, special, integer, float, comma, lbracket,
  rbracket, plus, minus, colon, newline, end_of_source, Token,
}
use warp_sim.Asm.Numbers.{register_index, predicate_name, integer_value}

-- The value of an enumerator of `TokenKind`.
abbrev pub kind_number : TokenKind → ℕ
kind_number identifier = 0
kind_number directive = 1
kind_number guard = 2
kind_number special = 3
kind_number integer = 4
kind_number float = 5
kind_number comma = 6
kind_number lbracket = 7
kind_number rbracket = 8
kind_number plus = 9
kind_number minus = 10
kind_number colon = 11
kind_number newline = 12
kind_number end_of_source = 13

-- The list is what is left from `index_` on; it is never empty, and `Token{}` stands past its end.
abbrev pub cur : List Token → Token
cur [] = record { kind = end_of_source; text = ""; negate = false; line = 0; column = 0 }
cur (t ∷ ts) = t

unfoldable pub at : TokenKind → List Token → Bool
at kind ts = kind_number (cur ts).kind == kind_number kind

-- `next`: the last token stays.
unfoldable pub skip : List Token → List Token
skip [] = []
skip (t ∷ []) = t ∷ []
skip (t ∷ (u ∷ ts)) = u ∷ ts

abbrev pub error_at : {A : Type 0} → String → List Token → Result A AssemblyError
error_at message ts =
    fail (record { line = (cur ts).line; column = (cur ts).column; message = message })

-- `if (b) return fail(error(message));`
abbrev pub error_if : Bool → String → List Token → Result (Unit {0}) AssemblyError
error_if true message ts = error_at message ts
error_if false message ts = ok tt

pub record PendingBranch : Type 0 where
  pub pc : ℕ
  pub label : String
  pub line : ℕ
  pub column : ℕ

-- The branch at a label, of the instruction at `pc`.
abbrev pub branch_here : ℕ → List Token → PendingBranch
branch_here pc ts = record {
  pc = pc;
  label = (cur ts).text;
  line = (cur ts).line;
  column = (cur ts).column;
}

-- What the operand parsers change: the tokens left, the instruction, `pending_`.
pub record Cursor : Type 0 where
  pub rest : List Token
  pub out : Instruction
  pub pending : List PendingBranch

abbrev pub Parsed : Type 0
Parsed = Result Cursor AssemblyError

unfoldable pub accepts_float_immediate : Opcode → Bool
accepts_float_immediate Opcode.fadd = true
accepts_float_immediate Opcode.fsub = true
accepts_float_immediate Opcode.fmul = true
accepts_float_immediate Opcode.fmin = true
accepts_float_immediate Opcode.fmax = true
accepts_float_immediate Opcode.fneg = true
accepts_float_immediate Opcode.cvt_s32_f32 = true
accepts_float_immediate Opcode.setp_eq_f32 = true
accepts_float_immediate Opcode.setp_ne_f32 = true
accepts_float_immediate Opcode.setp_lt_f32 = true
accepts_float_immediate Opcode.setp_le_f32 = true
accepts_float_immediate Opcode.setp_gt_f32 = true
accepts_float_immediate Opcode.setp_ge_f32 = true
accepts_float_immediate Opcode.mov = true
accepts_float_immediate _ = false

unfoldable pub expect : TokenKind → String → Cursor → Parsed
expect kind what c = do
  error_if (not (at kind c.rest)) ("expected " +++ what) c.rest
  ok (record c { rest = skip c.rest })

unfoldable pub comma_step : Cursor → Parsed
comma_step c = expect comma "','" c

unfoldable pub general_register : List Token → Result (ℕ × List Token) AssemblyError
general_register ts =
    elim (if at identifier ts
      then register_index (cur ts).text b'r' general_register_count
      else none) [
        | some r ↦ ok (r, skip ts)
        | none ↦ error_at "expected a general register r0..r63" ts
      ]

unfoldable pub dst_reg : Cursor → Parsed
dst_reg c = do
  r ← general_register c.rest
  ok (record c { rest = r.1; out = record c.out { dst = r.0 } })

unfoldable pub src0_reg : Cursor → Parsed
src0_reg c = do
  r ← general_register c.rest
  ok (record c { rest = r.1; out = record c.out { src0 = r.0 } })

unfoldable pub src1_reg : Cursor → Parsed
src1_reg c = do
  r ← general_register c.rest
  ok (record c { rest = r.1; out = record c.out { src1 = r.0 } })

unfoldable pub integer_literal : List Token → Result (ℕ × List Token) AssemblyError
integer_literal ts =
    if at integer ts
    then elim (integer_value (cur ts).text) [
      | some value ↦ ok (value, skip ts)
      | none ↦ error_at ("integer does not fit in 32 bits: '" +++ ((cur ts).text +++ "'")) ts
    ]
    else error_at "expected an integer" ts

-- `dst_pred`
unfoldable pub dst_pred : Cursor → Parsed
dst_pred c = elim (if at identifier c.rest then predicate_name (cur c.rest).text else none) [
  | some p ↦ ok (record c { rest = skip c.rest; out = record c.out { dst = p } })
  | none ↦ error_at "expected a predicate register p0..p7" c.rest
]

unfoldable pub special_step : Cursor → Parsed
special_step c =
    if at special c.rest
    then elim (special_register_info_named (cur c.rest).text) [
      | some info ↦
          ok (record c { rest = skip c.rest; out = record c.out { src0 = index info.reg } })
      | none ↦ error_at ("unknown special register '" +++ ((cur c.rest).text +++ "'")) c.rest
    ]
    else error_at "expected a special register" c.rest

-- The optional offset of an address.
unfoldable pub offset : Cursor → Parsed
offset c =
    if at plus c.rest || at minus c.rest
    then (do
      r ← integer_literal (skip c.rest)
      let value = if at minus c.rest then (2 ^ 32 - r.0) % 2 ^ 32 else r.0
      ok (record c { rest = r.1; out = record c.out { imm = value } }))
    else ok c

-- `address`
unfoldable pub address_step : Cursor → Parsed
address_step c = do
  a ← expect lbracket "'['" c
  r ← general_register a.rest
  b ← offset (record a { rest = r.1; out = record a.out { src0 = r.0; imm_flag = true; imm = 0 } })
  expect rbracket "']'" b

-- The place of a parameter.
unfoldable pub find_param : String → List String → ℕ → Option ℕ
find_param name [] i = none
find_param name (p ∷ ps) i = if str_eq p name then some i else find_param name ps (i + 1)

module _ (parse_float : String → Option ℕ) where
  -- The bits of a float literal; `-value` flips the sign, which is the highest bit.
  unfoldable pub float_value : Bool → String → Option ℕ
  float_value negative text = elim (parse_float text) [
    | none ↦ none
    | some bits ↦ some (if negative then (bits + 2 ^ 31) % 2 ^ 32 else bits % 2 ^ 32)
  ]

  -- `immediate`, after the optional sign.
  unfoldable pub float_immediate : Bool → Cursor → Parsed
  float_immediate negative c = do
    error_if (not (accepts_float_immediate c.out.opcode))
        "float immediate is not valid for this instruction" c.rest
    elim (float_value negative (cur c.rest).text) [
      | none ↦ error_at ("invalid float literal '" +++ ((cur c.rest).text +++ "'")) c.rest
      | some bits ↦
          ok (record c { rest = skip c.rest; out = record c.out { imm_flag = true; imm = bits } })
    ]

  unfoldable pub integer_immediate : Bool → Cursor → Parsed
  integer_immediate negative c = do
    error_if (not (at integer c.rest)) "expected a register or an immediate" c.rest
    r ← integer_literal c.rest
    error_if (negative && ltb 0x80000000 r.0) "immediate does not fit in 32 bits" r.1
    let value = if negative then (2 ^ 32 - r.0) % 2 ^ 32 else r.0
    ok (record c { rest = r.1; out = record c.out { imm_flag = true; imm = value } })

  unfoldable pub immediate : Cursor → Parsed
  immediate c =
      let negative = at minus c.rest in
      let d = if negative then record c { rest = skip c.rest } else c in
      if at float d.rest then float_immediate negative d else integer_immediate negative d

  unfoldable pub src1_reg_or_imm : Cursor → Parsed
  src1_reg_or_imm c = if at identifier c.rest then src1_reg c else immediate c

  unfoldable pub src0_reg_or_imm : Cursor → Parsed
  src0_reg_or_imm c = if at identifier c.rest then src0_reg c else immediate c

  module _ (params : List String) (pc : ℕ) where
    -- `param_ref`
    unfoldable pub param_ref : Cursor → Parsed
    param_ref c = do
      a ← expect lbracket "'['" c
      error_if (not (at identifier a.rest)) "expected a parameter name" a.rest
      elim (find_param (cur a.rest).text params 0) [
        | some i ↦ expect rbracket "']'" (record a {
          rest = skip a.rest;
          out = record a.out { imm_flag = true; imm = i % 2 ^ 32 };
        })
        | none ↦ error_at ("undeclared parameter '" +++ ((cur a.rest).text +++ "'")) a.rest
      ]

    -- `branch_target`
    unfoldable pub branch_step : Cursor → Parsed
    branch_step c = do
      error_if (not (at identifier c.rest)) "expected a label" c.rest
      ok (record c {
        rest = skip c.rest;
        out = record c.out { imm = make_branch_imm 0 no_reconvergence };
        pending = c.pending ++ (branch_here pc c.rest ∷ []);
      })

    unfoldable pub sequence : List (Cursor → Parsed) → Cursor → Parsed
    sequence [] c = ok c
    sequence (f ∷ fs) c = do d ← f c; sequence fs d

    -- The steps of each operand shape.
    unfoldable pub steps_of : Shape → List (Cursor → Parsed)
    steps_of Shape.rrr = dst_reg ∷ comma_step ∷ src0_reg ∷ comma_step ∷ src1_reg_or_imm ∷ []
    steps_of Shape.rr = dst_reg ∷ comma_step ∷ src0_reg_or_imm ∷ []
    steps_of Shape.acc = dst_reg ∷ comma_step ∷ src0_reg ∷ comma_step ∷ src1_reg ∷ []
    steps_of Shape.prr = dst_pred ∷ comma_step ∷ src0_reg ∷ comma_step ∷ src1_reg_or_imm ∷ []
    steps_of Shape.sreg = dst_reg ∷ comma_step ∷ special_step ∷ []
    steps_of Shape.bra = branch_step ∷ []
    steps_of Shape.no_operands = []
    steps_of Shape.ld = dst_reg ∷ comma_step ∷ address_step ∷ []
    steps_of Shape.st = address_step ∷ comma_step ∷ src1_reg ∷ []
    steps_of Shape.ldp = dst_reg ∷ comma_step ∷ param_ref ∷ []

    unfoldable pub parse_operands : OpcodeInfo → Cursor → Parsed
    parse_operands info c = sequence (steps_of info.shape) c
