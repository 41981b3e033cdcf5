-- ===== src/Asm/Assembler.antt =====
-- `Parser` of src/asm/assembler.cpp: directives, statements, the passes after parsing, `assemble`. The
-- result is `none` if the fuel of a loop runs out or if `.value()` is called on an error;
-- `Assembler.Total` is about that. `std::from_chars` for a float is a parameter.
pub mod Codes
pub mod Lines
pub mod Statements
pub mod Link
pub mod Total
use Prim.Native.String
use Prim.Native.String.{◌++◌ as ◌+++◌}
use text.Mathlib.Text.{◌==◌ as str_eq}
use warp_sim.Base.{
  ℕ, zero, suc, String, ◌+◌, ◌%◌, ◌^◌, ltb, ◌==◌, if◌then◌else◌, Bool, true, false, not, ◌&&◌, ◌||◌,
  Option, none, some, List, [], ◌∷◌, ◌++◌, length, get_or, set, Result, ok, fail, ◌>>◌, ◌>>=◌,
}
use warp_sim.Isa.Opcode.{OpcodeInfo, opcode_info_named}
use warp_sim.Isa.Instruction.{Instruction, no_reconvergence, make_branch_imm, to_string}
use warp_sim.Isa.Encoding.{encode, decode}
use warp_sim.Asm.Program.{Program}
use warp_sim.Asm.Lexer.{
  AssemblyError, identifier, directive, guard, colon, newline, end_of_source, Token, lex, is_empty,
}
use warp_sim.Asm.Cfg.{default_instruction}
use warp_sim.Asm.Annotate.{annotate_reconvergence}
use warp_sim.Asm.Numbers.{predicate_name}
use warp_sim.Asm.Operands.{
  cur, at, skip, error_at, error_if, PendingBranch, Cursor, Parsed, integer_literal, parse_operands,
}

-- The members of `Parser`; `labels_` and the labels of the program are association lists.
pub record Parser : Type 0 where
  pub rest : List Token
  pub program : Program
  pub labels : List (String × ℕ)
  pub pending : List PendingBranch

abbrev pub Parsing : Type 0
Parsing = Result Parser AssemblyError

unfoldable pub end_of_line : List Token → Result (Unit {0}) AssemblyError
end_of_line ts =
    error_if (not (at newline ts) && not (at end_of_source ts))
      ("unexpected token '" +++ ((cur ts).text +++ "' at end of line")) ts

-- After an identifier that a directive has taken.
unfoldable pub finish_line : Program → Parser → Parsing
finish_line program p = do
  end_of_line (skip p.rest)
  ok (record p { rest = skip p.rest; program = program })

unfoldable pub member_of : String → List String → Bool
member_of name [] = false
member_of name (p ∷ ps) = str_eq p name || member_of name ps

unfoldable pub entry_directive : Parser → Parsing
entry_directive p = do
  error_if (not (is_empty p.program.entry)) "duplicate .entry" p.rest
  error_if (not (length p.program.words == 0)) ".entry must precede the first instruction" p.rest
  error_if (not (at identifier p.rest)) "expected a kernel name after .entry" p.rest
  finish_line (record p.program { entry = (cur p.rest).text }) p

unfoldable pub param_directive : Parser → Parsing
param_directive p = do
  error_if (not (at identifier p.rest)) "expected a parameter name after .param" p.rest
  error_if (member_of (cur p.rest).text p.program.params)
      ("duplicate parameter '" +++ ((cur p.rest).text +++ "'")) p.rest
  finish_line (record p.program { params = p.program.params ++ ((cur p.rest).text ∷ []) }) p

unfoldable pub shared_directive : Parser → Parsing
shared_directive p = do
  r ← integer_literal p.rest
  end_of_line r.1
  ok (record p { rest = r.1; program = record p.program { shared_bytes = r.0 } })

-- `directive`
unfoldable pub directive_line : Parser → Parsing
directive_line p =
    let name = (cur p.rest).text in
    let q = record p { rest = skip p.rest } in
    if str_eq name ".entry"
    then entry_directive q
    else if str_eq name ".param"
    then param_directive q
    else if str_eq name ".shared"
    then shared_directive q
    else error_at ("unknown directive '" +++ (name +++ "'")) q.rest

unfoldable pub find_label : String → List (String × ℕ) → Option ℕ
find_label name [] = none
find_label name ((l, pc) ∷ ls) = if str_eq l name then some pc else find_label name ls

-- `std::map::emplace`: a PC that has a label keeps it.
unfoldable pub emplace : ℕ → String → List (ℕ × String) → List (ℕ × String)
emplace pc name [] = (pc, name) ∷ []
emplace pc name ((k, l) ∷ ls) = if k == pc then (k, l) ∷ ls else (k, l) ∷ emplace pc name ls

unfoldable pub has_label : List Token → Bool
has_label [] = false
has_label (t ∷ ts) = at identifier (t ∷ ts) && at colon ts

-- The optional label of a statement.
unfoldable pub take_label : Parser → Parsing
take_label p =
    let name = (cur p.rest).text in
    let pc = length p.program.words % 2 ^ 16 in
    if has_label p.rest
    then elim (find_label name p.labels) [
      | some old ↦ error_at ("duplicate label '" +++ (name +++ "'")) p.rest
      | none ↦ ok (record p {
        rest = skip (skip p.rest);
        labels = (name, pc) ∷ p.labels;
        program = record p.program { labels = emplace pc name p.program.labels };
      })
    ]
    else ok p

-- The optional guard of a statement.
unfoldable pub take_guard : Cursor → Parsed
take_guard c =
    if at guard c.rest
    then elim (predicate_name (cur c.rest).text) [
      | none ↦ error_at ("invalid guard predicate '" +++ ((cur c.rest).text +++ "'")) c.rest
      | some p ↦ ok (record c {
        rest = skip c.rest;
        out = record c.out {
          guard = record { present = true; negate = (cur c.rest).negate; pred = p };
        };
      })
    ]
    else ok c

unfoldable pub mnemonic : List Token → Result OpcodeInfo AssemblyError
mnemonic ts = do
  error_if (not (at identifier ts)) "expected an instruction mnemonic" ts
  elim (opcode_info_named (cur ts).text) [
    | none ↦ error_at ("unknown mnemonic '" +++ ((cur ts).text +++ "'")) ts
    | some info ↦ ok info
  ]

-- The end of a statement: the word.
unfoldable pub emit : Parser → Cursor → Parsing
emit p c = do
  end_of_line c.rest
  elim (encode c.out) [
    | fail e ↦ error_at (to_string e) c.rest
    | ok word ↦ ok (record p {
      rest = c.rest;
      pending = c.pending;
      program = record p.program { words = p.program.words ++ (word ∷ []) };
    })
  ]

abbrev pub undefined_label : PendingBranch → AssemblyError
undefined_label b = record {
  line = b.line;
  column = b.column;
  message = "undefined label '" +++ (b.label +++ "'");
}

-- Errors of the whole program.
abbrev pub missing_entry : AssemblyError
missing_entry = record { line = 1; column = 1; message = "missing .entry" }

abbrev pub too_long : AssemblyError
too_long = record { line = 1; column = 1; message = "program exceeds 65535 instructions" }

abbrev pub analysis_error : String → AssemblyError
analysis_error message = record { line = 0; column = 0; message = message }

unfoldable pub resolve_one :
    List (String × ℕ) → List ℕ → PendingBranch → Option (Result (List ℕ) AssemblyError)
resolve_one labels words b = elim (find_label b.label labels) [
  | none ↦ some (fail (undefined_label b))
  | some target ↦ elim (decode (get_or words b.pc 0)) [
    | fail e ↦ none
    | ok i ↦ elim (encode (record i { imm = make_branch_imm target no_reconvergence })) [
      | fail e ↦ none
      | ok word ↦ some (ok (set words b.pc word))
    ]
  ]
]

-- `resolve_branches`
unfoldable pub resolve_branches :
    List (String × ℕ) → List PendingBranch → List ℕ → Option (Result (List ℕ) AssemblyError)
resolve_branches labels [] words = some (ok words)
resolve_branches labels (b ∷ bs) words = elim (resolve_one labels words b) [
  | none ↦ none
  | some r ↦ elim r [ fail e ↦ some (fail e) | ok next ↦ resolve_branches labels bs next ]
]

unfoldable pub decode_all : List ℕ → Option (List Instruction)
decode_all [] = some []
decode_all (w ∷ ws) = elim (decode w) [
  | fail e ↦ none
  | ok i ↦ elim (decode_all ws) [ none ↦ none | some is ↦ some (i ∷ is) ]
]

unfoldable pub encode_all : List Instruction → Option (List ℕ)
encode_all [] = some []
encode_all (i ∷ is) = elim (encode i) [
  | fail e ↦ none
  | ok w ↦ elim (encode_all is) [ none ↦ none | some ws ↦ some (w ∷ ws) ]
]

-- `annotate`, after the decoding.
unfoldable pub annotate_decoded : List Instruction → Option (Result (List ℕ) AssemblyError)
annotate_decoded is = elim (annotate_reconvergence is) [
  | none ↦ none
  | some r ↦ elim r [
    | fail e ↦ some (fail (analysis_error e.message))
    | ok out ↦ elim (encode_all out) [ none ↦ none | some ws ↦ some (ok ws) ]
  ]
]

-- `annotate`
unfoldable pub annotate : List ℕ → Option (Result (List ℕ) AssemblyError)
annotate words = elim (decode_all words) [ none ↦ none | some is ↦ annotate_decoded is ]

-- `resolve_branches` and `annotate`, one after the other.
unfoldable pub link : Parser → Option (Result Program AssemblyError)
link p = elim (resolve_branches p.labels p.pending p.program.words) [
  | none ↦ none
  | some r ↦ elim r [
    | fail e ↦ some (fail e)
    | ok words ↦ elim (annotate words) [
      | none ↦ none
      | some s ↦ elim s [
        | fail e ↦ some (fail e)
        | ok final ↦ some (ok (record p.program { words = final }))
      ]
    ]
  ]
]

-- What `run` does after the loop.
unfoldable pub finish : Parser → Option (Result Program AssemblyError)
finish p =
    if is_empty p.program.entry
    then some (fail missing_entry)
    else if ltb no_reconvergence (length p.program.words)
    then some (fail too_long)
    else link p

-- `Parser(tokens)`
abbrev pub start : List Token → Parser
start tokens = record {
  rest = tokens;
  program = record { entry = ""; params = []; shared_bytes = 0; words = []; labels = [] };
  labels = [];
  pending = [];
}

module _ (parse_float : String → Option ℕ) where
  unfoldable pub instruction_line : Parser → Parsing
  instruction_line p = do
    g ← take_guard (record { rest = p.rest; out = default_instruction; pending = p.pending })
    info ← mnemonic g.rest
    c ←
        parse_operands parse_float p.program.params (length p.program.words) info
          (record g { rest = skip g.rest; out = record g.out { opcode = info.opcode } })
    emit p c

  -- `statement`
  unfoldable pub statement : Parser → Parsing
  statement p = do
    q ← take_label p
    (if has_label p.rest && at newline q.rest then ok q else instruction_line q)

  -- One round of the loop of `run`.
  unfoldable pub line_step : Parser → Parsing
  line_step p =
      if at newline p.rest
      then ok (record p { rest = skip p.rest })
      else if at directive p.rest
      then directive_line p
      else statement p

  unfoldable pub parse_lines : ℕ → Parser → Option Parsing
  parse_lines zero p = none
  parse_lines (suc fuel) p =
      if at end_of_source p.rest
      then some (ok p)
      else elim (line_step p) [ fail e ↦ some (fail e) | ok q ↦ parse_lines fuel q ]

  -- `Parser::run`
  unfoldable pub run_parser : List Token → Option (Result Program AssemblyError)
  run_parser tokens = elim (parse_lines (length tokens) (start tokens)) [
    | none ↦ none
    | some r ↦ elim r [ fail e ↦ some (fail e) | ok p ↦ finish p ]
  ]

  unfoldable pub assemble : String → Option (Result Program AssemblyError)
  assemble source = elim (lex source) [
    | none ↦ none
    | some r ↦ elim r [ fail e ↦ some (fail e) | ok tokens ↦ run_parser tokens ]
  ]
