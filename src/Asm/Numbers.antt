-- ===== src/Asm/Numbers.antt =====
-- `parse_number`, `register_index` and `integer_literal` of src/asm/assembler.cpp, with what they use
-- of `std::from_chars` for unsigned integers written out: the digits of a base, and a range error.
use warp_sim.Base.{
  ℕ, String, ◌+◌, ◌-◌, ◌*◌, ◌%◌, ◌^◌, ltb, leb, ◌==◌, if◌then◌else◌, not, ◌&&◌, ◌||◌, Option, none,
  some,
}
use warp_sim.Isa.Instruction.{predicate_register_count}
use warp_sim.Asm.Lexer.{code_at, tail_of, is_empty}

-- The value of a digit in a base, either case.
unfoldable pub digit_value : ℕ → ℕ → Option ℕ
digit_value base c =
    if leb b'0' c && leb c b'9'
    then some (c - b'0')
    else if base == 16 && leb b'a' c && leb c b'f'
    then some (c - b'a' + 10)
    else if base == 16 && leb b'A' c && leb c b'F'
    then some (c - b'A' + 10)
    else none

-- The number that digits continue, if the text has nothing else.
unfoldable pub parse_digits : ℕ → ℕ → String → Option ℕ
parse_digits base value String.[] = some value
parse_digits base value (String.◌∷◌ c s) = elim (digit_value base (Prim.Native.Char.code c)) [
  | none ↦ none
  | some d ↦ parse_digits base (value * base + d) s
]

-- `parse_number` for an unsigned type of so many bits.
unfoldable pub parse_number : ℕ → ℕ → String → Option ℕ
parse_number bits base text = if is_empty text then none else elim (parse_digits base 0 text) [
  | none ↦ none
  | some value ↦ if ltb value (2 ^ bits) then some value else none
]

unfoldable pub register_index : String → ℕ → ℕ → Option ℕ
register_index text prefix count =
    if is_empty (tail_of text) || not (code_at 0 text == prefix)
    then none
    else elim (parse_number 32 10 (tail_of text)) [
      | none ↦ none
      | some value ↦
          if leb count value
          then none
          else if not (is_empty (tail_of (tail_of text))) && code_at 1 text == b'0'
          then none
          else some (value % 2 ^ 8)
    ]

unfoldable pub predicate_name : String → Option ℕ
predicate_name text = register_index text b'p' predicate_register_count

-- The value of an integer token, if it fits in 32 bits.
unfoldable pub integer_value : String → Option ℕ
integer_value text =
    let hex = code_at 0 text == b'0' && code_at 1 text == b'x' in
    let digits = if hex then tail_of (tail_of text) else text in
    elim (parse_number 64 (if hex then 16 else 10) digits) [
      | none ↦ none
      | some value ↦ if ltb (2 ^ 32 - 1) value then none else some (value % 2 ^ 32)
    ]
