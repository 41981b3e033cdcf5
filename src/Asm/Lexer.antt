-- ===== src/Asm/Lexer.antt =====
-- src/asm/lexer.cpp, src/asm/lexer.hpp and include/warpsim/asm/error.hpp. A source is a text whose
-- characters are its bytes; the classes of <cctype> are those of the "C" locale. The position `pos_` is
-- the text that is left. The loop has fuel; `Lexer.Total` is about it.
pub mod Total
pub mod Decimals
pub mod Codes
pub mod Numbers
pub mod Pieced
pub mod Sources
pub mod Words
pub mod Tokens
pub mod Scanning
pub mod Pieces
pub mod Numerals
use Prim.Native.Char.{Char, code}
use Prim.Native.String
use Prim.Native.String.{◌++◌ as ◌+++◌}
use warp_sim.Base.{
  ℕ, zero, suc, String, ◌+◌, ◌%◌, ◌^◌, leb, ◌==◌, if◌then◌else◌, Bool, true, false, not, ◌&&◌, ◌||◌,
  Option, none, some, List, [], ◌∷◌, ◌++◌, Result, ok, fail,
}

pub record AssemblyError : Type 0 where
  pub line : ℕ
  pub column : ℕ
  pub message : String

-- `enum class TokenKind`
pub data TokenKind : Type 0 where
  identifier directive guard special integer float comma lbracket rbracket : TokenKind
  plus minus colon newline end_of_source : TokenKind

pub record Token : Type 0 where
  pub kind : TokenKind
  pub text : String
  pub negate : Bool
  pub line : ℕ
  pub column : ℕ

unfoldable pub is_digit : ℕ → Bool
is_digit c = leb b'0' c && leb c b'9'

unfoldable pub is_alpha : ℕ → Bool
is_alpha c = leb b'a' c && leb c b'z' || leb b'A' c && leb c b'Z'

unfoldable pub is_hex_digit : ℕ → Bool
unfolding is_digit
is_hex_digit c = is_digit c || leb b'a' c && leb c b'f' || leb b'A' c && leb c b'F'

unfoldable pub is_ident_start : ℕ → Bool
unfolding is_alpha
is_ident_start c = is_alpha c || c == b'_'

unfoldable pub is_ident_char : ℕ → Bool
unfolding is_alpha is_digit
is_ident_char c = is_alpha c || is_digit c || c == b'_' || c == b'.'

-- The lexer between two characters.
pub record Scan : Type 0 where
  pub rest : String
  pub line : ℕ
  pub column : ℕ

abbrev pub tail_of : String → String
tail_of String.[] = ""
tail_of (String.◌∷◌ c s) = s

-- `peek`: 0 past the end.
abbrev pub code_at : ℕ → String → ℕ
code_at k String.[] = 0
code_at zero (String.◌∷◌ c s) = code c
code_at (suc k) (String.◌∷◌ c s) = code_at k s

abbrev pub peek : ℕ → Scan → ℕ
peek k s = code_at k s.rest

abbrev pub next_column : ℕ → ℕ
next_column n = (n + 1) % 2 ^ 32

unfoldable pub advance : Scan → Scan
advance s = record s { rest = tail_of s.rest; column = next_column s.column }

-- `make` and `error`
abbrev pub make : TokenKind → String → Scan → Token
make kind text s = record {
  kind = kind;
  text = text;
  negate = false;
  line = s.line;
  column = s.column;
}

abbrev pub error : String → Scan → AssemblyError
error message s = record { line = s.line; column = s.column; message = message }

-- The loop of `take_while`: the characters taken, those left, and the column after them.
unfoldable pub take_text : (ℕ → Bool) → String → ℕ → String × String × ℕ
take_text pred String.[] column = ("", "", column)
take_text pred (String.◌∷◌ c s) column =
    let (taken, left, last) = take_text pred s (next_column column) in
    if pred (code c) then (String.◌∷◌ c taken, left, last) else ("", String.◌∷◌ c s, column)

unfoldable pub take_while : (ℕ → Bool) → Scan → String × Scan
unfolding take_text
take_while pred s =
    let (taken, left, last) = take_text pred s.rest s.column in
    (taken, record s { rest = left; column = last })

-- `t.text.size() == 1` after a first character, `t.text.empty()`.
abbrev pub is_empty : String → Bool
is_empty String.[] = true
is_empty (String.◌∷◌ c s) = false

abbrev pub Lexed : Type 0
Lexed = Result (Token × Scan) AssemblyError

-- A directive, a guard's predicate or a special register: the word after its first character.
unfoldable pub word_token : TokenKind → Bool → String → String → Scan → Scan → Lexed
unfolding take_while is_ident_char
word_token kind negate first message at s =
    let (taken, after) = take_while is_ident_char s in
    if is_empty taken
    then fail (error message after)
    else ok (record (make kind (first +++ taken) at) { negate = negate }, after)

-- The optional fraction of a number.
unfoldable pub fraction : String → Scan → Bool × String × Scan
unfolding take_while is_digit advance
fraction text s =
    let (taken, after) = take_while is_digit (advance s) in
    if peek 0 s == b'.' && is_digit (peek 1 s)
    then (true, text +++ ("." +++ taken), after)
    else (false, text, s)

-- The optional sign of an exponent.
unfoldable pub exponent_sign : String → Scan → String × Scan
unfolding advance
exponent_sign text s =
    if peek 0 s == b'+'
    then (text +++ "+", advance s)
    else if peek 0 s == b'-'
    then (text +++ "-", advance s)
    else (text, s)

-- The optional exponent.
unfoldable pub exponent : Bool → String → Scan → Result (Bool × String × Scan) AssemblyError
unfolding take_while is_digit advance exponent_sign
exponent is_float text s =
    if peek 0 s == b'e' || peek 0 s == b'E'
    then (let (signed, at) = exponent_sign (text +++ "e") (advance s) in
        let (taken, after) = take_while is_digit at in
        if is_empty taken
        then fail (error "expected digits in exponent" after)
        else ok (true, signed +++ taken, after))
    else ok (is_float, text, s)

-- The last test of `number`, and its token.
unfoldable pub finish_number : Scan → Result (Bool × String × Scan) AssemblyError → Lexed
unfolding is_ident_char
finish_number at (fail e) = fail e
finish_number at (ok (is_float, text, s)) =
    if is_ident_char (peek 0 s)
    then fail (error "unexpected character in number" s)
    else ok (make (if is_float then float else integer) text at, s)

unfoldable pub decimal : Scan → Lexed
unfolding take_while is_digit fraction exponent finish_number
decimal s =
    let (digits, after) = take_while is_digit s in
    let (is_float, text, last) = fraction digits after in
    finish_number s (exponent is_float text last)

unfoldable pub hexadecimal : Scan → Lexed
unfolding take_while is_hex_digit advance
hexadecimal s =
    let (digits, after) = take_while is_hex_digit (advance (advance s)) in
    if is_empty digits
    then fail (error "expected hexadecimal digits after 0x" after)
    else ok (make integer ("0x" +++ digits) s, after)

-- `number`
unfoldable pub lex_number : Scan → Lexed
unfolding decimal hexadecimal
lex_number s =
    if peek 0 s == b'0' && (peek 1 s == b'x' || peek 1 s == b'X') then hexadecimal s else decimal s

-- The kind of a token of one character.
unfoldable pub punctuation : ℕ → Option TokenKind
punctuation c =
    if c == b','
    then some comma
    else if c == b'['
    then some lbracket
    else if c == b']'
    then some rbracket
    else if c == b'+'
    then some plus
    else if c == b'-'
    then some minus
    else if c == b':'
    then some colon
    else none

-- An identifier.
unfoldable pub word_identifier : Scan → Lexed
unfolding take_while is_ident_char
word_identifier s =
    let (taken, after) = take_while is_ident_char s in ok (make identifier taken s, after)

-- `next_token` for a character that is no punctuation.
unfoldable pub lex_word : Char → Scan → Lexed
unfolding advance
lex_word c s =
    if code c == b'.'
    then word_token directive false "." "expected a directive name after '.'" s (advance s)
    else if code c == b'@'
    then (let negated = peek 0 (advance s) == b'!' in
        word_token guard negated "" "expected a predicate register after '@'" s
          (if negated then advance (advance s) else advance s))
    else if code c == b'%'
    then word_token special false "%" "expected a special register name after '%'" s (advance s)
    else if is_ident_start (code c)
    then word_identifier s
    else if is_digit (code c)
    then lex_number s
    else fail (error ("unexpected character '" +++ (String.◌∷◌ c "" +++ "'")) s)

-- `next_token`, at a first character c.
unfoldable pub next_token : Char → Scan → Lexed
unfolding advance
next_token c s = elim (punctuation (code c)) [
  | some kind ↦ ok (make kind (String.◌∷◌ c "") s, advance s)
  | none ↦ lex_word c s
]

-- One round of the loop of `run`: a token, something skipped, or an error.
pub data Step : Type 0 where
  emitted : Token → Scan → Step
  skipped : Scan → Step
  failed : AssemblyError → Step

abbrev pub lexed_step : Lexed → Step
lexed_step (ok (t, s)) = emitted t s
lexed_step (fail e) = failed e

unfoldable pub scan_step : Char → Scan → Step
unfolding advance
scan_step c s =
    if code c == b'\n'
    then emitted (make newline "\n" s)
        (record { rest = tail_of s.rest; line = next_column s.line; column = 1 })
    else if code c == b' ' || code c == b'\t' || code c == b'\r'
    then skipped (advance s)
    else if code c == b'/' && peek 1 s == b'/'
    then skipped (take_while (λ d. not (d == b'\n')) s).1
    else lexed_step (next_token c s)

abbrev pub is_newline : Token → Bool
is_newline t = elim t.kind [ newline ↦ true | _ ↦ false ]

-- `!tokens.empty() && tokens.back().kind == TokenKind::Newline`
abbrev pub ends_in_newline : List Token → Bool
ends_in_newline [] = false
ends_in_newline (t ∷ []) = is_newline t
ends_in_newline (t ∷ (u ∷ ts)) = ends_in_newline (u ∷ ts)

-- What `run` returns at the end of the source.
unfoldable pub close : List Token → Scan → List Token
close tokens s =
    (if ends_in_newline tokens then tokens else tokens ++ (make newline "\n" s ∷ []))
    ++ (make end_of_source "" s ∷ [])

-- The loop of `run`.
unfoldable pub lex_from :
    ℕ → List Token → String → ℕ → ℕ → Option (Result (List Token) AssemblyError)
unfolding scan_step close
lex_from zero tokens rest line column = none
lex_from (suc fuel) tokens String.[] line column =
    some (ok (close tokens (record { rest = ""; line = line; column = column })))
lex_from (suc fuel) tokens (String.◌∷◌ c s) line column =
    elim (scan_step c (record { rest = String.◌∷◌ c s; line = line; column = column })) [
      | emitted t next ↦ lex_from fuel (tokens ++ (t ∷ [])) next.rest next.line next.column
      | skipped next ↦ lex_from fuel tokens next.rest next.line next.column
      | failed e ↦ some (fail e)
    ]

unfoldable pub text_length : String → ℕ
text_length String.[] = 0
text_length (String.◌∷◌ c s) = suc (text_length s)

-- `lex`
unfoldable pub lex : String → Option (Result (List Token) AssemblyError)
unfolding lex_from text_length
lex source = lex_from (text_length source + 1) [] source 1 1
