-- ===== src/Asm/Lexer/Numerals.antt =====
-- The integers of src/asm/lexer.cpp in front of a text that does not continue them.
use Prim.Native.Char.{Char, code}
use Prim.Native.String.{◌++◌ as ◌+++◌}
use text.Mathlib.TextLemmas.{nil-append, cons-append}
use warp_sim.Base.{
  ℕ, Bool-cases, inl, inr, String, ◌==◌, ◌≡◌, refl, ◌∙◌, ap, arith, false, ◌||◌, [], ◌∷◌, ok,
}
use warp_sim.Asm.Lexer.{
  integer, Scan, scan_step, take_text, take_while, lexed_step, lex_number, lex_word, next_token,
  punctuation, is_ident_start, is_ident_char, is_digit, make, is_alpha, decimal, hexadecimal,
  fraction, exponent, finish_number, next_column, advance, code_at, peek, is_hex_digit,
}
use warp_sim.Asm.Lexer.Words.{AllChars}
use warp_sim.Asm.Lexer.Scanning.{at_text}
use warp_sim.Asm.Lexer.Pieces.{one_token, Stops, take_text-word, digit_step, take_text-cons, Reads}

-- What may follow a number.
abbrev EndsNumber : String → Type 0
EndsNumber String.[] = Unit {0}
EndsNumber (String.◌∷◌ c s) = is_ident_char (code c) ≡ false

EndsNumber-digit : (rest : String) → EndsNumber rest → Stops is_digit rest
unfolding is_ident_char is_digit
EndsNumber-digit String.[] h = tt
EndsNumber-digit (String.◌∷◌ c s) h = ground (arith, h)

-- No character that goes on with a number.
EndsNumber-code :
    (rest : String)
    → EndsNumber rest
    → ((code_at 0 rest == b'.') ≡ false)
      × ((code_at 0 rest == b'e' || code_at 0 rest == b'E') ≡ false)
      × ((code_at 0 rest == b'x' || code_at 0 rest == b'X') ≡ false)
      × (is_ident_char (code_at 0 rest) ≡ false)
unfolding is_ident_char is_alpha is_digit
EndsNumber-code String.[] h = (refl, refl, refl, refl)
EndsNumber-code (String.◌∷◌ c s) h = (ground (arith, h), ground (arith, h), ground (arith, h), h)

no_fraction :
    (text : String) (s : Scan) → (peek 0 s == b'.') ≡ false → fraction text s ≡ (false, text, s)
unfolding fraction
no_fraction text s e = rw (fraction, e) refl

no_exponent :
    (text : String) (s : Scan)
    → (peek 0 s == b'e' || peek 0 s == b'E') ≡ false
    → exponent false text s ≡ ok (false, text, s)
unfolding exponent
no_exponent text s e = rw (exponent, e) refl

plain_number :
    (at : Scan) (text : String) (s : Scan)
    → is_ident_char (peek 0 s) ≡ false
    → finish_number at (ok (false, text, s)) ≡ ok (make integer text at, s)
unfolding finish_number
plain_number at text s e = rw (finish_number, e) refl

decimal-eq :
    (s : Scan) (digits rest : String) (last : ℕ)
    → take_text is_digit s.rest s.column ≡ (digits, rest, last)
    → EndsNumber rest
    → decimal s ≡ ok (make integer digits s, record s { rest = rest; column = last })
unfolding decimal take_while
decimal-eq s digits rest last e ends =
    let (dot, exp, x, ident) = EndsNumber-code rest ends in
    let end : Scan = record s { rest = rest; column = last } in
    rw (e, no_fraction digits end dot, no_exponent digits end exp, plain_number s digits end ident)
      refl

-- No base is announced by a digit and a character that is no `x`.
lex_number-decimal :
    (s : Scan) → (peek 1 s == b'x' || peek 1 s == b'X') ≡ false → lex_number s ≡ decimal s
unfolding lex_number
lex_number-decimal s e = elim (Bool-cases (peek 0 s == b'0')) [
  | inl f ↦ rw (lex_number, f, e) refl
  | inr f ↦ rw (lex_number, f) refl
]

second_code :
    (c : Char) (w rest : String)
    → AllChars is_digit w
    → EndsNumber rest
    → (code_at 1 (String.◌∷◌ c (w +++ rest)) == b'x'
        || code_at 1 (String.◌∷◌ c (w +++ rest)) == b'X')
      ≡ false
unfolding is_digit
second_code c String.[] rest all ends = rw (nil-append rest) (EndsNumber-code rest ends).2
second_code c (String.◌∷◌ d w) rest (h, hs) ends = rw (cons-append d w rest) (ground (arith, h))

pub decimal-Reads :
    (c : Char) (w rest : String)
    → AllChars is_digit (String.◌∷◌ c w)
    → EndsNumber rest
    → Reads (String.◌∷◌ c (w +++ rest)) ((integer, String.◌∷◌ c w, false) ∷ []) rest
decimal-Reads c w rest (h, all) ends = one_token c (w +++ rest) rest _ λ line column.
    let s = at_text (String.◌∷◌ c (w +++ rest)) line column in
    let (last, e) = take_text-cons is_digit c w rest column (h, all) (EndsNumber-digit rest ends) in
    (
      make integer (String.◌∷◌ c w) s,
      at_text rest line last,
      digit_step c s h
          ∙ ap lexed_step (
              lex_number-decimal s (second_code c w rest all ends)
              ∙ decimal-eq s (String.◌∷◌ c w) rest last e ends),
      refl,
      (refl, refl, refl),
    )

pub hex-Reads :
    (c : Char) (w rest : String)
    → AllChars is_hex_digit (String.◌∷◌ c w)
    → Stops is_hex_digit rest
    → Reads
        (String.◌∷◌ "0" (String.◌∷◌ "x" (String.◌∷◌ c w +++ rest)))
        ((integer, "0x" +++ String.◌∷◌ c w, false) ∷ [])
        rest
unfolding scan_step next_token punctuation lex_word lex_number hexadecimal take_while advance
    is_digit is_ident_start is_alpha
hex-Reads c w rest all stops =
    one_token "0" (String.◌∷◌ "x" (String.◌∷◌ c w +++ rest)) rest _ λ line column.
      let (last, e) =
        take_text-word is_hex_digit (String.◌∷◌ c w) rest (next_column (next_column column)) all
          stops in
      (
        make integer ("0x" +++ String.◌∷◌ c w)
            (at_text (String.◌∷◌ "0" (String.◌∷◌ "x" (String.◌∷◌ c w +++ rest))) line column),
        at_text rest line last,
        rw e refl,
        refl,
        (refl, refl, refl),
      )
