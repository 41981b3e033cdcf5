-- ===== src/Asm/Lexer/Words.antt =====
-- What the tokens of src/asm/lexer.cpp look like, and that each takes at least one character.
use Prim.Native.Char.{Char, code}
use Prim.Native.String.{◌++◌ as ◌+++◌}
use warp_sim.Base.{
  ℕ, String, ◌≤◌, ◌<◌, ◌≡◌, ◌⊎◌, inl, inr, refl, arith, Bool, true, false, Bool-cases, ok, fail,
}
use warp_sim.Asm.Lexer.{
  TokenKind, identifier, directive, guard, special, integer, float, comma, lbracket, rbracket, plus,
  minus, colon, newline, end_of_source, Token, Scan, Lexed, tail_of, advance, take_text, take_while,
  is_digit, is_hex_digit, is_ident_start, is_ident_char, text_length, is_empty, word_token, code_at,
}

-- Every character passes the test.
abbrev pub AllChars : (ℕ → Bool) → String → Type 0
AllChars pred String.[] = Unit {0}
AllChars pred (String.◌∷◌ c s) = (pred (code c) ≡ true) × AllChars pred s

-- A word of characters that pass the test.
abbrev pub IsWord : (ℕ → Bool) → String → Type 0
IsWord pred s = (is_empty s ≡ false) × AllChars pred s

abbrev first_code : String → ℕ
first_code s = code_at 0 s

-- A text of one character.
abbrev IsChar : ℕ → String → Type 0
IsChar k s = (first_code s ≡ k) × (text_length s ≡ 1)

-- Digits, a point and digits.
abbrev pub IsPointed : String → Type 0
IsPointed s =
    (d : String) × (w : String) × (s ≡ d +++ ("." +++ w)) × IsWord is_digit d × IsWord is_digit w

-- A text with an optional sign behind it.
abbrev pub IsSigned : String → String → Type 0
IsSigned text s = (s ≡ text) ⊎ ((s ≡ text +++ "+") ⊎ (s ≡ text +++ "-"))

-- Digits, or digits with a fraction, and behind them `e`, an optional sign and digits.
abbrev IsScaled : String → Type 0
IsScaled s =
    (m : String) × (x : String) × (w : String) × (s ≡ x +++ w)
    × (IsWord is_digit m ⊎ IsPointed m)
    × IsSigned (m +++ "e") x
    × IsWord is_digit w

-- The text of a decimal number, with a point or an exponent or without.
abbrev pub IsDecimal : Bool → String → Type 0
IsDecimal false s = IsWord is_digit s
IsDecimal true s = IsPointed s ⊎ IsScaled s

-- The text that a token of each kind has; the end of the source is no token of a character.
abbrev pub TextFits : TokenKind → String → Type 0
TextFits identifier s = IsWord is_ident_char s × (is_ident_start (first_code s) ≡ true)
TextFits directive s = (w : String) × (s ≡ "." +++ w) × IsWord is_ident_char w
TextFits guard s = IsWord is_ident_char s
TextFits special s = (w : String) × (s ≡ "%" +++ w) × IsWord is_ident_char w
TextFits integer s = IsWord is_digit s ⊎ ((w : String) × (s ≡ "0x" +++ w) × IsWord is_hex_digit w)
TextFits float s = IsDecimal true s
TextFits comma s = IsChar b',' s
TextFits lbracket s = IsChar b'[' s
TextFits rbracket s = IsChar b']' s
TextFits plus s = IsChar b'+' s
TextFits minus s = IsChar b'-' s
TextFits colon s = IsChar b':' s
TextFits newline s = s ≡ "\n"
TextFits end_of_source s = ⊥

abbrev pub WellFormed : Token → Type 0
WellFormed t = TextFits t.kind t.text

take_text-AllChars :
    (pred : ℕ → Bool) (s : String) (column : ℕ) → AllChars pred (take_text pred s column).0
unfolding take_text
take_text-AllChars pred String.[] column = tt
take_text-AllChars pred (String.◌∷◌ c s) column = elim (Bool-cases (pred (code c))) [
  | inl e ↦ rw (take_text, e) (e, take_text-AllChars pred s _)
  | inr e ↦ rw (take_text, e) tt
]

take_text-le :
    (pred : ℕ → Bool) (s : String) (column : ℕ)
    → text_length (take_text pred s column).1 ≤ text_length s
unfolding take_text text_length
take_text-le pred String.[] column = omega arith
take_text-le pred (String.◌∷◌ c s) column = elim (Bool-cases (pred (code c))) [
  | inl e ↦ rw (take_text, e) (omega (arith, take_text-le pred s _))
  | inr e ↦ rw (take_text, e) (omega arith)
]

-- A first character that passes is taken.
pub take_text-first :
    (pred : ℕ → Bool) (c : Char) (s : String) (column : ℕ)
    → pred (code c) ≡ true
    → (is_empty (take_text pred (String.◌∷◌ c s) column).0 ≡ false)
      × (first_code (take_text pred (String.◌∷◌ c s) column).0 ≡ code c)
      × (text_length (take_text pred (String.◌∷◌ c s) column).1 ≤ text_length s)
unfolding take_text
take_text-first pred c s column e = rw (take_text, e) (refl, refl, take_text-le pred s _)

pub take_while-IsWord :
    (pred : ℕ → Bool) (s : Scan)
    → is_empty (take_while pred s).0 ≡ false
    → IsWord pred (take_while pred s).0
unfolding take_while
take_while-IsWord pred s e = (e, take_text-AllChars pred s.rest s.column)

pub take_while-le :
    (pred : ℕ → Bool) (s : Scan) → text_length (take_while pred s).1.rest ≤ text_length s.rest
unfolding take_while
take_while-le pred s = take_text-le pred s.rest s.column

pub tail_of-le : (s : String) → text_length (tail_of s) ≤ text_length s
unfolding text_length
tail_of-le String.[] = omega arith
tail_of-le (String.◌∷◌ c s) = omega arith

pub advance-le : (s : Scan) → text_length (advance s).rest ≤ text_length s.rest
unfolding advance
advance-le s = tail_of-le s.rest

-- A token that is well formed, and less than n characters left.
abbrev pub Good : ℕ → Lexed → Type 0
Good n (ok (t, s)) = WellFormed t × (text_length s.rest < n)
Good n (fail e) = Unit {0}

pub word_token-Good :
    (n : ℕ) (kind : TokenKind) (negate : Bool) (first message : String) (at s : Scan)
    → text_length s.rest < n
    → ((w : String) → IsWord is_ident_char w → TextFits kind (first +++ w))
    → Good n (word_token kind negate first message at s)
word_token-Good n kind negate first message at s lt fits =
    elim (Bool-cases (is_empty (take_while is_ident_char s).0)) [
      | inl e ↦ unfold word_token in rw (word_token, e) tt
      | inr e ↦
          unfold word_token in
          rw (word_token, e)
            (
              fits (take_while is_ident_char s).0 (take_while-IsWord is_ident_char s e),
              omega (arith, lt, take_while-le is_ident_char s),
            )
    ]

-- At a first character, with the text after it.
abbrev pub at_char : Char → String → ℕ → ℕ → Scan
at_char c s line column = record { rest = String.◌∷◌ c s; line = line; column = column }
