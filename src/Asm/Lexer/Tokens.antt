-- ===== src/Asm/Lexer/Tokens.antt =====
-- Every token of `next_token` in src/asm/lexer.cpp is well formed and takes at least one character.
use Prim.Native.Char.{Char, code}
use text.Mathlib.TextLemmas.{nil-append}
use warp_sim.Base.{
  ℕ, suc, String, ◌≤◌, ◌<◌, ◌==◌, ◌≡◌, inl, inr, refl, sym, ◌∙◌, ap, arith, if◌then◌else◌, true,
  false, ◌&&◌, ◌||◌, some, Bool-cases, Option-cases, subst,
}
use warp_sim.Asm.Lexer.{
  TokenKind, identifier, directive, guard, special, integer, float, comma, lbracket, rbracket, plus,
  minus, colon, newline, end_of_source, Scan, advance, take_while, is_digit, is_hex_digit,
  is_ident_start, is_ident_char, text_length, is_empty, fraction, exponent, decimal, hexadecimal,
  lex_number, punctuation, lex_word, word_identifier, next_token, peek, code_at,
}
use warp_sim.Asm.Lexer.Words.{
  IsWord, TextFits, take_text-first, take_while-IsWord, take_while-le, tail_of-le, advance-le, Good,
  word_token-Good, at_char,
}
use warp_sim.Asm.Lexer.Decimals.{
  fraction-Part, PartResult, exponent-Part, finish_number-Good, Part-le, fraction-IsPointed,
}

module _ (c : Char) (s : String) (line column : ℕ) where
  decimal-Good :
      is_digit (code c) ≡ true → Good (suc (text_length s)) (decimal (at_char c s line column))
  unfolding decimal
  decimal-Good d =
      let here = at_char c s line column in
      let (some', first, shorter) = take_text-first is_digit c s column d in
      let digits = (take_while is_digit here).0 in
      let after = (take_while is_digit here).1 in
      let word = take_while-IsWord is_digit here (unfold take_while in some') in
      let (f, t, last) = fraction digits after in
      let part : PartResult (text_length s) (exponent f t last) =
        exponent-Part t (text_length s) f last
          (Part-le (text_length s) (text_length after.rest) (fraction digits after)
            (unfold take_while in shorter) (fraction-Part digits after word))
          (fraction-IsPointed digits after word) in
      finish_number-Good (suc (text_length s)) (text_length s) here (exponent f t last)
        (omega arith) part

  hexadecimal-Good : Good (suc (text_length s)) (hexadecimal (at_char c s line column))
  unfolding hexadecimal
  hexadecimal-Good =
      let here = at_char c s line column in
      let at = advance (advance here) in
      let shorter : text_length at.rest ≤ text_length s = unfold advance in tail_of-le s in
      elim (Bool-cases (is_empty (take_while is_hex_digit at).0)) [
        | inl e ↦ rw (hexadecimal, e) tt
        | inr e ↦
            rw (hexadecimal, e)
              (
                inr ((take_while is_hex_digit at).0, refl, take_while-IsWord is_hex_digit at e),
                omega (arith, shorter, take_while-le is_hex_digit at),
              )
      ]

  lex_number-Good :
      is_digit (code c) ≡ true → Good (suc (text_length s)) (lex_number (at_char c s line column))
  unfolding lex_number
  lex_number-Good d =
      elim (Bool-cases (code c == b'0' && (code_at 0 s == b'x' || code_at 0 s == b'X'))) [
        | inl e ↦ rw (lex_number, e) hexadecimal-Good
        | inr e ↦ rw (lex_number, e) (decimal-Good d)
      ]

  identifier-Good :
      is_ident_start (code c) ≡ true
      → Good (suc (text_length s)) (word_identifier (at_char c s line column))
  unfolding word_identifier
  identifier-Good d =
      let here = at_char c s line column in
      let (some', first, shorter) =
        take_text-first is_ident_char c s column (start_char (code c) d) in
      (
        (
          take_while-IsWord is_ident_char here (unfold take_while in some'),
          (unfold take_while in ap is_ident_start first ∙ d),
        ),
        unfold take_while in omega (arith, shorter),
      )
    where
      start_char : (k : ℕ) → is_ident_start k ≡ true → is_ident_char k ≡ true
      start_char k h = unfold is_ident_start is_ident_char in ground (arith, h)

  advanced-lt : text_length (advance (at_char c s line column)).rest < suc (text_length s)
  unfolding advance
  advanced-lt = omega arith

  after_at : Scan
  after_at =
      if peek 0 (advance (at_char c s line column)) == b'!'
      then advance (advance (at_char c s line column))
      else advance (at_char c s line column)

  after_at-lt : text_length after_at.rest < suc (text_length s)
  unfolding after_at
  after_at-lt = elim (Bool-cases (peek 0 (advance (at_char c s line column)) == b'!')) [
    | inl e ↦
        rw (after_at, e)
          (omega (arith, advance-le (advance (at_char c s line column)), advanced-lt))
    | inr e ↦ rw (after_at, e) advanced-lt
  ]

  lex_word-Good : Good (suc (text_length s)) (lex_word c (at_char c s line column))
  unfolding lex_word after_at
  lex_word-Good =
      let here = at_char c s line column in
      elim (Bool-cases (code c == b'.')) [
        | inl e ↦
            rw (lex_word, e)
              (word_token-Good _ directive false "." _ here (advance here) advanced-lt
                (λ w k. (w, refl, k)))
        | inr dot ↦ elim (Bool-cases (code c == b'@')) [
          | inl e ↦
              rw (lex_word, dot, e)
                (word_token-Good _ guard _ "" _ here after_at after_at-lt
                  (λ w k. subst (λ x. IsWord is_ident_char x) (sym (nil-append w)) k))
          | inr at ↦ elim (Bool-cases (code c == b'%')) [
            | inl e ↦
                rw (lex_word, dot, at, e)
                  (word_token-Good _ special false "%" _ here (advance here) advanced-lt
                    (λ w k. (w, refl, k)))
            | inr percent ↦ elim (Bool-cases (is_ident_start (code c))) [
              | inl e ↦ rw (lex_word, dot, at, percent, e) (identifier-Good e)
              | inr start ↦ elim (Bool-cases (is_digit (code c))) [
                | inl e ↦ rw (lex_word, dot, at, percent, start, e) (lex_number-Good e)
                | inr digit ↦ rw (lex_word, dot, at, percent, start, digit) tt
              ]
            ]
          ]
        ]
      ]

  punctuation-fits :
      (kind : TokenKind) → punctuation (code c) ≡ some kind → TextFits kind (String.◌∷◌ c "")
  unfolding punctuation text_length
  punctuation-fits identifier h = ground (arith, h)
  punctuation-fits directive h = ground (arith, h)
  punctuation-fits guard h = ground (arith, h)
  punctuation-fits special h = ground (arith, h)
  punctuation-fits integer h = ground (arith, h)
  punctuation-fits float h = absurd (ground (arith, h))
  punctuation-fits comma h = (ground (arith, h), refl)
  punctuation-fits lbracket h = (ground (arith, h), refl)
  punctuation-fits rbracket h = (ground (arith, h), refl)
  punctuation-fits plus h = (ground (arith, h), refl)
  punctuation-fits minus h = (ground (arith, h), refl)
  punctuation-fits colon h = (ground (arith, h), refl)
  punctuation-fits newline h = ground (arith, h)
  punctuation-fits end_of_source h = ground (arith, h)

  -- A token of `next_token` is well formed and has taken at least one character.
  pub next_token-Good : Good (suc (text_length s)) (next_token c (at_char c s line column))
  unfolding next_token
  next_token-Good = elim (Option-cases (punctuation (code c))) [
    | inl none' ↦ rw (next_token, none') lex_word-Good
    | inr (kind, e) ↦ rw (next_token, e) (punctuation-fits kind e, advanced-lt)
  ]
