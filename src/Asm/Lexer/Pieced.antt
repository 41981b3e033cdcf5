-- ===== src/Asm/Lexer/Pieced.antt =====
-- The piece of the source that a token of src/asm/lexer.cpp is read from.
use Prim.Native.Char.{Char, code}
use Prim.Native.String.{◌++◌ as ◌+++◌}
use text.Mathlib.TextLemmas.{nil-append}
use mathlib.Core.List.{append_assoc}
use warp_sim.Base.{
  ℕ, suc, String, ◌==◌, ◌≡◌, inl, inr, refl, sym, ◌∙◌, ap, arith, if◌then◌else◌, Bool, true, false,
  List, [], ◌∷◌, ◌++◌, Bool-cases, Option-cases, some,
}
use warp_sim.Asm.Lexer.Words.{at_char}
use warp_sim.Asm.Lexer.{
  TokenKind, directive, guard, special, integer, float, Token, Scan, advance, make, take_while,
  is_digit, is_ident_start, is_ident_char, is_empty, word_token, punctuation, word_identifier,
  lex_word, next_token, peek,
}
use warp_sim.Asm.Lexer.Codes.{codes, Spells, codes-append, take_while-codes, advance-codes}
use warp_sim.Asm.Lexer.Numbers.{Took, lex_number-Took}

-- A word after a first mark: a directive or a special register.
marked_word-Took :
    (kind : TokenKind) (mark message : String) (k : ℕ) (here : Scan)
    → peek 0 here == suc k ≡ true
    → codes mark ≡ suc k ∷ []
    → ((p : List ℕ) (t : Token) → t.kind ≡ kind → p ≡ codes t.text → Spells t p)
    → Took here (word_token kind false mark message here (advance here))
unfolding word_token
marked_word-Took kind mark message k here first same spells =
    elim (Bool-cases (is_empty (take_while is_ident_char (advance here)).0)) [
      | inl e ↦ rw (word_token, e) tt
      | inr e ↦
          let taken : String = (take_while is_ident_char (advance here)).0 in
          rw (word_token, e)
            (
              suc k ∷ codes taken,
              advance-codes k here first
                  ∙ ap (λ l. suc k ∷ l) (take_while-codes is_ident_char (advance here)),
              spells (suc k ∷ codes taken) (make kind (mark +++ taken) here) refl
                  (sym (codes-append mark taken ∙ ap (λ l. l ++ codes taken) same)),
            )
    ]

guard_word-Took :
    (message : String) (here : Scan)
    → peek 0 here == b'@' ≡ true
    → Took here (
        word_token guard
          (peek 0 (advance here) == b'!')
          ""
          message
          here
          (if peek 0 (advance here) == b'!' then advance (advance here) else advance here))
unfolding word_token
guard_word-Took message here first = elim (Bool-cases (peek 0 (advance here) == b'!')) [
  | inl n ↦
      rw n
        (after true (advance (advance here)) (b'!' ∷ []) refl (advance-codes 32 (advance here) n))
  | inr n ↦ rw n (after false (advance here) [] refl refl)
]
  where
    after :
        (negated : Bool) (s : Scan) (bang : List ℕ)
        → bang ≡ (if negated then b'!' ∷ [] else [])
        → codes (advance here).rest ≡ bang ++ codes s.rest
        → Took here (word_token guard negated "" message here s)
    after negated s bang same e = elim (Bool-cases (is_empty (take_while is_ident_char s).0)) [
      | inl k ↦ rw (word_token, k) tt
      | inr k ↦
          let taken : String = (take_while is_ident_char s).0 in
          rw (word_token, k)
            (
              b'@' ∷ (bang ++ codes taken),
              advance-codes 63 here first
                  ∙ ap (λ l. b'@' ∷ l)
                      (e
                        ∙ (ap (λ l. bang ++ l) (take_while-codes is_ident_char s)
                            ∙ sym (append_assoc bang _ _))),
              ap (λ l. b'@' ∷ l)
                  (ap (λ b. b ++ codes taken) same
                    ∙ ap (λ u. (if negated then b'!' ∷ [] else []) ++ codes u)
                        (sym (nil-append taken))),
            )
    ]

directive-Spells : (p : List ℕ) (t : Token) → t.kind ≡ directive → p ≡ codes t.text → Spells t p
directive-Spells p t k h = rw k h

special-Spells : (p : List ℕ) (t : Token) → t.kind ≡ special → p ≡ codes t.text → Spells t p
special-Spells p t k h = rw k h

word_identifier-Took : (here : Scan) → Took here (word_identifier here)
unfolding word_identifier
word_identifier-Took here =
    (codes (take_while is_ident_char here).0, take_while-codes is_ident_char here, refl)

module _ (c : Char) (s : String) (line column : ℕ) where
  lex_word-Took : Took (at_char c s line column) (lex_word c (at_char c s line column))
  unfolding lex_word
  lex_word-Took =
      let here = at_char c s line column in
      elim (Bool-cases (code c == b'.')) [
        | inl e ↦
            rw (lex_word, e) (marked_word-Took directive "." _ 45 here e refl directive-Spells)
        | inr dot ↦ elim (Bool-cases (code c == b'@')) [
          | inl e ↦ rw (lex_word, dot, e) (guard_word-Took _ here e)
          | inr at ↦ elim (Bool-cases (code c == b'%')) [
            | inl e ↦
                rw (lex_word, dot, at, e)
                  (marked_word-Took special "%" _ 36 here e refl special-Spells)
            | inr percent ↦ elim (Bool-cases (is_ident_start (code c))) [
              | inl e ↦ rw (lex_word, dot, at, percent, e) (word_identifier-Took here)
              | inr start ↦ elim (Bool-cases (is_digit (code c))) [
                | inl e ↦
                    rw (lex_word, dot, at, percent, start, e) (lex_number-Took c s line column)
                | inr digit ↦ rw (lex_word, dot, at, percent, start, digit) tt
              ]
            ]
          ]
        ]
      ]

  punctuation-Spells :
      (kind : TokenKind)
      → punctuation (code c) ≡ some kind
      → Spells (make kind (String.◌∷◌ c "") (at_char c s line column)) (code c ∷ [])
  unfolding punctuation
  punctuation-Spells guard h = absurd (ground (arith, h))
  punctuation-Spells integer h = refl
  punctuation-Spells float h = refl
  punctuation-Spells _ h = refl

  pub next_token-Took : Took (at_char c s line column) (next_token c (at_char c s line column))
  unfolding next_token advance
  next_token-Took = elim (Option-cases (punctuation (code c))) [
    | inl none' ↦ rw (next_token, none') lex_word-Took
    | inr (kind, e) ↦ rw (next_token, e) (code c ∷ [], refl, punctuation-Spells kind e)
  ]
