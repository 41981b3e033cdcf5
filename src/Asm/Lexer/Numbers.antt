-- ===== src/Asm/Lexer/Numbers.antt =====
-- The piece of the source that a number of src/asm/lexer.cpp is read from.
use Prim.Native.Char.{Char, code}
use Prim.Native.String.{◌++◌ as ◌+++◌}
use text.Mathlib.TextLemmas.{nil-append, append_assoc as text_append_assoc}
use mathlib.Core.List.{map}
use warp_sim.Base.{
  ℕ, String, ◌==◌, ◌≡◌, inl, inr, refl, sym, ◌∙◌, ap, arith, if◌then◌else◌, Bool, true, false, ◌&&◌,
  ◌||◌, List, ◌∷◌, ◌++◌, Bool-cases, Result, ok, fail, subst,
}
use warp_sim.Asm.Lexer.Words.{at_char}
use warp_sim.Asm.Lexer.{
  AssemblyError, integer, float, Scan, Lexed, advance, make, take_while, is_digit, is_hex_digit,
  is_ident_char, is_empty, fraction, exponent_sign, exponent, finish_number, decimal, hexadecimal,
  lex_number, peek, code_at,
}
use warp_sim.Asm.Lexer.Codes.{
  codes, lower, Spells, take_while-codes, advance-codes, lowered, Grows, lowered-append, Grows-refl,
  Grows-trans, Grows-one, Grows-while,
}

string_assoc : (a b c : String) → (a +++ b) +++ c ≡ a +++ (b +++ c)
string_assoc a b c = text_append_assoc a b c

fraction-Grows : (text : String) (s : Scan) → Grows text s (fraction text s).1 (fraction text s).2
unfolding fraction
fraction-Grows text s = elim (Bool-cases (peek 0 s == b'.' && is_digit (peek 1 s))) [
  | inl e ↦
      rw (fraction, e)
        (subst (λ u. Grows text s u (take_while is_digit (advance s)).1)
          (string_assoc text "." (take_while is_digit (advance s)).0)
          (Grows-trans text (text +++ ".") _ s (advance s) (take_while is_digit (advance s)).1
            (Grows-one text "." s 45 (ground (arith, e)) refl)
            (Grows-while (text +++ ".") is_digit (advance s))))
  | inr e ↦ rw (fraction, e) (Grows-refl text s)
]

exponent_sign-Grows :
    (text : String) (s : Scan) → Grows text s (exponent_sign text s).0 (exponent_sign text s).1
unfolding exponent_sign
exponent_sign-Grows text s = elim (Bool-cases (peek 0 s == b'+')) [
  | inl e ↦ rw (exponent_sign, e) (Grows-one text "+" s 42 e refl)
  | inr e ↦ elim (Bool-cases (peek 0 s == b'-')) [
    | inl f ↦ rw (exponent_sign, e, f) (Grows-one text "-" s 44 f refl)
    | inr f ↦ rw (exponent_sign, e, f) (Grows-refl text s)
  ]
]

exponent_mark-Grows :
    (text : String) (s : Scan)
    → (peek 0 s == b'e' || peek 0 s == b'E') ≡ true
    → Grows text s (text +++ "e") (advance s)
exponent_mark-Grows text s h = elim (Bool-cases (peek 0 s == b'e')) [
  | inl e ↦ Grows-one text "e" s 100 e refl
  | inr e ↦ Grows-one text "e" s 68 (ground (arith, h, e)) refl
]

abbrev GrowsResult : String → Scan → Result (Bool × String × Scan) AssemblyError → Type 0
GrowsResult text s (ok (f, t, after)) = Grows text s t after
GrowsResult text s (fail e) = Unit {0}

exponent-Grows :
    (f : Bool) (original text : String) (start s : Scan)
    → Grows original start text s
    → GrowsResult original start (exponent f text s)
unfolding exponent
exponent-Grows f original text start s g =
    elim (Bool-cases (peek 0 s == b'e' || peek 0 s == b'E')) [
      | inr e ↦ rw (exponent, e) g
      | inl e ↦
          let (signed, at) = exponent_sign (text +++ "e") (advance s) in
          elim (Bool-cases (is_empty (take_while is_digit at).0)) [
            | inl k ↦ rw (exponent, e, k) tt
            | inr k ↦
                rw (exponent, e, k)
                  (Grows-trans original text _ start s (take_while is_digit at).1 g (
                    Grows-trans text (text +++ "e") _ s (advance s) (take_while is_digit at).1
                      (exponent_mark-Grows text s e)
                      (Grows-trans (text +++ "e") signed _ (advance s) at (take_while is_digit at).1
                        (exponent_sign-Grows (text +++ "e") (advance s))
                        (Grows-while signed is_digit at))))
          ]
    ]

-- A token and the piece that it is read from.
abbrev pub Took : Scan → Lexed → Type 0
Took here (ok (t, s)) = (p : List ℕ) × (codes here.rest ≡ p ++ codes s.rest) × Spells t p
Took here (fail e) = Unit {0}

finish_number-Took :
    (here : Scan) (r : Result (Bool × String × Scan) AssemblyError)
    → GrowsResult "" here r
    → Took here (finish_number here r)
unfolding finish_number
finish_number-Took here (fail e) g = tt
finish_number-Took here (ok (f, t, s)) (p, e, same) = elim (Bool-cases (is_ident_char (peek 0 s))) [
  | inl k ↦ rw (finish_number, k) tt
  | inr k ↦ rw (finish_number, k) (p, e, spelled f (sym same))
]
  where
    spelled :
        (f : Bool) → map lower p ≡ lowered t → Spells (make (if f then float else integer) t here) p
    spelled true h = h
    spelled false h = h

decimal-Took : (here : Scan) → Took here (decimal here)
unfolding decimal
decimal-Took here =
    let (digits, after) = take_while is_digit here in
    let (f, t, last) = fraction digits after in
    let start : Grows "" here digits after =
      subst (λ u. Grows "" here u after) (nil-append digits) (Grows-while "" is_digit here) in
    finish_number-Took here (exponent f t last) (
      exponent-Grows f "" t here last
        (Grows-trans "" digits t here after last start (fraction-Grows digits after)))

hexadecimal-Took :
    (here : Scan)
    → peek 0 here == b'0' ≡ true
    → (peek 0 (advance here) == b'x' || peek 0 (advance here) == b'X') ≡ true
    → Took here (hexadecimal here)
unfolding hexadecimal
hexadecimal-Took here zero' x =
    let at = advance (advance here) in
    elim (Bool-cases (is_empty (take_while is_hex_digit at).0)) [
      | inl e ↦ rw (hexadecimal, e) tt
      | inr e ↦
          let digits : String = (take_while is_hex_digit at).0 in
          let two : (k : ℕ) × (lower k ≡ b'x') × (codes (advance here).rest ≡ k ∷ codes at.rest) =
            elim (Bool-cases (peek 0 (advance here) == b'x')) [
              | inl s ↦ (b'x', refl, advance-codes 119 (advance here) s)
              | inr s ↦ (b'X', refl, advance-codes 87 (advance here) (ground (arith, x, s)))
            ] in
          rw (hexadecimal, e)
            (
              b'0' ∷ (two.0 ∷ codes digits),
              advance-codes 47 here zero'
                  ∙ ap (λ l. b'0' ∷ l)
                      (two.2 ∙ ap (λ l. two.0 ∷ l) (take_while-codes is_hex_digit at)),
              (ap (λ k. b'0' ∷ (k ∷ lowered digits)) two.1 ∙ sym (lowered-append "0x" digits)),
            )
    ]

pub lex_number-Took :
    (c : Char) (s : String) (line column : ℕ)
    → Took (at_char c s line column) (lex_number (at_char c s line column))
unfolding lex_number advance
lex_number-Took c s line column =
    let here = at_char c s line column in
    elim (Bool-cases (code c == b'0' && (code_at 0 s == b'x' || code_at 0 s == b'X'))) [
      | inl e ↦ rw (lex_number, e) (hexadecimal-Took here (ground (arith, e)) (ground (arith, e)))
      | inr e ↦ rw (lex_number, e) (decimal-Took here)
    ]
