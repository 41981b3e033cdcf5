-- ===== src/Asm/Lexer/Decimals.antt =====
-- What a decimal number of src/asm/lexer.cpp looks like, with its fraction and its exponent.
use Prim.Native.String.{◌++◌ as ◌+++◌}
use warp_sim.Base.{
  ℕ, String, ◌+◌, ◌%◌, ◌^◌, ◌≤◌, ◌<◌, ◌==◌, ◌≡◌, ◌⊎◌, inl, inr, refl, arith, if◌then◌else◌, Bool,
  true, false, ◌&&◌, ◌||◌, Bool-cases, Result, ok, fail,
}
use warp_sim.Asm.Lexer.{
  AssemblyError, integer, float, Scan, advance, take_while, is_digit, is_ident_char, text_length,
  is_empty, fraction, exponent_sign, exponent, finish_number, peek, code_at,
}
use warp_sim.Asm.Lexer.Words.{
  IsWord, IsPointed, IsSigned, IsDecimal, TextFits, take_text-first, take_while-IsWord,
  take_while-le, advance-le, Good,
}

-- A part of a number: nothing is given back, and the text is that of a number.
abbrev Part : ℕ → Bool × String × Scan → Type 0
Part n (is_float, t, s) = (text_length s.rest ≤ n) × IsDecimal is_float t

-- A digit after the next character is taken.
fraction_digits :
    (rest : String) (line column : ℕ)
    → is_digit (code_at 1 rest) ≡ true
    → is_empty
        (take_while is_digit (advance (record { rest = rest; line = line; column = column }))).0
      ≡ false
unfolding take_while advance
fraction_digits String.[] line column h = absurd (no_digit h)
  where
    no_digit : is_digit 0 ≡ true → ⊥
    no_digit h = unfold is_digit in absurd (cc (h))
fraction_digits (String.◌∷◌ c String.[]) line column h = absurd (no_digit h)
  where
    no_digit : is_digit 0 ≡ true → ⊥
    no_digit h = unfold is_digit in absurd (cc (h))
fraction_digits (String.◌∷◌ c (String.◌∷◌ d s)) line column h =
    (take_text-first is_digit d s ((column + 1) % 2 ^ 32) h).0

pub fraction-Part :
    (text : String) (s : Scan) → IsWord is_digit text → Part (text_length s.rest) (fraction text s)
unfolding fraction
fraction-Part text s w = elim (Bool-cases (peek 0 s == b'.' && is_digit (peek 1 s))) [
  | inl e ↦
      let some' = fraction_digits s.rest s.line s.column (ground (arith, e)) in
      rw (fraction, e)
        (
          omega (arith, take_while-le is_digit (advance s), advance-le s),
          inl (
            text,
            (take_while is_digit (advance s)).0,
            refl,
            w,
            take_while-IsWord is_digit (advance s) some',
          ),
        )
  | inr e ↦ rw (fraction, e) (omega arith, w)
]

exponent_sign-le :
    (text : String) (s : Scan)
    → (text_length (exponent_sign text s).1.rest ≤ text_length s.rest)
      × IsSigned text (exponent_sign text s).0
unfolding exponent_sign
exponent_sign-le text s = elim (Bool-cases (peek 0 s == b'+')) [
  | inl e ↦ rw (exponent_sign, e) (advance-le s, inr (inl refl))
  | inr e ↦ elim (Bool-cases (peek 0 s == b'-')) [
    | inl f ↦ rw (exponent_sign, e, f) (advance-le s, inr (inr refl))
    | inr f ↦ rw (exponent_sign, e, f) (omega arith, inl refl)
  ]
]

abbrev pub PartResult : ℕ → Result (Bool × String × Scan) AssemblyError → Type 0
PartResult n (ok p) = Part n p
PartResult n (fail e) = Unit {0}

pub exponent-Part :
    (text : String) (n : ℕ) (is_float : Bool) (s : Scan)
    → Part n (is_float, text, s)
    → (is_float ≡ false) ⊎ IsPointed text
    → PartResult n (exponent is_float text s)
unfolding exponent
exponent-Part text n is_float s h pointed =
    elim (Bool-cases (peek 0 s == b'e' || peek 0 s == b'E')) [
      | inr e ↦ rw (exponent, e) h
      | inl e ↦
          let signed = exponent_sign (text +++ "e") (advance s) in
          elim (Bool-cases (is_empty (take_while is_digit signed.1).0)) [
            | inl f ↦ rw (exponent, e, f) tt
            | inr f ↦
                rw (exponent, e, f)
                  (
                    omega (
                      arith,
                      h.0,
                      advance-le s,
                      (exponent_sign-le (text +++ "e") (advance s)).0,
                      take_while-le is_digit signed.1,
                    ),
                    inr (
                      text,
                      signed.0,
                      (take_while is_digit signed.1).0,
                      refl,
                      mantissa is_float h.1 pointed,
                      (exponent_sign-le (text +++ "e") (advance s)).1,
                      take_while-IsWord is_digit signed.1 f,
                    ),
                  )
          ]
    ]
  where
    mantissa :
        (b : Bool)
        → IsDecimal b text
        → (b ≡ false) ⊎ IsPointed text
        → IsWord is_digit text ⊎ IsPointed text
    mantissa false d p = inl d
    mantissa true d (inl p) = absurd (cc (p))
    mantissa true d (inr p) = inr p

-- The fraction's text has no exponent.
pub fraction-IsPointed :
    (text : String) (s : Scan)
    → IsWord is_digit text
    → ((fraction text s).0 ≡ false) ⊎ IsPointed (fraction text s).1
unfolding fraction
fraction-IsPointed text s w = elim (Bool-cases (peek 0 s == b'.' && is_digit (peek 1 s))) [
  | inl e ↦
      let some' = fraction_digits s.rest s.line s.column (ground (arith, e)) in
      rw (fraction, e)
        (inr (
          text,
          (take_while is_digit (advance s)).0,
          refl,
          w,
          take_while-IsWord is_digit (advance s) some',
        ))
  | inr e ↦ rw (fraction, e) (inl refl)
]

pub finish_number-Good :
    (n m : ℕ) (at : Scan) (r : Result (Bool × String × Scan) AssemblyError)
    → m < n
    → PartResult m r
    → Good n (finish_number at r)
unfolding finish_number
finish_number-Good n m at (fail e) lt h = tt
finish_number-Good n m at (ok (is_float, t, s)) lt (le, text) =
    elim (Bool-cases (is_ident_char (peek 0 s))) [
      | inl e ↦ rw (finish_number, e) tt
      | inr e ↦ rw (finish_number, e) (fits is_float text, omega (arith, lt, le))
    ]
  where
    fits : (f : Bool) → IsDecimal f t → TextFits (if f then float else integer) t
    fits true k = k
    fits false k = inl k

pub Part-le : (n m : ℕ) (p : Bool × String × Scan) → m ≤ n → Part m p → Part n p
Part-le n m (f, t, s) le (h, k) = (omega (arith, h, le), k)
