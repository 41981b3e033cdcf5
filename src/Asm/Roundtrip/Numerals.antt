-- ===== src/Asm/Roundtrip/Numerals.antt =====
-- The numbers and the names of registers that src/asm/disassembler.cpp prints, as the lexer reads them.
use Prim.Native.Char.{Char, code}
use Prim.Native.String.{◌++◌ as ◌+++◌}
use text.Mathlib.TextLemmas.{nil-append, cons-append, append_assoc}
use warp_sim.Base.{
  ℕ, zero, suc, String, ◌/◌, ◌%◌, ◌<◌, ltb, ◌≡◌, inl, inr, refl, sym, arith, subst, Bool, true,
  false, [], ◌∷◌, Bool-cases, ltb→lt, ltb→lt,
}
use warp_sim.Asm.Lexer.{
  identifier, integer, is_digit, is_hex_digit, is_ident_char, is_ident_start, is_alpha, is_empty,
}
use warp_sim.Asm.Lexer.Words.{AllChars}
use warp_sim.Asm.Lexer.Pieces.{Stops, IsIdent, identifier-Reads}
use warp_sim.Asm.Lexer.Numerals.{decimal-Reads, hex-Reads}
use warp_sim.Asm.Printing.{digit_char, to_base, decimal_text, reg, pred, hex}
use warp_sim.Asm.Printing.Reading.{all_below-at, to_base-nonempty, prefixed}
use warp_sim.Asm.Roundtrip.Texts.{Boundary, one_char, Text}

AllChars-snoc :
    (test : ℕ → Bool) (s : String) (c : Char)
    → AllChars test s
    → test (code c) ≡ true
    → AllChars test (s +++ String.◌∷◌ c "")
AllChars-snoc test String.[] c all h = rw (nil-append (String.◌∷◌ c "")) (h, tt)
AllChars-snoc test (String.◌∷◌ d s) c (k, all) h =
    rw (cons-append d s (String.◌∷◌ c "")) (k, AllChars-snoc test s c all h)

pub AllChars-map :
    (test wider : ℕ → Bool) (s : String)
    → ((k : ℕ) → test k ≡ true → wider k ≡ true)
    → AllChars test s
    → AllChars wider s
AllChars-map test wider String.[] f all = tt
AllChars-map test wider (String.◌∷◌ c s) f (h, all) =
    (f (code c) h, AllChars-map test wider s f all)

-- The digits of a number pass a test that each digit of its base passes.
AllChars-to_base :
    (test : ℕ → Bool) (fuel base n : ℕ)
    → ((d : ℕ) → d < base → test (code (digit_char d)) ≡ true)
    → ((m : ℕ) → m % base < base)
    → AllChars test (to_base fuel base n)
unfolding to_base
AllChars-to_base test zero base n digit small = (digit (n % base) (small n), tt)
AllChars-to_base test (suc fuel) base n digit small = elim (Bool-cases (ltb n base)) [
  | inl e ↦ rw (to_base, e) (digit n (ltb→lt n base e), tt)
  | inr e ↦
      rw (to_base, e)
        (AllChars-snoc test (to_base fuel base (n / base)) (digit_char (n % base))
          (AllChars-to_base test fuel base (n / base) digit small) (digit (n % base) (small n)))
]

pub decimal-digits : (n : ℕ) → AllChars is_digit (decimal_text n)
unfolding decimal_text is_digit digit_char
decimal-digits n =
    AllChars-to_base is_digit 9 10 n
      (λ d lt. all_below-at 10 (λ x. is_digit (code (digit_char x))) d refl lt) (λ m. omega arith)

hex-digits : (n : ℕ) → AllChars is_hex_digit (to_base 7 16 n)
unfolding is_hex_digit is_digit digit_char
hex-digits n =
    AllChars-to_base is_hex_digit 7 16 n
      (λ d lt. all_below-at 16 (λ x. is_hex_digit (code (digit_char x))) d refl lt)
      (λ m. omega arith)

pub digit-ident : (k : ℕ) → is_digit k ≡ true → is_ident_char k ≡ true
unfolding is_ident_char is_digit
digit-ident k h = ground (arith, h)

hex_digit-ident : (k : ℕ) → is_hex_digit k ≡ true → is_ident_char k ≡ true
unfolding is_ident_char is_hex_digit is_digit is_alpha
hex_digit-ident k h = ground (arith, h)

Boundary-hex : (rest : String) → Boundary rest → Stops is_hex_digit rest
Boundary-hex String.[] h = tt
Boundary-hex (String.◌∷◌ c s) h = elim (Bool-cases (is_hex_digit (code c))) [
  | inl e ↦ absurd (cc (hex_digit-ident (code c) e, h))
  | inr e ↦ e
]

pub filled : (s : String) → is_empty s ≡ false → (c : Char) × (w : String) × (s ≡ String.◌∷◌ c w)
filled String.[] h = absurd (cc (h))
filled (String.◌∷◌ c w) h = (c, w, refl)

-- Digits in front of a boundary are an integer.
pub decimal-Text : (n : ℕ) → Text (decimal_text n) ((integer, decimal_text n, false) ∷ [])
unfolding decimal_text
decimal-Text n =
    let (c, w, e) = filled (to_base 9 10 n) (to_base-nonempty 9 10 n) in
    subst (λ (s : String). Text s ((integer, s, false) ∷ [])) (sym e)
      (record {
        reads = λ rest k. rw (cons-append c w rest) (
            decimal-Reads c w rest
              (subst (λ (s : String). AllChars is_digit s) e (decimal-digits n)) k);
      })

pub hex-Text : (n : ℕ) → Text (hex n) ((integer, hex n, false) ∷ [])
unfolding hex
hex-Text n =
    let (c, w, e) = filled (to_base 7 16 n) (to_base-nonempty 7 16 n) in
    subst (λ (s : String). Text ("0x" +++ s) ((integer, "0x" +++ s, false) ∷ [])) (sym e)
      (record {
        reads = λ rest k.
            rw (append_assoc "0x" (String.◌∷◌ c w) rest, prefixed (String.◌∷◌ c w +++ rest))
              (hex-Reads c w rest (subst (λ (s : String). AllChars is_hex_digit s) e (hex-digits n))
                (Boundary-hex rest k));
      })

-- A register's or a predicate's name.
name-Text :
    (c : Char) (n : ℕ)
    → is_ident_start (code c) ≡ true
    → is_ident_char (code c) ≡ true
    → Text
        (String.◌∷◌ c "" +++ decimal_text n)
        ((identifier, String.◌∷◌ c "" +++ decimal_text n, false) ∷ [])
name-Text c n first other = record {
  reads = λ rest k.
      identifier-Reads (String.◌∷◌ c "" +++ decimal_text n) rest
        (subst (λ (s : String). IsIdent s) (sym (one_char c (decimal_text n)))
          (
            first,
            (
              other,
              AllChars-map is_digit is_ident_char (decimal_text n) digit-ident (decimal-digits n),
            ),
          ))
        k;
}

pub reg-Text : (n : ℕ) → Text (reg n) ((identifier, reg n, false) ∷ [])
unfolding reg is_ident_start is_ident_char is_alpha
reg-Text n = name-Text "r" n refl refl

pub pred-Text : (n : ℕ) → Text (pred n) ((identifier, pred n, false) ∷ [])
unfolding pred is_ident_start is_ident_char is_alpha
pred-Text n = name-Text "p" n refl refl
