-- ===== src/Asm/Printing/Reading.antt =====
-- Reading what the disassembler prints: numbers and registers of src/asm/disassembler.cpp
-- through `parse_number`, `register_index` and `integer_literal` of src/asm/assembler.cpp.
use Prim.Native.Char.{code}
use Prim.Native.String.{◌++◌ as ◌+++◌}
use native.Mathlib.Nat.{pow-suc}
use text.Mathlib.TextLemmas.{nil-append, cons-append}
use warp_sim.Base.{
  lt→ltb, ℕ, zero, suc, String, ◌+◌, ◌-◌, ◌*◌, ◌/◌, ◌%◌, ◌^◌, ◌<◌, ltb, ◌==◌, ==_iff, ◌≡◌, ◌⊎◌, inl,
  inr, refl, sym, ◌∙◌, ap, arith, subst, Bool, true, false, ◌&&◌, Option, none, some, Bool-cases,
  if◌then◌else◌,
}
use warp_sim.Asm.Lexer.{is_empty, code_at}
use warp_sim.Asm.Numbers.{
  digit_value, parse_digits, parse_number, register_index, predicate_name, integer_value,
}
use warp_sim.Asm.Printing.{digit_char, to_base, decimal_text, reg, pred, hex}

-- A test of all numbers below n.
abbrev pub all_below : ℕ → (ℕ → Bool) → Bool
all_below zero p = true
all_below (suc n) p = p n && all_below n p

pub all_below-at : (n : ℕ) (p : ℕ → Bool) (k : ℕ) → all_below n p ≡ true → k < n → p k ≡ true
all_below-at zero p k h lt = absurd (omega (arith, lt))
all_below-at (suc n) p k h lt = elim (Bool-cases (k == n)) [
  | inl e ↦ subst (λ (x : ℕ). p x ≡ true) (sym ((==_iff k n).0 e)) (ground (arith, h))
  | inr e ↦ all_below-at n p k (ground (arith, h)) (ground (arith, e, lt))
]

abbrev is_some : ℕ → Option ℕ → Bool
is_some k none = false
is_some k (some x) = x == k

is_some-eq : (k : ℕ) (o : Option ℕ) → is_some k o ≡ true → o ≡ some k
is_some-eq k none h = ground (arith, h)
is_some-eq k (some x) h = ap some ((==_iff x k).0 h)

abbrev is_none : Option ℕ → Bool
is_none none = true
is_none (some x) = false

is_none-eq : (o : Option ℕ) → is_none o ≡ true → o ≡ none
is_none-eq none h = refl
is_none-eq (some x) h = absurd (cc (h))

-- The two bases that are printed.
IsBase : ℕ → Type 0
IsBase base = (base ≡ 10) ⊎ (base ≡ 16)

digit_value-digit_char :
    (base d : ℕ) → IsBase base → d < base → digit_value base (code (digit_char d)) ≡ some d
unfolding IsBase digit_value digit_char
digit_value-digit_char base d (inl e) lt = is_some-eq d (digit_value base (code (digit_char d))) (
    rw e (
      all_below-at 10 (λ x. is_some x (digit_value 10 (code (digit_char x)))) d refl
        (omega (arith, e, lt))))
digit_value-digit_char base d (inr e) lt = is_some-eq d (digit_value base (code (digit_char d))) (
    rw e (
      all_below-at 16 (λ x. is_some x (digit_value 16 (code (digit_char x)))) d refl
        (omega (arith, e, lt))))

parse_digits-append :
    (base v x d : ℕ) (s : String)
    → IsBase base
    → d < base
    → parse_digits base v s ≡ some x
    → parse_digits base v (s +++ String.◌∷◌ (digit_char d) "") ≡ some (x * base + d)
unfolding parse_digits
parse_digits-append base v x d String.[] b lt h =
    let same : v ≡ x = cc (h) in
    rw
      (
        nil-append (String.◌∷◌ (digit_char d) ""),
        parse_digits,
        digit_value-digit_char base d b lt,
        same,
      )
      refl
parse_digits-append base v x d (String.◌∷◌ c s) b lt h =
    rw (cons-append c s (String.◌∷◌ (digit_char d) ""))
      (after (digit_value base (code c)) h (λ y k. parse_digits-append base y x d s b lt k))
  where
    after :
        (o : Option ℕ)
        → (elim o as (λ _. Option ℕ) [ none ↦ none | some y ↦ parse_digits base (v * base + y) s ])
          ≡ some x
        → ((y : ℕ)
            → parse_digits base y s ≡ some x
            → parse_digits base y (s +++ String.◌∷◌ (digit_char d) "") ≡ some (x * base + d))
        → (elim o as (λ _. Option ℕ) [
          | none ↦ none
          | some y ↦ parse_digits base (v * base + y) (s +++ String.◌∷◌ (digit_char d) "")
        ])
          ≡ some (x * base + d)
    after none k later = ground (arith, k)
    after (some y) k later = later (v * base + y) k

one_digit :
    (base n : ℕ)
    → IsBase base
    → n < base
    → parse_digits base 0 (String.◌∷◌ (digit_char n) "") ≡ some n
unfolding parse_digits
one_digit base n b lt =
    rw (parse_digits, digit_value-digit_char base n b lt) (ap some (omega arith))

base_once : (base : ℕ) → IsBase base → base ^ 1 ≡ base
unfolding IsBase
base_once base (inl e) = rw e refl
base_once base (inr e) = rw e refl

mod_small : (base n : ℕ) → IsBase base → n < base → n % base ≡ n
unfolding IsBase
mod_small base n (inl e) = subst (λ (b : ℕ). n < b → n % b ≡ n) (sym e) (λ lt. omega (arith, lt))
mod_small base n (inr e) = subst (λ (b : ℕ). n < b → n % b ≡ n) (sym e) (λ lt. omega (arith, lt))

-- What a division by a base leaves.
Divided : ℕ → ℕ → ℕ → Type 0
Divided n p base = (n % base < base) × (n / base < p) × (n / base * base + n % base ≡ n)

divide : (base n p : ℕ) → IsBase base → n < base * p → Divided n p base
unfolding IsBase Divided
divide base n p (inl e) =
    subst (λ (b : ℕ). n < b * p → Divided n p b) (sym e) (λ lt. omega (arith, lt))
divide base n p (inr e) =
    subst (λ (b : ℕ). n < b * p → Divided n p b) (sym e) (λ lt. omega (arith, lt))

-- The digits of a number read back as the number.
parse_digits-to_base :
    (fuel base n : ℕ)
    → IsBase base
    → n < base ^ suc fuel
    → parse_digits base 0 (to_base fuel base n) ≡ some n
unfolding to_base Divided
parse_digits-to_base zero base n b lt =
    let less : n < base = omega (arith, lt, base_once base b) in
    rw (mod_small base n b less) (one_digit base n b less)
parse_digits-to_base (suc fuel) base n b lt = elim (Bool-cases (ltb n base)) [
  | inl e ↦ rw (to_base, e) (one_digit base n b (ground (arith, e)))
  | inr e ↦
      rw (to_base, e)
        (parse_digits-append base 0 (n / base) (n % base) (to_base fuel base (n / base)) b
            (divide base n (base ^ suc fuel) b (omega (arith, lt, pow-suc base (suc fuel)))).0
            (parse_digits-to_base fuel base (n / base) b
              ((divide base n (base ^ suc fuel) b (omega (arith, lt, pow-suc base (suc fuel)))).1))
          ∙ ap some
              (divide base n (base ^ suc fuel) b (omega (arith, lt, pow-suc base (suc fuel)))).2)
]

pub to_base-nonempty : (fuel base n : ℕ) → is_empty (to_base fuel base n) ≡ false
unfolding to_base
to_base-nonempty zero base n = refl
to_base-nonempty (suc fuel) base n = elim (Bool-cases (ltb n base)) [
  | inl e ↦ rw (to_base, e) refl
  | inr e ↦
      rw (to_base, e) (grown (to_base fuel base (n / base)) (to_base-nonempty fuel base (n / base)))
]
  where
    grown :
        (s : String)
        → is_empty s ≡ false
        → is_empty (s +++ String.◌∷◌ (digit_char (n % base)) "") ≡ false
    grown String.[] h = ground (arith, h)
    grown (String.◌∷◌ c s) h = rw (cons-append c s (String.◌∷◌ (digit_char (n % base)) "")) refl

parse_number-to_base :
    (bits fuel base n : ℕ)
    → IsBase base
    → n < base ^ suc fuel
    → n < 2 ^ bits
    → parse_number bits base (to_base fuel base n) ≡ some n
unfolding parse_number
parse_number-to_base bits fuel base n b lt fits =
    rw
      (
        parse_number,
        to_base-nonempty fuel base n,
        parse_digits-to_base fuel base n b lt,
        lt→ltb n (2 ^ bits) fits,
      )
      refl

-- Digits of base 10 are no hexadecimal literal.
plain_digits :
    (v n : ℕ) (s : String)
    → parse_digits 10 v s ≡ some n
    → (code_at 0 s == b'0' && code_at 1 s == b'x') ≡ false
unfolding parse_digits digit_value
plain_digits v n String.[] h = refl
plain_digits v n (String.◌∷◌ c String.[]) h = ground arith
plain_digits v n (String.◌∷◌ c (String.◌∷◌ d s)) h = elim (Bool-cases (code d == b'x')) [
  | inr e ↦ rw e (ground arith)
  | inl e ↦
      let same : code d ≡ b'x' = (==_iff (code d) b'x').0 e in
      let odd : digit_value 10 (code d) ≡ none = rw same refl in
      absurd (after (digit_value 10 (code c)) (digit_value 10 (code d)) odd h)
]
  where
    after :
        (o p : Option ℕ)
        → p ≡ none
        → (elim o as (λ _. Option ℕ) [
          | none ↦ none
          | some x ↦ elim p as (λ _. Option ℕ) [
            | none ↦ none
            | some y ↦ parse_digits 10 ((v * 10 + x) * 10 + y) s
          ]
        ])
          ≡ some n
        → ⊥
    after none p e k = ground (arith, k)
    after (some x) none e k = ground (arith, k)
    after (some x) (some y) e k = ground (arith, e)

pub prefixed : (t : String) → "0x" +++ t ≡ String.◌∷◌ "0" (String.◌∷◌ "x" t)
prefixed t =
    cons-append "0" "x" t
    ∙ ap (λ u. String.◌∷◌ "0" u) (cons-append "x" "" t ∙ ap (λ u. String.◌∷◌ "x" u) (nil-append t))

kept : (n : ℕ) → n < 2 ^ 32 → (if ltb (2 ^ 32 - 1) n then none else some (n % 2 ^ 32)) ≡ some n
kept n lt = ground (arith, lt)

-- The assembler reads back every number that the disassembler prints: a decimal or a hexadecimal text
-- of a 32-bit value is an integer literal of that value.
pub integer_value-text :
    (n : ℕ)
    → n < 2 ^ 32
    → (integer_value (decimal_text n) ≡ some n) × (integer_value (hex n) ≡ some n)
unfolding integer_value decimal_text hex IsBase
integer_value-text n lt = (
  rw
      (
        integer_value,
        plain_digits 0 n (decimal_text n)
            (parse_digits-to_base 9 10 n (inl refl) (omega (arith, lt))),
        parse_number-to_base 64 9 10 n (inl refl) (omega (arith, lt)) (omega (arith, lt)),
      )
      (kept n lt),
  rw
      (
        hex,
        prefixed (to_base 7 16 n),
        integer_value,
        parse_number-to_base 64 7 16 n (inr refl) (omega (arith, lt)) (omega (arith, lt)),
      )
      (kept n lt),
)

-- The assembler reads back the name of every general register and of every predicate that the
-- disassembler prints, the name of a general register is not read as a predicate's, and that of a
-- predicate is not read as a general register's.
pub register_index-reg :
    (k p : ℕ)
    → k < 64
    → p < 8
    → (register_index (reg k) b'r' 64 ≡ some k)
      × (predicate_name (pred p) ≡ some p)
      × (predicate_name (reg k) ≡ none)
      × (register_index (pred p) b'r' 64 ≡ none)
unfolding register_index predicate_name reg pred decimal_text to_base digit_char parse_number
    parse_digits digit_value
register_index-reg k p lt small = (
  is_some-eq k (register_index (reg k) b'r' 64)
      (all_below-at 64 (λ x. is_some x (register_index (reg x) b'r' 64)) k refl lt),
  is_some-eq p (predicate_name (pred p))
      (all_below-at 8 (λ x. is_some x (predicate_name (pred x))) p refl small),
  is_none-eq (predicate_name (reg k))
      (all_below-at 64 (λ x. is_none (predicate_name (reg x))) k refl lt),
  is_none-eq (register_index (pred p) b'r' 64)
      (all_below-at 8 (λ x. is_none (register_index (pred x) b'r' 64)) p refl small),
)
