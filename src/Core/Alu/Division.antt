-- ===== src/Core/Alu/Division.antt =====
-- `s32_div` and `s32_rem` of src/core/alu.cpp against the division identity.
use native.Mathlib.Nat.{div-add-mod', div-le_self}
use warp_sim.Base.{
  ℕ, zero, suc, ◌+◌, ◌-◌, ◌*◌, ◌/◌, ◌%◌, ◌^◌, ◌<◌, ◌≤◌, ◌≡◌, ◌≢◌, ◌⊎◌, inl, inr, refl, ap, arith,
  true, false, Bool-cases, ◌&&◌, subst, ◌∙◌,
}
use warp_sim.Core.Signed.{ℤ, pos, negsuc, as_s32, from_s32, negate, tdiv, tmod, eq_ℤ, int_min}
use warp_sim.Core.Alu.{wrap_add, wrap_mul, s32_div, s32_rem}
use warp_sim.Core.Alu.Words.{InS32, as_s32-InS32, from_s32-as_s32}

-- The word w stands for -m.
abbrev Negates : ℕ → ℕ → Type 0
Negates w m = ((w ≡ 0) × (m ≡ 0)) ⊎ (w + m ≡ 2 ^ 32)

from_s32-negate : (m : ℕ) → m ≤ 2 ^ 31 → Negates (from_s32 (negate m)) m
unfolding from_s32
from_s32-negate zero h = inl (refl, refl)
from_s32-negate (suc m) h = inr (omega arith)

-- (-q) * (-k) = q * k on words.
negated_product : (q k a b : ℕ) → Negates a q → k + b ≡ 2 ^ 32 → a * b % 2 ^ 32 ≡ q * k % 2 ^ 32
negated_product q k a b (inl (e, z)) f =
    omega (arith, ap (λ (t : ℕ). t * b) e, ap (λ (t : ℕ). t * k) z)
negated_product q k a b (inr e) f = omega (arith, ap (λ (t : ℕ). t * b) e, ap (λ (t : ℕ). q * t) f)

-- (-q) * n = -(q * n) on words, and q * (-k) = -(q * k).
negated_left : (q n a : ℕ) → Negates a q → (a * n + q * n) % 2 ^ 32 ≡ 0
negated_left q n a (inl (e, z)) = omega (arith, ap (λ (t : ℕ). t * n) e, ap (λ (t : ℕ). t * n) z)
negated_left q n a (inr e) = omega (arith, ap (λ (t : ℕ). t * n) e)

negated_right : (q k b : ℕ) → k + b ≡ 2 ^ 32 → (q * b + q * k) % 2 ^ 32 ≡ 0
negated_right q k b e = omega (arith, ap (λ (t : ℕ). q * t) e)

-- The identity x = (x / y) * y + x % y on the integers of 32 bits, read modulo 2 ^ 32.
signed_identity :
    (x y : ℤ)
    → InS32 x
    → InS32 y
    → y ≢ pos 0
    → wrap_add (wrap_mul (from_s32 (tdiv x y)) (from_s32 y)) (from_s32 (tmod x y)) ≡ from_s32 x
unfolding wrap_add wrap_mul from_s32 tdiv tmod
signed_identity (pos m) (pos n) hx hy h = omega (arith, div-add-mod' m n)
signed_identity (pos m) (negsuc n) hx hy h = omega (
  arith,
  div-add-mod' m (suc n),
  negated_product (m / suc n) (suc n) _ (2 ^ 32 - 1 - n)
      (from_s32-negate (m / suc n) (omega (arith, div-le_self m (suc n)))) (omega arith),
)
signed_identity (negsuc m) (pos n) hx hy h = omega (
  arith,
  div-add-mod' (suc m) n,
  negated_left (suc m / n) n _ (from_s32-negate (suc m / n) (omega (arith, div-le_self (suc m) n))),
  from_s32-negate (suc m % n) (omega (arith, div-add-mod' (suc m) n)),
)
signed_identity (negsuc m) (negsuc n) hx hy h = omega (
  arith,
  div-add-mod' (suc m) (suc n),
  negated_right (suc m / suc n) (suc n) (2 ^ 32 - 1 - n) (omega arith),
  from_s32-negate (suc m % suc n) (omega (arith, div-add-mod' (suc m) (suc n))),
)

divisor_test : (b : ℕ) → b < 2 ^ 32 → b ≢ 0 → eq_ℤ (as_s32 b) (pos 0) ≡ false
unfolding as_s32 eq_ℤ
divisor_test b hb nz = ground arith

divisor_ne : (b : ℕ) → b < 2 ^ 32 → b ≢ 0 → as_s32 b ≢ pos 0
unfolding as_s32
divisor_ne b hb nz = ground arith

overflow_words :
    (a b : ℕ)
    → a < 2 ^ 32
    → b < 2 ^ 32
    → (eq_ℤ (as_s32 a) int_min && eq_ℤ (as_s32 b) (negsuc 0)) ≡ true
    → (a ≡ 2 ^ 31) × (b ≡ 2 ^ 32 - 1)
unfolding as_s32 eq_ℤ
overflow_words a b ha hb h = ground arith

-- For every 32-bit dividend and every 32-bit divisor but 0, quotient times divisor plus remainder
-- is the dividend, in wrapping arithmetic; INT_MIN / -1 is no exception.
pub s32_div-s32_rem :
    (a b : ℕ)
    → a < 2 ^ 32
    → b < 2 ^ 32
    → b ≢ 0
    → wrap_add (wrap_mul (s32_div a b) b) (s32_rem a b) ≡ a
s32_div-s32_rem a b ha hb nz =
    elim (Bool-cases (eq_ℤ (as_s32 a) int_min && eq_ℤ (as_s32 b) (negsuc 0))) [
      | inl overflow ↦
          let (ea, eb) = overflow_words a b ha hb overflow in
          unfold s32_div s32_rem wrap_add wrap_mul in
          rw (divisor_test b hb nz, overflow, ea, eb) refl
      | inr plain ↦
          let same = from_s32-as_s32 b hb in
          subst (λ (t : ℕ). wrap_add (wrap_mul (s32_div a b) t) (s32_rem a b) ≡ a) same
            (unfold s32_div s32_rem in
              rw (divisor_test b hb nz, plain)
                (signed_identity (as_s32 a) (as_s32 b) (as_s32-InS32 a ha) (as_s32-InS32 b hb)
                    (divisor_ne b hb nz)
                  ∙ from_s32-as_s32 a ha))
    ]
