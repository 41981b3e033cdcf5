-- ===== src/Core/Alu/Shifts.antt =====
-- `sra` of src/core/alu.cpp is division by a power of two, rounded down.
use native.Mathlib.Nat.{
  pow-suc, one-le-pow, div-lt_iff_lt-mul, div-eq_of_lt-le, div-add-mod', mod-lt, mul_comm, div-one,
  suc-add, zero-add,
}
use warp_sim.Base.{
  ℕ, zero, suc, ◌+◌, ◌-◌, ◌*◌, ◌/◌, ◌%◌, ◌^◌, ◌<◌, ◌≤◌, ◌≡◌, ◌∙◌, refl, ap, sym, arith, ltb,
  if◌then◌else◌, bit_or, ◌&&◌,
}
use warp_sim.Bits.{bit_or-disjoint, bit_and-mask, bit_or_comm}
use warp_sim.Core.Signed.{ℤ, pos, negsuc, as_s32, from_s32, lt_ℤ}
use warp_sim.Core.Alu.{sra}

-- x / k, rounded towards minus infinity.
unfoldable pub floor_div : ℤ → ℕ → ℤ
floor_div (pos n) k = pos (n / k)
floor_div (negsuc n) k = negsuc (n / k)

split_pow : (n m : ℕ) → 2 ^ (n + m) ≡ 2 ^ n * 2 ^ m
split_pow zero m = ground (arith, zero-add m)
split_pow (suc n) m = rw (suc-add n m) (
    omega (
      arith,
      pow-suc 2 (n + m),
      pow-suc 2 n,
      ap (λ (t : ℕ). t * 2 ^ m) (pow-suc 2 n),
      split_pow n m,
    ))

-- Dividing the complement: with a = q * p + r, the complement of a is (s * p + (p - 1 - r)).
complement_div :
    (a p q : ℕ) → 0 < p → p * q ≡ 2 ^ 32 → a < 2 ^ 32 → (2 ^ 32 - 1 - a) / p + 1 + a / p ≡ q
complement_div a p q hp e h =
    omega (arith, div-eq_of_lt-le {k = s} p {m = 2 ^ 32 - 1 - a} low high, below)
  where
    below : a / p < q
    below = (div-lt_iff_lt-mul hp).1 (omega (arith, mul_comm p q))

    s : ℕ
    s = q - 1 - a / p

    total : s + 1 + a / p ≡ q
    total = omega (arith, below)

    scaled : s * p + p + a / p * p ≡ 2 ^ 32
    scaled = omega (arith, ap (λ (t : ℕ). t * p) total)

    low : s * p ≤ 2 ^ 32 - 1 - a
    low = omega (arith, scaled, div-add-mod' a p, mod-lt a hp)

    high : 2 ^ 32 - 1 - a < (s + 1) * p
    high = omega (arith, scaled, div-add-mod' a p, mod-lt a hp)

-- The high mask of an arithmetic shift, and the word that it makes.
filled :
    (a p q : ℕ) (k : ℕ)
    → 0 < p
    → q ≡ 2 ^ k
    → p * q ≡ 2 ^ 32
    → a < 2 ^ 32
    → bit_or (a / p) (0xffff_ffff * q % 2 ^ 32) ≡ 2 ^ 32 - q + a / p
filled a zero q k hp eq e h = absurd (omega arith)
filled a (suc p) q k hp eq e h = rw (bit_or_comm (a / suc p) _, mask, eq) disjoint
  where
    below : a / suc p < q
    below = (div-lt_iff_lt-mul hp).1 (omega (arith, mul_comm (suc p) q))

    mask : 0xffff_ffff * q % 2 ^ 32 ≡ p * q
    mask = omega (arith, below)

    disjoint : bit_or (p * 2 ^ k) (a / suc p) ≡ 2 ^ 32 - 2 ^ k + a / suc p
    disjoint = omega (
      arith,
      bit_or-disjoint k p (a / suc p) (omega (arith, eq, below)),
      eq,
      e,
      ap (λ (t : ℕ). p * t) eq,
      below,
    )

sra_negative :
    (a n : ℕ)
    → a < 2 ^ 32
    → n < 32
    → 0 < n
    → bit_or (a / 2 ^ n) (0xffff_ffff * 2 ^ (32 - n) % 2 ^ 32)
      ≡ 2 ^ 32 - 1 - (2 ^ 32 - 1 - a) / 2 ^ n
sra_negative a n h hn pos' = omega (
  arith,
  filled a (2 ^ n) (2 ^ (32 - n)) (32 - n) p refl whole h,
  complement_div a (2 ^ n) (2 ^ (32 - n)) p whole h,
)
  where
    p : 0 < 2 ^ n
    p = one-le-pow n 2 (omega arith)

    sum : n + (32 - n) ≡ 32
    sum = omega arith

    whole : 2 ^ n * 2 ^ (32 - n) ≡ 2 ^ 32
    whole = sym (split_pow n (32 - n)) ∙ ap (λ (t : ℕ). 2 ^ t) sum

sra_count :
    (a n : ℕ)
    → a < 2 ^ 32
    → n < 32
    → (if lt_ℤ (as_s32 a) (pos 0) && ltb 0 n
        then bit_or (a / 2 ^ n) (0xffff_ffff * 2 ^ (32 - n) % 2 ^ 32)
        else a / 2 ^ n)
      ≡ from_s32 (floor_div (as_s32 a) (2 ^ n))
unfolding lt_ℤ as_s32 from_s32 floor_div
sra_count a zero h hn = ground (arith, div-one a, div-one (2 ^ 32 - 1 - a))
sra_count a (suc n) h hn = ground (arith, sra_negative a (suc n) h hn)

-- On a 32-bit word, the arithmetic shift takes its count modulo 32 and divides the signed value by
-- 2 ^ count, rounding down.
pub sra-floor_div :
    (a count : ℕ) → a < 2 ^ 32 → sra a count ≡ from_s32 (floor_div (as_s32 a) (2 ^ (count % 32)))
unfolding sra
sra-floor_div a count h = rw (bit_and-mask 5 count) (sra_count a (count % 32) h (omega arith))
