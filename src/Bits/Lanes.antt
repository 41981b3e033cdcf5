-- ===== src/Bits/Lanes.antt =====
-- Single bits. `bit m i` is bit `i` of `m` as 0 or 1, so that statements about sets of lanes are
-- linear arithmetic.
use Prim.Native.Nat.{bit_and-bitwise}
use native.Mathlib.Nat.{pow-suc, one-le-pow, div-div-eq-div-mul}
use warp_sim.Base.{
  ℕ, zero, suc, ◌-◌, ◌*◌, ◌/◌, ◌%◌, ◌^◌, ◌≤◌, ◌<◌, min, max, bit_and, bit_or, ◌≡◌, refl, ap, sym,
  ◌∙◌, ltb, arith, ◌==◌, if◌then◌else◌,
}
use warp_sim.Bits.Step.{bit_or_step, bit_and_step}
use warp_sim.Bits.Fields.{bit_and-zero, double_shift}

unfoldable pub bit : ℕ → ℕ → ℕ
bit m zero = m % 2
bit m (suc i) = bit (m / 2) i

pub bit-le-one : (m i : ℕ) → bit m i ≤ 1
unfolding bit
bit-le-one m zero = omega arith
bit-le-one m (suc i) = bit-le-one (m / 2) i

pub bit-zero : (i : ℕ) → bit 0 i ≡ 0
unfolding bit
bit-zero zero = refl
bit-zero (suc i) = bit-zero i

half_and : (a b : ℕ) → bit_and a b / 2 ≡ bit_and (a / 2) (b / 2)
half_and a b = omega (arith, bit_and_step a b)

half_or : (a b : ℕ) → bit_or a b / 2 ≡ bit_or (a / 2) (b / 2)
half_or a b = omega (arith, bit_or_step a b)

bit_and_zero_left : (b : ℕ) → bit_and 0 b ≡ 0
bit_and_zero_left b = bit_and-bitwise 0 b

pub bit-bit_and : (a b i : ℕ) → bit (bit_and a b) i ≡ min (bit a i) (bit b i)
unfolding bit
bit-bit_and a b zero = omega (arith, bit_and_step a b)
bit-bit_and a b (suc i) = rw (half_and a b) (bit-bit_and (a / 2) (b / 2) i)

pub bit-bit_or : (a b i : ℕ) → bit (bit_or a b) i ≡ max (bit a i) (bit b i)
unfolding bit
bit-bit_or a b zero = omega (arith, bit_or_step a b)
bit-bit_or a b (suc i) = rw (half_or a b) (bit-bit_or (a / 2) (b / 2) i)

-- Masks stay within their width.
pub bit_and-lt : (n a b : ℕ) → a < 2 ^ n → bit_and a b < 2 ^ n
bit_and-lt zero a b h = let e : a ≡ 0 = omega arith in rw (e, bit_and_zero_left b) (omega arith)
bit_and-lt (suc n) a b h = omega (
  arith,
  bit_and_step a b,
  pow-suc 2 n,
  bit_and-lt n (a / 2) (b / 2) (omega (arith, pow-suc 2 n)),
)

pub bit_or-lt : (n a b : ℕ) → a < 2 ^ n → b < 2 ^ n → bit_or a b < 2 ^ n
bit_or-lt zero a b p q =
    let ea : a ≡ 0 = omega arith in let eb : b ≡ 0 = omega arith in rw (ea, eb) (omega arith)
bit_or-lt (suc n) a b p q = omega (
  arith,
  bit_or_step a b,
  pow-suc 2 n,
  bit_or-lt n (a / 2) (b / 2) (omega (arith, pow-suc 2 n)) (omega (arith, pow-suc 2 n)),
)

-- A word is determined by its bits.
pub bit_ext : (n a b : ℕ) → a < 2 ^ n → b < 2 ^ n → ((i : ℕ) → i < n → bit a i ≡ bit b i) → a ≡ b
unfolding bit
bit_ext zero a b p q h = omega arith
bit_ext (suc n) a b p q h = omega (
  arith,
  h 0 (omega arith),
  bit_ext n (a / 2) (b / 2) (omega (arith, pow-suc 2 n)) (omega (arith, pow-suc 2 n))
      (λ i l. h (suc i) (omega arith)),
)

pub bit_ext_zero : (n a : ℕ) → a < 2 ^ n → ((i : ℕ) → i < n → bit a i ≡ 0) → a ≡ 0
bit_ext_zero n a p h =
    bit_ext n a 0 p (one-le-pow n 2 (omega arith)) (λ i l. h i l ∙ sym (bit-zero i))

-- `~m` on a word of `n` bits.
half_complement : (n m : ℕ) → m < 2 ^ suc n → (2 ^ suc n - 1 - m) / 2 ≡ 2 ^ n - 1 - m / 2
half_complement n m h = omega (arith, pow-suc 2 n, one-le-pow n 2)

pub bit-complement : (n m i : ℕ) → m < 2 ^ n → i < n → bit (2 ^ n - 1 - m) i ≡ 1 - bit m i
unfolding bit
bit-complement zero m i p q = absurd (omega arith)
bit-complement (suc n) m zero p q = omega (arith, pow-suc 2 n, one-le-pow n 2)
bit-complement (suc n) m (suc i) p q =
    rw (half_complement n m p)
      (bit-complement n (m / 2) i (omega (arith, pow-suc 2 n)) (omega arith))

half_pow : (j : ℕ) → 2 ^ suc j / 2 ≡ 2 ^ j
half_pow j = omega (arith, pow-suc 2 j)

-- `1 << j` has one bit.
pub bit-pow : (j i : ℕ) → bit (2 ^ j) i ≡ (if i == j then 1 else 0)
unfolding bit
bit-pow zero zero = refl
bit-pow zero (suc i) = ground (arith, bit-zero i)
bit-pow (suc j) zero = ground (arith, pow-suc 2 j)
bit-pow (suc j) (suc i) = rw (half_pow j) (ground (arith, bit-pow j i))

half_and_pow : (m l : ℕ) → bit_and m (2 ^ suc l) ≡ bit_and (m / 2) (2 ^ l) * 2
half_and_pow m l = rw (bit_and_step m (2 ^ suc l), half_pow l) (omega (arith, pow-suc 2 l))

-- `m & (1 << l)` is bit l, in its place.
pub bit_and-pow : (m l : ℕ) → bit_and m (2 ^ l) ≡ bit m l * 2 ^ l
unfolding bit
bit_and-pow m zero = omega (arith, bit_and_step m 1, bit_and-zero (m / 2))
bit_and-pow m (suc l) =
    rw (half_and_pow m l, bit_and-pow (m / 2) l) (omega (arith, double_shift (bit (m / 2) l) l))

pub pow-lt-pow : (l n : ℕ) → l < n → 2 ^ l < 2 ^ n
pow-lt-pow l zero h = absurd (omega arith)
pow-lt-pow zero (suc n) h = omega (arith, pow-suc 2 n, one-le-pow n 2 (omega arith))
pow-lt-pow (suc l) (suc n) h = omega (arith, pow-suc 2 n, pow-suc 2 l, pow-lt-pow l n (omega arith))

-- The bits of 2 ^ k - 1 are those below k.
pub bit-ones : (k l : ℕ) → bit (2 ^ k - 1) l ≡ (if ltb l k then 1 else 0)
unfolding bit
bit-ones zero l = ground (arith, bit-zero l)
bit-ones (suc k) zero = ground (arith, pow-suc 2 k, one-le-pow k 2)
bit-ones (suc k) (suc l) =
    let half : (2 ^ suc k - 1) / 2 ≡ 2 ^ k - 1 = omega (arith, pow-suc 2 k, one-le-pow k 2) in
    rw half (ground (arith, bit-ones k l))

halved : (m i : ℕ) → m / 2 ^ suc i ≡ m / 2 / 2 ^ i
halved m i =
    rw (div-div-eq-div-mul m 2 (2 ^ i)) (ap (λ (t : ℕ). m / t) (omega (arith, pow-suc 2 i)))

-- Bit i by a shift.
pub bit-shift : (m i : ℕ) → m / 2 ^ i % 2 ≡ bit m i
unfolding bit
bit-shift m zero = omega arith
bit-shift m (suc i) = rw (sym (bit-shift (m / 2) i)) (ap (λ (t : ℕ). t % 2) (halved m i))
