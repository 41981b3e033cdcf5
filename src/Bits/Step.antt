-- ===== src/Bits/Step.antt =====
-- `|` and `&` by their lowest binary digit: the equations that every lemma on masks rests on.
use Prim.Native.Nat.{digits, bitwise, bit_and-bitwise, bit_or-bitwise}
use warp_sim.Base.{
  ℕ, zero, suc, ◌+◌, ◌-◌, ◌*◌, ◌/◌, ◌%◌, ◌≤◌, min, max, bit_and, bit_or, ◌≡◌, refl, ap, ◌∙◌, arith,
}

module _ (rest : ℕ → ℕ) (digit : ℕ → ℕ → ℕ) where
  -- With fuel for every digit of x, one unit more changes nothing.
  spare_unit :
      (fuel x y : ℕ) → x ≤ fuel → digits rest digit (suc fuel) x y ≡ digits rest digit fuel x y
  spare_unit zero zero y le = refl
  spare_unit (suc fuel) zero y le = refl
  spare_unit zero (suc x) y le = absurd (omega (arith, le))
  spare_unit (suc fuel) (suc x) y le =
      ap (λ (high : ℕ). high * 2 + digit (suc x % 2) (y % 2))
        (spare_unit fuel (suc x / 2) (y / 2) (omega (arith, le)))

  spare_fuel :
      (more fuel large x y : ℕ)
      → x ≤ fuel
      → large ≡ fuel + more
      → digits rest digit large x y ≡ digits rest digit fuel x y
  spare_fuel zero fuel large x y le e = ap (λ (t : ℕ). digits rest digit t x y) (omega (arith, e))
  spare_fuel (suc more) fuel large x y le e =
      spare_fuel more (suc fuel) large x y (omega (arith, le)) (omega (arith, e))
      ∙ spare_unit fuel x y le

  lowest_digit :
      (x y : ℕ)
      → bitwise rest digit (suc x) y
        ≡ bitwise rest digit (suc x / 2) (y / 2) * 2 + digit (suc x % 2) (y % 2)
  lowest_digit x y =
      ap (λ (high : ℕ). high * 2 + digit (suc x % 2) (y % 2))
        (spare_fuel (x - suc x / 2) (suc x / 2) x (suc x / 2) (y / 2) (omega arith) (omega arith))

pub bit_and_step : (x y : ℕ) → bit_and x y ≡ bit_and (x / 2) (y / 2) * 2 + min (x % 2) (y % 2)
bit_and_step zero y = simp bit_and-bitwise (omega arith)
bit_and_step (suc x) y = simp bit_and-bitwise (lowest_digit (λ t. 0) min x y)

pub bit_or_step : (x y : ℕ) → bit_or x y ≡ bit_or (x / 2) (y / 2) * 2 + max (x % 2) (y % 2)
bit_or_step zero y = simp bit_or-bitwise (omega arith)
bit_or_step (suc x) y = simp bit_or-bitwise (lowest_digit (λ t. t) max x y)
