-- ===== src/Common/Bits.antt =====
-- The operations on bits at variables, one binary digit at a time.
use Prim.Native.Nat.{
  ℕ, ◌-◌, zero, suc, ◌+◌, ◌*◌, ◌/◌, ◌%◌, ◌≤◌, ◌<◌, max, digits, differ, bit_xor, bit_or,
  bit_xor-bitwise, bit_or-bitwise,
}
use mathlib.Core.Path.{◌≡◌, refl, ap, ◌∙◌}
use native.Mathlib.Omega.{arith}

-- An operation on digits that keeps the other number's digit beside a zero.
module _ (f : ℕ → ℕ → ℕ) (left : (y : ℕ) → f 0 y ≡ y) where
  with_fuel : ℕ → ℕ → ℕ → ℕ
  with_fuel n a b = digits (λ x. x) f n a b

  -- One more digit of fuel changes nothing once there is one for each digit of the number.
  settled : (x y n : ℕ) → x ≤ n → with_fuel (suc n) x y ≡ with_fuel n x y
  unfolding with_fuel
  settled zero y zero h = refl
  settled zero y (suc n) h = refl
  settled (suc x) y zero h = absurd (omega arith)
  settled (suc x) y (suc n) h = omega (arith, settled (suc x / 2) (y / 2) n (omega arith))

  surplus : (k x y n : ℕ) → n ≡ k + x → with_fuel n x y ≡ with_fuel x x y
  surplus zero x y n e = ap (λ m. with_fuel m x y) (omega (arith, e))
  surplus (suc k) x y n e =
      ap (λ m. with_fuel m x y) (omega (arith, e))
      ∙ settled x y (k + x) (omega arith)
      ∙ surplus k x y (k + x) refl

  last_digit :
      (x y : ℕ) → with_fuel x x y ≡ with_fuel (x / 2) (x / 2) (y / 2) * 2 + f (x % 2) (y % 2)
  unfolding with_fuel
  last_digit zero y = omega (arith, left (y % 2))
  last_digit (suc x) y = omega (arith, surplus (x - suc x / 2) (suc x / 2) (y / 2) x (omega arith))

pub bit_xor_step : (a b : ℕ) → bit_xor a b ≡ bit_xor (a / 2) (b / 2) * 2 + differ (a % 2) (b % 2)
unfolding with_fuel
bit_xor_step a b =
    omega (
      arith,
      bit_xor-bitwise a b,
      bit_xor-bitwise (a / 2) (b / 2),
      last_digit differ (λ y. refl) a b,
    )

pub bit_or_step : (a b : ℕ) → bit_or a b ≡ bit_or (a / 2) (b / 2) * 2 + max (a % 2) (b % 2)
unfolding with_fuel
bit_or_step a b = omega (
  arith,
  bit_or-bitwise a b,
  bit_or-bitwise (a / 2) (b / 2),
  last_digit max (λ y. omega arith) a b,
)

-- 2 ^ n, digit by digit.
abbrev pub high_bit : ℕ → ℕ
high_bit zero = 1
high_bit (suc n) = high_bit n * 2

-- Setting a bit above all those of a number adds it.
pub bit_or-high : (n x : ℕ) → x < high_bit n → bit_or (high_bit n) x ≡ high_bit n + x
bit_or-high zero zero h = refl
bit_or-high zero (suc x) h = absurd (omega arith)
bit_or-high (suc n) x h =
    let half : high_bit n * 2 / 2 ≡ high_bit n = omega arith in
    omega (
      arith,
      bit_or_step (high_bit n * 2) x,
      ap (λ k. bit_or k (x / 2)) half,
      bit_or-high n (x / 2) (omega arith),
    )
