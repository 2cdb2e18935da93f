-- ===== src/Damage/Floats.antt =====
-- Quotients of positive numbers as Python's `float`: 53 bits, rounded to the nearest, ties to even.
use nparse_plus.Prelude.{
  ℕ, zero, suc, ◌+◌, ◌*◌, ◌/◌, ◌%◌, ◌≡◌, refl, true, false, ◌&&◌, ◌||◌, ltb, ◌==◌, if◌then◌else◌,
}

-- The value `mantissa * 2 ^ up / 2 ^ down`.
pub record Float : Type 0 where
  pub mantissa : ℕ
  pub up : ℕ
  pub down : ℕ

abbrev two_52 : ℕ
two_52 = 4503599627370496

abbrev power : ℕ → ℕ
power zero = 1
power (suc n) = 2 * power n

-- The nearest number to `p / q`.
abbrev nearest : ℕ → ℕ → ℕ
nearest p q =
    let floor = p / q in
    let twice = 2 * (p % q) in
    if ltb q twice || (twice == q && floor % 2 == 1) then floor + 1 else floor

-- Doubling the numerator until the quotient has 53 bits, at most as often as the exponents of
-- `float` reach.
scale_up : ℕ → ℕ → ℕ → ℕ → Float
scale_up zero p q down = record { mantissa = nearest p q; up = 0; down = down }
scale_up (suc fuel) p q down = elim (ltb p (q * two_52)) [
  | true ↦ scale_up fuel (2 * p) q (down + 1)
  | false ↦ record { mantissa = nearest p q; up = 0; down = down }
]

-- Doubling the denominator until the quotient has no more than 53 bits.
scale_down : ℕ → ℕ → ℕ → ℕ → Float
scale_down zero p q up = record { mantissa = nearest p q; up = up; down = 0 }
scale_down (suc fuel) p q up = elim (ltb p (q * (2 * two_52))) [
  | true ↦ record { mantissa = nearest p q; up = up; down = 0 }
  | false ↦ scale_down fuel p (2 * q) (up + 1)
]

-- `p / q` of two positive integers
unfoldable pub quotient : ℕ → ℕ → Float
unfolding scale_up scale_down
quotient p q = elim (ltb p (q * two_52)) [
  | true ↦ scale_up 1074 p q 0
  | false ↦ scale_down 1023 p q 0
]

-- `n / x` and `x * n` of a positive integer and a float
unfoldable pub divided_by : ℕ → Float → Float
unfolding quotient
divided_by n x = quotient (n * power x.down) (x.mantissa * power x.up)

unfoldable pub times : Float → ℕ → Float
unfolding quotient
times x n = quotient (x.mantissa * power x.up * n) (power x.down)

-- `int(x)`
unfoldable pub truncated : Float → ℕ
truncated x = x.mantissa * power x.up / power x.down

-- 29 / 100 * 100.0 is a little less than 29.
truncated_test : truncated (times (quotient 29 100) 100) ≡ 28
unfolding truncated times quotient
truncated_test = refl
