-- ===== src/Common/Double.antt =====
-- Python's `float`: a finite double is a whole number of units of 2⁻¹⁰⁷⁴, with its sign. Only
-- comparisons are needed; with NaN each of them is false, and the two zeros are equal.
use inferrail.Common.{ℕ, ◌^◌, Bool, true, false, ◌&&◌, not, leb, ◌==◌}

pub data Double : Type 0 where
  nan : Double
  minus_infinity : Double
  minus : ℕ → Double
  plus : ℕ → Double
  infinity : Double

abbrev minus_le : ℕ → Double → Bool
minus_le m nan = false
minus_le m minus_infinity = false
minus_le m (minus n) = leb n m
minus_le m (plus n) = true
minus_le m infinity = true

abbrev plus_le : ℕ → Double → Bool
plus_le m nan = false
plus_le m minus_infinity = false
plus_le m (minus n) = m == 0 && n == 0
plus_le m (plus n) = leb m n
plus_le m infinity = true

abbrev is_number : Double → Bool
is_number nan = false
is_number _ = true

abbrev is_infinity : Double → Bool
is_infinity infinity = true
is_infinity _ = false

-- `x <= y`
abbrev pub double_le : Double → Double → Bool
double_le nan y = false
double_le minus_infinity y = is_number y
double_le (minus m) y = minus_le m y
double_le (plus m) y = plus_le m y
double_le infinity y = is_infinity y

-- `x < y`
abbrev pub double_lt : Double → Double → Bool
double_lt x y = double_le x y && not (double_le y x)

abbrev pub zero_point : Double
zero_point = plus 0

abbrev pub one_point : Double
one_point = plus (2 ^ 1074)

-- `0.0 <= x <= 1.0`
unfoldable pub in_unit : Double → Bool
in_unit x = double_le zero_point x && double_le x one_point
