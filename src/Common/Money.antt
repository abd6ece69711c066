-- ===== src/Common/Money.antt =====
-- Dollar amounts. The program's `Decimal` amounts are integers here, in units of 10⁻¹² dollar: sums,
-- differences and comparisons of decimals with at most twelve places are exact in both.
use inferrail.Common.{ℕ, ◌^◌}
use inferrail.Common.Int.{ℤ}

-- units in a dollar
abbrev pub usd : ℕ
usd = 10 ^ 12

-- What a caller may pass as a `Decimal`: NaN and the infinities are values of that type too.
pub data Amount : Type 0 where
  finite : ℤ → Amount
  not_finite : Amount
