-- ===== src/Exact/Tests.antt =====
-- Exact arithmetic at concrete numbers.
use openfrag.Common.{◌≤◌, ◌≡◌, ◌≢◌, ◌↔◌, refl, arith, false, ok, err}
use openfrag.Common.Int.{pos, negsuc, in_i64, tdiv, neg_ℤ, ◌*ℤ◌}
use openfrag.Exact.Gcd.{gcd}
use openfrag.Exact.Fraction.{◌+ℚ◌}
use openfrag.Exact.Rational.{
  Rational, rational_one, half, overflow, i128_max, is_i128_min, reduce, fit, normalize,
  checked_add, checked_neg, round_half_up_nonnegative,
}
use openfrag.Exact.Rational.Canonical.{IsCanonical, normalize_iff}
use openfrag.Exact.Rational.Refinement.{IsExact, Represents, value_of, checked_add-Represents}

abbrev minus_half : Rational
minus_half = record { numerator = negsuc 0; denominator = 2 }

-- 6 / -12.
halved : normalize (pos 6) (negsuc 11) ≡ ok minus_half
unfolding normalize reduce fit gcd in_i64 tdiv i128_max is_i128_min neg_ℤ
halved = refl

halves : checked_add half half ≡ ok rational_one
unfolding checked_add normalize gcd in_i64 tdiv i128_max ◌*ℤ◌
halves = refl

-- The least `i64` has no opposite.
no_opposite :
    checked_neg (record { numerator = negsuc 9_223_372_036_854_775_807; denominator = 1 })
    ≡ err overflow
unfolding checked_neg
no_opposite = refl

three_halves :
    round_half_up_nonnegative (record { numerator = pos 3; denominator = 2 }) ≡ ok (pos 2)
unfolding round_half_up_nonnegative in_i64 tdiv ◌*ℤ◌
three_halves = refl

i128_max-large : 12 ≤ i128_max
unfolding i128_max
i128_max-large = omega arith

six_not_min : is_i128_min (pos 6) ≡ false
unfolding is_i128_min
six_not_min = refl

nonzero : negsuc 11 ≢ pos 0
nonzero e = ground (arith, e)

normalize_iff_example :
    (normalize (pos 6) (negsuc 11) ≡ ok minus_half) ↔ IsCanonical (pos 6) (negsuc 11) minus_half
normalize_iff_example =
    normalize_iff (pos 6) (negsuc 11) minus_half nonzero six_not_min i128_max-large

half-IsExact : IsExact half
unfolding gcd in_i64
half-IsExact = record {
  reduced = record { positive = omega arith; coprime = refl };
  bounded = refl;
}

checked_add-Represents_example :
    (checked_add half half ≡ ok rational_one)
    ↔ Represents rational_one (value_of half half-IsExact +ℚ value_of half half-IsExact)
checked_add-Represents_example =
    checked_add-Represents half half rational_one half-IsExact half-IsExact
