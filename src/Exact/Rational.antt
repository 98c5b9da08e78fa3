-- ===== src/Exact/Rational.antt =====
-- `Rational` of crates/openfrag-domain/src/exact.rs. Its denominator is positive wherever one is
-- made, so it is a natural number here. An `i128` holds every product and sum of two products of
-- `i64` values, so that only `normalize` meets the bounds of a machine integer.
pub mod Canonical
pub mod Bounds
pub mod Clamping
pub mod Refinement
use Prim.Native.Nat.{Ordering}
use openfrag.Common.{
  ℕ, zero, suc, ◌+◌, ◌*◌, ◌/◌, Bool, true, false, ◌&&◌, ◌||◌, not, Option, none, some, ltb, leb,
  if◌then◌else◌, Result, ok, err, ◌>>=◌, ◌≡◌, refl,
}
use openfrag.Common.Int.{
  ℤ, pos, negsuc, ◌+ℤ◌, ◌*ℤ◌, neg_ℤ, nat_abs, tdiv, in_i64, ltb_ℤ, eqb_ℤ, cmp_ℤ, i64_max, i64_min,
}
use openfrag.Exact.Gcd.{gcd}

pub data ExactError : Type 0 where
  zero_denominator overflow division_by_zero : ExactError
  outside_unit_interval outside_rating_range : ExactError

pub record Rational : Type 0 where
  pub numerator : ℤ
  pub denominator : ℕ

abbrev pub from_integer : ℤ → Rational
from_integer value = record { numerator = value; denominator = 1 }

abbrev pub rational_zero : Rational
rational_zero = from_integer (pos 0)

abbrev pub rational_one : Rational
rational_one = from_integer (pos 1)

abbrev pub half : Rational
half = record { numerator = pos 1; denominator = 2 }

-- The bounds of `i128`.
unfoldable pub i128_max : ℕ
i128_max = 170_141_183_460_469_231_731_687_303_715_884_105_727

unfoldable pub is_i128_min : ℤ → Bool
is_i128_min z = eqb_ℤ z (negsuc 170_141_183_460_469_231_731_687_303_715_884_105_727)

-- `i64::try_from`, of both parts.
unfoldable pub fit : ℤ → ℕ → Result ExactError Rational
fit numerator denominator =
    if in_i64 numerator && in_i64 (pos denominator)
    then ok (record { numerator = numerator; denominator = denominator })
    else err overflow

-- The part of `normalize` behind the sign of the denominator.
unfoldable pub reduce : ℤ → ℕ → Result ExactError Rational
unfolding fit
reduce numerator denominator =
    let divisor = gcd (nat_abs numerator) denominator in
    if ltb i128_max divisor
    then err overflow
    else fit (tdiv numerator divisor) (denominator / divisor)

unfoldable pub normalize : ℤ → ℤ → Result ExactError Rational
unfolding reduce
normalize numerator (pos zero) = err zero_denominator
normalize numerator (pos (suc d)) = reduce numerator (suc d)
normalize numerator (negsuc d) =
    if is_i128_min numerator || is_i128_min (negsuc d)
    then err overflow
    else reduce (neg_ℤ numerator) (suc d)

unfoldable pub new : ℤ → ℤ → Result ExactError Rational
new numerator denominator = normalize numerator denominator

unfoldable pub checked_add : Rational → Rational → Result ExactError Rational
checked_add x y =
    normalize (x.numerator *ℤ pos y.denominator +ℤ y.numerator *ℤ pos x.denominator)
      (pos x.denominator *ℤ pos y.denominator)

unfoldable pub checked_neg : Rational → Result ExactError Rational
checked_neg x =
    if eqb_ℤ x.numerator i64_min
    then err overflow
    else ok (record x { numerator = neg_ℤ x.numerator })

unfoldable pub checked_sub : Rational → Rational → Result ExactError Rational
checked_sub x y = checked_neg y >>= λ z. checked_add x z

unfoldable pub checked_mul : Rational → Rational → Result ExactError Rational
checked_mul x y = normalize (x.numerator *ℤ y.numerator) (pos x.denominator *ℤ pos y.denominator)

unfoldable pub checked_div : Rational → Rational → Result ExactError Rational
checked_div x y =
    if eqb_ℤ y.numerator (pos 0)
    then err division_by_zero
    else normalize (x.numerator *ℤ pos y.denominator) (pos x.denominator *ℤ y.numerator)

unfoldable pub abs : Rational → Result ExactError Rational
unfolding checked_neg
abs x = if ltb_ℤ x.numerator (pos 0) then checked_neg x else ok x

-- `Ord::cmp`, by cross-multiplication.
unfoldable pub cmp : Rational → Rational → Ordering
cmp x y = cmp_ℤ (x.numerator *ℤ pos y.denominator) (y.numerator *ℤ pos x.denominator)

-- `Ord::max` and `Ord::min` keep their second and their first argument of two that are equal.
unfoldable pub max_rational : Rational → Rational → Rational
max_rational x y = elim (cmp x y) [ Ordering.gt ↦ x | _ ↦ y ]

unfoldable pub min_rational : Rational → Rational → Rational
min_rational x y = elim (cmp x y) [ Ordering.gt ↦ y | _ ↦ x ]

unfoldable pub clamp : Rational → Rational → Rational → Rational
unfolding max_rational min_rational
clamp x minimum maximum = min_rational (max_rational x minimum) maximum

abbrev pub le_rational : Rational → Rational → Bool
le_rational x y = elim (cmp x y) [ Ordering.gt ↦ false | _ ↦ true ]

-- `i64::try_from`.
abbrev pub try_i64 : ℤ → Result ExactError ℤ
try_i64 z = if in_i64 z then ok z else err overflow

unfoldable pub round_half_up_nonnegative : Rational → Result ExactError ℤ
round_half_up_nonnegative x =
    if ltb_ℤ x.numerator (pos 0)
    then err outside_rating_range
    else try_i64 (tdiv (x.numerator *ℤ pos 2 +ℤ pos x.denominator) (x.denominator * 2))

pub record UnitInterval : Type 0 where
  pub exact : Rational

unfoldable pub unit_interval : Rational → Result ExactError UnitInterval
unfolding cmp
unit_interval value =
    if le_rational rational_zero value && le_rational value rational_one
    then ok (record { exact = value })
    else err outside_unit_interval

unfoldable pub clamped : Rational → UnitInterval
unfolding clamp
clamped value = record { exact = clamp value rational_zero rational_one }

pub record RatingBasisPoints : Type 0 where
  pub get : ℕ

unfoldable pub rating_basis_points : ℕ → Result ExactError RatingBasisPoints
rating_basis_points value =
    if leb value 20_000 then ok (record { get = value }) else err outside_rating_range

unfoldable pub exact_points : RatingBasisPoints → Rational
exact_points points = from_integer (pos points.get)

unfoldable pub display_centi : RatingBasisPoints → ℕ
display_centi points = (points.get + 50) / 100
