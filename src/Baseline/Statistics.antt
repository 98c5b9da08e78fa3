-- ===== src/Baseline/Statistics.antt =====
-- `median` and `robust_stats` of crates/openfrag-domain/src/baseline.rs.
use openfrag.Common.{
  ℕ, suc, zero, ◌-◌, ◌/◌, ◌%◌, Bool, true, false, ◌==◌, ◌&&◌, if◌then◌else◌, List, [], ◌∷◌,
  is_empty, length, Result, ok, err, ◌>>=◌, map_err,
}
use openfrag.Common.Int.{pos, eqb_ℤ}
use openfrag.Common.Sets.{sort_by}
use Prim.Native.Nat.{Ordering}
use openfrag.Exact.Rational.{
  Rational, ExactError, from_integer, rational_zero, checked_add, checked_sub, checked_mul,
  checked_div, abs, cmp, clamp,
}

pub data BaselineError : Type 0 where
  exact : ExactError → BaselineError
  empty_statistics side_rating_forbidden map_side_scope_forbidden : BaselineError

pub record RobustStats : Type 0 where
  pub median : Rational
  pub mad : Rational
  pub lower : Rational
  pub upper : Rational

pub data RangePosition : Type 0 where
  below within above unavailable_no_spread : RangePosition

abbrev is_lt : Ordering → Bool
is_lt Ordering.lt = true
is_lt _ = false

abbrev is_gt : Ordering → Bool
is_gt Ordering.gt = true
is_gt _ = false

abbrev is_zero : Rational → Bool
is_zero x = eqb_ℤ x.numerator (pos 0) && (x.denominator == 1)

unfoldable pub position : RobustStats → Rational → RangePosition
position s value =
    if is_zero s.mad
    then unavailable_no_spread
    else if is_lt (cmp value s.lower)
    then below
    else if is_gt (cmp value s.upper)
    then above
    else within

-- An index of a list that is long enough.
abbrev item_at : List Rational → ℕ → Rational
item_at [] i = rational_zero
item_at (x ∷ xs) zero = x
item_at (x ∷ xs) (suc i) = item_at xs i

abbrev middle_of : List Rational → Result ExactError Rational
middle_of ordered =
    let middle = length ordered / 2 in
    if length ordered % 2 == 1
    then ok (item_at ordered middle)
    else (checked_add (item_at ordered (middle - 1)) (item_at ordered middle) >>= λ sum.
        checked_div sum (from_integer (pos 2)))

unfoldable pub median_of : List Rational → Result BaselineError Rational
median_of values =
    if is_empty values then err empty_statistics else map_err exact (middle_of (sort_by cmp values))

-- `collect` of the deviations stops at the first error.
unfoldable pub deviations_of : Rational → List Rational → Result ExactError (List Rational)
deviations_of center [] = ok []
deviations_of center (value ∷ rest) = do
  difference ← checked_sub value center
  deviation ← abs difference
  others ← deviations_of center rest
  ok (deviation ∷ others)

abbrev range_of : Rational → Rational → Rational → Rational → Result ExactError RobustStats
range_of minimum maximum center mad = do
  spread ← checked_mul mad (from_integer (pos 2))
  least ← checked_sub center spread
  greatest ← checked_add center spread
  ok (record {
    median = center;
    mad = mad;
    lower = clamp least minimum maximum;
    upper = clamp greatest minimum maximum;
  })

unfoldable pub robust_stats : List Rational → Rational → Rational → Result BaselineError RobustStats
robust_stats values minimum maximum = do
  center ← median_of values
  deviations ← map_err exact (deviations_of center values)
  mad ← median_of deviations
  map_err exact (range_of minimum maximum center mad)
