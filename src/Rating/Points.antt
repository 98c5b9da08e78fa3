-- ===== src/Rating/Points.antt =====
-- The rating in points, as crates/openfrag-domain/src/rating.rs rounds it.
use native.Mathlib.Nat
use openfrag.Common.{ℕ, ◌+◌, ◌*◌, ◌/◌, ◌<◌, ◌≤◌, ◌≡◌, refl, ap, ◌∙◌, true, arith, Result, ok, ◌>>=◌}
use openfrag.Common.Int.{ℤ, pos, pos_part, ◌*ℤ◌, in_i64, tdiv}
use openfrag.Exact.Integers.{pos-*ℤ-pos}
use openfrag.Exact.Rational.{
  Rational, ExactError, from_integer, round_half_up_nonnegative, RatingBasisPoints,
  rating_basis_points,
}
use openfrag.Exact.Rational.Bounds.{
  Gives, Gives-bind, Within, IsRatio, ratio_parts, ratio-Within, checked_mul-IsRatio, is_pos,
  sum_pos,
}
use openfrag.Rating.Calculation.{points_of, to_u16}

-- `points` is `n / d` rounded to the nearest integer, and up from the middle.
pub record IsNearest (n d points : ℕ) : Type 0 where
  pub above : 2 * points * d ≤ 2 * n + d
  pub below : 2 * n + d < 2 * (points + 1) * d

abbrev half_up : ℕ → ℕ → ℕ
half_up n d = (n * 2 + d) / (d * 2)

half_up-IsNearest : (n d : ℕ) → 0 < d → IsNearest n d (half_up n d)
half_up-IsNearest n d h = record {
  above = omega (arith, Nat.mul-div-le (n * 2 + d) (d * 2));
  below =
      omega (
        arith,
        (Nat.div-lt_iff_lt-mul {x = n * 2 + d} {y = half_up n d + 1} twice).0 (omega arith),
      );
}
  where
    twice : 0 < d * 2
    twice = omega (arith, h)

-- The same for another fraction of that value.
same-IsNearest :
    (n d m e points : ℕ)
    → 0 < d
    → 0 < e
    → m * d ≡ n * e
    → IsNearest m e points
    → IsNearest n d points
same-IsNearest n d m e points hd he same near = record {
  above = Nat.le_of_mul-le-mul_right (omega (arith, same, Nat.mul-le-mul_right d near.above)) he;
  below =
      Nat.lt_of_mul-lt-mul_right e (omega (arith, same, Nat.mul-lt-mul_of_pos_right near.below hd));
}

half_up-bound : (n d : ℕ) → 0 < d → n ≤ 20_000 * d → half_up n d ≤ 20_000
half_up-bound n d h le =
    omega
      (arith, (Nat.div-lt_iff_lt-mul {x = n * 2 + d} {y = 20_001} twice).1 (omega (arith, h, le)))
  where
    twice : 0 < d * 2
    twice = omega (arith, h)

small-fits : (q : ℕ) → q ≤ 20_000 → in_i64 (pos q) ≡ true
unfolding in_i64
small-fits q h = ground arith

round-half_up :
    (n d : ℕ)
    → half_up n d ≤ 20_000
    → round_half_up_nonnegative (record { numerator = pos n; denominator = d })
      ≡ ok (pos (half_up n d))
unfolding round_half_up_nonnegative tdiv
round-half_up n d h =
    rw
      (sum_pos (pos n *ℤ pos 2) (pos d) (n * 2) d (pos-*ℤ-pos n 2) refl, small-fits (half_up n d) h)
      (ground arith)

points-get :
    (q : ℕ) → q ≤ 20_000 → (to_u16 (pos q) >>= rating_basis_points) ≡ ok (record { get = q })
unfolding rating_basis_points
points-get q h = ground arith

-- The points of a rating from zero to two.
abbrev pub ArePoints : Rational → RatingBasisPoints → Type 0
ArePoints x points =
    (points.get ≤ 20_000) × IsNearest (pos_part x.numerator * 10_000) x.denominator points.get

pub points_of-ArePoints : (x : Rational) → Within 2 1 x → Gives (ArePoints x) (points_of x)
unfolding points_of
points_of-ArePoints x h =
    Gives-bind (IsRatio (pos (pos_part x.numerator * 10_000)) (x.denominator * 1)) (ArePoints x) _ _
      (checked_mul-IsRatio x (from_integer (pos 10_000)) h.den_pos (omega arith) h.not_negative
        refl)
      from_scaled
  where
    from_scaled :
        (s : Rational)
        → IsRatio (pos (pos_part x.numerator * 10_000)) (x.denominator * 1) s
        → Gives
            (ArePoints x)
            (round_half_up_nonnegative s >>= λ r. to_u16 r >>= rating_basis_points)
    from_scaled s v =
        let w : Within 20_000 1 s =
          ratio-Within (pos_part x.numerator * 10_000) (x.denominator * 1) 20_000 1 s
            (omega (arith, h.den_pos)) (omega (arith, h.at_most)) v in
        let n = pos_part s.numerator in
        let d = s.denominator in
        let bound = half_up-bound n d v.positive (omega (arith, w.at_most)) in
        let computed : (round_half_up_nonnegative s >>= λ r. to_u16 r >>= rating_basis_points)
            ≡ ok (record { get = half_up n d }) =
          ap
            (λ (z : ℤ).
              round_half_up_nonnegative (record { numerator = z; denominator = d }) >>= λ r.
              to_u16 r >>= rating_basis_points)
            (is_pos s.numerator w.not_negative)
          ∙ ap (λ (m : Result ExactError ℤ). m >>= λ r. to_u16 r >>= rating_basis_points)
              (round-half_up n d bound)
          ∙ points-get (half_up n d) bound in
        rw computed (
          bound,
          same-IsNearest (pos_part x.numerator * 10_000) x.denominator n d (half_up n d) h.den_pos
              v.positive (omega (arith, (ratio_parts _ _ s v).0))
              (half_up-IsNearest n d v.positive),
        )
