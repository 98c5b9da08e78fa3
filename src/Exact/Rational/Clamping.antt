-- ===== src/Exact/Rational/Clamping.antt =====
-- `UnitInterval::clamped` and `UnitInterval::new` of crates/openfrag-domain/src/exact.rs.
use Prim.Native.Nat.{Ordering}
use openfrag.Common.{ℕ, ◌<◌, ◌≤◌, ◌≡◌, ◌⊎◌, inl, inr, refl, true, ◌&&◌, arith, ok}
use openfrag.Common.Int.{ℤ, pos, negsuc, pos_part, neg_part, ◌*ℤ◌}
use openfrag.Exact.Rational.{
  Rational, rational_zero, rational_one, cmp, clamp, max_rational, min_rational, le_rational,
  unit_interval, clamped,
}
use openfrag.Exact.Rational.Bounds.{Within}

-- What the comparisons with the two bounds say.
above_zero :
    (n : ℤ) (d : ℕ)
    → cmp (record { numerator = n; denominator = d }) rational_zero ≡ Ordering.gt
    → neg_part n ≡ 0
unfolding cmp ◌*ℤ◌
above_zero (pos n) d e = refl
above_zero (negsuc n) d e = ground arith

below_one :
    (n : ℤ) (d : ℕ)
    → (cmp (record { numerator = n; denominator = d }) rational_one ≡ Ordering.gt)
      ⊎ (pos_part n ≤ d)
unfolding cmp ◌*ℤ◌
below_one (pos n) d = ground arith
below_one (negsuc n) d = ground arith

max_zero-not_negative :
    (x : Rational)
    → 0 < x.denominator
    → (0 < (max_rational x rational_zero).denominator)
      × (neg_part (max_rational x rational_zero).numerator ≡ 0)
unfolding max_rational
max_zero-not_negative x h = ground (arith, above_zero x.numerator x.denominator)

zero-Within : Within 1 1 rational_zero
zero-Within = record { den_pos = omega arith; not_negative = refl; at_most = omega arith }

one-Within : Within 1 1 rational_one
one-Within = record { den_pos = omega arith; not_negative = refl; at_most = omega arith }

abbrev least : Ordering → Rational → Rational
least o x = elim o [ Ordering.gt ↦ rational_one | _ ↦ x ]

least-Within :
    (o : Ordering) (x : Rational) → (o ≡ Ordering.gt) ⊎ Within 1 1 x → Within 1 1 (least o x)
least-Within o x (inl e) = rw e one-Within
least-Within Ordering.gt x (inr h) = one-Within
least-Within Ordering.eq x (inr h) = h
least-Within Ordering.lt x (inr h) = h

min_one-Within :
    (x : Rational)
    → 0 < x.denominator
    → neg_part x.numerator ≡ 0
    → Within 1 1 (min_rational x rational_one)
unfolding min_rational
min_one-Within x h n =
    least-Within (cmp x rational_one) x (elim (below_one x.numerator x.denominator) [
      | inl e ↦ inl e
      | inr le ↦ inr (record { den_pos = h; not_negative = n; at_most = omega (arith, le) })
    ])

-- A value cut to the interval lies in it.
pub clamped-Within : (x : Rational) → 0 < x.denominator → Within 1 1 (clamped x).exact
unfolding clamped clamp
clamped-Within x h =
    let (positive, signed) = max_zero-not_negative x h in
    min_one-Within (max_rational x rational_zero) positive signed

in_order :
    (n : ℤ) (d : ℕ)
    → neg_part n ≡ 0
    → pos_part n ≤ d
    → le_rational rational_zero (record { numerator = n; denominator = d })
        && le_rational (record { numerator = n; denominator = d }) rational_one
      ≡ true
unfolding cmp ◌*ℤ◌
in_order (pos n) d h le = ground arith
in_order (negsuc n) d h le = absurd (omega (arith, h))

-- So `UnitInterval::new` takes it.
pub unit_interval-Within :
    (x : Rational) → Within 1 1 x → unit_interval x ≡ ok (record { exact = x })
unfolding unit_interval cmp
unit_interval-Within x h =
    rw (in_order x.numerator x.denominator h.not_negative (omega (arith, h.at_most))) refl
