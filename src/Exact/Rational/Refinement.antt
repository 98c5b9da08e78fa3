-- ===== src/Exact/Rational/Refinement.antt =====
-- The checked operations compute with rational numbers, and fail only where the result does not
-- fit.
use native.Mathlib.Nat
use openfrag.Common.{ℕ, ◌+◌, ◌*◌, ◌<◌, ◌≤◌, ◌≡◌, ◌≢◌, ◌↔◌, sym, ap, ◌∙◌, true, false, arith, ok}
use openfrag.Common.Int.{ℤ, pos, pos_part, neg_part, ◌+ℤ◌, ◌*ℤ◌, nat_abs, in_i64}
use openfrag.Exact.Integers.{neg_part-*ℤ, pos-*ℤ-pos}
use openfrag.Exact.Fraction.{
  Fraction, ℚ, value, same_value, value-exact, common_positive, ◌+ℚ◌, ◌*ℚ◌, value-added,
  value-multiplied,
}
use openfrag.Exact.Rational.{Rational, i128_max, is_i128_min, normalize, checked_add, checked_mul}
use openfrag.Exact.Rational.Canonical.{IsReduced, fits, IsCanonical, normalize_iff}

-- A rational number of the code is well formed if it is in lowest terms and its parts are `i64`
-- values: what `normalize` makes is, and so are the constants.
pub record IsExact (r : Rational) : Type 0 where
  pub reduced : IsReduced r
  pub bounded : fits r ≡ true

abbrev pub fraction : (r : Rational) → IsExact r → Fraction
fraction r h = record { top = r.numerator; bottom = r.denominator; positive = h.reduced.positive }

abbrev pub value_of : (r : Rational) → IsExact r → ℚ
value_of r h = value (fraction r h)

-- `r` is the well-formed number of that value.
abbrev pub Represents : Rational → ℚ → Type 0
Represents r q = (h : IsExact r) × (value_of r h ≡ q)

fits-bounds :
    (r : Rational)
    → fits r ≡ true
    → (pos_part r.numerator ≤ 9_223_372_036_854_775_807)
      × (neg_part r.numerator ≤ 9_223_372_036_854_775_808)
      × (r.denominator ≤ 9_223_372_036_854_775_807)
unfolding in_i64
fits-bounds r h = ground arith

product_bound : (m n b c : ℕ) → m ≤ b → n ≤ c → m * n ≤ b * c
product_bound m n b c h k = Nat.mul-le-mul h k

dens-bound :
    (x y : Rational)
    → fits x ≡ true
    → fits y ≡ true
    → nat_abs (pos x.denominator *ℤ pos y.denominator) ≤ i128_max
unfolding i128_max
dens-bound x y hx hy =
    let (px, nx, dx) = fits-bounds x hx in
    let (py, ny, dy) = fits-bounds y hy in
    rw (pos-*ℤ-pos x.denominator y.denominator) (
      omega (
        arith,
        product_bound x.denominator y.denominator 9_223_372_036_854_775_807
            9_223_372_036_854_775_807 dx dy,
      ))

-- An integer whose negative part is below 2^127 is not the least `i128`.
not_min : (z : ℤ) → neg_part z ≤ i128_max → is_i128_min z ≡ false
unfolding is_i128_min i128_max
not_min z h = ground arith

dens-positive :
    (x y : Rational) → IsExact x → IsExact y → pos x.denominator *ℤ pos y.denominator ≢ pos 0
dens-positive x y hx hy e =
    let positive = Nat.mul-pos hx.reduced.positive hy.reduced.positive in
    let none : x.denominator * y.denominator ≡ 0 =
      ap nat_abs (sym (pos-*ℤ-pos x.denominator y.denominator) ∙ e) in
    omega (arith, positive, none)

-- What `normalize` makes of a fraction over the product of two denominators.
normalize-Represents :
    (x y : Rational) (n : ℤ) (d_pos : 0 < x.denominator * y.denominator) (r : Rational)
    → IsExact x
    → IsExact y
    → is_i128_min n ≡ false
    → (normalize n (pos x.denominator *ℤ pos y.denominator) ≡ ok r)
      ↔ Represents r
          (value (record { top = n; bottom = x.denominator * y.denominator; positive = d_pos }))
normalize-Represents x y n d_pos r hx hy m = (
  λ e.
      let c = made.0 e in
      let h : IsExact r = record { reduced = c.reduced; bounded = c.bounded } in
      (h, same_value (fraction r h) f (ap (λ (d : ℤ). r.numerator *ℤ d) (sym whole) ∙ c.value)),
  λ p. made.1 (record {
    reduced = p.0.reduced;
    bounded = p.0.bounded;
    value = ap (λ (d : ℤ). r.numerator *ℤ d) whole ∙ value-exact (fraction r p.0) f p.1;
  }),
)
  where
    f : Fraction
    f = record { top = n; bottom = x.denominator * y.denominator; positive = d_pos }

    whole : pos x.denominator *ℤ pos y.denominator ≡ pos (x.denominator * y.denominator)
    whole = pos-*ℤ-pos x.denominator y.denominator

    made :
        (normalize n (pos x.denominator *ℤ pos y.denominator) ≡ ok r)
        ↔ IsCanonical n (pos x.denominator *ℤ pos y.denominator) r
    made =
        normalize_iff n (pos x.denominator *ℤ pos y.denominator) r (dens-positive x y hx hy) m
          (dens-bound x y hx.bounded hy.bounded)

small :
    (m n k : ℕ)
    → m ≤ 9_223_372_036_854_775_808 * 9_223_372_036_854_775_807
    → n ≤ 9_223_372_036_854_775_808 * 9_223_372_036_854_775_807
    → k ≤ m + n
    → k ≤ i128_max
unfolding i128_max
small m n k h h' s = omega (arith, h, h', s)

sum-not_min :
    (x y : Rational)
    → fits x ≡ true
    → fits y ≡ true
    → is_i128_min (x.numerator *ℤ pos y.denominator +ℤ y.numerator *ℤ pos x.denominator) ≡ false
sum-not_min x y hx hy =
    let (px, nx, dx) = fits-bounds x hx in
    let (py, ny, dy) = fits-bounds y hy in
    not_min _ (
      small (neg_part x.numerator * y.denominator) (neg_part y.numerator * x.denominator) _
        (product_bound (neg_part x.numerator) y.denominator _ _ nx dy)
        (product_bound (neg_part y.numerator) x.denominator _ _ ny dx)
        (sum_part (x.numerator *ℤ pos y.denominator) (y.numerator *ℤ pos x.denominator) _ _
          (scaled_part x.numerator y.denominator) (scaled_part y.numerator x.denominator)))
  where
    scaled_part : (a : ℤ) (d : ℕ) → neg_part (a *ℤ pos d) ≡ neg_part a * d
    scaled_part a d = neg_part-*ℤ a (pos d) ∙ omega arith

    sum_part : (a b : ℤ) (m n : ℕ) → neg_part a ≡ m → neg_part b ≡ n → neg_part (a +ℤ b) ≤ m + n
    sum_part a b m n h k = ground arith

product-not_min :
    (x y : Rational)
    → fits x ≡ true
    → fits y ≡ true
    → is_i128_min (x.numerator *ℤ y.numerator) ≡ false
product-not_min x y hx hy =
    let (px, nx, dx) = fits-bounds x hx in
    let (py, ny, dy) = fits-bounds y hy in
    not_min _ (
      small (pos_part x.numerator * neg_part y.numerator)
        (neg_part x.numerator * pos_part y.numerator) _
        (omega (arith, product_bound (pos_part x.numerator) (neg_part y.numerator) _ _ px ny))
        (product_bound (neg_part x.numerator) (pos_part y.numerator) _ _ nx py)
        (omega (arith, neg_part-*ℤ x.numerator y.numerator)))

-- `checked_add` returns a number exactly if it is the well-formed one whose value is the sum of
-- the two values: the sum is exact, and it is an error only if its lowest terms do not fit.
pub checked_add-Represents :
    (x y r : Rational) (hx : IsExact x) (hy : IsExact y)
    → (checked_add x y ≡ ok r) ↔ Represents r (value_of x hx +ℚ value_of y hy)
unfolding checked_add
checked_add-Represents x y r hx hy = rw (← value-added (fraction x hx) (fraction y hy)) (
    normalize-Represents x y _ (common_positive (fraction x hx) (fraction y hy)) r hx hy
      (sum-not_min x y hx.bounded hy.bounded))

-- `checked_mul` returns a number exactly if it is the well-formed one whose value is the product
-- of the two values.
pub checked_mul-Represents :
    (x y r : Rational) (hx : IsExact x) (hy : IsExact y)
    → (checked_mul x y ≡ ok r) ↔ Represents r (value_of x hx *ℚ value_of y hy)
unfolding checked_mul
checked_mul-Represents x y r hx hy = rw (← value-multiplied (fraction x hx) (fraction y hy)) (
    normalize-Represents x y _ (common_positive (fraction x hx) (fraction y hy)) r hx hy
      (product-not_min x y hx.bounded hy.bounded))
