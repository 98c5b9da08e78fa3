-- ===== src/Exact/Rational/Bounds.antt =====
-- Numbers between zero and a bound, through the checked operations, none of which fails for
-- another reason than an overflow.
use native.Mathlib.Nat
use openfrag.Common.{
  ℕ, zero, suc, ◌+◌, ◌*◌, ◌<◌, ◌≤◌, ◌≡◌, refl, sym, ap, ◌∙◌, Bool, true, false, arith,
  if◌then◌else◌, Result, ok, err, ◌>>=◌,
}
use openfrag.Common.Int.{ℤ, pos, negsuc, pos_part, neg_part, ◌+ℤ◌, ◌*ℤ◌}
use openfrag.Exact.Integers.{pos_part-*ℤ, neg_part-*ℤ, pos-*ℤ-pos}
use openfrag.Exact.Rational.{
  Rational, ExactError, overflow, fit, reduce, normalize, checked_add, checked_mul,
}
use openfrag.Exact.Rational.Canonical.{HasValue, lowest, lowest-IsReduced, lowest-HasValue}

-- The result satisfies `P`, or there is none because a number did not fit.
abbrev pub Gives : {A : Type 0} → (A → Type 0) → Result ExactError A → Type 0
Gives P (ok a) = P a
Gives P (err e) = e ≡ overflow

pub Gives-bind :
    {A B : Type 0} (P : A → Type 0) (Q : B → Type 0) (m : Result ExactError A)
    (f : A → Result ExactError B)
    → Gives P m
    → ((a : A) → P a → Gives Q (f a))
    → Gives Q (m >>= f)
Gives-bind P Q (ok a) f h k = k a h
Gives-bind P Q (err e) f h k = h

-- From zero to `a / b`.
pub record Within (a b : ℕ) (r : Rational) : Type 0 where
  pub den_pos : 0 < r.denominator
  pub not_negative : neg_part r.numerator ≡ 0
  pub at_most : pos_part r.numerator * b ≤ a * r.denominator

-- A positive denominator, and the value of `n / d`.
pub record IsRatio (n : ℤ) (d : ℕ) (r : Rational) : Type 0 where
  pub positive : 0 < r.denominator
  pub value : HasValue r n (pos d)

Gives-guard :
    (P : Rational → Type 0) (large fitting : Bool) (r : Rational)
    → P r
    → Gives P (if large then err overflow else (if fitting then ok r else err overflow))
Gives-guard P true fitting r h = refl
Gives-guard P false true r h = h
Gives-guard P false false r h = refl

reduce-Gives : (n : ℤ) (d : ℕ) → 0 < d → Gives (IsRatio n d) (reduce n d)
unfolding reduce fit lowest
reduce-Gives n d h =
    Gives-guard (IsRatio n d) _ _ (lowest n d)
      (record { positive = (lowest-IsReduced n d h).positive; value = lowest-HasValue n d h })

pub normalize-Gives : (n : ℤ) (d : ℕ) → 0 < d → Gives (IsRatio n d) (normalize n (pos d))
unfolding normalize
normalize-Gives n zero h = absurd (omega (arith, h))
normalize-Gives n (suc d) h = reduce-Gives n (suc d) h

pub ratio_parts :
    (m d : ℕ) (r : Rational)
    → IsRatio (pos m) d r
    → (pos_part r.numerator * d ≡ m * r.denominator) × (neg_part r.numerator * d ≡ 0)
unfolding ◌*ℤ◌
ratio_parts m d r v = (
  omega
      (arith, pos_part-*ℤ r.numerator (pos d), ap pos_part (v.value ∙ pos-*ℤ-pos m r.denominator)),
  omega
      (arith, neg_part-*ℤ r.numerator (pos d), ap neg_part (v.value ∙ pos-*ℤ-pos m r.denominator)),
)

-- The value of a fraction from zero to `a / b`.
pub ratio-Within :
    (m d a b : ℕ) (r : Rational) → 0 < d → m * b ≤ a * d → IsRatio (pos m) d r → Within a b r
ratio-Within m d a b r h le v =
    let (ps, ns) = ratio_parts m d r v in
    record {
      den_pos = v.positive;
      not_negative = Nat.eq_of_mul-eq-mul_right d h _ _ (ns ∙ sym (Nat.zero-mul d));
      at_most =
          Nat.le_of_mul-le-mul_right
            (omega (arith, ap (λ (t : ℕ). t * b) ps, Nat.mul-le-mul le (Nat.le_refl r.denominator)))
            h;
    }

pub Gives-map :
    {A : Type 0} (P Q : A → Type 0) (m : Result ExactError A)
    → Gives P m
    → ((a : A) → P a → Q a)
    → Gives Q m
Gives-map P Q (ok a) h k = k a h
Gives-map P Q (err e) h k = h

pub normalize-Within :
    (z w : ℤ) (m d a b : ℕ)
    → z ≡ pos m
    → w ≡ pos d
    → 0 < d
    → m * b ≤ a * d
    → Gives (Within a b) (normalize z w)
normalize-Within z w m d a b hz hw h le =
    rw (hz, hw)
      (Gives-map (IsRatio (pos m) d) (Within a b) _ (normalize-Gives (pos m) d h)
        (λ r v. ratio-Within m d a b r h le v))

pub is_pos : (z : ℤ) → neg_part z ≡ 0 → z ≡ pos (pos_part z)
is_pos (pos n) h = refl
is_pos (negsuc n) h = absurd (omega (arith, h))

product_pos : (x y : ℤ) (m n : ℕ) → x ≡ pos m → y ≡ pos n → x *ℤ y ≡ pos (m * n)
product_pos x y m n hx hy = rw (hx, hy) (pos-*ℤ-pos m n)

pub checked_mul-Within :
    (x y : Rational) (a b c e : ℕ)
    → Within a b x
    → Within c e y
    → Gives (Within (a * c) (b * e)) (checked_mul x y)
unfolding checked_mul
checked_mul-Within x y a b c e hx hy =
    normalize-Within _ _ (pos_part x.numerator * pos_part y.numerator)
      (x.denominator * y.denominator) _ _
      (product_pos _ _ _ _ (is_pos _ hx.not_negative) (is_pos _ hy.not_negative)) (pos-*ℤ-pos _ _)
      (Nat.mul-pos hx.den_pos hy.den_pos) (omega (arith, Nat.mul-le-mul hx.at_most hy.at_most))

pub sum_pos : (x y : ℤ) (m n : ℕ) → x ≡ pos m → y ≡ pos n → x +ℤ y ≡ pos (m + n)
sum_pos x y m n hx hy = rw (hx, hy) (ground arith)

pub checked_add-Within :
    (x y : Rational) (a c b : ℕ)
    → Within a b x
    → Within c b y
    → Gives (Within (a + c) b) (checked_add x y)
unfolding checked_add
checked_add-Within x y a c b hx hy =
    normalize-Within _ _
      (pos_part x.numerator * y.denominator + pos_part y.numerator * x.denominator)
      (x.denominator * y.denominator) _ _
      (sum_pos _ _ _ _ (product_pos _ _ _ _ (is_pos _ hx.not_negative) refl)
        (product_pos _ _ _ _ (is_pos _ hy.not_negative) refl))
      (pos-*ℤ-pos _ _) (Nat.mul-pos hx.den_pos hy.den_pos)
      (omega (
        arith,
        Nat.mul-le-mul hx.at_most (Nat.le_refl y.denominator),
        Nat.mul-le-mul hy.at_most (Nat.le_refl x.denominator),
      ))

pub checked_add-positive :
    (x y : Rational)
    → 0 < x.denominator
    → 0 < y.denominator
    → Gives (λ r. 0 < r.denominator) (checked_add x y)
unfolding checked_add
checked_add-positive x y hx hy = rw (pos-*ℤ-pos x.denominator y.denominator) (
    Gives-map (IsRatio _ (x.denominator * y.denominator)) (λ r. 0 < r.denominator) _
      (normalize-Gives _ (x.denominator * y.denominator) (Nat.mul-pos hx hy)) (λ r v. v.positive))

-- A larger bound.
pub Within-weaken :
    (a b c d : ℕ) (x : Rational) → 0 < b → a * d ≤ c * b → Within a b x → Within c d x
Within-weaken a b c d x h le w = record {
  den_pos = w.den_pos;
  not_negative = w.not_negative;
  at_most =
      Nat.le_of_mul-le-mul_right
        (omega (arith, Nat.mul-le-mul_right d w.at_most, Nat.mul-le-mul_right x.denominator le)) h;
}

pub checked_mul-IsRatio :
    (x y : Rational)
    → 0 < x.denominator
    → 0 < y.denominator
    → neg_part x.numerator ≡ 0
    → neg_part y.numerator ≡ 0
    → Gives
        (IsRatio
          (pos (pos_part x.numerator * pos_part y.numerator))
          (x.denominator * y.denominator))
        (checked_mul x y)
unfolding checked_mul
checked_mul-IsRatio x y hx hy sx sy =
    rw
      (
        pos-*ℤ-pos x.denominator y.denominator,
        product_pos x.numerator y.numerator _ _ (is_pos _ sx) (is_pos _ sy),
      )
      (normalize-Gives _ _ (Nat.mul-pos hx hy))
