-- ===== src/Exact/Rational/Canonical.antt =====
-- `normalize` gives the one fraction in lowest terms that has the value and fits.
use native.Mathlib.Nat
use mathlib.Core.Path.{subst}
use Prim.Native.Nat.{◌∣◌}
use openfrag.Common.{
  ℕ, zero, suc, ◌*◌, ◌/◌, ◌<◌, ◌≤◌, ◌≡◌, ◌≢◌, ◌↔◌, refl, sym, ap, ◌∙◌, inl, inr, Bool, true, false,
  ◌&&◌, arith, if◌then◌else◌, Bool-cases, ok, err,
}
use openfrag.Common.Int.{ℤ, pos, negsuc, ◌*ℤ◌, neg_ℤ, nat_abs, tdiv, in_i64}
use openfrag.Exact.Gcd.{gcd, gcd-dvd, div-pos, dvd-gcd-*, gcd-reduced}
use openfrag.Exact.Integers.{
  *ℤ_assoc, *ℤ_right_comm, pos-*ℤ-pos, *ℤ-pos_cancel, nat_abs-*ℤ, nat_abs-tdiv, tdiv-*ℤ, neg_neg,
  *ℤ-negsuc, neg_ℤ-*ℤ_left,
}
use openfrag.Exact.Rational.{Rational, overflow, i128_max, is_i128_min, fit, reduce, normalize}

-- In lowest terms, over a positive denominator.
pub record IsReduced (r : Rational) : Type 0 where
  pub positive : 0 < r.denominator
  pub coprime : gcd (nat_abs r.numerator) r.denominator ≡ 1

-- Both parts are `i64` values.
abbrev pub fits : Rational → Bool
fits r = in_i64 r.numerator && in_i64 (pos r.denominator)

-- The fraction `n / d` has the value of `r`.
abbrev pub HasValue : Rational → ℤ → ℤ → Type 0
HasValue r n d = r.numerator *ℤ d ≡ n *ℤ pos r.denominator

-- The denominators of two reduced fractions of the same value divide each other.
den-dvd : (a b : ℤ) (c d : ℕ) → 0 < c → gcd (nat_abs a) c ≡ 1 → a *ℤ pos d ≡ b *ℤ pos c → c ∣ d
den-dvd a b c d positive coprime same =
    subst (λ (n : ℕ). c ∣ n) (ap (λ (g : ℕ). g * d) coprime ∙ Nat.one-mul d)
      (dvd-gcd-* c d (nat_abs a) c positive
        (subst (λ (n : ℕ). c ∣ n) (sym magnitudes) (Nat.dvd-mul_left c (nat_abs b)))
        (Nat.dvd-mul_right c d))
  where
    magnitudes : nat_abs a * d ≡ nat_abs b * c
    magnitudes = sym (nat_abs-*ℤ a (pos d)) ∙ ap nat_abs same ∙ nat_abs-*ℤ b (pos c)

-- So there is only one reduced fraction of a value.
IsReduced-unique :
    (r s : Rational)
    → IsReduced r
    → IsReduced s
    → r.numerator *ℤ pos s.denominator ≡ s.numerator *ℤ pos r.denominator
    → r ≡ s
IsReduced-unique r s hr hs same =
    let dens : r.denominator ≡ s.denominator =
      Nat.dvd_antisymm
        (den-dvd r.numerator s.numerator r.denominator s.denominator hr.positive hr.coprime same)
        (den-dvd s.numerator r.numerator s.denominator r.denominator hs.positive hs.coprime
          (sym same)) in
    let nums : r.numerator ≡ s.numerator =
      *ℤ-pos_cancel r.numerator s.numerator r.denominator hr.positive (
        subst (λ (d : ℕ). r.numerator *ℤ pos d ≡ s.numerator *ℤ pos r.denominator) (sym dens)
          same) in
    cc

-- Two fractions that have the value of `n / d` have the same value.
HasValue-same :
    (r s : Rational) (n : ℤ) (d : ℕ)
    → 0 < d
    → HasValue r n (pos d)
    → HasValue s n (pos d)
    → r.numerator *ℤ pos s.denominator ≡ s.numerator *ℤ pos r.denominator
HasValue-same r s n d positive hr hs = *ℤ-pos_cancel _ _ d positive (
    *ℤ_right_comm r.numerator (pos s.denominator) (pos d)
    ∙ ap (λ (z : ℤ). z *ℤ pos s.denominator) hr
    ∙ *ℤ_right_comm n (pos r.denominator) (pos s.denominator)
    ∙ ap (λ (z : ℤ). z *ℤ pos r.denominator) (sym hs)
    ∙ *ℤ_right_comm s.numerator (pos d) (pos r.denominator))

-- What `reduce` divides out.
unfoldable pub lowest : ℤ → ℕ → Rational
lowest n d = record { numerator = tdiv n (gcd (nat_abs n) d); denominator = d / gcd (nat_abs n) d }

pub lowest-IsReduced : (n : ℤ) (d : ℕ) → 0 < d → IsReduced (lowest n d)
unfolding lowest
lowest-IsReduced n d h = record {
  positive = div-pos (gcd (nat_abs n) d) d h (gcd-dvd (nat_abs n) d h).1;
  coprime =
      ap (λ (m : ℕ). gcd m (d / gcd (nat_abs n) d)) (nat_abs-tdiv n (gcd (nat_abs n) d))
      ∙ gcd-reduced (nat_abs n) d h;
}

pub lowest-HasValue : (n : ℤ) (d : ℕ) → 0 < d → HasValue (lowest n d) n (pos d)
unfolding lowest
lowest-HasValue n d h =
    let g = gcd (nat_abs n) d in
    let (gn, gd) = gcd-dvd (nat_abs n) d h in
    let split : pos d ≡ pos g *ℤ pos (d / g) =
      ap pos (sym (Nat.mul-div_cancel' g gd)) ∙ sym (pos-*ℤ-pos g (d / g)) in
    ap (λ (z : ℤ). tdiv n g *ℤ z) split
    ∙ sym (*ℤ_assoc (tdiv n g) (pos g) (pos (d / g)))
    ∙ ap (λ (z : ℤ). z *ℤ pos (d / g)) (tdiv-*ℤ n g gn)

-- `reduce` returns the reduced fraction, if it fits.
reduce-lowest :
    (n : ℤ) (d : ℕ)
    → 0 < d
    → d ≤ i128_max
    → reduce n d ≡ (if fits (lowest n d) then ok (lowest n d) else err overflow)
unfolding reduce lowest fit
reduce-lowest n d h b =
    let small = Nat.le_of_dvd h (gcd-dvd (nat_abs n) d h).1 in ground (arith, small)

-- What `normalize` promises of a result.
pub record IsCanonical (n d : ℤ) (r : Rational) : Type 0 where
  pub reduced : IsReduced r
  pub bounded : fits r ≡ true
  pub value : HasValue r n d

reduce_iff :
    (n : ℤ) (d : ℕ) (r : Rational)
    → 0 < d
    → d ≤ i128_max
    → (reduce n d ≡ ok r) ↔ IsCanonical n (pos d) r
reduce_iff n d r h b = (there, back)
  where
    computed : reduce n d ≡ (if fits (lowest n d) then ok (lowest n d) else err overflow)
    computed = reduce-lowest n d h b

    there : reduce n d ≡ ok r → IsCanonical n (pos d) r
    there e = elim (Bool-cases (fits (lowest n d))) [
      | inl small ↦
          let same : lowest n d ≡ r = ground (arith, computed) in
          subst (IsCanonical n (pos d)) same (record {
            reduced = lowest-IsReduced n d h;
            bounded = small;
            value = lowest-HasValue n d h;
          })
      | inr large ↦ absurd (ground (arith, computed))
    ]

    back : IsCanonical n (pos d) r → reduce n d ≡ ok r
    back c =
        let same : lowest n d ≡ r =
          IsReduced-unique (lowest n d) r (lowest-IsReduced n d h) c.reduced
            (HasValue-same (lowest n d) r n d h (lowest-HasValue n d h) c.value) in
        let small : fits (lowest n d) ≡ true = ap fits same ∙ c.bounded in
        computed ∙ rw small (ap ok same)

HasValue-neg :
    (r : Rational) (n : ℤ) (d : ℕ) → HasValue r (neg_ℤ n) (pos (suc d)) ↔ HasValue r n (negsuc d)
HasValue-neg r n d = (λ h. there h, λ h. back h)
  where
    there : HasValue r (neg_ℤ n) (pos (suc d)) → HasValue r n (negsuc d)
    there h =
        *ℤ-negsuc r.numerator d
        ∙ ap neg_ℤ (h ∙ neg_ℤ-*ℤ_left n (pos r.denominator))
        ∙ neg_neg (n *ℤ pos r.denominator)

    back : HasValue r n (negsuc d) → HasValue r (neg_ℤ n) (pos (suc d))
    back h =
        sym (neg_neg (r.numerator *ℤ pos (suc d)))
        ∙ ap neg_ℤ (sym (*ℤ-negsuc r.numerator d) ∙ h)
        ∙ sym (neg_ℤ-*ℤ_left n (pos r.denominator))

not_min : (d : ℕ) → suc d ≤ i128_max → is_i128_min (negsuc d) ≡ false
unfolding is_i128_min i128_max
not_min d h = ground arith

-- For a fraction of `i128` values of which neither part is the least `i128` and the denominator is
-- not zero, `normalize` returns a rational number exactly if that is in lowest terms, over a
-- positive denominator, has the value of the fraction, and both its parts are `i64` values. So
-- there is at most one result, and it is returned wherever it exists.
pub normalize_iff :
    (n d : ℤ) (r : Rational)
    → d ≢ pos 0
    → is_i128_min n ≡ false
    → nat_abs d ≤ i128_max
    → (normalize n d ≡ ok r) ↔ IsCanonical n d r
unfolding normalize
normalize_iff n (pos zero) r h m b = absurd (h refl)
normalize_iff n (pos (suc d)) r h m b = reduce_iff n (suc d) r (omega arith) b
normalize_iff n (negsuc d) r h m b =
    let signed = HasValue-neg r n d in
    let whole = reduce_iff (neg_ℤ n) (suc d) r (omega arith) b in
    rw (m, not_min d b)
      (
        λ e.
            let c = whole.0 e in
            record { reduced = c.reduced; bounded = c.bounded; value = signed.0 c.value },
        λ c.
            whole.1 (record { reduced = c.reduced; bounded = c.bounded; value = signed.1 c.value }),
      )
