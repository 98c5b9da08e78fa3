-- ===== src/Rating/Refinement.antt =====
-- `weighted_rating` of crates/openfrag-domain/src/rating.rs computes the weighted sum of rational
-- numbers.
use mathlib.Core.Path.{subst}
use openfrag.Common.{ℕ, ◌<◌, ◌≤◌, ◌≡◌, refl, arith, false, Result, ok, err, ◌>>=◌}
use openfrag.Common.Int.{pos, in_i64}
use openfrag.Exact.Gcd.{gcd}
use openfrag.Exact.Fraction.{ℚ, value, same_value, ◌+ℚ◌, ◌*ℚ◌}
use openfrag.Exact.Rational.{
  Rational, ExactError, new, i128_max, is_i128_min, checked_add, checked_mul, from_integer,
}
use openfrag.Exact.Rational.Canonical.{normalize_iff}
use openfrag.Exact.Rational.Refinement.{
  IsExact, Represents, value_of, fraction, checked_add-Represents, checked_mul-Represents,
}
use openfrag.Rating.Model.{
  ComponentVector, ComponentKind, direct_damage, frag_balance, opening_duels, trade_kills, utility,
  clutch_conversion, get_component,
}
use openfrag.Rating.Components.{weighted, weighted_rating}

-- The rational number `n / d`.
abbrev pub ratio : (n d : ℕ) → 0 < d → ℚ
ratio n d h = value (record { top = pos n; bottom = d; positive = h })

nonzero : (d : ℕ) → 0 < d → pos d ≡ pos 0 → ⊥
nonzero d h e = ground (arith, h, e)

not_min : (n : ℕ) → is_i128_min (pos n) ≡ false
unfolding is_i128_min
not_min n = ground arith

-- What `m` returns, if anything, is the number `q`.
abbrev Computes : ℚ → Result ExactError Rational → Type 0
Computes q m = (r : Rational) → m ≡ ok r → Represents r q

Computes-bind :
    (p q : ℚ) (m : Result ExactError Rational) (f : Rational → Result ExactError Rational)
    → Computes p m
    → ((x : Rational) → Represents x p → Computes q (f x))
    → Computes q (m >>= f)
Computes-bind p q (ok x) f h k = k x (h x refl)
Computes-bind p q (err x) f h k = λ r e. absurd (ground (arith, e))

new-Computes : (n d : ℕ) (h : 0 < d) → d ≤ 20 → Computes (ratio n d h) (new (pos n) (pos d))
unfolding new i128_max
new-Computes n d h small r e =
    let c =
      (normalize_iff (pos n) (pos d) r (nonzero d h) (not_min n) (omega (arith, small))).0 e in
    let exact : IsExact r = record { reduced = c.reduced; bounded = c.bounded } in
    (
      exact,
      same_value (fraction r exact) (record { top = pos n; bottom = d; positive = h }) c.value,
    )

mul-Computes :
    (x y : Rational) (p q : ℚ)
    → Represents x p
    → Represents y q
    → Computes (p *ℚ q) (checked_mul x y)
mul-Computes x y p q (hx, ex) (hy, ey) r e =
    subst (λ (s : ℚ). Represents r (s *ℚ q)) ex
      (subst (λ (s : ℚ). Represents r (value_of x hx *ℚ s)) ey
        ((checked_mul-Represents x y r hx hy).0 e))

add-Computes :
    (x y : Rational) (p q : ℚ)
    → Represents x p
    → Represents y q
    → Computes (p +ℚ q) (checked_add x y)
add-Computes x y p q (hx, ex) (hy, ey) r e =
    subst (λ (s : ℚ). Represents r (s +ℚ q)) ex
      (subst (λ (s : ℚ). Represents r (value_of x hx +ℚ s)) ey
        ((checked_add-Represents x y r hx hy).0 e))

-- The rating that the components have as rational numbers.
pub ideal_rating : (ComponentKind → ℚ) → ℚ
ideal_rating c =
    (c direct_damage *ℚ ratio 3 10 (omega arith)
      +ℚ c frag_balance *ℚ ratio 3 10 (omega arith)
      +ℚ c opening_duels *ℚ ratio 3 20 (omega arith)
      +ℚ c trade_kills *ℚ ratio 1 10 (omega arith)
      +ℚ c utility *ℚ ratio 1 10 (omega arith)
      +ℚ c clutch_conversion *ℚ ratio 1 20 (omega arith))
    *ℚ ratio 2 1 (omega arith)

two : Represents (from_integer (pos 2)) (ratio 2 1 (omega arith))
unfolding gcd in_i64
two = (record { reduced = record { positive = omega arith; coprime = refl }; bounded = refl }, refl)

module _ (v : ComponentVector)
    (h : (kind : ComponentKind) → IsExact (get_component v kind).exact) where
  component : ComponentKind → ℚ
  component kind = value_of (get_component v kind).exact (h kind)

  weighted-Computes :
      (kind : ComponentKind) (n d : ℕ) (positive : 0 < d)
      → d ≤ 20
      → Computes (component kind *ℚ ratio n d positive) (weighted (get_component v kind) n d)
  unfolding weighted component
  weighted-Computes kind n d positive small =
      Computes-bind (ratio n d positive) _ _ _ (new-Computes n d positive small) (λ w hw.
        mul-Computes (get_component v kind).exact w (component kind) (ratio n d positive)
          (h kind, refl) hw)

  -- One more weighted component.
  plus_weighted :
      (x : Rational) (p q : ℚ) (kind : ComponentKind) (n d : ℕ) (positive : 0 < d)
      (f : Rational → Result ExactError Rational)
      → d ≤ 20
      → Represents x p
      → ((s : Rational)
          → Represents s (p +ℚ component kind *ℚ ratio n d positive)
          → Computes q (f s))
      → Computes q (weighted (get_component v kind) n d >>= λ w. checked_add x w >>= f)
  plus_weighted x p q kind n d positive f small hx k =
      Computes-bind (component kind *ℚ ratio n d positive) q _ _
        (weighted-Computes kind n d positive small)
        (λ w hw.
          Computes-bind (p +ℚ component kind *ℚ ratio n d positive) q _ f
            (add-Computes x w p (component kind *ℚ ratio n d positive) hx hw) k)

  rating-Computes : Computes (ideal_rating component) (weighted_rating v)
  unfolding weighted_rating ideal_rating
  rating-Computes =
      Computes-bind _ _ _ _ (weighted-Computes direct_damage 3 10 (omega arith) (omega arith))
        (λ a ha. plus_weighted a _ _ frag_balance 3 10 (omega arith) _ (omega arith) ha (λ b hb.
          plus_weighted b _ _ opening_duels 3 20 (omega arith) _ (omega arith) hb (λ c hc.
            plus_weighted c _ _ trade_kills 1 10 (omega arith) _ (omega arith) hc (λ d hd.
              plus_weighted d _ _ utility 1 10 (omega arith) _ (omega arith) hd (λ e he.
                plus_weighted e _ _ clutch_conversion 1 20 (omega arith) _ (omega arith) he
                  (λ s hs. mul-Computes s (from_integer (pos 2)) _ _ hs two))))))

-- Where `weighted_rating` returns a number for components in lowest terms, that number is, in
-- lowest terms, twice the weighted sum of the components, as rational numbers: the checked
-- steps between lose nothing.
pub weighted_rating-Represents :
    (v : ComponentVector) (h : (kind : ComponentKind) → IsExact (get_component v kind).exact)
    (r : Rational)
    → weighted_rating v ≡ ok r
    → Represents r (ideal_rating (λ kind. value_of (get_component v kind).exact (h kind)))
unfolding component
weighted_rating-Represents v h r e = rating-Computes v h r e
