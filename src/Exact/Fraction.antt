-- ===== src/Exact/Fraction.antt =====
-- The rational numbers that exact arithmetic stands for: an integer over a positive number, where
-- two of these are the same if they agree when multiplied crosswise.
use native.Mathlib.Nat
use mathlib.Core.Quot.Quotient
use mathlib.Core.Quot.{Quotient, Quotient-set, Setoid}
use openfrag.Common.{ℕ, ◌*◌, ◌<◌, ◌≡◌, refl, sym, ap, ◌∙◌}
use openfrag.Common.Int.{ℤ, pos, ◌+ℤ◌, ◌*ℤ◌}
use openfrag.Exact.Integers.{
  ℤ_set, +ℤ-*ℤ, *ℤ_comm, *ℤ_right_comm, *ℤ_interchange, pos-*ℤ-pos, *ℤ-pos_cancel,
}

pub record Fraction : Type 0 where
  pub top : ℤ
  pub bottom : ℕ
  pub positive : 0 < bottom

abbrev pub SameValue : Fraction → Fraction → Type 0
SameValue f g = f.top *ℤ pos g.bottom ≡ g.top *ℤ pos f.bottom

pub SameValue-trans : (f g h : Fraction) → SameValue f g → SameValue g h → SameValue f h
SameValue-trans f g h left right =
    *ℤ-pos_cancel (f.top *ℤ pos h.bottom) (h.top *ℤ pos f.bottom) g.bottom g.positive (
      *ℤ_right_comm f.top (pos h.bottom) (pos g.bottom)
      ∙ ap (λ (n : ℤ). n *ℤ pos h.bottom) left
      ∙ *ℤ_right_comm g.top (pos f.bottom) (pos h.bottom)
      ∙ ap (λ (n : ℤ). n *ℤ pos f.bottom) right
      ∙ *ℤ_right_comm h.top (pos g.bottom) (pos f.bottom))

abbrev pub by_value : Setoid {0, 0} Fraction
by_value = record {
  r = SameValue;
  iseqv = record { trans = SameValue-trans; symm = λ f g e. sym e; refl = λ f. refl };
}

-- A rational number is what the fractions of the same value have in common.
abbrev pub ℚ : Type 0
ℚ = Quotient by_value

abbrev pub value : Fraction → ℚ
value f = Quotient.mk by_value f

pub same_value : (f g : Fraction) → SameValue f g → value f ≡ value g
same_value f g = Quotient.sound by_value

pub value-exact : (f g : Fraction) → value f ≡ value g → SameValue f g
value-exact f g = Quotient.exact by_value (λ a b. hlevel ℤ_set)

-- A term of a sum, over another denominator of the same value.
term_congr :
    (a a' : ℤ) (b b' c c' : ℕ)
    → a *ℤ pos b' ≡ a' *ℤ pos b
    → a *ℤ pos c *ℤ pos (b' * c') ≡ a' *ℤ pos c' *ℤ pos (b * c)
term_congr a a' b b' c c' p =
    ap (λ (z : ℤ). a *ℤ pos c *ℤ z) (sym (pos-*ℤ-pos b' c'))
    ∙ *ℤ_interchange a (pos c) (pos b') (pos c')
    ∙ ap (λ (z : ℤ). z *ℤ (pos c *ℤ pos c')) p
    ∙ ap (λ (z : ℤ). a' *ℤ pos b *ℤ z) (*ℤ_comm (pos c) (pos c'))
    ∙ *ℤ_interchange a' (pos b) (pos c') (pos c)
    ∙ ap (λ (z : ℤ). a' *ℤ pos c' *ℤ z) (pos-*ℤ-pos b c)

module _ (f g : Fraction) where
  pub common_positive : 0 < f.bottom * g.bottom
  common_positive = Nat.mul-pos f.positive g.positive

  -- The fractions that the checked operations reduce.
  abbrev pub added : Fraction
  added = record {
    top = f.top *ℤ pos g.bottom +ℤ g.top *ℤ pos f.bottom;
    bottom = f.bottom * g.bottom;
    positive = common_positive;
  }

  abbrev pub multiplied : Fraction
  multiplied = record {
    top = f.top *ℤ g.top;
    bottom = f.bottom * g.bottom;
    positive = common_positive;
  }

-- Neither depends on the fractions that stand for the two numbers.
module _ (f g f' g' : Fraction) (left : SameValue f f') (right : SameValue g g') where
  added_congr : SameValue (added f g) (added f' g')
  added_congr =
      +ℤ-*ℤ (f.top *ℤ pos g.bottom) (g.top *ℤ pos f.bottom) (pos (f'.bottom * g'.bottom))
      ∙ ap (λ (z : ℤ). z +ℤ g.top *ℤ pos f.bottom *ℤ pos (f'.bottom * g'.bottom))
          (term_congr f.top f'.top f.bottom f'.bottom g.bottom g'.bottom left)
      ∙ ap
          (λ (n : ℕ).
            f'.top *ℤ pos g'.bottom *ℤ pos (f.bottom * g.bottom) +ℤ g.top *ℤ pos f.bottom *ℤ pos n)
          (Nat.mul_comm f'.bottom g'.bottom)
      ∙ ap (λ (z : ℤ). f'.top *ℤ pos g'.bottom *ℤ pos (f.bottom * g.bottom) +ℤ z)
          (term_congr g.top g'.top g.bottom g'.bottom f.bottom f'.bottom right)
      ∙ ap
          (λ (n : ℕ).
            f'.top *ℤ pos g'.bottom *ℤ pos (f.bottom * g.bottom)
            +ℤ g'.top *ℤ pos f'.bottom *ℤ pos n)
          (Nat.mul_comm g.bottom f.bottom)
      ∙ sym (+ℤ-*ℤ (f'.top *ℤ pos g'.bottom) (g'.top *ℤ pos f'.bottom) (pos (f.bottom * g.bottom)))

  multiplied_congr : SameValue (multiplied f g) (multiplied f' g')
  multiplied_congr =
      ap (λ (z : ℤ). f.top *ℤ g.top *ℤ z) (sym (pos-*ℤ-pos f'.bottom g'.bottom))
      ∙ *ℤ_interchange f.top g.top (pos f'.bottom) (pos g'.bottom)
      ∙ ap (λ (z : ℤ). z *ℤ (g.top *ℤ pos g'.bottom)) left
      ∙ ap (λ (z : ℤ). f'.top *ℤ pos f.bottom *ℤ z) right
      ∙ *ℤ_interchange f'.top (pos f.bottom) g'.top (pos g.bottom)
      ∙ ap (λ (z : ℤ). f'.top *ℤ g'.top *ℤ z) (pos-*ℤ-pos f.bottom g.bottom)

-- An operation on fractions that keeps to their values, on the rational numbers.
module _ (op : Fraction → Fraction → Fraction)
    (congr : (f g f' g' : Fraction)
      → SameValue f f'
      → SameValue g g'
      → SameValue (op f g) (op f' g')) where
  lifted : ℚ → ℚ → ℚ
  lifted =
      Quotient.lift₂ by_value by_value (Quotient-set by_value) (λ f g. value (op f g))
        (λ f g f' g' p q. same_value (op f g) (op f' g') (congr f g f' g' p q))

  lifted-value : (f g : Fraction) → lifted (value f) (value g) ≡ value (op f g)
  unfolding lifted
  lifted-value f g = Quotient.lift₂-mk by_value by_value (Quotient-set by_value) _ _ f g

infixl 70 ◌*ℚ◌
infixl 65 ◌+ℚ◌
pub ◌*ℚ◌ : ℚ → ℚ → ℚ
p *ℚ q = lifted multiplied multiplied_congr p q

pub ◌+ℚ◌ : ℚ → ℚ → ℚ
p +ℚ q = lifted added added_congr p q

pub value-multiplied : (f g : Fraction) → value (multiplied f g) ≡ value f *ℚ value g
unfolding ◌*ℚ◌
value-multiplied f g = sym (lifted-value multiplied multiplied_congr f g)

pub value-added : (f g : Fraction) → value (added f g) ≡ value f +ℚ value g
unfolding ◌+ℚ◌
value-added f g = sym (lifted-value added added_congr f g)
