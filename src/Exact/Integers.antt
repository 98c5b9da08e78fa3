-- ===== src/Exact/Integers.antt =====
-- The laws of integers that fractions need, by their positive and negative parts.
use native.Mathlib.Nat
use openfrag.Common.{ℕ, zero, suc, ◌+◌, ◌*◌, ◌/◌, ◌<◌, ◌≡◌, refl, ap, ◌∙◌, arith}
use openfrag.Common.Int.{
  ℤ, pos, negsuc, pos_part, neg_part, sub_ℕ, ◌+ℤ◌, ◌*ℤ◌, neg_ℤ, nat_abs, tdiv,
}
use Prim.Native.Nat.{◌∣◌}

-- Integers are equal when their parts differ by the same.
pub ext : (a b : ℤ) → pos_part a + neg_part b ≡ pos_part b + neg_part a → a ≡ b
ext a b h = ground arith

pub sub_ℕ_parts : (m n : ℕ) → pos_part (sub_ℕ m n) + n ≡ neg_part (sub_ℕ m n) + m
sub_ℕ_parts m n = ground arith

pub +ℤ_parts :
    (a b : ℤ)
    → pos_part (a +ℤ b) + (neg_part a + neg_part b) ≡ neg_part (a +ℤ b) + (pos_part a + pos_part b)
+ℤ_parts a b = sub_ℕ_parts (pos_part a + pos_part b) (neg_part a + neg_part b)

pub *ℤ_parts :
    (a b : ℤ)
    → pos_part (a *ℤ b) + (pos_part a * neg_part b + neg_part a * pos_part b)
      ≡ neg_part (a *ℤ b) + (pos_part a * pos_part b + neg_part a * neg_part b)
unfolding ◌*ℤ◌
*ℤ_parts a b =
    sub_ℕ_parts (pos_part a * pos_part b + neg_part a * neg_part b)
      (pos_part a * neg_part b + neg_part a * pos_part b)

-- Exactly the parts of a product: one of them is zero.
pub pos_part-*ℤ : (a b : ℤ) → pos_part (a *ℤ b) ≡ pos_part a * pos_part b + neg_part a * neg_part b
unfolding ◌*ℤ◌
pos_part-*ℤ (pos m) (pos n) = ground arith
pos_part-*ℤ (pos m) (negsuc n) = ground arith
pos_part-*ℤ (negsuc m) (pos n) = ground arith
pos_part-*ℤ (negsuc m) (negsuc n) = ground arith

pub neg_part-*ℤ : (a b : ℤ) → neg_part (a *ℤ b) ≡ pos_part a * neg_part b + neg_part a * pos_part b
unfolding ◌*ℤ◌
neg_part-*ℤ (pos m) (pos n) = ground arith
neg_part-*ℤ (pos m) (negsuc n) = ground arith
neg_part-*ℤ (negsuc m) (pos n) = ground arith
neg_part-*ℤ (negsuc m) (negsuc n) = ground arith

ruleset parts = (pos_part-*ℤ, neg_part-*ℤ)

pub *ℤ_comm : (a b : ℤ) → a *ℤ b ≡ b *ℤ a
*ℤ_comm a b = ext _ _ (simp parts (omega arith))

pub *ℤ_assoc : (a b c : ℤ) → a *ℤ b *ℤ c ≡ a *ℤ (b *ℤ c)
*ℤ_assoc a b c = ext _ _ (simp parts (omega arith))

pub *ℤ_right_comm : (a b c : ℤ) → a *ℤ b *ℤ c ≡ a *ℤ c *ℤ b
*ℤ_right_comm a b c = ext _ _ (simp parts (omega arith))

pub pos-*ℤ-pos : (m n : ℕ) → pos m *ℤ pos n ≡ pos (m * n)
pos-*ℤ-pos m n = ext _ _ (simp parts (omega arith))

-- A positive factor can be cancelled.
pub *ℤ-pos_cancel : (a b : ℤ) (n : ℕ) → 0 < n → a *ℤ pos n ≡ b *ℤ pos n → a ≡ b
*ℤ-pos_cancel a b n h e = ext a b (Nat.eq_of_mul-eq-mul_right n h _ _ scaled)
  where
    p : pos_part a * n ≡ pos_part b * n
    p = omega (arith, pos_part-*ℤ a (pos n), pos_part-*ℤ b (pos n), ap (λ (z : ℤ). pos_part z) e)

    q : neg_part a * n ≡ neg_part b * n
    q = omega (arith, neg_part-*ℤ a (pos n), neg_part-*ℤ b (pos n), ap (λ (z : ℤ). neg_part z) e)

    scaled : (pos_part a + neg_part b) * n ≡ (pos_part b + neg_part a) * n
    scaled = omega (arith, p, q)

pub nat_abs-*ℤ : (a b : ℤ) → nat_abs (a *ℤ b) ≡ nat_abs a * nat_abs b
nat_abs-*ℤ a b =
    magnitude (a *ℤ b)
    ∙ (rw (pos_part-*ℤ a b, neg_part-*ℤ a b, magnitude a, magnitude b) (omega arith))
  where
    magnitude : (z : ℤ) → nat_abs z ≡ pos_part z + neg_part z
    magnitude (pos n) = omega arith
    magnitude (negsuc n) = omega arith

pub nat_abs-tdiv : (a : ℤ) (d : ℕ) → nat_abs (tdiv a d) ≡ nat_abs a / d
unfolding tdiv
nat_abs-tdiv (pos n) d = refl
nat_abs-tdiv (negsuc n) d = ground arith

-- Division by a divisor is exact.
pub tdiv-*ℤ : (a : ℤ) (d : ℕ) → d ∣ nat_abs a → tdiv a d *ℤ pos d ≡ a
unfolding tdiv
tdiv-*ℤ (pos n) d h = pos-*ℤ-pos (n / d) d ∙ ap pos (Nat.div-mul_cancel d h)
tdiv-*ℤ (negsuc n) d h = ext _ _ (simp parts (back (suc n / d) (Nat.div-mul_cancel d h)))
  where
    back :
        (q : ℕ)
        → q * d ≡ suc n
        → pos_part (sub_ℕ 0 q) * d + neg_part (sub_ℕ 0 q) * 0 + suc n
          ≡ 0 + (pos_part (sub_ℕ 0 q) * 0 + neg_part (sub_ℕ 0 q) * d)
    back zero e = absurd (omega arith)
    back (suc q) e = ground (arith, e)

pos_part-neg_ℤ : (a : ℤ) → pos_part (neg_ℤ a) ≡ neg_part a
unfolding neg_ℤ
pos_part-neg_ℤ a = ground arith

neg_part-neg_ℤ : (a : ℤ) → neg_part (neg_ℤ a) ≡ pos_part a
unfolding neg_ℤ
neg_part-neg_ℤ a = ground arith

ruleset signs = (pos_part-*ℤ, neg_part-*ℤ, pos_part-neg_ℤ, neg_part-neg_ℤ)

pub neg_neg : (a : ℤ) → neg_ℤ (neg_ℤ a) ≡ a
neg_neg a = ext _ _ (simp signs (omega arith))

pub *ℤ-negsuc : (a : ℤ) (d : ℕ) → a *ℤ negsuc d ≡ neg_ℤ (a *ℤ pos (suc d))
*ℤ-negsuc a d = ext _ _ (simp signs (omega arith))

pub neg_ℤ-*ℤ_left : (a b : ℤ) → neg_ℤ a *ℤ b ≡ neg_ℤ (a *ℤ b)
neg_ℤ-*ℤ_left a b = ext _ _ (simp signs (omega arith))

pub ℤ_set : IsSet ℤ
ℤ_set = hlevel

pub *ℤ_interchange : (a b c d : ℤ) → (a *ℤ b) *ℤ (c *ℤ d) ≡ (a *ℤ c) *ℤ (b *ℤ d)
*ℤ_interchange a b c d = ext _ _ (simp parts (omega arith))

pub +ℤ-*ℤ : (a b c : ℤ) → (a +ℤ b) *ℤ c ≡ a *ℤ c +ℤ b *ℤ c
+ℤ-*ℤ a b c = ext _ _ (
    simp parts (
      omega (
        arith,
        simp parts at (+ℤ_parts (a *ℤ c) (b *ℤ c)),
        ap (λ (t : ℕ). t * pos_part c) (+ℤ_parts a b),
        ap (λ (t : ℕ). t * neg_part c) (+ℤ_parts a b),
      )))
