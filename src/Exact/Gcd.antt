-- ===== src/Exact/Gcd.antt =====
-- `gcd` of crates/openfrag-domain/src/exact.rs, and what its loop computes.
use native.Mathlib.Nat
use openfrag.Common.{
  ℕ, zero, suc, ◌+◌, ◌*◌, ◌/◌, ◌<◌, ◌≤◌, ◌≡◌, refl, sym, ◌∙◌, ◌==◌, if◌then◌else◌, arith,
}
use mathlib.Core.Path.{subst}
use Prim.Native.Nat.{◌%◌, ◌∣◌}

-- The loop. Its second variable gets smaller in each round, so one more round than its value is
-- enough.
unfoldable pub gcd_loop : ℕ → ℕ → ℕ → ℕ
gcd_loop zero left right = left
gcd_loop (suc fuel) left zero = left
gcd_loop (suc fuel) left (suc r) = gcd_loop fuel (suc r) (left % suc r)

unfoldable pub gcd : ℕ → ℕ → ℕ
unfolding gcd_loop
gcd left right = let last = gcd_loop (right + 1) left right in if last == 0 then 1 else last

gcd_loop-dvd :
    (fuel left right : ℕ)
    → right < fuel
    → (gcd_loop fuel left right ∣ left) × (gcd_loop fuel left right ∣ right)
unfolding gcd_loop
gcd_loop-dvd zero left right h = absurd (omega arith)
gcd_loop-dvd (suc fuel) left zero h = (Nat.dvd_refl left, Nat.dvd-zero left)
gcd_loop-dvd (suc fuel) left (suc r) h =
    let smaller : left % suc r < suc r = omega arith in
    let (of_right, of_rest) = gcd_loop-dvd fuel (suc r) (left % suc r) (omega (arith, smaller)) in
    ((Nat.dvd-mod_iff _ of_right).0 of_rest, of_right)

-- A number that divides both multiples divides that of the remainder.
dvd-remainder : (k left r c : ℕ) → k ∣ left * c → k ∣ suc r * c → k ∣ (left % suc r) * c
dvd-remainder k left r c h g =
    (Nat.dvd-add_iff_right k (Nat.dvd-mul_right_of_dvd k g (left / suc r))).1
      (subst (λ (n : ℕ). k ∣ n) whole h)
  where
    whole : left * c ≡ suc r * c * (left / suc r) + (left % suc r) * c
    whole =
        let e = Nat.div-add-mod left (suc r) in
        let product : left * c ≡ (suc r * (left / suc r) + left % suc r) * c = rw e refl in
        product ∙ omega arith

dvd-gcd_loop :
    (k c fuel left right : ℕ)
    → right < fuel
    → k ∣ left * c
    → k ∣ right * c
    → k ∣ gcd_loop fuel left right * c
unfolding gcd_loop
dvd-gcd_loop k c zero left right b h g = absurd (omega arith)
dvd-gcd_loop k c (suc fuel) left zero b h g = h
dvd-gcd_loop k c (suc fuel) left (suc r) b h g =
    let smaller : left % suc r < suc r = omega arith in
    dvd-gcd_loop k c fuel (suc r) (left % suc r) (omega (arith, smaller)) g
      (dvd-remainder k left r c h g)

gcd-gcd_loop : (a b : ℕ) → 0 < b → gcd a b ≡ gcd_loop (b + 1) a b
unfolding gcd
gcd-gcd_loop a b h =
    let positive = Nat.pos_of_dvd_of_pos (gcd_loop-dvd (b + 1) a b (omega arith)).1 h in
    ground (arith, positive)

-- The result divides both numbers, and is a multiple of whatever divides both.
pub gcd-dvd : (a b : ℕ) → 0 < b → (gcd a b ∣ a) × (gcd a b ∣ b)
gcd-dvd a b h = rw (gcd-gcd_loop a b h) (gcd_loop-dvd (b + 1) a b (omega arith))

pub dvd-gcd-* : (k c a b : ℕ) → 0 < b → k ∣ a * c → k ∣ b * c → k ∣ gcd a b * c
dvd-gcd-* k c a b h g = rw (gcd-gcd_loop a b h) (dvd-gcd_loop k c (b + 1) a b (omega arith) g)

pub gcd-pos : (a b : ℕ) → 0 < b → 0 < gcd a b
gcd-pos a b h = Nat.pos_of_dvd_of_pos (gcd-dvd a b h).1 h

pub div-pos : (g b : ℕ) → 0 < b → g ∣ b → 0 < b / g
div-pos g b h d = ground (arith, Nat.div-mul_cancel g d)

-- What is left of two numbers when they are divided by their greatest common divisor has none but 1.
pub gcd-reduced : (a b : ℕ) → 0 < b → gcd (a / gcd a b) (b / gcd a b) ≡ 1
gcd-reduced a b h =
    let g = gcd a b in
    let (ga, gb) = gcd-dvd a b h in
    let b' = div-pos g b h gb in
    let d = gcd (a / g) (b / g) in
    let (da, db) = gcd-dvd (a / g) (b / g) b' in
    let divides_a : d * g ∣ a * 1 =
      subst (λ (n : ℕ). d * g ∣ n) (Nat.div-mul_cancel g ga ∙ sym (Nat.mul-one a))
        (Nat.mul-dvd-mul_right d da g) in
    let divides_b : d * g ∣ b * 1 =
      subst (λ (n : ℕ). d * g ∣ n) (Nat.div-mul_cancel g gb ∙ sym (Nat.mul-one b))
        (Nat.mul-dvd-mul_right d db g) in
    let whole : d * g ∣ g * 1 = dvd-gcd-* (d * g) 1 a b h divides_a divides_b in
    let short : d * g ≤ g * 1 = Nat.le_of_dvd (ground (arith, gcd-pos a b h)) whole in
    let positive = gcd-pos (a / g) (b / g) b' in at_most_one d g (gcd-pos a b h) positive short
  where
    at_most_one : (d g : ℕ) → 0 < g → 0 < d → d * g ≤ g * 1 → d ≡ 1
    at_most_one d g hg hd s =
        let t : d ≤ 1 =
          Nat.le_of_mul-le-mul_right (subst (λ (n : ℕ). d * g ≤ n) (Nat.mul_comm g 1) s) hg in
        omega (arith, t, hd)
