-- ===== src/Common/Text.antt =====
-- Texts as their UTF-8 bytes, as Rust compares, orders, hashes and prints them.
use Prim.Native.Nat.{compare, Ordering}
use Prim.Native.Char.{code}
use Prim.Native.String.{String}
use openfrag.Common.Tests.{ltb, ◌==◌, if◌then◌else◌}
use Prim.Native.Nat.{ℕ, zero, suc, ◌+◌, ◌/◌, ◌%◌}
use mathlib.Core.Path.{◌≡◌, refl}
use mathlib.Core.Logic.{◌↔◌}
use mathlib.Core.Bool.{Bool, true, false, ◌&&◌}
use mathlib.Core.List.{List, [], ◌∷◌}
use native.Mathlib.Omega.{arith}

abbrev pub Text : Type 0
Text = List ℕ

-- The bytes of a literal, all of whose characters are ASCII.
abbrev pub ascii : String → Text
ascii String.[] = []
ascii (String.◌∷◌ c s) = code c ∷ ascii s

unfoldable pub text_eq : Text → Text → Bool
text_eq [] [] = true
text_eq [] (b ∷ bs) = false
text_eq (a ∷ as') [] = false
text_eq (a ∷ as') (b ∷ bs) = (a == b) && text_eq as' bs

pub text_eq_refl : (a : Text) → text_eq a a ≡ true
unfolding text_eq
text_eq_refl [] = refl
text_eq_refl (a ∷ r) = ground (arith, text_eq_refl r)

pub text_eq→eq : (a b : Text) → text_eq a b ≡ true → a ≡ b
unfolding text_eq
text_eq→eq [] [] h = refl
text_eq→eq [] (b ∷ bs) h = cc
text_eq→eq (a ∷ r) [] h = cc
text_eq→eq (a ∷ r) (b ∷ bs) h = ground (arith, text_eq→eq r bs)

pub text_eq_iff : (a b : Text) → (text_eq a b ≡ true) ↔ (a ≡ b)
text_eq_iff a b = (text_eq→eq a b, λ e. rw e (text_eq_refl b))

-- The order of `str`: byte by byte, a proper prefix first.
unfoldable pub text_cmp : Text → Text → Ordering
text_cmp [] [] = Ordering.eq
text_cmp [] (b ∷ bs) = Ordering.lt
text_cmp (a ∷ r) [] = Ordering.gt
text_cmp (a ∷ r) (b ∷ bs) =
    let rest = text_cmp r bs in
    elim (compare a b) [
      | Ordering.lt ↦ Ordering.lt
      | Ordering.eq ↦ rest
      | Ordering.gt ↦ Ordering.gt
    ]

pub text_cmp-eq : (a b : Text) → text_cmp a b ≡ Ordering.eq → a ≡ b
unfolding text_cmp
text_cmp-eq [] [] h = refl
text_cmp-eq [] (b ∷ bs) h = cc
text_cmp-eq (a ∷ r) [] h = cc
text_cmp-eq (a ∷ r) (b ∷ bs) h = ground (arith, text_cmp-eq r bs)

-- Decimal digits, as `format!("{n}")` prints a number; the fuel `n + 1` is enough, since a
-- division by ten makes a positive number smaller.
decimal_from : ℕ → ℕ → Text → Text
decimal_from zero n tail = tail
decimal_from (suc fuel) n tail =
    let digit = b'0' + n % 10 in
    let more = decimal_from fuel (n / 10) (digit ∷ tail) in if ltb n 10 then digit ∷ tail else more

unfoldable pub decimal : ℕ → Text
unfolding decimal_from
decimal n = decimal_from (n + 1) n []

decimal_runs : decimal 1_024 ≡ ascii "1024"
unfolding decimal
decimal_runs = refl
