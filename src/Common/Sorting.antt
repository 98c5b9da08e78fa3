-- ===== src/Common/Sorting.antt =====
-- What sorting keeps of a list, and the order that it brings.
use Prim.Native.Nat.{ℕ, ◌+◌, Ordering}
use mathlib.Core.Path.{◌≡◌, refl}
use mathlib.Core.Logic.{◌≢◌}
use mathlib.Core.Bool.{Bool}
use mathlib.Core.List.{List, [], ◌∷◌, ◌++◌, IsChain}
use native.Mathlib.Omega.{arith}
use openfrag.Common.Tests.{if◌then◌else◌}
use openfrag.Common.Lists.{All}
use openfrag.Common.Sets.{sort_insert, sort_by}
use openfrag.Common.Text.{Text, text_eq, text_cmp}

-- How many of a list pass a test.
abbrev pub tally {ℓ} : {A : Type ℓ} → (A → Bool) → List A → ℕ
tally p [] = 0
tally p (x ∷ xs) = (if p x then 1 else 0) + tally p xs

abbrev pub occurrences : Text → List Text → ℕ
occurrences id = tally (text_eq id)

pub tally-append {ℓ} :
    {A : Type ℓ} (p : A → Bool) (xs ys : List A) → tally p (xs ++ ys) ≡ tally p xs + tally p ys
tally-append p [] ys = omega arith
tally-append p (x ∷ xs) ys = omega (arith, tally-append p xs ys)

module _ {ℓ} {A : Type ℓ} (cmp : A → A → Ordering) where
  sort_insert-All {κ} :
      (P : A → Type κ) (a : A) (xs : List A) → P a → All P xs → All P (sort_insert cmp a xs)
  unfolding sort_insert
  sort_insert-All P a [] h hs = (h, tt)
  sort_insert-All P a (x ∷ xs) h (hx, hs) = go (cmp a x) (sort_insert-All P a xs h hs)
    where
      go :
          (o : Ordering)
          → All P (sort_insert cmp a xs)
          → All P (elim o [
            | Ordering.lt ↦ a ∷ x ∷ xs
            | Ordering.eq ↦ a ∷ x ∷ xs
            | Ordering.gt ↦ x ∷ sort_insert cmp a xs
          ])
      go Ordering.lt r = (h, (hx, hs))
      go Ordering.eq r = (h, (hx, hs))
      go Ordering.gt r = (hx, r)

  pub sort_by-All {κ} : (P : A → Type κ) (xs : List A) → All P xs → All P (sort_by cmp xs)
  unfolding sort_by
  sort_by-All P [] h = tt
  sort_by-All P (x ∷ xs) (h, hs) = sort_insert-All P x (sort_by cmp xs) h (sort_by-All P xs hs)

  tally-sort_insert :
      (p : A → Bool) (a : A) (xs : List A) → tally p (sort_insert cmp a xs) ≡ tally p (a ∷ xs)
  unfolding sort_insert
  tally-sort_insert p a [] = refl
  tally-sort_insert p a (x ∷ xs) = go (cmp a x) (tally-sort_insert p a xs)
    where
      go :
          (o : Ordering)
          → tally p (sort_insert cmp a xs) ≡ tally p (a ∷ xs)
          → tally p (elim o [
            | Ordering.lt ↦ a ∷ x ∷ xs
            | Ordering.eq ↦ a ∷ x ∷ xs
            | Ordering.gt ↦ x ∷ sort_insert cmp a xs
          ])
            ≡ tally p (a ∷ x ∷ xs)
      go Ordering.lt r = refl
      go Ordering.eq r = refl
      go Ordering.gt r = omega (arith, r)

  pub tally-sort_by : (p : A → Bool) (xs : List A) → tally p (sort_by cmp xs) ≡ tally p xs
  unfolding sort_by
  tally-sort_by p [] = refl
  tally-sort_by p (x ∷ xs) =
      omega (arith, tally-sort_insert p x (sort_by cmp xs), tally-sort_by p xs)

-- The elements that follow one, each in the relation to the next.
abbrev IsLinked {ℓ κ} : {A : Type ℓ} → (A → A → Type κ) → A → List A → Type κ
IsLinked R x [] = Unit
IsLinked R x (y ∷ ys) = R x y × IsLinked R y ys

abbrev AreLinked {ℓ κ} : {A : Type ℓ} → (A → A → Type κ) → List A → Type κ
AreLinked R [] = Unit
AreLinked R (x ∷ xs) = IsLinked R x xs

IsLinked-IsChain {ℓ κ} :
    {A : Type ℓ} (R : A → A → Type κ) (x : A) (xs : List A) → IsLinked R x xs → IsChain R (x ∷ xs)
IsLinked-IsChain R x [] h = IsChain.singleton x
IsLinked-IsChain R x (y ∷ ys) (h, hs) = IsChain.cons-cons h (IsLinked-IsChain R y ys hs)

AreLinked-IsChain {ℓ κ} :
    {A : Type ℓ} (R : A → A → Type κ) (xs : List A) → AreLinked R xs → IsChain R xs
AreLinked-IsChain R [] h = IsChain.nil
AreLinked-IsChain R (x ∷ xs) h = IsLinked-IsChain R x xs h

module _ {ℓ κ} {A : Type ℓ} (cmp : A → A → Ordering) (R : A → A → Type κ)
    (below : (a b : A) → cmp a b ≢ Ordering.gt → R a b)
    (above : (a b : A) → cmp a b ≡ Ordering.gt → R b a) where
  sort_insert-IsLinked :
      (x a : A) (xs : List A) → R x a → IsLinked R x xs → IsLinked R x (sort_insert cmp a xs)
  unfolding sort_insert
  sort_insert-IsLinked x a [] h hs = (h, tt)
  sort_insert-IsLinked x a (y ∷ ys) h (hy, hs) =
      go (cmp a y) refl (λ r. sort_insert-IsLinked y a ys r hs)
    where
      go :
          (o : Ordering)
          → cmp a y ≡ o
          → (R y a → IsLinked R y (sort_insert cmp a ys))
          → IsLinked R x (elim o [
            | Ordering.lt ↦ a ∷ y ∷ ys
            | Ordering.eq ↦ a ∷ y ∷ ys
            | Ordering.gt ↦ y ∷ sort_insert cmp a ys
          ])
      go Ordering.lt e rest = (h, (below a y (λ g. cc), hs))
      go Ordering.eq e rest = (h, (below a y (λ g. cc), hs))
      go Ordering.gt e rest = (hy, rest (above a y e))

  sort_insert-AreLinked :
      (a : A) (xs : List A) → AreLinked R xs → AreLinked R (sort_insert cmp a xs)
  unfolding sort_insert
  sort_insert-AreLinked a [] h = tt
  sort_insert-AreLinked a (x ∷ xs) h = go (cmp a x) refl
    where
      go :
          (o : Ordering)
          → cmp a x ≡ o
          → AreLinked R (elim o [
            | Ordering.lt ↦ a ∷ x ∷ xs
            | Ordering.eq ↦ a ∷ x ∷ xs
            | Ordering.gt ↦ x ∷ sort_insert cmp a xs
          ])
      go Ordering.lt e = (below a x (λ g. cc), h)
      go Ordering.eq e = (below a x (λ g. cc), h)
      go Ordering.gt e = sort_insert-IsLinked x a xs (above a x e) h

  sort_by-AreLinked : (xs : List A) → AreLinked R (sort_by cmp xs)
  unfolding sort_by
  sort_by-AreLinked [] = tt
  sort_by-AreLinked (x ∷ xs) = sort_insert-AreLinked x (sort_by cmp xs) (sort_by-AreLinked xs)

  pub sort_by-IsChain : (xs : List A) → IsChain R (sort_by cmp xs)
  sort_by-IsChain xs = AreLinked-IsChain R (sort_by cmp xs) (sort_by-AreLinked xs)

pub text_cmp-gt : (a b : Text) → text_cmp a b ≡ Ordering.gt → text_cmp b a ≡ Ordering.lt
unfolding text_cmp
text_cmp-gt [] [] h = cc
text_cmp-gt [] (b ∷ bs) h = cc
text_cmp-gt (a ∷ r) [] h = refl
text_cmp-gt (a ∷ r) (b ∷ bs) h = ground (arith, text_cmp-gt r bs)
