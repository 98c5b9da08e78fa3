-- ===== src/Common/Sets.antt =====
-- `BTreeSet` as a sorted list without repetitions, and stable sorting, over an order.
use Prim.Native.Nat.{Ordering}
use openfrag.Common.{List, [], ◌∷◌}

-- The order may use the level of its type.
module _ {ℓ} {A : Type ℓ} (cmp : A → A → Ordering) where
  -- `BTreeSet::insert`.
  unfoldable pub set_insert : A → List A → List A
  set_insert a [] = a ∷ []
  set_insert a (x ∷ xs) =
      let rest = set_insert a xs in
      elim (cmp a x) [ Ordering.lt ↦ a ∷ x ∷ xs | Ordering.eq ↦ x ∷ xs | Ordering.gt ↦ x ∷ rest ]

  -- `extend`.
  unfoldable pub set_union : List A → List A → List A
  set_union xs [] = xs
  set_union xs (y ∷ ys) = set_union (set_insert y xs) ys

  -- The lexicographic order of sets and lists.
  unfoldable pub list_cmp : List A → List A → Ordering
  list_cmp [] [] = Ordering.eq
  list_cmp [] (y ∷ ys) = Ordering.lt
  list_cmp (x ∷ xs) [] = Ordering.gt
  list_cmp (x ∷ xs) (y ∷ ys) =
      let rest = list_cmp xs ys in
      elim (cmp x y) [ Ordering.lt ↦ Ordering.lt | Ordering.eq ↦ rest | Ordering.gt ↦ Ordering.gt ]

  unfoldable pub sort_insert : A → List A → List A
  sort_insert a [] = a ∷ []
  sort_insert a (x ∷ xs) =
      let rest = sort_insert a xs in
      elim (cmp a x) [
        | Ordering.lt ↦ a ∷ x ∷ xs
        | Ordering.eq ↦ a ∷ x ∷ xs
        | Ordering.gt ↦ x ∷ rest
      ]

  -- A stable sort, as `sort_by` is.
  unfoldable pub sort_by : List A → List A
  sort_by [] = []
  sort_by (x ∷ xs) = sort_insert x (sort_by xs)

abbrev pub then_cmp : Ordering → Ordering → Ordering
then_cmp Ordering.lt o = Ordering.lt
then_cmp Ordering.eq o = o
then_cmp Ordering.gt o = Ordering.gt
