-- ===== src/Highlight/Merge/Fixpoint.antt =====
-- `merge_candidates` ends, and leaves no two candidates that could be merged.
use Prim.Native.Nat.{Ordering}
use mathlib.Core.Path.{subst}
use openfrag.Common.{
  ℕ, zero, suc, ◌≤◌, ◌≡◌, refl, ap, sym, ◌∙◌, inl, inr, false, none, some, List, [], ◌∷◌, ◌++◌,
  arith, length, length-append, All, Option-cases,
}
use openfrag.Common.Sets.{sort_by, sort_insert}
use openfrag.Highlight.Candidate.{HighlightCandidate, can_merge, merged, candidate_order}
use openfrag.Highlight.Merge.{take_right, take_pair, merge_rounds, merge_candidates, dedup}

module _ {ℓ} {A : Type ℓ} (cmp : A → A → Ordering) where
  length-sort_insert : (a : A) (xs : List A) → length (sort_insert cmp a xs) ≡ suc (length xs)
  unfolding sort_insert
  length-sort_insert a [] = refl
  length-sort_insert a (x ∷ xs) = ground (arith, length-sort_insert a xs)

  pub length-sort_by : (xs : List A) → length (sort_by cmp xs) ≡ length xs
  unfolding sort_by
  length-sort_by [] = refl
  length-sort_by (x ∷ xs) = length-sort_insert x (sort_by cmp xs) ∙ ap suc (length-sort_by xs)

-- No candidate merges with a later one.
abbrev pub IsSeparated : List HighlightCandidate → Type 0
IsSeparated [] = Unit
IsSeparated (c ∷ cs) = All (λ d. can_merge c d ≡ false) cs × IsSeparated cs

length-take_right :
    (left : HighlightCandidate) (cs : List HighlightCandidate)
    {found : HighlightCandidate × List HighlightCandidate}
    → take_right left cs ≡ some found
    → length cs ≡ suc (length found.1)
unfolding take_right
length-take_right left [] h = cc
length-take_right left (c ∷ cs) h = elim (Option-cases (take_right left cs)) [
  | inl nothing ↦ ground arith
  | inr (rest, found) ↦ ground (arith, length-take_right left cs found)
]

take_right-none :
    (left : HighlightCandidate) (cs : List HighlightCandidate)
    → take_right left cs ≡ none
    → All (λ d. can_merge left d ≡ false) cs
unfolding take_right
take_right-none left [] h = tt
take_right-none left (c ∷ cs) h = elim (Option-cases (take_right left cs)) [
  | inl nothing ↦ (ground arith, take_right-none left cs nothing)
  | inr (rest, found) ↦ absurd (ground arith)
]

length-take_pair :
    (cs : List HighlightCandidate)
    {found : (HighlightCandidate × HighlightCandidate) × List HighlightCandidate}
    → take_pair cs ≡ some found
    → length cs ≡ suc (suc (length found.1))
unfolding take_pair
length-take_pair [] h = cc
length-take_pair (c ∷ cs) h = elim (Option-cases (take_right c cs)) [
  | inl nothing ↦ elim (Option-cases (take_pair cs)) [
    | inl none_later ↦ ground arith
    | inr (rest, found) ↦ ground (arith, length-take_pair cs found)
  ]
  | inr (rest, found) ↦ ground (arith, length-take_right c cs found)
]

take_pair-none : (cs : List HighlightCandidate) → take_pair cs ≡ none → IsSeparated cs
unfolding take_pair
take_pair-none [] h = tt
take_pair-none (c ∷ cs) h = elim (Option-cases (take_right c cs)) [
  | inl nothing ↦ elim (Option-cases (take_pair cs)) [
    | inl none_later ↦ (take_right-none c cs nothing, take_pair-none cs none_later)
    | inr (rest, found) ↦ absurd (ground arith)
  ]
  | inr (rest, found) ↦ absurd (ground arith)
]

abbrev pub next_round :
    (HighlightCandidate × HighlightCandidate) × List HighlightCandidate → List HighlightCandidate
next_round (pair, others) = sort_by candidate_order (others ++ merged pair.0 pair.1 ∷ [])

pub merge_rounds-done :
    (fuel : ℕ) (cs : List HighlightCandidate)
    → take_pair cs ≡ none
    → merge_rounds (suc fuel) cs ≡ cs
unfolding merge_rounds
merge_rounds-done fuel cs h = rw (h, merge_rounds)

pub merge_rounds-next :
    (fuel : ℕ) (cs : List HighlightCandidate)
    {found : (HighlightCandidate × HighlightCandidate) × List HighlightCandidate}
    → take_pair cs ≡ some found
    → merge_rounds (suc fuel) cs ≡ merge_rounds fuel (next_round found)
unfolding merge_rounds
merge_rounds-next fuel cs h = rw (h, merge_rounds)

merge_rounds-IsSeparated :
    (fuel : ℕ) (cs : List HighlightCandidate)
    → length cs ≤ fuel
    → IsSeparated (merge_rounds fuel cs)
merge_rounds-IsSeparated zero [] h = unfold merge_rounds in tt
merge_rounds-IsSeparated zero (c ∷ cs) h = absurd (omega arith)
merge_rounds-IsSeparated (suc fuel) cs h = elim (Option-cases (take_pair cs)) [
  | inl done ↦ subst IsSeparated (sym (merge_rounds-done fuel cs done)) (take_pair-none cs done)
  | inr (((pair, others), found)) ↦ subst IsSeparated (sym (merge_rounds-next fuel cs found)) (
      merge_rounds-IsSeparated fuel _ (
        omega (
          arith,
          length-sort_by {0} candidate_order (others ++ merged pair.0 pair.1 ∷ []),
          length-append {0} others (merged pair.0 pair.1 ∷ []),
          length-take_pair cs found,
        )))
]

-- Merging goes on until no candidate of the result can be merged with a later one: the loop ends
-- by its own test, not for want of rounds.
pub merge_candidates-IsSeparated :
    (cs : List HighlightCandidate) → IsSeparated (merge_candidates cs)
unfolding merge_candidates
merge_candidates-IsSeparated cs =
    merge_rounds-IsSeparated (length (dedup (sort_by candidate_order cs))) _ (omega arith)
