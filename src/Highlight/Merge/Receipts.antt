-- ===== src/Highlight/Merge/Receipts.antt =====
-- `merge_candidates` loses no receipt, invents none, and moves none to another round.
use openfrag.Common.{
  ℕ, zero, suc, ◌≡◌, refl, ap, sym, ◌∙◌, inl, inr, Bool, true, false, ◌&&◌, ◌||◌, some, List, [],
  ◌∷◌, ◌++◌, arith, length, any, Option-cases,
}
use openfrag.Common.Text.{Text, text_eq, text_cmp, text_cmp-eq, text_eq→eq}
use openfrag.Common.Sets.{sort_by, sort_insert, set_insert, set_union}
use openfrag.Highlight.Candidate.{HighlightCandidate, can_merge, merged, candidate_order}
use openfrag.Highlight.Merge.{
  list_eq, candidate_eq, take_right, take_pair, merge_rounds, merge_candidates, dedup, dedup_cons,
}
use openfrag.Highlight.Merge.Fixpoint.{next_round, merge_rounds-done, merge_rounds-next}

unfoldable pub contains : Text → List Text → Bool
contains id ids = any (text_eq id) ids

-- Candidate `c` belongs to that round of that session and has the receipt.
unfoldable pub holds : Text → Text → Text → HighlightCandidate → Bool
holds session round id c =
    text_eq session c.capture_session_id && text_eq round c.round_id && contains id c.receipt_ids

unfoldable pub covers : Text → Text → Text → List HighlightCandidate → Bool
covers session round id [] = false
covers session round id (c ∷ cs) = holds session round id c || covers session round id cs

contains-set_insert :
    (id a : Text) (s : List Text)
    → contains id (set_insert text_cmp a s) ≡ (text_eq id a || contains id s)
unfolding contains set_insert
contains-set_insert id a [] = refl
contains-set_insert id a (x ∷ xs) = ground (arith, text_cmp-eq a x, contains-set_insert id a xs)

contains-set_union :
    (id : Text) (s t : List Text)
    → contains id (set_union text_cmp s t) ≡ (contains id s || contains id t)
unfolding set_union
contains-set_union id s [] = unfold contains in ground arith
contains-set_union id s (y ∷ ys) =
    contains-set_union id (set_insert text_cmp y s) ys ∙ go (contains-set_insert id y s)
  where
    go :
        contains id (set_insert text_cmp y s) ≡ (text_eq id y || contains id s)
        → (contains id (set_insert text_cmp y s) || contains id ys)
          ≡ (contains id s || contains id (y ∷ ys))
    go e = unfold contains in rw e (ground arith)

list_eq→eq : (xs ys : List Text) → list_eq text_eq xs ys ≡ true → xs ≡ ys
unfolding list_eq
list_eq→eq [] [] h = refl
list_eq→eq [] (y ∷ ys) h = cc
list_eq→eq (x ∷ xs) [] h = cc
list_eq→eq (x ∷ xs) (y ∷ ys) h = ground (arith, text_eq→eq x y, list_eq→eq xs ys)

module _ (session round id : Text) where
  abbrev has : HighlightCandidate → Bool
  has = holds session round id

  abbrev cover : List HighlightCandidate → Bool
  cover = covers session round id

  has-candidate_eq : (c d : HighlightCandidate) → candidate_eq c d ≡ true → has c ≡ has d
  unfolding candidate_eq holds
  has-candidate_eq c d h = ground (
    arith,
    text_eq→eq c.capture_session_id d.capture_session_id,
    text_eq→eq c.round_id d.round_id,
    list_eq→eq c.receipt_ids d.receipt_ids,
  )

  has-merged :
      (c d : HighlightCandidate) → can_merge c d ≡ true → has (merged c d) ≡ (has c || has d)
  unfolding can_merge merged holds
  has-merged c d h = ground (
    arith,
    text_eq→eq c.capture_session_id d.capture_session_id,
    text_eq→eq c.round_id d.round_id,
    contains-set_union id c.receipt_ids d.receipt_ids,
  )

  cover-sort_insert :
      (c : HighlightCandidate) (cs : List HighlightCandidate)
      → cover (sort_insert candidate_order c cs) ≡ (has c || cover cs)
  unfolding sort_insert covers
  cover-sort_insert c [] = refl
  cover-sort_insert c (d ∷ ds) = ground (arith, cover-sort_insert c ds)

  cover-sort_by : (cs : List HighlightCandidate) → cover (sort_by candidate_order cs) ≡ cover cs
  unfolding sort_by covers
  cover-sort_by [] = refl
  cover-sort_by (c ∷ cs) =
      ground (arith, cover-sort_insert c (sort_by candidate_order cs), cover-sort_by cs)

  cover-dedup_cons :
      (c : HighlightCandidate) (cs : List HighlightCandidate)
      → cover (dedup_cons c cs) ≡ (has c || cover cs)
  unfolding covers
  cover-dedup_cons c [] = refl
  cover-dedup_cons c (d ∷ ds) = ground (arith, has-candidate_eq c d)

  cover-dedup : (cs : List HighlightCandidate) → cover (dedup cs) ≡ cover cs
  unfolding dedup covers
  cover-dedup [] = refl
  cover-dedup (c ∷ cs) = ground (arith, cover-dedup_cons c (dedup cs), cover-dedup cs)

  cover-append : (xs ys : List HighlightCandidate) → cover (xs ++ ys) ≡ (cover xs || cover ys)
  unfolding covers
  cover-append [] ys = refl
  cover-append (x ∷ xs) ys = ground (arith, cover-append xs ys)

  take_right-cover :
      (left : HighlightCandidate) (cs : List HighlightCandidate) {right : HighlightCandidate}
      {others : List HighlightCandidate}
      → take_right left cs ≡ some (right, others)
      → (can_merge left right ≡ true) × (cover cs ≡ (has right || cover others))
  unfolding take_right covers
  take_right-cover left [] h = cc
  take_right-cover left (c ∷ cs) h = elim (Option-cases (take_right left cs)) [
    | inl nothing ↦ ground arith
    | inr ((r, o), found) ↦ ground (arith, take_right-cover left cs found)
  ]

  take_pair-cover :
      (cs : List HighlightCandidate) {left right : HighlightCandidate}
      {others : List HighlightCandidate}
      → take_pair cs ≡ some ((left, right), others)
      → (can_merge left right ≡ true) × (cover cs ≡ (has left || (has right || cover others)))
  unfolding take_pair covers
  take_pair-cover [] h = cc
  take_pair-cover (c ∷ cs) h = elim (Option-cases (take_right c cs)) [
    | inl nothing ↦ elim (Option-cases (take_pair cs)) [
      | inl none_later ↦ absurd (ground arith)
      | inr (((l, r), o), found) ↦ ground (arith, take_pair-cover cs found)
    ]
    | inr ((r, o), found) ↦ ground (arith, take_right-cover c cs found)
  ]

  cover-next_round :
      (left right : HighlightCandidate) (others : List HighlightCandidate)
      → can_merge left right ≡ true
      → cover (next_round ((left, right), others)) ≡ (has left || (has right || cover others))
  unfolding covers
  cover-next_round left right others h = ground (
    arith,
    cover-sort_by (others ++ merged left right ∷ []),
    cover-append others (merged left right ∷ []),
    has-merged left right h,
  )

  merge_rounds-cover :
      (fuel : ℕ) (cs : List HighlightCandidate) → cover (merge_rounds fuel cs) ≡ cover cs
  merge_rounds-cover zero cs = unfold merge_rounds in refl
  merge_rounds-cover (suc fuel) cs = elim (Option-cases (take_pair cs)) [
    | inl done ↦ ap cover (merge_rounds-done fuel cs done)
    | inr (((left, right), others), found) ↦
        let (ok_merge, was) = take_pair-cover cs found in
        ap cover (merge_rounds-next fuel cs found)
        ∙ merge_rounds-cover fuel (next_round ((left, right), others))
        ∙ cover-next_round left right others ok_merge
        ∙ sym was
  ]

  -- A round of a session has a receipt among the merged candidates exactly if it has it among the
  -- given ones: merging loses no receipt, invents none and moves none to another round.
  pub merge_candidates-covers :
      (cs : List HighlightCandidate)
      → covers session round id (merge_candidates cs) ≡ covers session round id cs
  unfolding merge_candidates
  merge_candidates-covers cs =
      merge_rounds-cover (length (dedup (sort_by candidate_order cs))) _
      ∙ cover-dedup (sort_by candidate_order cs)
      ∙ cover-sort_by cs
