-- ===== src/Highlight/Merge.antt =====
-- `merge_candidates` of crates/openfrag-domain/src/highlight.rs.
pub mod Fixpoint
pub mod Receipts
use Prim.Native.Nat.{Ordering, compare}
use openfrag.Common.{
  ℕ, zero, suc, Bool, true, false, ◌&&◌, Option, none, some, List, [], ◌∷◌, ◌++◌, ◌==◌,
  if◌then◌else◌, length,
}
use openfrag.Common.Text.{Text, text_eq}
use openfrag.Common.Sets.{sort_by, sort_insert}
use openfrag.Highlight.Candidate.{
  HighlightCandidate, TimeRange, CandidateTrigger, trigger_rank, can_merge, merged, candidate_order,
}

unfoldable pub list_eq {ℓ} : {A : Type ℓ} → (A → A → Bool) → List A → List A → Bool
list_eq eq [] [] = true
list_eq eq [] (y ∷ ys) = false
list_eq eq (x ∷ xs) [] = false
list_eq eq (x ∷ xs) (y ∷ ys) = eq x y && list_eq eq xs ys

-- The derived `PartialEq`.
unfoldable pub candidate_eq : HighlightCandidate → HighlightCandidate → Bool
unfolding list_eq
candidate_eq a b =
    text_eq a.capture_session_id b.capture_session_id
    && text_eq a.round_id b.round_id
    && text_eq a.rule_version b.rule_version
    && a.range.start_ms == b.range.start_ms
    && a.range.end_ms == b.range.end_ms
    && list_eq (λ x y. x == y) a.contributor_starts_ms b.contributor_starts_ms
    && list_eq (λ x y. trigger_rank x == trigger_rank y) a.triggers b.triggers
    && list_eq text_eq a.receipt_ids b.receipt_ids

-- `dedup`: of equal neighbours the first stays.
abbrev pub dedup_cons : HighlightCandidate → List HighlightCandidate → List HighlightCandidate
dedup_cons c [] = c ∷ []
dedup_cons c (d ∷ ds) = if candidate_eq c d then c ∷ ds else c ∷ d ∷ ds

unfoldable pub dedup : List HighlightCandidate → List HighlightCandidate
dedup [] = []
dedup (c ∷ cs) = dedup_cons c (dedup cs)

abbrev pub keep_before :
    {A : Type 0}
    → HighlightCandidate
    → Option (A × List HighlightCandidate)
    → Option (A × List HighlightCandidate)
keep_before c none = none
keep_before c (some (a, cs)) = some (a, c ∷ cs)

-- The first candidate to the right that merges with `left`, and the others.
unfoldable pub take_right :
    HighlightCandidate
    → List HighlightCandidate
    → Option (HighlightCandidate × List HighlightCandidate)
take_right left [] = none
take_right left (c ∷ cs) =
    let later = keep_before c (take_right left cs) in
    if can_merge left c then some (c, cs) else later

abbrev pub with_left :
    HighlightCandidate
    → Option (HighlightCandidate × List HighlightCandidate)
    → Option ((HighlightCandidate × HighlightCandidate) × List HighlightCandidate)
    → Option ((HighlightCandidate × HighlightCandidate) × List HighlightCandidate)
with_left left (some (right, others)) later = some ((left, right), others)
with_left left none later = later

-- The pair that the two loops find, and the candidates that are left when both are removed.
unfoldable pub take_pair :
    List HighlightCandidate
    → Option ((HighlightCandidate × HighlightCandidate) × List HighlightCandidate)
take_pair [] = none
take_pair (c ∷ cs) = with_left c (take_right c cs) (keep_before c (take_pair cs))

-- The outer loop. Each round leaves one candidate less, so a round for each is enough.
unfoldable pub merge_rounds : ℕ → List HighlightCandidate → List HighlightCandidate
merge_rounds zero cs = cs
merge_rounds (suc fuel) cs = elim (take_pair cs) [
  | none ↦ cs
  | some (pair, others) ↦
      merge_rounds fuel (sort_by candidate_order (others ++ merged pair.0 pair.1 ∷ []))
]

unfoldable pub merge_candidates : List HighlightCandidate → List HighlightCandidate
unfolding merge_rounds dedup sort_by
merge_candidates candidates =
    let sorted = dedup (sort_by candidate_order candidates) in merge_rounds (length sorted) sorted
