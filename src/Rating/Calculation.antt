-- ===== src/Rating/Calculation.antt =====
-- `calculate_rating` of crates/openfrag-domain/src/rating.rs.
use openfrag.Common.{
  ℕ, Option, none, some, List, [], ◌∷◌, ◌++◌, ltb, leb, Result, ok, err, ◌>>=◌, map_err,
  if◌then◌else◌,
}
use openfrag.Common.Int.{ℤ, pos, negsuc}
use openfrag.Exact.Rational.{
  Rational, ExactError, outside_rating_range, from_integer, checked_mul, round_half_up_nonnegative,
  RatingBasisPoints, rating_basis_points,
}
use openfrag.Rating.Model.{
  RatingInput, RatingReceipt, RatingInputError, clutch_wins_exceed_opportunities, exact,
  UnavailableReason, insufficient_eligible_rounds, evidence_reason, missing_required_evidence,
  forfeit_without_winner, PreviewReason, short_sample, missed_round, surrendered,
  TrendExclusionReason, excluded_preview, excluded_roster, excluded_unavailable, RatingStatus,
  unavailable, preview, rated, first_missing, EvidenceFailure, RequiredEvidenceKind,
  ComponentVector, ComponentReceipt,
}
use openfrag.Rating.Components.{component_vector, component_receipts, weighted_rating}

abbrev reason_behind_evidence : RatingInput → Option EvidenceFailure → Option UnavailableReason
reason_behind_evidence input (some failure) = some (evidence_reason failure)
reason_behind_evidence input none =
    if input.irregularities.forfeit_without_canonical_winner
    then some forfeit_without_winner
    else if ltb input.metrics.eligible_rounds 8
    then some (insufficient_eligible_rounds input.metrics.eligible_rounds 8)
    else none

abbrev pub reason_of : RatingInput → Option RequiredEvidenceKind → Option UnavailableReason
reason_of input (some kind) = some (missing_required_evidence kind)
reason_of input none = reason_behind_evidence input input.evidence_failure

abbrev pub unavailable_reason : RatingInput → Option UnavailableReason
unavailable_reason input = reason_of input (first_missing input.evidence)

abbrev pub unavailable_receipt : RatingInput → UnavailableReason → RatingReceipt
unavailable_receipt input reason = record {
  identity = input.identity;
  game_build = input.game_build;
  inputs = input.metrics;
  irregularities = input.irregularities;
  evidence = input.evidence;
  status = unavailable reason;
  trend_exclusions = excluded_unavailable ∷ [];
  components = none;
  component_receipts = none;
  rating_exact = none;
  rating_bp = none;
}

-- `u16::try_from`.
abbrev pub to_u16 : ℤ → Result ExactError ℕ
to_u16 (pos n) = if leb n 65_535 then ok n else err outside_rating_range
to_u16 (negsuc n) = err outside_rating_range

unfoldable pub points_of : Rational → Result ExactError RatingBasisPoints
points_of rating = do
  scaled ← checked_mul rating (from_integer (pos 10_000))
  rounded ← round_half_up_nonnegative scaled
  value ← to_u16 rounded
  rating_basis_points value

abbrev pub preview_reasons : RatingInput → List PreviewReason
preview_reasons input =
    (if ltb input.metrics.eligible_rounds 12
      then short_sample input.metrics.eligible_rounds 12 ∷ []
      else [])
    ++ ((if input.irregularities.missed_live_round then missed_round ∷ [] else [])
        ++ (if input.irregularities.surrender then surrendered ∷ [] else []))

abbrev pub status_of : List PreviewReason → RatingStatus
status_of [] = rated
status_of (r ∷ rs) = preview (r ∷ rs)

abbrev preview_exclusion : RatingStatus → List TrendExclusionReason
preview_exclusion (preview reasons) = excluded_preview ∷ []
preview_exclusion _ = []

abbrev pub exclusions_of : RatingInput → RatingStatus → List TrendExclusionReason
exclusions_of input status =
    preview_exclusion status
    ++ (if input.irregularities.roster_imbalanced then excluded_roster ∷ [] else [])

abbrev pub rated_receipt :
    RatingInput
    → ComponentVector
    → List ComponentReceipt
    → Rational
    → RatingBasisPoints
    → RatingReceipt
rated_receipt input components receipts rating points =
    let status = status_of (preview_reasons input) in
    record {
      identity = input.identity;
      game_build = input.game_build;
      inputs = input.metrics;
      irregularities = input.irregularities;
      evidence = input.evidence;
      status = status;
      trend_exclusions = exclusions_of input status;
      components = some components;
      component_receipts = some receipts;
      rating_exact = some rating;
      rating_bp = some points;
    }

unfoldable pub rate : RatingInput → Result ExactError RatingReceipt
rate input = do
  components ← component_vector input.metrics
  receipts ← component_receipts components input.evidence
  rating ← weighted_rating components
  points ← points_of rating
  ok (rated_receipt input components receipts rating points)

abbrev rate_unless : RatingInput → Option UnavailableReason → Result RatingInputError RatingReceipt
rate_unless input (some reason) = ok (unavailable_receipt input reason)
rate_unless input none = map_err exact (rate input)

unfoldable pub calculate_rating : RatingInput → Result RatingInputError RatingReceipt
unfolding rate
calculate_rating input =
    if ltb input.metrics.clutch_opportunities input.metrics.clutch_wins
    then err clutch_wins_exceed_opportunities
    else rate_unless input (unavailable_reason input)
