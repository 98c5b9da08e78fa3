-- ===== src/Rating/Trend.antt =====
-- Which ratings count for a trend, crates/openfrag-domain/src/rating.rs.
use mathlib.Core.Path.{subst}
use openfrag.Common.{
  ◌≤◌, ◌≡◌, ◌↔◌, inl, inr, refl, true, false, none, some, arith, ltb, is_empty, Option-cases, List,
  Result, ok, map_err, bind-ok, map_err-ok,
}
use openfrag.Exact.Rational.{Rational, RatingBasisPoints}
use openfrag.Rating.Model.{
  ComponentVector, ComponentReceipt, RatingEvidenceBundle, first_missing, RatingInput,
  RatingReceipt, RatingInputError, exact, UnavailableReason, trend_eligible,
}
use openfrag.Rating.Components.{component_vector, component_receipts, weighted_rating}
use openfrag.Rating.Calculation.{
  points_of, rate, calculate_rating, unavailable_reason, unavailable_receipt, rated_receipt,
}

-- Each kind of evidence is there.
pub record IsComplete (e : RatingEvidenceBundle) : Type 0 where
  pub eligible_round_ledger : is_empty e.eligible_round_ledger ≡ false
  pub excluded_round_ledger : is_empty e.excluded_round_ledger ≡ false
  pub direct_damage : is_empty e.direct_damage ≡ false
  pub frag_balance : is_empty e.frag_balance ≡ false
  pub opening_duels : is_empty e.opening_duels ≡ false
  pub trade_kills : is_empty e.trade_kills ≡ false
  pub utility : is_empty e.utility ≡ false
  pub clutch_conversion : is_empty e.clutch_conversion ≡ false

first_missing_iff : (e : RatingEvidenceBundle) → (first_missing e ≡ none) ↔ IsComplete e
unfolding first_missing
first_missing_iff e = (λ h. ground arith, λ h. ground arith)

-- A full match: of at least twelve rounds, seen and played from the first to the last with all
-- players.
pub record IsFullMatch (input : RatingInput) : Type 0 where
  pub complete : IsComplete input.evidence
  pub no_failure : input.evidence_failure ≡ none
  pub decided : input.irregularities.forfeit_without_canonical_winner ≡ false
  pub long : 12 ≤ input.metrics.eligible_rounds
  pub seen : input.irregularities.missed_live_round ≡ false
  pub played : input.irregularities.surrender ≡ false
  pub balanced : input.irregularities.roster_imbalanced ≡ false

rated-eligible :
    (input : RatingInput) (v : ComponentVector) (rs : List ComponentReceipt) (x : Rational)
    (p : RatingBasisPoints)
    → unavailable_reason input ≡ none
    → (trend_eligible (rated_receipt input v rs x p) ≡ true) ↔ IsFullMatch input
unfolding trend_eligible
rated-eligible input v rs x p e = (
  λ h. ground (arith, first_missing_iff input.evidence),
  λ h. ground (arith, (first_missing_iff input.evidence).1 h.complete),
)

unavailable-ineligible :
    (input : RatingInput) (reason : UnavailableReason)
    → unavailable_reason input ≡ some reason
    → IsFullMatch input
    → ⊥
unavailable-ineligible input reason e h =
    ground (arith, (first_missing_iff input.evidence).1 h.complete)

-- The parts of the receipt that `rate` returns.
abbrev Returns : RatingInput → RatingReceipt → Type 0
Returns input receipt =
    (v : ComponentVector) × (rs : List ComponentReceipt) × (x : Rational) × (p : RatingBasisPoints)
    × (rated_receipt input v rs x p ≡ receipt)

rate-Returns :
    (input : RatingInput) (receipt : RatingReceipt)
    → rate input ≡ ok receipt
    → Returns input receipt
unfolding rate
rate-Returns input receipt e =
    let (v, ev, e1) = bind-ok (component_vector input.metrics) _ receipt e in
    let (rs, er, e2) = bind-ok (component_receipts v input.evidence) _ receipt e1 in
    let (x, ex, e3) = bind-ok (weighted_rating v) _ receipt e2 in
    let (p, ep, e4) = bind-ok (points_of x) _ receipt e3 in (v, rs, x, p, ground (arith, e4))

unavailable-no_trend :
    (input : RatingInput) (reason : UnavailableReason)
    → trend_eligible (unavailable_receipt input reason) ≡ true
    → ⊥
unfolding trend_eligible
unavailable-no_trend input reason h = ground (arith, h)

fair :
    (input : RatingInput) (receipt : RatingReceipt)
    → calculate_rating input ≡ ok receipt
    → ltb input.metrics.clutch_opportunities input.metrics.clutch_wins ≡ false
unfolding calculate_rating
fair input receipt e = ground (arith, e)

-- A receipt counts for a trend exactly if it is one of a full match: each of the eight kinds of
-- evidence is there and none failed, there was no forfeit without a winner, no live round was
-- missed, nobody surrendered, the rosters were balanced, and at least twelve rounds count.
pub trend_eligible_iff :
    (input : RatingInput) (receipt : RatingReceipt)
    → calculate_rating input ≡ ok receipt
    → (trend_eligible receipt ≡ true) ↔ IsFullMatch input
unfolding calculate_rating
trend_eligible_iff input receipt e = elim (Option-cases (unavailable_reason input)) [
  | inl available ↦
      let computed : map_err exact (rate input) ≡ ok receipt =
        subst (λ (m : Result RatingInputError RatingReceipt). m ≡ ok receipt)
          (rw (fair input receipt e, available) refl) e in
      let (v, rs, x, p, same) =
        rate-Returns input receipt (map_err-ok exact (rate input) receipt computed) in
      subst (λ (r : RatingReceipt). (trend_eligible r ≡ true) ↔ IsFullMatch input) same
        (rated-eligible input v rs x p available)
  | inr (reason, because) ↦
      let computed : ok (unavailable_receipt input reason) ≡ ok receipt =
        subst (λ (m : Result RatingInputError RatingReceipt). m ≡ ok receipt)
          (rw (fair input receipt e, because) refl) e in
      let same : unavailable_receipt input reason ≡ receipt = ground (arith, computed) in
      subst (λ (r : RatingReceipt). (trend_eligible r ≡ true) ↔ IsFullMatch input) same
        (
          λ h. absurd (unavailable-no_trend input reason h),
          λ h. absurd (unavailable-ineligible input reason because h),
        )
]
