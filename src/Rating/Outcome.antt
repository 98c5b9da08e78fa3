-- ===== src/Rating/Outcome.antt =====
-- What `calculate_rating` of crates/openfrag-domain/src/rating.rs returns on every input.
use openfrag.Common.{
  ◌<◌, ◌≤◌, ◌≡◌, inl, inr, Option, none, some, arith, ltb, Bool-cases, Option-cases, Result, ok,
  err, map_err,
}
use openfrag.Exact.Rational.{Rational, ExactError, overflow, RatingBasisPoints}
use openfrag.Exact.Rational.Bounds.{Gives, Gives-bind, Within}
use openfrag.Rating.Model.{
  ComponentVector, RatingEvidenceBundle, RatingInput, RatingReceipt, RatingInputError,
  clutch_wins_exceed_opportunities, exact,
}
use openfrag.Rating.Components.{component_receipts}
use openfrag.Rating.Calculation.{rate, calculate_rating, unavailable_reason}
use openfrag.Rating.Bounds.{AreUnits, component_vector-AreUnits, weighted_rating-Within, new-Within}
use openfrag.Rating.Points.{ArePoints, points_of-ArePoints}

-- An optional part of a receipt, and the two forms of a rating, of which there are both or none.
abbrev pub IfPresent : {A : Type 0} → (A → Type 0) → Option A → Type 0
IfPresent P none = Unit
IfPresent P (some a) = P a

abbrev pub AreRatings : Option Rational → Option RatingBasisPoints → Type 0
AreRatings none none = Unit
AreRatings (some x) (some points) = Within 2 1 x × ArePoints x points
AreRatings _ _ = ⊥

abbrev pub Outcome : RatingInput → Result RatingInputError RatingReceipt → Type 0
Outcome input (ok receipt) =
    IfPresent AreUnits receipt.components × AreRatings receipt.rating_exact receipt.rating_bp
Outcome input (err clutch_wins_exceed_opportunities) =
    input.metrics.clutch_opportunities < input.metrics.clutch_wins
Outcome input (err (exact e)) = e ≡ overflow

abbrev Ranges : RatingReceipt → Type 0
Ranges receipt =
    IfPresent AreUnits receipt.components × AreRatings receipt.rating_exact receipt.rating_bp

enough_rounds :
    (input : RatingInput) → unavailable_reason input ≡ none → 8 ≤ input.metrics.eligible_rounds
enough_rounds input e = ground arith

component_receipts-Gives :
    (v : ComponentVector) (evidence : RatingEvidenceBundle)
    → Gives (λ receipts. Unit) (component_receipts v evidence)
unfolding component_receipts
component_receipts-Gives v evidence =
    Gives-bind (Within 3 10) (λ receipts. Unit) _ _
      (new-Within 3 10 3 10 (omega arith) (omega arith))
      (λ damage h1.
        Gives-bind (Within 3 10) (λ receipts. Unit) _ _
          (new-Within 3 10 3 10 (omega arith) (omega arith))
          (λ balance h2.
            Gives-bind (Within 3 20) (λ receipts. Unit) _ _
              (new-Within 3 20 3 20 (omega arith) (omega arith))
              (λ opening h3.
                Gives-bind (Within 1 10) (λ receipts. Unit) _ _
                  (new-Within 1 10 1 10 (omega arith) (omega arith))
                  (λ trades h4.
                    Gives-bind (Within 1 10) (λ receipts. Unit) _ _
                      (new-Within 1 10 1 10 (omega arith) (omega arith))
                      (λ used h5.
                        Gives-bind (Within 1 20) (λ receipts. Unit) _ _
                          (new-Within 1 20 1 20 (omega arith) (omega arith))
                          (λ clutches h6. tt))))))

rate-Ranges :
    (input : RatingInput)
    → 0 < input.metrics.eligible_rounds
    → input.metrics.clutch_wins ≤ input.metrics.clutch_opportunities
    → Gives Ranges (rate input)
unfolding rate
rate-Ranges input h c =
    Gives-bind AreUnits Ranges _ _ (component_vector-AreUnits input.metrics h c) (λ v units.
      Gives-bind (λ receipts. Unit) Ranges _ _ (component_receipts-Gives v input.evidence)
        (λ receipts any.
          Gives-bind (Within 2 1) Ranges _ _ (weighted_rating-Within v units) (λ x within.
            Gives-bind (ArePoints x) Ranges _ _ (points_of-ArePoints x within)
              (λ points are. (units, (within, are))))))

Gives-Outcome :
    (input : RatingInput) (m : Result ExactError RatingReceipt)
    → Gives Ranges m
    → Outcome input (map_err exact m)
Gives-Outcome input (ok receipt) h = h
Gives-Outcome input (err e) h = h

-- On every input, `calculate_rating` either refuses more clutch wins than opportunities, or fails
-- by an overflow, or returns a receipt: its components are between 0 and 1, and it has both forms
-- of a rating or none, the exact one between 0 and 2, and the points at most 20,000 and the
-- exact rating times 10,000, rounded to the nearest integer and up from the middle. It never
-- fails by a zero denominator or a value outside of its range.
pub calculate_rating-bounded : (input : RatingInput) → Outcome input (calculate_rating input)
unfolding calculate_rating
calculate_rating-bounded input =
    elim (Bool-cases (ltb input.metrics.clutch_opportunities input.metrics.clutch_wins)) [
      | inl more ↦ rw more (ground arith)
      | inr fair ↦ elim (Option-cases (unavailable_reason input)) [
        | inl available ↦
            rw (fair, available)
              (Gives-Outcome input (rate input)
                (rate-Ranges input (omega (arith, enough_rounds input available)) (ground arith)))
        | inr (reason, e) ↦ rw (fair, e) (tt, tt)
      ]
    ]
