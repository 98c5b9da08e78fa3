-- ===== src/Rating/Tests.antt =====
-- The worked example of crates/openfrag-domain/src/rating.rs.
use openfrag.Common.{ℕ, ◌≡◌, ◌↔◌, refl, ap, arith, true, false, none, List, [], ◌∷◌, ok, map_err}
use openfrag.Common.Text.{Text, ascii}
use openfrag.Common.Int.{ℤ, pos, in_i64, tdiv, ◌*ℤ◌}
use openfrag.Exact.Gcd.{gcd}
use openfrag.Exact.Rational.{
  Rational, i128_max, reduce, fit, normalize, new, checked_add, checked_mul, clamped, clamp,
  max_rational, min_rational, cmp, unit_interval, UnitInterval, round_half_up_nonnegative,
  rating_basis_points,
}
use openfrag.Rating.Model.{
  RatingMetrics, RatingInput, RatingReceipt, ComponentVector, ComponentReceipt,
  RatingEvidenceBundle, direct_damage, frag_balance, opening_duels, trade_kills, utility,
  clutch_conversion, get_component, ComponentKind, trend_eligible, first_missing, exact,
}
use openfrag.Rating.Components.{
  component_vector, clamped_ratio, frag_balance_of, share, utility_of, weighted, weighted_rating,
  component_receipts,
}
use openfrag.Rating.Calculation.{points_of, rate, calculate_rating, rated_receipt}
use openfrag.Rating.Outcome.{Outcome, calculate_rating-bounded}
use openfrag.Rating.Trend.{IsFullMatch, trend_eligible_iff}
use openfrag.Rating.Refinement.{ideal_rating, weighted_rating-Represents}
use openfrag.Exact.Rational.Refinement.{IsExact, Represents, value_of}

abbrev worked_metrics : RatingMetrics
worked_metrics = record {
  eligible_rounds = 20;
  direct_damage = 1_600;
  kills = 18;
  deaths = 16;
  opening_wins = 3;
  opening_losses = 2;
  trade_kills = 4;
  utility_damage = 300;
  flash_assists = 2;
  clutch_wins = 1;
  clutch_opportunities = 2;
}

abbrev unit : ℕ → ℕ → UnitInterval
unit n d = record { exact = record { numerator = pos n; denominator = d } }

abbrev worked_components : ComponentVector
worked_components = record {
  direct_damage = unit 1 2;
  frag_balance = unit 11 20;
  opening_duels = unit 3 5;
  trade_kills = unit 2 5;
  utility = unit 41 100;
  clutch_conversion = unit 1 2;
}

worked_vector : component_vector worked_metrics ≡ ok worked_components
unfolding component_vector clamped_ratio frag_balance_of share utility_of new normalize reduce fit
    gcd in_i64 tdiv i128_max ◌*ℤ◌ checked_add checked_mul clamped clamp max_rational min_rational
    cmp unit_interval
worked_vector = refl

abbrev worked_rating : Rational
worked_rating = record { numerator = pos 511; denominator = 500 }

worked_sum : weighted_rating worked_components ≡ ok worked_rating
unfolding weighted_rating weighted new normalize reduce fit gcd in_i64 tdiv i128_max ◌*ℤ◌
    checked_add checked_mul
worked_sum = refl

worked_points : points_of worked_rating ≡ ok (record { get = 10_220 })
unfolding points_of normalize reduce fit gcd in_i64 tdiv i128_max ◌*ℤ◌ checked_mul
    round_half_up_nonnegative rating_basis_points
worked_points = refl

abbrev worked_evidence : RatingEvidenceBundle
worked_evidence = record {
  eligible_round_ledger = ascii "eligible-ledger" ∷ [];
  excluded_round_ledger = ascii "excluded-ledger" ∷ [];
  direct_damage = ascii "damage" ∷ [];
  frag_balance = ascii "frag" ∷ [];
  opening_duels = ascii "opening" ∷ [];
  trade_kills = ascii "trade" ∷ [];
  utility = ascii "utility" ∷ [];
  clutch_conversion = ascii "clutch" ∷ [];
}

abbrev worked_input : RatingInput
worked_input = record {
  identity = record {
    demo_hash = ascii "demo";
    parser_commit = ascii "commit";
    parser_build = ascii "parser";
    generated_proto_build = ascii "proto";
    requested_schema_hash = ascii "schema";
    metric_definition_version = ascii "metrics";
    evidence_semantics_epoch = ascii "epoch";
  };
  game_build = ascii "game";
  metrics = worked_metrics;
  irregularities = record {
    missed_live_round = false;
    roster_imbalanced = false;
    surrender = false;
    forfeit_without_canonical_winner = false;
    overtime = false;
  };
  evidence_failure = none;
  evidence = worked_evidence;
}

abbrev weight : ℕ → ℕ → Rational
weight n d = record { numerator = pos n; denominator = d }

abbrev receipt_of : ComponentKind → ℤ → ℕ → Rational → Text → ComponentReceipt
receipt_of kind n d w id = record {
  kind = kind;
  exact_numerator = n;
  exact_denominator = d;
  weight = w;
  evidence_ids = id ∷ [];
}

abbrev worked_receipts : List ComponentReceipt
worked_receipts =
    receipt_of direct_damage (pos 1) 2 (weight 3 10) (ascii "damage")
    ∷ receipt_of frag_balance (pos 11) 20 (weight 3 10) (ascii "frag")
    ∷ receipt_of opening_duels (pos 3) 5 (weight 3 20) (ascii "opening")
    ∷ receipt_of trade_kills (pos 2) 5 (weight 1 10) (ascii "trade")
    ∷ receipt_of utility (pos 41) 100 (weight 1 10) (ascii "utility")
    ∷ receipt_of clutch_conversion (pos 1) 2 (weight 1 20) (ascii "clutch")
    ∷ []

abbrev worked_receipt : RatingReceipt
worked_receipt =
    rated_receipt worked_input worked_components worked_receipts worked_rating
      (record { get = 10_220 })

receipts_made : component_receipts worked_components worked_evidence ≡ ok worked_receipts
unfolding component_receipts new normalize reduce fit gcd in_i64 tdiv i128_max
receipts_made = refl

rated : rate worked_input ≡ ok worked_receipt
unfolding rate
rated = rw (worked_vector, receipts_made, worked_sum, worked_points) refl

calculated : calculate_rating worked_input ≡ ok worked_receipt
unfolding calculate_rating first_missing
calculated = ap (map_err exact) rated

calculate_rating-bounded_example : Outcome worked_input (calculate_rating worked_input)
calculate_rating-bounded_example = calculate_rating-bounded worked_input

trend_eligible_iff_example : (trend_eligible worked_receipt ≡ true) ↔ IsFullMatch worked_input
trend_eligible_iff_example = trend_eligible_iff worked_input worked_receipt calculated

components-AreExact : (kind : ComponentKind) → IsExact (get_component worked_components kind).exact
unfolding gcd in_i64
components-AreExact direct_damage = record {
  reduced = record { positive = omega arith; coprime = refl };
  bounded = refl;
}
components-AreExact frag_balance = record {
  reduced = record { positive = omega arith; coprime = refl };
  bounded = refl;
}
components-AreExact opening_duels = record {
  reduced = record { positive = omega arith; coprime = refl };
  bounded = refl;
}
components-AreExact trade_kills = record {
  reduced = record { positive = omega arith; coprime = refl };
  bounded = refl;
}
components-AreExact utility = record {
  reduced = record { positive = omega arith; coprime = refl };
  bounded = refl;
}
components-AreExact clutch_conversion = record {
  reduced = record { positive = omega arith; coprime = refl };
  bounded = refl;
}

weighted_rating-Represents_example : Represents worked_rating (
    ideal_rating
      (λ kind. value_of (get_component worked_components kind).exact (components-AreExact kind)))
weighted_rating-Represents_example =
    weighted_rating-Represents worked_components components-AreExact worked_rating worked_sum
