-- ===== src/Baseline/Model.antt =====
-- The matches of a history and why one is left out, crates/openfrag-domain/src/baseline.rs, with the
-- identity of a calculation series from identity.rs.
use openfrag.Common.{ℕ, Bool, ◌&&◌, not, ltb, if◌then◌else◌, Option, none, some, map_option, List}
use openfrag.Common.Text.{Text, text_eq}
use openfrag.Exact.Rational.{Rational, RatingBasisPoints, exact_points}
use openfrag.Rating.Model.{ComponentVector, ComponentKind, get_component}

pub record CalculationSeriesIdentity : Type 0 where
  pub local_player_id : Text
  pub parser_commit : Text
  pub parser_build : Text
  pub generated_proto_build : Text
  pub requested_schema_hash : Text
  pub metric_definition_version : Text
  pub evidence_semantics_epoch : Text

-- The derived equality.
abbrev pub series_eq : CalculationSeriesIdentity → CalculationSeriesIdentity → Bool
series_eq a b =
    text_eq a.local_player_id b.local_player_id
    && (text_eq a.parser_commit b.parser_commit
        && (text_eq a.parser_build b.parser_build
            && (text_eq a.generated_proto_build b.generated_proto_build
                && (text_eq a.requested_schema_hash b.requested_schema_hash
                    && (text_eq a.metric_definition_version b.metric_definition_version
                        && text_eq a.evidence_semantics_epoch b.evidence_semantics_epoch)))))

pub record MatchInterval : Type 0 where
  pub start_utc_ms : ℕ
  pub end_utc_ms : ℕ

pub data Side : Type 0 where
  terrorist counter_terrorist : Side

pub record SideComponentVector : Type 0 where
  pub components : ComponentVector
  pub opening_opportunities : ℕ
  pub clutch_opportunities : ℕ

pub data MatchTrendExclusion : Type 0 where
  match_unavailable match_preview match_roster_imbalanced evidence_rule : MatchTrendExclusion

pub data MapContext : Type 0 where
  known : Text → MapContext
  unknown : MapContext

pub record HistoryMatch : Type 0 where
  pub match_id : Text
  pub demo_hash : Text
  pub calculation_run_id : Text
  pub series : CalculationSeriesIdentity
  pub canonical : Bool
  pub map : MapContext
  pub interval : Option MatchInterval
  pub rating : Option RatingBasisPoints
  pub components : Option ComponentVector
  pub side_vectors : List (Side × SideComponentVector)
  pub trend_exclusion : Option MatchTrendExclusion

pub data BaselineField : Type 0 where
  rating_field : BaselineField
  component_field : ComponentKind → BaselineField

pub data BaselineScope : Type 0 where
  all_maps : BaselineScope
  one_map : Text → BaselineScope

pub record BaselineQuery : Type 0 where
  pub series : CalculationSeriesIdentity
  pub cutoff_start_utc_ms : ℕ
  pub field : BaselineField
  pub scope : BaselineScope

pub data CohortExclusionReason : Type 0 where
  calculation_series_mismatch non_canonical_run : CohortExclusionReason
  match_rule : MatchTrendExclusion → CohortExclusionReason
  missing_chronology reversed_chronology current_or_future_match : CohortExclusionReason
  scope_mismatch duplicate_demo outside_recent_window : CohortExclusionReason
  missing_side_vector missing_canonical_value unknown_map : CohortExclusionReason
  overlapping_chronology : CohortExclusionReason

pub record CohortExclusion : Type 0 where
  pub match_id : Text
  pub reason : CohortExclusionReason

abbrev pub scope_reason : BaselineScope → MapContext → Option CohortExclusionReason
scope_reason all_maps context = none
scope_reason (one_map name) (known item_map) =
    if text_eq item_map name then none else some scope_mismatch
scope_reason (one_map name) unknown = some unknown_map

abbrev pub chronology_reason :
    HistoryMatch → BaselineQuery → Option MatchInterval → Option CohortExclusionReason
chronology_reason item query none = some missing_chronology
chronology_reason item query (some interval) =
    if ltb interval.end_utc_ms interval.start_utc_ms
    then some reversed_chronology
    else if ltb query.cutoff_start_utc_ms interval.end_utc_ms
    then some current_or_future_match
    else scope_reason query.scope item.map

abbrev pub rule_reason :
    HistoryMatch → BaselineQuery → Option MatchTrendExclusion → Option CohortExclusionReason
rule_reason item query (some reason) = some (match_rule reason)
rule_reason item query none = chronology_reason item query item.interval

unfoldable pub cohort_reason : HistoryMatch → BaselineQuery → Option CohortExclusionReason
cohort_reason item query =
    if not (series_eq item.series query.series)
    then some calculation_series_mismatch
    else if not item.canonical
    then some non_canonical_run
    else rule_reason item query item.trend_exclusion

unfoldable pub match_value : HistoryMatch → BaselineField → Option Rational
match_value item rating_field = map_option exact_points item.rating
match_value item (component_field kind) =
    map_option (λ v. (get_component v kind).exact) item.components
