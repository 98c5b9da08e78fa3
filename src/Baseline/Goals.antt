-- ===== src/Baseline/Goals.antt =====
-- `Goal` and `evaluate_goal` of crates/openfrag-domain/src/baseline.rs.
pub mod Counted
pub mod Achievement
use Prim.Native.Nat.{Ordering, compare}
use openfrag.Common.{
  ℕ, Bool, true, false, ltb, leb, not, is_empty, is_some_and, if◌then◌else◌, Option, none, some,
  List, [], ◌∷◌, ◌++◌, map, length, Result, ok, err, ◌>>=◌, u64_max,
}
use openfrag.Common.Text.{Text, text_cmp}
use openfrag.Common.Sets.{sort_by, then_cmp}
use openfrag.Exact.Rational.{Rational, RatingBasisPoints, UnitInterval, exact_points, cmp}
use openfrag.Rating.Model.{ComponentKind}
use openfrag.Baseline.Model.{
  CalculationSeriesIdentity, series_eq, HistoryMatch, MatchInterval, BaselineField, rating_field,
  component_field, BaselineScope, BaselineQuery, CohortExclusion, CohortExclusionReason,
  current_or_future_match, missing_canonical_value, cohort_reason, match_value,
}
use openfrag.Baseline.Sessions.{excluded}
use openfrag.Baseline.Statistics.{BaselineError, median_of}
use openfrag.Baseline.Cohort.{Selected, take, keep_first}

abbrev pub goal_evaluation_matches : ℕ
goal_evaluation_matches = 10

pub record Goal : Type 0 where
  pub id : Text
  pub created_at_utc_ms : ℕ
  pub series : CalculationSeriesIdentity
  pub field : BaselineField
  pub scope : BaselineScope
  pub target : Rational
  pub baseline_demo_hashes : List Text
  pub cancelled : Bool

abbrev pub rating_goal :
    Text → ℕ → CalculationSeriesIdentity → BaselineScope → RatingBasisPoints → List Text → Goal
rating_goal id at series scope target hashes = record {
  id = id;
  created_at_utc_ms = at;
  series = series;
  field = rating_field;
  scope = scope;
  target = exact_points target;
  baseline_demo_hashes = hashes;
  cancelled = false;
}

abbrev pub component_goal :
    Text
    → ℕ
    → CalculationSeriesIdentity
    → BaselineScope
    → ComponentKind
    → UnitInterval
    → List Text
    → Goal
component_goal id at series scope kind target hashes = record {
  id = id;
  created_at_utc_ms = at;
  series = series;
  field = component_field kind;
  scope = scope;
  target = target.exact;
  baseline_demo_hashes = hashes;
  cancelled = false;
}

abbrev pub cancel : Goal → Goal
cancel goal = record goal { cancelled = true }

pub data GoalStatus : Type 0 where
  in_progress : ℕ → ℕ → GoalStatus
  achieved not_achieved goal_cancelled version_changed : GoalStatus

pub record GoalReceipt : Type 0 where
  pub goal_id : Text
  pub status : GoalStatus
  pub selected_match_ids : List Text
  pub selected_demo_hashes : List Text
  pub exclusions : List CohortExclusion
  pub evaluation_median : Option Rational

abbrev pub empty_goal_receipt : Goal → GoalStatus → GoalReceipt
empty_goal_receipt goal status = record {
  goal_id = goal.id;
  status = status;
  selected_match_ids = [];
  selected_demo_hashes = [];
  exclusions = [];
  evaluation_median = none;
}

abbrev pub query_of : Goal → BaselineQuery
query_of goal = record {
  series = goal.series;
  cutoff_start_utc_ms = u64_max;
  field = goal.field;
  scope = goal.scope;
}

-- A match with its value, in the order of the intervals; one without an interval is passed over.
abbrev pub Timed : Type 0
Timed = List Selected × List CohortExclusion

abbrev pub place_value : HistoryMatch → Option Rational → Timed → Timed
place_value item none (candidates, exclusions) =
    (candidates, excluded item missing_canonical_value ∷ exclusions)
place_value item (some value) (candidates, exclusions) = ((item, value) ∷ candidates, exclusions)

abbrev pub place_interval : Goal → HistoryMatch → Option MatchInterval → Timed → Timed
place_interval goal item none placed = placed
place_interval goal item (some interval) (candidates, exclusions) =
    if leb interval.start_utc_ms goal.created_at_utc_ms
    then (candidates, excluded item current_or_future_match ∷ exclusions)
    else place_value item (match_value item goal.field) (candidates, exclusions)

abbrev pub place_reason : Goal → HistoryMatch → Option CohortExclusionReason → Timed → Timed
place_reason goal item (some reason) (candidates, exclusions) =
    (candidates, excluded item reason ∷ exclusions)
place_reason goal item none placed = place_interval goal item item.interval placed

unfoldable pub goal_candidates : Goal → List HistoryMatch → Timed
goal_candidates goal [] = ([], [])
goal_candidates goal (item ∷ history) =
    place_reason goal item (cohort_reason item (query_of goal)) (goal_candidates goal history)

abbrev interval_cmp : Option MatchInterval → Option MatchInterval → Ordering
interval_cmp (some i) (some j) =
    then_cmp (compare i.start_utc_ms j.start_utc_ms) (compare i.end_utc_ms j.end_utc_ms)
interval_cmp _ _ = Ordering.eq

-- Each candidate has an interval.
abbrev timed_cmp : Selected → Selected → Ordering
timed_cmp (a, _) (b, _) =
    then_cmp (interval_cmp a.interval b.interval) (text_cmp a.demo_hash b.demo_hash)

abbrev at_least : Rational → Rational → Bool
at_least target value = elim (cmp value target) [ Ordering.lt ↦ false | _ ↦ true ]

abbrev goal_status : Goal → ℕ → Option Rational → GoalStatus
goal_status goal selected median =
    if ltb selected goal_evaluation_matches
    then in_progress selected goal_evaluation_matches
    else if is_some_and median (at_least goal.target)
    then achieved
    else not_achieved

abbrev median_if_any : List Rational → Result BaselineError (Option Rational)
median_if_any values = if is_empty values then ok none else (median_of values >>= λ m. ok (some m))

abbrev evaluate_chosen :
    Goal → List Selected → List CohortExclusion → Result BaselineError GoalReceipt
evaluate_chosen goal chosen exclusions =
    median_if_any (map (λ (c : Selected). c.1) chosen) >>= λ median. ok (record {
      goal_id = goal.id;
      status = goal_status goal (length chosen) median;
      selected_match_ids = map (λ (c : Selected). c.0.match_id) chosen;
      selected_demo_hashes = map (λ (c : Selected). c.0.demo_hash) chosen;
      exclusions = exclusions;
      evaluation_median = median;
    })

unfoldable pub evaluate_goal :
    Goal → CalculationSeriesIdentity → List HistoryMatch → Result BaselineError GoalReceipt
evaluate_goal goal active_series history =
    let found = goal_candidates goal history in
    let distinct = keep_first [] (sort_by timed_cmp found.0) in
    if goal.cancelled
    then ok (empty_goal_receipt goal goal_cancelled)
    else if not (series_eq goal.series active_series)
    then ok (empty_goal_receipt goal version_changed)
    else evaluate_chosen goal (take goal_evaluation_matches distinct.0) (found.1 ++ distinct.1)
