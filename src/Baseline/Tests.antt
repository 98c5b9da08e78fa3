-- ===== src/Baseline/Tests.antt =====
-- The history of crates/openfrag-domain/src/baseline.rs: sessions, a baseline and a goal.
use openfrag.Common.{
  ℕ, ◌+◌, ◌≤◌, ◌≡◌, refl, true, false, Option, none, some, List, [], ◌∷◌, map, length, ok,
}
use openfrag.Common.Int.{pos, in_i64, tdiv, ◌*ℤ◌}
use openfrag.Common.Text.{Text, ascii, text_cmp, text_eq}
use openfrag.Common.Sets.{sort_by, sort_insert}
use openfrag.Exact.Gcd.{gcd}
use openfrag.Exact.Rational.{
  cmp, checked_add, checked_div, normalize, reduce, fit, i128_max, exact_points,
}
use openfrag.Baseline.Model.{
  CalculationSeriesIdentity, series_eq, HistoryMatch, MatchInterval, unknown, missing_chronology,
  overlapping_chronology, duplicate_demo, cohort_reason, match_value, all_maps, rating_field,
  BaselineQuery,
}
use openfrag.Baseline.Sessions.{group_sessions, place, sessions_from}
use openfrag.Common.Sorting.{occurrences}
use openfrag.Baseline.Sessions.Spacing.{AreSpaced, group_sessions-AreSpaced}
use openfrag.Baseline.Sessions.Matches.{
  ids_in, excluded_ids, history_ids, group_sessions-occurrences,
}
use openfrag.Baseline.Statistics.{median_of}
use openfrag.Baseline.Cohort.{
  keep_first, BaselineReceipt, not_ready, build_lens, finalize_baseline, candidates_of,
}
use openfrag.Baseline.Cohort.Distinct.{AreDistinct, build_lens-AreDistinct}
use openfrag.Baseline.Goals.{
  Goal, rating_goal, GoalReceipt, achieved, goal_candidates, evaluate_goal,
}
use openfrag.Baseline.Goals.Achievement.{IsReached, evaluate_goal-IsReached}

abbrev series : CalculationSeriesIdentity
series = record {
  local_player_id = ascii "player";
  parser_commit = ascii "commit";
  parser_build = ascii "parser";
  generated_proto_build = ascii "proto";
  requested_schema_hash = ascii "schema";
  metric_definition_version = ascii "metrics";
  evidence_semantics_epoch = ascii "epoch";
}

abbrev played : Text → Option MatchInterval → HistoryMatch
played id interval = record {
  match_id = id;
  demo_hash = id;
  calculation_run_id = id;
  series = series;
  canonical = true;
  map = unknown;
  interval = interval;
  rating = none;
  components = none;
  side_vectors = [];
  trend_exclusion = none;
}

abbrev between : ℕ → ℕ → Option MatchInterval
between start end = some (record { start_utc_ms = start; end_utc_ms = end })

abbrev history : List HistoryMatch
history =
    played (ascii "d") (between 9_000_000 9_500_000)
    ∷ played (ascii "a") (between 0 1_000_000)
    ∷ played (ascii "c") (between 1_500_000 1_900_000)
    ∷ played (ascii "b") (between 1_200_000 2_000_000)
    ∷ played (ascii "e") none
    ∷ []

grouped : group_sessions history ≡ record {
  sessions =
      record { match_ids = ascii "a" ∷ ascii "b" ∷ []; start_utc_ms = 0; end_utc_ms = 2_000_000 }
      ∷ record { match_ids = ascii "d" ∷ []; start_utc_ms = 9_000_000; end_utc_ms = 9_500_000 }
      ∷ [];
  exclusions =
      record { match_id = ascii "e"; reason = missing_chronology }
      ∷ record { match_id = ascii "c"; reason = overlapping_chronology }
      ∷ [];
}
unfolding group_sessions place sessions_from sort_by sort_insert
grouped = refl

group_sessions-AreSpaced_example : AreSpaced 0 (group_sessions history).sessions
group_sessions-AreSpaced_example = group_sessions-AreSpaced history

group_sessions-occurrences_example :
    occurrences (ascii "b") (ids_in (group_sessions history).sessions)
      + occurrences (ascii "b") (excluded_ids (group_sessions history).exclusions)
    ≡ occurrences (ascii "b") (history_ids history)
group_sessions-occurrences_example = group_sessions-occurrences (ascii "b") history

abbrev rated_match : Text → ℕ → HistoryMatch
rated_match id at = record (played id (between at (at + 1))) {
  rating = some (record { get = 10_000 });
}

abbrev ten_matches : List HistoryMatch
ten_matches =
    rated_match (ascii "a") 10
    ∷ rated_match (ascii "b") 20
    ∷ rated_match (ascii "c") 30
    ∷ rated_match (ascii "d") 40
    ∷ rated_match (ascii "e") 50
    ∷ rated_match (ascii "f") 60
    ∷ rated_match (ascii "g") 70
    ∷ rated_match (ascii "h") 80
    ∷ rated_match (ascii "i") 90
    ∷ rated_match (ascii "j") 100
    ∷ []

abbrev goal : Goal
goal = rating_goal (ascii "goal") 5 series all_maps (record { get = 9_900 }) []

abbrev ids : List Text
ids = map (λ (m : HistoryMatch). m.match_id) ten_matches

abbrev goal_receipt : GoalReceipt
goal_receipt = record {
  goal_id = ascii "goal";
  status = achieved;
  selected_match_ids = ids;
  selected_demo_hashes = ids;
  exclusions = [];
  evaluation_median = some (record { numerator = pos 10_000; denominator = 1 });
}

reached : evaluate_goal goal series ten_matches ≡ ok goal_receipt
unfolding evaluate_goal goal_candidates cohort_reason match_value keep_first sort_by sort_insert
    text_eq text_cmp median_of cmp checked_add checked_div normalize reduce fit gcd in_i64 tdiv
    i128_max ◌*ℤ◌ exact_points
reached = refl

evaluate_goal-IsReached_example :
    (goal.cancelled ≡ false) × (series_eq goal.series series ≡ true) × IsReached goal goal_receipt
evaluate_goal-IsReached_example =
    evaluate_goal-IsReached goal series ten_matches goal_receipt reached refl

abbrev query : BaselineQuery
query = record { series = series; cutoff_start_utc_ms = 45; field = rating_field; scope = all_maps }

abbrev lens_receipt : BaselineReceipt
lens_receipt = record {
  query = query;
  included_match_ids = ascii "b" ∷ ascii "a" ∷ [];
  included_demo_hashes = ascii "b" ∷ ascii "a" ∷ [];
  included_calculation_run_ids = ascii "b" ∷ ascii "a" ∷ [];
  selected_values =
      record { numerator = pos 10_000; denominator = 1 }
      ∷ record { numerator = pos 10_000; denominator = 1 }
      ∷ [];
  exclusions = record { match_id = ascii "b"; reason = duplicate_demo } ∷ [];
  maturity = not_ready 2 10;
  stats = none;
}

lens :
    build_lens
      (rated_match (ascii "b") 20 ∷ rated_match (ascii "a") 10 ∷ rated_match (ascii "b") 15 ∷ [])
      query
      none
    ≡ ok lens_receipt
unfolding build_lens finalize_baseline candidates_of cohort_reason match_value keep_first sort_by
    sort_insert text_eq text_cmp exact_points
lens = refl

build_lens-AreDistinct_example :
    (length lens_receipt.included_demo_hashes ≤ 20) × AreDistinct lens_receipt.included_demo_hashes
build_lens-AreDistinct_example =
    build_lens-AreDistinct
      (rated_match (ascii "b") 20 ∷ rated_match (ascii "a") 10 ∷ rated_match (ascii "b") 15 ∷ [])
      query none lens_receipt lens
