-- ===== src/Baseline/Cohort.antt =====
-- `build_lens` and `finalize_baseline` of crates/openfrag-domain/src/baseline.rs.
pub mod Distinct
use Prim.Native.Nat.{Ordering, compare}
use openfrag.Common.{
  ℕ, suc, zero, Bool, true, false, ltb, if◌then◌else◌, Option, none, some, map_option, any, List,
  [], ◌∷◌, ◌++◌, map, length, Result, ok, err, ◌>>=◌,
}
use openfrag.Common.Int.{pos}
use openfrag.Common.Text.{Text, text_eq, text_cmp}
use openfrag.Common.Sets.{sort_by, then_cmp}
use openfrag.Exact.Rational.{Rational, rational_zero, rational_one, from_integer}
use openfrag.Rating.Model.{ComponentKind, get_component}
use openfrag.Baseline.Model.{
  HistoryMatch, MatchInterval, Side, terrorist, counter_terrorist, SideComponentVector,
  BaselineField, rating_field, component_field, BaselineScope, all_maps, one_map, BaselineQuery,
  CohortExclusion, CohortExclusionReason, missing_side_vector, missing_canonical_value,
  duplicate_demo, outside_recent_window, cohort_reason, match_value,
}
use openfrag.Baseline.Sessions.{excluded}
use openfrag.Baseline.Statistics.{
  BaselineError, side_rating_forbidden, map_side_scope_forbidden, RobustStats, robust_stats,
}

abbrev pub baseline_minimum_matches : ℕ
baseline_minimum_matches = 10

abbrev pub baseline_window_matches : ℕ
baseline_window_matches = 20

pub data BaselineMaturity : Type 0 where
  not_ready : ℕ → ℕ → BaselineMaturity
  limited recent : ℕ → BaselineMaturity

-- The policy's version is a constant.
pub record BaselineReceipt : Type 0 where
  pub query : BaselineQuery
  pub included_match_ids : List Text
  pub included_demo_hashes : List Text
  pub included_calculation_run_ids : List Text
  pub selected_values : List Rational
  pub exclusions : List CohortExclusion
  pub maturity : BaselineMaturity
  pub stats : Option RobustStats

abbrev pub Selected : Type 0
Selected = HistoryMatch × Rational

module _ {A : Type 0} where
  abbrev pub take : ℕ → List A → List A
  take zero xs = []
  take (suc n) [] = []
  take (suc n) (x ∷ xs) = x ∷ take n xs

  abbrev pub drop : ℕ → List A → List A
  drop zero xs = xs
  drop (suc n) [] = []
  drop (suc n) (x ∷ xs) = drop n xs

abbrev pub has_hash : List Text → Text → Bool
has_hash seen hash = any (λ other. text_eq other hash) seen

abbrev end_of : Option MatchInterval → ℕ
end_of none = 0
end_of (some interval) = interval.end_utc_ms

-- The latest first.
abbrev pub selected_cmp : Selected → Selected → Ordering
selected_cmp (a, _) (b, _) =
    then_cmp (compare (end_of b.interval) (end_of a.interval)) (text_cmp b.demo_hash a.demo_hash)

-- `retain`, with the hashes that it has met.
unfoldable pub keep_first : List Text → List Selected → List Selected × List CohortExclusion
keep_first seen [] = ([], [])
keep_first seen ((item, value) ∷ rest) =
    let without = keep_first seen rest in
    let after = keep_first (item.demo_hash ∷ seen) rest in
    if has_hash seen item.demo_hash
    then (without.0, excluded item duplicate_demo ∷ without.1)
    else ((item, value) ∷ after.0, after.1)

abbrev maturity_of : ℕ → BaselineMaturity
maturity_of selected =
    if ltb selected baseline_minimum_matches
    then not_ready selected baseline_minimum_matches
    else if ltb selected baseline_window_matches
    then limited selected
    else recent selected

abbrev maximum_of : BaselineField → Rational
maximum_of rating_field = from_integer (pos 20_000)
maximum_of (component_field kind) = rational_one

abbrev stats_of : BaselineField → List Rational → Result BaselineError (Option RobustStats)
stats_of field values =
    if ltb (length values) baseline_minimum_matches
    then ok none
    else (robust_stats values rational_zero (maximum_of field) >>= λ s. ok (some s))

unfoldable pub finalize_baseline :
    List Selected → List CohortExclusion → BaselineQuery → Result BaselineError BaselineReceipt
finalize_baseline candidates exclusions query =
    let distinct = keep_first [] (sort_by selected_cmp candidates) in
    let chosen = take baseline_window_matches distinct.0 in
    let older =
      map (λ (c : Selected). excluded c.0 outside_recent_window)
        (drop baseline_window_matches distinct.0) in
    stats_of query.field (map (λ (c : Selected). c.1) chosen) >>= λ stats. ok (record {
      query = query;
      included_match_ids = map (λ (c : Selected). c.0.match_id) chosen;
      included_demo_hashes = map (λ (c : Selected). c.0.demo_hash) chosen;
      included_calculation_run_ids = map (λ (c : Selected). c.0.calculation_run_id) chosen;
      selected_values = map (λ (c : Selected). c.1) chosen;
      exclusions = exclusions ++ (distinct.1 ++ older);
      maturity = maturity_of (length chosen);
      stats = stats;
    })

abbrev side_eq : Side → Side → Bool
side_eq terrorist terrorist = true
side_eq counter_terrorist counter_terrorist = true
side_eq _ _ = false

abbrev get_side : Side → List (Side × SideComponentVector) → Option SideComponentVector
get_side side [] = none
get_side side ((other, vector) ∷ rest) =
    if side_eq other side then some vector else get_side side rest

-- The value of a match, or why there is none: of a component on one side, or of the whole match.
abbrev value_in :
    BaselineField
    → Option (Side × ComponentKind)
    → HistoryMatch
    → Result CohortExclusionReason Rational
value_in field none item = elim (match_value item field) [
  | none ↦ err missing_canonical_value
  | some v ↦ ok v
]
value_in field (some (side, kind)) item = elim (get_side side item.side_vectors) [
  | none ↦ err missing_side_vector
  | some vector ↦ ok (get_component vector.components kind).exact
]

abbrev place_value :
    HistoryMatch
    → Option CohortExclusionReason
    → Result CohortExclusionReason Rational
    → List Selected × List CohortExclusion
    → List Selected × List CohortExclusion
place_value item (some reason) value (candidates, exclusions) =
    (candidates, excluded item reason ∷ exclusions)
place_value item none (err reason) (candidates, exclusions) =
    (candidates, excluded item reason ∷ exclusions)
place_value item none (ok value) (candidates, exclusions) = ((item, value) ∷ candidates, exclusions)

unfoldable pub candidates_of :
    BaselineQuery
    → Option (Side × ComponentKind)
    → List HistoryMatch
    → List Selected × List CohortExclusion
candidates_of query side [] = ([], [])
candidates_of query side (item ∷ history) =
    place_value item (cohort_reason item query) (value_in query.field side item)
      (candidates_of query side history)

abbrev side_component :
    BaselineField → Option Side → Result BaselineError (Option (Side × ComponentKind))
side_component field none = ok none
side_component (component_field kind) (some side) = ok (some (side, kind))
side_component rating_field (some side) = err side_rating_forbidden

unfoldable pub build_lens :
    List HistoryMatch → BaselineQuery → Option Side → Result BaselineError BaselineReceipt
build_lens history query side = do
  component ← side_component query.field side
  let found = candidates_of query component history
  finalize_baseline found.0 found.1 query

unfoldable pub build_baseline :
    List HistoryMatch → BaselineQuery → Result BaselineError BaselineReceipt
build_baseline history query = build_lens history query none

abbrev lens_in :
    BaselineScope
    → List HistoryMatch
    → BaselineQuery
    → Side
    → ComponentKind
    → Result BaselineError BaselineReceipt
lens_in (one_map name) history query side kind = err map_side_scope_forbidden
lens_in all_maps history query side kind =
    build_lens history (record query { field = component_field kind }) (some side)

unfoldable pub build_side_component_lens :
    List HistoryMatch → BaselineQuery → Side → ComponentKind → Result BaselineError BaselineReceipt
build_side_component_lens history query side kind = lens_in query.scope history query side kind
