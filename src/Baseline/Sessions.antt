-- ===== src/Baseline/Sessions.antt =====
-- `group_sessions` of crates/openfrag-domain/src/baseline.rs.
pub mod Spacing
pub mod Matches
use Prim.Native.Nat.{Ordering, compare}
use openfrag.Common.{
  ℕ, ◌-◌, ◌==◌, Bool, true, false, leb, ltb, if◌then◌else◌, Option, none, some, List, [], ◌∷◌, ◌++◌,
}
use openfrag.Common.Text.{Text, text_cmp}
use openfrag.Common.Sets.{sort_by, then_cmp}
use openfrag.Baseline.Model.{
  HistoryMatch, MatchInterval, CohortExclusion, CohortExclusionReason, missing_chronology,
  reversed_chronology, overlapping_chronology,
}

-- 90 minutes.
abbrev pub session_gap_ms : ℕ
session_gap_ms = 5_400_000

pub record Session : Type 0 where
  pub match_ids : List Text
  pub start_utc_ms : ℕ
  pub end_utc_ms : ℕ

pub record SessionGrouping : Type 0 where
  pub sessions : List Session
  pub exclusions : List CohortExclusion

abbrev pub Placed : Type 0
Placed = HistoryMatch × MatchInterval

abbrev pub excluded : HistoryMatch → CohortExclusionReason → CohortExclusion
excluded item reason = record { match_id = item.match_id; reason = reason }

-- The first loop: the matches with a time, and the others.
abbrev pub place_one :
    HistoryMatch
    → Option MatchInterval
    → List Placed × List CohortExclusion
    → List Placed × List CohortExclusion
place_one item none (valid, exclusions) = (valid, excluded item missing_chronology ∷ exclusions)
place_one item (some interval) (valid, exclusions) =
    if ltb interval.end_utc_ms interval.start_utc_ms
    then (valid, excluded item reversed_chronology ∷ exclusions)
    else ((item, interval) ∷ valid, exclusions)

unfoldable pub place : List HistoryMatch → List Placed × List CohortExclusion
place [] = ([], [])
place (item ∷ history) = place_one item item.interval (place history)

abbrev pub placed_cmp : Placed → Placed → Ordering
placed_cmp (a, i) (b, j) =
    then_cmp (compare i.start_utc_ms j.start_utc_ms)
      (then_cmp (compare i.end_utc_ms j.end_utc_ms) (text_cmp a.demo_hash b.demo_hash))

abbrev pub opened : Placed → Session
opened (item, interval) = record {
  match_ids = item.match_id ∷ [];
  start_utc_ms = interval.start_utc_ms;
  end_utc_ms = interval.end_utc_ms;
}

abbrev pub extended : Session → Placed → Session
extended current (item, interval) = record current {
  match_ids = current.match_ids ++ item.match_id ∷ [];
  end_utc_ms = interval.end_utc_ms;
}

-- The second loop, with the last session held apart, in front of those that are still to come.
unfoldable pub sessions_from : Session → List Placed → SessionGrouping
sessions_from current [] = record { sessions = current ∷ []; exclusions = [] }
sessions_from current ((item, interval) ∷ rest) =
    let same = sessions_from current rest in
    let longer = sessions_from (extended current (item, interval)) rest in
    let next = sessions_from (opened (item, interval)) rest in
    if leb interval.start_utc_ms current.end_utc_ms
    then record same { exclusions = excluded item overlapping_chronology ∷ same.exclusions }
    else if leb (interval.start_utc_ms - current.end_utc_ms) session_gap_ms
    then longer
    else record next { sessions = current ∷ next.sessions }

abbrev pub sessions_of : List Placed → SessionGrouping
sessions_of [] = record { sessions = []; exclusions = [] }
sessions_of (p ∷ rest) = sessions_from (opened p) rest

unfoldable pub group_sessions : List HistoryMatch → SessionGrouping
group_sessions history =
    let placed = place history in
    let grouping = sessions_of (sort_by placed_cmp placed.0) in
    record grouping { exclusions = placed.1 ++ grouping.exclusions }

pub data SessionSample : Type 0 where
  no_match one_match : SessionSample
  small summary : ℕ → SessionSample

unfoldable pub session_sample : ℕ → SessionSample
session_sample selected =
    if selected == 0
    then no_match
    else if selected == 1
    then one_match
    else if leb selected 4
    then small selected
    else summary selected
