-- ===== src/Baseline/Sessions/Matches.antt =====
-- The sessions of crates/openfrag-domain/src/baseline.rs and their exclusions take up all matches.
use openfrag.Common.{◌+◌, ◌≡◌, refl, arith, Option, none, some, List, [], ◌∷◌, ◌++◌, map}
use openfrag.Common.Text.{Text, text_eq}
use openfrag.Common.Sets.{sort_by}
use openfrag.Common.Sorting.{tally, occurrences, tally-append, tally-sort_by}
use openfrag.Baseline.Model.{HistoryMatch, MatchInterval, CohortExclusion}
use openfrag.Baseline.Sessions.{
  Session, Placed, place, place_one, placed_cmp, opened, extended, sessions_from, sessions_of,
  group_sessions,
}

-- The ids of the matches of the sessions, of the exclusions and of a history.
abbrev pub ids_in : List Session → List Text
ids_in [] = []
ids_in (s ∷ rest) = s.match_ids ++ ids_in rest

abbrev pub excluded_ids : List CohortExclusion → List Text
excluded_ids = map (λ (e : CohortExclusion). e.match_id)

abbrev pub history_ids : List HistoryMatch → List Text
history_ids = map (λ (m : HistoryMatch). m.match_id)

abbrev placed_ids : List Placed → List Text
placed_ids = map (λ (p : Placed). p.0.match_id)

module _ (id : Text) where
  tally-placed :
      (ps : List Placed)
      → tally (λ (p : Placed). text_eq id p.0.match_id) ps ≡ occurrences id (placed_ids ps)
  tally-placed [] = refl
  tally-placed (p ∷ ps) = omega (arith, tally-placed ps)

  sessions_from-occurrences :
      (current : Session) (ps : List Placed)
      → occurrences id (ids_in (sessions_from current ps).sessions)
          + occurrences id (excluded_ids (sessions_from current ps).exclusions)
        ≡ occurrences id current.match_ids + occurrences id (placed_ids ps)
  unfolding sessions_from
  sessions_from-occurrences current [] =
      omega (arith, tally-append (text_eq id) current.match_ids [])
  sessions_from-occurrences current ((item, i) ∷ rest) = ground (
    arith,
    sessions_from-occurrences current rest,
    sessions_from-occurrences (extended current (item, i)) rest,
    sessions_from-occurrences (opened (item, i)) rest,
    tally-append (text_eq id) current.match_ids (item.match_id ∷ []),
    tally-append (text_eq id) current.match_ids
        (ids_in (sessions_from (opened (item, i)) rest).sessions),
  )

  sessions_of-occurrences :
      (ps : List Placed)
      → occurrences id (ids_in (sessions_of ps).sessions)
          + occurrences id (excluded_ids (sessions_of ps).exclusions)
        ≡ occurrences id (placed_ids ps)
  sessions_of-occurrences [] = refl
  sessions_of-occurrences ((item, i) ∷ rest) =
      omega (arith, sessions_from-occurrences (opened (item, i)) rest)

  place-occurrences :
      (history : List HistoryMatch)
      → occurrences id (placed_ids (place history).0)
          + occurrences id (excluded_ids (place history).1)
        ≡ occurrences id (history_ids history)
  unfolding place
  place-occurrences [] = refl
  place-occurrences (item ∷ history) = go item.interval (place history) (place-occurrences history)
    where
      go :
          (interval : Option MatchInterval) (placed : List Placed × List CohortExclusion)
          → occurrences id (placed_ids placed.0) + occurrences id (excluded_ids placed.1)
            ≡ occurrences id (history_ids history)
          → occurrences id (placed_ids (place_one item interval placed).0)
              + occurrences id (excluded_ids (place_one item interval placed).1)
            ≡ occurrences id (history_ids (item ∷ history))
      go none placed h = omega (arith, h)
      go (some i) placed h = ground (arith, h)

-- Each match of a history is counted once, in a session or as excluded: every id occurs in the
-- sessions and in the exclusions together as often as in the history.
pub group_sessions-occurrences :
    (id : Text) (history : List HistoryMatch)
    → occurrences id (ids_in (group_sessions history).sessions)
        + occurrences id (excluded_ids (group_sessions history).exclusions)
      ≡ occurrences id (history_ids history)
unfolding group_sessions
group_sessions-occurrences id history =
    let sorted = sort_by placed_cmp (place history).0 in
    omega (
      arith,
      sessions_of-occurrences id sorted,
      tally-sort_by placed_cmp (λ (p : Placed). text_eq id p.0.match_id) (place history).0,
      tally-placed id sorted,
      tally-placed id (place history).0,
      map-excluded (place history).1 (sessions_of sorted).exclusions,
      place-occurrences id history,
    )
  where
    map-excluded :
        (xs ys : List CohortExclusion)
        → occurrences id (excluded_ids (xs ++ ys))
          ≡ occurrences id (excluded_ids xs) + occurrences id (excluded_ids ys)
    map-excluded [] ys = omega arith
    map-excluded (x ∷ xs) ys = omega (arith, map-excluded xs ys)
