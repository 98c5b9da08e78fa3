-- ===== src/Baseline/Goals/Counted.antt =====
-- The matches among which a goal of crates/openfrag-domain/src/baseline.rs selects: those of the
-- history that started after it was made, each with its value.
use openfrag.Common.{
  ℕ, zero, suc, ◌<◌, ◌≡◌, refl, inl, inr, arith, leb, Bool-cases, Option, none, some, List, [], ◌∷◌,
  All,
}
use openfrag.Common.Text.{Text}
use openfrag.Exact.Rational.{Rational}
use openfrag.Baseline.Model.{
  HistoryMatch, MatchInterval, CohortExclusionReason, match_value, cohort_reason,
}
use openfrag.Baseline.Cohort.{Selected, take, keep_first, has_hash}
use openfrag.Baseline.Goals.{
  Goal, Timed, query_of, place_value, place_interval, place_reason, goal_candidates,
}

-- A match of the goal's cohort that started after the goal was made, with its value for the goal.
pub record IsCounted (goal : Goal) (c : Selected) : Type 0 where
  pub in_cohort : cohort_reason c.0 (query_of goal) ≡ none
  pub interval : MatchInterval
  pub timed : c.0.interval ≡ some interval
  pub later : goal.created_at_utc_ms < interval.start_utc_ms
  pub valued : match_value c.0 goal.field ≡ some c.1

module _ (goal : Goal) where
  place_reason-AreCounted :
      (item : HistoryMatch) (placed : Timed)
      → All (IsCounted goal) placed.0
      → All (IsCounted goal) (place_reason goal item (cohort_reason item (query_of goal)) placed).0
  place_reason-AreCounted item placed rest = by_reason (cohort_reason item (query_of goal)) refl
    where
      by_value :
          (i : MatchInterval) (value : Option Rational)
          → cohort_reason item (query_of goal) ≡ none
          → item.interval ≡ some i
          → goal.created_at_utc_ms < i.start_utc_ms
          → match_value item goal.field ≡ value
          → All (IsCounted goal) (place_value item value placed).0
      by_value i none r t l v = rest
      by_value i (some value) r t l v =
          (record { in_cohort = r; interval = i; timed = t; later = l; valued = v }, rest)

      by_interval :
          (interval : Option MatchInterval)
          → cohort_reason item (query_of goal) ≡ none
          → item.interval ≡ interval
          → All (IsCounted goal) (place_interval goal item interval placed).0
      by_interval none r t = rest
      by_interval (some i) r t = elim (Bool-cases (leb i.start_utc_ms goal.created_at_utc_ms)) [
        | inl early ↦ rw early rest
        | inr late ↦
            rw late (by_value i (match_value item goal.field) r t (ground (arith, late)) refl)
      ]

      by_reason :
          (reason : Option CohortExclusionReason)
          → cohort_reason item (query_of goal) ≡ reason
          → All (IsCounted goal) (place_reason goal item reason placed).0
      by_reason none r = by_interval item.interval r refl
      by_reason (some reason) r = rest

  pub goal_candidates-AreCounted :
      (history : List HistoryMatch) → All (IsCounted goal) (goal_candidates goal history).0
  unfolding goal_candidates
  goal_candidates-AreCounted [] = tt
  goal_candidates-AreCounted (item ∷ history) =
      place_reason-AreCounted item (goal_candidates goal history)
        (goal_candidates-AreCounted history)

module _ (P : Selected → Type 0) where
  pub keep_first-All :
      (seen : List Text) (cs : List Selected) → All P cs → All P (keep_first seen cs).0
  unfolding keep_first
  keep_first-All seen [] h = tt
  keep_first-All seen ((item, value) ∷ rest) (h, hs) =
      elim (Bool-cases (has_hash seen item.demo_hash)) [
        | inl twice ↦ rw twice (keep_first-All seen rest hs)
        | inr once ↦ rw once (h, keep_first-All (item.demo_hash ∷ seen) rest hs)
      ]

  pub take-All : (n : ℕ) (cs : List Selected) → All P cs → All P (take n cs)
  take-All zero cs h = tt
  take-All (suc n) [] h = tt
  take-All (suc n) (c ∷ cs) (h, hs) = (h, take-All n cs hs)
