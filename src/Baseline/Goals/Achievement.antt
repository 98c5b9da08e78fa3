-- ===== src/Baseline/Goals/Achievement.antt =====
-- When a goal of crates/openfrag-domain/src/baseline.rs is achieved.
use mathlib.Core.Path.{subst}
use openfrag.Common.{
  ℕ, ◌≤◌, ◌≡◌, refl, sym, ap, arith, Bool, true, false, not, if◌then◌else◌, Option, none, some,
  List, [], ◌∷◌, ◌++◌, map, length, All, ◌∙◌, Result, ok, err, bind-ok,
}
use openfrag.Common.Sets.{sort_by}
use openfrag.Common.Sorting.{sort_by-All}
use openfrag.Baseline.Goals.Counted.{
  IsCounted, goal_candidates-AreCounted, keep_first-All, take-All,
}
use openfrag.Exact.Rational.{Rational}
use openfrag.Baseline.Model.{CalculationSeriesIdentity, series_eq, HistoryMatch, CohortExclusion}
use openfrag.Baseline.Statistics.{BaselineError, median_of}
use openfrag.Baseline.Cohort.{Selected, take, keep_first}
use openfrag.Baseline.Cohort.Distinct.{
  AreDistinct, hashes, keep_first-AreDistinct, take-AreDistinct, length-take,
}
use openfrag.Baseline.Goals.{
  Goal, GoalReceipt, GoalStatus, achieved, goal_cancelled, version_changed, empty_goal_receipt,
  at_least, goal_status, median_if_any, evaluate_chosen, goal_candidates, timed_cmp, evaluate_goal,
}

-- Ten matches of different demos, that started after the goal was made, reach the target with the
-- median of their values.
pub record IsReached (goal : Goal) (receipt : GoalReceipt) : Type 0 where
  pub chosen : List Selected
  pub ids : receipt.selected_match_ids ≡ map (λ (c : Selected). c.0.match_id) chosen
  pub demos : receipt.selected_demo_hashes ≡ hashes chosen
  pub ten : length chosen ≡ 10
  pub distinct : AreDistinct (hashes chosen)
  pub counted : All (IsCounted goal) chosen
  pub median : Rational
  pub of_them : median_of (map (λ (c : Selected). c.1) chosen) ≡ ok median
  pub recorded : receipt.evaluation_median ≡ some median
  pub reached : at_least goal.target median ≡ true

status-achieved :
    (goal : Goal) (n : ℕ) (median : Option Rational)
    → goal_status goal n median ≡ achieved
    → (10 ≤ n) × (m : Rational) × (median ≡ some m) × (at_least goal.target m ≡ true)
status-achieved goal n none h = absurd (ground (arith, h))
status-achieved goal n (some m) h = (ground (arith, h), m, refl, ground (arith, h))

exactly_ten : (n : ℕ) → 10 ≤ n → n ≤ 10 → n ≡ 10
exactly_ten n h k = omega (arith, h, k)

length-hashes : (cs : List Selected) → length (hashes cs) ≡ length cs
length-hashes [] = refl
length-hashes (c ∷ cs) = omega (arith, length-hashes cs)

length-taken : (cs : List Selected) → length (take 10 cs) ≤ 10
length-taken cs = omega (arith, length-hashes (take 10 cs), length-take 10 cs)

median_if_any-some :
    (values : List Rational) (median : Rational)
    → median_if_any values ≡ ok (some median)
    → median_of values ≡ ok median
median_if_any-some [] median h = absurd (ground (arith, h))
median_if_any-some (v ∷ vs) median h =
    let (m, e, same) = bind-ok (median_of (v ∷ vs)) (λ m. ok (some m)) (some median) h in
    ground (arith, e, same)

abbrev finished : GoalReceipt → Result BaselineError GoalReceipt
finished receipt = ok receipt

abbrev receipt_in : GoalReceipt → Result BaselineError GoalReceipt → GoalReceipt
receipt_in default (ok receipt) = receipt
receipt_in default (err e) = default

chosen-IsReached :
    (goal : Goal) (kept : List Selected) (exclusions : List CohortExclusion) (receipt : GoalReceipt)
    → AreDistinct (hashes kept)
    → All (IsCounted goal) kept
    → evaluate_chosen goal (take 10 kept) exclusions ≡ ok receipt
    → receipt.status ≡ achieved
    → IsReached goal receipt
chosen-IsReached goal kept exclusions receipt d counted e h =
    let (median, em, e1) =
      bind-ok (median_if_any (map (λ (c : Selected). c.1) (take 10 kept))) _ receipt e in
    let made : GoalReceipt = record {
      goal_id = goal.id;
      status = goal_status goal (length (take 10 kept)) median;
      selected_match_ids = map (λ (c : Selected). c.0.match_id) (take 10 kept);
      selected_demo_hashes = hashes (take 10 kept);
      exclusions = exclusions;
      evaluation_median = median;
    } in
    let same : made ≡ receipt = ap (receipt_in receipt) e1 in
    subst (λ (r : GoalReceipt). r.status ≡ achieved → IsReached goal r) same
      (λ status.
        let (enough, m, some_median, reached) =
          status-achieved goal (length (take 10 kept)) median status in
        record {
          chosen = take 10 kept;
          ids = refl;
          demos = refl;
          ten = exactly_ten (length (take 10 kept)) enough (length-taken kept);
          distinct = take-AreDistinct 10 kept d;
          counted = take-All (IsCounted goal) 10 kept counted;
          median = m;
          of_them = median_if_any-some _ m (em ∙ ap ok some_median);
          recorded = some_median;
          reached = reached;
        })
      h

empty-unachieved :
    (goal : Goal) (status : GoalStatus) (receipt : GoalReceipt)
    → finished (empty_goal_receipt goal status) ≡ ok receipt
    → receipt.status ≡ status
empty-unachieved goal status receipt e =
    ap (λ (r : GoalReceipt). r.status) (sym (ap (receipt_in receipt) e))

-- A goal is achieved only if it is not cancelled, belongs to the active series, and at least its
-- target is reached by the median of the values of exactly ten matches: those that the receipt
-- names, of as many different demos, in the cohort of the goal and started after it was made.
pub evaluate_goal-IsReached :
    (goal : Goal) (active_series : CalculationSeriesIdentity) (history : List HistoryMatch)
    (receipt : GoalReceipt)
    → evaluate_goal goal active_series history ≡ ok receipt
    → receipt.status ≡ achieved
    → (goal.cancelled ≡ false)
      × (series_eq goal.series active_series ≡ true)
      × IsReached goal receipt
unfolding evaluate_goal
evaluate_goal-IsReached goal active_series history receipt e h =
    go goal.cancelled (series_eq goal.series active_series) refl refl e
  where
    kept : List Selected
    kept = (keep_first [] (sort_by timed_cmp (goal_candidates goal history).0)).0

    left_out : List CohortExclusion
    left_out =
        (goal_candidates goal history).1
        ++ (keep_first [] (sort_by timed_cmp (goal_candidates goal history).0)).1

    go :
        (cancelled same : Bool)
        → goal.cancelled ≡ cancelled
        → series_eq goal.series active_series ≡ same
        → (if cancelled
            then ok (empty_goal_receipt goal goal_cancelled)
            else if not same
            then ok (empty_goal_receipt goal version_changed)
            else evaluate_chosen goal (take 10 kept) left_out)
          ≡ ok receipt
        → (goal.cancelled ≡ false)
          × (series_eq goal.series active_series ≡ true)
          × IsReached goal receipt
    go true same c s e = absurd (ground (arith, h, empty-unachieved goal goal_cancelled receipt e))
    go false false c s e =
        absurd (ground (arith, h, empty-unachieved goal version_changed receipt e))
    go false true c s e = (
      c,
      s,
      chosen-IsReached goal kept left_out receipt
          (keep_first-AreDistinct [] (sort_by timed_cmp (goal_candidates goal history).0))
          (keep_first-All (IsCounted goal) [] (sort_by timed_cmp (goal_candidates goal history).0) (
            sort_by-All timed_cmp (IsCounted goal) (goal_candidates goal history).0
              (goal_candidates-AreCounted goal history)))
          e h,
    )
