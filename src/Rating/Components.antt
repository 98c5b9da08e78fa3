-- ===== src/Rating/Components.antt =====
-- `component_vector`, `component_receipts` and `weighted_rating` of
-- crates/openfrag-domain/src/rating.rs. The metrics are `u32` values, so that their multiples and
-- their difference are `i64` values.
use openfrag.Common.{ℕ, ◌+◌, ◌*◌, ◌==◌, List, [], ◌∷◌, map, Result, ok, ◌>>=◌, if◌then◌else◌}
use openfrag.Common.Int.{pos, ◌-ℤ◌}
use openfrag.Exact.Rational.{
  Rational, half, ExactError, new, checked_add, checked_mul, from_integer, UnitInterval,
  unit_interval, clamped,
}
use openfrag.Rating.Model.{
  RatingMetrics, ComponentVector, ComponentKind, direct_damage, frag_balance, opening_duels,
  trade_kills, utility, clutch_conversion, RatingEvidenceBundle, ComponentReceipt, get_component,
  component_evidence,
}

-- `UnitInterval::clamped(Rational::new(…)?)`.
unfoldable pub clamped_ratio : ℕ → ℕ → Result ExactError UnitInterval
clamped_ratio n d = new (pos n) (pos d) >>= λ r. ok (clamped r)

unfoldable pub frag_balance_of : ℕ → ℕ → ℕ → Result ExactError UnitInterval
frag_balance_of kills deaths rounds = do
  delta ← new (pos kills -ℤ pos deaths) (pos (2 * rounds))
  sum ← checked_add half delta
  ok (clamped sum)

-- A half where there was no opportunity.
unfoldable pub share : ℕ → ℕ → Result ExactError UnitInterval
share wins total =
    if total == 0 then unit_interval half else (new (pos wins) (pos total) >>= unit_interval)

unfoldable pub utility_of : UnitInterval → UnitInterval → Result ExactError UnitInterval
utility_of damage flashes = do
  seven ← new (pos 7) (pos 10)
  weighted_damage ← checked_mul damage.exact seven
  three ← new (pos 3) (pos 10)
  weighted_flashes ← checked_mul flashes.exact three
  sum ← checked_add weighted_damage weighted_flashes
  unit_interval sum

unfoldable pub component_vector : RatingMetrics → Result ExactError ComponentVector
component_vector m = do
  damage ← clamped_ratio m.direct_damage (160 * m.eligible_rounds)
  balance ← frag_balance_of m.kills m.deaths m.eligible_rounds
  opening ← share m.opening_wins (m.opening_wins + m.opening_losses)
  trades ← clamped_ratio (2 * m.trade_kills) m.eligible_rounds
  utility_damage ← clamped_ratio m.utility_damage (30 * m.eligible_rounds)
  flashes ← clamped_ratio (2 * m.flash_assists) m.eligible_rounds
  used ← utility_of utility_damage flashes
  clutches ← share m.clutch_wins m.clutch_opportunities
  ok (record {
    direct_damage = damage;
    frag_balance = balance;
    opening_duels = opening;
    trade_kills = trades;
    utility = used;
    clutch_conversion = clutches;
  })

-- A component times its weight.
unfoldable pub weighted : UnitInterval → ℕ → ℕ → Result ExactError Rational
weighted component n d = new (pos n) (pos d) >>= checked_mul component.exact

unfoldable pub weighted_rating : ComponentVector → Result ExactError Rational
weighted_rating v = do
  damage ← weighted v.direct_damage 3 10
  balance ← weighted v.frag_balance 3 10
  with_balance ← checked_add damage balance
  opening ← weighted v.opening_duels 3 20
  with_opening ← checked_add with_balance opening
  trades ← weighted v.trade_kills 1 10
  with_trades ← checked_add with_opening trades
  used ← weighted v.utility 1 10
  with_utility ← checked_add with_trades used
  clutches ← weighted v.clutch_conversion 1 20
  sum ← checked_add with_utility clutches
  checked_mul sum (from_integer (pos 2))

abbrev receipt_for :
    ComponentVector → RatingEvidenceBundle → ComponentKind × Rational → ComponentReceipt
receipt_for components evidence (kind, weight) =
    let value = (get_component components kind).exact in
    record {
      kind = kind;
      exact_numerator = value.numerator;
      exact_denominator = value.denominator;
      weight = weight;
      evidence_ids = component_evidence evidence kind;
    }

unfoldable pub component_receipts :
    ComponentVector → RatingEvidenceBundle → Result ExactError (List ComponentReceipt)
component_receipts components evidence = do
  damage ← new (pos 3) (pos 10)
  balance ← new (pos 3) (pos 10)
  opening ← new (pos 3) (pos 20)
  trades ← new (pos 1) (pos 10)
  used ← new (pos 1) (pos 10)
  clutches ← new (pos 1) (pos 20)
  ok (
      map (receipt_for components evidence) (
        (direct_damage, damage)
        ∷ (frag_balance, balance)
        ∷ (opening_duels, opening)
        ∷ (trade_kills, trades)
        ∷ (utility, used)
        ∷ (clutch_conversion, clutches)
        ∷ []))
