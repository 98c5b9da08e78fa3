-- ===== src/Rating/Model.antt =====
-- What a rating is made of and what it says, crates/openfrag-domain/src/rating.rs, with the identity
-- of a calculation from identity.rs. The metrics are `u32` values.
use openfrag.Common.{
  ℕ, Bool, true, false, ◌&&◌, Option, none, some, List, [], ◌∷◌, is_empty, if◌then◌else◌,
}
use openfrag.Common.Text.{Text}
use openfrag.Common.Int.{ℤ}
use openfrag.Exact.Rational.{Rational, UnitInterval, ExactError, RatingBasisPoints}

pub record CalculationIdentity : Type 0 where
  pub demo_hash : Text
  pub parser_commit : Text
  pub parser_build : Text
  pub generated_proto_build : Text
  pub requested_schema_hash : Text
  pub metric_definition_version : Text
  pub evidence_semantics_epoch : Text

pub data ComponentKind : Type 0 where
  direct_damage frag_balance opening_duels : ComponentKind
  trade_kills utility clutch_conversion : ComponentKind

pub record ComponentVector : Type 0 where
  pub direct_damage : UnitInterval
  pub frag_balance : UnitInterval
  pub opening_duels : UnitInterval
  pub trade_kills : UnitInterval
  pub utility : UnitInterval
  pub clutch_conversion : UnitInterval

abbrev pub get_component : ComponentVector → ComponentKind → UnitInterval
get_component v direct_damage = v.direct_damage
get_component v frag_balance = v.frag_balance
get_component v opening_duels = v.opening_duels
get_component v trade_kills = v.trade_kills
get_component v utility = v.utility
get_component v clutch_conversion = v.clutch_conversion

pub record RatingMetrics : Type 0 where
  pub eligible_rounds : ℕ
  pub direct_damage : ℕ
  pub kills : ℕ
  pub deaths : ℕ
  pub opening_wins : ℕ
  pub opening_losses : ℕ
  pub trade_kills : ℕ
  pub utility_damage : ℕ
  pub flash_assists : ℕ
  pub clutch_wins : ℕ
  pub clutch_opportunities : ℕ

pub record MatchIrregularities : Type 0 where
  pub missed_live_round : Bool
  pub roster_imbalanced : Bool
  pub surrender : Bool
  pub forfeit_without_canonical_winner : Bool
  pub overtime : Bool

pub data EvidenceFailure : Type 0 where
  missing_required_stream malformed_event : EvidenceFailure
  contradictory_attribution failed_reconciliation : EvidenceFailure

pub data RequiredEvidenceKind : Type 0 where
  eligible_round_ledger excluded_round_ledger : RequiredEvidenceKind
  required_direct_damage required_frag_balance required_opening_duels : RequiredEvidenceKind
  required_trade_kills required_utility required_clutch_conversion : RequiredEvidenceKind

-- `ReceiptEvidenceSet`: its identifiers.
abbrev pub ReceiptEvidenceSet : Type 0
ReceiptEvidenceSet = List Text

pub record RatingEvidenceBundle : Type 0 where
  pub eligible_round_ledger : ReceiptEvidenceSet
  pub excluded_round_ledger : ReceiptEvidenceSet
  pub direct_damage : ReceiptEvidenceSet
  pub frag_balance : ReceiptEvidenceSet
  pub opening_duels : ReceiptEvidenceSet
  pub trade_kills : ReceiptEvidenceSet
  pub utility : ReceiptEvidenceSet
  pub clutch_conversion : ReceiptEvidenceSet

abbrev pub evidence_list : RatingEvidenceBundle → List (RequiredEvidenceKind × ReceiptEvidenceSet)
evidence_list e =
    (eligible_round_ledger, e.eligible_round_ledger)
    ∷ (excluded_round_ledger, e.excluded_round_ledger)
    ∷ (required_direct_damage, e.direct_damage)
    ∷ (required_frag_balance, e.frag_balance)
    ∷ (required_opening_duels, e.opening_duels)
    ∷ (required_trade_kills, e.trade_kills)
    ∷ (required_utility, e.utility)
    ∷ (required_clutch_conversion, e.clutch_conversion)
    ∷ []

abbrev pub find_empty :
    List (RequiredEvidenceKind × ReceiptEvidenceSet) → Option RequiredEvidenceKind
find_empty [] = none
find_empty ((kind, evidence) ∷ rest) = if is_empty evidence then some kind else find_empty rest

unfoldable pub first_missing : RatingEvidenceBundle → Option RequiredEvidenceKind
first_missing e = find_empty (evidence_list e)

abbrev pub component_evidence : RatingEvidenceBundle → ComponentKind → ReceiptEvidenceSet
component_evidence e direct_damage = e.direct_damage
component_evidence e frag_balance = e.frag_balance
component_evidence e opening_duels = e.opening_duels
component_evidence e trade_kills = e.trade_kills
component_evidence e utility = e.utility
component_evidence e clutch_conversion = e.clutch_conversion

pub record RatingInput : Type 0 where
  pub identity : CalculationIdentity
  pub game_build : Text
  pub metrics : RatingMetrics
  pub irregularities : MatchIrregularities
  pub evidence_failure : Option EvidenceFailure
  pub evidence : RatingEvidenceBundle

-- The rounds observed and the rounds required.
pub data UnavailableReason : Type 0 where
  insufficient_eligible_rounds : ℕ → ℕ → UnavailableReason
  evidence_reason : EvidenceFailure → UnavailableReason
  missing_required_evidence : RequiredEvidenceKind → UnavailableReason
  forfeit_without_winner : UnavailableReason

pub data PreviewReason : Type 0 where
  short_sample : ℕ → ℕ → PreviewReason
  missed_round surrendered : PreviewReason

pub data TrendExclusionReason : Type 0 where
  excluded_preview excluded_roster excluded_unavailable : TrendExclusionReason

pub data RatingStatus : Type 0 where
  unavailable : UnavailableReason → RatingStatus
  preview : List PreviewReason → RatingStatus
  rated : RatingStatus

pub record ComponentReceipt : Type 0 where
  pub kind : ComponentKind
  pub exact_numerator : ℤ
  pub exact_denominator : ℕ
  pub weight : Rational
  pub evidence_ids : List Text

pub record RatingReceipt : Type 0 where
  pub identity : CalculationIdentity
  pub game_build : Text
  pub inputs : RatingMetrics
  pub irregularities : MatchIrregularities
  pub evidence : RatingEvidenceBundle
  pub status : RatingStatus
  pub trend_exclusions : List TrendExclusionReason
  pub components : Option ComponentVector
  pub component_receipts : Option (List ComponentReceipt)
  pub rating_exact : Option Rational
  pub rating_bp : Option RatingBasisPoints

abbrev pub is_rated : RatingStatus → Bool
is_rated rated = true
is_rated _ = false

unfoldable pub trend_eligible : RatingReceipt → Bool
trend_eligible r = is_rated r.status && is_empty r.trend_exclusions

pub data RatingInputError : Type 0 where
  clutch_wins_exceed_opportunities : RatingInputError
  exact : ExactError → RatingInputError
