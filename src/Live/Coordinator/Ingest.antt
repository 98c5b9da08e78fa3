-- ===== src/Live/Coordinator/Ingest.antt =====
-- `ingest` of crates/openfrag-live/src/lib.rs.
pub mod Once
use openfrag.Common.{
  ℕ, suc, ◌+◌, Bool, true, false, ◌&&◌, ◌||◌, Option, none, some, List, [], ◌∷◌, Result, ok, err,
  if◌then◌else◌, any,
}
use openfrag.Common.Text.{Text, text_eq}
use openfrag.Common.Int.{ℤ, pos, leb_ℤ, ltb_ℤ}
use openfrag.Gsi.Wire.{
  EvidenceReceipt, StateOutput, seeded, healthy, stale as stale_output, recovered,
  session_reset as reset_output, TransitionFact, cumulative_kill_delta, cumulative_death_delta,
  round_kill_delta, health_depleted, round_end,
}
use openfrag.Live.Records.{CancelReason, stale, session_reset, LiveDiagnostic, World, receipt_id}
use openfrag.Live.Coordinator.{Coordinator, Live, Exec, pure, call, modify, ◌>>=◌, ◌>>◌}
use openfrag.Live.Coordinator.Captures.{create_candidate, schedule_round_capture, cancel_unsaved}

pub record IngestOutcome : Type 0 where
  pub candidates_created : ℕ
  pub captures_scheduled : ℕ
  pub captures_cancelled : ℕ

abbrev pub nothing : IngestOutcome
nothing = record { candidates_created = 0; captures_scheduled = 0; captures_cancelled = 0 }

-- `usize::from`.
abbrev from_bool : Bool → ℕ
from_bool true = 1
from_bool false = 0

abbrev pub is_processed : Text → List Text → Bool
is_processed id processed = any (text_eq id) processed

module _ {W : Type 0} (w : World W) where
  abbrev pub on_output : StateOutput → Exec W ℕ
  on_output stale_output = cancel_unsaved w stale
  on_output reset_output = cancel_unsaved w session_reset
  on_output seeded = pure 0
  on_output healthy = pure 0
  on_output recovered = pure 0

  abbrev pub on_fact :
      EvidenceReceipt → Text → TransitionFact → IngestOutcome → Exec W IngestOutcome
  on_fact receipt id (round_kill_delta previous current delta) outcome =
      if leb_ℤ (pos 0) previous && ltb_ℤ (pos 0) delta && leb_ℤ (pos 3) current
      then (do
        created ← create_candidate w receipt id current
        pure (record outcome {
          candidates_created = outcome.candidates_created + from_bool created;
        }))
      else pure outcome
  on_fact receipt id (round_end completed next) outcome = do
    planned ← schedule_round_capture w receipt id completed
    pure (record outcome { captures_scheduled = outcome.captures_scheduled + from_bool planned })
  on_fact receipt id (cumulative_kill_delta previous current delta) outcome = pure outcome
  on_fact receipt id (cumulative_death_delta previous current delta) outcome = pure outcome
  on_fact receipt id (health_depleted previous current) outcome = pure outcome

  unfoldable pub on_facts :
      EvidenceReceipt → Text → List TransitionFact → IngestOutcome → Exec W IngestOutcome
  on_facts receipt id [] outcome = pure outcome
  on_facts receipt id (fact ∷ facts) outcome = do
    next ← on_fact receipt id fact outcome
    on_facts receipt id facts next

  unfoldable pub apply_receipt : EvidenceReceipt → Text → Exec W IngestOutcome
  apply_receipt receipt id = do
    cancelled ← on_output receipt.output
    outcome ← on_facts receipt id receipt.facts (record nothing { captures_cancelled = cancelled })
    modify (λ c. record c { processed_receipts = id ∷ c.processed_receipts })
    pure outcome

  abbrev pub apply_once : EvidenceReceipt → Text → Exec W IngestOutcome
  apply_once receipt id s =
      if is_processed id s.core.processed_receipts
      then (s, ok nothing)
      else apply_receipt receipt id s

  unfoldable pub ingest : EvidenceReceipt → Exec W IngestOutcome
  ingest receipt = do call (w.persist_receipt receipt); apply_once receipt (receipt_id receipt)
