-- ===== src/Live/Records.antt =====
-- The records of crates/openfrag-live/src/lib.rs, its identifiers, and the traits that the
-- coordinator is built on: the evidence store, the recorder and the scheduler, as functions on a
-- state `W` of all that lies outside.
use openfrag.Common.{ℕ, ◌/◌, max, min, Option, List, ◌++◌, Result, saturating_sub, u64_max}
use openfrag.Common.Text.{Text, ascii, decimal}
use openfrag.Gsi.Wire.{EvidenceReceipt}
use openfrag.Highlight.Candidate.{TimeRange, HighlightCandidate}
use openfrag.Highlight.Capture.{FinalHighlightLabel, CaptureWindow, replay_buffer_ms}
use openfrag.Capture.Supervisor.State.{SaveProvenance, SaveRequestOutcome}

abbrev pub TimerId : Type 0
TimerId = Text

pub data CaptureKind : Type 0 where
  auto_round_end manual_flag : CaptureKind

pub data CancelReason : Type 0 where
  stale session_reset : CancelReason

pub data CaptureStatus : Type 0 where
  scheduled requesting : CaptureStatus
  save_requested : SaveRequestOutcome → CaptureStatus
  retryable : Text → CaptureStatus
  cancelled : CancelReason → CaptureStatus

pub record CandidateRecord : Type 0 where
  pub candidate : HighlightCandidate
  pub final_labels : List FinalHighlightLabel

pub record CaptureRecord : Type 0 where
  pub id : Text
  pub kind : CaptureKind
  pub round_id : Option Text
  pub provenance : SaveProvenance
  pub source_receipt_ids : List Text
  pub candidate : Option HighlightCandidate
  pub final_labels : List FinalHighlightLabel
  pub round_end_ms : Option ℕ
  pub deadline_ms : Option ℕ
  pub timer : Option TimerId
  pub window : Option CaptureWindow
  pub raw_coverage : Option TimeRange
  pub status : CaptureStatus

pub data LiveDiagnostic : Type 0 where
  persistence unsupported storage_requirement : Text → LiveDiagnostic
  recorder scheduler missing_capture : Text → LiveDiagnostic
  invalid_domain : LiveDiagnostic

-- The traits `EvidenceStore`, `Recorder`, `Clock` and `Scheduler`. A call may change what is outside.
pub record World (W : Type 0) : Type 0 where
  pub persist_receipt : EvidenceReceipt → W → W × Result LiveDiagnostic (Unit {0})
  pub upsert_candidate : CandidateRecord → W → W × Result LiveDiagnostic (Unit {0})
  pub upsert_capture : CaptureRecord → W → W × Result LiveDiagnostic (Unit {0})
  pub available_from_ms : W → W × ℕ
  pub request_save : Text → SaveProvenance → W → W × Result Text SaveRequestOutcome
  pub now_ms : W → W × ℕ
  pub schedule : TimerId → ℕ → W → W × Result LiveDiagnostic (Unit {0})
  pub cancel : TimerId → W → W × Result LiveDiagnostic (Unit {0})

pub data TimerOutcome : Type 0 where
  not_due timer_save_requested already_handled : TimerOutcome

unfoldable pub receipt_id : EvidenceReceipt → Text
unfolding decimal
receipt_id receipt = receipt.payload_hash ++ (ascii ":" ++ decimal receipt.sequence)

unfoldable pub round_id : Text → ℕ → Text
unfolding decimal
round_id map_hash round = map_hash ++ (ascii ":" ++ decimal round)

-- `received_at` is in nanoseconds; past the range of `u64` the milliseconds are its largest value.
unfoldable pub duration_ms : EvidenceReceipt → ℕ
duration_ms receipt = min (receipt.received_at / 1_000_000) u64_max

unfoldable pub raw_coverage : ℕ → ℕ → TimeRange
raw_coverage requested_at_ms recorder_available_from_ms = record {
  start_ms = max (saturating_sub requested_at_ms replay_buffer_ms) recorder_available_from_ms;
  end_ms = requested_at_ms;
}
