-- ===== src/Live/Coordinator/Saves.antt =====
-- `request_capture_save`, `manual_flag`, `on_timer` and `retry_capture` of
-- crates/openfrag-live/src/lib.rs.
use openfrag.Common.{
  ℕ, Bool, true, false, Option, none, some, [], ◌++◌, Result, ok, err, if◌then◌else◌, ltb,
  saturating_add,
}
use openfrag.Common.Text.{Text, ascii, decimal}
use openfrag.Common.Map
use openfrag.Highlight.Candidate.{HighlightCandidate}
use openfrag.Highlight.Capture.{
  AutoCaptureDecision, awaiting_round_end, save, auto_capture_window, manual_capture_window,
}
use openfrag.Capture.Supervisor.State.{manual_flag as manual_provenance, SaveRequestOutcome}
use openfrag.Live.Records.{
  CaptureRecord, CaptureKind, auto_round_end, manual_flag as manual_kind, CaptureStatus, scheduled,
  requesting, save_requested, retryable, LiveDiagnostic, recorder, missing_capture, invalid_domain,
  World, TimerOutcome, not_due, timer_save_requested, already_handled, TimerId, raw_coverage,
}
use openfrag.Live.Coordinator.{
  Live, Exec, pure, raise, call, read, modify, with_capture, ◌>>=◌, ◌>>◌,
}

module _ {W : Type 0} (w : World W) where
  abbrev pub find_capture : Text → Exec W CaptureRecord
  find_capture id s = elim (Map.get id s.core.captures) [
    | none ↦ (s, err (missing_capture id))
    | some capture ↦ (s, ok capture)
  ]

  abbrev windowed : ℕ → CaptureRecord → AutoCaptureDecision → Exec W CaptureRecord
  windowed now capture awaiting_round_end = raise invalid_domain
  windowed now capture (save window) = do
    available ← read w.available_from_ms
    pure (record capture { window = some window; raw_coverage = some (raw_coverage now available) })

  abbrev plan_window :
      ℕ → CaptureRecord → CaptureKind → Option HighlightCandidate → Exec W CaptureRecord
  plan_window now capture manual_kind candidate = pure capture
  plan_window now capture auto_round_end none = raise invalid_domain
  plan_window now capture auto_round_end (some candidate) = do
    available ← read w.available_from_ms
    windowed now capture
        (auto_capture_window candidate.range.start_ms capture.round_end_ms available)

  -- The status is stored and kept under the capture's identity, then the outcome is returned.
  abbrev pub settle :
      Text → CaptureRecord → Result LiveDiagnostic TimerOutcome → Exec W TimerOutcome
  settle id capture outcome = do
    call (w.upsert_capture capture)
    modify (with_capture id capture)
    λ s. (s, outcome)

  abbrev request :
      Text
      → CaptureRecord
      → Live W
      → W × Result Text SaveRequestOutcome
      → Live W × Result LiveDiagnostic TimerOutcome
  request id capture s (world, ok outcome) =
      settle id (record capture { status = save_requested outcome }) (ok timer_save_requested)
        (record s { world = world })
  request id capture s (world, err message) =
      settle id (record capture { status = retryable message }) (err (recorder message))
        (record s { world = world })

  unfoldable pub request_capture_save : Text → Exec W TimerOutcome
  request_capture_save id = do
    found ← find_capture id
    now ← read w.now_ms
    capture ← plan_window now found found.kind found.candidate
    λ s. request id capture s (w.request_save capture.id capture.provenance s.world)

  abbrev pub is_scheduled : CaptureStatus → Bool
  is_scheduled scheduled = true
  is_scheduled _ = false

  abbrev pub is_retryable : CaptureStatus → Bool
  is_retryable (retryable message) = true
  is_retryable _ = false

  abbrev timer_capture : TimerId → Exec W Text
  timer_capture timer s = elim (Map.get timer s.core.timers) [
    | none ↦ (s, err (missing_capture timer))
    | some id ↦ (s, ok id)
  ]

  abbrev on_due : Text → CaptureStatus → Exec W TimerOutcome
  on_due id status = if is_scheduled status then request_capture_save id else pure already_handled

  abbrev on_deadline : Text → CaptureRecord → Option ℕ → Exec W TimerOutcome
  on_deadline id capture none = pure already_handled
  on_deadline id capture (some deadline_ms) = do
    now ← read w.now_ms
    if ltb now deadline_ms then pure not_due else on_due id capture.status

  unfoldable pub on_timer : TimerId → Exec W TimerOutcome
  on_timer timer = do
    id ← timer_capture timer
    capture ← find_capture id
    on_deadline id capture capture.deadline_ms

  unfoldable pub retry_capture : Text → Exec W TimerOutcome
  retry_capture id = do
    capture ← find_capture id
    if is_retryable capture.status then request_capture_save id else pure already_handled

  abbrev pub manual_id : ℕ → ℕ → Text
  manual_id now ordinal = ascii "manual:" ++ (decimal now ++ (ascii ":" ++ decimal ordinal))

  abbrev pub manual_capture : Text → ℕ → ℕ → ℕ → CaptureRecord
  manual_capture id now available available_again = record {
    id = id;
    kind = manual_kind;
    round_id = none;
    provenance = manual_provenance;
    source_receipt_ids = [];
    candidate = none;
    final_labels = [];
    round_end_ms = none;
    deadline_ms = none;
    timer = none;
    window = some (manual_capture_window now available);
    raw_coverage = some (raw_coverage now available_again);
    status = requesting;
  }

  abbrev next_ordinal : Exec W ℕ
  next_ordinal s =
      let ordinal = saturating_add s.core.manual_ordinal 1 in
      (record s { core = record s.core { manual_ordinal = ordinal } }, ok ordinal)

  unfoldable pub manual_flag : Exec W Text
  manual_flag = do
    now ← read w.now_ms
    ordinal ← next_ordinal
    let id = manual_id now ordinal
    available ← read w.available_from_ms
    available_again ← read w.available_from_ms
    let capture = manual_capture id now available available_again
    call (w.upsert_capture capture)
    modify (with_capture id capture)
    requested ← request_capture_save id
    pure id
