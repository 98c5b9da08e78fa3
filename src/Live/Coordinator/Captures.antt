-- ===== src/Live/Coordinator/Captures.antt =====
-- `create_candidate`, `schedule_round_capture` and `cancel_unsaved` of
-- crates/openfrag-live/src/lib.rs.
pub mod Rounds
use openfrag.Common.{
  ℕ, Bool, true, false, max, Option, none, some, List, [], ◌∷◌, ◌++◌, Result, ok, err,
  if◌then◌else◌, leb, is_some, length, saturating_add,
}
use openfrag.Common.Text.{Text, ascii}
use openfrag.Common.Map
use openfrag.Common.Int.{ℤ, pos, negsuc, eqb_ℤ}
use openfrag.Gsi.Wire.{EvidenceReceipt}
use openfrag.Highlight.Candidate.{
  TimeRange, HighlightCandidate, HighlightError, CandidateTrigger, official_round_end_capture,
  live_kill_trigger, new_candidate,
}
use openfrag.Highlight.Merge.{merge_candidates}
use openfrag.Highlight.Capture.{auto_post_roll_ms}
use openfrag.Capture.Supervisor.State.{auto_round_end as auto_provenance}
use openfrag.Live.Records.{
  CandidateRecord, CaptureRecord, CaptureKind, auto_round_end, CaptureStatus, scheduled, retryable,
  cancelled, CancelReason, LiveDiagnostic, invalid_domain, World, TimerId, round_id, duration_ms,
}
use openfrag.Live.Coordinator.{Exec, pure, raise, call, modify, with_capture, ◌>>=◌, ◌>>◌}
use openfrag.Live.Coordinator.Saves.{find_capture}

-- `u8::try_from`.
abbrev pub to_u8 : ℤ → Option ℕ
to_u8 (pos n) = if leb n 255 then some n else none
to_u8 (negsuc n) = none

abbrev pub lift : {W A : Type 0} → Result HighlightError A → Exec W A
lift (ok a) = pure a
lift (err e) = raise invalid_domain

-- A range of one moment.
abbrev pub moment : ℕ → TimeRange
moment at_ms = record { start_ms = at_ms; end_ms = at_ms }

module _ {W : Type 0} (w : World W) where
  abbrev store_candidate : Text → CandidateRecord → Exec W Bool
  store_candidate round candidate_record = do
    call (w.upsert_candidate candidate_record)
    modify (λ c. record c { candidates = Map.insert round candidate_record c.candidates })
    pure true

  abbrev new_round_candidate : EvidenceReceipt → Text → Text → CandidateTrigger → Exec W Bool
  new_round_candidate receipt receipt_id round trigger s =
      if is_some (Map.get round s.core.candidates)
      then (s, ok false)
      else (let creating : Exec W Bool = (do
        candidate ← lift (
            new_candidate s.core.capture_session_id round (moment (duration_ms receipt)) trigger
              receipt_id)
        store_candidate round (record { candidate = candidate; final_labels = [] })) in
          creating s)

  abbrev triggered : EvidenceReceipt → Text → Text → Option CandidateTrigger → Exec W Bool
  triggered receipt receipt_id round none = pure false
  triggered receipt receipt_id round (some trigger) =
      new_round_candidate receipt receipt_id round trigger

  abbrev counted : EvidenceReceipt → Text → Text → Option ℕ → Exec W Bool
  counted receipt receipt_id round none = pure false
  counted receipt receipt_id round (some kills) =
      triggered receipt receipt_id round (live_kill_trigger true kills)

  abbrev in_context : EvidenceReceipt → Text → ℤ → Option Text → Option ℕ → Option ℤ → Exec W Bool
  in_context receipt receipt_id kills (some map_hash) (some round) (some context_kills) =
      if eqb_ℤ context_kills kills
      then counted receipt receipt_id (round_id map_hash round) (to_u8 kills)
      else pure false
  in_context receipt receipt_id kills _ _ _ = pure false

  unfoldable pub create_candidate : EvidenceReceipt → Text → ℤ → Exec W Bool
  create_candidate receipt receipt_id current_round_kills =
      in_context receipt receipt_id current_round_kills receipt.context.map_hash
        receipt.context.observed_round receipt.context.round_kills

  abbrev first_merged : List HighlightCandidate → Exec W HighlightCandidate
  first_merged [] = raise invalid_domain
  first_merged (c ∷ cs) = pure c

  -- What was seen of the round so far, extended to its end, and the official end of the round.
  abbrev round_candidate :
      ℕ → HighlightCandidate → Option CandidateRecord → Exec W HighlightCandidate
  round_candidate round_end_ms official none = pure official
  round_candidate round_end_ms official (some existing) =
      let range = existing.candidate.range in
      let extended = record existing.candidate {
        range = record range { end_ms = max round_end_ms range.end_ms };
      } in
      first_merged (merge_candidates (extended ∷ official ∷ []))

  abbrev pub auto_capture : Text → Text → TimerId → ℕ → ℕ → HighlightCandidate → CaptureRecord
  auto_capture id round timer round_end_ms deadline_ms candidate = record {
    id = id;
    kind = auto_round_end;
    round_id = some round;
    provenance = auto_provenance;
    source_receipt_ids = candidate.receipt_ids;
    candidate = some candidate;
    final_labels = [];
    round_end_ms = some round_end_ms;
    deadline_ms = some deadline_ms;
    timer = some timer;
    window = none;
    raw_coverage = none;
    status = scheduled;
  }

  abbrev dropping :
      {A : Type 0}
      → LiveDiagnostic
      → W × Result LiveDiagnostic (Unit {0})
      → W × Result LiveDiagnostic A
  dropping e (world, result) = (world, err e)

  -- A capture that cannot be stored is not left to its timer: the timer is cancelled, and the
  -- answer to that is dropped.
  abbrev or_cancel :
      TimerId → W × Result LiveDiagnostic (Unit {0}) → W × Result LiveDiagnostic (Unit {0})
  or_cancel timer (world, ok _) = (world, ok tt)
  or_cancel timer (world, err e) = dropping e (w.cancel timer world)

  abbrev pub capture_id_of : Text → Text
  capture_id_of round = ascii "auto:" ++ round

  abbrev pub timer_of : Text → TimerId
  timer_of id = ascii "timer:" ++ id

  abbrev pub schedule_capture : TimerId → ℕ → Text → CaptureRecord → Exec W Bool
  schedule_capture timer deadline_ms id capture = do
    call (w.schedule timer deadline_ms)
    call (λ world. or_cancel timer (w.upsert_capture capture world))
    modify (λ c. with_capture id capture (record c { timers = Map.insert timer id c.timers }))
    pure true

  abbrev pub plan_candidate : Text → ℕ → Text → Exec W HighlightCandidate
  plan_candidate round round_end_ms receipt_id s =
      let planning : Exec W HighlightCandidate = (do
        official ← lift (
            new_candidate s.core.capture_session_id round (moment round_end_ms)
              official_round_end_capture receipt_id)
        round_candidate round_end_ms official (Map.get round s.core.candidates)) in
      planning s

  abbrev pub schedule_planned : Text → ℕ → HighlightCandidate → Exec W Bool
  schedule_planned round round_end_ms candidate =
      let id = capture_id_of round in
      let timer = timer_of id in
      let deadline_ms = saturating_add round_end_ms auto_post_roll_ms in
      schedule_capture timer deadline_ms id
        (auto_capture id round timer round_end_ms deadline_ms candidate)

  abbrev pub new_round_capture : Text → ℕ → Text → Exec W Bool
  new_round_capture round round_end_ms receipt_id s =
      let scheduling : Exec W Bool = (do
        candidate ← plan_candidate round round_end_ms receipt_id
        schedule_planned round round_end_ms candidate) in
      if is_some (Map.get (capture_id_of round) s.core.captures)
      then (s, ok false)
      else scheduling s

  abbrev round_in_context : EvidenceReceipt → Text → ℕ → Option Text → Option ℕ → Exec W Bool
  round_in_context receipt receipt_id completed (some map_hash) (some observed) =
      new_round_capture (round_id map_hash completed) (duration_ms receipt) receipt_id
  round_in_context receipt receipt_id completed _ _ = pure false

  unfoldable pub schedule_round_capture : EvidenceReceipt → Text → ℕ → Exec W Bool
  schedule_round_capture receipt receipt_id completed_round =
      round_in_context receipt receipt_id completed_round receipt.context.map_hash
        receipt.context.observed_round

  abbrev pub is_unsaved : CaptureKind → CaptureStatus → Bool
  is_unsaved auto_round_end scheduled = true
  is_unsaved auto_round_end (retryable message) = true
  is_unsaved _ _ = false

  unfoldable pub unsaved_ids : List (Text × CaptureRecord) → List Text
  unsaved_ids [] = []
  unsaved_ids ((id, capture) ∷ rest) =
      if is_unsaved capture.kind capture.status then id ∷ unsaved_ids rest else unsaved_ids rest

  abbrev cancel_timer : Option TimerId → Exec W (Unit {0})
  cancel_timer none = pure tt
  cancel_timer (some timer) = call (w.cancel timer)

  unfoldable pub cancel_capture : CancelReason → Text → Exec W (Unit {0})
  cancel_capture reason id = do
    capture ← find_capture w id
    cancel_timer capture.timer
    let gone = record capture { status = cancelled reason }
    call (w.upsert_capture gone)
    modify (with_capture id gone)

  unfoldable pub cancel_each : CancelReason → List Text → Exec W (Unit {0})
  unfolding cancel_capture
  cancel_each reason [] = pure tt
  cancel_each reason (id ∷ ids) = do cancel_capture reason id; cancel_each reason ids

  unfoldable pub cancel_unsaved : CancelReason → Exec W ℕ
  unfolding cancel_each unsaved_ids
  cancel_unsaved reason s =
      let ids = unsaved_ids s.core.captures in
      let cancelling : Exec W ℕ = (do cancel_each reason ids; pure (length ids)) in cancelling s
