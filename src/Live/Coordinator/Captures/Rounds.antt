-- ===== src/Live/Coordinator/Captures/Rounds.antt =====
-- A round gets one automatic capture.
use openfrag.Common.{
  ℕ, ◌≡◌, true, false, none, some, List, arith, ok, is_some, inl, inr, Bool-cases, Option-cases,
  ◌≢◌, ◌∙◌, saturating_add,
}
use openfrag.Common.Text.{Text, text_eq_refl}
use openfrag.Common.Map
use openfrag.Common.Map.{get-insert}
use openfrag.Gsi.Wire.{EvidenceReceipt}
use openfrag.Highlight.Candidate.{HighlightCandidate}
use openfrag.Highlight.Capture.{auto_post_roll_ms}
use openfrag.Live.Records.{CaptureRecord, World, TimerId, round_id, duration_ms}
use openfrag.Live.Coordinator.{Live, continue-returns}
use openfrag.Live.Coordinator.Captures.{
  timer_of, auto_capture, plan_candidate, schedule_planned, schedule_capture, new_round_capture,
  schedule_round_capture, capture_id_of,
}

get-insert-same :
    (id : Text) (capture : CaptureRecord) (captures : List (Text × CaptureRecord))
    → is_some (Map.get id (Map.insert id capture captures)) ≡ true
get-insert-same id capture captures = rw (get-insert id id capture captures) (rw (text_eq_refl id))

abbrev HasCapture : {W : Type 0} → Text → Live W → Type 0
HasCapture id s = is_some (Map.get id s.core.captures) ≡ true

module _ {W : Type 0} (w : World W) where
  schedule_capture-has :
      (timer : TimerId) (deadline_ms : ℕ) (id : Text) (capture : CaptureRecord) (s : Live W)
      → (schedule_capture w timer deadline_ms id capture s).1 ≡ ok true
      → HasCapture id (schedule_capture w timer deadline_ms id capture s).0
  schedule_capture-has timer deadline_ms id capture s h =
      ground (arith, get-insert-same id capture s.core.captures)

  schedule_planned-has :
      (round : Text) (round_end_ms : ℕ) (candidate : HighlightCandidate) (s : Live W)
      → (schedule_planned w round round_end_ms candidate s).1 ≡ ok true
      → HasCapture (capture_id_of w round) (schedule_planned w round round_end_ms candidate s).0
  schedule_planned-has round round_end_ms candidate s h =
      let id = capture_id_of w round in
      let timer = timer_of w id in
      let deadline_ms = saturating_add round_end_ms auto_post_roll_ms in
      schedule_capture-has timer deadline_ms id
        (auto_capture w id round timer round_end_ms deadline_ms candidate) s h

  new_round_capture-has :
      (round : Text) (round_end_ms : ℕ) (receipt_id : Text) (s : Live W)
      → (new_round_capture w round round_end_ms receipt_id s).1 ≡ ok true
      → HasCapture (capture_id_of w round) (new_round_capture w round round_end_ms receipt_id s).0
  new_round_capture-has round round_end_ms receipt_id s h =
      elim (Bool-cases (is_some (Map.get (capture_id_of w round) s.core.captures))) [
        | inl there ↦ absurd (ground arith)
        | inr absent ↦ rw absent (
            continue-returns (λ (c : HighlightCandidate). schedule_planned w round round_end_ms c)
              (HasCapture (capture_id_of w round))
              (plan_candidate w round round_end_ms receipt_id s)
              (λ candidate t. schedule_planned-has round round_end_ms candidate t) (rw absent at h))
      ]

  schedule_round_capture-has :
      (receipt : EvidenceReceipt) (id : Text) (completed : ℕ) (map_hash : Text) (s : Live W)
      → receipt.context.map_hash ≡ some map_hash
      → (schedule_round_capture w receipt id completed s).1 ≡ ok true
      → HasCapture
          (capture_id_of w (round_id map_hash completed))
          (schedule_round_capture w receipt id completed s).0
  unfolding schedule_round_capture
  schedule_round_capture-has receipt id completed map_hash s m h =
      ground (arith, new_round_capture-has (round_id map_hash completed) (duration_ms receipt) id s)

  schedule_round_capture-needs :
      (receipt : EvidenceReceipt) (id : Text) (completed : ℕ) (s : Live W)
      → receipt.context.map_hash ≡ none
      → (schedule_round_capture w receipt id completed s).1 ≢ ok true
  unfolding schedule_round_capture
  schedule_round_capture-needs receipt id completed s m h = ground arith

  schedule_round_capture-none :
      (receipt : EvidenceReceipt) (id : Text) (completed : ℕ) (map_hash : Text) (s : Live W)
      → receipt.context.map_hash ≡ some map_hash
      → HasCapture (capture_id_of w (round_id map_hash completed)) s
      → schedule_round_capture w receipt id completed s ≡ (s, ok false)
  unfolding schedule_round_capture
  schedule_round_capture-none receipt id completed map_hash s m h = ground arith

  -- A round of a map gets one automatic capture: once it has been scheduled, to schedule it again,
  -- whatever receipt on that map reports its end, changes nothing, neither in the coordinator nor
  -- outside.
  pub schedule_round_capture-once :
      (first second : EvidenceReceipt) (id id' : Text) (completed : ℕ) (s : Live W)
      → second.context.map_hash ≡ first.context.map_hash
      → (schedule_round_capture w first id completed s).1 ≡ ok true
      → schedule_round_capture w second id' completed
          (schedule_round_capture w first id completed s).0
        ≡ ((schedule_round_capture w first id completed s).0, ok false)
  schedule_round_capture-once first second id id' completed s same done =
      elim (Option-cases first.context.map_hash) [
        | inl missing ↦ absurd (schedule_round_capture-needs first id completed s missing done)
        | inr (map_hash, found) ↦
            schedule_round_capture-none second id' completed map_hash
              (schedule_round_capture w first id completed s).0 (same ∙ found)
              (schedule_round_capture-has first id completed map_hash s found done)
      ]
