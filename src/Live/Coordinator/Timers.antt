-- ===== src/Live/Coordinator/Timers.antt =====
-- What the deadline of a capture does, and when.
use openfrag.Common.{ℕ, ◌≤◌, ◌<◌, ◌≡◌, ◌⊎◌, false, some, arith, ok, if◌then◌else◌, ltb}
use openfrag.Common.Text.{Text}
use openfrag.Common.Map
use openfrag.Common.Map.{get-insert}
use openfrag.Live.Records.{CaptureRecord, scheduled, World, TimerId, not_due, already_handled}
use openfrag.Live.Coordinator.{Live}
use openfrag.Live.Coordinator.Saves.{on_timer, is_scheduled, request_capture_save}

module _ {W : Type 0} (w : World W) (timer : TimerId) (s : Live W) where
  -- A timer that fires before the deadline of its capture, or for a capture that is no longer
  -- scheduled, saves nothing: the coordinator stays as it was, what lies outside has been asked
  -- for the time and nothing else, and the answer tells the two cases apart.
  pub on_timer-idle :
      (id : Text) (capture : CaptureRecord) (deadline_ms : ℕ)
      → Map.get timer s.core.timers ≡ some id
      → Map.get id s.core.captures ≡ some capture
      → capture.deadline_ms ≡ some deadline_ms
      → (is_scheduled w capture.status ≡ false) ⊎ ((w.now_ms s.world).1 < deadline_ms)
      → on_timer w timer s ≡ (
        record { core = s.core; world = (w.now_ms s.world).0 },
        ok (if ltb (w.now_ms s.world).1 deadline_ms then not_due else already_handled),
      )
  unfolding on_timer
  on_timer-idle id capture deadline_ms t c d idle = ground arith

  -- At its deadline a scheduled capture is saved: the timer does what a request for its save does,
  -- once the clock has been read.
  pub on_timer-due :
      (id : Text) (capture : CaptureRecord) (deadline_ms : ℕ)
      → Map.get timer s.core.timers ≡ some id
      → Map.get id s.core.captures ≡ some capture
      → capture.deadline_ms ≡ some deadline_ms
      → capture.status ≡ scheduled
      → deadline_ms ≤ (w.now_ms s.world).1
      → on_timer w timer s
        ≡ request_capture_save w id (record { core = s.core; world = (w.now_ms s.world).0 })
  unfolding on_timer
  on_timer-due id capture deadline_ms t c d st due = ground arith
