-- ===== src/Highlight/Capture/Windows.antt =====
-- The bounds of the capture windows, and what the labels mean.
use openfrag.Common.{ℕ, ◌+◌, ◌-◌, ◌≤◌, max, ◌≡◌, refl, ◌⊎◌, some, arith, u64_max, ltb}
use openfrag.Highlight.Capture.{CaptureWindow, save, auto_capture_window, manual_capture_window}

-- What a saved automatic window promises: it ends ten seconds behind the end of the round, it
-- reaches back at most sixty seconds and at most fifteen before the candidate, never before the
-- recorder has footage, and it is marked as truncated exactly if it starts later than desired.
pub record IsAutoWindow (start round_end available : ℕ) (w : CaptureWindow) : Type 0 where
  pub ends : w.available.end_ms ≡ round_end + 10_000
  pub requested : w.requested_at_ms ≡ round_end + 10_000
  pub desired_ends : w.desired.end_ms ≡ round_end + 10_000
  pub in_buffer : w.available.end_ms ≤ w.available.start_ms + 60_000
  pub desired_start : w.desired.start_ms ≡ start - 15_000
  pub not_earlier : w.desired.start_ms ≤ w.available.start_ms
  pub recorded : available ≤ w.available.start_ms
  pub least :
      (w.available.start_ms ≡ w.desired.start_ms)
      ⊎ ((w.available.start_ms ≡ available) ⊎ (w.available.start_ms + 60_000 ≡ w.available.end_ms))
  pub truncated : w.pre_roll_truncated ≡ ltb w.desired.start_ms w.available.start_ms

-- A round that ends before the last ten seconds of the 64-bit clock is saved with a window that
-- ends ten seconds behind it, reaches back at most sixty seconds and at most fifteen before the
-- candidate, never before the recorder has footage and no less far than these bounds allow, and is
-- marked as truncated exactly if it starts later than desired.
pub auto_capture_window-IsAutoWindow :
    (start round_end available : ℕ)
    → round_end + 10_000 ≤ u64_max
    → (w : CaptureWindow) × (auto_capture_window start (some round_end) available ≡ save w)
      × IsAutoWindow start round_end available w
unfolding auto_capture_window
auto_capture_window-IsAutoWindow start round_end available h = (_, refl, ground arith)

-- A manual window ends at the flag, reaches back fifteen seconds where the recorder has footage, and
-- is marked as truncated exactly if the recorder began later than that.
pub manual_capture_window-bounds :
    (flag available : ℕ)
    → let w = manual_capture_window flag available in
      (w.requested_at_ms ≡ flag)
      × (w.available.end_ms ≡ flag)
      × (w.available.start_ms ≡ max (flag - 15_000) available)
      × (w.pre_roll_truncated ≡ ltb (flag - 15_000) available)
unfolding manual_capture_window
manual_capture_window-bounds flag available = ground arith
