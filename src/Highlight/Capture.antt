-- ===== src/Highlight/Capture.antt =====
-- Labels and capture windows of crates/openfrag-domain/src/highlight.rs.
pub mod Windows
use Prim.Native.Nat.{Ordering, compare}
use openfrag.Common.{
  ℕ, ◌+◌, ◌-◌, max, Bool, true, false, ◌&&◌, Option, none, some, List, [], ◌∷◌, ltb, leb, ◌==◌,
  if◌then◌else◌, is_some_and, saturating_add, saturating_sub,
}
use openfrag.Common.Sets.{set_insert}
use openfrag.Highlight.Candidate.{TimeRange}

abbrev pub replay_buffer_ms : ℕ
replay_buffer_ms = 60_000

abbrev pub auto_post_roll_ms : ℕ
auto_post_roll_ms = 10_000

abbrev pub desired_pre_roll_ms : ℕ
desired_pre_roll_ms = 15_000

pub data FinalHighlightLabel : Type 0 where
  multikill four_kill ace clutch knife : FinalHighlightLabel

-- The derived order is that of the constructors.
abbrev pub label_rank : FinalHighlightLabel → ℕ
label_rank multikill = 0
label_rank four_kill = 1
label_rank ace = 2
label_rank clutch = 3
label_rank knife = 4

abbrev pub label_cmp : FinalHighlightLabel → FinalHighlightLabel → Ordering
label_cmp a b = compare (label_rank a) (label_rank b)

pub record DemoHighlightEvidence : Type 0 where
  pub enemy_kills : ℕ
  pub clutch_opponents_at_start : Option ℕ
  pub team_won_round : Bool
  pub enemy_knife_kill : Bool

unfoldable pub final_labels : DemoHighlightEvidence → List FinalHighlightLabel
unfolding set_insert
final_labels evidence =
    let kills =
      if leb 5 evidence.enemy_kills
      then set_insert label_cmp ace []
      else if evidence.enemy_kills == 4
      then set_insert label_cmp four_kill []
      else if evidence.enemy_kills == 3
      then set_insert label_cmp multikill []
      else [] in
    let won =
      if evidence.team_won_round
        && is_some_and evidence.clutch_opponents_at_start (λ count. leb 2 count)
      then set_insert label_cmp clutch kills
      else kills in
    if evidence.enemy_knife_kill then set_insert label_cmp knife won else won

pub record CaptureWindow : Type 0 where
  pub requested_at_ms : ℕ
  pub desired : TimeRange
  pub available : TimeRange
  pub pre_roll_truncated : Bool

pub data AutoCaptureDecision : Type 0 where
  awaiting_round_end : AutoCaptureDecision
  save : CaptureWindow → AutoCaptureDecision

save_window : ℕ → ℕ → ℕ → CaptureWindow
save_window candidate_start_ms round_end_ms recorder_available_from_ms =
    let requested_at_ms = saturating_add round_end_ms auto_post_roll_ms in
    let start = saturating_sub candidate_start_ms desired_pre_roll_ms in
    let buffer_start = saturating_sub requested_at_ms replay_buffer_ms in
    let available_start = max (max start buffer_start) recorder_available_from_ms in
    record {
      requested_at_ms = requested_at_ms;
      desired = record { start_ms = start; end_ms = requested_at_ms };
      available = record { start_ms = available_start; end_ms = requested_at_ms };
      pre_roll_truncated = ltb start available_start;
    }

unfoldable pub auto_capture_window : ℕ → Option ℕ → ℕ → AutoCaptureDecision
unfolding save_window
auto_capture_window candidate_start_ms none recorder_available_from_ms = awaiting_round_end
auto_capture_window candidate_start_ms (some round_end_ms) recorder_available_from_ms =
    save (save_window candidate_start_ms round_end_ms recorder_available_from_ms)

unfoldable pub manual_capture_window : ℕ → ℕ → CaptureWindow
manual_capture_window flag_ms recorder_available_from_ms =
    let start = saturating_sub flag_ms desired_pre_roll_ms in
    let available_start = max start recorder_available_from_ms in
    record {
      requested_at_ms = flag_ms;
      desired = record { start_ms = start; end_ms = flag_ms };
      available = record { start_ms = available_start; end_ms = flag_ms };
      pre_roll_truncated = ltb start available_start;
    }
