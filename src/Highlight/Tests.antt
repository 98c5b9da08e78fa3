-- ===== src/Highlight/Tests.antt =====
-- The theorems on crates/openfrag-domain/src/highlight.rs at concrete candidates and plays.
use openfrag.Common.{ℕ, ◌+◌, ◌≡◌, some, List, [], ◌∷◌, arith}
use openfrag.Common.Text.{Text, ascii}
use openfrag.Highlight.Candidate.{HighlightCandidate, kill_milestone, rule_version_text}
use openfrag.Highlight.Merge.{merge_candidates}
use openfrag.Highlight.Merge.Fixpoint.{IsSeparated, merge_candidates-IsSeparated}
use openfrag.Highlight.Merge.Receipts.{covers, merge_candidates-covers}
use openfrag.Highlight.Capture.{CaptureWindow, save, auto_capture_window}
use openfrag.Highlight.Capture.Windows.{IsAutoWindow, auto_capture_window-IsAutoWindow}

abbrev candidate_at : ℕ → Text → HighlightCandidate
candidate_at at receipt = record {
  capture_session_id = ascii "s";
  round_id = ascii "m:3";
  rule_version = rule_version_text;
  range = record { start_ms = at; end_ms = at + 1_000 };
  contributor_starts_ms = at ∷ [];
  triggers = kill_milestone ∷ [];
  receipt_ids = receipt ∷ [];
}

abbrev three : List HighlightCandidate
three =
    candidate_at 50_000 (ascii "c")
    ∷ candidate_at 1_000 (ascii "a")
    ∷ candidate_at 9_000 (ascii "b")
    ∷ []

merge_candidates-IsSeparated_example : IsSeparated (merge_candidates three)
merge_candidates-IsSeparated_example = merge_candidates-IsSeparated three

merge_candidates-covers_example :
    covers (ascii "s") (ascii "m:3") (ascii "b") (merge_candidates three)
    ≡ covers (ascii "s") (ascii "m:3") (ascii "b") three
merge_candidates-covers_example =
    merge_candidates-covers (ascii "s") (ascii "m:3") (ascii "b") three

auto_capture_window-IsAutoWindow_example :
    (w : CaptureWindow) × (auto_capture_window 20_000 (some 80_000) 10_000 ≡ save w)
    × IsAutoWindow 20_000 80_000 10_000 w
auto_capture_window-IsAutoWindow_example =
    auto_capture_window-IsAutoWindow 20_000 80_000 10_000 (omega arith)
