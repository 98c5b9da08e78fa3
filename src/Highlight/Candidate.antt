-- ===== src/Highlight/Candidate.antt =====
-- `HighlightCandidate` of crates/openfrag-domain/src/highlight.rs.
use Prim.Native.Nat.{Ordering, compare}
use openfrag.Common.{
  ℕ, ◌-◌, min, max, Bool, ◌&&◌, ◌||◌, Option, none, some, List, [], ◌∷◌, ltb, leb, if◌then◌else◌,
  any, Result, ok, err,
}
use openfrag.Common.Text.{Text, text_eq, text_cmp, ascii}
use openfrag.Common.Sets.{set_union, list_cmp, then_cmp}

pub record TimeRange : Type 0 where
  pub start_ms : ℕ
  pub end_ms : ℕ

unfoldable pub overlaps : TimeRange → TimeRange → Bool
overlaps r s = leb r.start_ms s.end_ms && leb s.start_ms r.end_ms

pub data CandidateTrigger : Type 0 where
  kill_milestone possible_knife official_round_end_capture : CandidateTrigger

abbrev pub trigger_rank : CandidateTrigger → ℕ
trigger_rank kill_milestone = 0
trigger_rank possible_knife = 1
trigger_rank official_round_end_capture = 2

abbrev pub trigger_cmp : CandidateTrigger → CandidateTrigger → Ordering
trigger_cmp a b = compare (trigger_rank a) (trigger_rank b)

unfoldable pub live_kill_trigger : Bool → ℕ → Option CandidateTrigger
live_kill_trigger local_identity_valid round_kills =
    if local_identity_valid && leb 3 round_kills then some kill_milestone else none

abbrev pub rule_version_text : Text
rule_version_text = ascii "highlight-rules-1"

pub record HighlightCandidate : Type 0 where
  pub capture_session_id : Text
  pub round_id : Text
  pub rule_version : Text
  pub range : TimeRange
  pub contributor_starts_ms : List ℕ
  pub triggers : List CandidateTrigger
  pub receipt_ids : List Text

pub data HighlightError : Type 0 where
  reversed_range : HighlightError

unfoldable pub new_candidate :
    Text → Text → TimeRange → CandidateTrigger → Text → Result HighlightError HighlightCandidate
new_candidate capture_session_id round_id range trigger receipt_id =
    if ltb range.end_ms range.start_ms
    then err reversed_range
    else ok (record {
      capture_session_id = capture_session_id;
      round_id = round_id;
      rule_version = rule_version_text;
      range = range;
      contributor_starts_ms = range.start_ms ∷ [];
      triggers = trigger ∷ [];
      receipt_ids = receipt_id ∷ [];
    })

abbrev pub candidate_merge_gap_ms : ℕ
candidate_merge_gap_ms = 10_000

-- `abs_diff`.
abbrev pub abs_diff : ℕ → ℕ → ℕ
abs_diff a b = if leb b a then a - b else b - a

unfoldable pub close_starts : List ℕ → List ℕ → Bool
close_starts lefts rights =
    any (λ left. any (λ right. leb (abs_diff left right) candidate_merge_gap_ms) rights) lefts

unfoldable pub same_round : HighlightCandidate → HighlightCandidate → Bool
same_round a b =
    text_eq a.capture_session_id b.capture_session_id
    && text_eq a.round_id b.round_id
    && text_eq a.rule_version b.rule_version

unfoldable pub can_merge : HighlightCandidate → HighlightCandidate → Bool
unfolding same_round overlaps close_starts
can_merge a b =
    same_round a b
    && (overlaps a.range b.range || close_starts a.contributor_starts_ms b.contributor_starts_ms)

unfoldable pub merged : HighlightCandidate → HighlightCandidate → HighlightCandidate
unfolding set_union
merged a b = record a {
  range = record {
    start_ms = min a.range.start_ms b.range.start_ms;
    end_ms = max a.range.end_ms b.range.end_ms;
  };
  contributor_starts_ms = set_union compare a.contributor_starts_ms b.contributor_starts_ms;
  triggers = set_union trigger_cmp a.triggers b.triggers;
  receipt_ids = set_union text_cmp a.receipt_ids b.receipt_ids;
}

abbrev pub range_cmp : TimeRange → TimeRange → Ordering
range_cmp a b = then_cmp (compare a.start_ms b.start_ms) (compare a.end_ms b.end_ms)

unfoldable pub candidate_order : HighlightCandidate → HighlightCandidate → Ordering
unfolding text_cmp list_cmp
candidate_order a b = then_cmp (text_cmp a.capture_session_id b.capture_session_id) (
    then_cmp (text_cmp a.round_id b.round_id) (
      then_cmp (text_cmp a.rule_version b.rule_version)
        (then_cmp (range_cmp a.range b.range) (list_cmp text_cmp a.receipt_ids b.receipt_ids))))
