-- ===== src/Clips/Model.antt =====
-- The clip, its parts and its rehydration, in crates/openfrag-clips/src/lib.rs.
pub mod Durable
use openfrag.Common.{
  ℕ, ◌≡◌, Bool, true, false, ◌&&◌, ◌||◌, not, Option, none, some, List, [], ◌∷◌, ltb, leb, ◌==◌,
  if◌then◌else◌, is_some, is_empty, all, Result, ok, err, ◌>>=◌, ◌>>◌,
}
use openfrag.Common.Text.{Text, text_eq}
use openfrag.Common.FilePath.{FilePath}

pub data ModelError : Type 0 where
  empty_identifier empty_hash zero_duration reversed_or_empty_trim missing_evidence : ModelError

abbrev pub ClipId : Type 0
ClipId = Text

unfoldable pub clip_id : Text → Result ModelError ClipId
clip_id value = if is_empty value then err empty_identifier else ok value

pub record ArtifactProvenance : Type 0 where
  pub artifact_id : Text
  pub path : FilePath
  pub sha256 : Text
  pub duration_ms : ℕ
  pub bytes : ℕ

unfoldable pub artifact_provenance :
    Text → FilePath → Text → ℕ → ℕ → Result ModelError ArtifactProvenance
artifact_provenance artifact_id path sha256 duration_ms bytes =
    if is_empty artifact_id
    then err empty_identifier
    else if is_empty sha256
    then err empty_hash
    else if duration_ms == 0
    then err zero_duration
    else ok (record {
      artifact_id = artifact_id;
      path = path;
      sha256 = sha256;
      duration_ms = duration_ms;
      bytes = bytes;
    })

pub record TrimRange : Type 0 where
  pub start_ms : ℕ
  pub end_ms : ℕ

unfoldable pub trim_range : ℕ → ℕ → Result ModelError TrimRange
trim_range start_ms end_ms =
    if leb end_ms start_ms
    then err reversed_or_empty_trim
    else ok (record { start_ms = start_ms; end_ms = end_ms })

pub record DerivativeProvenance : Type 0 where
  pub artifact : ArtifactProvenance
  pub source_artifact_id : Text
  pub trim : TrimRange

-- The receipts that triggered a highlight and those that are its evidence; or the receipt of a
-- flag, its time and the receipts of the highlights that it overlaps.
pub data ClipOrigin : Type 0 where
  auto_highlight : List Text → List Text → ClipOrigin
  manual_flag : Text → ℕ → List Text → ClipOrigin

unfoldable pub new_auto_highlight : List Text → List Text → Result ModelError ClipOrigin
new_auto_highlight trigger_receipts evidence_receipts =
    if is_empty trigger_receipts || is_empty evidence_receipts
    then err missing_evidence
    else ok (auto_highlight trigger_receipts evidence_receipts)

unfoldable pub new_manual_flag : Text → ℕ → List Text → Result ModelError ClipOrigin
new_manual_flag flag_receipt_id flag_time_ms overlapping_auto_receipts =
    if is_empty flag_receipt_id
    then err missing_evidence
    else ok (manual_flag flag_receipt_id flag_time_ms overlapping_auto_receipts)

pub data ReviewState : Type 0 where
  provisional : ReviewState
  reviewed rejected : ℕ → ReviewState

pub record Clip : Type 0 where
  pub id : ClipId
  pub revision : ℕ
  pub source_capture : ArtifactProvenance
  pub capture_session_id : Text
  pub origin : ClipOrigin
  pub review_state : ReviewState
  pub title : Text
  pub note : Text
  pub tags : List Text
  pub favorite : Bool
  pub derivative : Option DerivativeProvenance

-- What a store gives to rehydrate a clip from has the fields of a clip.
pub record DurableClipSnapshot : Type 0 where
  pub id : ClipId
  pub revision : ℕ
  pub source_capture : ArtifactProvenance
  pub capture_session_id : Text
  pub origin : ClipOrigin
  pub review_state : ReviewState
  pub title : Text
  pub note : Text
  pub tags : List Text
  pub favorite : Bool
  pub derivative : Option DerivativeProvenance

pub data ClipRehydrationError : Type 0 where
  empty_capture_session empty_origin_evidence inconsistent_revision : ClipRehydrationError
  provisional_state_has_review_data derivative_has_wrong_source : ClipRehydrationError
  derivative_reuses_source_artifact trim_outside_source : ClipRehydrationError

unfoldable pub new_provisional :
    ClipId → ArtifactProvenance → Text → ClipOrigin → Text → Result ModelError Clip
new_provisional id source_capture capture_session_id origin default_title =
    if is_empty capture_session_id
    then err empty_identifier
    else ok (record {
      id = id;
      revision = 0;
      source_capture = source_capture;
      capture_session_id = capture_session_id;
      origin = origin;
      review_state = provisional;
      title = default_title;
      note = [];
      tags = [];
      favorite = false;
      derivative = none;
    })

abbrev pub not_empty : Text → Bool
not_empty receipt = not (is_empty receipt)

abbrev pub evidence_valid : ClipOrigin → Bool
evidence_valid (auto_highlight trigger_receipts evidence_receipts) =
    not (is_empty trigger_receipts)
    && not (is_empty evidence_receipts)
    && all not_empty trigger_receipts
    && all not_empty evidence_receipts
evidence_valid (manual_flag flag_receipt_id flag_time_ms overlapping_auto_receipts) =
    not_empty flag_receipt_id && all not_empty overlapping_auto_receipts

abbrev pub check_review_state :
    DurableClipSnapshot → ReviewState → Result ClipRehydrationError (Unit {0})
check_review_state s provisional =
    if not (s.revision == 0)
    then err inconsistent_revision
    else if not (is_empty s.note) || not (is_empty s.tags) || s.favorite || is_some s.derivative
    then err provisional_state_has_review_data
    else ok tt
check_review_state s (reviewed at) = if s.revision == 0 then err inconsistent_revision else ok tt
check_review_state s (rejected at) = if s.revision == 0 then err inconsistent_revision else ok tt

abbrev pub check_derivative :
    DurableClipSnapshot → Option DerivativeProvenance → Result ClipRehydrationError (Unit {0})
check_derivative s none = ok tt
check_derivative s (some derivative) =
    if not (text_eq derivative.source_artifact_id s.source_capture.artifact_id)
    then err derivative_has_wrong_source
    else if text_eq derivative.artifact.artifact_id s.source_capture.artifact_id
    then err derivative_reuses_source_artifact
    else if ltb s.source_capture.duration_ms derivative.trim.end_ms
    then err trim_outside_source
    else ok tt

unfoldable pub validate_durable_snapshot :
    DurableClipSnapshot → Result ClipRehydrationError (Unit {0})
validate_durable_snapshot s =
    if is_empty s.capture_session_id
    then err empty_capture_session
    else if not (evidence_valid s.origin)
    then err empty_origin_evidence
    else check_review_state s s.review_state >> check_derivative s s.derivative

abbrev pub clip_of : DurableClipSnapshot → Clip
clip_of s = record {
  id = s.id;
  revision = s.revision;
  source_capture = s.source_capture;
  capture_session_id = s.capture_session_id;
  origin = s.origin;
  review_state = s.review_state;
  title = s.title;
  note = s.note;
  tags = s.tags;
  favorite = s.favorite;
  derivative = s.derivative;
}

unfoldable pub from_durable_snapshot : DurableClipSnapshot → Result ClipRehydrationError Clip
unfolding validate_durable_snapshot
from_durable_snapshot s = validate_durable_snapshot s >> ok (clip_of s)
