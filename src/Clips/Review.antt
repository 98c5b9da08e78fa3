-- ===== src/Clips/Review.antt =====
-- `review_clip` and `reject_clip` of crates/openfrag-clips/src/lib.rs. The repository is a trait: it
-- is a value of the type `R` with its `compare_and_swap`.
pub mod Lifecycle
use openfrag.Common.{
  ℕ, ◌+◌, Bool, true, false, not, Option, none, some, List, [], ◌∷◌, ltb, if◌then◌else◌, Result, ok,
  err, saturating_add,
}
use openfrag.Common.Text.{Text, text_eq}
use openfrag.Clips.Model.{ReviewState, provisional, reviewed, rejected, Clip, DerivativeProvenance}

pub record ReviewEdit : Type 0 where
  pub title : Text
  pub note : Text
  pub tags : List Text
  pub favorite : Bool
  pub derivative : Option DerivativeProvenance

abbrev pub RepositoryError : Type 0
RepositoryError = Text

pub data ReviewError : Type 0 where
  trim_outside_source derivative_has_wrong_source invalid_transition : ReviewError
  repository : RepositoryError → ReviewError

abbrev pub is_rejected : ReviewState → Bool
is_rejected (rejected at) = true
is_rejected _ = false

abbrev pub check_edit : Clip → Option DerivativeProvenance → Result ReviewError (Unit {0})
check_edit clip none = ok tt
check_edit clip (some derivative) =
    if not (text_eq derivative.source_artifact_id clip.source_capture.artifact_id)
    then err derivative_has_wrong_source
    else if ltb clip.source_capture.duration_ms derivative.trim.end_ms
    then err trim_outside_source
    else ok tt

pub reviewed_clip : Clip → ReviewEdit → ℕ → Clip
reviewed_clip clip edit reviewed_at_ms = record clip {
  revision = saturating_add clip.revision 1;
  review_state = reviewed reviewed_at_ms;
  title = edit.title;
  note = edit.note;
  tags = edit.tags;
  favorite = edit.favorite;
  derivative = edit.derivative;
}

pub rejected_clip : Clip → ℕ → Clip
rejected_clip clip rejected_at_ms = record clip {
  revision = saturating_add clip.revision 1;
  review_state = rejected rejected_at_ms;
}

-- A repository's `compare_and_swap`: the expected revision and the clip that takes its place.
abbrev pub Swap : Type 0 → Type 0
Swap R = ℕ → Clip → R → R × Result RepositoryError (Unit {0})

abbrev stored :
    {R : Type 0} → Clip → R × Result RepositoryError (Unit {0}) → R × Result ReviewError Clip
stored updated (r, ok _) = (r, ok updated)
stored updated (r, err e) = (r, err (repository e))

module _ {R : Type 0} (compare_and_swap : Swap R) where
  unfoldable pub review_clip : Clip → ReviewEdit → ℕ → R → R × Result ReviewError Clip
  unfolding reviewed_clip
  review_clip clip edit reviewed_at_ms r =
      if is_rejected clip.review_state
      then (r, err invalid_transition)
      else elim (check_edit clip edit.derivative) [
        | err e ↦ (r, err e)
        | ok _ ↦
            let updated = reviewed_clip clip edit reviewed_at_ms in
            stored updated (compare_and_swap clip.revision updated r)
      ]

  unfoldable pub reject_clip : Clip → ℕ → R → R × Result ReviewError Clip
  unfolding rejected_clip
  reject_clip clip rejected_at_ms r =
      if is_rejected clip.review_state
      then (r, err invalid_transition)
      else (let updated = rejected_clip clip rejected_at_ms in
          stored updated (compare_and_swap clip.revision updated r))
