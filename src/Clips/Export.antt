-- ===== src/Clips/Export.antt =====
-- `export_clip` of crates/openfrag-clips/src/lib.rs. The file system is a trait: a value of the
-- type `W` with its `atomic_copy`.
pub mod Collisions
use openfrag.Common.{
  ℕ, zero, suc, ◌+◌, ◌-◌, ◌≡◌, refl, Bool, true, false, not, Option, none, some, List, [], ◌∷◌,
  ◌++◌, ltb, ◌==◌, if◌then◌else◌, length, Result, ok, err,
}
use openfrag.Common.Text.{Text, text_eq, ascii, decimal}
use openfrag.Common.FilePath.{FilePath, normal}
use openfrag.Clips.Model.{ReviewState, reviewed, Clip, ArtifactProvenance, DerivativeProvenance}
use openfrag.Clips.Filename.{sanitize_export_filename}

pub data FileOperationError : Type 0 where
  destination_exists source_missing : FileOperationError
  io : Text → FileOperationError

pub data ExportError : Type 0 where
  not_reviewed name_space_exhausted : ExportError
  file : FileOperationError → ExportError

pub record ExportReceipt : Type 0 where
  pub clip : Clip
  pub destination_path : FilePath
  pub bytes : ℕ

-- The copy from one path to another, in a state of the file system.
abbrev pub AtomicCopy : Type 0 → Type 0
AtomicCopy W = FilePath → FilePath → W → W × Result FileOperationError ℕ

-- `strip_suffix`.
unfoldable pub strip_suffix : Text → Text → Option Text
strip_suffix suffix [] = if text_eq [] suffix then some [] else none
strip_suffix suffix (b ∷ rest) =
    let later = strip_suffix suffix rest in
    if text_eq (b ∷ rest) suffix
    then some []
    else elim later [ none ↦ none | some stem ↦ some (b ∷ stem) ]

abbrev or_text : Option Text → Text → Text
or_text none text = text
or_text (some stem) text = stem

unfoldable pub candidate_name : Text → ℕ → Text
unfolding strip_suffix decimal text_eq
candidate_name filename collision_index =
    if collision_index == 1
    then filename
    else or_text (strip_suffix (ascii ".mp4") filename) filename
      ++ (ascii "-" ++ (decimal collision_index ++ ascii ".mp4"))

abbrev pub is_reviewed : ReviewState → Bool
is_reviewed (reviewed at) = true
is_reviewed _ = false

-- The derivative's artifact if there is one, the source capture if not.
abbrev pub exported_artifact : Clip → Option DerivativeProvenance → ArtifactProvenance
exported_artifact clip none = clip.source_capture
exported_artifact clip (some derivative) = derivative.artifact

abbrev pub u32_max : ℕ
u32_max = 4_294_967_295

-- A round of the loop, from what the copy returned; `next` is the round behind it.
abbrev pub after_copy :
    {W : Type 0}
    → Clip
    → FilePath
    → (W → W × Result ExportError ExportReceipt)
    → W × Result FileOperationError ℕ
    → W × Result ExportError ExportReceipt
after_copy clip path next (w, ok bytes) =
    (w, ok (record { clip = clip; destination_path = path; bytes = bytes }))
after_copy clip path next (w, err destination_exists) = next w
after_copy clip path next (w, err source_missing) = (w, err (file source_missing))
after_copy clip path next (w, err (io message)) = (w, err (file (io message)))

module _ {W : Type 0} (atomic_copy : AtomicCopy W) where
  -- The loop over the collision index, with the number of indices that are left above it in a
  -- `u32`: `checked_add` fails when there is none.
  unfoldable pub export_from :
      ℕ → ℕ → FilePath → Text → FilePath → Clip → W → W × Result ExportError ExportReceipt
  unfolding candidate_name
  export_from zero index source filename directory clip w =
      let path = directory ++ normal (candidate_name filename index) ∷ [] in
      after_copy clip path (λ w'. (w', err name_space_exhausted)) (atomic_copy source path w)
  export_from (suc left) index source filename directory clip w =
      let path = directory ++ normal (candidate_name filename index) ∷ [] in
      after_copy clip path (λ w'. export_from left (index + 1) source filename directory clip w')
        (atomic_copy source path w)

  unfoldable pub export_within : ℕ → Clip → FilePath → W → W × Result ExportError ExportReceipt
  unfolding export_from sanitize_export_filename
  export_within left clip directory w =
      if is_reviewed clip.review_state
      then export_from left 1 (exported_artifact clip clip.derivative).path
          (sanitize_export_filename clip.title clip.id) directory clip w
      else (w, err not_reviewed)

  unfoldable pub export_clip : Clip → FilePath → W → W × Result ExportError ExportReceipt
  export_clip = export_within (u32_max - 1)
