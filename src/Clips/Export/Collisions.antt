-- ===== src/Clips/Export/Collisions.antt =====
-- Where an export goes when names are taken.
use openfrag.Common.{
  ℕ, zero, suc, ◌+◌, ◌-◌, ◌≤◌, ◌<◌, ◌≡◌, ap, ◌∙◌, [], ◌∷◌, ◌++◌, if◌then◌else◌, arith, ok, err,
}
use openfrag.Common.Text.{Text}
use openfrag.Common.FilePath.{FilePath, normal}
use openfrag.Clips.Model.{Clip, ReviewState, reviewed}
use openfrag.Clips.Export.{
  destination_exists, name_space_exhausted, not_reviewed, AtomicCopy, candidate_name, after_copy,
  export_from, export_within, is_reviewed, export_clip, exported_artifact, u32_max,
}
use openfrag.Clips.Filename.{sanitize_export_filename}

abbrev pub destination : FilePath → Text → ℕ → FilePath
destination directory filename index = directory ++ normal (candidate_name filename index) ∷ []

module _ {W : Type 0} (atomic_copy : AtomicCopy W) (source : FilePath) (filename : Text)
    (directory : FilePath) (clip : Clip) (w : W) where
  export_from-taken :
      (left index : ℕ)
      → atomic_copy source (destination directory filename index) w ≡ (w, err destination_exists)
      → export_from atomic_copy (suc left) index source filename directory clip w
        ≡ export_from atomic_copy left (index + 1) source filename directory clip w
  unfolding export_from
  export_from-taken left index h =
      ap
        (after_copy clip (destination directory filename index)
          (λ w'. export_from atomic_copy left (index + 1) source filename directory clip w'))
        h

  export_from-free :
      (left index : ℕ) (w' : W) (bytes : ℕ)
      → atomic_copy source (destination directory filename index) w ≡ (w', ok bytes)
      → export_from atomic_copy left index source filename directory clip w ≡ (
        w',
        ok (record {
          clip = clip;
          destination_path = destination directory filename index;
          bytes = bytes;
        }),
      )
  unfolding export_from
  export_from-free zero index w' bytes h =
      ap
        (after_copy clip (destination directory filename index)
          (λ v. (v, err name_space_exhausted)))
        h
  export_from-free (suc left) index w' bytes h =
      ap
        (after_copy clip (destination directory filename index)
          (λ v. export_from atomic_copy left (index + 1) source filename directory clip v))
        h

  export_from-skips :
      (taken left index : ℕ) (w' : W) (bytes : ℕ)
      → taken ≤ left
      → ((i : ℕ)
          → i < taken
          → atomic_copy source (destination directory filename (index + i)) w
            ≡ (w, err destination_exists))
      → atomic_copy source (destination directory filename (index + taken)) w ≡ (w', ok bytes)
      → export_from atomic_copy left index source filename directory clip w ≡ (
        w',
        ok (record {
          clip = clip;
          destination_path = destination directory filename (index + taken);
          bytes = bytes;
        }),
      )
  export_from-skips zero left index w' bytes room refused free =
      let e : index + zero ≡ index = omega arith in
      rw e (export_from-free left index w' bytes (rw e at free))
  export_from-skips (suc taken) zero index w' bytes room refused free = absurd (omega arith)
  export_from-skips (suc taken) (suc left) index w' bytes room refused free =
      let e : index + suc taken ≡ index + 1 + taken = omega arith in
      let e0 : index + 0 ≡ index = omega arith in
      rw e (
        export_from-taken left index (rw e0 at (refused 0 (omega arith)))
        ∙ export_from-skips taken left (index + 1) w' bytes (omega arith)
            (λ i b.
              let s : index + 1 + i ≡ index + suc i = omega arith in
              rw s (refused (suc i) (omega arith)))
            (rw e at free))

module _ {W : Type 0} (atomic_copy : AtomicCopy W) (clip : Clip) (directory : FilePath)
    (w : W) where
  export_within-reviewed :
      (left at : ℕ)
      → clip.review_state ≡ reviewed at
      → export_within atomic_copy left clip directory w
        ≡ export_from atomic_copy left 1
            (exported_artifact clip clip.derivative).path
            (sanitize_export_filename clip.title clip.id)
            directory
            clip
            w
  unfolding export_within
  export_within-reviewed left at h =
      ap
        (λ (state : ReviewState).
          if is_reviewed state
          then export_from atomic_copy left 1 (exported_artifact clip clip.derivative).path
              (sanitize_export_filename clip.title clip.id) directory clip w
          else (w, err not_reviewed))
        h

  -- A reviewed clip goes to the first numbered name that is free: if the copy finds the first
  -- `taken` names taken, less than the largest `u32`, which changes nothing, and copies to the
  -- next one, the export ends there, with that path and the bytes.
  pub export_clip-first_free :
      (w' : W) (at taken bytes : ℕ)
      → clip.review_state ≡ reviewed at
      → taken < u32_max
      → ((i : ℕ)
          → i < taken
          → atomic_copy
              (exported_artifact clip clip.derivative).path
              (destination directory (sanitize_export_filename clip.title clip.id) (1 + i))
              w
            ≡ (w, err destination_exists))
      → atomic_copy
          (exported_artifact clip clip.derivative).path
          (destination directory (sanitize_export_filename clip.title clip.id) (1 + taken))
          w
        ≡ (w', ok bytes)
      → export_clip atomic_copy clip directory w ≡ (
        w',
        ok (record {
          clip = clip;
          destination_path =
              destination directory (sanitize_export_filename clip.title clip.id) (1 + taken);
          bytes = bytes;
        }),
      )
  unfolding export_clip
  export_clip-first_free w' at taken bytes state room refused free =
      export_within-reviewed (u32_max - 1) at state
      ∙ export_from-skips atomic_copy (exported_artifact clip clip.derivative).path
          (sanitize_export_filename clip.title clip.id) directory clip w taken (u32_max - 1) 1 w'
          bytes (omega arith) refused free
