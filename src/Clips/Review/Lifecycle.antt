-- ===== src/Clips/Review/Lifecycle.antt =====
-- What the two operations on a clip make of it, and of each other.
use openfrag.Common.{ℕ, ◌+◌, ◌<◌, ◌≡◌, ◌≢◌, Option, none, some, arith, ok, err, u64_max}
use openfrag.Common.Text.{text_eq_iff}
use openfrag.Clips.Model.{ClipId, reviewed, rejected, Clip, DerivativeProvenance}
use openfrag.Clips.Model.Durable.{IsDurable, IsDerivativeRight}
use openfrag.Clips.Review.{
  ReviewEdit, invalid_transition, check_edit, reviewed_clip, rejected_clip, Swap, review_clip,
  reject_clip,
}

-- What the code relies on in a repository, which keeps a revision for each clip: a swap succeeds
-- only where the revision under the clip's id is the expected one, and leaves the new clip's there.
pub record IsCompareAndSwap {R : Type 0} (revision : R → ClipId → Option ℕ) (swap : Swap R)
    : Type 0 where
  pub found :
      (expected : ℕ) (clip : Clip) (r : R)
      → (swap expected clip r).1 ≡ ok tt
      → revision r clip.id ≡ some expected
  pub stored :
      (expected : ℕ) (clip : Clip) (r : R)
      → (swap expected clip r).1 ≡ ok tt
      → revision (swap expected clip r).0 clip.id ≡ some clip.revision

module _ {R : Type 0} (swap : Swap R) (clip : Clip) (r : R) where
  -- A review that succeeds on a clip below the largest revision returns it at the next revision,
  -- reviewed at the time given, with the edit's title and derivative, which passed the checks
  -- against the source; its identity, source, session and origin are those of the clip under
  -- review.
  pub review_clip-updates :
      (edit : ReviewEdit) (at : ℕ) (updated : Clip)
      → clip.revision < u64_max
      → (review_clip swap clip edit at r).1 ≡ ok updated
      → (updated.revision ≡ clip.revision + 1)
        × (updated.review_state ≡ reviewed at)
        × (updated.id ≡ clip.id)
        × (updated.source_capture ≡ clip.source_capture)
        × (updated.origin ≡ clip.origin)
        × (updated.capture_session_id ≡ clip.capture_session_id)
        × (updated.title ≡ edit.title)
        × (updated.derivative ≡ edit.derivative)
        × (check_edit clip edit.derivative ≡ ok tt)
  unfolding review_clip
  review_clip-updates edit at updated below h = ground arith

  -- A rejected clip can be neither reviewed nor rejected again, and the repository is not asked.
  pub rejected-is_final :
      (edit : ReviewEdit) (at since : ℕ)
      → clip.review_state ≡ rejected since
      → (review_clip swap clip edit at r ≡ (r, err invalid_transition))
        × (reject_clip swap clip at r ≡ (r, err invalid_transition))
  unfolding review_clip reject_clip
  rejected-is_final edit at since h = ground arith

-- The derivative of an edit is an artifact of its own.
abbrev pub IsOwnArtifact : Option DerivativeProvenance → Clip → Type 0
IsOwnArtifact none clip = Unit
IsOwnArtifact (some d) clip = d.artifact.artifact_id ≢ clip.source_capture.artifact_id

check_edit-IsDerivativeRight :
    (clip : Clip) (derivative : Option DerivativeProvenance)
    → check_edit clip derivative ≡ ok tt
    → IsOwnArtifact derivative clip
    → IsDerivativeRight derivative clip.source_capture
check_edit-IsDerivativeRight clip none h own = tt
check_edit-IsDerivativeRight clip (some d) h own =
    ground (arith, text_eq_iff d.source_artifact_id clip.source_capture.artifact_id)

module _ {R : Type 0} (swap : Swap R) (clip : Clip) (r : R) where
  -- A review that succeeds makes a durable clip of a durable one, if the edit's derivative, where
  -- it has one, does not reuse the artifact identity of the source capture.
  pub review_clip-IsDurable :
      (edit : ReviewEdit) (at : ℕ) (updated : Clip)
      → IsDurable clip
      → IsOwnArtifact edit.derivative clip
      → (review_clip swap clip edit at r).1 ≡ ok updated
      → IsDurable updated
  unfolding review_clip
  review_clip-IsDurable edit at updated h own e =
      ground (arith, check_edit-IsDerivativeRight clip edit.derivative)

  -- A rejection that succeeds makes a durable clip of a durable one, rejected at the time given.
  pub reject_clip-IsDurable :
      (at : ℕ) (updated : Clip)
      → IsDurable clip
      → (reject_clip swap clip at r).1 ≡ ok updated
      → IsDurable updated × (updated.review_state ≡ rejected at)
  unfolding reject_clip
  reject_clip-IsDurable at updated h e = ground arith

  module _ (revision : R → ClipId → Option ℕ) (cas : IsCompareAndSwap revision swap) where
    review_clip-swaps :
        (edit : ReviewEdit) (at : ℕ) (updated : Clip)
        → clip.revision < u64_max
        → (review_clip swap clip edit at r).1 ≡ ok updated
        → (revision r clip.id ≡ some clip.revision)
          × (revision (review_clip swap clip edit at r).0 clip.id ≡ some (clip.revision + 1))
    unfolding review_clip
    review_clip-swaps edit at updated below h = ground (
      arith,
      cas.found clip.revision (reviewed_clip clip edit at) r,
      cas.stored clip.revision (reviewed_clip clip edit at) r,
    )

    reject_clip-swaps :
        (at : ℕ) (updated : Clip)
        → (reject_clip swap clip at r).1 ≡ ok updated
        → revision r clip.id ≡ some clip.revision
    unfolding reject_clip
    reject_clip-swaps at updated h =
        ground (arith, cas.found clip.revision (rejected_clip clip at) r)

module _ {R : Type 0} (swap : Swap R) (clip : Clip) (r : R) where
  -- With a repository that compares and swaps the revision that it keeps of each clip, and a clip
  -- below the largest revision, of two operations that start from the same clip only the first
  -- succeeds: right after a review that succeeds, no other review and no rejection of that clip
  -- does.
  pub review_clip-excludes :
      (revision : R → ClipId → Option ℕ) (cas : IsCompareAndSwap revision swap) (first : ReviewEdit)
      (at : ℕ) (updated : Clip)
      → clip.revision < u64_max
      → (review_clip swap clip first at r).1 ≡ ok updated
      → let after = (review_clip swap clip first at r).0 in
        ((second : ReviewEdit) (later : ℕ) (other : Clip)
          → (review_clip swap clip second later after).1 ≢ ok other)
        × ((later : ℕ) (other : Clip) → (reject_clip swap clip later after).1 ≢ ok other)
  review_clip-excludes revision cas first at updated below h =
      let after = (review_clip swap clip first at r).0 in
      let done = review_clip-swaps swap clip r revision cas first at updated below h in
      (
        λ second later other e.
            let again = review_clip-swaps swap clip after revision cas second later other below e in
            ground (arith, done.1, again.0),
        λ later other e.
            let again = reject_clip-swaps swap clip after revision cas later other e in
            ground (arith, done.1, again),
      )
