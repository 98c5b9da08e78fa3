-- ===== src/Clips/Tests.antt =====
-- The theorems on crates/openfrag-clips/src/lib.rs at a concrete clip, with a repository that
-- keeps each clip under its id and a directory in which the first name is taken.
use openfrag.Common.{
  ℕ, zero, suc, ◌+◌, ◌≡◌, ◌≢◌, ◌<◌, ◌==◌, refl, true, false, none, some, Option, List, [], ◌∷◌,
  ◌++◌, arith, ok, err, if◌then◌else◌,
}
use openfrag.Common.Text.{Text, text_eq, text_eq_iff, ascii}
use openfrag.Common.FilePath.{FilePath, normal, starts_with}
use openfrag.Clips.Model.{
  ArtifactProvenance, DerivativeProvenance, auto_highlight, provisional, reviewed, rejected, Clip,
  ClipId, DurableClipSnapshot,
}
use openfrag.Clips.Model.Durable.{IsDurable}
use openfrag.Clips.Review.{ReviewEdit, Swap, review_clip, reject_clip}
use openfrag.Clips.Review.Lifecycle.{
  IsCompareAndSwap, IsOwnArtifact, review_clip-IsDurable, review_clip-excludes,
}
use openfrag.Clips.Filename.{sanitize_filename_component, sanitize_export_filename}
use openfrag.Clips.Filename.Shape.{is_slug, sanitize_filename_component-slug}
use openfrag.Clips.Export.{AtomicCopy, candidate_name, destination_exists, export_clip}
use openfrag.Clips.Export.Collisions.{destination, export_clip-first_free}

abbrev source : ArtifactProvenance
source = record {
  artifact_id = ascii "raw";
  path = normal (ascii "raw") ∷ [];
  sha256 = ascii "f";
  duration_ms = 60_000;
  bytes = 9;
}

abbrev clip : Clip
clip = record {
  id = ascii "c";
  revision = 0;
  source_capture = source;
  capture_session_id = ascii "s";
  origin = auto_highlight (ascii "r" ∷ []) (ascii "r" ∷ []);
  review_state = provisional;
  title = ascii "ace";
  note = [];
  tags = [];
  favorite = false;
  derivative = none;
}

abbrev cut : Text → DerivativeProvenance
cut id = record {
  artifact = record source { artifact_id = id };
  source_artifact_id = ascii "raw";
  trim = record { start_ms = 5; end_ms = 10_000 };
}

abbrev edit_with : Text → ReviewEdit
edit_with id = record {
  title = ascii "won";
  note = ascii "n";
  tags = [];
  favorite = true;
  derivative = some (cut id);
}

-- The repository that holds one clip under each id.
abbrev swap : Swap (List Clip)
swap expected updated [] = ([], err (ascii "missing"))
swap expected updated (c ∷ cs) =
    let rest = swap expected updated cs in
    if text_eq c.id updated.id
    then if c.revision == expected then (updated ∷ cs, ok tt) else (c ∷ cs, err (ascii "stale"))
    else (c ∷ rest.0, rest.1)

abbrev revision : List Clip → ClipId → Option ℕ
revision [] id = none
revision (c ∷ cs) id = if text_eq c.id id then some c.revision else revision cs id

swap-found :
    (expected : ℕ) (updated : Clip) (r : List Clip)
    → (swap expected updated r).1 ≡ ok tt
    → revision r updated.id ≡ some expected
swap-found expected updated [] h = ground (arith, h)
swap-found expected updated (c ∷ cs) h = ground (arith, h, swap-found expected updated cs)

swap-stored :
    (expected : ℕ) (updated : Clip) (r : List Clip)
    → (swap expected updated r).1 ≡ ok tt
    → revision (swap expected updated r).0 updated.id ≡ some updated.revision
swap-stored expected updated [] h = ground (arith, h)
swap-stored expected updated (c ∷ cs) h =
    ground (arith, h, swap-stored expected updated cs, text_eq_iff updated.id updated.id)

swap-IsCompareAndSwap : IsCompareAndSwap revision swap
swap-IsCompareAndSwap = record { found = swap-found; stored = swap-stored }

clip-IsDurable : IsDurable clip
clip-IsDurable = ground arith

abbrev snapshot : DurableClipSnapshot
snapshot = record {
  id = ascii "c";
  revision = 0;
  source_capture = source;
  capture_session_id = ascii "s";
  origin = auto_highlight (ascii "r" ∷ []) (ascii "r" ∷ []);
  review_state = provisional;
  title = ascii "ace";
  note = [];
  tags = [];
  favorite = false;
  derivative = none;
}

abbrev updated_with : Text → Clip
updated_with id = record clip {
  revision = 1;
  review_state = reviewed 7;
  title = ascii "won";
  note = ascii "n";
  favorite = true;
  derivative = some (cut id);
}

own_cut : IsOwnArtifact (some (cut (ascii "cut"))) clip
own_cut = ground arith

review_clip-IsDurable_example : IsDurable (updated_with (ascii "cut"))
unfolding review_clip text_eq
review_clip-IsDurable_example =
    review_clip-IsDurable swap clip (clip ∷ []) (edit_with (ascii "cut")) 7
      (updated_with (ascii "cut")) clip-IsDurable own_cut refl

abbrev rejected_now : Clip
rejected_now = record clip { revision = 1; review_state = rejected 7 }

abbrev plain : ReviewEdit
plain = record (edit_with (ascii "cut")) { derivative = none }

-- Another clip, at revision 5, is stored before it.
abbrev stored : List Clip
stored = record clip { id = ascii "other"; revision = 5; review_state = reviewed 2 } ∷ clip ∷ []

review_clip-excludes_example :
    let after = (review_clip swap clip plain 7 stored).0 in
    ((second : ReviewEdit) (later : ℕ) (other : Clip)
      → (review_clip swap clip second later after).1 ≢ ok other)
    × ((later : ℕ) (other : Clip) → (reject_clip swap clip later after).1 ≢ ok other)
unfolding review_clip text_eq
review_clip-excludes_example =
    review_clip-excludes swap clip stored revision swap-IsCompareAndSwap plain 7
      (record (updated_with (ascii "cut")) { derivative = none }) (omega arith) refl

sanitize_filename_component-slug_example :
    is_slug (sanitize_filename_component (ascii "  Big ACE!!") (ascii "clip")) ≡ true
unfolding is_slug
sanitize_filename_component-slug_example =
    sanitize_filename_component-slug (ascii "  Big ACE!!") (ascii "clip") refl

abbrev reviewed_now : Clip
reviewed_now = record clip { review_state = reviewed 7; revision = 1 }

abbrev directory : FilePath
directory = normal (ascii "out") ∷ []

abbrev name : Text
name = sanitize_export_filename clip.title clip.id

-- The file system counts the copies; the first name is taken.
abbrev copy : AtomicCopy ℕ
copy from to w =
    if starts_with to (directory ++ normal (ascii "ace-c.mp4") ∷ [])
    then (w, err destination_exists)
    else (w + 1, ok 9)

first_taken :
    (i : ℕ)
    → i < 1
    → copy source.path (destination directory name (1 + i)) 4 ≡ (4, err destination_exists)
unfolding candidate_name sanitize_export_filename starts_with
first_taken zero h = refl
first_taken (suc i) h = absurd (omega arith)

export_clip-first_free_example : export_clip copy reviewed_now directory 4 ≡ (
  5,
  ok (record {
    clip = reviewed_now;
    destination_path = destination directory name (1 + 1);
    bytes = 9;
  }),
)
unfolding candidate_name sanitize_export_filename starts_with
export_clip-first_free_example =
    export_clip-first_free copy reviewed_now directory 4 5 7 1 9 refl (omega arith) first_taken refl
