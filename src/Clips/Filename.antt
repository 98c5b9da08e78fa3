-- ===== src/Clips/Filename.antt =====
-- `sanitize_filename_component` and `sanitize_export_filename` of crates/openfrag-clips/src/lib.rs.
-- The source walks the characters; a character that is not ASCII is a separator, and so is each of
-- its bytes, all of which are 128 or more.
pub mod Shape
use openfrag.Common.{
  ℕ, ◌+◌, ◌≡◌, refl, Bool, true, false, ◌&&◌, ◌||◌, not, List, [], ◌∷◌, ◌++◌, leb, if◌then◌else◌,
  is_empty,
}
use openfrag.Common.Text.{Text, ascii}

abbrev pub is_upper : ℕ → Bool
is_upper b = leb b'A' b && leb b b'Z'

abbrev pub is_lower_or_digit : ℕ → Bool
is_lower_or_digit b = leb b'a' b && leb b b'z' || leb b'0' b && leb b b'9'

abbrev pub is_alphanumeric : ℕ → Bool
is_alphanumeric b = is_upper b || is_lower_or_digit b

abbrev pub to_lowercase : ℕ → ℕ
to_lowercase b = if is_upper b then b + 32 else b

-- The loop: what is left, what has been written, and whether a separator is pending.
unfoldable pub sanitize_from : Text → Text → Bool → Text
sanitize_from [] sanitized pending = sanitized
sanitize_from (b ∷ rest) sanitized pending =
    sanitize_from rest
      (if is_alphanumeric b
        then (if pending && not (is_empty sanitized) then sanitized ++ b'-' ∷ [] else sanitized)
          ++ to_lowercase b ∷ []
        else sanitized)
      (not (is_alphanumeric b))

unfoldable pub sanitize_filename_component : Text → Text → Text
unfolding sanitize_from
sanitize_filename_component value fallback =
    let sanitized = sanitize_from value [] false in
    if is_empty sanitized then fallback else sanitized

unfoldable pub sanitize_export_filename : Text → Text → Text
unfolding sanitize_filename_component
sanitize_export_filename title clip_id =
    sanitize_filename_component title (ascii "clip")
    ++ (ascii "-" ++ (sanitize_filename_component clip_id (ascii "id") ++ ascii ".mp4"))

sanitize_runs :
    sanitize_export_filename (ascii "  Big ACE! (r12)") (ascii "/../") ≡ ascii "big-ace-r12-id.mp4"
unfolding sanitize_export_filename
sanitize_runs = refl
