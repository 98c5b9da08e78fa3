-- ===== src/Clips/Filename/Shape.antt =====
-- What a sanitised name looks like.
use mathlib.Core.List.{append_assoc, append-nil}
use openfrag.Common.{
  ℕ, ◌≡◌, refl, sym, ap, ◌∙◌, ◌⊎◌, inl, inr, Bool, true, false, ◌&&◌, not, [], ◌∷◌, ◌++◌, arith,
  ◌==◌, if◌then◌else◌, is_empty, Bool-cases,
}
use openfrag.Common.Text.{Text}
use openfrag.Clips.Filename.{
  is_lower_or_digit, is_alphanumeric, to_lowercase, sanitize_from, sanitize_filename_component,
}

-- Lower-case letters and digits in groups with one dash between two: `after` says that a letter or
-- digit must come next.
unfoldable pub is_slug_from : Bool → Text → Bool
is_slug_from after [] = not after
is_slug_from after (b ∷ rest) =
    let ends_group = is_slug_from true rest in
    let goes_on = is_slug_from false rest in
    if is_lower_or_digit b then goes_on else if b == b'-' && not after then ends_group else false

unfoldable pub is_slug : Text → Bool
unfolding is_slug_from
is_slug text = is_slug_from true text

is_slug_from-append :
    (after : Bool) (xs tail : Text)
    → is_slug_from after xs ≡ true
    → is_slug_from after (xs ++ tail) ≡ is_slug_from false tail
unfolding is_slug_from
is_slug_from-append after [] tail h = ground arith
is_slug_from-append after (b ∷ xs) tail h =
    ground (arith, is_slug_from-append true xs tail, is_slug_from-append false xs tail)

lower-to_lowercase : (b : ℕ) → is_alphanumeric b ≡ true → is_lower_or_digit (to_lowercase b) ≡ true
lower-to_lowercase b h = ground arith

-- What is written so far.
abbrev IsWritten : Text → Type 0
IsWritten sanitized = (is_empty sanitized ≡ true) ⊎ (is_slug sanitized ≡ true)

write-IsWritten :
    (sanitized : Text) (pending : Bool) (c : ℕ)
    → is_lower_or_digit c ≡ true
    → IsWritten sanitized
    → is_slug (
        (if pending && not (is_empty sanitized) then sanitized ++ b'-' ∷ [] else sanitized)
        ++ c ∷ [])
      ≡ true
unfolding is_slug
write-IsWritten [] pending c lower h = ground arith
write-IsWritten (x ∷ xs) true c lower (inl e) = cc
write-IsWritten (x ∷ xs) false c lower (inl e) = cc
write-IsWritten (x ∷ xs) true c lower (inr h) =
    ap (is_slug_from true) (append_assoc (x ∷ xs) (b'-' ∷ []) (c ∷ []))
    ∙ is_slug_from-append true (x ∷ xs) (b'-' ∷ c ∷ []) h
    ∙ (ground arith)
write-IsWritten (x ∷ xs) false c lower (inr h) =
    is_slug_from-append true (x ∷ xs) (c ∷ []) h ∙ (ground arith)

sanitize_from-IsWritten :
    (value sanitized : Text) (pending : Bool)
    → IsWritten sanitized
    → IsWritten (sanitize_from value sanitized pending)
unfolding sanitize_from
sanitize_from-IsWritten [] sanitized pending h = h
sanitize_from-IsWritten (b ∷ rest) sanitized pending h = elim (Bool-cases (is_alphanumeric b)) [
  | inl letter ↦ rw letter (
      sanitize_from-IsWritten rest _ false
        (inr (write-IsWritten sanitized pending (to_lowercase b) (lower-to_lowercase b letter) h)))
  | inr separator ↦ rw separator (sanitize_from-IsWritten rest sanitized true h)
]

-- Whatever the title, what becomes of it in a file name is a slug, if the fallback is one: it is not
-- empty, holds lower-case letters, digits and dashes only, and a dash only between two others.
pub sanitize_filename_component-slug :
    (value fallback : Text)
    → is_slug fallback ≡ true
    → is_slug (sanitize_filename_component value fallback) ≡ true
unfolding sanitize_filename_component is_slug
sanitize_filename_component-slug value fallback h =
    ground (arith, sanitize_from-IsWritten value [] false (inl refl))

abbrev with_dash : Bool → Text → Text
with_dash true rest = b'-' ∷ rest
with_dash false rest = rest

is_empty-append : (xs tail : Text) (b : ℕ) → is_empty (xs ++ b ∷ tail) ≡ false
is_empty-append [] tail b = refl
is_empty-append (x ∷ xs) tail b = refl

letter-plain :
    (b : ℕ) → is_lower_or_digit b ≡ true → (is_alphanumeric b ≡ true) × (to_lowercase b ≡ b)
letter-plain b h = ground arith

dash-separates :
    (pending : Bool) (b : ℕ) (rest : Text)
    → is_slug_from pending (b ∷ rest) ≡ true
    → is_lower_or_digit b ≡ false
    → (b ≡ b'-') × (pending ≡ false) × (is_slug_from true rest ≡ true) × (is_alphanumeric b ≡ false)
unfolding is_slug_from
dash-separates pending b rest h other = ground arith

letter-goes_on :
    (pending : Bool) (b : ℕ) (rest : Text)
    → is_slug_from pending (b ∷ rest) ≡ true
    → is_lower_or_digit b ≡ true
    → is_slug_from false rest ≡ true
unfolding is_slug_from
letter-goes_on pending b rest h lower = ground arith

letter_step :
    (b : ℕ) (rest written : Text) (pending : Bool)
    → is_empty written ≡ false
    → is_alphanumeric b ≡ true
    → to_lowercase b ≡ b
    → ((w : Text) → is_empty w ≡ false → sanitize_from rest w false ≡ w ++ rest)
    → sanitize_from (b ∷ rest) written pending ≡ written ++ with_dash pending (b ∷ rest)
unfolding sanitize_from
letter_step b rest written true e letter same ih =
    rw (letter, same, e)
      (ih ((written ++ b'-' ∷ []) ++ b ∷ []) (is_empty-append (written ++ b'-' ∷ []) [] b)
        ∙ append_assoc (written ++ b'-' ∷ []) (b ∷ []) rest
        ∙ append_assoc written (b'-' ∷ []) (b ∷ rest))
letter_step b rest written false e letter same ih =
    rw (letter, same)
      (ih (written ++ b ∷ []) (is_empty-append written [] b) ∙ append_assoc written (b ∷ []) rest)

dash_step :
    (b : ℕ) (rest written : Text) (pending : Bool)
    → b ≡ b'-'
    → pending ≡ false
    → is_alphanumeric b ≡ false
    → sanitize_from rest written true ≡ written ++ b'-' ∷ rest
    → sanitize_from (b ∷ rest) written pending ≡ written ++ with_dash pending (b ∷ rest)
unfolding sanitize_from
dash_step b rest written true dash first plain ih = cc
dash_step b rest written false dash first plain ih =
    rw plain (ih ∙ ap (λ (c : ℕ). written ++ c ∷ rest) (sym dash))

-- The text behind a written part comes out as it is.
sanitize_from-slug :
    (rest written : Text) (pending : Bool)
    → is_empty written ≡ false
    → is_slug_from pending rest ≡ true
    → sanitize_from rest written pending ≡ written ++ with_dash pending rest
sanitize_from-slug [] written true e h = unfold is_slug_from in cc
sanitize_from-slug [] written false e h = unfold sanitize_from in sym (append-nil written)
sanitize_from-slug (b ∷ rest) written pending e h = elim (Bool-cases (is_lower_or_digit b)) [
  | inl lower ↦
      let (alphanumeric, same) = letter-plain b lower in
      let tail = letter-goes_on pending b rest h lower in
      letter_step b rest written pending e alphanumeric same
        (λ w ne. sanitize_from-slug rest w false ne tail)
  | inr other ↦
      let (dash, first, tail, plain) = dash-separates pending b rest h other in
      dash_step b rest written pending dash first plain
        (sanitize_from-slug rest written true e tail)
]

first-letter :
    (b : ℕ) (rest : Text) → is_slug_from true (b ∷ rest) ≡ true → is_lower_or_digit b ≡ true
unfolding is_slug_from
first-letter b rest h = ground arith

sanitize_from-first :
    (b : ℕ) (rest : Text)
    → is_alphanumeric b ≡ true
    → to_lowercase b ≡ b
    → sanitize_from (b ∷ rest) [] false ≡ sanitize_from rest (b ∷ []) false
unfolding sanitize_from
sanitize_from-first b rest letter same = rw (letter, same)

sanitize_from-whole :
    (b : ℕ) (rest : Text)
    → is_slug_from true (b ∷ rest) ≡ true
    → sanitize_from (b ∷ rest) [] false ≡ b ∷ rest
sanitize_from-whole b rest h =
    let lower = first-letter b rest h in
    let (letter, same) = letter-plain b lower in
    sanitize_from-first b rest letter same
    ∙ sanitize_from-slug rest (b ∷ []) false refl (letter-goes_on true b rest h lower)

-- A text that is a slug already comes out of the sanitising as it is, whatever the fallback.
pub sanitize_filename_component-fixed :
    (text fallback : Text) → is_slug text ≡ true → sanitize_filename_component text fallback ≡ text
unfolding sanitize_filename_component is_slug
sanitize_filename_component-fixed [] fallback h = unfold is_slug_from in cc
sanitize_filename_component-fixed (b ∷ rest) fallback h = rw (sanitize_from-whole b rest h)
