-- ===== src/Gsi/Engine/MediaType.antt =====
-- The test on the `content-type` header that opens `route_post`. `to_str` gives visible ASCII,
-- so trimming concerns ASCII blanks only.
use openfrag.Common.{
  ℕ, ◌+◌, ◌≡◌, refl, Bool, true, false, ◌&&◌, ◌||◌, Option, none, some, [], ◌∷◌, leb, ◌==◌,
  if◌then◌else◌,
}
use openfrag.Common.Text.{Text, text_eq, ascii}

-- `value.split(';').next()`.
before_semicolon : Text → Text
before_semicolon [] = []
before_semicolon (b ∷ rest) = if b == b';' then [] else b ∷ before_semicolon rest

is_blank : ℕ → Bool
is_blank b = b == 32 || leb 9 b && leb b 13

trim_start : Text → Text
trim_start [] = []
trim_start (b ∷ rest) = if is_blank b then trim_start rest else b ∷ rest

trim_end : Text → Text
trim_end [] = []
trim_end (b ∷ rest) = keep b (trim_end rest)
  where
    keep : ℕ → Text → Text
    keep b [] = if is_blank b then [] else b ∷ []
    keep b (c ∷ cs) = b ∷ c ∷ cs

to_ascii_lowercase : Text → Text
to_ascii_lowercase [] = []
to_ascii_lowercase (b ∷ rest) =
    (if leb b'A' b && leb b b'Z' then b + 32 else b) ∷ to_ascii_lowercase rest

-- `header` is the value of the header, if there is one and it is visible ASCII.
unfoldable pub is_json : Option Text → Bool
unfolding before_semicolon trim_start trim_end to_ascii_lowercase is_blank text_eq
is_json none = false
is_json (some header) =
    text_eq (to_ascii_lowercase (trim_end (trim_start (before_semicolon header))))
      (ascii "application/json")

is_json_parameters : is_json (some (ascii " Application/JSON ; charset=utf-8")) ≡ true
unfolding is_json
is_json_parameters = refl

is_json_other : is_json (some (ascii "text/plain")) ≡ false
unfolding is_json
is_json_other = refl
