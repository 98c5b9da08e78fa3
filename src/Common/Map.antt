-- ===== src/Common/Map.antt =====
-- `HashMap` with text keys as an association list. Its order stands for the order in which the
-- source would walk the map, which it does not promise.
use openfrag.Common.Tests.{if◌then◌else◌}
use openfrag.Common.Text.{Text, text_eq, text_eq_iff}
use mathlib.Core.Path.{◌≡◌, refl}
use mathlib.Core.Option.{Option, none, some}
use mathlib.Core.List.{List, [], ◌∷◌}
use native.Mathlib.Omega.{arith}

module _ {ℓ} {V : Type ℓ} where
  unfoldable pub get : Text → List (Text × V) → Option V
  get key [] = none
  get key ((other, value) ∷ rest) = if text_eq other key then some value else get key rest

  unfoldable pub insert : Text → V → List (Text × V) → List (Text × V)
  insert key value [] = (key, value) ∷ []
  insert key value ((other, old) ∷ rest) =
      if text_eq other key then (key, value) ∷ rest else (other, old) ∷ insert key value rest

  pub get-insert :
      (key j : Text) (value : V) (m : List (Text × V))
      → get j (insert key value m) ≡ (if text_eq key j then some value else get j m)
  unfolding get insert
  get-insert key j value [] = refl
  get-insert key j value ((other, old) ∷ rest) = ground (
    arith,
    text_eq_iff other key,
    text_eq_iff other j,
    text_eq_iff key j,
    get-insert key j value rest,
  )
