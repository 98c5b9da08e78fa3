-- ===== src/Common/FilePath.antt =====
-- A path as the components that `Path::components` yields.
use mathlib.Core.Bool.{Bool, true, false, ◌&&◌}
use mathlib.Core.List.{List, [], ◌∷◌}
use openfrag.Common.Lists.{any}
use openfrag.Common.Text.{Text, text_eq}

pub data Component : Type 0 where
  root_dir cur_dir parent_dir : Component
  normal : Text → Component

abbrev pub FilePath : Type 0
FilePath = List Component

unfoldable pub component_eq : Component → Component → Bool
component_eq root_dir root_dir = true
component_eq cur_dir cur_dir = true
component_eq parent_dir parent_dir = true
component_eq (normal a) (normal b) = text_eq a b
component_eq _ _ = false

-- `path.starts_with(base)`, by whole components.
unfoldable pub starts_with : FilePath → FilePath → Bool
unfolding component_eq
starts_with path [] = true
starts_with [] (b ∷ base) = false
starts_with (a ∷ path) (b ∷ base) = component_eq a b && starts_with path base

abbrev is_parent_dir : Component → Bool
is_parent_dir parent_dir = true
is_parent_dir _ = false

unfoldable pub has_parent_dir : FilePath → Bool
has_parent_dir path = any is_parent_dir path
