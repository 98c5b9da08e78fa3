-- ===== src/Shortcuts/Tests.antt =====
-- The theorems on crates/openfrag-shortcuts/src/lib.rs at a concrete session.
use openfrag.Common.{◌≡◌, ◌↔◌, map, refl, true, false, none, some, List, [], ◌∷◌, Result, ok, err}
use openfrag.Common.Text.{Text, ascii}
use openfrag.Shortcuts.{
  manual_flag_id, activated, flagged, released, ignored, sink, ShortcutDiagnostic, PortalSignal,
  ManualFlagService, OpenEnv, poll,
}
use openfrag.Shortcuts.Hold.{poll-flags, poll_all, press, poll_all-repeats}

abbrev env : OpenEnv
env = record {
  open_portal = λ token requests. ok (record { session = ascii "h"; restore_token = ascii "t" });
  save_token = λ token. ok tt;
}

abbrev open_now : ManualFlagService
open_now = record {
  preferred_trigger = none;
  session = some (ascii "h");
  restore_token = some (ascii "t");
  held = false;
}

abbrev granted : Result ShortcutDiagnostic (Unit {0})
granted = ok tt

abbrev pressed : Result ShortcutDiagnostic PortalSignal
pressed = ok (activated manual_flag_id)

poll-flags_example :
    let (after, outcome) = poll env granted pressed open_now in
    ((outcome ≡ ok flagged) ↔ ((open_now.held ≡ false) × (after.held ≡ true)))
    × (outcome ≡ ok flagged → (granted ≡ ok tt) × (pressed ≡ ok (activated manual_flag_id)))
    × (outcome ≡ ok released → (open_now.held ≡ true) × (after.held ≡ false))
poll-flags_example = poll-flags env granted pressed open_now

abbrev presses : List (OpenEnv × Result ShortcutDiagnostic (Unit {0}) × Text)
presses = (env, ok tt, manual_flag_id) ∷ (env, err (sink (ascii "full")), manual_flag_id) ∷ []

poll_all-repeats_example :
    ((poll_all (record open_now { held = true }) (map press presses)).0
      ≡ record open_now { held = true })
    × ((poll_all (record open_now { held = true }) (map press presses)).1
        ≡ ok ignored ∷ ok ignored ∷ [])
poll_all-repeats_example =
    poll_all-repeats (record open_now { held = true }) (ascii "h") presses refl refl
