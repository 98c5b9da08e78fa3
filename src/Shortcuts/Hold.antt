-- ===== src/Shortcuts/Hold.antt =====
-- One flag for each press of the key, however often the portal repeats it.
use mathlib.Core.Path.{ap₂}
use openfrag.Common.{
  ◌≡◌, ◌≢◌, ◌↔◌, map, refl, ap, ◌∙◌, true, false, none, some, List, [], ◌∷◌, arith, Result, ok, err,
}
use openfrag.Common.Text.{Text, text_eq_iff}
use openfrag.Shortcuts.{
  manual_flag_id, PortalSignal, activated, deactivated, signal_session_lost, portal_lost,
  PollOutcome, flagged, released, ignored, ShortcutDiagnostic, ManualFlagService, OpenEnv, poll,
}

-- A shortcut is held only in an open session.
abbrev pub IsHeldOpen : ManualFlagService → Type 0
IsHeldOpen s = s.held ≡ true → s.session ≢ none

pub poll-IsHeldOpen :
    (env : OpenEnv) (flag : Result ShortcutDiagnostic (Unit {0}))
    (next : Result ShortcutDiagnostic PortalSignal) (s : ManualFlagService)
    → IsHeldOpen s
    → IsHeldOpen (poll env flag next s).0
unfolding poll
poll-IsHeldOpen env flag next s h = ground arith

-- A poll answers that it flagged exactly if it takes the shortcut from released to held; it does
-- so only where the sink takes the flag and the signal is a press of the Manual Flag; and it
-- answers that it released only if it takes the shortcut from held to released.
pub poll-flags :
    (env : OpenEnv) (flag : Result ShortcutDiagnostic (Unit {0}))
    (next : Result ShortcutDiagnostic PortalSignal) (s : ManualFlagService)
    → let (after, outcome) = poll env flag next s in
      ((outcome ≡ ok flagged) ↔ ((s.held ≡ false) × (after.held ≡ true)))
      × (outcome ≡ ok flagged → (flag ≡ ok tt) × (next ≡ ok (activated manual_flag_id)))
      × (outcome ≡ ok released → (s.held ≡ true) × (after.held ≡ false))
unfolding poll
poll-flags env flag (ok (activated id)) s = ground (arith, text_eq_iff id manual_flag_id)
poll-flags env flag (ok (deactivated id)) s = ground arith
poll-flags env flag (ok portal_lost) s = ground arith
poll-flags env flag (ok signal_session_lost) s = ground arith
poll-flags env flag (err e) s = ground arith

-- What each poll of a series sees: the portal's answers, the sink's and the next signal.
abbrev pub Seen : Type 0
Seen = OpenEnv × Result ShortcutDiagnostic (Unit {0}) × Result ShortcutDiagnostic PortalSignal

unfoldable pub poll_all :
    ManualFlagService → List Seen → ManualFlagService × List (Result ShortcutDiagnostic PollOutcome)
poll_all s [] = (s, [])
poll_all s ((env, flag, next) ∷ rest) =
    let (s', outcome) = poll env flag next s in
    let (last, outcomes) = poll_all s' rest in (last, outcome ∷ outcomes)

poll-repeat :
    (env : OpenEnv) (flag : Result ShortcutDiagnostic (Unit {0})) (id : Text)
    (s : ManualFlagService) (handle : Text)
    → s.session ≡ some handle
    → s.held ≡ true
    → ((poll env flag (ok (activated id)) s).0 ≡ s)
      × ((poll env flag (ok (activated id)) s).1 ≡ ok ignored)
unfolding poll
poll-repeat env flag id s handle open_now held = ground arith

abbrev pub press : OpenEnv × Result ShortcutDiagnostic (Unit {0}) × Text → Seen
press (env, flag, id) = (env, flag, ok (activated id))

-- While the shortcut is held in an open session, further presses, of whatever shortcut, are
-- ignored one by one and change nothing, whatever the sink would say.
pub poll_all-repeats :
    (s : ManualFlagService) (handle : Text)
    (presses : List (OpenEnv × Result ShortcutDiagnostic (Unit {0}) × Text))
    → s.session ≡ some handle
    → s.held ≡ true
    → ((poll_all s (map press presses)).0 ≡ s)
      × ((poll_all s (map press presses)).1 ≡ map (λ p. ok ignored) presses)
unfolding poll_all
poll_all-repeats s handle [] open_now held = (refl, refl)
poll_all-repeats s handle ((env, flag, id) ∷ rest) open_now held =
    let (same, quiet) = poll-repeat env flag id s handle open_now held in
    let after = (poll env flag (ok (activated id)) s).0 in
    let (ih, outcomes) =
      poll_all-repeats after handle rest (ap (λ (t : ManualFlagService). t.session) same ∙ open_now)
        (ap (λ (t : ManualFlagService). t.held) same ∙ held) in
    (ih ∙ same, ap₂ (λ o os. o ∷ os) quiet outcomes)
