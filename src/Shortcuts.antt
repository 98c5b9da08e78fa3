-- ===== src/Shortcuts.antt =====
-- The Manual Flag service, crates/openfrag-shortcuts/src/lib.rs. Portal, sink and token store are
-- traits: each method takes what they answer to the calls that it makes.
pub mod Hold
mod Tests
use openfrag.Common.{
  ℕ, Bool, true, false, not, Option, none, some, List, [], ◌∷◌, if◌then◌else◌, Result, ok, err,
}
use openfrag.Common.Text.{Text, text_eq, ascii}

abbrev pub manual_flag_id : Text
manual_flag_id = ascii "openfrag.manual-flag"

abbrev pub manual_flag_description : Text
manual_flag_description = ascii "Save the preceding play"

pub record ShortcutRequest : Type 0 where
  pub id : Text
  pub description : Text
  pub preferred_trigger : Option Text

-- Handle and token are texts.
pub record OpenedSession : Type 0 where
  pub session : Text
  pub restore_token : Text

pub data PortalSignal : Type 0 where
  activated deactivated : Text → PortalSignal
  signal_session_lost portal_lost : PortalSignal

pub data PollOutcome : Type 0 where
  flagged released ignored reconnected : PollOutcome

pub data ShortcutDiagnostic : Type 0 where
  unavailable conflict permission_denied session_lost : ShortcutDiagnostic
  persistence sink portal : Text → ShortcutDiagnostic

pub record ManualFlagService : Type 0 where
  pub preferred_trigger : Option Text
  pub session : Option Text
  pub restore_token : Option Text
  pub held : Bool

unfoldable pub new : Option Text → ManualFlagService
new preferred_trigger = record {
  preferred_trigger = preferred_trigger;
  session = none;
  restore_token = none;
  held = false;
}

abbrev pub Outcome : Type 0 → Type 0
Outcome A = ManualFlagService × Result ShortcutDiagnostic A

-- `PortalBackend::open` and `RestoreTokenStore::save`.
pub record OpenEnv : Type 0 where
  pub open_portal : Option Text → List ShortcutRequest → Result ShortcutDiagnostic OpenedSession
  pub save_token : Text → Result ShortcutDiagnostic (Unit {0})

abbrev pub shortcuts : ManualFlagService → List ShortcutRequest
shortcuts s =
    record {
      id = manual_flag_id;
      description = manual_flag_description;
      preferred_trigger = s.preferred_trigger;
    }
    ∷ []

abbrev pub same_token : Option Text → Text → Bool
same_token none token = false
same_token (some old) token = text_eq old token

-- A token that is the one given is not saved again.
abbrev pub save_if_new : OpenEnv → Option Text → Text → Result ShortcutDiagnostic (Unit {0})
save_if_new env restore_token token =
    if same_token restore_token token then ok tt else env.save_token token

abbrev adopt :
    ManualFlagService → OpenedSession → Result ShortcutDiagnostic (Unit {0}) → Outcome (Unit {0})
adopt s opened (err e) = (s, err e)
adopt s opened (ok _) =
    (record s { restore_token = some opened.restore_token; session = some opened.session }, ok tt)

unfoldable pub open_session : OpenEnv → Option Text → ManualFlagService → Outcome (Unit {0})
open_session env restore_token s = elim (env.open_portal restore_token (shortcuts s)) [
  | err e ↦ (s, err e)
  | ok opened ↦ adopt s opened (save_if_new env restore_token opened.restore_token)
]

unfoldable pub start :
    OpenEnv → Result ShortcutDiagnostic (Option Text) → ManualFlagService → Outcome (Unit {0})
unfolding open_session
start env loaded s = elim s.session [
  | some open_already ↦ (s, ok tt)
  | none ↦ elim loaded [ err e ↦ (s, err e) | ok restore_token ↦ open_session env restore_token s ]
]

abbrev as_reconnected : Outcome (Unit {0}) → Outcome PollOutcome
as_reconnected (s, ok _) = (s, ok reconnected)
as_reconnected (s, err e) = (s, err e)

unfoldable pub reconnect : OpenEnv → ManualFlagService → Outcome PollOutcome
unfolding open_session
reconnect env s =
    as_reconnected (open_session env s.restore_token (record s { held = false; session = none }))

abbrev press : Result ShortcutDiagnostic (Unit {0}) → ManualFlagService → Outcome PollOutcome
press (err e) s = (s, err e)
press (ok _) s = (record s { held = true }, ok flagged)

-- `flag` is what the sink answers to `manual_flag`.
abbrev pub on_signal :
    OpenEnv
    → Result ShortcutDiagnostic (Unit {0})
    → ManualFlagService
    → PortalSignal
    → Outcome PollOutcome
on_signal env flag s portal_lost = reconnect env s
on_signal env flag s signal_session_lost = reconnect env s
on_signal env flag s (activated id) =
    if text_eq id manual_flag_id
    then (if s.held then (s, ok ignored) else press flag s)
    else (s, ok ignored)
on_signal env flag s (deactivated id) =
    if text_eq id manual_flag_id
    then (if s.held then (record s { held = false }, ok released) else (s, ok ignored))
    else (s, ok ignored)

abbrev pub on_next :
    OpenEnv
    → Result ShortcutDiagnostic (Unit {0})
    → ManualFlagService
    → Result ShortcutDiagnostic PortalSignal
    → Outcome PollOutcome
on_next env flag s (ok signal) = on_signal env flag s signal
on_next env flag s (err session_lost) = reconnect env s
on_next env flag s (err e) = (s, err e)

unfoldable pub poll :
    OpenEnv
    → Result ShortcutDiagnostic (Unit {0})
    → Result ShortcutDiagnostic PortalSignal
    → ManualFlagService
    → Outcome PollOutcome
unfolding reconnect
poll env flag next s = elim s.session [
  | none ↦ (s, err session_lost)
  | some session ↦ on_next env flag s next
]

-- `closed` is what the portal answers to `close`.
unfoldable pub shutdown :
    Result ShortcutDiagnostic (Unit {0}) → ManualFlagService → Outcome (Unit {0})
shutdown closed s = elim s.session [
  | none ↦ (record s { held = false }, ok tt)
  | some session ↦ (record s { held = false; session = none }, closed)
]
