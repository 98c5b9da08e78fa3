-- ===== src/Capture/Supervisor/Save/Outputs.antt =====
-- What an acknowledged save guarantees, and what becomes of the queued one.
use openfrag.Common.{◌≡◌, ◌↔◌, true, false, Option, none, some, arith, ok, err}
use openfrag.Common.Text.{Text}
use openfrag.Common.FilePath.{FilePath, starts_with, has_parent_dir}
use openfrag.Capture.Supervisor.State.{
  MediaInfo, SaveAcknowledgement, process, PendingSave, Config, Supervisor,
}
use openfrag.Capture.Supervisor.Save.{acknowledge, OutputEnv, validate_output}

-- What `validate_output` has made sure of.
pub record IsSafeOutput (env : OutputEnv) (config : Config) (path : FilePath) : Type 0 where
  pub inside : starts_with path config.output_directory ≡ true
  pub no_way_up : has_parent_dir path ≡ false
  pub no_link : env.is_symlink path ≡ ok false
  pub regular : env.is_regular_file path ≡ ok true
  pub contained : env.is_contained config.output_directory path ≡ ok true

-- A path passes the validation exactly if it lies in the output directory by its components and by
-- its canonical form, has no `..`, is no symbolic link and is a regular file.
pub validate_output-IsSafeOutput :
    (env : OutputEnv) (config : Config) (path : FilePath)
    → (validate_output env config path ≡ ok tt) ↔ IsSafeOutput env config path
unfolding validate_output
validate_output-IsSafeOutput env config path = (λ h. ground arith, λ h. ground arith)

-- The save that was under way, as `signal_queued` leaves the supervisor.
abbrev pub follow_up : OutputEnv → Option PendingSave → Option PendingSave
follow_up env none = none
follow_up env (some next) =
    some (record next { since_wall_ms = env.next.wall_ms; requested_at_ms = env.next.now_ms })

-- An acknowledgement that is returned for a save under way is for a path that is safe and that the
-- media probe has verified. It carries that save's identity, provenance and time; and the queued
-- save, if there is one, is then under way in its place, with the times of its own signal, and
-- nothing is queued.
pub acknowledge-exact :
    (env : OutputEnv) (path : FilePath) (s : Supervisor) (pending : PendingSave)
    (ack : SaveAcknowledgement)
    → s.in_flight ≡ some pending
    → (acknowledge env path s).1 ≡ ok ack
    → let after = (acknowledge env path s).0 in
      IsSafeOutput env s.config path
      × (env.verify path ≡ ok ack.media)
      × (ack.path ≡ path)
      × (ack.recorder_request_id ≡ pending.recorder_request_id)
      × (ack.provenance ≡ pending.provenance)
      × (ack.requested_at_ms ≡ pending.requested_at_ms)
      × (after.in_flight ≡ follow_up env s.queued)
      × (after.queued ≡ none)
unfolding acknowledge
acknowledge-exact env path s pending ack f h = ground arith

-- If a save is under way and another queued, and the path is safe and its media verified, but the
-- signal for the queued save fails, then the error of that signal is returned in place of the
-- acknowledgement, and neither save is left in the supervisor.
pub acknowledge-loses :
    (env : OutputEnv) (path : FilePath) (s : Supervisor) (pending next : PendingSave)
    (info : MediaInfo) (message : Text)
    → s.in_flight ≡ some pending
    → s.queued ≡ some next
    → IsSafeOutput env s.config path
    → env.verify path ≡ ok info
    → env.next.signal ≡ err message
    → acknowledge env path s ≡ (record s { in_flight = none; queued = none }, err (process message))
unfolding acknowledge
acknowledge-loses env path s pending next info message f q safe v e = ground arith
