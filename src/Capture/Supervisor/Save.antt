-- ===== src/Capture/Supervisor/Save.antt =====
-- Requests for a save, and their acknowledgement, in crates/openfrag-capture/src/lib.rs.
pub mod Queue
pub mod Outputs
use openfrag.Common.{
  ℕ, zero, suc, ◌+◌, ◌-◌, ◌*◌, min, Bool, true, false, ◌&&◌, ◌||◌, not, Option, none, some, List,
  [], ◌∷◌, ◌++◌, ltb, leb, if◌then◌else◌, is_some_and, length, Result, ok, err, ◌>>=◌, ◌>>◌,
  map_err, saturating_add, saturating_sub, u64_max,
}
use openfrag.Common.Text.{Text}
use openfrag.Common.FilePath.{FilePath, starts_with, has_parent_dir}
use openfrag.Capture.Supervisor.State.{
  SaveProvenance, manual_flag, auto_round_end, SaveDisposition, signalled, coalesced, MediaInfo,
  SaveAcknowledgement, SaveRequestOutcome, Error, process, filesystem, media, not_running,
  no_save_in_flight, unsafe_output_path, symlink_output, invalid_output, Config, PendingSave,
  Supervisor, Outcome, SignalEnv, SpawnEnv, spawn, signal_save,
}

-- `get_or_insert_with`, and the upgrade of the provenance.
abbrev pub enqueue : Text → SaveProvenance → Option PendingSave → PendingSave
enqueue id provenance none = record {
  recorder_request_id = id;
  provenance = provenance;
  since_wall_ms = 0;
  requested_at_ms = 0;
}
enqueue id manual_flag (some pending) = record pending { provenance = manual_flag }
enqueue id auto_round_end (some pending) = pending

abbrev with_outcome : SaveRequestOutcome → Outcome (Unit {0}) → Outcome SaveRequestOutcome
with_outcome outcome (s, ok _) = (s, ok outcome)
with_outcome outcome (s, err e) = (s, err e)

abbrev request_idle :
    SignalEnv → Text → SaveProvenance → Supervisor → Option PendingSave → Outcome SaveRequestOutcome
request_idle env id provenance s (some busy) =
    let pending = enqueue id provenance s.queued in
    (
      record s { queued = some pending },
      ok (record { recorder_request_id = pending.recorder_request_id; disposition = coalesced }),
    )
request_idle env id provenance s none =
    with_outcome (record { recorder_request_id = id; disposition = signalled })
      (signal_save env id provenance s)

unfoldable pub request_save :
    SignalEnv → Text → SaveProvenance → Supervisor → Outcome SaveRequestOutcome
unfolding signal_save
request_save env id provenance s =
    if s.running then request_idle env id provenance s s.in_flight else (s, err not_running)

pub record OutputEnv : Type 0 where
  pub is_symlink : FilePath → Result Text Bool
  pub is_regular_file : FilePath → Result Text Bool
  pub is_contained : FilePath → FilePath → Result Text Bool
  pub verify : FilePath → Result Text MediaInfo
  pub next : SignalEnv

abbrev pub check : Result Text Bool → (Bool → Result Error (Unit {0})) → Result Error (Unit {0})
check answer k = map_err filesystem answer >>= k

unfoldable pub validate_output : OutputEnv → Config → FilePath → Result Error (Unit {0})
unfolding starts_with has_parent_dir
validate_output env config path =
    if not (starts_with path config.output_directory) || has_parent_dir path
    then err unsafe_output_path
    else check (env.is_symlink path) (λ symlink.
      if symlink
      then err symlink_output
      else check (env.is_regular_file path) (λ regular.
        if not regular
        then err invalid_output
        else check (env.is_contained config.output_directory path)
            (λ contained. if not contained then err unsafe_output_path else ok tt)))

abbrev acknowledged : FilePath → PendingSave → MediaInfo → SaveAcknowledgement
acknowledged path pending info = record {
  path = path;
  recorder_request_id = pending.recorder_request_id;
  provenance = pending.provenance;
  requested_at_ms = pending.requested_at_ms;
  media = info;
}

abbrev with_value : {A : Type 0} → A → Outcome (Unit {0}) → Outcome A
with_value a (s, ok _) = (s, ok a)
with_value a (s, err e) = (s, err e)

-- The save is done: it leaves, and the queued one, if there is one, is signalled.
abbrev pub signal_queued : OutputEnv → Supervisor → Option PendingSave → Outcome (Unit {0})
signal_queued env s none = (s, ok tt)
signal_queued env s (some next) =
    signal_save env.next next.recorder_request_id next.provenance (record s { queued = none })

abbrev acknowledge_pending :
    OutputEnv → FilePath → Supervisor → Option PendingSave → Outcome SaveAcknowledgement
acknowledge_pending env path s none = (s, err no_save_in_flight)
acknowledge_pending env path s (some pending) =
    elim (validate_output env s.config path >> map_err media (env.verify path)) [
      | err e ↦ (s, err e)
      | ok info ↦
          with_value (acknowledged path pending info)
            (signal_queued env (record s { in_flight = none }) s.queued)
    ]

unfoldable pub acknowledge : OutputEnv → FilePath → Supervisor → Outcome SaveAcknowledgement
unfolding signal_save validate_output
acknowledge env path s = acknowledge_pending env path s s.in_flight

abbrev with_some : {A : Type 0} → Outcome A → Outcome (Option A)
with_some (s, ok a) = (s, ok (some a))
with_some (s, err e) = (s, err e)

abbrev discover_first :
    OutputEnv → Supervisor → List FilePath → Outcome (Option SaveAcknowledgement)
discover_first env s [] = (s, ok none)
discover_first env s (path ∷ others) = with_some (acknowledge env path s)

abbrev discover_pending :
    (FilePath → ℕ → Result Text (List FilePath))
    → OutputEnv
    → Supervisor
    → Option PendingSave
    → Outcome (Option SaveAcknowledgement)
discover_pending outputs_since env s none = (s, err no_save_in_flight)
discover_pending outputs_since env s (some pending) =
    elim (outputs_since s.config.output_directory pending.since_wall_ms) [
      | err message ↦ (s, err (filesystem message))
      | ok paths ↦ discover_first env s paths
    ]

unfoldable pub discover_save :
    (FilePath → ℕ → Result Text (List FilePath))
    → OutputEnv
    → Supervisor
    → Outcome (Option SaveAcknowledgement)
discover_save outputs_since env s = discover_pending outputs_since env s s.in_flight
