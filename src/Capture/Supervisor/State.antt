-- ===== src/Capture/Supervisor/State.antt =====
-- The state of the supervisor of crates/openfrag-capture/src/lib.rs, and the calls of its process.
-- Process, filesystem, clock and media probe are traits: each method takes what they answer to the
-- calls that it makes in a record of its own, with one field for each reading of the clock.
use openfrag.Common.{ℕ, Bool, true, false, Option, none, some, List, [], Result, ok, err}
use openfrag.Common.Text.{Text}
use openfrag.Common.FilePath.{FilePath}
use openfrag.Capture.Launch.{Launch}

pub data SaveProvenance : Type 0 where
  manual_flag auto_round_end : SaveProvenance

pub data SaveDisposition : Type 0 where
  signalled coalesced : SaveDisposition

pub record MediaInfo : Type 0 where
  pub duration_ms : ℕ
  pub video_streams : ℕ

pub record SaveAcknowledgement : Type 0 where
  pub path : FilePath
  pub recorder_request_id : Text
  pub provenance : SaveProvenance
  pub requested_at_ms : ℕ
  pub media : MediaInfo

pub record SaveRequestOutcome : Type 0 where
  pub recorder_request_id : Text
  pub disposition : SaveDisposition

pub data Error : Type 0 where
  process filesystem media : Text → Error
  not_running no_save_in_flight unsafe_output_path symlink_output : Error
  invalid_output output_not_found : Error

-- `stable_after` is in milliseconds.
pub record Config : Type 0 where
  pub launch : Launch
  pub output_directory : FilePath
  pub max_stderr_bytes : ℕ
  pub stable_after : ℕ

pub record PendingSave : Type 0 where
  pub recorder_request_id : Text
  pub provenance : SaveProvenance
  pub since_wall_ms : ℕ
  pub requested_at_ms : ℕ

pub record Supervisor : Type 0 where
  pub config : Config
  pub running : Bool
  pub shutting_down : Bool
  pub started_ms : ℕ
  pub stable : Bool
  pub in_flight : Option PendingSave
  pub queued : Option PendingSave
  pub next_restart_ms : Option ℕ
  pub failures : ℕ
  pub stderr : List ℕ

unfoldable pub new : Config → Supervisor
new config = record {
  config = config;
  running = false;
  shutting_down = false;
  started_ms = 0;
  stable = false;
  in_flight = none;
  queued = none;
  next_restart_ms = none;
  failures = 0;
  stderr = [];
}

-- The supervisor after a method, and what the method returned.
abbrev pub Outcome : Type 0 → Type 0
Outcome A = Supervisor × Result Error A

-- The answer to a signal, and the two clocks behind it.
pub record SignalEnv : Type 0 where
  pub signal : Result Text (Unit {0})
  pub wall_ms : ℕ
  pub now_ms : ℕ

pub record SpawnEnv : Type 0 where
  pub spawn : Result Text (Unit {0})
  pub started_at_ms : ℕ

unfoldable pub spawn : SpawnEnv → Supervisor → Outcome (Unit {0})
spawn env s = elim env.spawn [
  | err message ↦ (s, err (process message))
  | ok _ ↦ (
    record s {
      running = true;
      shutting_down = false;
      stable = false;
      started_ms = env.started_at_ms;
      next_restart_ms = none;
    },
    ok tt,
  )
]

unfoldable pub start : SpawnEnv → Supervisor → Outcome (Unit {0})
unfolding spawn
start env s = spawn env s

unfoldable pub signal_save : SignalEnv → Text → SaveProvenance → Supervisor → Outcome (Unit {0})
signal_save env recorder_request_id provenance s = elim env.signal [
  | err message ↦ (s, err (process message))
  | ok _ ↦ (
    record s {
      in_flight = some (record {
        recorder_request_id = recorder_request_id;
        provenance = provenance;
        since_wall_ms = env.wall_ms;
        requested_at_ms = env.now_ms;
      });
    },
    ok tt,
  )
]
