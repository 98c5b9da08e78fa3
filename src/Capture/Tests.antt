-- ===== src/Capture/Tests.antt =====
-- The theorems on crates/openfrag-capture/src/lib.rs at a concrete recorder.
use openfrag.Common.{◌≡◌, ◌⊎◌, inl, refl, true, false, none, some, [], ◌∷◌, ◌++◌, arith, ok, err}
use openfrag.Common.Text.{text_eq, ascii}
use openfrag.Common.Int.{pos}
use openfrag.Common.FilePath.{FilePath, root_dir, normal, starts_with, has_parent_dir}
use openfrag.Capture.Launch.{native}
use openfrag.Capture.Supervisor.State.{
  Config, Supervisor, new, PendingSave, MediaInfo, SaveAcknowledgement, manual_flag, auto_round_end,
  process, SignalEnv,
}
use openfrag.Capture.Supervisor.Save.{OutputEnv, acknowledge}
use openfrag.Capture.Supervisor.Save.Queue.{
  request_all, any_manual, IsFollowUp, request_all-coalesces,
}
use openfrag.Capture.Supervisor.Save.Outputs.{
  IsSafeOutput, follow_up, acknowledge-exact, acknowledge-loses,
}
use openfrag.Capture.Supervisor.Poll.{append_bytes, PollEnv, poll, shutdown}
use openfrag.Capture.Supervisor.Poll.Restarts.{poll_all, shutdown-no_restart}
use openfrag.Capture.Supervisor.Poll.Stderr.{IsTail, append_bytes-IsTail}

abbrev config : Config
config = record {
  launch = native (ascii "recorder") [];
  output_directory = root_dir ∷ normal (ascii "clips") ∷ [];
  max_stderr_bytes = 2;
  stable_after = 60_000;
}

abbrev running : Supervisor
running = record (new config) { running = true; started_ms = 5 }

abbrev down : Supervisor
down = record (new config) { next_restart_ms = some 1_000; failures = 1 }

abbrev clip_path : FilePath
clip_path = root_dir ∷ normal (ascii "clips") ∷ normal (ascii "a.mp4") ∷ []

abbrev signal_env : SignalEnv
signal_env = record { signal = ok tt; wall_ms = 70; now_ms = 80 }

abbrev failing_env : SignalEnv
failing_env = record { signal = err (ascii "gone"); wall_ms = 70; now_ms = 80 }

abbrev info : MediaInfo
info = record { duration_ms = 60_000; video_streams = 1 }

abbrev output_env : SignalEnv → OutputEnv
output_env next = record {
  is_symlink = λ path. ok false;
  is_regular_file = λ path. ok true;
  is_contained = λ directory path. ok true;
  verify = λ path. ok info;
  next = next;
}

abbrev first : PendingSave
first = record {
  recorder_request_id = ascii "1";
  provenance = auto_round_end;
  since_wall_ms = 3;
  requested_at_ms = 4;
}

abbrev second_save : PendingSave
second_save = record {
  recorder_request_id = ascii "2";
  provenance = manual_flag;
  since_wall_ms = 0;
  requested_at_ms = 0;
}

abbrev saving : Supervisor
saving = record running { in_flight = some first; queued = some second_save }

abbrev acknowledgement : SaveAcknowledgement
acknowledgement = record {
  path = clip_path;
  recorder_request_id = ascii "1";
  provenance = auto_round_end;
  requested_at_ms = 4;
  media = info;
}

request_all-coalesces_example :
    let after =
      request_all
        (record running { in_flight = some first })
        ((signal_env, (ascii "2", auto_round_end)) ∷ (signal_env, (ascii "3", manual_flag)) ∷ []) in
    (after.in_flight ≡ some first)
    × IsFollowUp
        (ascii "2")
        (any_manual
          ((signal_env, (ascii "2", auto_round_end)) ∷ (signal_env, (ascii "3", manual_flag)) ∷ []))
        after.queued
unfolding new
request_all-coalesces_example =
    request_all-coalesces (record running { in_flight = some first }) signal_env (ascii "2")
      auto_round_end ((signal_env, (ascii "3", manual_flag)) ∷ []) first refl refl refl

acknowledge-exact_example :
    let after = (acknowledge (output_env signal_env) clip_path saving).0 in
    IsSafeOutput (output_env signal_env) config clip_path
    × ((output_env signal_env).verify clip_path ≡ ok acknowledgement.media)
    × (acknowledgement.path ≡ clip_path)
    × (acknowledgement.recorder_request_id ≡ first.recorder_request_id)
    × (acknowledgement.provenance ≡ first.provenance)
    × (acknowledgement.requested_at_ms ≡ first.requested_at_ms)
    × (after.in_flight ≡ follow_up (output_env signal_env) (some second_save))
    × (after.queued ≡ none)
unfolding acknowledge new starts_with text_eq
acknowledge-exact_example =
    acknowledge-exact (output_env signal_env) clip_path saving first acknowledgement refl refl

clip_path-IsSafeOutput : IsSafeOutput (output_env failing_env) config clip_path
unfolding starts_with has_parent_dir text_eq
clip_path-IsSafeOutput = ground arith

acknowledge-loses_example :
    acknowledge (output_env failing_env) clip_path saving
    ≡ (record saving { in_flight = none; queued = none }, err (process (ascii "gone")))
unfolding new
acknowledge-loses_example =
    acknowledge-loses (output_env failing_env) clip_path saving first second_save info
      (ascii "gone") refl refl clip_path-IsSafeOutput refl refl

abbrev poll_env : PollEnv
poll_env = record {
  drain_stderr = ok (1 ∷ []);
  stable_now_ms = 100;
  try_wait = ok (some (pos 1));
  exit_now_ms = 110;
  restart_now_ms = 2_000;
  spawn_env = record { spawn = ok tt; started_at_ms = 2_001 };
}

shutdown-no_restart_example :
    let before = poll_all (shutdown (ok tt) down).0 (poll_env ∷ []) in
    let after = (poll poll_env before).0 in
    (before.shutting_down ≡ true)
    × (after.shutting_down ≡ true)
    × ((after.running ≡ false) ⊎ (before.running ≡ true))
unfolding new
shutdown-no_restart_example = shutdown-no_restart (ok tt) down (poll_env ∷ []) poll_env

nothing-IsTail : IsTail 2 [] []
nothing-IsTail = ([], refl, omega arith, inl refl)

append_bytes-IsTail_example : IsTail 2 ([] ++ (1 ∷ 2 ∷ 3 ∷ [])) (append_bytes 2 [] (1 ∷ 2 ∷ 3 ∷ []))
append_bytes-IsTail_example = append_bytes-IsTail 2 [] [] (1 ∷ 2 ∷ 3 ∷ []) nothing-IsTail
