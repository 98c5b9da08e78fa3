-- ===== src/Capture/Supervisor/Poll.antt =====
-- Exits, restarts, the tail of stderr and the shutdown, in crates/openfrag-capture/src/lib.rs.
pub mod Restarts
pub mod Stderr
use openfrag.Common.{
  ℕ, zero, suc, ◌+◌, ◌-◌, ◌*◌, min, Bool, true, false, ◌&&◌, ◌||◌, not, Option, none, some, List,
  [], ◌∷◌, ◌++◌, ltb, leb, if◌then◌else◌, is_some_and, length, Result, ok, err, ◌>>=◌, ◌>>◌,
  map_err, saturating_add, saturating_sub, u64_max,
}
use openfrag.Common.Text.{Text}
use openfrag.Common.FilePath.{FilePath, starts_with, has_parent_dir}
use openfrag.Common.Int.{ℤ}
use openfrag.Capture.Supervisor.State.{Error, process, Config, Supervisor, Outcome, SpawnEnv, spawn}

-- `restart_delay`, in milliseconds.
abbrev seconds_after : ℕ → ℕ
seconds_after zero = 1
seconds_after (suc zero) = 2
seconds_after (suc (suc zero)) = 4
seconds_after (suc (suc (suc zero))) = 8
seconds_after (suc (suc (suc (suc zero)))) = 16
seconds_after (suc (suc (suc (suc (suc n))))) = 30

unfoldable pub restart_delay : ℕ → ℕ
restart_delay failures = seconds_after (min failures 5) * 1_000

-- What `poll` reads, in the order in which it may read it.
pub record PollEnv : Type 0 where
  pub drain_stderr : Result Text (List ℕ)
  pub stable_now_ms : ℕ
  pub try_wait : Result Text (Option ℤ)
  pub exit_now_ms : ℕ
  pub restart_now_ms : ℕ
  pub spawn_env : SpawnEnv

-- `push_back`, and `pop_front` when there are too many.
abbrev pub trim_front : ℕ → List ℕ → List ℕ
trim_front limit [] = []
trim_front limit (b ∷ bs) = if ltb limit (length (b ∷ bs)) then bs else b ∷ bs

abbrev pub push_bounded : ℕ → List ℕ → ℕ → List ℕ
push_bounded limit stderr byte = trim_front limit (stderr ++ byte ∷ [])

unfoldable pub append_bytes : ℕ → List ℕ → List ℕ → List ℕ
append_bytes limit stderr [] = stderr
append_bytes limit stderr (byte ∷ bytes) = append_bytes limit (push_bounded limit stderr byte) bytes

-- A recorder that has run long enough starts with no failures counted.
unfoldable pub mark_stable : ℕ → Supervisor → Supervisor
mark_stable now s =
    if not s.stable && leb s.config.stable_after (saturating_sub now s.started_ms)
    then record s { failures = 0; stable = true }
    else s

unfoldable pub exited : ℕ → Supervisor → Supervisor
unfolding restart_delay
exited now s = if s.shutting_down then record s { running = false } else record s {
  running = false;
  failures = saturating_add s.failures 1;
  next_restart_ms = some (saturating_add now (restart_delay s.failures));
}

abbrev no_code : Outcome (Unit {0}) → Outcome (Option ℤ)
no_code (s, ok _) = (s, ok none)
no_code (s, err e) = (s, err e)

unfoldable pub restart_if_due : PollEnv → Supervisor → Outcome (Option ℤ)
unfolding spawn
restart_if_due env s =
    if not s.shutting_down
      && not s.running
      && is_some_and s.next_restart_ms (λ at. leb at env.restart_now_ms)
    then no_code (spawn env.spawn_env s)
    else (s, ok none)

abbrev poll_wait : PollEnv → Supervisor → Result Text (Option ℤ) → Outcome (Option ℤ)
poll_wait env s (err message) = (s, err (process message))
poll_wait env s (ok (some code)) = (exited env.exit_now_ms s, ok (some code))
poll_wait env s (ok none) = restart_if_due env s

unfoldable pub poll_process : PollEnv → Supervisor → Outcome (Option ℤ)
unfolding mark_stable exited restart_if_due
poll_process env s =
    if s.running
    then poll_wait env (mark_stable env.stable_now_ms s) env.try_wait
    else restart_if_due env s

unfoldable pub poll : PollEnv → Supervisor → Outcome (Option ℤ)
unfolding append_bytes poll_process
poll env s = elim env.drain_stderr [
  | err message ↦ (s, err (process message))
  | ok bytes ↦
      poll_process env (record s { stderr = append_bytes s.config.max_stderr_bytes s.stderr bytes })
]

-- `signal` is what the process answers to the interrupt.
unfoldable pub shutdown : Result Text (Unit {0}) → Supervisor → Outcome (Unit {0})
shutdown signal s =
    let stopped = record s { shutting_down = true; next_restart_ms = none } in
    if s.running then (stopped, map_err process signal) else (stopped, ok tt)
