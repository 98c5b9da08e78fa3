-- ===== src/Capture/Supervisor/Poll/Restarts.antt =====
-- When the recorder is restarted.
use openfrag.Common.{
  ℕ, ◌≤◌, ◌≡◌, ◌⊎◌, inl, inr, Bool-cases, false, true, false, none, some, List, [], ◌∷◌, arith,
  Result, ok, if◌then◌else◌, leb,
}
use openfrag.Common.Text.{Text}
use openfrag.Capture.Supervisor.State.{Supervisor}
use openfrag.Capture.Supervisor.Poll.{PollEnv, restart_delay, poll, poll_process, shutdown}

-- The delay before a restart lies between one second and thirty.
pub restart_delay-bounds : (n : ℕ) → (1_000 ≤ restart_delay n) × (restart_delay n ≤ 30_000)
unfolding restart_delay
restart_delay-bounds n = ground arith

-- A restart is due only for a recorder that is neither running nor being shut down.
pub record IsSettled (s : Supervisor) : Type 0 where
  pub running_none : s.running ≡ true → s.next_restart_ms ≡ none
  pub shutting_none : s.shutting_down ≡ true → s.next_restart_ms ≡ none

poll_process-IsSettled :
    (env : PollEnv) (s : Supervisor) → IsSettled s → IsSettled (poll_process env s).0
unfolding poll_process
poll_process-IsSettled env s h = ground arith

pub poll-IsSettled : (env : PollEnv) (s : Supervisor) → IsSettled s → IsSettled (poll env s).0
unfolding poll
poll-IsSettled env s h = ground arith

-- At a poll that can read stderr, a recorder that is down, with a restart set and no shutdown
-- asked for, comes back if that time has come and stays down with its restart set if it has not,
-- provided that the process can be spawned; the failures counted stay.
pub poll-restart :
    (env : PollEnv) (s : Supervisor) (bytes : List ℕ) (at : ℕ)
    → env.drain_stderr ≡ ok bytes
    → env.spawn_env.spawn ≡ ok tt
    → s.running ≡ false
    → s.shutting_down ≡ false
    → s.next_restart_ms ≡ some at
    → let after = (poll env s).0 in
      ((poll env s).1 ≡ ok none)
      × (after.running ≡ leb at env.restart_now_ms)
      × (after.next_restart_ms ≡ (if leb at env.restart_now_ms then none else some at))
      × (after.failures ≡ s.failures)
unfolding poll
poll-restart env s bytes at d sp r n due = ground arith

unfoldable pub poll_all : Supervisor → List PollEnv → Supervisor
poll_all s [] = s
poll_all s (env ∷ envs) = poll_all (poll env s).0 envs

poll-shutting :
    (env : PollEnv) (s : Supervisor)
    → s.shutting_down ≡ true
    → ((poll env s).0.shutting_down ≡ true)
      × ((poll env s).0.running ≡ true → s.running ≡ true)
      × (((poll env s).1 ≡ ok none) ⊎ ((poll env s).0.next_restart_ms ≡ s.next_restart_ms))
unfolding poll
poll-shutting env s h = ground arith

poll_all-shutting :
    (s : Supervisor) (envs : List PollEnv)
    → s.shutting_down ≡ true
    → ((poll_all s envs).shutting_down ≡ true)
      × ((poll_all s envs).running ≡ true → s.running ≡ true)
unfolding poll_all
poll_all-shutting s [] h = (h, λ r. r)
poll_all-shutting s (env ∷ envs) h =
    let p = poll-shutting env s h in
    let q = poll_all-shutting (poll env s).0 envs p.0 in (q.0, λ r. p.1 (q.1 r))

-- Once it is shut down, the supervisor stays so, whatever the polls, and no poll starts the
-- recorder: after each of them it is down or ran before that poll.
pub shutdown-no_restart :
    (signal : Result Text (Unit {0})) (s : Supervisor) (envs : List PollEnv) (env : PollEnv)
    → let before = poll_all (shutdown signal s).0 envs in
      let after = (poll env before).0 in
      (before.shutting_down ≡ true)
      × (after.shutting_down ≡ true)
      × ((after.running ≡ false) ⊎ (before.running ≡ true))
unfolding shutdown
shutdown-no_restart signal s envs env =
    let before = poll_all (shutdown signal s).0 envs in
    let stays = (poll_all-shutting (shutdown signal s).0 envs (ground arith)).0 in
    let (shut, started, _) = poll-shutting env before stays in
    (
      stays,
      shut,
      elim (Bool-cases (poll env before).0.running) [
        | inl runs ↦ inr (started runs)
        | inr down ↦ inl down
      ],
    )
