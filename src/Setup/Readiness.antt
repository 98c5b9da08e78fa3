-- ===== src/Setup/Readiness.antt =====
-- Which setup steps are ready, by the facts.
use openfrag.Common.{◌≡◌, Bool, ◌&&◌, List, arith, is_some_and}
use openfrag.Setup.{
  SetupStepId, is_ready, SetupFacts, SetupStep, is_status_ready, find_step, evaluate_steps,
  flow_ready, storage, local_steam_identity, gsi_config, capture_recorder, ffprobe, test_capture,
  local_demo_validation, manual_flag,
}

abbrev pub ready_in : SetupStepId → List SetupStep → Bool
ready_in id steps = is_some_and (find_step id steps) (λ s. is_status_ready s.status)

-- A step is ready exactly if its own fact is and so is the fact of every step that it needs, at
-- first or second hand: none for storage and ffprobe, storage for the game's configuration, the
-- Steam identity, the recorder and the demo validation, these of storage, recorder and ffprobe
-- for the test capture, and those and the test capture for the Manual Flag. The whole flow counts
-- as ready with its storage.
pub evaluate_steps-ready :
    (facts : SetupFacts)
    → let steps = evaluate_steps facts in
      let stored = is_ready facts.storage in
      let captures =
        stored
        && (is_ready facts.capture_recorder
            && (is_ready facts.ffprobe && is_ready facts.test_capture)) in
      (ready_in storage steps ≡ stored)
      × (ready_in gsi_config steps ≡ (stored && is_ready facts.gsi_config))
      × (ready_in local_steam_identity steps ≡ (stored && is_ready facts.local_steam_identity))
      × (ready_in capture_recorder steps ≡ (stored && is_ready facts.capture_recorder))
      × (ready_in ffprobe steps ≡ is_ready facts.ffprobe)
      × (ready_in test_capture steps ≡ captures)
      × (ready_in local_demo_validation steps ≡ (stored && is_ready facts.local_demo_validation))
      × (ready_in manual_flag steps ≡ (captures && is_ready facts.manual_flag))
      × (flow_ready steps ≡ stored)
unfolding evaluate_steps flow_ready
evaluate_steps-ready facts = (
  ground arith,
  ground arith,
  ground arith,
  ground arith,
  ground arith,
  ground arith,
  ground arith,
  ground arith,
  ground arith,
)
