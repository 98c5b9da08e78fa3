-- ===== src/Setup.antt =====
-- The setup flow, crates/openfrag-setup/src/setup_flow.rs.
pub mod Blocking
mod Readiness
mod Tests
use openfrag.Common.{
  ℕ, Bool, true, false, not, Option, none, some, List, [], ◌∷◌, ◌++◌, map, ◌==◌, if◌then◌else◌,
  is_empty, is_some_and, and_then,
}
use openfrag.Common.Text.{Text, ascii}

pub data SetupStepId : Type 0 where
  storage local_steam_identity gsi_config capture_recorder : SetupStepId
  ffprobe test_capture local_demo_validation manual_flag : SetupStepId

abbrev pub step_number : SetupStepId → ℕ
step_number storage = 0
step_number local_steam_identity = 1
step_number gsi_config = 2
step_number capture_recorder = 3
step_number ffprobe = 4
step_number test_capture = 5
step_number local_demo_validation = 6
step_number manual_flag = 7

abbrev pub id_eq : SetupStepId → SetupStepId → Bool
id_eq a b = step_number a == step_number b

pub data SetupStepStatus : Type 0 where
  ready blocked skipped : SetupStepStatus

pub data SetupFact : Type 0 where
  fact_ready : Text → SetupFact
  fact_blocked : Text → Text → SetupFact

abbrev pub summary_of : SetupFact → Text
summary_of (fact_ready summary) = summary
summary_of (fact_blocked summary remediation) = summary

abbrev pub is_ready : SetupFact → Bool
is_ready (fact_ready summary) = true
is_ready (fact_blocked summary remediation) = false

abbrev pub remediation_of : SetupFact → Option Text
remediation_of (fact_ready summary) = none
remediation_of (fact_blocked summary remediation) = some remediation

pub record SetupFacts : Type 0 where
  pub storage : SetupFact
  pub local_steam_identity : SetupFact
  pub gsi_config : SetupFact
  pub capture_recorder : SetupFact
  pub ffprobe : SetupFact
  pub test_capture : SetupFact
  pub local_demo_validation : SetupFact
  pub manual_flag : SetupFact

pub record SetupStep : Type 0 where
  pub id : SetupStepId
  pub status : SetupStepStatus
  pub summary : Text
  pub remediation : Option Text
  pub blocked_by : List SetupStepId

abbrev pub is_status_ready : SetupStepStatus → Bool
is_status_ready ready = true
is_status_ready _ = false

-- `steps.iter().find(|step| step.id == id)`.
abbrev pub find_step : SetupStepId → List SetupStep → Option SetupStep
find_step id [] = none
find_step id (s ∷ steps) = if id_eq s.id id then some s else find_step id steps

abbrev pub is_blocker : List SetupStep → SetupStepId → Bool
is_blocker steps dependency =
    is_some_and (find_step dependency steps) (λ s. not (is_status_ready s.status))

abbrev pub blockers : List SetupStep → List SetupStepId → List SetupStepId
blockers steps [] = []
blockers steps (d ∷ ds) = if is_blocker steps d then d ∷ blockers steps ds else blockers steps ds

abbrev pub or_else : Option Text → Option Text → Option Text
or_else (some t) later = some t
or_else none later = later

-- `blocked_by.iter().find_map(…)`.
abbrev pub first_remediation : List SetupStep → List SetupStepId → Option Text
first_remediation steps [] = none
first_remediation steps (d ∷ ds) =
    or_else (and_then (find_step d steps) (λ s. s.remediation)) (first_remediation steps ds)

abbrev pub step_of : List SetupStep → SetupStepId → SetupFact → List SetupStepId → SetupStep
step_of steps id fact blocked_by = record {
  id = id;
  status = if is_empty blocked_by then (if is_ready fact then ready else blocked) else skipped;
  summary = summary_of fact;
  remediation =
      if is_empty blocked_by then remediation_of fact else first_remediation steps blocked_by;
  blocked_by = blocked_by;
}

unfoldable pub push_step :
    List SetupStep → SetupStepId → SetupFact → List SetupStepId → List SetupStep
push_step steps id fact dependencies =
    steps ++ step_of steps id fact (blockers steps dependencies) ∷ []

unfoldable pub evaluate_steps : SetupFacts → List SetupStep
unfolding push_step
evaluate_steps facts =
    let s1 = push_step [] storage facts.storage [] in
    let s2 = push_step s1 gsi_config facts.gsi_config (storage ∷ []) in
    let s3 = push_step s2 local_steam_identity facts.local_steam_identity (storage ∷ []) in
    let s4 = push_step s3 capture_recorder facts.capture_recorder (storage ∷ []) in
    let s5 = push_step s4 ffprobe facts.ffprobe [] in
    let s6 =
      push_step s5 test_capture facts.test_capture (storage ∷ capture_recorder ∷ ffprobe ∷ []) in
    let s7 = push_step s6 local_demo_validation facts.local_demo_validation (storage ∷ []) in
    push_step s7 manual_flag facts.manual_flag (test_capture ∷ [])

-- `SetupFlow::ready`.
unfoldable pub flow_ready : List SetupStep → Bool
flow_ready steps = is_some_and (find_step storage steps) (λ s. is_status_ready s.status)
