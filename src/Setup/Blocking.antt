-- ===== src/Setup/Blocking.antt =====
-- What is shown of the setup steps that are not ready.
use mathlib.Core.Path.{subst}
use openfrag.Common.{
  ◌≡◌, inl, inr, refl, sym, ap, ◌∙◌, true, false, if◌then◌else◌, Option, none, some, List, [], ◌∷◌,
  ◌++◌, arith, All, All-append, Bool-cases, Option-cases,
}
use openfrag.Common.Text.{Text}
use openfrag.Setup.{
  SetupStepId, ready, blocked, skipped, SetupFact, fact_ready, fact_blocked, SetupFacts, SetupStep,
  is_status_ready, id_eq, find_step, is_blocker, blockers, step_of, push_step, evaluate_steps,
  storage, local_steam_identity, gsi_config, capture_recorder, ffprobe, test_capture,
  local_demo_validation, manual_flag,
}

-- The fact that is known of a step.
abbrev pub fact_of : SetupFacts → SetupStepId → SetupFact
fact_of facts storage = facts.storage
fact_of facts local_steam_identity = facts.local_steam_identity
fact_of facts gsi_config = facts.gsi_config
fact_of facts capture_recorder = facts.capture_recorder
fact_of facts ffprobe = facts.ffprobe
fact_of facts test_capture = facts.test_capture
fact_of facts local_demo_validation = facts.local_demo_validation
fact_of facts manual_flag = facts.manual_flag

-- What a step of a flow shows: nothing to do if its fact is ready, the remediation of its own fact
-- if only that blocks it, and else that of the first step that blocks it.
pub data IsExplained (facts : SetupFacts) (steps : List SetupStep) (s : SetupStep) : Type 0 where
  needs_nothing :
      (summary : Text)
      → fact_of facts s.id ≡ fact_ready summary
      → s.status ≡ ready
      → s.blocked_by ≡ []
      → s.remediation ≡ none
      → IsExplained facts steps s
  needs_own :
      (summary remediation : Text)
      → fact_of facts s.id ≡ fact_blocked summary remediation
      → s.status ≡ blocked
      → s.blocked_by ≡ []
      → s.remediation ≡ some remediation
      → IsExplained facts steps s
  needs_first :
      (first : SetupStepId) (others : List SetupStepId) (blocker : SetupStep) (remediation : Text)
      → s.status ≡ skipped
      → s.blocked_by ≡ first ∷ others
      → find_step first steps ≡ some blocker
      → is_status_ready blocker.status ≡ false
      → blocker.remediation ≡ some remediation
      → s.remediation ≡ some remediation
      → IsExplained facts steps s

abbrev IsFlow : SetupFacts → List SetupStep → Type 0
IsFlow facts steps = All (IsExplained facts steps) steps

find_step-append :
    (id : SetupStepId) (steps more : List SetupStep) (s : SetupStep)
    → find_step id steps ≡ some s
    → find_step id (steps ++ more) ≡ some s
find_step-append id [] more s e = cc
find_step-append id (t ∷ ts) more s e = elim (Bool-cases (id_eq t.id id)) [
  | inl here ↦ ground (arith, here, e)
  | inr later ↦ rw later (find_step-append id ts more s (ground (arith, later, e)))
]

IsExplained-append :
    (facts : SetupFacts) (steps more : List SetupStep) (s : SetupStep)
    → IsExplained facts steps s
    → IsExplained facts (steps ++ more) s
IsExplained-append facts steps more s (needs_nothing m f t b r) = needs_nothing m f t b r
IsExplained-append facts steps more s (needs_own m r f t b e) = needs_own m r f t b e
IsExplained-append facts steps more s (needs_first d ds t r skips by found blocks shows e) =
    needs_first d ds t r skips by (find_step-append d steps more t found) blocks shows e

all-IsExplained-append :
    (facts : SetupFacts) (steps more ss : List SetupStep)
    → All (IsExplained facts steps) ss
    → All (IsExplained facts (steps ++ more)) ss
all-IsExplained-append facts steps more [] h = tt
all-IsExplained-append facts steps more (s ∷ ss) (h, hs) =
    (IsExplained-append facts steps more s h, all-IsExplained-append facts steps more ss hs)

find_step-IsExplained :
    (facts : SetupFacts) (flow : List SetupStep) (id : SetupStepId) (steps : List SetupStep)
    (s : SetupStep)
    → All (IsExplained facts flow) steps
    → find_step id steps ≡ some s
    → IsExplained facts flow s
find_step-IsExplained facts flow id [] s h e = cc
find_step-IsExplained facts flow id (t ∷ ts) s (h, hs) e = elim (Bool-cases (id_eq t.id id)) [
  | inl here ↦
      subst (IsExplained facts flow)
        (ap (unwrap t) (sym (ap (λ b. if b then some t else find_step id ts) here) ∙ e)) h
  | inr later ↦ find_step-IsExplained facts flow id ts s hs (ground (arith, later, e))
]
  where
    unwrap : SetupStep → Option SetupStep → SetupStep
    unwrap default none = default
    unwrap default (some x) = x

-- A step that is not ready shows a remediation.
shown :
    (facts : SetupFacts) (flow : List SetupStep) (s : SetupStep)
    → IsExplained facts flow s
    → is_status_ready s.status ≡ false
    → (remediation : Text) × (s.remediation ≡ some remediation)
shown facts flow s (needs_nothing m f t b r) n = absurd (ground (arith, t, n))
shown facts flow s (needs_own m r f t b e) n = (r, e)
shown facts flow s (needs_first d ds t r skips by found blocks shows e) n = (r, e)

abbrev IsBlocker : List SetupStep → SetupStepId → Type 0
IsBlocker steps d =
    (t : SetupStep) × (find_step d steps ≡ some t) × (is_status_ready t.status ≡ false)

is_blocker-IsBlocker :
    (steps : List SetupStep) (d : SetupStepId) → is_blocker steps d ≡ true → IsBlocker steps d
is_blocker-IsBlocker steps d b = elim (Option-cases (find_step d steps)) [
  | inl nothing ↦ absurd (ground (arith, nothing, b))
  | inr (t, found) ↦ (t, found, ground (arith, found, b))
]

blockers-AreBlockers :
    (steps : List SetupStep) (ds : List SetupStepId) → All (IsBlocker steps) (blockers steps ds)
blockers-AreBlockers steps [] = tt
blockers-AreBlockers steps (d ∷ ds) = elim (Bool-cases (is_blocker steps d)) [
  | inl blocks ↦ rw blocks (is_blocker-IsBlocker steps d blocks, blockers-AreBlockers steps ds)
  | inr free ↦ rw free (blockers-AreBlockers steps ds)
]

step_of-IsExplained :
    (facts : SetupFacts) (steps : List SetupStep) (id : SetupStepId) (fact : SetupFact)
    (bs : List SetupStepId)
    → fact_of facts id ≡ fact
    → All (IsBlocker steps) bs
    → IsFlow facts steps
    → IsExplained facts steps (step_of steps id fact bs)
step_of-IsExplained facts steps id (fact_ready m) [] known h flow =
    needs_nothing m known refl refl refl
step_of-IsExplained facts steps id (fact_blocked m r) [] known h flow =
    needs_own m r known refl refl refl
step_of-IsExplained facts steps id fact (b ∷ bs) known ((t, found, blocks), h) flow =
    let (r, shows) =
      shown facts steps t (find_step-IsExplained facts steps b steps t flow found) blocks in
    needs_first b bs t r refl refl found blocks shows (ground (arith, found, shows))

push_step-IsFlow :
    (facts : SetupFacts) (steps : List SetupStep) (id : SetupStepId) (ds : List SetupStepId)
    → IsFlow facts steps
    → IsFlow facts (push_step steps id (fact_of facts id) ds)
unfolding push_step
push_step-IsFlow facts steps id ds flow =
    let s = step_of steps id (fact_of facts id) (blockers steps ds) in
    All-append (IsExplained facts (steps ++ s ∷ [])) steps (s ∷ [])
      (all-IsExplained-append facts steps (s ∷ []) steps flow)
      (
        IsExplained-append facts steps (s ∷ []) s (
            step_of-IsExplained facts steps id (fact_of facts id) (blockers steps ds) refl
              (blockers-AreBlockers steps ds) flow),
        tt,
      )

-- In the flow that any facts give, a step that is ready has nothing to show; a step that only its
-- own fact blocks shows that fact's remediation; and a step that others block is skipped and shows
-- the remediation of the first of them, which is a step of the flow that is not ready.
pub evaluate_steps-IsExplained :
    (facts : SetupFacts) → All (IsExplained facts (evaluate_steps facts)) (evaluate_steps facts)
unfolding evaluate_steps
evaluate_steps-IsExplained facts =
    let s1 = push_step [] storage facts.storage [] in
    let s2 = push_step s1 gsi_config facts.gsi_config (storage ∷ []) in
    let s3 = push_step s2 local_steam_identity facts.local_steam_identity (storage ∷ []) in
    let s4 = push_step s3 capture_recorder facts.capture_recorder (storage ∷ []) in
    let s5 = push_step s4 ffprobe facts.ffprobe [] in
    let for_capture = storage ∷ capture_recorder ∷ ffprobe ∷ [] in
    let s6 = push_step s5 test_capture facts.test_capture for_capture in
    let s7 = push_step s6 local_demo_validation facts.local_demo_validation (storage ∷ []) in
    let h1 = push_step-IsFlow facts [] storage [] tt in
    let h2 = push_step-IsFlow facts s1 gsi_config (storage ∷ []) h1 in
    let h3 = push_step-IsFlow facts s2 local_steam_identity (storage ∷ []) h2 in
    let h4 = push_step-IsFlow facts s3 capture_recorder (storage ∷ []) h3 in
    let h5 = push_step-IsFlow facts s4 ffprobe [] h4 in
    let h6 = push_step-IsFlow facts s5 test_capture for_capture h5 in
    let h7 = push_step-IsFlow facts s6 local_demo_validation (storage ∷ []) h6 in
    push_step-IsFlow facts s7 manual_flag (test_capture ∷ []) h7
