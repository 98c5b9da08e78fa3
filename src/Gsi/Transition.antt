-- ===== src/Gsi/Transition.antt =====
-- `derive_transition`, `session_reset` and `decreased` of crates/openfrag-gsi/src/lib.rs.
pub mod Facts
use openfrag.Common.{
  ℕ, zero, suc, ◌+◌, ◌-◌, Bool, true, false, ◌&&◌, ◌||◌, not, Option, none, some, List, [], ◌∷◌,
  ◌++◌, ltb, ◌==◌, if◌then◌else◌, u64,
}
use openfrag.Common.Text.{Text, text_eq}
use openfrag.Common.Int.{ℤ, pos, ◌-ℤ◌, ltb_ℤ, leb_ℤ, i64}
use openfrag.Gsi.Wire.{
  TrustedSnapshot, TransitionFact, cumulative_kill_delta, cumulative_death_delta, round_kill_delta,
  health_depleted, round_end, StateOutput, healthy, session_reset as reset_output,
}

-- `decreased`, at the two types at which it is used.
abbrev pub decreased : Option ℕ → Option ℕ → Bool
decreased (some previous) (some current) = ltb current previous
decreased _ _ = false

abbrev pub decreased_ℤ : Option ℤ → Option ℤ → Bool
decreased_ℤ (some previous) (some current) = ltb_ℤ current previous
decreased_ℤ _ _ = false

abbrev pub session_changed : Option Text → Option Text → Bool
session_changed (some previous) (some current) = not (text_eq previous current)
session_changed _ _ = false

unfoldable pub session_reset : TrustedSnapshot → TrustedSnapshot → Bool
session_reset previous current =
    session_changed previous.session_hash current.session_hash
    || decreased previous.round current.round
    || decreased_ℤ previous.kills current.kills
    || decreased_ℤ previous.deaths current.deaths
    || decreased_ℤ previous.provider_timestamp current.provider_timestamp

-- The guard shared by the counters: there before and now, not negative, and greater.
abbrev pub growth : (ℤ → ℤ → ℤ → TransitionFact) → Option ℤ → Option ℤ → List TransitionFact
growth fact (some previous) (some current) =
    if leb_ℤ (pos 0) previous && ltb_ℤ previous current
    then fact previous current (i64 (current -ℤ previous)) ∷ []
    else []
growth fact _ _ = []

abbrev pub same_round : Option ℕ → Option ℕ → Bool
same_round (some previous) (some current) = previous == current
same_round _ _ = false

abbrev pub depletion : Option ℤ → Option ℤ → List TransitionFact
depletion (some previous) (some current) =
    if ltb_ℤ (pos 0) previous && leb_ℤ current (pos 0)
    then health_depleted previous current ∷ []
    else []
depletion _ _ = []

-- `for completed in previous..current`, with the number of rounds left.
unfoldable pub round_ends : ℕ → ℕ → List TransitionFact
round_ends zero completed = []
round_ends (suc left) completed =
    round_end completed (u64 (completed + 1)) ∷ round_ends left (completed + 1)

abbrev pub completed_rounds : Option ℕ → Option ℕ → List TransitionFact
completed_rounds (some previous) (some current) = round_ends (current - previous) previous
completed_rounds _ _ = []

unfoldable pub transition_facts : TrustedSnapshot → TrustedSnapshot → List TransitionFact
transition_facts previous current =
    let same = same_round previous.round current.round in
    growth cumulative_kill_delta previous.kills current.kills
    ++ (growth cumulative_death_delta previous.deaths current.deaths
        ++ ((if same then growth round_kill_delta previous.round_kills current.round_kills else [])
            ++ ((if same then depletion previous.health current.health else [])
                ++ completed_rounds previous.round current.round)))

unfoldable pub derive_transition :
    TrustedSnapshot → TrustedSnapshot → StateOutput × List TransitionFact
unfolding session_reset transition_facts
derive_transition previous current =
    if session_reset previous current
    then (reset_output, [])
    else (healthy, transition_facts previous current)
