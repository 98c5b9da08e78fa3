-- ===== src/Reconcile/Tests.antt =====
-- The reconciliation of crates/openfrag-pipeline/src/reconcile.rs on a small demo.
use openfrag.Common.{
  ℕ, ◌≡◌, refl, true, false, Option, none, some, List, [], ◌∷◌, map, Result, ok, err,
}
use openfrag.Common.Int.{ℤ, pos}
use openfrag.Common.Text.{Text, ascii, text_eq}
use openfrag.Common.Sets.{set_union, set_insert}
use openfrag.Highlight.Capture.{final_labels, knife}
use openfrag.Reconcile.Demo.{
  Participant, PlayerSnapshot, requested_tick, ParsedEvent, player_death, ParsedOutput,
}
use openfrag.Reconcile.Evidence.{
  snapshot_at, team_at, is_knife, count_others, clutch_at, clutch_loop, clutch_opponents,
  kill_weapon,
}
use openfrag.Reconcile.Decision.{
  ReconciliationCandidate, ReconciliationDecision, CandidateOrigin, provisional_auto_round,
  manual_flag, confirm, complete, reject_ordinary, evidence_unavailable, previous_end, tally_events,
  evaluate_round, evaluate, decide,
}
use mathlib.Core.List.{IsChain}
use openfrag.Highlight.Retention.Eviction.{Rearranges}
use openfrag.Reconcile.Persistence.{
  IsBefore, reconcile_demo_candidates, IsPersisted, reconcile_demo_candidates-IsPersisted,
}
use openfrag.Reconcile.Rejection.{IsOrdinary, evaluate-IsOrdinary}

abbrev player : ℕ → ℤ → Participant
player id team = record { steam_id = id; name = none; team = some team }

abbrev seen : ℕ → ℤ → PlayerSnapshot
seen id team = record {
  tick = pos 50;
  ingestion_ordinal = 0;
  phase = requested_tick;
  steam_id = id;
  entity_id = none;
  team = some team;
  health = some (pos 100);
  alive = some true;
  life_state = none;
  round_counter = none;
}

abbrev kill_with : Option Text → ParsedEvent
kill_with weapon = record {
  tick = pos 60;
  ingestion_ordinal = 1;
  event = player_death (record {
    attacker = some 10;
    victim = some 20;
    assister = none;
    assisted_flash = false;
    weapon = weapon;
  });
}

abbrev demo : Option Text → ParsedOutput
demo weapon = record {
  participants = player 10 (pos 2) ∷ player 20 (pos 3) ∷ [];
  rounds = record { number = 3; end_tick = pos 100; winner = some (pos 2) } ∷ [];
  events = kill_with weapon ∷ [];
  player_snapshots = seen 10 (pos 2) ∷ seen 20 (pos 3) ∷ [];
  suspicious_empty = false;
}

abbrev candidate : Text → CandidateOrigin → ReconciliationCandidate
candidate id origin = record {
  candidate_id = id;
  clip_id = ascii "clip";
  demo_round_number = some 3;
  origin = origin;
}

one_kill :
    evaluate (demo (some (ascii "ak47"))) 10 (candidate (ascii "a") provisional_auto_round)
    ≡ reject_ordinary
unfolding evaluate evaluate_round previous_end tally_events team_at snapshot_at is_knife
    clutch_opponents clutch_loop clutch_at count_others set_union set_insert final_labels text_eq
one_kill = refl

no_weapon :
    evaluate (demo none) 10 (candidate (ascii "a") provisional_auto_round)
    ≡ evidence_unavailable kill_weapon
unfolding evaluate evaluate_round previous_end tally_events team_at snapshot_at is_knife
    clutch_opponents clutch_loop clutch_at count_others set_union set_insert final_labels text_eq
no_weapon = refl

knife_kill :
    evaluate
      (demo (some (ascii "Knife_Karambit")))
      10
      (candidate (ascii "a") provisional_auto_round)
    ≡ confirm
        (knife ∷ [])
        (record {
          enemy_kills = 1;
          clutch_opponents_at_start = none;
          team_won_round = false;
          enemy_knife_kill = true;
        })
        complete
unfolding evaluate evaluate_round previous_end tally_events team_at snapshot_at is_knife
    clutch_opponents clutch_loop clutch_at count_others set_union set_insert final_labels text_eq
knife_kill = refl

evaluate-IsOrdinary_example :
    IsOrdinary (demo (some (ascii "ak47"))) 10 (candidate (ascii "a") provisional_auto_round)
evaluate-IsOrdinary_example =
    evaluate-IsOrdinary (demo (some (ascii "ak47"))) 10
      (candidate (ascii "a") provisional_auto_round) one_kill

-- A store that takes the first decision and refuses the second.
abbrev one_place :
    ReconciliationDecision
    → List ReconciliationDecision
    → List ReconciliationDecision × Result Text (Unit {0})
one_place decision [] = (decision ∷ [], ok tt)
one_place decision (d ∷ ds) = (d ∷ ds, err (ascii "full"))

abbrev both : List ReconciliationCandidate
both = candidate (ascii "b") provisional_auto_round ∷ candidate (ascii "a") manual_flag ∷ []

reconcile_demo_candidates-IsPersisted_example :
    (ordered : List ReconciliationCandidate) × Rearranges ordered both
    × IsChain IsBefore ordered
    × IsPersisted one_place
        (map (decide (demo none) 10) ordered)
        []
        (reconcile_demo_candidates one_place (demo none) 10 both [])
reconcile_demo_candidates-IsPersisted_example =
    reconcile_demo_candidates-IsPersisted one_place (demo none) 10 both []
