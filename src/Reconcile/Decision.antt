-- ===== src/Reconcile/Decision.antt =====
-- `evaluate` and `reconcile_demo_candidates` of crates/openfrag-pipeline/src/reconcile.rs.
use Prim.Native.Nat.{Ordering}
use openfrag.Common.{
  ℕ, Bool, false, ◌&&◌, ◌||◌, not, ◌==◌, ltb, if◌then◌else◌, Option, none, some, List, [], ◌∷◌, map,
  filter, is_empty, Result, ok, err,
}
use openfrag.Common.Int.{ℤ, negsuc, ltb_ℤ, leb_ℤ, eqb_ℤ}
use openfrag.Common.Sets.{then_cmp}
use openfrag.Common.Text.{Text, text_cmp}
use openfrag.Highlight.Capture.{DemoHighlightEvidence, FinalHighlightLabel, final_labels}
use openfrag.Reconcile.Demo.{
  ParsedOutput, ParsedRound, ParsedEvent, PlayerDeathEvent, NormalizedEvent, player_death,
}
use openfrag.Reconcile.Evidence.{
  UnavailableEvidence, round_link_missing, round_missing_or_ambiguous, local_team,
  victim_identity_or_team, kill_weapon, round_winner, u8_suc, team_at, is_knife, clutch_opponents,
}

pub data CandidateOrigin : Type 0 where
  provisional_auto_round manual_flag : CandidateOrigin

pub record ReconciliationCandidate : Type 0 where
  pub candidate_id : Text
  pub clip_id : Text
  pub demo_round_number : Option ℕ
  pub origin : CandidateOrigin

pub data EvidenceCompleteness : Type 0 where
  complete : EvidenceCompleteness
  partly : UnavailableEvidence → EvidenceCompleteness

pub data ReconciliationDisposition : Type 0 where
  confirm :
      List FinalHighlightLabel
      → DemoHighlightEvidence
      → EvidenceCompleteness
      → ReconciliationDisposition
  reject_ordinary manual_independent : ReconciliationDisposition
  evidence_unavailable : UnavailableEvidence → ReconciliationDisposition

pub record ReconciliationDecision : Type 0 where
  pub candidate_id : Text
  pub clip_id : Text
  pub disposition : ReconciliationDisposition

-- A slice of one item.
abbrev pub single : {A : Type 0} → List A → Option A
single (a ∷ []) = some a
single _ = none

-- The latest end of the rounds before, or the least `i32`.
abbrev max_ℤ : ℤ → ℤ → ℤ
max_ℤ a b = if ltb_ℤ b a then a else b

abbrev max_from : ℤ → List ℤ → ℤ
max_from a [] = a
max_from a (b ∷ rest) = max_from (max_ℤ a b) rest

abbrev max_or : ℤ → List ℤ → ℤ
max_or default [] = default
max_or default (a ∷ rest) = max_from a rest

unfoldable pub previous_end : ParsedOutput → ℕ → ℤ
previous_end parsed round_number =
    max_or (negsuc 2_147_483_647)
      (map (λ r. r.end_tick) (filter (λ r. ltb r.number round_number) parsed.rounds))

-- The locals of the loop over the deaths.
pub record Tally : Type 0 where
  pub enemy_kills : ℕ
  pub enemy_knife_kill : Bool
  pub partial : Option UnavailableEvidence

-- `get_or_insert`.
abbrev pub get_or_insert :
    UnavailableEvidence → Option UnavailableEvidence → Option UnavailableEvidence
get_or_insert reason none = some reason
get_or_insert reason (some first) = some first

abbrev pub miss : UnavailableEvidence → Tally → Tally
miss reason t = record t { partial = get_or_insert reason t.partial }

abbrev pub with_weapon : Option Text → Tally → Tally
with_weapon none t = miss kill_weapon t
with_weapon (some weapon) t = record t { enemy_knife_kill = t.enemy_knife_kill || is_knife weapon }

abbrev pub with_teams : Option ℤ → Option ℤ → Option Text → Tally → Tally
with_teams (some own_team) (some victim_team) weapon t =
    if eqb_ℤ own_team victim_team
    then t
    else with_weapon weapon (record t { enemy_kills = u8_suc t.enemy_kills })
with_teams _ _ weapon t = miss victim_identity_or_team t

abbrev pub with_victim : ParsedOutput → ℕ → ℤ → Option ℕ → Option Text → Tally → Tally
with_victim parsed own_id tick none weapon t = miss victim_identity_or_team t
with_victim parsed own_id tick (some victim) weapon t =
    with_teams (team_at parsed own_id tick) (team_at parsed victim tick) weapon t

abbrev pub is_attacker : ℕ → Option ℕ → Bool
is_attacker own_id none = false
is_attacker own_id (some attacker) = attacker == own_id

-- The filter of the loop.
abbrev pub is_own_kill : ℕ → ℤ → ℤ → ParsedEvent → PlayerDeathEvent → Bool
is_own_kill own_id start end e death =
    is_attacker own_id death.attacker && (ltb_ℤ start e.tick && leb_ℤ e.tick end)

abbrev pub tally_event : ParsedOutput → ℕ → ℤ → ℤ → ParsedEvent → NormalizedEvent → Tally → Tally
tally_event parsed own_id start end e (player_death death) t =
    if is_own_kill own_id start end e death
    then with_victim parsed own_id e.tick death.victim death.weapon t
    else t
tally_event parsed own_id start end e _ t = t

unfoldable pub tally_events : ParsedOutput → ℕ → ℤ → ℤ → List ParsedEvent → Tally → Tally
tally_events parsed own_id start end [] t = t
tally_events parsed own_id start end (e ∷ es) t =
    tally_events parsed own_id start end es (tally_event parsed own_id start end e e.event t)

-- What is known of the clutch, with the reason why not.
abbrev pub clutch_or_miss :
    Result UnavailableEvidence (Option ℕ)
    → Option UnavailableEvidence
    → Option ℕ × Option UnavailableEvidence
clutch_or_miss (ok clutch) missing = (clutch, missing)
clutch_or_miss (err reason) missing = (none, get_or_insert reason missing)

abbrev pub won_or_miss :
    Option ℤ → Option ℤ → Option UnavailableEvidence → Bool × Option UnavailableEvidence
won_or_miss (some own_team) (some winner) missing = (eqb_ℤ own_team winner, missing)
won_or_miss none _ missing = (false, get_or_insert local_team missing)
won_or_miss (some own_team) none missing = (false, get_or_insert round_winner missing)

abbrev pub won_if_clutch :
    Option ℕ → Option ℤ → Option ℤ → Option UnavailableEvidence → Bool × Option UnavailableEvidence
won_if_clutch none own_team winner missing = (false, missing)
won_if_clutch (some opponents) own_team winner missing = won_or_miss own_team winner missing

abbrev pub completeness_of : Option UnavailableEvidence → EvidenceCompleteness
completeness_of none = complete
completeness_of (some reason) = partly reason

abbrev pub without_label : Option UnavailableEvidence → ReconciliationDisposition
without_label none = reject_ordinary
without_label (some reason) = evidence_unavailable reason

abbrev pub conclude : DemoHighlightEvidence → Option UnavailableEvidence → ReconciliationDisposition
conclude evidence missing =
    let labels = final_labels evidence in
    if not (is_empty labels)
    then confirm labels evidence (completeness_of missing)
    else without_label missing

unfoldable pub evaluate_round : ParsedOutput → ℕ → ℤ → ParsedRound → ReconciliationDisposition
evaluate_round parsed own_id start round =
    let tally =
      tally_events parsed own_id start round.end_tick parsed.events
        (record { enemy_kills = 0; enemy_knife_kill = false; partial = none }) in
    let clutch =
      clutch_or_miss (clutch_opponents parsed own_id start round.end_tick) tally.partial in
    let won = won_if_clutch clutch.0 (team_at parsed own_id round.end_tick) round.winner clutch.1 in
    conclude
      (record {
        enemy_kills = tally.enemy_kills;
        clutch_opponents_at_start = clutch.0;
        team_won_round = won.0;
        enemy_knife_kill = tally.enemy_knife_kill;
      })
      won.1

abbrev pub evaluate_matching : ParsedOutput → ℕ → ℕ → Option ParsedRound → ReconciliationDisposition
evaluate_matching parsed own_id round_number none = evidence_unavailable round_missing_or_ambiguous
evaluate_matching parsed own_id round_number (some round) =
    evaluate_round parsed own_id (previous_end parsed round_number) round

abbrev pub evaluate_link : ParsedOutput → ℕ → Option ℕ → ReconciliationDisposition
evaluate_link parsed own_id none = evidence_unavailable round_link_missing
evaluate_link parsed own_id (some round_number) =
    evaluate_matching parsed own_id round_number
      (single (filter (λ r. r.number == round_number) parsed.rounds))

abbrev pub evaluate_origin :
    ParsedOutput → ℕ → Option ℕ → CandidateOrigin → ReconciliationDisposition
evaluate_origin parsed own_id link manual_flag = manual_independent
evaluate_origin parsed own_id link provisional_auto_round = evaluate_link parsed own_id link

unfoldable pub evaluate : ParsedOutput → ℕ → ReconciliationCandidate → ReconciliationDisposition
evaluate parsed own_id candidate =
    evaluate_origin parsed own_id candidate.demo_round_number candidate.origin

abbrev pub decide : ParsedOutput → ℕ → ReconciliationCandidate → ReconciliationDecision
decide parsed own_id candidate = record {
  candidate_id = candidate.candidate_id;
  clip_id = candidate.clip_id;
  disposition = evaluate parsed own_id candidate;
}

abbrev pub candidate_cmp : ReconciliationCandidate → ReconciliationCandidate → Ordering
candidate_cmp a b = then_cmp (text_cmp a.candidate_id b.candidate_id) (text_cmp a.clip_id b.clip_id)
