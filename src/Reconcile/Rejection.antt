-- ===== src/Reconcile/Rejection.antt =====
-- When `evaluate` of crates/openfrag-pipeline/src/reconcile.rs rejects a candidate as ordinary.
use mathlib.Core.Path.{subst}
use openfrag.Common.{
  ℕ, ◌+◌, ◌<◌, ◌≡◌, ◌⊎◌, refl, arith, ◌&&◌, leb, is_some_and, true, false, ◌==◌, Option, none, some,
  List, [], ◌∷◌, filter, all, any, length, Result, ok, err,
}
use openfrag.Common.Int.{ℤ, eqb_ℤ}
use openfrag.Common.Sets.{set_insert}
use openfrag.Highlight.Capture.{DemoHighlightEvidence, final_labels}
use openfrag.Reconcile.Demo.{ParsedOutput, ParsedRound}
use openfrag.Reconcile.Evidence.{UnavailableEvidence, team_at, clutch_opponents}
use openfrag.Reconcile.Decision.{
  ReconciliationCandidate, CandidateOrigin, provisional_auto_round, manual_flag, reject_ordinary,
  clutch_or_miss, won_if_clutch, conclude, evaluate_round, evaluate_matching, evaluate_origin,
  evaluate, previous_end, single,
}
use openfrag.Reconcile.Tally.{is_known, is_enemy_kill, is_knife_kill, events-Seen}

conclude-rejects :
    (evidence : DemoHighlightEvidence) (missing : Option UnavailableEvidence)
    → conclude evidence missing ≡ reject_ordinary
    → (missing ≡ none)
      × (evidence.enemy_kills < 3)
      × (evidence.enemy_knife_kill ≡ false)
      × ((evidence.team_won_round && is_some_and evidence.clutch_opponents_at_start (λ n. leb 2 n))
          ≡ false)
unfolding final_labels set_insert
conclude-rejects evidence none h = ground (arith, h)
conclude-rejects evidence (some reason) h = ground (arith, h)

-- Where the local player was left alone against opponents, the player's team and the winner of the
-- round are known, and it was against fewer than two or lost.
abbrev pub IsUnwonClutch : Option ℕ → Option ℤ → Option ℤ → Type 0
IsUnwonClutch none own_team winner = Unit
IsUnwonClutch (some opponents) own_team winner =
    (team : ℤ) × (won_by : ℤ) × (own_team ≡ some team)
    × (winner ≡ some won_by)
    × ((opponents < 2) ⊎ (eqb_ℤ team won_by ≡ false))

won-IsUnwonClutch :
    (clutch : Option ℕ) (own_team winner : Option ℤ) (missing : Option UnavailableEvidence)
    → (won_if_clutch clutch own_team winner missing).1 ≡ none
    → ((won_if_clutch clutch own_team winner missing).0 && is_some_and clutch (λ n. leb 2 n))
      ≡ false
    → IsUnwonClutch clutch own_team winner
won-IsUnwonClutch none own_team winner missing h w = tt
won-IsUnwonClutch (some n) none winner missing h w = absurd (ground (arith, h))
won-IsUnwonClutch (some n) (some t) none missing h w = absurd (ground (arith, h))
won-IsUnwonClutch (some n) (some t) (some u) missing h w = (t, u, refl, refl, ground (arith, w))

won-no_gap :
    (clutch : Option ℕ) (own_team winner : Option ℤ) (missing : Option UnavailableEvidence)
    → (won_if_clutch clutch own_team winner missing).1 ≡ none
    → missing ≡ none
won-no_gap none own_team winner missing h = h
won-no_gap (some n) none winner missing h = ground (arith, h)
won-no_gap (some n) (some t) none missing h = ground (arith, h)
won-no_gap (some n) (some t) (some w) missing h = h

clutch-no_gap :
    (clutch : Result UnavailableEvidence (Option ℕ)) (missing : Option UnavailableEvidence)
    → (clutch_or_miss clutch missing).1 ≡ none
    → (missing ≡ none)
      × (known : Option ℕ) × (clutch ≡ ok known)
      × ((clutch_or_miss clutch missing).0 ≡ known)
clutch-no_gap (ok known) missing h = (h, known, refl, refl)
clutch-no_gap (err reason) none h = absurd (ground (arith, h))
clutch-no_gap (err reason) (some first) h = absurd (ground (arith, h))

-- An ordinary round, of which nothing is unknown.
pub record IsOrdinary (parsed : ParsedOutput) (own_id : ℕ) (candidate : ReconciliationCandidate)
    : Type 0 where
  pub automatic : candidate.origin ≡ provisional_auto_round
  pub number : ℕ
  pub linked : candidate.demo_round_number ≡ some number
  pub round : ParsedRound
  pub alone : filter (λ r. r.number == number) parsed.rounds ≡ round ∷ []
  pub known :
      all (is_known parsed own_id (previous_end parsed number) round.end_tick) parsed.events ≡ true
  pub few :
      length (
        filter
          (is_enemy_kill parsed own_id (previous_end parsed number) round.end_tick)
          parsed.events)
      < 3
  pub no_knife :
      any (is_knife_kill parsed own_id (previous_end parsed number) round.end_tick) parsed.events
      ≡ false
  pub clutch : Option ℕ
  pub clutch_known :
      clutch_opponents parsed own_id (previous_end parsed number) round.end_tick ≡ ok clutch
  pub unwon : IsUnwonClutch clutch (team_at parsed own_id round.end_tick) round.winner

few_kills : (n : ℕ) → n + 0 < 3 → n < 3
few_kills n h = omega (arith, h)

round-IsOrdinary :
    (parsed : ParsedOutput) (own_id number : ℕ) (round : ParsedRound)
    (candidate : ReconciliationCandidate)
    → candidate.origin ≡ provisional_auto_round
    → candidate.demo_round_number ≡ some number
    → filter (λ r. r.number == number) parsed.rounds ≡ round ∷ []
    → evaluate_round parsed own_id (previous_end parsed number) round ≡ reject_ordinary
    → IsOrdinary parsed own_id candidate
unfolding evaluate_round
round-IsOrdinary parsed own_id number round candidate automatic linked alone h =
    let start = previous_end parsed number in
    let (no_gap, few, no_knife, unwon) = conclude-rejects _ _ h in
    let (no_gap_before, clutch, clutch_known, same) =
      clutch-no_gap (clutch_opponents parsed own_id start round.end_tick) _
        (won-no_gap _ _ _ _ no_gap) in
    let seen =
      events-Seen parsed own_id start round.end_tick parsed.events
        (record { enemy_kills = 0; enemy_knife_kill = false; partial = none }) no_gap_before few
        no_knife in
    record {
      automatic = automatic;
      number = number;
      linked = linked;
      round = round;
      alone = alone;
      known = seen.known;
      few = few_kills _ seen.few;
      no_knife = seen.no_knife;
      clutch = clutch;
      clutch_known = clutch_known;
      unwon =
          subst (λ c. IsUnwonClutch c (team_at parsed own_id round.end_tick) round.winner) same
            (won-IsUnwonClutch _ _ _ _ no_gap unwon);
    }

only_round :
    (rounds : List ParsedRound) (round : ParsedRound)
    → single rounds ≡ some round
    → rounds ≡ round ∷ []
only_round [] round h = absurd (ground (arith, h))
only_round (a ∷ []) round h = ground (arith, h)
only_round (a ∷ b ∷ rest) round h = absurd (ground (arith, h))

-- A candidate is rejected as ordinary only if it was made automatically, it is linked to a round
-- that is the only one with its number, and nothing of that round is unknown: of each kill by the
-- local player the victim and both teams are known, and the weapon if the victim was an enemy, as
-- is whether there was a clutch and, if so, the player's team and the winner of the round; and
-- the player killed fewer than three enemies, none of them with a knife, and won no clutch against
-- two opponents or more.
pub evaluate-IsOrdinary :
    (parsed : ParsedOutput) (own_id : ℕ) (candidate : ReconciliationCandidate)
    → evaluate parsed own_id candidate ≡ reject_ordinary
    → IsOrdinary parsed own_id candidate
unfolding evaluate
evaluate-IsOrdinary parsed own_id candidate h =
    by_origin candidate.origin candidate.demo_round_number refl refl h
  where
    by_matching :
        (number : ℕ) (matching : Option ParsedRound)
        → candidate.origin ≡ provisional_auto_round
        → candidate.demo_round_number ≡ some number
        → single (filter (λ r. r.number == number) parsed.rounds) ≡ matching
        → evaluate_matching parsed own_id number matching ≡ reject_ordinary
        → IsOrdinary parsed own_id candidate
    by_matching number none automatic linked found h = absurd (ground (arith, h))
    by_matching number (some round) automatic linked found h =
        round-IsOrdinary parsed own_id number round candidate automatic linked
          (only_round (filter (λ r. r.number == number) parsed.rounds) round found) h

    by_origin :
        (origin : CandidateOrigin) (link : Option ℕ)
        → candidate.origin ≡ origin
        → candidate.demo_round_number ≡ link
        → evaluate_origin parsed own_id link origin ≡ reject_ordinary
        → IsOrdinary parsed own_id candidate
    by_origin manual_flag link made linked h = absurd (ground (arith, h))
    by_origin provisional_auto_round none made linked h = absurd (ground (arith, h))
    by_origin provisional_auto_round (some number) made linked h =
        by_matching number (single (filter (λ r. r.number == number) parsed.rounds)) made linked
          refl h
