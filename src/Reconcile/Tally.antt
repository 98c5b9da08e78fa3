-- ===== src/Reconcile/Tally.antt =====
-- What the loop of `evaluate` over the deaths counts, crates/openfrag-pipeline/src/reconcile.rs.
use openfrag.Common.{
  ℕ, ◌+◌, min, ◌<◌, ◌≡◌, inl, inr, refl, sym, ◌∙◌, arith, Bool, true, false, ◌&&◌, ◌||◌, not,
  if◌then◌else◌, Option, none, some, is_some, List, [], ◌∷◌, filter, all, any, length, Bool-cases,
}
use openfrag.Common.Int.{ℤ, eqb_ℤ}
use openfrag.Common.Text.{Text}
use openfrag.Reconcile.Demo.{
  ParsedOutput, ParsedEvent, PlayerDeathEvent, NormalizedEvent, player_death, freeze_end,
  end_of_round, player_hurt, player_disconnect,
}
use openfrag.Reconcile.Evidence.{team_at, is_knife}
use openfrag.Reconcile.Decision.{
  Tally, is_own_kill, tally_event, tally_events, with_victim, with_teams,
}

-- What an event of the round says of the local player's kills: whether all that counts of it is
-- known, whether an enemy was killed, and whether with a knife.
abbrev teams_known : Option ℤ → Option ℤ → Option Text → Bool
teams_known (some own_team) (some victim_team) weapon = eqb_ℤ own_team victim_team || is_some weapon
teams_known _ _ weapon = false

abbrev teams_differ : Option ℤ → Option ℤ → Bool
teams_differ (some own_team) (some victim_team) = not (eqb_ℤ own_team victim_team)
teams_differ _ _ = false

abbrev has_knife : Option Text → Bool
has_knife none = false
has_knife (some weapon) = is_knife weapon

-- How one event changes the tally.
record Counts (t after : Tally) (known enemy knife : Bool) : Type 0 where
  partial : after.partial ≡ none → (known ≡ true) × (t.partial ≡ none)
  kills : after.enemy_kills ≡ (if enemy then min (t.enemy_kills + 1) 255 else t.enemy_kills)
  knife_kill : after.enemy_knife_kill ≡ (t.enemy_knife_kill || knife)

teams-Counts :
    (a b : Option ℤ) (weapon : Option Text) (t : Tally)
    → Counts t
        (with_teams a b weapon t)
        (teams_known a b weapon)
        (teams_differ a b)
        (teams_differ a b && has_knife weapon)
teams-Counts none none weapon t = record {
  partial = ground arith;
  kills = refl;
  knife_kill = ground arith;
}
teams-Counts none (some b) weapon t = record {
  partial = ground arith;
  kills = refl;
  knife_kill = ground arith;
}
teams-Counts (some a) none weapon t = record {
  partial = ground arith;
  kills = refl;
  knife_kill = ground arith;
}
teams-Counts (some a) (some b) none t = record {
  partial = ground arith;
  kills = ground arith;
  knife_kill = ground arith;
}
teams-Counts (some a) (some b) (some weapon) t = record {
  partial = ground arith;
  kills = ground arith;
  knife_kill = ground arith;
}

skipped-Counts : (t : Tally) → Counts t t true false false
skipped-Counts t = record { partial = λ h. (refl, h); kills = refl; knife_kill = ground arith }

module _ (parsed : ParsedOutput) (own_id : ℕ) where
  abbrev victim_known : ℤ → Option ℕ → Option Text → Bool
  victim_known tick none weapon = false
  victim_known tick (some victim) weapon =
      teams_known (team_at parsed own_id tick) (team_at parsed victim tick) weapon

  abbrev victim_is_enemy : ℤ → Option ℕ → Bool
  victim_is_enemy tick none = false
  victim_is_enemy tick (some victim) =
      teams_differ (team_at parsed own_id tick) (team_at parsed victim tick)

  module _ (start end : ℤ) where
    abbrev known_event : ParsedEvent → NormalizedEvent → Bool
    known_event e (player_death death) =
        not (is_own_kill own_id start end e death) || victim_known e.tick death.victim death.weapon
    known_event e _ = true

    abbrev enemy_event : ParsedEvent → NormalizedEvent → Bool
    enemy_event e (player_death death) =
        is_own_kill own_id start end e death && victim_is_enemy e.tick death.victim
    enemy_event e _ = false

    abbrev knife_event : ParsedEvent → NormalizedEvent → Bool
    knife_event e (player_death death) =
        is_own_kill own_id start end e death
        && (victim_is_enemy e.tick death.victim && has_knife death.weapon)
    knife_event e _ = false

    abbrev pub is_known : ParsedEvent → Bool
    is_known e = known_event e e.event

    abbrev pub is_enemy_kill : ParsedEvent → Bool
    is_enemy_kill e = enemy_event e e.event

    abbrev pub is_knife_kill : ParsedEvent → Bool
    is_knife_kill e = knife_event e e.event

    death-Counts :
        (e : ParsedEvent) (death : PlayerDeathEvent) (t : Tally) (victim : Option ℕ)
        → Counts t
            (with_victim parsed own_id e.tick victim death.weapon t)
            (victim_known e.tick victim death.weapon)
            (victim_is_enemy e.tick victim)
            (victim_is_enemy e.tick victim && has_knife death.weapon)
    death-Counts e death t none = record {
      partial = ground arith;
      kills = refl;
      knife_kill = ground arith;
    }
    death-Counts e death t (some victim) =
        teams-Counts (team_at parsed own_id e.tick) (team_at parsed victim e.tick) death.weapon t

    event-Counts :
        (e : ParsedEvent) (event : NormalizedEvent) (t : Tally)
        → Counts t
            (tally_event parsed own_id start end e event t)
            (known_event e event)
            (enemy_event e event)
            (knife_event e event)
    event-Counts e (player_death death) t =
        elim (Bool-cases (is_own_kill own_id start end e death)) [
          | inl own ↦ rw own (death-Counts e death t death.victim)
          | inr other ↦ rw other (skipped-Counts t)
        ]
    event-Counts e (freeze_end _) t = skipped-Counts t
    event-Counts e (end_of_round _) t = skipped-Counts t
    event-Counts e (player_hurt _) t = skipped-Counts t
    event-Counts e (player_disconnect _) t = skipped-Counts t

    -- What a tally without a gap, with few kills and no knife, says of all events.
    pub record Seen (t : Tally) (es : List ParsedEvent) : Type 0 where
      pub known : all is_known es ≡ true
      pub no_gap : t.partial ≡ none
      pub few : length (filter is_enemy_kill es) + t.enemy_kills < 3
      pub no_knife : any is_knife_kill es ≡ false
      pub none_before : t.enemy_knife_kill ≡ false

    pub events-Seen :
        (es : List ParsedEvent) (t : Tally)
        → (tally_events parsed own_id start end es t).partial ≡ none
        → (tally_events parsed own_id start end es t).enemy_kills < 3
        → (tally_events parsed own_id start end es t).enemy_knife_kill ≡ false
        → Seen t es
    unfolding tally_events
    events-Seen [] t h k n = record {
      known = refl;
      no_gap = h;
      few = omega (arith, k);
      no_knife = refl;
      none_before = n;
    }
    events-Seen (e ∷ es) t h k n =
        let after = tally_event parsed own_id start end e e.event t in
        let seen = events-Seen es after h k n in
        let counts = event-Counts e e.event t in
        let (known, gap) = counts.partial seen.no_gap in
        record {
          known = rw known seen.known;
          no_gap = gap;
          few =
              few_more (is_enemy_kill e) (filter is_enemy_kill es) after.enemy_kills t.enemy_kills
                counts.kills seen.few;
          no_knife =
              no_more (is_knife_kill e) (any is_knife_kill es) t.enemy_knife_kill
                (sym counts.knife_kill ∙ seen.none_before) seen.no_knife;
          none_before =
              not_before (is_knife_kill e) t.enemy_knife_kill
                (sym counts.knife_kill ∙ seen.none_before);
        }
      where
        few_more :
            (b : Bool) (rest : List ParsedEvent) (m n : ℕ)
            → m ≡ (if b then min (n + 1) 255 else n)
            → length rest + m < 3
            → length (if b then e ∷ rest else rest) + n < 3
        few_more true rest m n h k = omega (arith, h, k)
        few_more false rest m n h k = omega (arith, h, k)

        no_more : (b c d : Bool) → (d || b) ≡ false → c ≡ false → (b || c) ≡ false
        no_more b c d h k = ground (arith, h, k)

        not_before : (b d : Bool) → (d || b) ≡ false → d ≡ false
        not_before b d h = ground (arith, h)
