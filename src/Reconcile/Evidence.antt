-- ===== src/Reconcile/Evidence.antt =====
-- `clutch_opponents`, `snapshot_at`, `team_at` and `is_knife` of
-- crates/openfrag-pipeline/src/reconcile.rs.
use Prim.Native.Nat.{Ordering, compare}
use openfrag.Common.{
  ℕ, ◌+◌, min, Bool, true, false, ◌&&◌, ◌||◌, not, ◌==◌, leb, if◌then◌else◌, Option, none, some,
  and_then, List, [], ◌∷◌, map, filter, is_empty, any, Result, ok, err, ◌>>=◌,
}
use openfrag.Common.Int.{ℤ, pos, ltb_ℤ, leb_ℤ, eqb_ℤ, cmp_ℤ}
use openfrag.Common.Sets.{set_union, then_cmp}
use openfrag.Common.Text.{Text, ascii, text_eq}
use openfrag.Reconcile.Demo.{Participant, PlayerSnapshot, ParsedOutput}

pub data UnavailableEvidence : Type 0 where
  round_link_missing round_missing_or_ambiguous local_team : UnavailableEvidence
  victim_identity_or_team kill_weapon liveness round_winner : UnavailableEvidence

-- `ok_or`, and `saturating_add(1)` of a `u8`.
abbrev pub ok_or : {A : Type 0} → UnavailableEvidence → Option A → Result UnavailableEvidence A
ok_or reason none = err reason
ok_or reason (some a) = ok a

abbrev pub u8_suc : ℕ → ℕ
u8_suc n = min (n + 1) 255

-- `max_by_key` keeps the last of equal keys.
abbrev later : PlayerSnapshot → PlayerSnapshot → PlayerSnapshot
later a b =
    elim (then_cmp (cmp_ℤ a.tick b.tick) (compare a.ingestion_ordinal b.ingestion_ordinal)) [
      | Ordering.gt ↦ a
      | _ ↦ b
    ]

abbrev latest_from : PlayerSnapshot → List PlayerSnapshot → PlayerSnapshot
latest_from a [] = a
latest_from a (b ∷ rest) = latest_from (later a b) rest

abbrev latest : List PlayerSnapshot → Option PlayerSnapshot
latest [] = none
latest (a ∷ rest) = some (latest_from a rest)

unfoldable pub snapshot_at : ParsedOutput → ℕ → ℤ → Option PlayerSnapshot
snapshot_at parsed steam_id tick =
    latest (filter (λ s. s.steam_id == steam_id && leb_ℤ s.tick tick) parsed.player_snapshots)

abbrev find_participant : ℕ → List Participant → Option Participant
find_participant steam_id [] = none
find_participant steam_id (p ∷ rest) =
    if p.steam_id == steam_id then some p else find_participant steam_id rest

abbrev or_roster : Option ℤ → Option ℤ → Option ℤ
or_roster none team = team
or_roster (some t) team = some t

unfoldable pub team_at : ParsedOutput → ℕ → ℤ → Option ℤ
team_at parsed steam_id tick =
    or_roster (and_then (snapshot_at parsed steam_id tick) (λ s. s.team))
      (and_then (find_participant steam_id parsed.participants) (λ p. p.team))

abbrev lower_byte : ℕ → ℕ
lower_byte b = if leb 65 b && leb b 90 then b + 32 else b

abbrev is_prefix : Text → Text → Bool
is_prefix [] text = true
is_prefix (a ∷ as') [] = false
is_prefix (a ∷ as') (b ∷ bs) = (a == b) && is_prefix as' bs

abbrev contains_text : Text → Text → Bool
contains_text part [] = is_prefix part []
contains_text part (b ∷ bs) = is_prefix part (b ∷ bs) || contains_text part bs

unfoldable pub is_knife : Text → Bool
is_knife weapon =
    let normalized = map lower_byte weapon in
    contains_text (ascii "knife") normalized
    || any (text_eq normalized) (
        ascii "bayonet"
        ∷ ascii "karambit"
        ∷ ascii "daggers"
        ∷ ascii "butterfly"
        ∷ ascii "falchion"
        ∷ ascii "kukri"
        ∷ ascii "machete"
        ∷ [])

-- The players alive beside the local one.
pub record Alive : Type 0 where
  pub teammates_alive : ℕ
  pub enemies_alive : ℕ

abbrev count_alive : ℤ → ℤ → Bool → Alive → Alive
count_alive own_team team alive counts =
    if alive && eqb_ℤ team own_team
    then record counts { teammates_alive = u8_suc counts.teammates_alive }
    else if alive && (eqb_ℤ team (pos 2) || eqb_ℤ team (pos 3))
    then record counts { enemies_alive = u8_suc counts.enemies_alive }
    else counts

unfoldable pub count_others :
    ParsedOutput → ℤ → ℤ → List Participant → Alive → Result UnavailableEvidence Alive
count_others parsed tick own_team [] counts = ok counts
count_others parsed tick own_team (p ∷ rest) counts = do
  snapshot ← ok_or liveness (snapshot_at parsed p.steam_id tick)
  team ← ok_or local_team snapshot.team
  alive ← ok_or liveness snapshot.alive
  count_others parsed tick own_team rest (count_alive own_team team alive counts)

-- Nobody of the own team is left, and at least two enemies are.
abbrev pub opponents : Alive → Option ℕ
opponents counts =
    if (counts.teammates_alive == 0) && leb 2 counts.enemies_alive
    then some counts.enemies_alive
    else none

abbrev count_if_alive : ParsedOutput → ℕ → ℤ → ℤ → Bool → Result UnavailableEvidence (Option ℕ)
count_if_alive parsed own_id tick own_team own_alive =
    if not own_alive
    then ok none
    else (count_others parsed tick own_team
          (filter (λ p. not (p.steam_id == own_id)) parsed.participants)
          (record { teammates_alive = 0; enemies_alive = 0 })
        >>= λ counts. ok (opponents counts))

-- At one tick: how many enemies the local player stands against alone, if at least two.
unfoldable pub clutch_at : ParsedOutput → ℕ → ℤ → Result UnavailableEvidence (Option ℕ)
clutch_at parsed own_id tick = do
  own ← ok_or liveness (snapshot_at parsed own_id tick)
  own_team ← ok_or local_team own.team
  own_alive ← ok_or liveness own.alive
  count_if_alive parsed own_id tick own_team own_alive

unfoldable pub clutch_loop : ParsedOutput → ℕ → List ℤ → Result UnavailableEvidence (Option ℕ)
clutch_loop parsed own_id [] = ok none
clutch_loop parsed own_id (tick ∷ ticks) =
    let rest = clutch_loop parsed own_id ticks in
    clutch_at parsed own_id tick >>= λ found. elim found [ none ↦ rest | some n ↦ ok (some n) ]

unfoldable pub clutch_opponents : ParsedOutput → ℕ → ℤ → ℤ → Result UnavailableEvidence (Option ℕ)
clutch_opponents parsed own_id start_tick end_tick =
    let ticks = set_union cmp_ℤ [] (
      map (λ s. s.tick)
        (filter (λ s. ltb_ℤ start_tick s.tick && leb_ℤ s.tick end_tick) parsed.player_snapshots)) in
    if is_empty ticks then err liveness else clutch_loop parsed own_id ticks
