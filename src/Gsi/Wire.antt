-- ===== src/Gsi/Wire.antt =====
-- The data of crates/openfrag-gsi/src/lib.rs: what a payload holds, what is kept of it, and the
-- evidence that is emitted. A payload is given as `serde_json` returns it; SHA-256 is the parameter
-- `sha256`. A `Duration` is its number of nanoseconds.
use openfrag.Common.{
  ℕ, ◌+◌, ◌/◌, ◌%◌, ◌-◌, Bool, ◌||◌, Option, none, some, List, [], ◌∷◌, ◌++◌, ltb, if◌then◌else◌,
  is_some, is_some_and, and_then, map_option,
}
use openfrag.Common.Text.{Text}
use openfrag.Common.Int.{ℤ}

pub record Provider : Type 0 where
  pub appid : Option ℕ
  pub timestamp : Option ℤ

pub record MapState : Type 0 where
  pub name : Option Text
  pub mode : Option Text
  pub round : Option ℕ

pub record Auth : Type 0 where
  pub token : Option Text

pub record PlayerVitals : Type 0 where
  pub health : Option ℤ
  pub round_kills : Option ℤ

pub record MatchStats : Type 0 where
  pub kills : Option ℤ
  pub deaths : Option ℤ

-- `weapons` is a `serde_json::Value` of which the code reads only that it is there: its text.
pub record PlayerState : Type 0 where
  pub steamid : Option Text
  pub state : Option PlayerVitals
  pub weapons : Option Text
  pub match_stats : Option MatchStats

pub record Payload : Type 0 where
  pub provider : Option Provider
  pub map : Option MapState
  pub auth : Option Auth
  pub player : Option PlayerState

pub record PresenceBits : Type 0 where
  pub provider : Bool
  pub provider_timestamp : Bool
  pub map : Bool
  pub map_round : Bool
  pub player : Bool
  pub player_state : Bool
  pub player_health : Bool
  pub player_round_kills : Bool
  pub player_weapons : Bool
  pub match_stats : Bool
  pub auth : Bool
  pub auth_token : Bool
  pub player_steamid : Bool

pub data StateOutput : Type 0 where
  seeded healthy stale recovered session_reset : StateOutput

-- `previous`, `current` and `delta`, or `completed` and `next`, in the source's order.
pub data TransitionFact : Type 0 where
  cumulative_kill_delta : ℤ → ℤ → ℤ → TransitionFact
  cumulative_death_delta : ℤ → ℤ → ℤ → TransitionFact
  round_kill_delta : ℤ → ℤ → ℤ → TransitionFact
  health_depleted : ℤ → ℤ → TransitionFact
  round_end : ℕ → ℕ → TransitionFact

pub record EvidenceContext : Type 0 where
  pub map_hash : Option Text
  pub observed_round : Option ℕ
  pub provider_timestamp : Option ℤ
  pub round_kills : Option ℤ
  pub health : Option ℤ

pub record EvidenceReceipt : Type 0 where
  pub sequence : ℕ
  pub received_at : ℕ
  pub payload_hash : Text
  pub presence : PresenceBits
  pub context : EvidenceContext
  pub output : StateOutput
  pub facts : List TransitionFact

pub record TrustedSnapshot : Type 0 where
  pub session_hash : Option Text
  pub map_hash : Option Text
  pub round : Option ℕ
  pub provider_timestamp : Option ℤ
  pub kills : Option ℤ
  pub deaths : Option ℤ
  pub round_kills : Option ℤ
  pub health : Option ℤ

unfoldable pub presence_bits : Payload → PresenceBits
presence_bits payload = record {
  provider = is_some payload.provider;
  provider_timestamp = is_some_and payload.provider (λ p. is_some p.timestamp);
  map = is_some payload.map;
  map_round = is_some_and payload.map (λ m. is_some m.round);
  player = is_some payload.player;
  player_state = is_some_and payload.player (λ p. is_some p.state);
  player_health = is_some_and (and_then payload.player (λ p. p.state)) (λ s. is_some s.health);
  player_round_kills =
      is_some_and (and_then payload.player (λ p. p.state)) (λ s. is_some s.round_kills);
  player_weapons = is_some_and payload.player (λ p. is_some p.weapons);
  match_stats = is_some_and payload.player (λ p. is_some p.match_stats);
  auth = is_some payload.auth;
  auth_token = is_some_and payload.auth (λ a. is_some a.token);
  player_steamid = is_some_and payload.player (λ p. is_some p.steamid);
}

-- Two lower-case hexadecimal digits a byte.
hex_digit : ℕ → ℕ
hex_digit n = if ltb n 10 then b'0' + n else b'a' + (n - 10)

unfoldable pub hex_array : Text → Text
unfolding hex_digit
hex_array [] = []
hex_array (byte ∷ bytes) = hex_digit (byte / 16) ∷ hex_digit (byte % 16) ∷ hex_array bytes

abbrev or_no_bytes : Option Text → Text
or_no_bytes none = []
or_no_bytes (some bytes) = bytes

module _ (sha256 : Text → Text) where
  -- The digest of the name, a zero byte and the mode; none where neither is there.
  unfoldable pub session_hash_of : MapState → Option Text
  session_hash_of m =
      if is_some m.name || is_some m.mode
      then some (sha256 (or_no_bytes m.name ++ 0 ∷ or_no_bytes m.mode))
      else none

  unfoldable pub trusted_snapshot : Payload → TrustedSnapshot
  unfolding session_hash_of
  trusted_snapshot payload =
      let stats = and_then payload.player (λ p. p.match_stats) in
      let vitals = and_then payload.player (λ p. p.state) in
      record {
        session_hash = and_then payload.map session_hash_of;
        map_hash = map_option sha256 (and_then payload.map (λ m. m.name));
        round = and_then payload.map (λ m. m.round);
        provider_timestamp = and_then payload.provider (λ p. p.timestamp);
        kills = and_then stats (λ s. s.kills);
        deaths = and_then stats (λ s. s.deaths);
        round_kills = and_then vitals (λ s. s.round_kills);
        health = and_then vitals (λ s. s.health);
      }

unfoldable pub evidence_context : TrustedSnapshot → EvidenceContext
unfolding hex_array
evidence_context s = record {
  map_hash = map_option hex_array s.map_hash;
  observed_round = s.round;
  provider_timestamp = s.provider_timestamp;
  round_kills = s.round_kills;
  health = s.health;
}
