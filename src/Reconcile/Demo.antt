-- ===== src/Reconcile/Demo.antt =====
-- What the reconciliation reads of a parsed demo, crates/openfrag-import/src/lib.rs. Ticks and teams
-- are `i32` values and identifiers `u64` values. The metadata, the receipts and the identity of a
-- parsed demo are left out, since the reconciliation does not read them.
use openfrag.Common.{ℕ, Bool, Option, List}
use openfrag.Common.Int.{ℤ}
use openfrag.Common.Text.{Text}

pub data SnapshotPhase : Type 0 where
  requested_tick after_event_packet : SnapshotPhase

pub record Participant : Type 0 where
  pub steam_id : ℕ
  pub name : Option Text
  pub team : Option ℤ

pub record RoundFreezeEndEvent : Type 0 where
  pub warmup : Bool

pub record RoundEndEvent : Type 0 where
  pub winner : Option ℤ

pub record PlayerHurtEvent : Type 0 where
  pub attacker : Option ℕ
  pub victim : Option ℕ
  pub damage_health : Option ℤ
  pub weapon : Option Text

pub record PlayerDeathEvent : Type 0 where
  pub attacker : Option ℕ
  pub victim : Option ℕ
  pub assister : Option ℕ
  pub assisted_flash : Bool
  pub weapon : Option Text

pub record PlayerDisconnectEvent : Type 0 where
  pub player : Option ℕ

pub data NormalizedEvent : Type 0 where
  freeze_end : RoundFreezeEndEvent → NormalizedEvent
  end_of_round : RoundEndEvent → NormalizedEvent
  player_hurt : PlayerHurtEvent → NormalizedEvent
  player_death : PlayerDeathEvent → NormalizedEvent
  player_disconnect : PlayerDisconnectEvent → NormalizedEvent

pub record ParsedEvent : Type 0 where
  pub tick : ℤ
  pub ingestion_ordinal : ℕ
  pub event : NormalizedEvent

pub record ParsedRound : Type 0 where
  pub number : ℕ
  pub end_tick : ℤ
  pub winner : Option ℤ

pub record PlayerSnapshot : Type 0 where
  pub tick : ℤ
  pub ingestion_ordinal : ℕ
  pub phase : SnapshotPhase
  pub steam_id : ℕ
  pub entity_id : Option ℤ
  pub team : Option ℤ
  pub health : Option ℤ
  pub alive : Option Bool
  pub life_state : Option ℤ
  pub round_counter : Option ℤ

pub record ParsedOutput : Type 0 where
  pub participants : List Participant
  pub rounds : List ParsedRound
  pub events : List ParsedEvent
  pub player_snapshots : List PlayerSnapshot
  pub suspicious_empty : Bool
