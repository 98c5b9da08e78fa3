-- ===== src/Gsi/Engine/State.antt =====
-- `EngineState` of crates/openfrag-gsi/src/lib.rs, its recent hashes, and the answers of the service.
use openfrag.Common.{
  ℕ, ◌*◌, min, Bool, false, Option, none, some, List, [], ◌∷◌, leb, if◌then◌else◌, saturating_sub,
}
use openfrag.Common.Text.{Text, text_eq}
use openfrag.Gsi.Wire.{PresenceBits, EvidenceContext, EvidenceReceipt, TrustedSnapshot}

abbrev pub second : ℕ
second = 1_000_000_000

abbrev pub duplicate_window : ℕ
duplicate_window = 2_000_000_000

-- The largest `Duration`: 2^64 seconds less a nanosecond.
abbrev pub duration_max : ℕ
duration_max = 18_446_744_073_709_551_615_999_999_999

pub record GsiConfig : Type 0 where
  pub auth_token_hash : Text
  pub local_steamid_hash : Text
  pub heartbeat : ℕ

pub record EngineState : Type 0 where
  pub sequence : ℕ
  pub snapshot : Option TrustedSnapshot
  pub recent_hashes : List (Text × ℕ)
  pub last_hash : Option Text
  pub last_presence : Option PresenceBits
  pub last_context : Option EvidenceContext
  pub last_received_at : Option ℕ
  pub stale : Bool

-- `EngineState::default()`, with which `GsiService::new` begins.
abbrev pub initial : EngineState
initial = record {
  sequence = 0;
  snapshot = none;
  recent_hashes = [];
  last_hash = none;
  last_presence = none;
  last_context = none;
  last_received_at = none;
  stale = false;
}

abbrev pub clear_transition_baselines : EngineState → EngineState
clear_transition_baselines e = record e {
  snapshot = none;
  recent_hashes = [];
  last_hash = none;
  last_presence = none;
  last_context = none;
  last_received_at = none;
  stale = false;
}

-- `recent_hashes.retain`, `get` and `insert`.
unfoldable pub retain_recent : ℕ → List (Text × ℕ) → List (Text × ℕ)
retain_recent now [] = []
retain_recent now ((hash, seen_at) ∷ rest) =
    let kept = retain_recent now rest in
    if leb (saturating_sub now seen_at) duplicate_window then (hash, seen_at) ∷ kept else kept

unfoldable pub get_hash : Text → List (Text × ℕ) → Option ℕ
get_hash hash [] = none
get_hash hash ((other, seen_at) ∷ rest) =
    if text_eq other hash then some seen_at else get_hash hash rest

unfoldable pub insert_hash : Text → ℕ → List (Text × ℕ) → List (Text × ℕ)
insert_hash hash at [] = (hash, at) ∷ []
insert_hash hash at ((other, seen_at) ∷ rest) =
    if text_eq other hash then (hash, at) ∷ rest else (other, seen_at) ∷ insert_hash hash at rest

-- The status code and the reason of an answer.
pub data Reply : Type 0 where
  wrong_content_type invalid_json unauthorized state_unavailable wrong_app : Reply
  duplicate sink_failure accepted : Reply

unfoldable pub status : Reply → ℕ
status wrong_content_type = 415
status invalid_json = 400
status unauthorized = 401
status state_unavailable = 500
status wrong_app = 400
status duplicate = 200
status sink_failure = 500
status accepted = 200

pub data PollOutcome : Type 0 where
  no_change turned_stale poll_state_unavailable poll_sink_failure : PollOutcome

-- The state after a call, its answer, and the receipts that the sink took.
pub record Answer (R : Type 0) : Type 0 where
  pub engine : EngineState
  pub reply : R
  pub emitted : List EvidenceReceipt

abbrev pub answer : {R : Type 0} → EngineState → R → Answer R
answer e r = record { engine = e; reply = r; emitted = [] }

unfoldable pub stale_after : ℕ → ℕ
stale_after heartbeat = min (min (heartbeat * 3) duration_max) (90 * second)
