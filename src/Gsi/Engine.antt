-- ===== src/Gsi/Engine.antt =====
-- `EngineState`, `poll_stale` and `route_post` of crates/openfrag-gsi/src/lib.rs. The clock's value,
-- whether the mutex can be locked, the body, what `serde_json` makes of it and what the sink
-- answers come with each call, since a call asks for each of them once.
pub mod State
pub mod MediaType
pub mod Invariant
pub mod Sequence
pub mod Duplicates
pub mod Replies
use openfrag.Common.{
  ℕ, suc, ◌+◌, ◌-◌, ◌*◌, min, Bool, true, false, ◌||◌, not, Option, none, some, List, [], ◌∷◌, ltb,
  leb, ◌==◌, if◌then◌else◌, is_some_and, and_then, u64, saturating_sub,
}
use openfrag.Common.Text.{Text, text_eq}
use openfrag.Gsi.Wire.{
  Payload, PresenceBits, EvidenceContext, EvidenceReceipt, StateOutput, seeded,
  stale as stale_output, recovered, session_reset, TransitionFact, TrustedSnapshot, presence_bits,
  trusted_snapshot, evidence_context, hex_array,
}
use openfrag.Gsi.Transition.{derive_transition}
pub use State.{
  second, duplicate_window, duration_max, GsiConfig, EngineState, initial,
  clear_transition_baselines, Reply, wrong_content_type, invalid_json, unauthorized,
  state_unavailable, wrong_app, duplicate, sink_failure, accepted, PollOutcome, no_change,
  turned_stale, poll_state_unavailable, poll_sink_failure, Answer, answer,
}
unfoldable pub use State.{retain_recent, get_hash, insert_hash, status, stale_after}
use MediaType.{is_json}

pub record Poll : Type 0 where
  pub now : ℕ
  pub lock_ok : Bool
  pub sink : EvidenceReceipt → Bool

unfoldable pub stale_receipt :
    EngineState → ℕ → Text → PresenceBits → EvidenceContext → EvidenceReceipt
stale_receipt e now hash presence context = record {
  sequence = u64 (e.sequence + 1);
  received_at = now;
  payload_hash = hash;
  presence = presence;
  context = context;
  output = stale_output;
  facts = [];
}

emit_stale : Poll → EngineState → EvidenceReceipt → Answer PollOutcome
emit_stale p e receipt =
    if p.sink receipt
    then record {
      engine = record e {
        sequence = receipt.sequence;
        stale = true;
        snapshot = none;
        recent_hashes = [];
      };
      reply = turned_stale;
      emitted = receipt ∷ [];
    }
    else answer e poll_sink_failure

abbrev stale_parts :
    Poll
    → EngineState
    → Option Text
    → Option PresenceBits
    → Option EvidenceContext
    → Answer PollOutcome
stale_parts p e (some hash) (some presence) (some context) =
    emit_stale p e (stale_receipt e p.now hash presence context)
stale_parts p e _ _ _ = answer e no_change

abbrev poll_since : GsiConfig → Poll → EngineState → Option ℕ → Answer PollOutcome
poll_since cfg p e none = answer e no_change
poll_since cfg p e (some last_received_at) =
    if e.stale || ltb (saturating_sub p.now last_received_at) (stale_after cfg.heartbeat)
    then answer e no_change
    else stale_parts p e e.last_hash e.last_presence e.last_context

unfoldable pub poll_stale : GsiConfig → Poll → EngineState → Answer PollOutcome
unfolding emit_stale stale_receipt
poll_stale cfg p e =
    if p.lock_ok then poll_since cfg p e e.last_received_at else answer e poll_state_unavailable

pub record Post : Type 0 where
  pub now : ℕ
  pub lock_ok : Bool
  pub sink : EvidenceReceipt → Bool
  pub content_type : Option Text
  pub body : Text
  pub payload : Option Payload

abbrev pub right_app : Payload → Bool
right_app payload = is_some_and (and_then payload.provider (λ p. p.appid)) (λ a. a == 730)

module _ (sha256 : Text → Text) where
  abbrev pub token_matches : GsiConfig → Payload → Bool
  token_matches cfg payload =
      is_some_and (and_then payload.auth (λ a. a.token))
        (λ t. text_eq (sha256 t) cfg.auth_token_hash)

  abbrev pub player_matches : GsiConfig → Payload → Bool
  player_matches cfg payload =
      is_some_and (and_then payload.player (λ p. p.steamid))
        (λ s. text_eq (sha256 s) cfg.local_steamid_hash)

  abbrev pub body_hash : Post → Text
  body_hash c = hex_array (sha256 c.body)

  abbrev transition :
      EngineState → Option TrustedSnapshot → TrustedSnapshot → StateOutput × List TransitionFact
  transition e none current = (seeded, [])
  transition e (some previous) current = derive_transition previous current

  unfoldable pub receipt_of : Post → Payload → EngineState → EvidenceReceipt
  receipt_of c payload e =
      let current = trusted_snapshot sha256 payload in
      let (output, facts) = if e.stale then (recovered, []) else transition e e.snapshot current in
      record {
        sequence = u64 (e.sequence + 1);
        received_at = c.now;
        payload_hash = body_hash c;
        presence = presence_bits payload;
        context = evidence_context current;
        output = output;
        facts = facts;
      }

  abbrev is_reset : StateOutput → Bool
  is_reset session_reset = true
  is_reset _ = false

  -- The writes behind a taken receipt.
  unfoldable pub commit : Payload → EngineState → EvidenceReceipt → EngineState
  commit payload e receipt =
      let base = if is_reset receipt.output then clear_transition_baselines e else e in
      record base {
        sequence = receipt.sequence;
        recent_hashes = insert_hash receipt.payload_hash receipt.received_at base.recent_hashes;
        last_hash = some receipt.payload_hash;
        last_presence = some receipt.presence;
        last_context = some receipt.context;
        last_received_at = some receipt.received_at;
        snapshot = some (trusted_snapshot sha256 payload);
        stale = false;
      }

  abbrev pub is_duplicate : Post → EngineState → Bool
  is_duplicate c e =
      is_some_and (get_hash (body_hash c) e.recent_hashes)
        (λ seen_at. leb (saturating_sub c.now seen_at) duplicate_window)

  unfoldable pub observe : Post → Payload → EngineState → Answer Reply
  unfolding receipt_of commit
  observe c payload before =
      let e = record before { recent_hashes = retain_recent c.now before.recent_hashes } in
      let receipt = receipt_of c payload e in
      if is_duplicate c e
      then answer e duplicate
      else if c.sink receipt
      then record { engine = commit payload e receipt; reply = accepted; emitted = receipt ∷ [] }
      else answer e sink_failure

  abbrev pub route_payload : GsiConfig → Post → EngineState → Option Payload → Answer Reply
  route_payload cfg c e none = answer e invalid_json
  route_payload cfg c e (some payload) =
      if not (token_matches cfg payload)
      then answer e unauthorized
      else if not (player_matches cfg payload)
      then (if c.lock_ok
          then answer (clear_transition_baselines e) unauthorized
          else answer e state_unavailable)
      else if not (right_app payload)
      then answer e wrong_app
      else if c.lock_ok
      then observe c payload e
      else answer e state_unavailable

  unfoldable pub route_post : GsiConfig → Post → EngineState → Answer Reply
  unfolding observe is_json
  route_post cfg c e =
      if is_json c.content_type
      then route_payload cfg c e c.payload
      else answer e wrong_content_type
