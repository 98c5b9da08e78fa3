-- ===== src/Gsi/Engine/Invariant.antt =====
-- What holds of the engine between two calls, whatever the calls.
use openfrag.Common.{ℕ, ◌≡◌, true, none, List, [], arith, is_some, inl, inr, Option-cases}
use openfrag.Common.Text.{Text}
use openfrag.Gsi.Wire.{Payload}
use openfrag.Gsi.Engine.{
  GsiConfig, EngineState, initial, retain_recent, Poll, poll_stale, Post, observe, route_post,
}

-- The fields about the last receipt are there together; before the first one nothing is
-- remembered; and an engine that has gone stale has no snapshot and no recent hash.
pub record IsCoherent (e : EngineState) : Type 0 where
  pub hash_there : is_some e.last_hash ≡ is_some e.last_received_at
  pub presence_there : is_some e.last_presence ≡ is_some e.last_received_at
  pub context_there : is_some e.last_context ≡ is_some e.last_received_at
  pub snapshot_there : is_some e.snapshot ≡ true → is_some e.last_received_at ≡ true
  pub stale_there : e.stale ≡ true → is_some e.last_received_at ≡ true
  pub stale_blank : e.stale ≡ true → e.snapshot ≡ none
  pub stale_forgets : e.stale ≡ true → e.recent_hashes ≡ []
  pub blank_forgets : e.last_received_at ≡ none → e.recent_hashes ≡ []

pub initial-IsCoherent : IsCoherent initial
initial-IsCoherent = ground arith

retain-nil : (now : ℕ) (l : List (Text × ℕ)) → l ≡ [] → retain_recent now l ≡ []
unfolding retain_recent
retain-nil now l h = rw h

pub poll_stale-IsCoherent :
    (cfg : GsiConfig) (p : Poll) (e : EngineState)
    → IsCoherent e
    → IsCoherent (poll_stale cfg p e).engine
unfolding poll_stale
poll_stale-IsCoherent cfg p e h = ground arith

module _ (sha256 : Text → Text) where
  observe-IsCoherent :
      (c : Post) (payload : Payload) (e : EngineState)
      → IsCoherent e
      → IsCoherent (observe sha256 c payload e).engine
  unfolding observe
  observe-IsCoherent c payload e h = ground (arith, retain-nil c.now e.recent_hashes)

  -- Every POST, whatever its answer, leaves a coherent engine coherent.
  pub route_post-IsCoherent :
      (cfg : GsiConfig) (c : Post) (e : EngineState)
      → IsCoherent e
      → IsCoherent (route_post sha256 cfg c e).engine
  unfolding route_post
  route_post-IsCoherent cfg c e h = elim (Option-cases c.payload) [
    | inl missing ↦ rw missing (ground arith)
    | inr (payload, found) ↦ rw found (ground (arith, observe-IsCoherent c payload e h))
  ]
