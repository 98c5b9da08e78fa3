-- ===== src/Gsi/Engine/Replies.antt =====
-- What the answers of `route_post` say of the engine and of the receipts.
use openfrag.Common.{
  ◌≡◌, ◌≢◌, true, false, some, [], ◌∷◌, arith, ◌⊎◌, inl, inr, Option-cases, is_some_and, All, map,
}
use openfrag.Common.Text.{Text}
use openfrag.Gsi.Wire.{EvidenceReceipt, Payload, healthy, recovered, trusted_snapshot}
use openfrag.Gsi.Transition.{derive_transition}
use openfrag.Gsi.Engine.{
  GsiConfig, EngineState, Post, observe, route_post, accepted, token_matches, player_matches,
  right_app,
}
use openfrag.Gsi.Engine.MediaType.{is_json}

-- A receipt with facts reports a healthy transition.
abbrev pub HasFactsOnlyHealthy : EvidenceReceipt → Type 0
HasFactsOnlyHealthy r = (r.output ≡ healthy) ⊎ (r.facts ≡ [])

module _ (sha256 : Text → Text) where
  observe-facts :
      (c : Post) (payload : Payload) (e : EngineState)
      → All HasFactsOnlyHealthy (observe sha256 c payload e).emitted
  unfolding observe derive_transition
  observe-facts c payload e = ground arith

  observe-rejects :
      (c : Post) (payload : Payload) (e : EngineState)
      → (observe sha256 c payload e).reply ≢ accepted
      → ((observe sha256 c payload e).emitted ≡ [])
        × ((observe sha256 c payload e).engine.sequence ≡ e.sequence)
        × ((observe sha256 c payload e).engine.snapshot ≡ e.snapshot)
        × ((observe sha256 c payload e).engine.stale ≡ e.stale)
  unfolding observe
  observe-rejects c payload e h = ground arith

  -- A receipt that a POST emits carries facts only if it reports a healthy transition: the first
  -- observation, the one after an outage and the one that resets the session carry none.
  pub route_post-facts :
      (cfg : GsiConfig) (c : Post) (e : EngineState)
      → All HasFactsOnlyHealthy (route_post sha256 cfg c e).emitted
  unfolding route_post
  route_post-facts cfg c e = elim (Option-cases c.payload) [
    | inl missing ↦ rw missing (ground arith)
    | inr (payload, found) ↦ rw found (ground (arith, observe-facts c payload e))
  ]

  -- A POST has one of two ends: no receipt goes out and the sequence number stays, or it is
  -- accepted, with a JSON media type, a payload that parses, the configured token, the local
  -- player and the game's application number, and a mutex that can be locked.
  pub route_post-accepts :
      (cfg : GsiConfig) (c : Post) (e : EngineState)
      → (((route_post sha256 cfg c e).emitted ≡ [])
          × ((route_post sha256 cfg c e).engine.sequence ≡ e.sequence))
        ⊎ (((route_post sha256 cfg c e).reply ≡ accepted)
            × (is_json c.content_type ≡ true)
            × (is_some_and c.payload (token_matches sha256 cfg) ≡ true)
            × (is_some_and c.payload (player_matches sha256 cfg) ≡ true)
            × (is_some_and c.payload right_app ≡ true)
            × (c.lock_ok ≡ true))
  unfolding route_post
  route_post-accepts cfg c e = elim (Option-cases c.payload) [
    | inl missing ↦ rw missing (inl (ground arith))
    | inr (payload, found) ↦ rw found (ground (arith, observe-rejects c payload e))
  ]

  -- If a stale engine accepts a payload, one receipt goes out, which reports the recovery and has
  -- no facts; the payload's snapshot is the new baseline, and the engine is not stale any more.
  pub observe-recovers :
      (c : Post) (payload : Payload) (e : EngineState)
      → e.stale ≡ true
      → (observe sha256 c payload e).reply ≡ accepted
      → ((observe sha256 c payload e).engine.stale ≡ false)
        × ((observe sha256 c payload e).engine.snapshot ≡ some (trusted_snapshot sha256 payload))
        × (map (λ r. r.output) (observe sha256 c payload e).emitted ≡ recovered ∷ [])
        × (map (λ r. r.facts) (observe sha256 c payload e).emitted ≡ [] ∷ [])
  unfolding observe
  observe-recovers c payload e h a = ground arith
