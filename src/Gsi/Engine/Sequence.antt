-- ===== src/Gsi/Engine/Sequence.antt =====
-- The receipts that a series of calls emits, in order.
use openfrag.Common.{
  ℕ, ◌+◌, ◌≤◌, ◌≡◌, refl, true, false, Option, none, some, List, [], ◌∷◌, ◌++◌, map, arith, length,
  u64, is_some, inl, inr, Option-cases,
}
use openfrag.Common.Text.{Text}
use openfrag.Gsi.Wire.{EvidenceReceipt, Payload, stale as stale_output}
use openfrag.Gsi.Engine.{
  GsiConfig, EngineState, Poll, poll_stale, Post, observe, route_post, turned_stale, stale_after,
  stale_receipt,
}
use openfrag.Gsi.Engine.Invariant.{IsCoherent}

-- A call of the service: the mutex makes them a series.
pub data Call : Type 0 where
  post : Post → Call
  poll : Poll → Call

module _ (sha256 : Text → Text) (cfg : GsiConfig) where
  abbrev pub step : EngineState → Call → EngineState × List EvidenceReceipt
  step e (post c) = let a = route_post sha256 cfg c e in (a.engine, a.emitted)
  step e (poll p) = let a = poll_stale cfg p e in (a.engine, a.emitted)

  unfoldable pub run : EngineState → List Call → EngineState × List EvidenceReceipt
  run e [] = (e, [])
  run e (c ∷ cs) =
      let (e', first) = step e c in let (last, rest) = run e' cs in (last, first ++ rest)

-- Each number is the one before plus one, as a `u64`.
abbrev pub IsNumbered : ℕ → List EvidenceReceipt → Type 0
IsNumbered from [] = Unit
IsNumbered from (r ∷ rs) = (r.sequence ≡ u64 (from + 1)) × IsNumbered r.sequence rs

abbrev pub last_number : ℕ → List EvidenceReceipt → ℕ
last_number from [] = from
last_number from (r ∷ rs) = last_number r.sequence rs

-- What one call may do to the numbers: nothing, or one receipt with the next number.
abbrev IsNext : EngineState → EngineState → List EvidenceReceipt → Type 0
IsNext e e' rs = IsNumbered e.sequence rs × (e'.sequence ≡ last_number e.sequence rs)

poll_stale-IsNext :
    (cfg : GsiConfig) (p : Poll) (e : EngineState)
    → IsNext e (poll_stale cfg p e).engine (poll_stale cfg p e).emitted
unfolding poll_stale
poll_stale-IsNext cfg p e = ground arith

module _ (sha256 : Text → Text) where
  observe-IsNext :
      (c : Post) (payload : Payload) (e : EngineState)
      → IsNext e (observe sha256 c payload e).engine (observe sha256 c payload e).emitted
  unfolding observe
  observe-IsNext c payload e = ground arith

  route_post-IsNext :
      (cfg : GsiConfig) (c : Post) (e : EngineState)
      → IsNext e (route_post sha256 cfg c e).engine (route_post sha256 cfg c e).emitted
  unfolding route_post
  route_post-IsNext cfg c e = elim (Option-cases c.payload) [
    | inl missing ↦ rw missing (ground arith)
    | inr (payload, found) ↦ rw found (ground (arith, observe-IsNext c payload e))
  ]

poll_stale-quiet :
    (cfg : GsiConfig) (p : Poll) (e : EngineState)
    → e.stale ≡ true
    → ((poll_stale cfg p e).engine ≡ e) × ((poll_stale cfg p e).emitted ≡ [])
unfolding poll_stale
poll_stale-quiet cfg p e h = ground arith

there :
    {A B : Type 0} (o : Option A) (t : Option B) {b : B}
    → is_some o ≡ is_some t
    → t ≡ some b
    → (a : A) × (o ≡ some a)
there none t h e = ground arith
there (some a) t h e = (a, refl)

-- A coherent engine that has had a receipt and is not stale turns stale at a poll that comes
-- `stale_after` or more behind that receipt, if the mutex can be locked and the sink takes
-- receipts: one receipt goes out, which reports the outage, repeats the last hash and has no
-- facts, and the baseline is dropped.
pub poll_stale-turns :
    (cfg : GsiConfig) (p : Poll) (e : EngineState) (seen : ℕ)
    → IsCoherent e
    → e.last_received_at ≡ some seen
    → e.stale ≡ false
    → seen + stale_after cfg.heartbeat ≤ p.now
    → p.lock_ok ≡ true
    → ((r : EvidenceReceipt) → p.sink r ≡ true)
    → let a = poll_stale cfg p e in
      (a.reply ≡ turned_stale)
      × (length a.emitted ≡ 1)
      × (map (λ r. r.output) a.emitted ≡ stale_output ∷ [])
      × (map (λ r. some r.payload_hash) a.emitted ≡ e.last_hash ∷ [])
      × (map (λ r. r.facts) a.emitted ≡ [] ∷ [])
      × (a.engine.stale ≡ true)
      × (a.engine.snapshot ≡ none)
unfolding poll_stale
poll_stale-turns cfg p e seen coherent received fresh late lock takes =
    let (hash, has_hash) = there e.last_hash e.last_received_at coherent.hash_there received in
    let (presence, has_presence) =
      there e.last_presence e.last_received_at coherent.presence_there received in
    let (context, has_context) =
      there e.last_context e.last_received_at coherent.context_there received in
    ground (
      arith,
      has_hash,
      has_presence,
      has_context,
      takes (stale_receipt e p.now hash presence context),
    )

IsNumbered-append :
    (from : ℕ) (xs ys : List EvidenceReceipt)
    → IsNumbered from xs
    → IsNumbered (last_number from xs) ys
    → IsNumbered from (xs ++ ys)
IsNumbered-append from [] ys hx hy = hy
IsNumbered-append from (x ∷ xs) ys hx hy = (hx.0, IsNumbered-append x.sequence xs ys hx.1 hy)

last_number-append :
    (from : ℕ) (xs ys : List EvidenceReceipt)
    → last_number from (xs ++ ys) ≡ last_number (last_number from xs) ys
last_number-append from [] ys = refl
last_number-append from (x ∷ xs) ys = last_number-append x.sequence xs ys

module _ (sha256 : Text → Text) (cfg : GsiConfig) where
  step-IsNext :
      (e : EngineState) (c : Call) → IsNext e (step sha256 cfg e c).0 (step sha256 cfg e c).1
  step-IsNext e (post c) = route_post-IsNext sha256 cfg c e
  step-IsNext e (poll p) = poll_stale-IsNext cfg p e

  -- Whatever calls the service gets, in whatever order, each receipt that the sink takes is
  -- numbered one more, as a `u64`, than the one before it, the first one more than the engine's
  -- number at the start, and the engine ends with the number of the last.
  pub run-IsNumbered :
      (e : EngineState) (calls : List Call)
      → IsNumbered e.sequence (run sha256 cfg e calls).1
        × ((run sha256 cfg e calls).0.sequence ≡ last_number e.sequence (run sha256 cfg e calls).1)
  unfolding run
  run-IsNumbered e [] = (tt, refl)
  run-IsNumbered e (c ∷ cs) =
      let s = step sha256 cfg e c in
      let h = step-IsNext e c in
      let ih = run-IsNumbered s.0 cs in
      (
        IsNumbered-append e.sequence s.1 _ h.0 (rw (← h.1) ih.0),
        rw last_number-append (rw (← h.1) ih.1),
      )

  -- A stale engine stays silent: however often it is polled, and with no other call between,
  -- nothing is emitted and the engine stays as it was.
  pub run-stale_polls :
      (e : EngineState) (polls : List Poll)
      → e.stale ≡ true
      → run sha256 cfg e (map poll polls) ≡ (e, [])
  unfolding run
  run-stale_polls e [] h = refl
  run-stale_polls e (p ∷ ps) h =
      let (same, quiet) = poll_stale-quiet cfg p e h in rw (same, quiet, run-stale_polls e ps h)
