-- ===== src/Gsi/Engine/Duplicates.antt =====
-- Deliveries of one body in quick succession.
use openfrag.Common.{ℕ, ◌+◌, ◌≤◌, ◌≡◌, some, List, [], ◌∷◌, arith}
use openfrag.Common.Text.{Text, text_eq_refl}
use openfrag.Gsi.Wire.{Payload}
use openfrag.Gsi.Engine.{
  EngineState, Post, observe, accepted, duplicate, duplicate_window, retain_recent, get_hash,
  insert_hash, body_hash,
}

get_hash-retain-insert :
    (hash : Text) (at now : ℕ) (l : List (Text × ℕ))
    → now ≤ at + duplicate_window
    → get_hash hash (retain_recent now (insert_hash hash at l)) ≡ some at
unfolding get_hash retain_recent insert_hash
get_hash-retain-insert hash at now [] h = ground (arith, text_eq_refl hash)
get_hash-retain-insert hash at now ((other, seen) ∷ rest) h =
    ground (arith, text_eq_refl hash, get_hash-retain-insert hash at now rest h)

module _ (sha256 : Text → Text) where
  observe-remembers :
      (c : Post) (payload : Payload) (e : EngineState) (now : ℕ)
      → (observe sha256 c payload e).reply ≡ accepted
      → now ≤ c.now + duplicate_window
      → get_hash
          (body_hash sha256 c)
          (retain_recent now (observe sha256 c payload e).engine.recent_hashes)
        ≡ some c.now
  unfolding observe
  observe-remembers c payload e now h soon = ground (
    arith,
    get_hash-retain-insert (body_hash sha256 c) c.now now [] soon,
    get_hash-retain-insert (body_hash sha256 c) c.now now (retain_recent c.now e.recent_hashes)
        soon,
  )

  duplicate-observe :
      (c : Post) (payload : Payload) (e : EngineState) (seen : ℕ)
      → get_hash (body_hash sha256 c) (retain_recent c.now e.recent_hashes) ≡ some seen
      → c.now ≤ seen + duplicate_window
      → observe sha256 c payload e ≡ record {
        engine = record e { recent_hashes = retain_recent c.now e.recent_hashes };
        reply = duplicate;
        emitted = [];
      }
  unfolding observe
  duplicate-observe c payload e seen h soon = rw h (ground arith)

  -- A body that comes again in the next call and at most two seconds after it was accepted is
  -- answered as a duplicate: no receipt is emitted, and all but the list of recent hashes is as it
  -- was, the sequence number and the baseline included.
  pub observe-duplicate :
      (first again : Post) (payload payload' : Payload) (e : EngineState)
      → (observe sha256 first payload e).reply ≡ accepted
      → again.body ≡ first.body
      → again.now ≤ first.now + duplicate_window
      → let after = (observe sha256 first payload e).engine in
        observe sha256 again payload' after ≡ record {
          engine = record after { recent_hashes = retain_recent again.now after.recent_hashes };
          reply = duplicate;
          emitted = [];
        }
  observe-duplicate first again payload payload' e h same soon =
      duplicate-observe again payload' (observe sha256 first payload e).engine first.now
        (rw same (observe-remembers first payload e again.now h soon)) soon
