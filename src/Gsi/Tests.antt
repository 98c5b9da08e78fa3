-- ===== src/Gsi/Tests.antt =====
-- The theorems on crates/openfrag-gsi/src/lib.rs at concrete payloads, with texts in place of their
-- digests.
use openfrag.Common.{
  ℕ, ◌≤◌, ◌≡◌, ◌⊎◌, refl, true, none, some, List, [], ◌∷◌, arith, All, is_some_and, length, map,
}
use openfrag.Common.Text.{Text, ascii}
use openfrag.Common.Int.{pos}
use openfrag.Gsi.Wire.{Payload, TrustedSnapshot, stale as stale_output}
use openfrag.Gsi.Transition.{transition_facts}
use openfrag.Gsi.Transition.Facts.{IsExactFact, InRange, transition_facts-exact}
use openfrag.Gsi.Engine.{
  GsiConfig, EngineState, initial, Poll, poll_stale, Post, observe, route_post, accepted, duplicate,
  turned_stale, stale_after, get_hash, retain_recent, token_matches, player_matches, right_app,
}
use openfrag.Gsi.Engine.MediaType.{is_json}
use openfrag.Gsi.Engine.Invariant.{IsCoherent, initial-IsCoherent, route_post-IsCoherent}
use openfrag.Gsi.Engine.Sequence.{
  Call, post, poll, run, IsNumbered, last_number, run-IsNumbered, poll_stale-turns,
}
use openfrag.Gsi.Engine.Duplicates.{observe-duplicate}
use openfrag.Gsi.Engine.Replies.{route_post-accepts}

abbrev same : Text → Text
same text = text

abbrev config : GsiConfig
config = record {
  auth_token_hash = ascii "token";
  local_steamid_hash = ascii "player";
  heartbeat = 10_000_000_000;
}

abbrev payload_at : ℕ → ℕ → Payload
payload_at round kills = record {
  provider = some (record { appid = some 730; timestamp = some (pos 1) });
  map = some (record {
    name = some (ascii "de_dust2");
    mode = some (ascii "competitive");
    round = some round;
  });
  auth = some (record { token = some (ascii "token") });
  player = some (record {
    steamid = some (ascii "player");
    state = some (record { health = some (pos 100); round_kills = some (pos kills) });
    weapons = none;
    match_stats = some (record { kills = some (pos kills); deaths = some (pos 0) });
  });
}

abbrev post_at : ℕ → Text → Payload → Post
post_at now body payload = record {
  now = now;
  lock_ok = true;
  sink = λ receipt. true;
  content_type = some (ascii "application/json");
  body = body;
  payload = some payload;
}

abbrev poll_at : ℕ → Poll
poll_at now = record { now = now; lock_ok = true; sink = λ receipt. true }

abbrev first_post : Post
first_post = post_at 1_000_000_000 (ascii "a") (payload_at 3 2)

abbrev calls : List Call
calls =
    post first_post
    ∷ post (post_at 3_000_000_000 (ascii "b") (payload_at 4 5))
    ∷ poll (poll_at 60_000_000_000)
    ∷ []

run-IsNumbered_example :
    IsNumbered 0 (run same config initial calls).1
    × ((run same config initial calls).0.sequence ≡ last_number 0 (run same config initial calls).1)
run-IsNumbered_example = run-IsNumbered same config initial calls

abbrev seeded_engine : EngineState
seeded_engine = (observe same first_post (payload_at 3 2) initial).engine

seeded_engine-IsCoherent : IsCoherent seeded_engine
unfolding observe get_hash retain_recent
seeded_engine-IsCoherent = ground arith

poll_stale-turns_example :
    let a = poll_stale config (poll_at 60_000_000_000) seeded_engine in
    (a.reply ≡ turned_stale)
    × (length a.emitted ≡ 1)
    × (map (λ r. r.output) a.emitted ≡ stale_output ∷ [])
    × (map (λ r. some r.payload_hash) a.emitted ≡ seeded_engine.last_hash ∷ [])
    × (map (λ r. r.facts) a.emitted ≡ [] ∷ [])
    × (a.engine.stale ≡ true)
    × (a.engine.snapshot ≡ none)
unfolding observe stale_after get_hash retain_recent
poll_stale-turns_example =
    poll_stale-turns config (poll_at 60_000_000_000) seeded_engine 1_000_000_000
      seeded_engine-IsCoherent refl refl (omega arith) refl (λ r. refl)

abbrev stale_engine : EngineState
stale_engine = (poll_stale config (poll_at 60_000_000_000) seeded_engine).engine

route_post-IsCoherent_example : IsCoherent (route_post same config first_post initial).engine
route_post-IsCoherent_example =
    route_post-IsCoherent same config first_post initial initial-IsCoherent

abbrev again : Post
again = post_at 2_500_000_000 (ascii "a") (payload_at 3 2)

observe-duplicate_example : observe same again (payload_at 3 2) seeded_engine ≡ record {
  engine = record seeded_engine {
    recent_hashes = retain_recent again.now seeded_engine.recent_hashes;
  };
  reply = duplicate;
  emitted = [];
}
unfolding observe get_hash retain_recent
observe-duplicate_example =
    observe-duplicate same first_post again (payload_at 3 2) (payload_at 3 2) initial refl refl
      (omega arith)

route_post-accepts_example :
    (((route_post same config first_post initial).emitted ≡ [])
      × ((route_post same config first_post initial).engine.sequence ≡ 0))
    ⊎ (((route_post same config first_post initial).reply ≡ accepted)
        × (is_json first_post.content_type ≡ true)
        × (is_some_and first_post.payload (token_matches same config) ≡ true)
        × (is_some_and first_post.payload (player_matches same config) ≡ true)
        × (is_some_and first_post.payload right_app ≡ true)
        × (first_post.lock_ok ≡ true))
route_post-accepts_example = route_post-accepts same config first_post initial

abbrev gone_stale : EngineState
gone_stale = record initial { stale = true; last_received_at = some 0 }

abbrev snapshot_at : ℕ → ℕ → TrustedSnapshot
snapshot_at round kills = record {
  session_hash = none;
  map_hash = none;
  round = some round;
  provider_timestamp = none;
  kills = some (pos kills);
  deaths = none;
  round_kills = some (pos kills);
  health = some (pos 100);
}

snapshot_at-InRange :
    (round kills : ℕ) → round ≤ 100 → kills ≤ 100 → InRange (snapshot_at round kills)
snapshot_at-InRange round kills h k = ground arith

transition_facts-exact_example :
    All IsExactFact (transition_facts (snapshot_at 3 2) (snapshot_at 5 4))
transition_facts-exact_example =
    transition_facts-exact (snapshot_at 3 2) (snapshot_at 5 4)
      (snapshot_at-InRange 3 2 (omega arith) (omega arith))
      (snapshot_at-InRange 5 4 (omega arith) (omega arith))
