-- ===== src/Highlight/Retention/Tests.antt =====
-- The retention test of crates/openfrag-domain/src/highlight.rs.
use openfrag.Common.{ℕ, ◌≤◌, ◌≡◌, refl, arith, Bool, true, false, List, [], ◌∷◌}
use openfrag.Common.Text.{Text, ascii}
use openfrag.Common.Sets.{sort_by, sort_insert}
use openfrag.Highlight.Retention.{
  ProvisionalMedia, retain, expired_after_thirty_days, evicted_by_session_budget, candidates_from,
  add_bytes, evict_at, evict, retention_decisions,
}
use openfrag.Highlight.Retention.Budget.{kept_bytes, retention_decisions-budget}
use openfrag.Highlight.Retention.Reasons.{AreJustified, retention_decisions-AreJustified}

abbrev media_of : Text → ℕ → ℕ → Bool → ProvisionalMedia
media_of id at size confirmed = record {
  media_id = id;
  created_at_ms = at;
  bytes = size;
  confirmed = confirmed;
}

abbrev media : List ProvisionalMedia
media =
    media_of (ascii "old") 0 1 false
    ∷ media_of (ascii "a") 2_592_000_000 2_147_483_648 false
    ∷ media_of (ascii "b") 2_592_000_001 1 false
    ∷ media_of (ascii "c") 0 7 true
    ∷ []

decided :
    retention_decisions media 2_592_000_001
    ≡ (ascii "old", expired_after_thirty_days)
      ∷ (ascii "a", evicted_by_session_budget)
      ∷ (ascii "b", retain)
      ∷ (ascii "c", retain)
      ∷ []
unfolding retention_decisions evict evict_at add_bytes candidates_from sort_by sort_insert
decided = refl

retention_decisions-budget_example :
    kept_bytes media (retention_decisions media 2_592_000_001) ≤ 2_147_483_648
retention_decisions-budget_example = retention_decisions-budget media 2_592_000_001 (omega arith)

retention_decisions-AreJustified_example :
    AreJustified 2_592_000_001 media (retention_decisions media 2_592_000_001)
retention_decisions-AreJustified_example = retention_decisions-AreJustified media 2_592_000_001
