-- ===== src/Highlight/Retention.antt =====
-- `retention_decisions` of crates/openfrag-domain/src/highlight.rs: which provisional media a
-- session keeps.
pub mod Eviction
pub mod Budget
pub mod Reasons
mod Tests
use Prim.Native.Nat.{Ordering, compare}
use openfrag.Common.{
  ℕ, zero, suc, ◌+◌, ◌-◌, Bool, true, false, ◌&&◌, not, ◌==◌, ltb, leb, if◌then◌else◌, List, [],
  ◌∷◌, map, saturating_add, saturating_sub,
}
use openfrag.Common.Text.{Text, text_cmp}
use openfrag.Common.Sets.{sort_by}

pub record ProvisionalMedia : Type 0 where
  pub media_id : Text
  pub created_at_ms : ℕ
  pub bytes : ℕ
  pub confirmed : Bool

pub data RetentionReason : Type 0 where
  retain expired_after_thirty_days evicted_by_session_budget : RetentionReason

-- 30 days, and 2 GiB.
abbrev pub provisional_retention_ms : ℕ
provisional_retention_ms = 2_592_000_000

abbrev pub capture_session_budget_bytes : ℕ
capture_session_budget_bytes = 2_147_483_648

abbrev pub is_retain : RetentionReason → Bool
is_retain retain = true
is_retain _ = false

abbrev pub Decision : Type 0
Decision = Text × RetentionReason

abbrev pub expires : ℕ → ProvisionalMedia → Bool
expires now item =
    not item.confirmed && leb provisional_retention_ms (saturating_sub now item.created_at_ms)

abbrev pub first_decision : ℕ → ProvisionalMedia → Decision
first_decision now item =
    (item.media_id, if expires now item then expired_after_thirty_days else retain)

-- Unconfirmed and not yet given up.
abbrev pub is_candidate : ProvisionalMedia → RetentionReason → Bool
is_candidate item reason = not item.confirmed && is_retain reason

-- `items.iter().enumerate()` beside the decisions, filtered; the index starts at `k`.
unfoldable pub candidates_from :
    ℕ → List ProvisionalMedia → List Decision → List (ℕ × ProvisionalMedia)
candidates_from k [] decisions = []
candidates_from k (item ∷ items) [] = []
candidates_from k (item ∷ items) ((id, reason) ∷ decisions) =
    let rest = candidates_from (suc k) items decisions in
    if is_candidate item reason then (k, item) ∷ rest else rest

-- The fold that `retained_bytes` starts with, over the same items.
unfoldable pub add_bytes : ℕ → List (ℕ × ProvisionalMedia) → ℕ
add_bytes total [] = total
add_bytes total ((i, item) ∷ rest) = add_bytes (saturating_add total item.bytes) rest

abbrev pub eviction_cmp : ℕ × ProvisionalMedia → ℕ × ProvisionalMedia → Ordering
eviction_cmp (i, a) (j, b) = elim (compare a.created_at_ms b.created_at_ms) [
  | Ordering.eq ↦ text_cmp a.media_id b.media_id
  | o ↦ o
]

-- `decisions[index].1 = EvictedBySessionBudget`, counted from `k`.
unfoldable pub evict_at : ℕ → ℕ → List Decision → List Decision
evict_at k index [] = []
evict_at k index ((id, reason) ∷ decisions) =
    let rest = evict_at (suc k) index decisions in
    if k == index then (id, evicted_by_session_budget) ∷ decisions else (id, reason) ∷ rest

-- The loop that evicts until the budget is kept.
unfoldable pub evict : List (ℕ × ProvisionalMedia) → ℕ → List Decision → List Decision
evict [] retained_bytes decisions = decisions
evict ((index, item) ∷ rest) retained_bytes decisions =
    let others =
      evict rest (saturating_sub retained_bytes item.bytes) (evict_at 0 index decisions) in
    if leb retained_bytes capture_session_budget_bytes then decisions else others

unfoldable pub retention_decisions : List ProvisionalMedia → ℕ → List Decision
retention_decisions items now =
    let decisions = map (first_decision now) items in
    let candidates = candidates_from 0 items decisions in
    evict (sort_by eviction_cmp candidates) (add_bytes 0 candidates) decisions
