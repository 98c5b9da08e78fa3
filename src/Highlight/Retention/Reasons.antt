-- ===== src/Highlight/Retention/Reasons.antt =====
-- Why `retention_decisions` of crates/openfrag-domain/src/highlight.rs gives an item up.
use mathlib.Core.Path.{subst}
use openfrag.Common.{
  ℕ, suc, ◌+◌, ◌-◌, ◌≤◌, ◌≡◌, inl, inr, refl, sym, ap, arith, true, false, leb, Bool-cases, List,
  [], ◌∷◌, map,
}
use openfrag.Common.Sets.{sort_by}
use openfrag.Highlight.Retention.{
  ProvisionalMedia, RetentionReason, retain, expired_after_thirty_days, evicted_by_session_budget,
  Decision, is_candidate, candidates_from, evict_at, evict, capture_session_budget_bytes,
  eviction_cmp, first_decision, expires, retention_decisions,
}
use openfrag.Highlight.Retention.Eviction.{
  Picks, no-Picks, at_head, behind_candidate, behind_other, place, Rearranges, take,
  sort-Rearranges, candidates-evict_at, candidates-from_index, same_index, other_index,
}

-- Thirty days old and not confirmed.
pub record IsExpired (now_ms : ℕ) (item : ProvisionalMedia) : Type 0 where
  pub unconfirmed : item.confirmed ≡ false
  pub old : item.created_at_ms + 2_592_000_000 ≤ now_ms

-- The reason fits the item: nothing that is confirmed or younger expires, what is older does, and
-- only what is neither is evicted.
abbrev pub Justifies : ℕ → ProvisionalMedia → RetentionReason → Type 0
Justifies now_ms item retain = ¬ (IsExpired now_ms item)
Justifies now_ms item expired_after_thirty_days = IsExpired now_ms item
Justifies now_ms item evicted_by_session_budget =
    (item.confirmed ≡ false) × (¬ (IsExpired now_ms item))

-- There is one decision for each item, in their order.
abbrev pub AreJustified : ℕ → List ProvisionalMedia → List Decision → Type 0
AreJustified now_ms [] [] = Unit
AreJustified now_ms (item ∷ items) ((id, reason) ∷ ds) =
    (id ≡ item.media_id) × Justifies now_ms item reason × AreJustified now_ms items ds
AreJustified now_ms _ _ = ⊥

first_reason :
    (now_ms : ℕ) (item : ProvisionalMedia) → Justifies now_ms item (first_decision now_ms item).1
first_reason now_ms item = elim (Bool-cases (expires now_ms item)) [
  | inl old ↦ rw old (ground (arith, old))
  | inr young ↦ rw young (λ e. ground (arith, young, e.unconfirmed, e.old))
]

first-AreJustified :
    (now_ms : ℕ) (items : List ProvisionalMedia)
    → AreJustified now_ms items (map (first_decision now_ms) items)
first-AreJustified now_ms [] = tt
first-AreJustified now_ms (item ∷ items) =
    (refl, first_reason now_ms item, first-AreJustified now_ms items)

evicted-Justifies :
    (now_ms : ℕ) (item : ProvisionalMedia) (reason : RetentionReason)
    → is_candidate item reason ≡ true
    → Justifies now_ms item reason
    → Justifies now_ms item evicted_by_session_budget
evicted-Justifies now_ms item retain e h = (ground (arith, e), h)
evicted-Justifies now_ms item expired_after_thirty_days e h = absurd (ground (arith, e))
evicted-Justifies now_ms item evicted_by_session_budget e h = h

evict_at-AreJustified :
    (now_ms k : ℕ) (items : List ProvisionalMedia) (ds : List Decision) (i : ℕ)
    (item : ProvisionalMedia) (rest : List (ℕ × ProvisionalMedia))
    → Picks (i, item) (candidates_from k items ds) rest
    → AreJustified now_ms items ds
    → AreJustified now_ms items (evict_at k i ds)
unfolding candidates_from evict_at
evict_at-AreJustified now_ms k [] ds i item rest p h = absurd (no-Picks (i, item) rest p)
evict_at-AreJustified now_ms k (x ∷ items) [] i item rest p h = absurd (no-Picks (i, item) rest p)
evict_at-AreJustified now_ms k (x ∷ items) ((id, reason) ∷ ds) i item rest p (named, fits, others) =
    elim (place k x reason (i, item) _ rest p) [
      | at_head marked same left ↦
          rw (same_index (ap (λ (c : ℕ × ProvisionalMedia). c.0) same))
            (named, evicted-Justifies now_ms x reason marked fits, others)
      | behind_candidate less marked q left ↦
          rw (other_index (candidates-from_index (suc k) items ds i item less q))
            (named, fits, evict_at-AreJustified now_ms (suc k) items ds i item less q others)
      | behind_other unmarked q ↦
          rw (other_index (candidates-from_index (suc k) items ds i item rest q))
            (named, fits, evict_at-AreJustified now_ms (suc k) items ds i item rest q others)
    ]

evict-AreJustified :
    (now_ms : ℕ) (items : List ProvisionalMedia) (cs : List (ℕ × ProvisionalMedia)) (bytes : ℕ)
    (ds : List Decision)
    → Rearranges cs (candidates_from 0 items ds)
    → AreJustified now_ms items ds
    → AreJustified now_ms items (evict cs bytes ds)
unfolding evict
evict-AreJustified now_ms items [] bytes ds r h = h
evict-AreJustified now_ms items ((i, item) ∷ cs) bytes ds (take _ _ _ rest p r) h =
    elim (Bool-cases (leb bytes capture_session_budget_bytes)) [
      | inl enough ↦ rw enough h
      | inr more ↦ rw more (
          evict-AreJustified now_ms items cs (bytes - item.bytes) (evict_at 0 i ds)
            (subst (Rearranges cs) (sym (candidates-evict_at 0 items ds i item rest p)) r)
            (evict_at-AreJustified now_ms 0 items ds i item rest p h))
    ]

-- There is one decision for each item, under its name and in the order of the items. An item is
-- given up as expired exactly if it is not confirmed and was made at least 30 days ago, and
-- is evicted only if it is not confirmed and has not expired; so a confirmed item stays.
pub retention_decisions-AreJustified :
    (items : List ProvisionalMedia) (now_ms : ℕ)
    → AreJustified now_ms items (retention_decisions items now_ms)
unfolding retention_decisions
retention_decisions-AreJustified items now_ms =
    let decisions = map (first_decision now_ms) items in
    evict-AreJustified now_ms items (sort_by eviction_cmp (candidates_from 0 items decisions)) _
      decisions (sort-Rearranges eviction_cmp (candidates_from 0 items decisions))
      (first-AreJustified now_ms items)
