-- ===== src/Highlight/Retention/Budget.antt =====
-- What `retention_decisions` of crates/openfrag-domain/src/highlight.rs keeps.
use Prim.Native.Nat.{min}
use mathlib.Core.Path.{subst}
use openfrag.Common.{
  ℕ, suc, ◌+◌, ◌-◌, ◌≤◌, ◌≡◌, inl, inr, refl, sym, ◌∙◌, arith, true, leb, if◌then◌else◌, Bool-cases,
  List, [], ◌∷◌, map, u64_max,
}
use openfrag.Common.Sets.{sort_by}
use openfrag.Highlight.Retention.{
  ProvisionalMedia, Decision, is_candidate, candidates_from, add_bytes, evict_at, evict,
  capture_session_budget_bytes, eviction_cmp, first_decision, retention_decisions,
}
use openfrag.Highlight.Retention.Eviction.{
  Picks, here, there, Rearranges, done, take, sort-Rearranges, candidates-evict_at,
}

-- The bytes of all items, and of the unconfirmed ones that are kept.
abbrev pub total_bytes : List ProvisionalMedia → ℕ
total_bytes [] = 0
total_bytes (item ∷ items) = item.bytes + total_bytes items

unfoldable pub kept_bytes : List ProvisionalMedia → List Decision → ℕ
kept_bytes [] ds = 0
kept_bytes (item ∷ items) [] = 0
kept_bytes (item ∷ items) ((id, reason) ∷ ds) =
    let rest = kept_bytes items ds in if is_candidate item reason then item.bytes + rest else rest

abbrev bytes_of : List (ℕ × ProvisionalMedia) → ℕ
bytes_of [] = 0
bytes_of ((i, item) ∷ rest) = item.bytes + bytes_of rest

bytes_of-Picks :
    (c : ℕ × ProvisionalMedia) (xs rest : List (ℕ × ProvisionalMedia))
    → Picks c xs rest
    → bytes_of xs ≡ c.1.bytes + bytes_of rest
bytes_of-Picks c xs rest (here _) = refl
bytes_of-Picks c xs rest (there y ys less p) = omega (arith, bytes_of-Picks c ys less p)

bytes_of-Rearranges :
    (xs ys : List (ℕ × ProvisionalMedia)) → Rearranges xs ys → bytes_of xs ≡ bytes_of ys
bytes_of-Rearranges xs ys done = refl
bytes_of-Rearranges xs ys (take x less _ rest p h) =
    omega (arith, bytes_of-Picks x ys rest p, bytes_of-Rearranges less rest h)

kept_bytes-candidates :
    (k : ℕ) (items : List ProvisionalMedia) (ds : List Decision)
    → kept_bytes items ds ≡ bytes_of (candidates_from k items ds)
unfolding kept_bytes candidates_from
kept_bytes-candidates k [] ds = refl
kept_bytes-candidates k (x ∷ items) [] = refl
kept_bytes-candidates k (x ∷ items) ((id, reason) ∷ ds) =
    ground (arith, kept_bytes-candidates (suc k) items ds)

kept-total :
    (items : List ProvisionalMedia) (ds : List Decision) → kept_bytes items ds ≤ total_bytes items
unfolding kept_bytes
kept-total [] ds = omega arith
kept-total (x ∷ items) [] = omega arith
kept-total (x ∷ items) ((id, reason) ∷ ds) = ground (arith, kept-total items ds)

add_bytes-sum :
    (total : ℕ) (xs : List (ℕ × ProvisionalMedia))
    → total + bytes_of xs ≤ u64_max
    → add_bytes total xs ≡ total + bytes_of xs
unfolding add_bytes
add_bytes-sum total [] h = omega arith
add_bytes-sum total ((i, x) ∷ xs) h =
    rw (small) (add_bytes-sum (total + x.bytes) xs (omega (arith, h)) ∙ omega arith)
  where
    small : min (total + x.bytes) u64_max ≡ total + x.bytes
    small = omega (arith, h)

-- The loop, started with the bytes of its candidates, ends within the budget.
evict-within :
    (items : List ProvisionalMedia) (cs : List (ℕ × ProvisionalMedia)) (ds : List Decision)
    → Rearranges cs (candidates_from 0 items ds)
    → kept_bytes items (evict cs (bytes_of cs) ds) ≤ capture_session_budget_bytes
unfolding evict
evict-within items [] ds h =
    omega (arith, kept_bytes-candidates 0 items ds, bytes_of-Rearranges [] _ h)
evict-within items ((i, item) ∷ cs) ds (take _ _ _ rest p h) =
    elim (Bool-cases (leb (bytes_of ((i, item) ∷ cs)) capture_session_budget_bytes)) [
      | inl enough ↦ rw enough (
          within ds enough (kept_bytes-candidates 0 items ds)
            (bytes_of-Rearranges ((i, item) ∷ cs) _ (take (i, item) cs _ rest p h)))
      | inr more ↦
          rw (more, cancel item.bytes (bytes_of cs))
            (evict-within items cs (evict_at 0 i ds)
              (subst (Rearranges cs) (sym (candidates-evict_at 0 items ds i item rest p)) h))
    ]
  where
    within :
        (ds : List Decision)
        → leb (bytes_of ((i, item) ∷ cs)) capture_session_budget_bytes ≡ true
        → kept_bytes items ds ≡ bytes_of (candidates_from 0 items ds)
        → bytes_of ((i, item) ∷ cs) ≡ bytes_of (candidates_from 0 items ds)
        → kept_bytes items ds ≤ capture_session_budget_bytes
    within ds e a b = ground (arith, e, a, b)

    cancel : (m n : ℕ) → m + n - m ≡ n
    cancel m n = omega arith

-- The provisional media that stay take at most 2 GiB together, if all the given media together
-- have a size that a `u64` holds.
pub retention_decisions-budget :
    (items : List ProvisionalMedia) (now_ms : ℕ)
    → total_bytes items ≤ u64_max
    → kept_bytes items (retention_decisions items now_ms) ≤ capture_session_budget_bytes
unfolding retention_decisions
retention_decisions-budget items now_ms h = rw (counted) (
    evict-within items (sort_by eviction_cmp (candidates_from 0 items decisions)) decisions
      (sort-Rearranges eviction_cmp (candidates_from 0 items decisions)))
  where
    decisions : List Decision
    decisions = map (first_decision now_ms) items

    counted :
        add_bytes 0 (candidates_from 0 items decisions)
        ≡ bytes_of (sort_by eviction_cmp (candidates_from 0 items decisions))
    counted = omega (
      arith,
      add_bytes-sum 0 (candidates_from 0 items decisions)
          (omega (arith, h, kept-total items decisions, kept_bytes-candidates 0 items decisions)),
      bytes_of-Rearranges _ _ (sort-Rearranges eviction_cmp (candidates_from 0 items decisions)),
    )
