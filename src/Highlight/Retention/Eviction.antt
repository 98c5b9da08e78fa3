-- ===== src/Highlight/Retention/Eviction.antt =====
-- What the eviction loop of crates/openfrag-domain/src/highlight.rs does to the decisions: it marks
-- each candidate where it stands.
use Prim.Native.Nat.{Ordering}
use openfrag.Common.{
  ℕ, suc, ◌≤◌, ◌≡◌, ◌⊎◌, inl, inr, refl, sym, ap, ◌∙◌, arith, Bool, true, false, ◌==◌,
  if◌then◌else◌, List, [], ◌∷◌,
}
use openfrag.Common.Sets.{sort_by, sort_insert}
use openfrag.Highlight.Retention.{
  ProvisionalMedia, RetentionReason, evicted_by_session_budget, Decision, is_candidate,
  candidates_from, evict_at,
}

-- `rest` is `xs` less one `x`.
pub data Picks {ℓ} {A : Type ℓ} (x : A) : List A → List A → Type ℓ where
  here : (xs : List A) → Picks x (x ∷ xs) xs
  there : (y : A) (xs rest : List A) → Picks x xs rest → Picks x (y ∷ xs) (y ∷ rest)

pub Picks-cases {ℓ} :
    {A : Type ℓ} (x y : A) (xs rest : List A)
    → Picks x (y ∷ xs) rest
    → ((x ≡ y) × (xs ≡ rest)) ⊎ ((less : List A) × Picks x xs less × (rest ≡ y ∷ less))
Picks-cases x y xs rest (here _) = inl (refl, refl)
Picks-cases x y xs rest (there _ _ less p) = inr (less, p, refl)

pub no-Picks {ℓ} : {A : Type ℓ} (x : A) (rest : List A) → Picks x [] rest → ⊥
no-Picks x rest p = elim p [ ]

-- The items of one list, taken one after the other, are those of the other.
pub data Rearranges {ℓ} {A : Type ℓ} : List A → List A → Type ℓ where
  done : Rearranges [] []
  take :
      (x : A) (xs ys rest : List A) → Picks x ys rest → Rearranges xs rest → Rearranges (x ∷ xs) ys

picked-insert {ℓ} :
    {A : Type ℓ} (cmp : A → A → Ordering) (x : A) (s xs : List A)
    → Rearranges s xs
    → Rearranges (sort_insert cmp x s) (x ∷ xs)
unfolding sort_insert
picked-insert cmp x [] xs h = take x [] (x ∷ xs) xs (here xs) h
picked-insert cmp x (y ∷ s) xs (take _ _ _ rest p h) =
    placed (cmp x y) (take x (y ∷ s) (x ∷ xs) xs (here xs) (take y s xs rest p h)) (
      take y (sort_insert cmp x s) (x ∷ xs) (x ∷ rest) (there x xs rest p)
        (picked-insert cmp x s rest h))
  where
    placed :
        {A : Type ℓ} {a b c : List A} (o : Ordering)
        → Rearranges a c
        → Rearranges b c
        → Rearranges (elim o [ Ordering.lt ↦ a | Ordering.eq ↦ a | Ordering.gt ↦ b ]) c
    placed Ordering.lt ha hb = ha
    placed Ordering.eq ha hb = ha
    placed Ordering.gt ha hb = hb

pub sort-Rearranges {ℓ} :
    {A : Type ℓ} (cmp : A → A → Ordering) (xs : List A) → Rearranges (sort_by cmp xs) xs
unfolding sort_by
sort-Rearranges cmp [] = done
sort-Rearranges cmp (x ∷ xs) = picked-insert cmp x (sort_by cmp xs) xs (sort-Rearranges cmp xs)

-- Where a picked candidate stands: at the head, behind a head that is a candidate, or behind one
-- that is not.
pub data Place (k : ℕ) (x : ProvisionalMedia) (reason : RetentionReason) (c : ℕ × ProvisionalMedia)
    (behind rest : List (ℕ × ProvisionalMedia)) : Type 0 where
  at_head :
      is_candidate x reason ≡ true → c ≡ (k, x) → behind ≡ rest → Place k x reason c behind rest
  behind_candidate :
      (less : List (ℕ × ProvisionalMedia))
      → is_candidate x reason ≡ true
      → Picks c behind less
      → rest ≡ (k, x) ∷ less
      → Place k x reason c behind rest
  behind_other :
      is_candidate x reason ≡ false → Picks c behind rest → Place k x reason c behind rest

pub place :
    (k : ℕ) (x : ProvisionalMedia) (reason : RetentionReason) (c : ℕ × ProvisionalMedia)
    (behind rest : List (ℕ × ProvisionalMedia))
    → Picks c (if is_candidate x reason then (k, x) ∷ behind else behind) rest
    → Place k x reason c behind rest
place k x reason c behind rest p = go (is_candidate x reason) refl p
  where
    go :
        (b : Bool)
        → is_candidate x reason ≡ b
        → Picks c (if b then (k, x) ∷ behind else behind) rest
        → Place k x reason c behind rest
    go true e p = elim (Picks-cases c (k, x) behind rest p) [
      | inl (same, left) ↦ at_head e same left
      | inr (less, q, left) ↦ behind_candidate less e q left
    ]
    go false e p = behind_other e p

-- The indices are counted from `k`.
pub candidates-from_index :
    (k : ℕ) (items : List ProvisionalMedia) (ds : List Decision) (i : ℕ) (item : ProvisionalMedia)
    (rest : List (ℕ × ProvisionalMedia))
    → Picks (i, item) (candidates_from k items ds) rest
    → k ≤ i
unfolding candidates_from
candidates-from_index k [] ds i item rest p = absurd (no-Picks (i, item) rest p)
candidates-from_index k (x ∷ items) [] i item rest p = absurd (no-Picks (i, item) rest p)
candidates-from_index k (x ∷ items) ((id, reason) ∷ ds) i item rest p =
    elim (place k x reason (i, item) _ rest p) [
      | at_head _ same _ ↦ omega (arith, ap (λ (c : ℕ × ProvisionalMedia). c.0) same)
      | behind_candidate less _ q _ ↦
          omega (arith, candidates-from_index (suc k) items ds i item less q)
      | behind_other _ q ↦ omega (arith, candidates-from_index (suc k) items ds i item rest q)
    ]

evicted-no_candidate : (x : ProvisionalMedia) → is_candidate x evicted_by_session_budget ≡ false
evicted-no_candidate x = ground arith

pub same_index : {k i : ℕ} → i ≡ k → (k == i) ≡ true
same_index e = ground (arith, e)

pub other_index : {k i : ℕ} → suc k ≤ i → (k == i) ≡ false
other_index e = ground (arith, e)

-- Marking a candidate takes it from the candidates and leaves the others.
pub candidates-evict_at :
    (k : ℕ) (items : List ProvisionalMedia) (ds : List Decision) (i : ℕ) (item : ProvisionalMedia)
    (rest : List (ℕ × ProvisionalMedia))
    → Picks (i, item) (candidates_from k items ds) rest
    → candidates_from k items (evict_at k i ds) ≡ rest
unfolding candidates_from evict_at
candidates-evict_at k [] ds i item rest p = absurd (no-Picks (i, item) rest p)
candidates-evict_at k (x ∷ items) [] i item rest p = absurd (no-Picks (i, item) rest p)
candidates-evict_at k (x ∷ items) ((id, reason) ∷ ds) i item rest p =
    elim (place k x reason (i, item) _ rest p) [
      | at_head marked same left ↦
          rw (same_index (ap (λ (c : ℕ × ProvisionalMedia). c.0) same), evicted-no_candidate x) left
      | behind_candidate less marked q left ↦
          rw (other_index (candidates-from_index (suc k) items ds i item less q), marked)
            (ap (λ (l : List (ℕ × ProvisionalMedia)). (k, x) ∷ l)
                (candidates-evict_at (suc k) items ds i item less q)
              ∙ sym left)
      | behind_other unmarked q ↦
          rw (other_index (candidates-from_index (suc k) items ds i item rest q), unmarked)
            (candidates-evict_at (suc k) items ds i item rest q)
    ]
