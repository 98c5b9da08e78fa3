-- ===== src/Reconcile/Persistence.antt =====
-- `reconcile_demo_candidates` of crates/openfrag-pipeline/src/reconcile.rs over any persistence: a
-- function of the decision and of the state of the store.
use Prim.Native.Nat.{Ordering}
use mathlib.Core.List.{IsChain}
use openfrag.Common.{
  ℕ, ◌≡◌, ◌≢◌, ◌⊎◌, inl, inr, arith, sym, refl, ap, List, [], ◌∷◌, ◌++◌, map, Result, ok, err,
}
use openfrag.Common.Text.{text_cmp, text_cmp-eq}
use openfrag.Common.Sets.{sort_by, then_cmp}
use openfrag.Common.Sorting.{sort_by-IsChain, text_cmp-gt}
use openfrag.Highlight.Retention.Eviction.{Rearranges, sort-Rearranges}
use openfrag.Reconcile.Demo.{ParsedOutput}
use openfrag.Reconcile.Decision.{
  ReconciliationCandidate, ReconciliationDecision, decide, candidate_cmp,
}

-- By the text of the candidate's id, and for one candidate by that of the clip's.
abbrev pub IsBefore : ReconciliationCandidate → ReconciliationCandidate → Type 0
IsBefore a b =
    (text_cmp a.candidate_id b.candidate_id ≡ Ordering.lt)
    ⊎ ((a.candidate_id ≡ b.candidate_id) × (text_cmp a.clip_id b.clip_id ≢ Ordering.gt))

not_after-IsBefore :
    (a b : ReconciliationCandidate) → candidate_cmp a b ≢ Ordering.gt → IsBefore a b
not_after-IsBefore a b h = go (text_cmp a.candidate_id b.candidate_id) refl h
  where
    go :
        (o : Ordering)
        → text_cmp a.candidate_id b.candidate_id ≡ o
        → then_cmp o (text_cmp a.clip_id b.clip_id) ≢ Ordering.gt
        → IsBefore a b
    go Ordering.lt e n = inl e
    go Ordering.eq e n = inr (text_cmp-eq a.candidate_id b.candidate_id e, n)
    go Ordering.gt e n = absurd (n refl)

after-IsBefore : (a b : ReconciliationCandidate) → candidate_cmp a b ≡ Ordering.gt → IsBefore b a
after-IsBefore a b h = go (text_cmp a.candidate_id b.candidate_id) refl h
  where
    go :
        (o : Ordering)
        → text_cmp a.candidate_id b.candidate_id ≡ o
        → then_cmp o (text_cmp a.clip_id b.clip_id) ≡ Ordering.gt
        → IsBefore b a
    go Ordering.lt e g = cc
    go Ordering.eq e g = inr (
      sym (text_cmp-eq a.candidate_id b.candidate_id e),
      λ back. ground (arith, back, text_cmp-gt a.clip_id b.clip_id g),
    )
    go Ordering.gt e g = inl (text_cmp-gt a.candidate_id b.candidate_id e)

module _ {S E : Type 0} (persist : ReconciliationDecision → S → S × Result E (Unit {0})) where
  abbrev push :
      ReconciliationDecision
      → S × Result E (List ReconciliationDecision)
      → S × Result E (List ReconciliationDecision)
  push decision (s, ok decisions) = (s, ok (decision ∷ decisions))
  push decision (s, err e) = (s, err e)

  -- `?` on the persisted decision.
  abbrev then_rest :
      ReconciliationDecision
      → S × Result E (Unit {0})
      → (S → S × Result E (List ReconciliationDecision))
      → S × Result E (List ReconciliationDecision)
  then_rest decision (s, err e) rest = (s, err e)
  then_rest decision (s, ok done) rest = push decision (rest s)

  -- The loop over the ordered candidates.
  unfoldable pub persist_each :
      ParsedOutput
      → ℕ
      → List ReconciliationCandidate
      → S
      → S × Result E (List ReconciliationDecision)
  persist_each parsed own_id [] s = (s, ok [])
  persist_each parsed own_id (c ∷ cs) s =
      then_rest (decide parsed own_id c) (persist (decide parsed own_id c) s)
        (λ after. persist_each parsed own_id cs after)

  unfoldable pub reconcile_demo_candidates :
      ParsedOutput
      → ℕ
      → List ReconciliationCandidate
      → S
      → S × Result E (List ReconciliationDecision)
  reconcile_demo_candidates parsed own_id candidates s =
      persist_each parsed own_id (sort_by candidate_cmp candidates) s

  -- The store took the decisions one after the other.
  pub data Persists : List ReconciliationDecision → S → S → Type 0 where
    nothing : (s : S) → Persists [] s s
    next :
        (decision : ReconciliationDecision) (decisions : List ReconciliationDecision)
        (s between after : S)
        → persist decision s ≡ (between, ok tt)
        → Persists decisions between after
        → Persists (decision ∷ decisions) s after

  -- The store took all of the decisions, or those before one that it refused, and none behind it.
  abbrev pub IsPersisted :
      List ReconciliationDecision → S → S × Result E (List ReconciliationDecision) → Type 0
  IsPersisted all_decisions s (after, ok decisions) =
      (decisions ≡ all_decisions) × Persists all_decisions s after
  IsPersisted all_decisions s (after, err e) =
      (taken : List ReconciliationDecision) × (refused : ReconciliationDecision) × (untried : List
        ReconciliationDecision)
      × (at_refusal : S) × (all_decisions ≡ taken ++ refused ∷ untried)
      × Persists taken s at_refusal
      × (persist refused at_refusal ≡ (after, err e))

  persist_each-IsPersisted :
      (parsed : ParsedOutput) (own_id : ℕ) (cs : List ReconciliationCandidate) (s : S)
      → IsPersisted (map (decide parsed own_id) cs) s (persist_each parsed own_id cs s)
  unfolding persist_each
  persist_each-IsPersisted parsed own_id [] s = (refl, nothing s)
  persist_each-IsPersisted parsed own_id (c ∷ cs) s =
      go (persist d s) (λ between. persist_each-IsPersisted parsed own_id cs between) refl
    where
      d : ReconciliationDecision
      d = decide parsed own_id c

      pushed :
          (between : S) (out : S × Result E (List ReconciliationDecision))
          → persist d s ≡ (between, ok tt)
          → IsPersisted (map (decide parsed own_id) cs) between out
          → IsPersisted (d ∷ map (decide parsed own_id) cs) s (push d out)
      pushed between (after, ok decisions) e (same, taken) =
          (ap (λ (l : List ReconciliationDecision). d ∷ l) same, next d _ s between after e taken)
      pushed between (after, err x) e (taken, refused, untried, at, same, h, stopped) = (
        d ∷ taken,
        refused,
        untried,
        at,
        ap (λ (l : List ReconciliationDecision). d ∷ l) same,
        next d taken s between at e h,
        stopped,
      )

      go :
          (r : S × Result E (Unit {0}))
          → ((between : S)
              → IsPersisted
                  (map (decide parsed own_id) cs)
                  between
                  (persist_each parsed own_id cs between))
          → persist d s ≡ r
          → IsPersisted
              (d ∷ map (decide parsed own_id) cs)
              s
              (then_rest d r (λ after. persist_each parsed own_id cs after))
      go (after, err e) rest same = ([], d, map (decide parsed own_id) cs, s, refl, nothing s, same)
      go (after, ok done) rest same =
          pushed after (persist_each parsed own_id cs after) same (rest after)

  -- The candidates are decided and persisted one by one, ordered by candidate and then by clip:
  -- where the persistence takes them all, all decisions are returned in that order; at the first
  -- that it refuses, its error is returned, those before have been persisted, and none behind is
  -- tried.
  pub reconcile_demo_candidates-IsPersisted :
      (parsed : ParsedOutput) (own_id : ℕ) (candidates : List ReconciliationCandidate) (s : S)
      → (ordered : List ReconciliationCandidate) × Rearranges ordered candidates
        × IsChain IsBefore ordered
        × IsPersisted
            (map (decide parsed own_id) ordered)
            s
            (reconcile_demo_candidates parsed own_id candidates s)
  unfolding reconcile_demo_candidates
  reconcile_demo_candidates-IsPersisted parsed own_id candidates s = (
    sort_by candidate_cmp candidates,
    sort-Rearranges candidate_cmp candidates,
    sort_by-IsChain candidate_cmp IsBefore not_after-IsBefore after-IsBefore candidates,
    persist_each-IsPersisted parsed own_id (sort_by candidate_cmp candidates) s,
  )
