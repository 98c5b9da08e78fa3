-- ===== src/Baseline/Cohort/Distinct.antt =====
-- A baseline of crates/openfrag-domain/src/baseline.rs has each demo once, and at most twenty.
use mathlib.Core.Path.{subst}
use openfrag.Common.{
  ℕ, suc, zero, ◌≤◌, ◌≡◌, ap, arith, false, Bool-cases, inl, inr, Option, List, [], ◌∷◌, map,
  length, Result, ok, err, bind-ok,
}
use openfrag.Common.Text.{Text}
use openfrag.Common.Sets.{sort_by}
use openfrag.Baseline.Model.{HistoryMatch, BaselineQuery, Side}
use openfrag.Baseline.Statistics.{BaselineError}
use openfrag.Baseline.Cohort.{
  BaselineReceipt, Selected, take, has_hash, keep_first, selected_cmp, finalize_baseline,
  candidates_of, side_component, stats_of, build_lens,
}

-- None of the texts is among `seen`, and no text is there twice.
abbrev pub AreFresh : List Text → List Text → Type 0
AreFresh seen [] = Unit
AreFresh seen (x ∷ xs) = (has_hash seen x ≡ false) × AreFresh seen xs

abbrev pub AreDistinct : List Text → Type 0
AreDistinct [] = Unit
AreDistinct (x ∷ xs) = AreFresh (x ∷ []) xs × AreDistinct xs

abbrev pub hashes : List Selected → List Text
hashes = map (λ (c : Selected). c.0.demo_hash)

fresh-head : (x : Text) (seen xs : List Text) → AreFresh (x ∷ seen) xs → AreFresh (x ∷ []) xs
fresh-head x seen [] h = tt
fresh-head x seen (y ∷ ys) (h, hs) = (ground (arith, h), fresh-head x seen ys hs)

fresh-tail : (x : Text) (seen xs : List Text) → AreFresh (x ∷ seen) xs → AreFresh seen xs
fresh-tail x seen [] h = tt
fresh-tail x seen (y ∷ ys) (h, hs) = (ground (arith, h), fresh-tail x seen ys hs)

keep_first-AreFresh :
    (seen : List Text) (cs : List Selected) → AreFresh seen (hashes (keep_first seen cs).0)
unfolding keep_first
keep_first-AreFresh seen [] = tt
keep_first-AreFresh seen ((item, value) ∷ rest) = elim (Bool-cases (has_hash seen item.demo_hash)) [
  | inl twice ↦ rw twice (keep_first-AreFresh seen rest)
  | inr once ↦
      rw once
        (once, fresh-tail item.demo_hash seen _ (keep_first-AreFresh (item.demo_hash ∷ seen) rest))
]

pub keep_first-AreDistinct :
    (seen : List Text) (cs : List Selected) → AreDistinct (hashes (keep_first seen cs).0)
unfolding keep_first
keep_first-AreDistinct seen [] = tt
keep_first-AreDistinct seen ((item, value) ∷ rest) =
    elim (Bool-cases (has_hash seen item.demo_hash)) [
      | inl twice ↦ rw twice (keep_first-AreDistinct seen rest)
      | inr once ↦ rw once (
        fresh-head item.demo_hash seen _ (keep_first-AreFresh (item.demo_hash ∷ seen) rest),
        keep_first-AreDistinct (item.demo_hash ∷ seen) rest,
      )
    ]

take-AreFresh :
    (n : ℕ) (seen : List Text) (cs : List Selected)
    → AreFresh seen (hashes cs)
    → AreFresh seen (hashes (take n cs))
take-AreFresh zero seen cs h = tt
take-AreFresh (suc n) seen [] h = tt
take-AreFresh (suc n) seen (c ∷ cs) (h, hs) = (h, take-AreFresh n seen cs hs)

pub take-AreDistinct :
    (n : ℕ) (cs : List Selected) → AreDistinct (hashes cs) → AreDistinct (hashes (take n cs))
take-AreDistinct zero cs h = tt
take-AreDistinct (suc n) [] h = tt
take-AreDistinct (suc n) (c ∷ cs) (h, hs) =
    (take-AreFresh n (c.0.demo_hash ∷ []) cs h, take-AreDistinct n cs hs)

pub length-take : (n : ℕ) (cs : List Selected) → length (hashes (take n cs)) ≤ n
length-take zero cs = omega arith
length-take (suc n) [] = omega arith
length-take (suc n) (c ∷ cs) = omega (arith, length-take n cs)

abbrev hashes_of : Result BaselineError BaselineReceipt → List Text
hashes_of (ok receipt) = receipt.included_demo_hashes
hashes_of (err e) = []

-- Whatever the history, a baseline rests on at most twenty matches, of as many different demos.
pub build_lens-AreDistinct :
    (history : List HistoryMatch) (query : BaselineQuery) (side : Option Side)
    (receipt : BaselineReceipt)
    → build_lens history query side ≡ ok receipt
    → (length receipt.included_demo_hashes ≤ 20) × AreDistinct receipt.included_demo_hashes
unfolding build_lens finalize_baseline
build_lens-AreDistinct history query side receipt e =
    let (component, ec, e1) = bind-ok (side_component query.field side) _ receipt e in
    let found = candidates_of query component history in
    let kept = (keep_first [] (sort_by selected_cmp found.0)).0 in
    let (stats, es, e2) =
      bind-ok (stats_of query.field (map (λ (c : Selected). c.1) (take 20 kept))) _ receipt e1 in
    let same : hashes (take 20 kept) ≡ receipt.included_demo_hashes = ap hashes_of e2 in
    subst (λ (l : List Text). (length l ≤ 20) × AreDistinct l) same
      (
        length-take 20 kept,
        take-AreDistinct 20 kept (keep_first-AreDistinct [] (sort_by selected_cmp found.0)),
      )
