-- ===== src/Gsi/Transition/Facts.antt =====
-- What `derive_transition` reports of two snapshots.
use openfrag.Common.{
  ℕ, zero, suc, ◌+◌, ◌-◌, ◌≤◌, ◌<◌, ◌≡◌, refl, Bool, true, false, Option, none, some, List, [], ◌∷◌,
  ◌&&◌, ap, ◌∙◌, if◌then◌else◌, get_elem?, arith, All, All-append, length, u64_max, Bool-cases, inl,
  inr,
}
use mathlib.Core.Path.{ap₂}
use openfrag.Common.Int.{ℤ, pos, negsuc, ◌+ℤ◌, ◌-ℤ◌, ◌≤ℤ◌, ◌<ℤ◌, i64, i64_max, ltb_ℤ, leb_ℤ}
use openfrag.Gsi.Wire.{
  TrustedSnapshot, TransitionFact, cumulative_kill_delta, cumulative_death_delta, round_kill_delta,
  health_depleted, round_end,
}
use openfrag.Gsi.Transition.{
  growth, depletion, round_ends, completed_rounds, transition_facts, same_round,
}

-- A counter's delta is its exact difference, positive, and no wrap-around of `i64` shows.
abbrev pub IsExactDelta : ℤ → ℤ → ℤ → Type 0
IsExactDelta previous current delta =
    (current ≡ previous +ℤ delta) × (pos 1 ≤ℤ delta) × (pos 0 ≤ℤ previous)

abbrev pub IsExactFact : TransitionFact → Type 0
IsExactFact (cumulative_kill_delta previous current delta) = IsExactDelta previous current delta
IsExactFact (cumulative_death_delta previous current delta) = IsExactDelta previous current delta
IsExactFact (round_kill_delta previous current delta) = IsExactDelta previous current delta
IsExactFact (health_depleted previous current) = (pos 1 ≤ℤ previous) × (current ≤ℤ pos 0)
IsExactFact (round_end completed next) = next ≡ completed + 1

abbrev pub InI64 : Option ℤ → Type 0
InI64 none = Unit
InI64 (some z) = z ≤ℤ i64_max

-- The fields of a snapshot are `i64` and `u64` values.
pub record InRange (s : TrustedSnapshot) : Type 0 where
  pub kills : InI64 s.kills
  pub deaths : InI64 s.deaths
  pub round_kills : InI64 s.round_kills
  pub round : (r : ℕ) → s.round ≡ some r → r ≤ u64_max

i64_sub_exact :
    (previous current : ℤ)
    → pos 0 ≤ℤ previous
    → previous <ℤ current
    → current ≤ℤ i64_max
    → IsExactDelta previous current (i64 (current -ℤ previous))
i64_sub_exact (negsuc p) current h k m = ground arith
i64_sub_exact (pos p) (negsuc c) h k m = ground arith
i64_sub_exact (pos p) (pos c) h k m = ground arith

module _ (previous current : Option ℤ) (range : InI64 current) where
  growth-exact :
      (fact : ℤ → ℤ → ℤ → TransitionFact)
      → ((p c d : ℤ) → IsExactDelta p c d → IsExactFact (fact p c d))
      → All IsExactFact (growth fact previous current)
  growth-exact fact lift = go previous current range
    where
      keep :
          (p c : ℤ) (b : Bool)
          → (b ≡ true → IsExactDelta p c (i64 (c -ℤ p)))
          → All IsExactFact (if b then fact p c (i64 (c -ℤ p)) ∷ [] else [])
      keep p c true h = (lift p c (i64 (c -ℤ p)) (h refl), tt)
      keep p c false h = tt

      go : (p c : Option ℤ) → InI64 c → All IsExactFact (growth fact p c)
      go (some p) (some c) r = keep p c _ (λ e. i64_sub_exact p c (ground arith) (ground arith) r)
      go (some p) none r = tt
      go none c r = tt

depletion-exact : (previous current : Option ℤ) → All IsExactFact (depletion previous current)
depletion-exact none current = tt
depletion-exact (some p) none = tt
depletion-exact (some p) (some c) = elim (Bool-cases (ltb_ℤ (pos 0) p && leb_ℤ c (pos 0))) [
  | inl e ↦ rw e ((ground arith, ground arith), tt)
  | inr e ↦ rw e tt
]

round_ends-exact :
    (left completed : ℕ) → completed + left ≤ u64_max → All IsExactFact (round_ends left completed)
unfolding round_ends
round_ends-exact zero completed h = tt
round_ends-exact (suc left) completed h =
    (omega arith, round_ends-exact left (completed + 1) (omega arith))

completed_rounds-exact :
    (previous current : Option ℕ)
    → ((r : ℕ) → current ≡ some r → r ≤ u64_max)
    → ((r : ℕ) → previous ≡ some r → r ≤ u64_max)
    → All IsExactFact (completed_rounds previous current)
completed_rounds-exact none current h k = tt
completed_rounds-exact (some p) none h k = tt
completed_rounds-exact (some p) (some c) h k =
    round_ends-exact (c - p) p (omega (arith, h c refl, k p refl))

All-if {ℓ κ} :
    {A : Type ℓ} (P : A → Type κ) (b : Bool) (xs : List A) → All P xs → All P (if b then xs else [])
All-if P true xs h = h
All-if P false xs h = tt

-- Every fact that is reported of two snapshots, whose fields are `i64` and `u64` values, is exact:
-- a counter's delta is the positive difference of two values, the first of which is not negative,
-- a depletion goes from a positive health to one that is not, and a round's successor is the next
-- number; no wrap-around of the machine integers shows.
pub transition_facts-exact :
    (previous current : TrustedSnapshot)
    → InRange previous
    → InRange current
    → All IsExactFact (transition_facts previous current)
unfolding transition_facts
transition_facts-exact previous current rp rc =
    let same = same_round previous.round current.round in
    All-append IsExactFact _ _
      (growth-exact previous.kills current.kills rc.kills cumulative_kill_delta (λ p c d h. h))
      (All-append IsExactFact _ _
        (growth-exact previous.deaths current.deaths rc.deaths cumulative_death_delta
          (λ p c d h. h))
        (All-append IsExactFact _ _
          (All-if IsExactFact same _ (
            growth-exact previous.round_kills current.round_kills rc.round_kills round_kill_delta
              (λ p c d h. h)))
          (All-append IsExactFact _ _
            (All-if IsExactFact same _ (depletion-exact previous.health current.health))
            (completed_rounds-exact previous.round current.round rc.round rp.round))))

length-round_ends : (left from : ℕ) → length (round_ends left from) ≡ left
unfolding round_ends
length-round_ends zero from = refl
length-round_ends (suc left) from = ap suc (length-round_ends left (from + 1))

get_elem?-round_ends :
    (left from : ℕ)
    → from + left ≤ u64_max
    → (i : ℕ) → i < left
    → get_elem? (round_ends left from) i ≡ some (round_end (from + i) (from + i + 1))
unfolding round_ends
get_elem?-round_ends zero from k i b = absurd (omega arith)
get_elem?-round_ends (suc left) from k zero b = ap some (ap₂ round_end (omega arith) (omega arith))
get_elem?-round_ends (suc left) from k (suc i) b =
    get_elem?-round_ends left (from + 1) (omega arith) i (omega arith)
    ∙ ap some (ap₂ round_end (omega arith) (omega arith))

-- Between two round numbers in the range of `u64`, the second not below the first, the rounds
-- completed are reported once each, in order, from the first number up to the one before the
-- second.
pub completed_rounds-cover :
    (previous current : ℕ)
    → current ≤ u64_max
    → previous ≤ current
    → (length (completed_rounds (some previous) (some current)) ≡ current - previous)
      × ((i : ℕ)
          → i < current - previous
          → get_elem? (completed_rounds (some previous) (some current)) i
            ≡ some (round_end (previous + i) (previous + i + 1)))
completed_rounds-cover previous current m h = (
  length-round_ends (current - previous) previous,
  get_elem?-round_ends (current - previous) previous (omega arith),
)
