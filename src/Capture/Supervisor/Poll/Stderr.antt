-- ===== src/Capture/Supervisor/Poll/Stderr.antt =====
-- The tail of the recorder's stderr.
use mathlib.Core.Path.{subst}
use openfrag.Common.{
  ℕ, suc, ◌+◌, ◌≤◌, ◌≡◌, refl, sym, ap, ◌∙◌, ◌⊎◌, List, [], ◌∷◌, ◌++◌, arith, length, length-append,
  ltb, Bool-cases, inl, inr,
}
use mathlib.Core.List.{append_assoc, append-nil}
use openfrag.Capture.Supervisor.Poll.{append_bytes, trim_front, push_bounded}

-- `kept` is the last `limit` bytes of `all`, or all of them if there are no more.
abbrev pub IsTail : ℕ → List ℕ → List ℕ → Type 0
IsTail limit all kept =
    (dropped : List ℕ) × (dropped ++ kept ≡ all)
    × (length kept ≤ limit)
    × ((dropped ≡ []) ⊎ (length kept ≡ limit))

trim_front-IsTail :
    (limit : ℕ) (dropped ys : List ℕ)
    → length ys ≤ limit + 1
    → (dropped ≡ []) ⊎ (length ys ≡ limit + 1)
    → IsTail limit (dropped ++ ys) (trim_front limit ys)
trim_front-IsTail limit dropped [] short full = (dropped, refl, omega arith, ground arith)
trim_front-IsTail limit dropped (b ∷ bs) short full =
    elim (Bool-cases (ltb limit (suc (length bs)))) [
      | inl over ↦
          rw over
            (dropped ++ b ∷ [], append_assoc dropped (b ∷ []) bs, omega arith, inr (ground arith))
      | inr fits ↦ rw fits (dropped, refl, ground arith, ground arith)
    ]

push_bounded-IsTail :
    (limit : ℕ) (all kept : List ℕ) (byte : ℕ)
    → IsTail limit all kept
    → IsTail limit (all ++ byte ∷ []) (push_bounded limit kept byte)
push_bounded-IsTail limit all kept byte (dropped, whole, short, full) =
    subst (λ (w : List ℕ). IsTail limit w (push_bounded limit kept byte))
      (sym (append_assoc dropped kept (byte ∷ [])) ∙ ap (λ (w : List ℕ). w ++ byte ∷ []) whole)
      (trim_front-IsTail limit dropped (kept ++ byte ∷ [])
        (omega (arith, length-append {0} kept (byte ∷ [])))
        (ground (arith, length-append {0} kept (byte ∷ []))))

-- What is kept of stderr stays a tail of what came in, however the bytes are split over the polls:
-- the last ones, `limit` of them at most, and fewer only if there were fewer in all.
pub append_bytes-IsTail :
    (limit : ℕ) (all kept bytes : List ℕ)
    → IsTail limit all kept
    → IsTail limit (all ++ bytes) (append_bytes limit kept bytes)
unfolding append_bytes
append_bytes-IsTail limit all kept [] h = rw append-nil h
append_bytes-IsTail limit all kept (byte ∷ bytes) h =
    subst (λ (w : List ℕ). IsTail limit w (append_bytes limit (push_bounded limit kept byte) bytes))
      (append_assoc all (byte ∷ []) bytes)
      (append_bytes-IsTail limit (all ++ byte ∷ []) (push_bounded limit kept byte) bytes
        (push_bounded-IsTail limit all kept byte h))
