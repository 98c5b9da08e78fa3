-- ===== src/Baseline/Sessions/Spacing.antt =====
-- The sessions of crates/openfrag-domain/src/baseline.rs lie apart.
use openfrag.Common.{
  ℕ, ◌+◌, ◌-◌, ◌≤◌, ◌≡◌, inl, inr, arith, false, leb, ltb, Bool-cases, Option, none, some, List, [],
  ◌∷◌, All,
}
use openfrag.Common.Sets.{sort_by}
use openfrag.Common.Sorting.{sort_by-All}
use openfrag.Baseline.Model.{HistoryMatch, MatchInterval, CohortExclusion}
use openfrag.Baseline.Sessions.{
  Session, Placed, session_gap_ms, place, place_one, placed_cmp, opened, extended, sessions_from,
  sessions_of, group_sessions,
}

-- From `bound` on, each session ends no earlier than it starts, and the next one starts more than
-- 90 minutes after its end.
abbrev pub AreSpaced : ℕ → List Session → Type 0
AreSpaced bound [] = Unit
AreSpaced bound (s ∷ rest) =
    (bound ≤ s.start_utc_ms)
    × (s.start_utc_ms ≤ s.end_utc_ms)
    × AreSpaced (s.end_utc_ms + 5_400_001) rest

abbrev IsInOrder : Placed → Type 0
IsInOrder (item, interval) = interval.start_utc_ms ≤ interval.end_utc_ms

sessions_from-AreSpaced :
    (bound : ℕ) (current : Session) (ps : List Placed)
    → bound ≤ current.start_utc_ms
    → current.start_utc_ms ≤ current.end_utc_ms
    → All IsInOrder ps
    → AreSpaced bound (sessions_from current ps).sessions
unfolding sessions_from
sessions_from-AreSpaced bound current [] b h a = (b, h, tt)
sessions_from-AreSpaced bound current ((item, i) ∷ rest) b h (ordered, a) =
    elim (Bool-cases (leb i.start_utc_ms current.end_utc_ms)) [
      | inl overlap ↦ rw overlap (sessions_from-AreSpaced bound current rest b h a)
      | inr after ↦ elim (Bool-cases (leb (i.start_utc_ms - current.end_utc_ms) session_gap_ms)) [
        | inl near ↦
            rw (after, near)
              (sessions_from-AreSpaced bound (extended current (item, i)) rest b
                (longer_order current.start_utc_ms current.end_utc_ms h after ordered) a)
        | inr far ↦
            rw (after, far)
              (
                b,
                h,
                sessions_from-AreSpaced (current.end_utc_ms + 5_400_001) (opened (item, i)) rest
                    (next_bound current.end_utc_ms far) ordered a,
              )
      ]
    ]
  where
    longer_order :
        (s e : ℕ)
        → s ≤ e
        → leb i.start_utc_ms e ≡ false
        → i.start_utc_ms ≤ i.end_utc_ms
        → s ≤ i.end_utc_ms
    longer_order s e h k o = ground (arith, h, k, o)

    next_bound :
        (e : ℕ) → leb (i.start_utc_ms - e) session_gap_ms ≡ false → e + 5_400_001 ≤ i.start_utc_ms
    next_bound e h = ground (arith, h)

place-InOrder : (history : List HistoryMatch) → All IsInOrder (place history).0
unfolding place
place-InOrder [] = tt
place-InOrder (item ∷ history) = go item.interval (place history) (place-InOrder history)
  where
    go :
        (interval : Option MatchInterval) (placed : List Placed × List CohortExclusion)
        → All IsInOrder placed.0
        → All IsInOrder (place_one item interval placed).0
    go none placed a = a
    go (some i) placed a = elim (Bool-cases (ltb i.end_utc_ms i.start_utc_ms)) [
      | inl reversed ↦ rw reversed a
      | inr ordered ↦ rw ordered (ground (arith, ordered), a)
    ]

sessions_of-AreSpaced :
    (ps : List Placed) → All IsInOrder ps → AreSpaced 0 (sessions_of ps).sessions
sessions_of-AreSpaced [] a = tt
sessions_of-AreSpaced ((item, i) ∷ rest) (h, a) =
    sessions_from-AreSpaced 0 (opened (item, i)) rest (omega arith) h a

-- The sessions of any history are in the order of time: each ends no earlier than it starts, and
-- the next one starts more than 90 minutes after its end.
pub group_sessions-AreSpaced :
    (history : List HistoryMatch) → AreSpaced 0 (group_sessions history).sessions
unfolding group_sessions
group_sessions-AreSpaced history =
    sessions_of-AreSpaced (sort_by placed_cmp (place history).0)
      (sort_by-All placed_cmp IsInOrder (place history).0 (place-InOrder history))
