-- ===== src/Rating/Bounds.antt =====
-- The components of a rating are between zero and one and the rating is between zero and two, so
-- that nothing but an overflow makes the calculation of crates/openfrag-domain/src/rating.rs fail.
use openfrag.Common.{ℕ, ◌+◌, ◌*◌, ◌<◌, ◌≤◌, inl, inr, refl, ◌==◌, arith, Bool-cases}
use openfrag.Common.Int.{pos, ◌-ℤ◌}
use openfrag.Exact.Rational.{Rational, half, new, from_integer, UnitInterval, unit_interval}
use openfrag.Exact.Rational.Bounds.{
  Gives, Gives-bind, Gives-map, Within, IsRatio, normalize-Gives, normalize-Within,
  checked_add-Within, checked_mul-Within, checked_add-positive, Within-weaken,
}
use openfrag.Exact.Rational.Clamping.{clamped-Within, unit_interval-Within}
use openfrag.Rating.Model.{
  RatingMetrics, ComponentVector, ComponentKind, direct_damage, frag_balance, opening_duels,
  trade_kills, utility, clutch_conversion, get_component,
}
use openfrag.Rating.Components.{
  clamped_ratio, frag_balance_of, share, utility_of, component_vector, weighted, weighted_rating,
}

abbrev pub IsUnit : UnitInterval → Type 0
IsUnit u = Within 1 1 u.exact

pub new-Within : (n d a b : ℕ) → 0 < d → n * b ≤ a * d → Gives (Within a b) (new (pos n) (pos d))
unfolding new
new-Within n d a b h le = normalize-Within (pos n) (pos d) n d a b refl refl h le

clamped_ratio-IsUnit : (n d : ℕ) → 0 < d → Gives IsUnit (clamped_ratio n d)
unfolding clamped_ratio new
clamped_ratio-IsUnit n d h =
    Gives-bind (IsRatio (pos n) d) IsUnit _ _ (normalize-Gives (pos n) d h)
      (λ r v. clamped-Within r v.positive)

frag_balance_of-IsUnit : (k d r : ℕ) → 0 < r → Gives IsUnit (frag_balance_of k d r)
unfolding frag_balance_of new
frag_balance_of-IsUnit k d r h =
    Gives-bind (IsRatio (pos k -ℤ pos d) (2 * r)) IsUnit _ _
      (normalize-Gives (pos k -ℤ pos d) (2 * r) (omega (arith, h)))
      (λ delta v.
        Gives-bind (λ s. 0 < s.denominator) IsUnit _ _
          (checked_add-positive half delta (omega arith) v.positive)
          (λ s positive. clamped-Within s positive))

half-Within : Within 1 1 half
half-Within = record { den_pos = omega arith; not_negative = refl; at_most = omega arith }

unit_interval-IsUnit : (x : Rational) → Within 1 1 x → Gives IsUnit (unit_interval x)
unit_interval-IsUnit x h = rw (unit_interval-Within x h) h

share-IsUnit : (w t : ℕ) → w ≤ t → Gives IsUnit (share w t)
unfolding share
share-IsUnit w t h = elim (Bool-cases (t == 0)) [
  | inl none ↦ rw none (unit_interval-IsUnit half half-Within)
  | inr some ↦ rw some (
      Gives-bind (Within 1 1) IsUnit _ _ (new-Within w t 1 1 (ground arith) (omega (arith, h)))
        unit_interval-IsUnit)
]

utility_of-IsUnit : (d f : UnitInterval) → IsUnit d → IsUnit f → Gives IsUnit (utility_of d f)
unfolding utility_of
utility_of-IsUnit d f hd hf =
    Gives-bind (Within 7 10) IsUnit _ _ (new-Within 7 10 7 10 (omega arith) (omega arith))
      (λ seven h7.
        Gives-bind (Within 7 10) IsUnit _ _ (checked_mul-Within _ seven 1 1 7 10 hd h7) (λ wd hwd.
          Gives-bind (Within 3 10) IsUnit _ _ (new-Within 3 10 3 10 (omega arith) (omega arith))
            (λ three h3.
              Gives-bind (Within 3 10) IsUnit _ _ (checked_mul-Within _ three 1 1 3 10 hf h3)
                (λ wf hwf.
                  Gives-bind (Within 10 10) IsUnit _ _ (checked_add-Within wd wf 7 3 10 hwd hwf)
                    (λ s hs.
                      unit_interval-IsUnit s
                        (Within-weaken 10 10 1 1 s (omega arith) (omega arith) hs))))))

-- Every component is between zero and one.
abbrev pub AreUnits : ComponentVector → Type 0
AreUnits v = (kind : ComponentKind) → IsUnit (get_component v kind)

pub component_vector-AreUnits :
    (m : RatingMetrics)
    → 0 < m.eligible_rounds
    → m.clutch_wins ≤ m.clutch_opportunities
    → Gives AreUnits (component_vector m)
unfolding component_vector
component_vector-AreUnits m h c =
    Gives-bind IsUnit AreUnits _ _
      (clamped_ratio-IsUnit m.direct_damage (160 * m.eligible_rounds) (omega (arith, h)))
      (λ damage h1.
        Gives-bind IsUnit AreUnits _ _ (frag_balance_of-IsUnit m.kills m.deaths m.eligible_rounds h)
          (λ balance h2.
            Gives-bind IsUnit AreUnits _ _
              (share-IsUnit m.opening_wins (m.opening_wins + m.opening_losses) (omega arith))
              (λ opening h3.
                Gives-bind IsUnit AreUnits _ _
                  (clamped_ratio-IsUnit (2 * m.trade_kills) m.eligible_rounds h)
                  (λ trades h4.
                    Gives-bind IsUnit AreUnits _ _
                      (clamped_ratio-IsUnit m.utility_damage (30 * m.eligible_rounds)
                        (omega (arith, h)))
                      (λ utility_damage h5.
                        Gives-bind IsUnit AreUnits _ _
                          (clamped_ratio-IsUnit (2 * m.flash_assists) m.eligible_rounds h)
                          (λ flashes h6.
                            Gives-bind IsUnit AreUnits _ _
                              (utility_of-IsUnit utility_damage flashes h5 h6)
                              (λ used h7.
                                Gives-bind IsUnit AreUnits _ _
                                  (share-IsUnit m.clutch_wins m.clutch_opportunities c)
                                  (λ clutches h8.
                                    all_units damage balance opening trades used clutches h1 h2 h3
                                      h4 h7 h8))))))))
  where
    all_units :
        (d b o t u c : UnitInterval)
        → IsUnit d
        → IsUnit b
        → IsUnit o
        → IsUnit t
        → IsUnit u
        → IsUnit c
        → AreUnits (record {
          direct_damage = d;
          frag_balance = b;
          opening_duels = o;
          trade_kills = t;
          utility = u;
          clutch_conversion = c;
        })
    all_units d b o t u c h1 h2 h3 h4 h5 h6 direct_damage = h1
    all_units d b o t u c h1 h2 h3 h4 h5 h6 frag_balance = h2
    all_units d b o t u c h1 h2 h3 h4 h5 h6 opening_duels = h3
    all_units d b o t u c h1 h2 h3 h4 h5 h6 trade_kills = h4
    all_units d b o t u c h1 h2 h3 h4 h5 h6 utility = h5
    all_units d b o t u c h1 h2 h3 h4 h5 h6 clutch_conversion = h6

-- A component times `n / d`, as twentieths.
weighted-Within :
    (u : UnitInterval) (n d k : ℕ)
    → 0 < d
    → n * 20 ≤ k * d
    → IsUnit u
    → Gives (Within k 20) (weighted u n d)
unfolding weighted
weighted-Within u n d k h le hu =
    Gives-bind (Within k 20) (Within k 20) _ _ (new-Within n d k 20 h le) (λ w hw.
      Gives-map (Within (1 * k) (1 * 20)) (Within k 20) _
        (checked_mul-Within u.exact w 1 1 k 20 hu hw)
        (λ r hr. Within-weaken (1 * k) (1 * 20) k 20 r (omega arith) (omega arith) hr))

pub weighted_rating-Within :
    (v : ComponentVector) → AreUnits v → Gives (Within 2 1) (weighted_rating v)
unfolding weighted_rating
weighted_rating-Within v h =
    Gives-bind (Within 6 20) (Within 2 1) _ _
      (weighted-Within v.direct_damage 3 10 6 (omega arith) (omega arith) (h direct_damage))
      (λ a ha.
        Gives-bind (Within 6 20) (Within 2 1) _ _
          (weighted-Within v.frag_balance 3 10 6 (omega arith) (omega arith) (h frag_balance))
          (λ b hb.
            Gives-bind (Within 12 20) (Within 2 1) _ _ (checked_add-Within a b 6 6 20 ha hb)
              (λ ab hab.
                Gives-bind (Within 3 20) (Within 2 1) _ _
                  (weighted-Within v.opening_duels 3 20 3 (omega arith) (omega arith)
                    (h opening_duels))
                  (λ c hc.
                    Gives-bind (Within 15 20) (Within 2 1) _ _
                      (checked_add-Within ab c 12 3 20 hab hc)
                      (λ ac hac.
                        Gives-bind (Within 2 20) (Within 2 1) _ _
                          (weighted-Within v.trade_kills 1 10 2 (omega arith) (omega arith)
                            (h trade_kills))
                          (λ d hd.
                            Gives-bind (Within 17 20) (Within 2 1) _ _
                              (checked_add-Within ac d 15 2 20 hac hd)
                              (λ ad had.
                                Gives-bind (Within 2 20) (Within 2 1) _ _
                                  (weighted-Within v.utility 1 10 2 (omega arith) (omega arith)
                                    (h utility))
                                  (λ e he.
                                    Gives-bind (Within 19 20) (Within 2 1) _ _
                                      (checked_add-Within ad e 17 2 20 had he)
                                      (λ ae hae.
                                        Gives-bind (Within 1 20) (Within 2 1) _ _
                                          (weighted-Within v.clutch_conversion 1 20 1 (omega arith)
                                            (omega arith) (h clutch_conversion))
                                          (λ f hf.
                                            Gives-bind (Within 20 20) (Within 2 1) _ _
                                              (checked_add-Within ae f 19 1 20 hae hf)
                                              (λ s hs.
                                                Gives-map (Within 40 20) (Within 2 1) _
                                                  (checked_mul-Within s (from_integer (pos 2)) 20 20
                                                    2 1 hs two)
                                                  (λ r hr.
                                                    Within-weaken 40 20 2 1 r (omega arith)
                                                      (omega arith) hr))))))))))))
  where
    two : Within 2 1 (from_integer (pos 2))
    two = record { den_pos = omega arith; not_negative = refl; at_most = omega arith }
