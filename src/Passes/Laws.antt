-- ===== src/Passes/Laws.antt =====
-- What src/backend/prediction/passes.ts predicts.
use noaa_satellite_capture.Base.{
  ℕ, zero, suc, ◌≡◌, refl, sym, subst, ◌↔◌, inl, inr, true, none, some, List, [], ◌∷◌, map, Perm,
  arith, Option-cases, take, find, In, In-append, In-map, In-map_to, IsSorted, sort_by-IsSorted,
  sort_by-perm, In-sort_by,
}
use noaa_satellite_capture.Types.{Coordinates, SatelliteInfo, TwoLineElement, SatellitePass}
use noaa_satellite_capture.Orbit.{SatelliteJs, Observer, create_observer}
use noaa_satellite_capture.Orbit.FindPasses.{find_passes, default_step_seconds}
use noaa_satellite_capture.Orbit.Refine.{refine_pass_timing}
use noaa_satellite_capture.Passes.Names.{has_prefix, includes_codes, normal_name, is_tle_of}
use noaa_satellite_capture.Passes.{PredictionOptions, end_of, passes_of, all_passes, predict_passes}

module _ (lib : SatelliteJs) (tles : List TwoLineElement) (observer : Observer lib)
    (o : PredictionOptions) where
  -- A pass is the refinement of one that the search finds for the satellite, with the element set
  -- that is chosen for it.
  unfoldable pub IsPassOf : SatelliteInfo → SatellitePass → Type 0
  IsPassOf sat p =
      (tle : TwoLineElement) × (found : SatellitePass) × (find (is_tle_of sat) tles ≡ some tle)
      × In found (
          find_passes lib tle sat observer o.start_time (end_of o) o.min_elevation
            default_step_seconds)
      × (refine_pass_timing lib tle found observer o.min_elevation ≡ p)

  passes_of-none :
      (sat : SatelliteInfo)
      → find (is_tle_of sat) tles ≡ none
      → passes_of lib tles observer o sat ≡ []
  unfolding passes_of
  passes_of-none sat e = rw (e, passes_of)

  passes_of-some :
      (sat : SatelliteInfo) (tle : TwoLineElement)
      → find (is_tle_of sat) tles ≡ some tle
      → passes_of lib tles observer o sat
        ≡ map
            (λ found. refine_pass_timing lib tle found observer o.min_elevation)
            (find_passes lib tle sat observer o.start_time
              (end_of o)
              o.min_elevation
              default_step_seconds)
  unfolding passes_of
  passes_of-some sat tle e = rw (e, passes_of)

  In-passes_of :
      (sat : SatelliteInfo) (p : SatellitePass)
      → In p (passes_of lib tles observer o sat)
      → IsPassOf sat p
  unfolding IsPassOf
  In-passes_of sat p i = elim (Option-cases (find (is_tle_of sat) tles)) [
    | inl e ↦ absurd (rw (passes_of-none sat e) at i)
    | inr (tle, e) ↦
        let (found, j, r) =
          In-map (λ found. refine_pass_timing lib tle found observer o.min_elevation)
            (find_passes lib tle sat observer o.start_time (end_of o) o.min_elevation
              default_step_seconds)
            p (rw (passes_of-some sat tle e) at i) in
        (tle, found, e, j, r)
  ]

  In-passes_of_to :
      (sat : SatelliteInfo) (p : SatellitePass)
      → IsPassOf sat p
      → In p (passes_of lib tles observer o sat)
  unfolding IsPassOf
  In-passes_of_to sat p (tle, found, e, j, r) =
      rw (passes_of-some sat tle e, sym r)
        (In-map_to (λ found. refine_pass_timing lib tle found observer o.min_elevation)
          (find_passes lib tle sat observer o.start_time (end_of o) o.min_elevation
            default_step_seconds)
          found j)

  In-all_passes :
      (sats : List SatelliteInfo) (p : SatellitePass)
      → In p (all_passes lib sats tles observer o)
        ↔ ((sat : SatelliteInfo) × In sat sats × IsPassOf sat p)
  unfolding all_passes
  In-all_passes [] p = (λ i. absurd i, λ (sat, i, h). absurd i)
  In-all_passes (sat ∷ sats) p =
      let split =
        In-append (passes_of lib tles observer o sat) (all_passes lib sats tles observer o) p in
      let rest = In-all_passes sats p in
      (
        λ i. elim (split.0 i) [
          | inl here ↦ (sat, inl refl, In-passes_of sat p here)
          | inr there ↦ let (other, j, h) = rest.0 there in (other, inr j, h)
        ],
        λ (other, i, h). split.1 (elim i [
          | inl e ↦ inl (In-passes_of_to sat p (subst (λ z. IsPassOf z p) (sym e) h))
          | inr j ↦ inr (rest.1 (other, j, h))
        ]),
      )

-- The predicted passes are in the order of their rises, and are exactly the refined passes that the
-- search finds for the satellites that an element set is chosen for, each as often as it is found.
pub predict_passes_lem :
    (lib : SatelliteJs) (sats : List SatelliteInfo) (tles : List TwoLineElement)
    (station : Coordinates) (o : PredictionOptions)
    → IsSorted (λ (p : SatellitePass). p.aos) (predict_passes lib sats tles station o)
      × Perm
          (predict_passes lib sats tles station o)
          (all_passes lib sats tles (create_observer lib station) o)
      × ((p : SatellitePass)
          → In p (predict_passes lib sats tles station o) ↔ (
              (sat : SatelliteInfo) × In sat sats
              × IsPassOf lib tles (create_observer lib station) o sat p))
unfolding predict_passes
predict_passes_lem lib sats tles station o =
    let passes = all_passes lib sats tles (create_observer lib station) o in
    (
      sort_by-IsSorted (λ p. p.aos) passes,
      sort_by-perm (λ p. p.aos) passes,
      λ p.
          let here = In-sort_by (λ (q : SatellitePass). q.aos) p passes in
          let there = In-all_passes lib tles (create_observer lib station) o sats p in
          (λ i. there.0 (here.0 i), λ h. here.1 (there.1 h)),
    )

-- Every code point of a prefix stands there.
has_prefix-take : (n : ℕ) (xs : List ℕ) → has_prefix xs (take n xs) ≡ true
has_prefix-take zero [] = refl
has_prefix-take zero (x ∷ xs) = refl
has_prefix-take (suc n) [] = refl
has_prefix-take (suc n) (x ∷ xs) = ground (arith, has_prefix-take n xs)

includes_codes-take : (n : ℕ) (xs : List ℕ) → includes_codes xs (take n xs) ≡ true
unfolding includes_codes
includes_codes-take n [] = has_prefix-take n []
includes_codes-take n (x ∷ xs) = ground (arith, has_prefix-take n (x ∷ xs))

-- For satellites whose names, without case and white space, begin with the same eight characters,
-- the first element set decides: that of one of them at the head of the list is chosen for the
-- other too, whatever its number is and whatever comes later.
pub is_tle_of_shared_prefix :
    (a b : SatelliteInfo) (t : TwoLineElement) (rest : List TwoLineElement)
    → take 8 (normal_name a.name) ≡ take 8 (normal_name b.name)
    → normal_name t.name ≡ normal_name a.name
    → find (is_tle_of b) (t ∷ rest) ≡ some t
unfolding is_tle_of
is_tle_of_shared_prefix a b t rest h k =
    let shared : includes_codes (normal_name t.name) (take 8 (normal_name b.name)) ≡ true =
      rw (sym h, k) (includes_codes-take 8 (normal_name a.name)) in
    ground (arith, shared)
