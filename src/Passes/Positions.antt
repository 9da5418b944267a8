-- ===== src/Passes/Positions.antt =====
-- The positions along a pass, `getPassPositions` of src/backend/prediction/passes.ts, and the
-- predictions with them.
use noaa_satellite_capture.Passes.Names.{is_named_for}
use noaa_satellite_capture.Passes.Doppler.{Arithmetic}
use noaa_satellite_capture.Base.{
  ℕ, ◌+◌, ◌-◌, ◌*◌, ◌≤◌, ◌<◌, ◌≡◌, refl, ap, subst, inl, inr, Option, some, List, [], ◌∷◌, ◌++◌,
  map, arith, Option-cases, length, length-append, find, All, All-append, for_instants_inv,
}
use noaa_satellite_capture.Types.{
  Coordinates, SatelliteInfo, TwoLineElement, SatellitePosition, SatellitePass,
}
use noaa_satellite_capture.Orbit.{
  SatelliteJs, Observer, create_observer, compute_look_angles, propagated, get_satellite_position,
}
use noaa_satellite_capture.Passes.{
  PredictionOptions, PassPrediction, push_position, predict_passes, get_pass_positions, prediction,
  predict_passes_with_doppler,
}

abbrev pub IsWithin : ℕ → ℕ → SatellitePosition → Type 0
IsWithin first last p = (first ≤ p.timestamp) × (p.timestamp ≤ last)

-- The positions that the loop has collected when it stands at `c`.
abbrev IsWalked : ℕ → ℕ → ℕ → ℕ → List SatellitePosition → Type 0
IsWalked first last step c ps =
    (first ≤ c) × (c ≤ last + step) × All (IsWithin first last) ps × (first + length ps * step ≤ c)

push_position-IsWalked :
    (position_at : ℕ → Option SatellitePosition)
    → ((c : ℕ) (p : SatellitePosition) → position_at c ≡ some p → p.timestamp ≡ c)
    → (first last step c : ℕ) (ps : List SatellitePosition) → c ≤ last
    → IsWalked first last step c ps
    → IsWalked first last step (c + step) (push_position position_at c ps)
unfolding push_position
push_position-IsWalked position_at at first last step c ps le (from, to, inside, count) =
    elim (Option-cases (position_at c)) [
      | inl e ↦ rw (e, push_position) (omega arith, omega arith, inside, omega arith)
      | inr (p, e) ↦
          let stamp = at c p e in
          let here : IsWithin first last p =
            (omega (arith, stamp, from), omega (arith, stamp, le)) in
          let more : length (ps ++ p ∷ []) ≡ length ps + 1 = length-append ps (p ∷ []) in
          rw (e, push_position)
            (
              omega arith,
              omega arith,
              All-append (IsWithin first last) ps (p ∷ []) inside (here, tt),
              rw more (grind arith),
            )
    ]

module _ (lib : SatelliteJs) where
  get_satellite_position-timestamp :
      (tle : TwoLineElement) (observer : Observer lib) (time : ℕ) (p : SatellitePosition)
      → get_satellite_position lib tle observer time ≡ some p
      → p.timestamp ≡ time
  unfolding get_satellite_position
  get_satellite_position-timestamp tle observer time p e =
      elim (Option-cases (propagated lib tle time)) [
        | inl k ↦ absurd (ground arith)
        | inr (v, k) ↦
            let same : compute_look_angles lib v observer time ≡ p = ground arith in
            subst (λ (q : SatellitePosition). q.timestamp ≡ time) same
              (unfold compute_look_angles in refl)
      ]

  -- With a step of at least a second, all positions stand at instants of the pass, and there are at
  -- most as many as steps fit in it, and one.
  get_pass_positions_lem :
      (tle : TwoLineElement) (pass : SatellitePass) (station : Coordinates) (step_seconds : ℕ)
      → 0 < step_seconds
      → pass.aos ≤ pass.los
      → All (IsWithin pass.aos pass.los) (get_pass_positions lib tle pass station step_seconds)
        × (length (get_pass_positions lib tle pass station step_seconds) * (step_seconds * 1000)
            ≤ pass.los - pass.aos + step_seconds * 1000)
  unfolding get_pass_positions
  get_pass_positions_lem tle pass station step_seconds h k =
      let observer = create_observer lib station in
      let position_at = get_satellite_position lib tle observer in
      let step = step_seconds * 1000 in
      let (c, past, walked) =
        for_instants_inv step pass.los (push_position position_at) (IsWalked pass.aos pass.los step)
          (λ c ps.
            push_position-IsWalked position_at (get_satellite_position-timestamp tle observer)
              pass.aos pass.los step c ps)
          pass.aos [] (omega (arith, h)) (omega arith, omega (arith, k), tt, omega arith) in
      let (from, to, inside, count) = walked in (inside, omega (arith, count, to))

  -- A prediction is for the pass that stands at its place among the predicted passes.
  map-pass :
      (ar : Arithmetic) (tles : List TwoLineElement) (station : Coordinates)
      (passes : List SatellitePass)
      → map (λ (r : PassPrediction). r.pass) (map (prediction lib ar tles station) passes) ≡ passes
  unfolding prediction
  map-pass ar tles station [] = refl
  map-pass ar tles station (p ∷ ps) = elim (Option-cases (find (is_named_for p.satellite) tles)) [
    | inl e ↦ rw (e, prediction) (ap (λ z. p ∷ z) (map-pass ar tles station ps))
    | inr (t, e) ↦ rw (e, prediction) (ap (λ z. p ∷ z) (map-pass ar tles station ps))
  ]

  -- The predictions with the Doppler shift are for the predicted passes, in their order.
  pub map-predict_passes_with_doppler :
      (ar : Arithmetic) (sats : List SatelliteInfo) (tles : List TwoLineElement)
      (station : Coordinates) (o : PredictionOptions)
      → map
          (λ (r : PassPrediction). r.pass)
          (predict_passes_with_doppler lib ar sats tles station o)
        ≡ predict_passes lib sats tles station o
  unfolding predict_passes_with_doppler
  map-predict_passes_with_doppler ar sats tles station o =
      map-pass ar tles station (predict_passes lib sats tles station o)
