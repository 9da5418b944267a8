-- ===== src/Orbit/FindPasses/Laws.antt =====
-- What `findPasses` of src/backend/prediction/orbit.ts returns.
use noaa_satellite_capture.Base.{
  ℕ, ◌*◌, ◌<◌, ◌≡◌, refl, inl, some, arith, All, ℤ, sample, rounds, for_instants, for_instants_lem,
  for_instants_inv,
}
use noaa_satellite_capture.Types.{SatelliteInfo, TwoLineElement}
use noaa_satellite_capture.Orbit.{SatelliteJs, Observer, get_satellite_position}
use noaa_satellite_capture.Orbit.FindPasses.{Search, new_search, visit, find_passes}
use noaa_satellite_capture.Orbit.FindPasses.Invariant.{IsChronological, Walk, IsSound, Inv}
use noaa_satellite_capture.Orbit.FindPasses.Steps.{visit-Inv}

module _ (walk : Walk) where
  open walk use {position_at, sat, start_time, end_time, min_elevation, step}

  new_search-Inv : 0 < step → Inv walk start_time new_search
  unfolding new_search
  new_search-Inv h = record {
    instant = (0, omega arith);
    sound = tt;
    ordered = tt;
    before = tt;
    phase = inl (refl, λ b e after. absurd (omega arith));
  }

  walked-Inv :
      0 < step
      → (c : ℕ) × (end_time < c)
        × Inv walk c
            (for_instants step end_time (visit sat min_elevation position_at) start_time new_search)
  walked-Inv h =
      for_instants_inv step end_time (visit sat min_elevation position_at) (Inv walk)
        (λ c s inside v. visit-Inv walk c s h inside v) start_time new_search h (new_search-Inv h)

module _ (lib : SatelliteJs) (tle : TwoLineElement) (sat : SatelliteInfo) (observer : Observer lib)
    (start_time end_time : ℕ) (min_elevation : ℤ) (step_seconds : ℕ) where
  -- The walk that `findPasses` makes.
  abbrev pub walk_of : Walk
  walk_of = record {
    position_at = get_satellite_position lib tle observer;
    sat = sat;
    start_time = start_time;
    end_time = end_time;
    min_elevation = min_elevation;
    step = step_seconds * 1000;
  }

  -- With a positive step, each pass that is found is of the satellite asked for, lies in the
  -- window and lasts 240 to 1200 seconds; at its start the satellite stands above the elevation,
  -- and at the instant before, if that is visited and has a position, it does not; at its end it
  -- does not; at each instant between that has a position it does, and no higher than the
  -- culmination, which is one of these instants. And each pass ends before the next one starts.
  pub find_passes-IsSound :
      0 < step_seconds
      → All
          (IsSound walk_of)
          (find_passes lib tle sat observer start_time end_time min_elevation step_seconds)
        × IsChronological
            (find_passes lib tle sat observer start_time end_time min_elevation step_seconds)
  unfolding find_passes
  find_passes-IsSound h =
      let (c, past, v) = walked-Inv walk_of (omega arith) in (v.sound, v.ordered)

  -- With a positive step the walk of `findPasses` visits each instant of the window and ends: the
  -- rounds that it is given do not run out.
  pub find_passes-terminates :
      0 < step_seconds
      → (s : Search) × (sample
            (step_seconds * 1000)
            end_time
            (visit sat min_elevation (get_satellite_position lib tle observer))
            (rounds
              (step_seconds * 1000)
              end_time
              (visit sat min_elevation (get_satellite_position lib tle observer))
              start_time)
            start_time
            new_search
          ≡ some s)
        × (find_passes lib tle sat observer start_time end_time min_elevation step_seconds
            ≡ s.passes)
  unfolding find_passes
  find_passes-terminates h = (
    _,
    for_instants_lem (step_seconds * 1000) end_time
        (visit sat min_elevation (get_satellite_position lib tle observer)) start_time new_search
        (omega arith),
    refl,
  )
