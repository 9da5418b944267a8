-- ===== src/Orbit/Tests.antt =====
-- A satellite that stands at 30 degrees between two instants, and the theorems of
-- src/backend/prediction/orbit.ts at it.
use noaa_satellite_capture.Base.{
  ℕ, ◌+◌, ◌≡◌, refl, sym, subst, inl, ◌&&◌, some, [], ◌∷◌, arith, leb, if◌then◌else◌, All, In, ℤ,
  pos, for_instants,
}
use noaa_satellite_capture.Types.{TwoLineElement, SatellitePosition, SatellitePass}
use noaa_satellite_capture.Satellites.{meteor_n2_3}
use noaa_satellite_capture.Orbit.{SatelliteJs, Observer, get_satellite_position}
use noaa_satellite_capture.Orbit.FindPasses.{
  new_search, begin_pass, follow_pass, end_pass, leave_pass, visit_position, find_passes,
}
use noaa_satellite_capture.Orbit.FindPasses.Invariant.{IsChronological, IsSound}
use noaa_satellite_capture.Orbit.FindPasses.Laws.{walk_of, find_passes-IsSound}
use noaa_satellite_capture.Orbit.Refine.{refine_pass_timing}
use noaa_satellite_capture.Orbit.Refine.Laws.{
  refine_pass_timing-IsRefined, refine_pass_timing_widens,
}

-- A vector is the instant that it stands for.
abbrev pub flat : SatelliteJs
flat = record {
  SatRec = Unit {0};
  EciVec = ℕ;
  EcfVec = ℕ;
  Gmst = ℕ;
  Angle = ℤ;
  twoline2satrec = λ a b. some tt;
  propagate = λ r t. some (some t);
  gstime = λ t. t;
  eci_to_ecf = λ v g. v;
  look_azimuth = λ o v. pos 0;
  look_elevation = λ o v. if leb 1_000_000 v && leb v 1_600_000 then pos 30_000 else pos 0;
  look_range = λ o v. pos 900;
  geodetic_latitude = λ v g. pos 0;
  geodetic_longitude = λ v g. pos 0;
  geodetic_height = λ v g. pos 820;
  degrees_lat = λ a. a;
  degrees_long = λ a. a;
  times_rad_to_deg = λ a. a;
  times_deg_to_rad = λ a. a;
}

abbrev elements : TwoLineElement
elements = record { name = "METEOR-M N2-3"; line1 = "1 57166"; line2 = "2 57166" }

abbrev station : Observer flat
station = (pos 0, pos 51, pos 10)

abbrev found : SatellitePass
found = record {
  satellite = meteor_n2_3;
  aos = 1_000_000;
  los = 1_660_000;
  max_elevation = pos 30_000;
  max_elevation_time = 1_000_000;
  duration = 660_000;
}

found_test :
    find_passes flat elements meteor_n2_3 station 820_000 1_900_000 (pos 20_000) 60 ≡ found ∷ []
unfolding find_passes for_instants new_search visit_position begin_pass follow_pass leave_pass
    end_pass get_satellite_position
found_test = refl

find_passes-IsSound_example :
    All
      (IsSound (walk_of flat elements meteor_n2_3 station 820_000 1_900_000 (pos 20_000) 60))
      (find_passes flat elements meteor_n2_3 station 820_000 1_900_000 (pos 20_000) 60)
    × IsChronological
        (find_passes flat elements meteor_n2_3 station 820_000 1_900_000 (pos 20_000) 60)
find_passes-IsSound_example =
    find_passes-IsSound flat elements meteor_n2_3 station 820_000 1_900_000 (pos 20_000) 60
      (omega arith)

refine_pass_timing-IsRefined_example :
    (refine_pass_timing flat elements found station (pos 20_000)).satellite ≡ meteor_n2_3
refine_pass_timing-IsRefined_example =
    (refine_pass_timing-IsRefined flat elements found station (pos 20_000) (omega arith)
      (omega arith)).0

abbrev low_at : ℕ → SatellitePosition
low_at t = record { azimuth = pos 0; elevation = pos 0; range_sat = pos 900; timestamp = t }

refine_pass_timing_widens_example :
    let refined = refine_pass_timing flat elements found station (pos 20_000) in
    (refined.aos + 59_000 ≡ 1_000_000) × (refined.los ≡ 1_719_000)
unfolding get_satellite_position
refine_pass_timing_widens_example =
    refine_pass_timing_widens flat elements found station (pos 20_000) meteor_n2_3 820_000 1_900_000
      (low_at 940_000) (low_at 1_720_000) (subst (In found) (sym found_test) (inl refl))
      (omega arith) refl refl (omega arith)
