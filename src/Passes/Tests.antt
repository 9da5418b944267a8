-- ===== src/Passes/Tests.antt =====
-- The theorems of the passes at a satellite that stands at 30 degrees between two instants.

use noaa_satellite_capture.Base.{
  ℕ, ◌≡◌, refl, some, List, [], ◌∷◌, length, find, pos, ◌-ℤ◌, IsSorted,
}
use noaa_satellite_capture.Types.{Coordinates, TwoLineElement, SatellitePosition, SatellitePass}
use noaa_satellite_capture.Satellites.{meteor_n2_3, meteor_n2_4}
use noaa_satellite_capture.Orbit.Tests.{flat}
use noaa_satellite_capture.Passes.Names.{normal_name, norad_of_line, is_tle_of}
use noaa_satellite_capture.Passes.Doppler.{Arithmetic, calculate_doppler_shift}
use noaa_satellite_capture.Passes.Doppler.Laws.{calculate_doppler_shift_lem}
use noaa_satellite_capture.Passes.Laws.{predict_passes_lem, is_tle_of_shared_prefix}
use noaa_satellite_capture.Passes.{PredictionOptions, predict_passes}

abbrev elements_3 : TwoLineElement
elements_3 = record { name = "METEOR-M N2-3"; line1 = "1 57166"; line2 = "2 57166" }

abbrev elements_4 : TwoLineElement
elements_4 = record { name = "METEOR-M N2-4"; line1 = "1 59051"; line2 = "2 59051" }

abbrev here : Coordinates
here = record { latitude = pos 51; longitude = pos 0; altitude = pos 10 }

abbrev options : PredictionOptions
options = record { start_time = 820_000; hours_ahead = 1; min_elevation = pos 20_000 }

abbrev arithmetic : Arithmetic
arithmetic = record { velocity = λ r t. r; shift_at = λ f v. pos 0 -ℤ v }

abbrev at_time : ℕ → ℕ → SatellitePosition
at_time t r = record { azimuth = pos 0; elevation = pos 30; range_sat = pos r; timestamp = t }

abbrev three_positions : List SatellitePosition
three_positions = at_time 1000 900 ∷ at_time 2000 850 ∷ at_time 3000 870 ∷ []

abbrev the_pass : SatellitePass
the_pass = record {
  satellite = meteor_n2_3;
  aos = 1_000_000;
  los = 1_060_000;
  max_elevation = pos 30_000;
  max_elevation_time = 1_000_000;
  duration = 60_000;
}

norad_of_line_test : norad_of_line "1 25544U 98067A" ≡ some 25544
unfolding norad_of_line
norad_of_line_test = refl

-- The elements of the one satellite are taken for the other.
is_tle_of_shared_prefix_example :
    find (is_tle_of meteor_n2_4) (elements_3 ∷ elements_4 ∷ []) ≡ some elements_3
is_tle_of_shared_prefix_example =
    is_tle_of_shared_prefix meteor_n2_3 meteor_n2_4 elements_3 (elements_4 ∷ [])
      (unfold normal_name in refl) (unfold normal_name in refl)

predict_passes_lem_example :
    IsSorted
      (λ (p : SatellitePass). p.aos)
      (predict_passes flat (meteor_n2_3 ∷ []) (elements_3 ∷ []) here options)
predict_passes_lem_example =
    (predict_passes_lem flat (meteor_n2_3 ∷ []) (elements_3 ∷ []) here options).0

calculate_doppler_shift_lem_example :
    length (calculate_doppler_shift arithmetic 137_900_000 three_positions).points ≡ 3
calculate_doppler_shift_lem_example =
    (calculate_doppler_shift_lem arithmetic 137_900_000 three_positions).0
