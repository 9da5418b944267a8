-- ===== src/AutoGain/Tests.antt =====
-- The calibration of src/middleware/web/auto-gain.ts over a few frames, and its theorems at them.
use noaa_satellite_capture.Base.{
  ◌≡◌, refl, true, List, [], ◌∷◌, arith, ℤ, pos, neg, ◌+ℤ◌, ◌-ℤ◌, ◌*ℤ◌,
}
use noaa_satellite_capture.AutoGain.{adjusted, default_config, AutoGain, median, feed}
use noaa_satellite_capture.AutoGain.Bounds.{IsCalibrating}
use noaa_satellite_capture.AutoGain.Verdicts.{with_frame, Explains, feed-Explains}

abbrev noisy : List ℤ
noisy = neg 20_000 ∷ neg 30_000 ∷ neg 10_000 ∷ []

-- One sample decides.
abbrev quick : AutoGain
quick = record {
  config = record default_config { samples_needed = 1 };
  state = record { enabled = true; current_gain = pos 20_000; samples = [] };
}

median_test : median noisy ≡ neg 20_000
unfolding median
median_test = refl

feed_test : (feed noisy quick).1 ≡ adjusted (pos 20_000) (pos 15_000)
unfolding feed median ◌+ℤ◌ ◌-ℤ◌ ◌*ℤ◌
feed_test = refl

quick-IsCalibrating : IsCalibrating quick
quick-IsCalibrating = omega arith

feed-Explains_example :
    Explains (with_frame noisy quick) quick (feed noisy quick).0 (feed noisy quick).1
feed-Explains_example = feed-Explains noisy quick (omega arith) (omega arith) (omega arith)
