-- ===== src/Fft/Tests.antt =====
-- The stream of src/backend/capture/fft-stream.ts over a few calls, and its theorems at them.

use noaa_satellite_capture.Base.{
  ℕ, ◌≡◌, refl, true, false, none, some, List, [], ◌∷◌, arith, length, ℤ, pos, neg,
}
use noaa_satellite_capture.Fft.{FftData, FftStreamConfig, NotchFilter}
use noaa_satellite_capture.Fft.Notch.Laws.{
  IsSeparate, NotchCall, adds, enables, apply_all, apply_all-empty-IsSeparate,
}
use noaa_satellite_capture.Fft.Stream.{FftStream, initial_stream}
use noaa_satellite_capture.Fft.Stream.Laws.{
  IsConsistent, starts, stops, run, run-initial_stream-IsConsistent,
}
use noaa_satellite_capture.Fft.Notch.Effect.{apply_notch_filters_lem}
use noaa_satellite_capture.Fft.Notch.{Grid, apply_notch_filters}
use noaa_satellite_capture.Fft.Frames.{Reader, Arithmetic}

abbrev wide : FftStreamConfig
wide = record {
  frequency = 145_500_000;
  bandwidth = 200_000;
  fft_size = 2;
  gain = pos 20_000;
  update_rate = 30;
}

abbrev streaming : FftStream
streaming = record initial_stream {
  sdr_process = some (record { pid = 7; killed = false });
  current_callback = some 1;
  current_config = some wide;
  is_running = true;
}

run-initial_stream-IsConsistent_example :
    IsConsistent (run ((1, starts wide 1 (some 7)) ∷ (2, stops) ∷ []) initial_stream)
run-initial_stream-IsConsistent_example =
    run-initial_stream-IsConsistent ((1, starts wide 1 (some 7)) ∷ (2, stops) ∷ [])

abbrev edits : List NotchCall
edits = adds 144_420_000 10_000 ∷ adds 144_420_500 5_000 ∷ enables 144_420_000 false ∷ []

apply_all-empty-IsSeparate_example : IsSeparate (apply_all edits [])
apply_all-empty-IsSeparate_example = apply_all-empty-IsSeparate edits

abbrev hum : NotchFilter
hum = record { frequency = 144_420_000; width = 10_000; enabled = true }

abbrev grid : Grid
grid = record { start_freq = 0; rate = 10; size = 1 }

abbrev spectrum : FftData
spectrum = record {
  timestamp = 1;
  center_freq = 20;
  bins = neg 90 ∷ neg 10 ∷ neg 80 ∷ [];
  min_power = neg 90;
  max_power = neg 10;
}

abbrev second_of : ℤ → ℤ → ℤ
second_of a b = b

apply_notch_filters_lem_example :
    length
      (apply_notch_filters second_of
        (record { frequency = 10; width = 2; enabled = true } ∷ [])
        grid
        spectrum).bins
    ≡ 3
apply_notch_filters_lem_example =
    (apply_notch_filters_lem second_of grid
      (record { frequency = 10; width = 2; enabled = true } ∷ []) spectrum 1 (neg 10) (omega arith)
      refl).0

abbrev ops : Arithmetic
ops = record {
  powers = λ (frame : List ℕ). neg 60 ∷ neg 70 ∷ [];
  smooth = λ (a b : List ℤ). b;
  mean = second_of;
}

abbrev reader : Reader
reader = record {
  buffer = 1 ∷ 2 ∷ [];
  last_update_time = 0;
  averaging_buffer = none;
  averaging_count = 0;
  emitted = [];
}
