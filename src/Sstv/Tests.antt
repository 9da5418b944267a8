-- ===== src/Sstv/Tests.antt =====
-- A scan of src/backend/capture/sstv-scanner.ts that hears a signal, and its theorem at it.
use noaa_satellite_capture.Base.{
  ℕ, zero, suc, ◌*◌, ◌≡◌, false, Option, none, some, [], ◌∷◌, arith, ℤ, pos, neg,
}
use noaa_satellite_capture.Types.{CaptureResult}
use noaa_satellite_capture.StateManager.{initial}
use noaa_satellite_capture.Fft.Stream.{initial_stream}
use noaa_satellite_capture.Scheduler.{decodes, saves}
use noaa_satellite_capture.Sstv.{Ether, Scanner, scan_for_sstv}
use noaa_satellite_capture.Sstv.Laws.{scan_for_sstv_lem}

abbrev quiet_then_loud : ℕ → Option ℤ
quiet_then_loud zero = none
quiet_then_loud (suc i) = some (pos i)

abbrev band : Ether
band = record {
  clock = λ (i : ℕ). 500 * i;
  should_stop = λ (i : ℕ). false;
  max_power = quiet_then_loud;
  records_as = λ (i : ℕ). decodes "a.wav" (some ("a.png" ∷ []));
  progress = λ (i : ℕ). [];
}

abbrev scanner : Scanner
scanner = record {
  scan_is_running = false;
  world = record { manager = initial 0; stream = initial_stream; should_stop = false; saved = [] };
}

scan_for_sstv_lem_example :
    (t : Scanner) × (result : Option CaptureResult) × (scan_for_sstv band saves
        (neg 30_000)
        120
        scanner
      ≡ some (t, result))
scan_for_sstv_lem_example =
    let l = scan_for_sstv_lem band saves (neg 30_000) 120 scanner (λ i. omega arith) in
    (l.0, l.1, l.2)
