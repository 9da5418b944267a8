-- ===== src/Sstv.antt =====
-- src/backend/capture/sstv-scanner.ts: the scan of two frequencies while no pass is near. What is
-- outside answers by a count of the awaits that have passed.
mod Progress
pub mod Laws
mod Tests
use noaa_satellite_capture.Base.{
  ℕ, zero, suc, ◌+◌, ◌*◌, String, Bool, true, false, not, ◌&&◌, ◌||◌, Option, none, some, List, [],
  ◌∷◌, leb, if◌then◌else◌, ℤ, pos, ◌-ℤ◌, ltb_ℤ, rounds,
}
use noaa_satellite_capture.Types.{
  sstv, SatelliteInfo, SatellitePass, CaptureResult, SystemStatus, idle, capturing, decoding,
  scanning, is_scanning,
}
use noaa_satellite_capture.Satellites.{signal_configs}
use noaa_satellite_capture.StateManager.{set_status, set_scanning_frequency}
use noaa_satellite_capture.Fft.Stream.{stop_fft_stream}
use noaa_satellite_capture.Scheduler.{
  Recording, recording_throws, decoding_throws, decodes, Saving, World, save_result_to_database,
  report_progress, or_no_paths,
}

abbrev pub sstv_scan_frequencies : List (ℕ × String)
sstv_scan_frequencies = (144_500_000, "2m SSTV Calling") ∷ (145_500_000, "2m SSTV Alt") ∷ []

unfoldable pub ground_sstv_info : ℕ → String → SatelliteInfo
ground_sstv_info frequency name = record {
  name = name;
  norad_id = 0;
  frequency = frequency;
  signal_type = sstv;
  signal_config = signal_configs sstv;
  enabled = true;
  event_based = false;
}

-- `Date.now()`, `shouldStop`, the highest power of the latest frame, and how a recording ends.
pub record Ether : Type 0 where
  pub clock : ℕ → ℕ
  pub should_stop : ℕ → Bool
  pub max_power : ℕ → Option ℤ
  pub records_as : ℕ → Recording
  pub progress : ℕ → List (ℕ × ℕ)

-- `isScanning`, and what the scan shares with the rest.
pub record Scanner : Type 0 where
  pub scan_is_running : Bool
  pub world : World

abbrev pub is_above : Option ℤ → ℤ → Bool
is_above none threshold = false
is_above (some power) threshold = ltb_ℤ threshold power

abbrev pub has_paths : List String → Bool
has_paths [] = false
has_paths (p ∷ ps) = true

abbrev pub set_world_status : ℕ → SystemStatus → World → World
set_world_status now status w = record w { manager = set_status now status w.manager }

abbrev pub sstv_result : ℕ → ℕ → SatelliteInfo → String → List String → CaptureResult
sstv_result start_time end_time info path paths = record {
  satellite = info;
  recording_path = path;
  image_paths = paths;
  start_time = start_time;
  end_time = end_time;
  max_signal_strength = pos 0;
  success = has_paths paths;
  error = none;
}

-- The row's pass: a ground station has no elevation; durations are milliseconds.
abbrev fake_pass : ℕ → ℕ → ℕ → SatelliteInfo → SatellitePass
fake_pass start_time end_time seconds info = record {
  satellite = info;
  aos = start_time;
  los = end_time;
  max_elevation = pos 90_000;
  max_elevation_time = start_time;
  duration = seconds * 1_000;
}

-- `result?.success`.
abbrev pub is_success : Option CaptureResult → Bool
is_success none = false
is_success (some r) = r.success

module _ (ether : Ether) (saving : Saving) (threshold : ℤ) (end_time seconds : ℕ) where
  -- `shouldStop || Date.now() >= endTime`.
  abbrev pub is_over : ℕ → Bool
  is_over i = ether.should_stop i || leb end_time (ether.clock i)

  -- The samples of a frequency: whether there is a signal, and the count of awaits after them.
  unfoldable pub dwell : ℕ → ℕ → Bool × ℕ
  dwell zero i = (false, i)
  dwell (suc samples) i =
      let (found, j) = dwell samples (i + 1) in
      if is_over i
      then (false, i)
      else if is_above (ether.max_power (i + 1)) threshold
      then (true, i + 1)
      else (found, j)

  -- `captureSstv`, whose recording ends at the await `i`.
  unfoldable pub capture_sstv : ℕ → SatelliteInfo → World → World × Option CaptureResult
  unfolding report_progress save_result_to_database
  capture_sstv i info w =
      let start_time = ether.clock i in
      let now = ether.clock (i + 1) in
      let recorded =
        report_progress now (ether.progress i) (set_world_status start_time capturing w) in
      let decoded = set_world_status now decoding recorded in
      elim (ether.records_as i) [
        | recording_throws message ↦ (set_world_status now idle recorded, none)
        | decoding_throws path message ↦ (set_world_status now idle decoded, none)
        | decodes path paths ↦
            let result = sstv_result start_time now info path (or_no_paths paths) in
            let pass = fake_pass start_time now seconds info in
            let saved = save_result_to_database saving result pass decoded in
            (set_world_status now idle saved, some result)
      ]

  -- The end of a frequency, after its samples: the result that ends the scan, the count of awaits,
  -- and the world.
  unfoldable pub after_dwell : SatelliteInfo → Bool → ℕ → World → Option CaptureResult × ℕ × World
  unfolding capture_sstv
  after_dwell info has_signal j w =
      let released = record w { stream = stop_fft_stream (ether.clock (j + 1)) w.stream } in
      let (captured, result) = capture_sstv (j + 2) info released in
      let again = set_world_status (ether.clock (j + 3)) scanning captured in
      if has_signal && not (ether.should_stop j)
      then (if is_success result then (result, j + 3, captured) else (none, j + 3, again))
      else (none, j, w)

  unfoldable pub scan_frequency : ℕ → String → ℕ → World → Option CaptureResult × ℕ × World
  scan_frequency frequency name i w =
      let tuned = record w {
        manager = set_scanning_frequency (ether.clock i) frequency name w.manager;
      } in
      let (has_signal, j) = dwell 40 i in
      after_dwell (ground_sstv_info frequency name) has_signal j tuned

  -- The `for` loop over the frequencies.
  unfoldable pub scan_frequencies : List (ℕ × String) → ℕ → World → Option CaptureResult × ℕ × World
  scan_frequencies [] i w = (none, i, w)
  scan_frequencies ((frequency, name) ∷ frequencies) i w =
      let (result, j, next) = scan_frequency frequency name i w in
      let rest = scan_frequencies frequencies j next in
      if is_over i then (none, i, w) else if is_success result then (result, j, next) else rest

  -- The `while` loop; `none` means that the rounds ran out.
  unfoldable pub scan_rounds : ℕ → ℕ → World → Option (Option CaptureResult × ℕ × World)
  scan_rounds zero i w = none
  scan_rounds (suc fuel) i w =
      let (result, j, next) = scan_frequencies sstv_scan_frequencies i w in
      let rest = scan_rounds fuel j next in
      if is_over i
      then some (none, i, w)
      else if is_success result
      then some (result, j, next)
      else rest

-- The `finally` block.
unfoldable pub scan_end : ℕ → World → Scanner
scan_end now w = record {
  scan_is_running = false;
  world = if is_scanning w.manager.state.status then set_world_status now idle w else w;
}

-- `scanForSstv`, from the await 0.
unfoldable pub scan_for_sstv :
    Ether → Saving → ℤ → ℕ → Scanner → Option (Scanner × Option CaptureResult)
scan_for_sstv ether saving min_signal seconds s =
    let threshold = min_signal -ℤ pos 5_000 in
    let now = ether.clock 0 in
    let end_time = now + seconds * 1_000 in
    let begun = set_world_status now scanning s.world in
    let rounds = scan_rounds ether saving threshold end_time seconds in
    if s.scan_is_running then some (s, none) else elim (rounds (suc (seconds * 1_000)) 0 begun) [
      | none ↦ none
      | some (result, i, w) ↦ some (scan_end (ether.clock i) w, result)
    ]
