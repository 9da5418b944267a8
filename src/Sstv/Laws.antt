-- ===== src/Sstv/Laws.antt =====
-- The scan of src/backend/capture/sstv-scanner.ts ends, and what it leaves.

use noaa_satellite_capture.Scheduler.{Saving, World}
use noaa_satellite_capture.Base.{
  ℕ, zero, suc, ◌+◌, ◌*◌, ◌<◌, String, ◌≡◌, refl, ◌≢◌, inl, inr, Bool, true, false, not, ◌&&◌,
  Option, none, some, List, [], ◌∷◌, arith, if◌then◌else◌, Bool-cases, ℤ, pos, ◌-ℤ◌,
}
use noaa_satellite_capture.Types.{SatelliteInfo, CaptureResult, SystemStatus, idle, scanning}
use noaa_satellite_capture.StateManager.{StateManager, set_status}
use noaa_satellite_capture.Fft.Stream.{stop_fft_stream}
use noaa_satellite_capture.Scheduler.Captures.{Recording-cases}
use noaa_satellite_capture.Sstv.Progress.{scan_rounds_total}
use noaa_satellite_capture.Sstv.{
  sstv_scan_frequencies, ground_sstv_info, Ether, Scanner, set_world_status, is_success, is_over,
  dwell, capture_sstv, after_dwell, scan_frequency, scan_frequencies, scan_rounds, scan_end,
  scan_for_sstv,
}

set_status-status :
    (now : ℕ) (st : SystemStatus) (m : StateManager) → (set_status now st m).state.status ≡ st
unfolding set_status
set_status-status now st m = ground arith

-- A result that ends a scan is a success, and has an image.
abbrev pub IsImaged : Option CaptureResult → Type 0
IsImaged none = Unit
IsImaged (some r) = (r.success ≡ true) × (r.image_paths ≢ [])

choose-IsImaged :
    (over good : Bool) (x y z : Option CaptureResult × ℕ × World)
    → IsImaged x.0
    → IsImaged y.0
    → IsImaged z.0
    → IsImaged (if over then x else if good then y else z).0
choose-IsImaged true good x y z h k l = h
choose-IsImaged false true x y z h k l = k
choose-IsImaged false false x y z h k l = l

module _ (ether : Ether) (fails : Saving) (threshold : ℤ) (end_time seconds : ℕ) where
  capture_sstv-IsImaged :
      (i : ℕ) (info : SatelliteInfo) (w : World)
      → let result = (capture_sstv ether fails threshold end_time seconds i info w).1 in
        is_success result ≡ true → IsImaged result
  unfolding capture_sstv
  capture_sstv-IsImaged i info w h = elim (Recording-cases (ether.records_as i)) [
    | inl (m, e) ↦ ground arith
    | inr (inl (path, m, e)) ↦ ground arith
    | inr (inr (path, paths, e)) ↦ ground arith
  ]

  after_dwell-IsImaged :
      (info : SatelliteInfo) (b : Bool) (j : ℕ) (w : World)
      → IsImaged (after_dwell ether fails threshold end_time seconds info b j w).0
  unfolding after_dwell
  after_dwell-IsImaged info b j w =
      let released = record w { stream = stop_fft_stream (ether.clock (j + 1)) w.stream } in
      let result = (capture_sstv ether fails threshold end_time seconds (j + 2) info released).1 in
      let imaged = capture_sstv-IsImaged (j + 2) info released in
      elim (Bool-cases (b && not (ether.should_stop j))) [
        | inr silent ↦ rw (silent, after_dwell) tt
        | inl signal ↦ elim (Bool-cases (is_success result)) [
          | inl good ↦ rw (signal, after_dwell, good) (imaged good)
          | inr bad ↦ rw (signal, after_dwell, bad) tt
        ]
      ]

  scan_frequency-IsImaged :
      (f : ℕ) (name : String) (i : ℕ) (w : World)
      → IsImaged (scan_frequency ether fails threshold end_time seconds f name i w).0
  unfolding scan_frequency
  scan_frequency-IsImaged f name i w =
      after_dwell-IsImaged (ground_sstv_info f name)
        (dwell ether fails threshold end_time seconds 40 i).0
        (dwell ether fails threshold end_time seconds 40 i).1 _

  scan_frequencies-IsImaged :
      (fs : List (ℕ × String)) (i : ℕ) (w : World)
      → IsImaged (scan_frequencies ether fails threshold end_time seconds fs i w).0
  unfolding scan_frequencies
  scan_frequencies-IsImaged [] i w = tt
  scan_frequencies-IsImaged ((f, name) ∷ fs) i w =
      let one = scan_frequency ether fails threshold end_time seconds f name i w in
      let first = scan_frequency-IsImaged f name i w in
      let rest = scan_frequencies-IsImaged fs one.1 one.2 in
      choose-IsImaged (is_over ether fails threshold end_time seconds i) (is_success one.0)
        (none, i, w) one (scan_frequencies ether fails threshold end_time seconds fs one.1 one.2) tt
        first rest

  scan_rounds-IsImaged :
      (fuel i : ℕ) (w : World) (x : Option CaptureResult × ℕ × World)
      → scan_rounds ether fails threshold end_time seconds fuel i w ≡ some x
      → IsImaged x.0
  unfolding scan_rounds
  scan_rounds-IsImaged zero i w x e = absurd (cc e)
  scan_rounds-IsImaged (suc fuel) i w x e =
      let one = scan_frequencies ether fails threshold end_time seconds sstv_scan_frequencies i w in
      let first = scan_frequencies-IsImaged sstv_scan_frequencies i w in
      elim (Bool-cases (is_over ether fails threshold end_time seconds i)) [
        | inl over ↦ let same : x ≡ (none, i, w) = ground arith in rw same tt
        | inr on ↦ elim (Bool-cases (is_success one.0)) [
          | inl good ↦ let same : x ≡ one = ground arith in rw same first
          | inr bad ↦ scan_rounds-IsImaged fuel one.1 one.2 x (ground arith)
        ]
      ]

scan_end-status : (now : ℕ) (w : World) → (scan_end now w).world.manager.state.status ≢ scanning
unfolding scan_end
scan_end-status now w = ground (arith, set_status-status now idle w.manager)

-- A scan while another runs changes nothing and gives no result. Else, where the clock moves on at
-- each await, the scan ends; then no scan runs and the status is not scanning. A result that a
-- scan gives is a success and has an image.
pub scan_for_sstv_lem :
    (ether : Ether) (fails : Saving) (min_signal : ℤ) (seconds : ℕ) (s : Scanner)
    → ((i : ℕ) → ether.clock i < ether.clock (i + 1))
    → (t : Scanner) × (result : Option CaptureResult) × (scan_for_sstv ether fails min_signal
          seconds s
        ≡ some (t, result))
      × (s.scan_is_running ≡ true → (t ≡ s) × (result ≡ none))
      × (s.scan_is_running ≡ false
          → (t.scan_is_running ≡ false) × (t.world.manager.state.status ≢ scanning))
      × IsImaged result
unfolding scan_for_sstv scan_end
scan_for_sstv_lem ether fails min_signal seconds s h =
    let threshold = min_signal -ℤ pos 5_000 in
    let end_time = ether.clock 0 + seconds * 1_000 in
    let begun = set_world_status (ether.clock 0) scanning s.world in
    let fuel = suc (seconds * 1_000) in
    let ((r, i, w), e) =
      scan_rounds_total ether fails threshold end_time seconds fuel 0 begun h (omega arith) in
    let imaged =
      scan_rounds-IsImaged ether fails threshold end_time seconds fuel 0 begun (r, i, w) e in
    elim (Bool-cases s.scan_is_running) [
      | inl busy ↦ (s, none, ground arith, λ t. (refl, refl), λ f. absurd (cc (busy, f)), tt)
      | inr free ↦ (
        scan_end (ether.clock i) w,
        r,
        rw (free, scan_for_sstv, e) refl,
        λ t. absurd (cc (free, t)),
        λ f. (refl, scan_end-status (ether.clock i) w),
        imaged,
      )
    ]
