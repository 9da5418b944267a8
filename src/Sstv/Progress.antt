-- ===== src/Sstv/Progress.antt =====
-- The scan of src/backend/capture/sstv-scanner.ts goes on in time, and so ends.

use noaa_satellite_capture.Base.{
  ℕ, zero, suc, ◌+◌, ◌-◌, ◌≤◌, ◌<◌, String, ◌≡◌, refl, sym, subst, ◌∙◌, inl, inr, Bool, true, false,
  not, ◌&&◌, Option, none, some, List, [], ◌∷◌, arith, if◌then◌else◌, Bool-cases, ℤ,
}
use noaa_satellite_capture.Types.{SatelliteInfo, CaptureResult}
use noaa_satellite_capture.Scheduler.{Saving, World}
use noaa_satellite_capture.Sstv.{
  sstv_scan_frequencies, ground_sstv_info, Ether, is_above, is_success, is_over, dwell, after_dwell,
  scan_frequency, scan_frequencies, scan_rounds,
}

module _ (ether : Ether) (fails : Saving) (threshold : ℤ) (end_time seconds : ℕ) where
  abbrev pub Advances : Type 0
  Advances = (i : ℕ) → ether.clock i < ether.clock (i + 1)

  clock_mono : (h : Advances) (i k : ℕ) → ether.clock i + k ≤ ether.clock (i + k)
  clock_mono h i zero = ground arith
  clock_mono h i (suc k) =
      let step = h (i + k) in
      let rest = clock_mono h i k in
      let same : i + suc k ≡ i + k + 1 = omega arith in rw same (omega arith)

  dwell_from : (n i : ℕ) → (k : ℕ) × ((dwell ether fails threshold end_time seconds n i).1 ≡ i + k)
  unfolding dwell
  dwell_from zero i = (0, omega arith)
  dwell_from (suc n) i =
      let (k, e) = dwell_from n (i + 1) in
      elim (Bool-cases (is_over ether fails threshold end_time seconds i)) [
        | inl over ↦ (0, ground arith)
        | inr on ↦ elim (Bool-cases (is_above (ether.max_power (i + 1)) threshold)) [
          | inl found ↦ (1, ground arith)
          | inr silent ↦ (suc k, ground arith)
        ]
      ]

  dwell_moves :
      (n i : ℕ)
      → is_over ether fails threshold end_time seconds i ≡ false
      → (k : ℕ) × ((dwell ether fails threshold end_time seconds (suc n) i).1 ≡ i + suc k)
  unfolding dwell
  dwell_moves n i on =
      let (k, e) = dwell_from n (i + 1) in
      elim (Bool-cases (is_above (ether.max_power (i + 1)) threshold)) [
        | inl found ↦ (0, ground arith)
        | inr silent ↦ (k, ground arith)
      ]

  after_dwell_from :
      (info : SatelliteInfo) (b : Bool) (j : ℕ) (w : World)
      → (k : ℕ) × ((after_dwell ether fails threshold end_time seconds info b j w).1 ≡ j + k)
  unfolding after_dwell
  after_dwell_from info b j w = elim (Bool-cases (b && not (ether.should_stop j))) [
    | inl signal ↦ (3, ground arith)
    | inr silent ↦ (0, ground arith)
  ]

  scan_frequency_from :
      (f : ℕ) (name : String) (i : ℕ) (w : World)
      → (k : ℕ) × ((scan_frequency ether fails threshold end_time seconds f name i w).1 ≡ i + k)
  unfolding scan_frequency
  scan_frequency_from f name i w =
      let (k, e) = dwell_from 40 i in
      let (l, g) =
        after_dwell_from (ground_sstv_info f name)
          (dwell ether fails threshold end_time seconds 40 i).0
          (dwell ether fails threshold end_time seconds 40 i).1 _ in
      (k + l, g ∙ omega (arith, e))

  scan_frequency_moves :
      (f : ℕ) (name : String) (i : ℕ) (w : World)
      → is_over ether fails threshold end_time seconds i ≡ false
      → (k : ℕ) × ((scan_frequency ether fails threshold end_time seconds f name i w).1 ≡ i + suc k)
  unfolding scan_frequency
  scan_frequency_moves f name i w on =
      let (k, e) = dwell_moves 39 i on in
      let (l, g) =
        after_dwell_from (ground_sstv_info f name)
          (dwell ether fails threshold end_time seconds 40 i).0
          (dwell ether fails threshold end_time seconds 40 i).1 _ in
      (k + l, g ∙ omega (arith, e))

  scan_frequencies_from :
      (fs : List (ℕ × String)) (i : ℕ) (w : World)
      → (k : ℕ) × ((scan_frequencies ether fails threshold end_time seconds fs i w).1 ≡ i + k)
  unfolding scan_frequencies
  scan_frequencies_from [] i w = (0, omega arith)
  scan_frequencies_from ((f, name) ∷ fs) i w =
      let (k, e) = scan_frequency_from f name i w in
      let one = scan_frequency ether fails threshold end_time seconds f name i w in
      let (l, g) = scan_frequencies_from fs one.1 one.2 in
      elim (Bool-cases (is_over ether fails threshold end_time seconds i)) [
        | inl over ↦ (0, ground arith)
        | inr on ↦ elim (Bool-cases (is_success one.0)) [
          | inl good ↦ (k, ground arith)
          | inr bad ↦ (k + l, ground arith)
        ]
      ]

  scan_frequencies_moves :
      (f : ℕ) (name : String) (fs : List (ℕ × String)) (i : ℕ) (w : World)
      → is_over ether fails threshold end_time seconds i ≡ false
      → (k : ℕ) × ((scan_frequencies ether fails threshold end_time seconds ((f, name) ∷ fs) i w).1
          ≡ i + suc k)
  unfolding scan_frequencies
  scan_frequencies_moves f name fs i w on =
      let (k, e) = scan_frequency_moves f name i w on in
      let one = scan_frequency ether fails threshold end_time seconds f name i w in
      let (l, g) = scan_frequencies_from fs one.1 one.2 in
      elim (Bool-cases (is_success one.0)) [
        | inl good ↦ (k, ground arith)
        | inr bad ↦ (k + l, ground arith)
      ]

  not_over :
      (i : ℕ) → is_over ether fails threshold end_time seconds i ≡ false → ether.clock i < end_time
  not_over i on = ground arith

  -- What the loop does in a round that goes on.
  scan_rounds_step :
      (fuel i : ℕ) (w : World)
      → is_over ether fails threshold end_time seconds i ≡ false
      → let one =
          scan_frequencies ether fails threshold end_time seconds sstv_scan_frequencies i w in
        scan_rounds ether fails threshold end_time seconds (suc fuel) i w ≡ (
          if is_success one.0
          then some one
          else scan_rounds ether fails threshold end_time seconds fuel one.1 one.2)
  unfolding scan_rounds
  scan_rounds_step fuel i w on = rw (on, scan_rounds) refl

  choose_total :
      (b : Bool) (x : Option CaptureResult × ℕ × World)
      (y : Option (Option CaptureResult × ℕ × World))
      → ((z : Option CaptureResult × ℕ × World) × (y ≡ some z))
      → (z : Option CaptureResult × ℕ × World) × ((if b then some x else y) ≡ some z)
  choose_total true x y h = (x, refl)
  choose_total false x y h = h

  -- A round that goes on takes time, so the milliseconds that are left are rounds enough.
  pub scan_rounds_total :
      (fuel i : ℕ) (w : World)
      → Advances
      → end_time - ether.clock i < fuel
      → (x : Option CaptureResult × ℕ × World) × (scan_rounds ether fails threshold end_time seconds
            fuel i w
          ≡ some x)
  scan_rounds_total zero i w h l = absurd (omega arith)
  scan_rounds_total (suc fuel) i w h l =
      elim (Bool-cases (is_over ether fails threshold end_time seconds i)) [
        | inl over ↦ ((none, i, w), unfold scan_rounds in rw (over, scan_rounds) refl)
        | inr on ↦
            let one =
              scan_frequencies ether fails threshold end_time seconds sstv_scan_frequencies i w in
            let (k, e) =
              scan_frequencies_moves 144_500_000 "2m SSTV Calling"
                ((145_500_000, "2m SSTV Alt") ∷ []) i w on in
            let later = clock_mono h i (suc k) in
            let running = not_over i on in
            let next : end_time - ether.clock (i + suc k) < fuel = omega arith in
            let less = subst (λ (j : ℕ). end_time - ether.clock j < fuel) (sym e) next in
            let rest = scan_rounds_total fuel one.1 one.2 h less in
            let (x, f) =
              choose_total (is_success one.0) one
                (scan_rounds ether fails threshold end_time seconds fuel one.1 one.2) rest in
            (x, scan_rounds_step fuel i w on ∙ f)
      ]
