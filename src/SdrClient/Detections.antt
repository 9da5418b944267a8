-- ===== src/SdrClient/Detections.antt =====
-- What the client's signal check makes of the two powers that the relay answers.
use noaa_satellite_capture.Base.{
  suc, ◌*◌, ◌≤◌, ◌≡◌, refl, ap, ◌↔◌, Bool, true, false, List, [], ◌∷◌, map, arith, length, filter,
  ℤ, neg, ◌≤ℤ◌, ◌<ℤ◌,
}
use noaa_satellite_capture.SdrClient.Checker.{
  checked, relay_check, check_signal_strength, count_successes, verify_signal,
}

count_successes-relay :
    (min_strength : ℤ) (detections : List Bool)
    → neg 50_000 ≤ℤ min_strength
    → min_strength <ℤ neg 20_000
    → count_successes min_strength (map (λ d. checked (relay_check d)) detections)
      ≡ length (filter (λ (d : Bool). d) detections)
unfolding count_successes check_signal_strength relay_check
count_successes-relay min_strength [] h k = refl
count_successes-relay min_strength (true ∷ ds) h k =
    ground (arith, count_successes-relay min_strength ds h k)
count_successes-relay min_strength (false ∷ ds) h k =
    ground (arith, count_successes-relay min_strength ds h k)

length-answers :
    (detections : List Bool)
    → length (map (λ (d : Bool). checked (relay_check d)) detections) ≡ length detections
length-answers [] = refl
length-answers (d ∷ ds) = ap suc (length-answers ds)

count_successes-low :
    (min_strength : ℤ) (detections : List Bool)
    → min_strength <ℤ neg 50_000
    → count_successes min_strength (map (λ d. checked (relay_check d)) detections)
      ≡ length detections
unfolding count_successes check_signal_strength relay_check
count_successes-low min_strength [] h = refl
count_successes-low min_strength (true ∷ ds) h =
    ground (arith, count_successes-low min_strength ds h)
count_successes-low min_strength (false ∷ ds) h =
    ground (arith, count_successes-low min_strength ds h)

-- Through the relay, with a threshold from -50 dB to below -20 dB, a signal is verified just when the
-- relay detects it in at least half of the attempts; below -50 dB it is verified whatever the
-- relay detects.
verify_signal-relay_check :
    (min_strength : ℤ) (detections : List Bool)
    → let answers = map (λ (d : Bool). checked (relay_check d)) detections in
      (neg 50_000 ≤ℤ min_strength
        → min_strength <ℤ neg 20_000
        → verify_signal min_strength answers ≡ true
          ↔ length detections ≤ 2 * length (filter (λ (d : Bool). d) detections))
      × (min_strength <ℤ neg 50_000 → verify_signal min_strength answers ≡ true)
unfolding verify_signal
verify_signal-relay_check min_strength detections =
    let count = length-answers detections in
    (
      λ h k. ground (arith, count, count_successes-relay min_strength detections h k),
      λ h. ground (arith, count, count_successes-low min_strength detections h),
    )
