-- ===== src/Signal/Laws.antt =====
-- When src/backend/capture/signal.ts takes a signal as present.
use noaa_satellite_capture.Base.{
  suc, ◌+◌, ◌*◌, ◌≤◌, String, ◌≡◌, refl, sym, ap, ◌∙◌, ◌↔◌, inl, inr, Bool, true, ◌&&◌, some, List,
  [], ◌∷◌, arith, ltb, Bool-cases, Option-cases, length, filter, ℤ, pos, ◌+ℤ◌, ◌*ℤ◌, ltb_ℤ, sum_ℤ,
  +ℤ_parts, eq_of_parts,
}
use noaa_satellite_capture.Base.Texts.{split, trim}
use noaa_satellite_capture.Types.{SatelliteInfo}
use noaa_satellite_capture.Signal.{
  ParseFloat, newline, parse_power_from_line, Readings, add_power, reduce_lines,
  parse_power_readings, CommandResult, throws, fails, prints, check_signal_strength,
  check_signal_once, check_attempts, success_count, verify_signal, verify_signal_at_frequency,
}
use noaa_satellite_capture.Signal.Monitor.{readings_of}

+ℤ_assoc : (a b c : ℤ) → (a +ℤ b) +ℤ c ≡ a +ℤ (b +ℤ c)
+ℤ_assoc a b c =
    eq_of_parts ((a +ℤ b) +ℤ c) (a +ℤ (b +ℤ c))
      (omega (arith, +ℤ_parts (a +ℤ b) c, +ℤ_parts a b, +ℤ_parts a (b +ℤ c), +ℤ_parts b c))

+ℤ_zero : (a : ℤ) → a ≡ a +ℤ pos 0
+ℤ_zero a = eq_of_parts a (a +ℤ pos 0) (omega (arith, +ℤ_parts a (pos 0)))

zero_+ℤ : (a : ℤ) → pos 0 +ℤ a ≡ a
zero_+ℤ a = eq_of_parts (pos 0 +ℤ a) a (omega (arith, +ℤ_parts (pos 0) a))

reduce_lines_lem :
    (parse_float : ParseFloat) (lines : List String) (acc : Readings)
    → let r = reduce_lines parse_float lines acc in
      let found = readings_of parse_float lines in
      (r.total_power ≡ acc.total_power +ℤ sum_ℤ found) × (r.count ≡ acc.count + length found)
unfolding reduce_lines readings_of
reduce_lines_lem parse_float [] acc = (+ℤ_zero acc.total_power, omega arith)
reduce_lines_lem parse_float (line ∷ lines) acc =
    elim (Option-cases (parse_power_from_line parse_float line)) [
      | inl e ↦ rw (e, reduce_lines, readings_of) (reduce_lines_lem parse_float lines acc)
      | inr (power, e) ↦
          let (total, count) = reduce_lines_lem parse_float lines (add_power (some power) acc) in
          let found = readings_of parse_float lines in
          rw (e, reduce_lines, readings_of)
            (total ∙ +ℤ_assoc acc.total_power power (sum_ℤ found), omega (arith, count))
    ]

-- The readings in the output of a command, when there is one.
abbrev pub output_readings : ParseFloat → CommandResult → List ℤ
output_readings parse_float throws = []
output_readings parse_float fails = []
output_readings parse_float (prints stdout) = readings_of parse_float (split newline (trim stdout))

-- The mean of the readings lies above the threshold.
abbrev pub is_strong : ParseFloat → ℤ → CommandResult → Bool
is_strong parse_float min_strength answer =
    let found = output_readings parse_float answer in
    ltb 0 (length found) && ltb_ℤ (min_strength *ℤ length found) (sum_ℤ found)

parse_power_readings_lem :
    (parse_float : ParseFloat) (stdout : String)
    → let r = parse_power_readings parse_float stdout in
      let found = readings_of parse_float (split newline (trim stdout)) in
      (r.total_power ≡ sum_ℤ found) × (r.count ≡ length found)
unfolding parse_power_readings
parse_power_readings_lem parse_float stdout =
    let lines = split newline (trim stdout) in
    let (total, count) =
      reduce_lines_lem parse_float lines (record { total_power = pos 0; count = 0 }) in
    (total ∙ zero_+ℤ (sum_ℤ (readings_of parse_float lines)), omega (arith, count))

-- Both checks, of a satellite and of a frequency, succeed just when the command ends well and the mean
-- of the readings that its output holds lies above the threshold; so on the same answer they agree.
check_signal_once_lem :
    (parse_float : ParseFloat) (satellite : SatelliteInfo) (min_strength : ℤ)
    (answer : CommandResult)
    → (check_signal_once parse_float satellite min_strength answer
        ≡ is_strong parse_float min_strength answer)
      × (verify_signal_at_frequency parse_float min_strength answer
          ≡ is_strong parse_float min_strength answer)
unfolding check_signal_once check_signal_strength verify_signal_at_frequency
check_signal_once_lem parse_float satellite min_strength throws = (refl, refl)
check_signal_once_lem parse_float satellite min_strength fails = (refl, refl)
check_signal_once_lem parse_float satellite min_strength (prints stdout) =
    let (total, count) = parse_power_readings_lem parse_float stdout in
    rw (sym total, sym count) (ground arith)

success_count-check_attempts :
    (parse_float : ParseFloat) (satellite : SatelliteInfo) (min_strength : ℤ)
    (answers : List CommandResult)
    → success_count (check_attempts parse_float satellite min_strength answers)
      ≡ length (filter (is_strong parse_float min_strength) answers)
unfolding check_attempts
success_count-check_attempts parse_float satellite min_strength [] = refl
success_count-check_attempts parse_float satellite min_strength (a ∷ answers) =
    let (once, _) = check_signal_once_lem parse_float satellite min_strength a in
    let rest = success_count-check_attempts parse_float satellite min_strength answers in
    elim (Bool-cases (is_strong parse_float min_strength a)) [
      | inl e ↦ rw (once, e) (ap suc rest)
      | inr e ↦ rw (once, e) rest
    ]

-- A signal is verified just when at least half of the attempts show a mean above the threshold.
pub verify_signal_iff :
    (parse_float : ParseFloat) (satellite : SatelliteInfo) (min_strength : ℤ)
    (answers : List CommandResult)
    → verify_signal parse_float satellite min_strength answers ≡ true
      ↔ length answers ≤ 2 * length (filter (is_strong parse_float min_strength) answers)
unfolding verify_signal
verify_signal_iff parse_float satellite min_strength answers =
    ground (arith, success_count-check_attempts parse_float satellite min_strength answers)
