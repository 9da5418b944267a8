-- ===== src/Signal.antt =====
-- src/backend/capture/signal.ts: the strength of a signal, measured by rtl_power. Powers are in
-- thousandths of a decibel, and a mean is compared through its sum.
pub mod Monitor
pub mod Laws
mod Tests
use noaa_satellite_capture.Base.{
  ℕ, ◌+◌, ◌/◌, String, Bool, false, Option, none, some, List, [], ◌∷◌, ltb, leb, ◌==◌,
  if◌then◌else◌, length, get_elem?, filter, ℤ, pos, ◌+ℤ◌, ◌*ℤ◌, ltb_ℤ,
}
use noaa_satellite_capture.Base.Texts.{split, trim}
use noaa_satellite_capture.Types.{SatelliteInfo}

-- `Number.parseFloat` of a text, `none` where it is no finite number.
abbrev pub ParseFloat : Type 0
ParseFloat = String → Option ℤ

abbrev pub newline : ℕ
newline = 10

abbrev pub comma : ℕ
comma = 44

-- `parsePowerFromLine`: the seventh field of a line of seven or more.
unfoldable pub parse_power_from_line : ParseFloat → String → Option ℤ
parse_power_from_line parse_float line = elim (get_elem? (split comma line) 6) [
  | none ↦ none
  | some part ↦ parse_float part
]

pub record Readings : Type 0 where
  pub total_power : ℤ
  pub count : ℕ

-- The callback of `reduce`.
abbrev pub add_power : Option ℤ → Readings → Readings
add_power none acc = acc
add_power (some power) acc = record {
  total_power = acc.total_power +ℤ power;
  count = acc.count + 1;
}

unfoldable pub reduce_lines : ParseFloat → List String → Readings → Readings
reduce_lines parse_float [] acc = acc
reduce_lines parse_float (line ∷ lines) acc =
    reduce_lines parse_float lines (add_power (parse_power_from_line parse_float line) acc)

unfoldable pub parse_power_readings : ParseFloat → String → Readings
unfolding reduce_lines
parse_power_readings parse_float stdout =
    reduce_lines parse_float (split newline (trim stdout))
      (record { total_power = pos 0; count = 0 })

-- What `runCommand` answers: its standard output where the exit code is 0; `throws` where it throws.
pub data CommandResult : Type 0 where
  throws : CommandResult
  fails : CommandResult
  prints : String → CommandResult

-- `SignalStrength`, with the power as a sum and the count that divides it.
pub record SignalStrength : Type 0 where
  pub frequency : ℕ
  pub readings : Readings
  pub timestamp : ℕ

abbrev strength_of : ℕ → ℕ → Readings → Option SignalStrength
strength_of frequency now r =
    if ltb 0 r.count
    then some (record { frequency = frequency; readings = r; timestamp = now })
    else none

-- `checkSignalStrength`, at the instant `now` of its end.
unfoldable pub check_signal_strength :
    ParseFloat → SatelliteInfo → ℕ → CommandResult → Option SignalStrength
check_signal_strength parse_float satellite now throws = none
check_signal_strength parse_float satellite now fails = none
check_signal_strength parse_float satellite now (prints stdout) =
    strength_of satellite.frequency now (parse_power_readings parse_float stdout)

-- `totalPower / count > minStrength` for a positive count.
abbrev pub mean_above : ℤ → Readings → Bool
mean_above min_strength r = ltb_ℤ (min_strength *ℤ r.count) r.total_power

abbrev is_above : ℤ → Option SignalStrength → Bool
is_above min_strength none = false
is_above min_strength (some s) = mean_above min_strength s.readings

-- The time of the reading is only shown, and 0 stands for it.
unfoldable pub check_signal_once : ParseFloat → SatelliteInfo → ℤ → CommandResult → Bool
unfolding check_signal_strength
check_signal_once parse_float satellite min_strength answer =
    is_above min_strength (check_signal_strength parse_float satellite 0 answer)

-- The loop of `verifySignal` over the answers of the commands, one for each attempt.
unfoldable pub check_attempts : ParseFloat → SatelliteInfo → ℤ → List CommandResult → List Bool
check_attempts parse_float satellite min_strength [] = []
check_attempts parse_float satellite min_strength (answer ∷ answers) =
    check_signal_once parse_float satellite min_strength answer
    ∷ check_attempts parse_float satellite min_strength answers

-- `results.filter(Boolean).length`.
abbrev pub success_count : List Bool → ℕ
success_count results = length (filter (λ b. b) results)

unfoldable pub verify_signal : ParseFloat → SatelliteInfo → ℤ → List CommandResult → Bool
verify_signal parse_float satellite min_strength answers =
    let results = check_attempts parse_float satellite min_strength answers in
    leb ((length answers + 1) / 2) (success_count results)

-- The default of `attempts`.
abbrev pub default_attempts : ℕ
default_attempts = 3

unfoldable pub verify_signal_at_frequency : ParseFloat → ℤ → CommandResult → Bool
verify_signal_at_frequency parse_float min_strength throws = false
verify_signal_at_frequency parse_float min_strength fails = false
verify_signal_at_frequency parse_float min_strength (prints stdout) =
    let r = parse_power_readings parse_float stdout in
    if r.count == 0 then false else mean_above min_strength r
