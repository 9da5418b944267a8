-- ===== src/Signal/Tests.antt =====
-- The output of rtl_power for a scan, and the theorems of src/backend/capture/signal.ts at it.

use noaa_satellite_capture.Base.{
  ◌*◌, ◌≤◌, String, ◌≡◌, refl, ◌↔◌, true, none, some, List, [], ◌∷◌, str_eq, if◌then◌else◌, length,
  filter, neg, ◌+ℤ◌, ◌*ℤ◌,
}
use noaa_satellite_capture.Base.Texts.{split}
use noaa_satellite_capture.Satellites.{meteor_n2_3}
use noaa_satellite_capture.Signal.{
  ParseFloat, parse_power_from_line, reduce_lines, parse_power_readings, CommandResult, fails,
  prints, check_signal_strength, check_signal_once, check_attempts, verify_signal,
}
use noaa_satellite_capture.Signal.Monitor.{
  start_monitor, readings_of, on_data, on_chunks, concat, on_chunks-concat,
}
use noaa_satellite_capture.Signal.Laws.{is_strong, verify_signal_iff}

abbrev parse : ParseFloat
parse t =
    if str_eq t "-20" then some (neg 20_000) else if str_eq t "-30" then some (neg 30_000) else none

abbrev strong_line : String
strong_line = "d,t,1,2,3,4,-20"

abbrev answers : List CommandResult
answers = prints strong_line ∷ fails ∷ prints strong_line ∷ []

on_chunks_test :
    (on_chunks parse
      ("d,t,1,2,3,4,-" ∷ "20\nd,t,1,2,3,4,-30\nd," ∷ "t" ∷ [])
      start_monitor).readings
    ≡ neg 20_000 ∷ neg 30_000 ∷ []
unfolding on_chunks on_data readings_of parse_power_from_line split
on_chunks_test = refl

on_chunks-concat_example :
    on_chunks parse ("d,t,1,2,3,4,-" ∷ "20\nd," ∷ []) start_monitor
    ≡ on_data parse (concat ("d,t,1,2,3,4,-" ∷ "20\nd," ∷ [])) start_monitor
on_chunks-concat_example = on_chunks-concat parse ("d,t,1,2,3,4,-" ∷ "20\nd," ∷ [])

verify_signal_iff_example :
    verify_signal parse meteor_n2_3 (neg 25_000) answers ≡ true
    ↔ length answers ≤ 2 * length (filter (is_strong parse (neg 25_000)) answers)
verify_signal_iff_example = verify_signal_iff parse meteor_n2_3 (neg 25_000) answers

verify_signal_test : verify_signal parse meteor_n2_3 (neg 25_000) answers ≡ true
unfolding verify_signal check_attempts check_signal_once check_signal_strength parse_power_readings
    reduce_lines parse_power_from_line split ◌+ℤ◌ ◌*ℤ◌
verify_signal_test = refl
