-- ===== src/SdrClient/Checker.antt =====
-- `RemoteSignalChecker` of src/backend/sdr-client/index.ts, and the answer of the relay's signal check
-- (src/sdr-relay/server.ts). Powers are in thousandths of a decibel.
use noaa_satellite_capture.Base.{
  ℕ, suc, ◌+◌, ◌/◌, Bool, false, ◌&&◌, Option, none, some, List, [], ◌∷◌, leb, if◌then◌else◌,
  length, ℤ, neg, ltb_ℤ,
}

-- `SignalCheckResponse`, without the echoed frequency and the time.
pub record SignalCheck : Type 0 where
  pub power : ℤ
  pub detected : Bool

-- What the request is answered: `throws`, a status that is not ok, or a body.
pub data CheckAnswer : Type 0 where
  throws : CheckAnswer
  not_ok : CheckAnswer
  checked : SignalCheck → CheckAnswer

-- The body of the relay's answer: `power: detected ? -20 : -50`.
unfoldable pub relay_check : Bool → SignalCheck
relay_check detected = record {
  power = if detected then neg 20_000 else neg 50_000;
  detected = detected;
}

-- `checkSignalStrength`: the power of the measurement, or null.
unfoldable pub check_signal_strength : CheckAnswer → Option ℤ
check_signal_strength throws = none
check_signal_strength not_ok = none
check_signal_strength (checked r) = some r.power

abbrev is_above : ℤ → Option ℤ → Bool
is_above min_strength none = false
is_above min_strength (some power) = ltb_ℤ min_strength power

-- `successCount` after the loop, one answer for each attempt.
unfoldable pub count_successes : ℤ → List CheckAnswer → ℕ
unfolding check_signal_strength
count_successes min_strength [] = 0
count_successes min_strength (a ∷ answers) =
    let rest = count_successes min_strength answers in
    if is_above min_strength (check_signal_strength a) then suc rest else rest

unfoldable pub verify_signal : ℤ → List CheckAnswer → Bool
unfolding count_successes
verify_signal min_strength answers =
    leb ((length answers + 1) / 2) (count_successes min_strength answers)

unfoldable pub verify_signal_at_frequency : ℤ → CheckAnswer → Bool
verify_signal_at_frequency min_strength throws = false
verify_signal_at_frequency min_strength not_ok = false
verify_signal_at_frequency min_strength (checked r) = r.detected && ltb_ℤ min_strength r.power
