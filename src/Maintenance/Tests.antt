-- ===== src/Maintenance/Tests.antt =====
-- The file name of a recording, and a maintenance run.

use noaa_satellite_capture.Base.{
  ℕ, String, ◌≡◌, refl, ap, true, false, Option, none, some, [], ◌∷◌, str_eq, if◌then◌else◌,
}
use noaa_satellite_capture.Database.{dash_spaces, empty_database}
use noaa_satellite_capture.Maintenance.{File, run_maintenance}
use noaa_satellite_capture.Maintenance.Laws.{run_maintenance_lem}
use noaa_satellite_capture.Maintenance.Filenames.Laws.{
  size_of, parse_wav_filename-generate_filename,
}
use noaa_satellite_capture.Maintenance.Filenames.{
  timestamp_of, generate_filename, has_form, dashes_to_colons, with_colons, parse_wav_filename,
}

generate_filename_test :
    generate_filename "METEOR-M N2-3" "wav" "2026-02-03T07:05:39.123Z"
    ≡ "METEOR-M-N2-3_2026-02-03T07-05-39.wav"
unfolding generate_filename timestamp_of
generate_filename_test = refl

-- A clock an hour ahead of UTC reads the text of the name as its own time.
abbrev local_date : String → Option ℕ
local_date text = if str_eq text "2026-02-03T07:05:39" then some 1_770_098_739_000 else none

parse_wav_filename-generate_filename_example :
    parse_wav_filename local_date
      (generate_filename "METEOR-M N2-3" "wav" "2026-02-03T07:05:39.123Z")
    ≡ some (record {
      satellite = dash_spaces false "METEOR-M N2-3";
      timestamp = local_date "2026-02-03T07:05:39";
    })
parse_wav_filename-generate_filename_example =
    parse_wav_filename-generate_filename local_date "METEOR-M N2-3" "2026-02-03T07:05:39.123Z" refl
      (λ e. absurd (cc (ap size_of e))) (unfold has_form timestamp_of in refl)

-- The marks are colons again.
with_colons_test : with_colons (timestamp_of "2026-02-03T07:05:39.123Z") ≡ "2026-02-03T07:05:39"
unfolding with_colons timestamp_of dashes_to_colons has_form
with_colons_test = refl

abbrev small_file : File
small_file = record {
  name = "ISS_2026-02-03T13-56-39.wav";
  path = "/r/ISS_2026-02-03T13-56-39.wav";
  size = 44;
}

run_maintenance_lem_example :
    (run_maintenance
      (λ t. none)
      (λ xs. xs)
      (λ t p. none)
      (λ p. true)
      true
      true
      (some (small_file ∷ []))
      empty_database).0.captures
    ≡ []
run_maintenance_lem_example =
    (run_maintenance_lem (λ t. none) (λ xs. xs) (λ t p. none) (λ p. true) true true
      (some (small_file ∷ [])) empty_database).0
