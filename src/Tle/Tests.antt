-- ===== src/Tle/Tests.antt =====
-- An element set of a satellite, and the theorems of src/backend/satellites/tle.ts at it.
use noaa_satellite_capture.Base.Texts.{split, join}
use noaa_satellite_capture.Base.{ℕ, String, ◌≡◌, refl, true, none, some, [], ◌∷◌, arith}
use noaa_satellite_capture.Types.{TwoLineElement}
use noaa_satellite_capture.Satellites.{meteor_n2_3}
use noaa_satellite_capture.Tle.Parse.{parse_tle_text, print_tle, parse_tle_text-print_tle}
use noaa_satellite_capture.Tle.Laws.{get_tles-get_tles}
use noaa_satellite_capture.Tle.{
  throws, body, CacheFiles, Outside, fetch_tle, fetch_all_tles, load_cached_tles,
  save_tles_to_cache, get_tles,
}

abbrev meteor_elements : TwoLineElement
meteor_elements = record {
  name = "METEOR-M2 3";
  line1 = "1 57166U 23091A";
  line2 = "2 57166  98.6";
}

abbrev meteor_text : String
meteor_text = "METEOR-M2 3  \r\n1 57166U 23091A\r\n2 57166  98.6\r\n"

abbrev no_files : CacheFiles
no_files = record { cache_json = none; weather_txt = none }

abbrev online : ℕ → Outside
online t = record { now = t; fetch = λ s. body meteor_text; is_writable = true }

abbrev offline : ℕ → Outside
offline t = record { now = t; fetch = λ s. throws; is_writable = true }

parse_tle_text_test : parse_tle_text meteor_text "METEOR" ≡ some meteor_elements
unfolding parse_tle_text split
parse_tle_text_test = refl

parse_tle_text-print_tle_example :
    parse_tle_text (print_tle meteor_elements) "METEOR" ≡ some meteor_elements
parse_tle_text-print_tle_example =
    parse_tle_text-print_tle meteor_elements "METEOR" refl refl refl refl

abbrev kept_files : CacheFiles
kept_files = record {
  cache_json = some (record { fetched_at = 1000; satellites = meteor_elements ∷ [] });
  weather_txt = some "METEOR-M2 3\n1 57166U 23091A\n2 57166  98.6";
}

get_tles_test :
    get_tles (online 1000) (meteor_n2_3 ∷ []) 24 no_files
    ≡ (kept_files, some (meteor_elements ∷ []))
unfolding get_tles load_cached_tles fetch_all_tles fetch_tle parse_tle_text split save_tles_to_cache
    join print_tle
get_tles_test = refl

get_tles-get_tles_example :
    get_tles (offline 2000) (meteor_n2_3 ∷ []) 24 kept_files
    ≡ (kept_files, some (meteor_elements ∷ []))
get_tles-get_tles_example =
    get_tles-get_tles (online 1000) (offline 2000) (meteor_n2_3 ∷ []) 24 no_files kept_files
      (meteor_elements ∷ []) (unfold load_cached_tles in refl) get_tles_test refl (omega arith)
