-- ===== src/Tle.antt =====
-- src/backend/satellites/tle.ts: the two-line elements, fetched from CelesTrak and kept in a cache.
pub mod Parse
pub mod Laws
mod Tests
use noaa_satellite_capture.Base.{
  ℕ, ◌-◌, ◌*◌, String, Bool, false, Option, none, some, List, [], ◌∷◌, ltb, ◌==◌, if◌then◌else◌,
  length,
}
use noaa_satellite_capture.Base.Texts.{join}
use noaa_satellite_capture.Types.{SatelliteInfo, TwoLineElement}
use noaa_satellite_capture.Tle.Parse.{parse_tle_text, print_tle}

-- What `fetch` answers for the URL of a satellite: `throws`, a status that is not ok, or a body.
pub data Response : Type 0 where
  throws : Response
  not_ok : Response
  body : String → Response

-- `TleCache`.
pub record TleCache : Type 0 where
  pub fetched_at : ℕ
  pub satellites : List TwoLineElement

-- The two files of the cache; `none` is a file that is missing or cannot be parsed.
pub record CacheFiles : Type 0 where
  pub cache_json : Option TleCache
  pub weather_txt : Option String

-- What stands outside of a call: the clock, the answers of the server, and whether the directory can
-- be written to.
pub record Outside : Type 0 where
  pub now : ℕ
  pub fetch : SatelliteInfo → Response
  pub is_writable : Bool

unfoldable pub fetch_tle : Outside → SatelliteInfo → Option TwoLineElement
fetch_tle w satellite = elim (w.fetch satellite) [
  | throws ↦ none
  | not_ok ↦ none
  | body text ↦ parse_tle_text text satellite.name
]

-- `results.filter((tle) => tle !== null)`.
unfoldable pub fetch_all_tles : Outside → List SatelliteInfo → List TwoLineElement
fetch_all_tles w [] = []
fetch_all_tles w (s ∷ sats) = elim (fetch_tle w s) [
  | none ↦ fetch_all_tles w sats
  | some tle ↦ tle ∷ fetch_all_tles w sats
]

-- `ageHours > maxAgeHours`, in milliseconds.
abbrev pub is_expired : ℕ → ℕ → TleCache → Bool
is_expired now max_age_hours cache = ltb (max_age_hours * (1000 * 60 * 60)) (now - cache.fetched_at)

unfoldable pub load_cached_tles : ℕ → ℕ → CacheFiles → Option (List TwoLineElement)
load_cached_tles now max_age_hours files = elim files.cache_json [
  | none ↦ none
  | some cache ↦ if is_expired now max_age_hours cache then none else some cache.satellites
]

abbrev print_all : List TwoLineElement → List String
print_all [] = []
print_all (t ∷ tles) = print_tle t ∷ print_all tles

-- `none` where a write throws.
unfoldable pub save_tles_to_cache : Outside → List TwoLineElement → CacheFiles → Option CacheFiles
save_tles_to_cache w tles files =
    if w.is_writable
    then some (record {
      cache_json = some (record { fetched_at = w.now; satellites = tles });
      weather_txt = some (join "\n\n" (print_all tles));
    })
    else none

-- `cached !== null && cached.length === satellites.length`.
abbrev pub is_valid_for : List SatelliteInfo → Option (List TwoLineElement) → Bool
is_valid_for sats none = false
is_valid_for sats (some cached) = length cached == length sats

-- The end of `getTles` when the cache is not valid.
abbrev pub with_fresh :
    Outside
    → Option (List TwoLineElement)
    → List TwoLineElement
    → CacheFiles
    → CacheFiles × Option (List TwoLineElement)
with_fresh w cached [] files = (files, cached)
with_fresh w cached (t ∷ fresh) files = elim (save_tles_to_cache w (t ∷ fresh) files) [
  | none ↦ (files, none)
  | some saved ↦ (saved, some (t ∷ fresh))
]

-- The files afterwards, and the result; `none` where `getTles` throws.
unfoldable pub get_tles :
    Outside → List SatelliteInfo → ℕ → CacheFiles → CacheFiles × Option (List TwoLineElement)
unfolding load_cached_tles
get_tles w sats max_age_hours files =
    let cached = load_cached_tles w.now max_age_hours files in
    if is_valid_for sats cached
    then (files, cached)
    else with_fresh w cached (fetch_all_tles w sats) files
