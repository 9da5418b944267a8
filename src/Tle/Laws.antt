-- ===== src/Tle/Laws.antt =====
-- When the cache of src/backend/satellites/tle.ts serves, and when nothing does.
use noaa_satellite_capture.Base.{
  ℕ, ◌+◌, ◌*◌, ◌≤◌, ◌<◌, ◌≡◌, refl, sym, ap, ◌∙◌, ◌⊎◌, true, false, Option, none, some, List, [],
  ◌∷◌, arith, ◌==◌, length,
}
use noaa_satellite_capture.Types.{SatelliteInfo, TwoLineElement}
use noaa_satellite_capture.Tle.{
  TleCache, CacheFiles, Outside, fetch_all_tles, is_expired, load_cached_tles, save_tles_to_cache,
  is_valid_for, with_fresh, get_tles,
}

load_cached_tles_fresh :
    (now max_age_hours : ℕ) (cache : TleCache) (files : CacheFiles)
    → files.cache_json ≡ some cache
    → is_expired now max_age_hours cache ≡ false
    → load_cached_tles now max_age_hours files ≡ some cache.satellites
unfolding load_cached_tles
load_cached_tles_fresh now max_age_hours cache files e h = rw (e, h) refl

==_refl : (n : ℕ) → (n == n) ≡ true
==_refl n = ground arith

get_tles_hit :
    (w : Outside) (sats : List SatelliteInfo) (max_age_hours : ℕ) (files : CacheFiles)
    (tles : List TwoLineElement)
    → load_cached_tles w.now max_age_hours files ≡ some tles
    → length tles ≡ length sats
    → get_tles w sats max_age_hours files ≡ (files, some tles)
unfolding get_tles
get_tles_hit w sats max_age_hours files tles e h = rw (e, h, ==_refl (length sats)) refl

-- The files after a call without a valid cache that returns as many elements as satellites.
with_fresh_saved :
    (w : Outside) (sats : List SatelliteInfo) (cached : Option (List TwoLineElement))
    (fresh tles : List TwoLineElement) (files saved : CacheFiles)
    → with_fresh w cached fresh files ≡ (saved, some tles)
    → is_valid_for sats cached ≡ false
    → length tles ≡ length sats
    → saved.cache_json ≡ some (record { fetched_at = w.now; satellites = tles })
unfolding save_tles_to_cache
with_fresh_saved w sats none [] tles files saved e k h = absurd (ground arith)
with_fresh_saved w sats (some cached) [] tles files saved e k h =
    let same : cached ≡ tles = ground arith in
    absurd (ground (arith, ap (λ (l : List TwoLineElement). length l) same))
with_fresh_saved w sats cached (t ∷ fresh) tles files saved e k h = ground arith

get_tles_miss :
    (w : Outside) (sats : List SatelliteInfo) (max_age_hours : ℕ) (files : CacheFiles)
    → let cached = load_cached_tles w.now max_age_hours files in
      is_valid_for sats cached ≡ false
      → get_tles w sats max_age_hours files ≡ with_fresh w cached (fetch_all_tles w sats) files
unfolding get_tles
get_tles_miss w sats max_age_hours files k = rw k refl

-- A call that finds no valid cache and returns as many elements as there are satellites leaves
-- files such that every call for these satellites, until the elements are older than the given age,
-- returns the same ones and changes no file, whatever the server would answer.
pub get_tles-get_tles :
    (w later : Outside) (sats : List SatelliteInfo) (max_age_hours : ℕ) (files saved : CacheFiles)
    (tles : List TwoLineElement)
    → is_valid_for sats (load_cached_tles w.now max_age_hours files) ≡ false
    → get_tles w sats max_age_hours files ≡ (saved, some tles)
    → length tles ≡ length sats
    → later.now ≤ w.now + max_age_hours * (1000 * 60 * 60)
    → get_tles later sats max_age_hours saved ≡ (saved, some tles)
get_tles-get_tles w later sats max_age_hours files saved tles k e h upper =
    let cached = load_cached_tles w.now max_age_hours files in
    let cache : TleCache = record { fetched_at = w.now; satellites = tles } in
    let kept =
      with_fresh_saved w sats cached (fetch_all_tles w sats) tles files saved
        (sym (get_tles_miss w sats max_age_hours files k) ∙ e) k h in
    let fresh : is_expired later.now max_age_hours cache ≡ false = ground arith in
    get_tles_hit later sats max_age_hours saved tles
      (load_cached_tles_fresh later.now max_age_hours cache saved kept fresh) h

-- Why a call throws.
unfoldable pub Throws :
    Outside → List SatelliteInfo → Option (List TwoLineElement) → List TwoLineElement → Type 0
Throws w sats cached fresh =
    ((cached ≡ none) × (fresh ≡ []))
    ⊎ ((is_valid_for sats cached ≡ false) × (0 < length fresh) × (w.is_writable ≡ false))
