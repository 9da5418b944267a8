-- ===== src/Globe/Tests.antt =====
-- The service of src/middleware/web/globe-service.ts started, ticking and stopped.
use noaa_satellite_capture.Base.{◌≡◌, refl, true, none, some, [], ◌∷◌, map, pos, for_instants}
use noaa_satellite_capture.Types.{Coordinates, TwoLineElement, GroundTrack}
use noaa_satellite_capture.Satellites.{iss, satellites}
use noaa_satellite_capture.StateManager.{initial}
use noaa_satellite_capture.Orbit.Tests.{flat}
use noaa_satellite_capture.Passes.Tracks.{push_point, compute_ground_track}
use noaa_satellite_capture.Tle.{
  throws, CacheFiles, Outside, is_expired, load_cached_tles, is_valid_for, get_tles,
}
use noaa_satellite_capture.Tle as Tle
use noaa_satellite_capture.Globe.{
  sends_positions, renews_tracks, GlobeService, initial_globe, update_tles, find_tle,
  clear_interval, stop_globe_service, service_begin, compute_current_positions, tracks_of,
  update_ground_tracks, service_end, tick,
}
use noaa_satellite_capture.Globe.Laws.{
  new, begun, ended, ticked, IsPart, track_ids, position_ids, satellite_ids, IsTidy,
  IsReached-compute_current_positions,
}

abbrev greenwich : Coordinates
greenwich = record { latitude = pos 51; longitude = pos 0; altitude = pos 45 }

abbrev known : TwoLineElement
known = record { name = iss.name; line1 = "1 25544U"; line2 = "2 25544" }

-- A cache of three element sets, two of which are for no satellite.
abbrev fresh_files : CacheFiles
fresh_files = record {
  cache_json = some (record {
    fetched_at = 0;
    satellites =
        known ∷ record known { name = "HUBBLE" } ∷ record known { name = "METEOR-M2 3" } ∷ [];
  });
  weather_txt = none;
}

abbrev no_server : Tle.Outside
no_server = record { now = 1000; fetch = λ s. Tle.throws; is_writable = true }

abbrev start_once : GlobeService → GlobeService
start_once s =
    (service_end flat 1000 no_server fresh_files (service_begin greenwich s) (initial 0)).1

abbrev ticked_once : GlobeService
ticked_once = (tick flat 61_000 renews_tracks (start_once initial_globe) (initial 0)).0

start_test :
    map (λ (t : GroundTrack). t.norad_id) (start_once initial_globe).cached_ground_tracks
    ≡ iss.norad_id ∷ []
unfolding initial_globe service_begin service_end update_tles update_ground_tracks tracks_of
    find_tle get_tles load_cached_tles compute_ground_track push_point for_instants
start_test = refl

-- A second start without a stop leaves the intervals of the first to run.
start_twice_test :
    (stop_globe_service (start_once (start_once initial_globe))).intervals
    ≡ (0, sends_positions) ∷ (1, renews_tracks) ∷ []
unfolding initial_globe service_begin service_end update_tles update_ground_tracks tracks_of
    find_tle get_tles load_cached_tles compute_ground_track push_point for_instants
    stop_globe_service clear_interval
start_twice_test = refl

IsReached-compute_current_positions_example :
    IsTidy ticked_once
    × IsPart
        (position_ids (compute_current_positions flat 62_000 ticked_once))
        (satellite_ids satellites)
    × IsPart (track_ids ticked_once.cached_ground_tracks) (satellite_ids satellites)
unfolding initial_globe service_begin
IsReached-compute_current_positions_example = IsReached-compute_current_positions flat 62_000 (
    ticked 61_000 renews_tracks (initial 0)
      (ended 1000 no_server fresh_files (initial 0) refl refl (begun greenwich new)))
