-- ===== src/Globe.antt =====
-- src/middleware/web/globe-service.ts: the positions and the ground tracks of the satellites, and
-- the two intervals that send them. The start is cut where it awaits the element sets.
pub mod Laws
mod Tests
use noaa_satellite_capture.Base.{
  ℕ, ◌+◌, Bool, true, false, not, Option, none, some, List, [], ◌∷◌, ◌++◌, str_eq, ◌==◌,
  if◌then◌else◌, filter, find, pos,
}
use noaa_satellite_capture.Types.{
  Coordinates, SatelliteInfo, TwoLineElement, SatelliteGeolocation, GroundTrack, GlobeState,
}
use noaa_satellite_capture.Satellites.{satellites}
use noaa_satellite_capture.StateManager.{StateManager, emit_globe_state}
use noaa_satellite_capture.Orbit.{SatelliteJs, get_satellite_geolocation}
use noaa_satellite_capture.Passes.Tracks.{compute_ground_track}
use noaa_satellite_capture.Tle.{CacheFiles, Outside, get_tles}

-- An interval that runs: the one of the positions, or the one of the tracks.
pub data Task : Type 0 where
  sends_positions : Task
  renews_tracks : Task

-- The variables of the module, and the intervals that Node.js runs, each with its handle.
pub record GlobeService : Type 0 where
  pub position_interval : Option ℕ
  pub ground_track_interval : Option ℕ
  pub cached_tles : List TwoLineElement
  pub cached_ground_tracks : List GroundTrack
  pub station_coords : Option Coordinates
  pub intervals : List (ℕ × Task)
  pub next_interval : ℕ

unfoldable pub initial_globe : GlobeService
initial_globe = record {
  position_interval = none;
  ground_track_interval = none;
  cached_tles = [];
  cached_ground_tracks = [];
  station_coords = none;
  intervals = [];
  next_interval = 0;
}

-- `getTles(SATELLITES, 24)`; what it throws is caught, and the element sets are kept.
unfoldable pub update_tles : Outside → CacheFiles → GlobeService → CacheFiles × GlobeService
update_tles w files s =
    let (after, answer) = get_tles w satellites 24 files in
    elim answer [ none ↦ (after, s) | some tles ↦ (after, record s { cached_tles = tles }) ]

unfoldable pub find_tle : List TwoLineElement → SatelliteInfo → Option TwoLineElement
find_tle tles satellite = find (λ t. str_eq t.name satellite.name) tles

-- `clearInterval`, where there is a handle.
unfoldable pub clear_interval : Option ℕ → List (ℕ × Task) → List (ℕ × Task)
clear_interval none intervals = intervals
clear_interval (some t) intervals = filter (λ e. not (e.0 == t)) intervals

unfoldable pub stop_globe_service : GlobeService → GlobeService
stop_globe_service s = record s {
  position_interval = none;
  ground_track_interval = none;
  intervals =
      clear_interval s.ground_track_interval (clear_interval s.position_interval s.intervals);
}

-- `startGlobeService` up to its await.
unfoldable pub service_begin : Coordinates → GlobeService → GlobeService
service_begin station s = record s { station_coords = some station }

module _ (lib : SatelliteJs) where
  unfoldable pub position_of : ℕ → List TwoLineElement → SatelliteInfo → Option SatelliteGeolocation
  position_of now tles satellite = elim (find_tle tles satellite) [
    | none ↦ none
    | some tle ↦ get_satellite_geolocation lib tle satellite now
  ]

  unfoldable pub positions_of :
      ℕ → List TwoLineElement → List SatelliteInfo → List SatelliteGeolocation
  positions_of now tles [] = []
  positions_of now tles (s ∷ sats) = elim (position_of now tles s) [
    | none ↦ positions_of now tles sats
    | some position ↦ position ∷ positions_of now tles sats
  ]

  unfoldable pub compute_current_positions : ℕ → GlobeService → List SatelliteGeolocation
  compute_current_positions now s = positions_of now s.cached_tles satellites

  -- The tracks that are pushed until one throws, and whether one does.
  unfoldable pub tracks_of : ℕ → List TwoLineElement → List SatelliteInfo → List GroundTrack × Bool
  tracks_of now tles [] = ([], false)
  tracks_of now tles (s ∷ sats) =
      let rest = tracks_of now tles sats in
      elim (find_tle tles s) [
        | none ↦ rest
        | some tle ↦ elim (compute_ground_track lib tle s now 90 30) [
          | none ↦ ([], true)
          | some track ↦ (track ∷ rest.0, rest.1)
        ]
      ]

  unfoldable pub update_ground_tracks : ℕ → GlobeService → GlobeService × Bool
  update_ground_tracks now s =
      let (tracks, thrown) = tracks_of now s.cached_tles satellites in
      (record s { cached_ground_tracks = tracks }, thrown)

  -- The station of a globe state has no altitude, which stands as 0.
  unfoldable pub get_globe_state : ℕ → GlobeService → Option GlobeState
  get_globe_state now s = elim s.station_coords [
    | none ↦ none
    | some station ↦ some (record {
      satellites = compute_current_positions now s;
      ground_tracks = s.cached_ground_tracks;
      station = record station { altitude = pos 0 };
    })
  ]

  unfoldable pub broadcast_globe_state : ℕ → GlobeService → StateManager → StateManager
  broadcast_globe_state now s m = elim (get_globe_state now s) [
    | none ↦ m
    | some globe ↦ emit_globe_state globe m
  ]

  -- The rest of it; where a track throws the promise is rejected before an interval is made.
  unfoldable pub service_end :
      ℕ
      → Outside
      → CacheFiles
      → GlobeService
      → StateManager
      → CacheFiles × GlobeService × StateManager
  service_end now w files s m =
      let (after, fetched) = update_tles w files s in
      let (ready, thrown) = update_ground_tracks now fetched in
      let started = record ready {
        position_interval = some ready.next_interval;
        ground_track_interval = some (ready.next_interval + 1);
        intervals =
            ready.intervals
            ++ (ready.next_interval, sends_positions)
              ∷ (ready.next_interval + 1, renews_tracks)
              ∷ [];
        next_interval = ready.next_interval + 2;
      } in
      if thrown then (after, ready, m) else (after, started, broadcast_globe_state now started m)

  -- An interval of the given kind fires.
  unfoldable pub tick : ℕ → Task → GlobeService → StateManager → GlobeService × StateManager
  tick now sends_positions s m = (s, broadcast_globe_state now s m)
  tick now renews_tracks s m = ((update_ground_tracks now s).0, m)
