-- ===== src/Globe/Laws.antt =====
-- What holds of src/middleware/web/globe-service.ts after any of its steps.
use noaa_satellite_capture.Satellites.{satellites}
use noaa_satellite_capture.Base.{
  ℕ, ◌+◌, ◌≡◌, refl, ◌⊎◌, inl, inr, none, some, List, [], ◌∷◌, map, arith, Bool-cases, Option-cases,
}
use noaa_satellite_capture.Types.{
  Coordinates, SatelliteInfo, TwoLineElement, SatelliteGeolocation, GroundTrack,
}
use noaa_satellite_capture.StateManager.{StateManager}
use noaa_satellite_capture.Orbit.{SatelliteJs, get_satellite_geolocation}
use noaa_satellite_capture.Passes.Tracks.{compute_ground_track}
use noaa_satellite_capture.Tle.{CacheFiles, Outside}
use noaa_satellite_capture.Globe.{
  Task, sends_positions, renews_tracks, GlobeService, initial_globe, update_tles, find_tle,
  clear_interval, stop_globe_service, service_begin, position_of, positions_of,
  compute_current_positions, tracks_of, update_ground_tracks, service_end, tick,
}

-- The states that the service reaches, where a start ends only while no interval is held. Any
-- number of stops, ticks and beginnings of a start may come between.
pub data IsReached (lib : SatelliteJs) : GlobeService → Type 0 where
  new : IsReached lib initial_globe
  begun :
      {s : GlobeService} (station : Coordinates)
      → IsReached lib s
      → IsReached lib (service_begin station s)
  ended :
      {s : GlobeService} (now : ℕ) (w : Outside) (files : CacheFiles) (m : StateManager)
      → s.position_interval ≡ none
      → s.ground_track_interval ≡ none
      → IsReached lib s
      → IsReached lib (service_end lib now w files s m).1
  stopped : {s : GlobeService} → IsReached lib s → IsReached lib (stop_globe_service s)
  ticked :
      {s : GlobeService} (now : ℕ) (task : Task) (m : StateManager)
      → IsReached lib s
      → IsReached lib (tick lib now task s m).0

-- `ns` is `ms` with some of its entries left out.
pub data IsPart : List ℕ → List ℕ → Type 0 where
  empty : IsPart [] []
  skip : {n : ℕ} {ns ms : List ℕ} → IsPart ns ms → IsPart ns (n ∷ ms)
  keep : {n : ℕ} {ns ms : List ℕ} → IsPart ns ms → IsPart (n ∷ ns) (n ∷ ms)

abbrev pub track_ids : List GroundTrack → List ℕ
track_ids tracks = map (λ (t : GroundTrack). t.norad_id) tracks

abbrev pub position_ids : List SatelliteGeolocation → List ℕ
position_ids positions = map (λ (g : SatelliteGeolocation). g.norad_id) positions

abbrev pub satellite_ids : List SatelliteInfo → List ℕ
satellite_ids sats = map (λ (s : SatelliteInfo). s.norad_id) sats

none-IsPart : (ms : List ℕ) → IsPart [] ms
none-IsPart [] = empty
none-IsPart (m ∷ ms) = skip (none-IsPart ms)

-- No interval runs and none is held, or one of each kind runs and is held.
abbrev pub IsTidy : GlobeService → Type 0
IsTidy s =
    ((s.position_interval ≡ none) × (s.ground_track_interval ≡ none) × (s.intervals ≡ []))
    ⊎ ((p : ℕ) × (q : ℕ) × (s.position_interval ≡ some p)
        × (s.ground_track_interval ≡ some q)
        × (s.intervals ≡ (p, sends_positions) ∷ (q, renews_tracks) ∷ []))

stop_globe_service-IsTidy : (s : GlobeService) → IsTidy s → IsTidy (stop_globe_service s)
unfolding stop_globe_service clear_interval
stop_globe_service-IsTidy s (inl (p, q, e)) = inl (refl, refl, rw (p, q, e) refl)
stop_globe_service-IsTidy s (inr (a, b, p, q, e)) = inl (refl, refl, rw (p, q, e) (ground arith))

module _ (lib : SatelliteJs) where
  compute_ground_track-norad_id :
      (tle : TwoLineElement) (info : SatelliteInfo) (now : ℕ) (t : GroundTrack)
      → compute_ground_track lib tle info now 90 30 ≡ some t
      → t.norad_id ≡ info.norad_id
  unfolding compute_ground_track
  compute_ground_track-norad_id tle info now t e = ground arith

  tracks_of-IsPart :
      (now : ℕ) (tles : List TwoLineElement) (sats : List SatelliteInfo)
      → IsPart (track_ids (tracks_of lib now tles sats).0) (satellite_ids sats)
  unfolding tracks_of
  tracks_of-IsPart now tles [] = empty
  tracks_of-IsPart now tles (s ∷ sats) =
      let rest = tracks_of-IsPart now tles sats in
      elim (Option-cases (find_tle tles s)) [
        | inl e ↦ rw (e, tracks_of) (skip rest)
        | inr (tle, e) ↦ elim (Option-cases (compute_ground_track lib tle s now 90 30)) [
          | inl k ↦ rw (e, k, tracks_of) (none-IsPart _)
          | inr (track, k) ↦
              let same = compute_ground_track-norad_id tle s now track k in
              rw (e, k, tracks_of, same) (keep rest)
        ]
      ]

  position_of-norad_id :
      (now : ℕ) (tles : List TwoLineElement) (info : SatelliteInfo) (g : SatelliteGeolocation)
      → position_of lib now tles info ≡ some g
      → g.norad_id ≡ info.norad_id
  unfolding position_of get_satellite_geolocation
  position_of-norad_id now tles info g e = ground arith

  positions_of-IsPart :
      (now : ℕ) (tles : List TwoLineElement) (sats : List SatelliteInfo)
      → IsPart (position_ids (positions_of lib now tles sats)) (satellite_ids sats)
  unfolding positions_of
  positions_of-IsPart now tles [] = empty
  positions_of-IsPart now tles (s ∷ sats) =
      let rest = positions_of-IsPart now tles sats in
      elim (Option-cases (position_of lib now tles s)) [
        | inl e ↦ rw (e, positions_of) (skip rest)
        | inr (g, e) ↦ rw (e, positions_of, position_of-norad_id now tles s g e) (keep rest)
      ]

  -- What every state of the service satisfies.
  abbrev IsKept : GlobeService → Type 0
  IsKept s = IsTidy s × IsPart (track_ids s.cached_ground_tracks) (satellite_ids satellites)

  update_tles-intervals :
      (w : Outside) (files : CacheFiles) (s : GlobeService)
      → let fetched = (update_tles w files s).1 in
        (fetched.intervals ≡ s.intervals)
        × (fetched.position_interval ≡ s.position_interval)
        × (fetched.ground_track_interval ≡ s.ground_track_interval)
  unfolding update_tles
  update_tles-intervals w files s = ground arith

  free-intervals : (s : GlobeService) → s.position_interval ≡ none → IsTidy s → s.intervals ≡ []
  free-intervals s p (inl (a, b, e)) = e
  free-intervals s p (inr (a, b, held, other, k)) = absurd (cc (held, p))

  service_end-IsKept :
      (now : ℕ) (w : Outside) (files : CacheFiles) (s : GlobeService) (m : StateManager)
      → s.position_interval ≡ none
      → s.ground_track_interval ≡ none
      → IsKept s
      → IsKept (service_end lib now w files s m).1
  unfolding service_end update_ground_tracks
  service_end-IsKept now w files s m p q (tidy, part) =
      let fetched = (update_tles w files s).1 in
      let (same, first, second) = update_tles-intervals w files s in
      let free : fetched.intervals ≡ [] = cc (same, free-intervals s p tidy) in
      let tracks = tracks_of-IsPart now fetched.cached_tles satellites in
      elim (Bool-cases (tracks_of lib now fetched.cached_tles satellites).1) [
        | inl thrown ↦ rw (thrown, service_end) (inl (cc (first, p), cc (second, q), free), tracks)
        | inr clean ↦
            rw (clean, service_end)
              (
                inr (fetched.next_interval, fetched.next_interval + 1, refl, refl, rw free refl),
                tracks,
              )
      ]

  stop-IsKept : (s : GlobeService) → IsKept s → IsKept (stop_globe_service s)
  unfolding stop_globe_service
  stop-IsKept s (tidy, part) = (stop_globe_service-IsTidy s tidy, part)

  service_begin-IsKept :
      (station : Coordinates) (s : GlobeService) → IsKept s → IsKept (service_begin station s)
  unfolding service_begin
  service_begin-IsKept station s k = k

  tick-IsKept :
      (now : ℕ) (task : Task) (s : GlobeService) (m : StateManager)
      → IsKept s
      → IsKept (tick lib now task s m).0
  unfolding tick update_ground_tracks
  tick-IsKept now sends_positions s m k = k
  tick-IsKept now renews_tracks s m (tidy, part) =
      (tidy, tracks_of-IsPart now s.cached_tles satellites)

  IsReached-IsKept : {s : GlobeService} → IsReached lib s → IsKept s
  IsReached-IsKept new = unfold initial_globe in (inl (refl, refl, refl), none-IsPart _)
  IsReached-IsKept (begun {s = s} station r) = service_begin-IsKept station s (IsReached-IsKept r)
  IsReached-IsKept (ended {s = s} now w files m p q r) =
      service_end-IsKept now w files s m p q (IsReached-IsKept r)
  IsReached-IsKept (stopped {s = s} r) = stop-IsKept s (IsReached-IsKept r)
  IsReached-IsKept (ticked {s = s} now task m r) = tick-IsKept now task s m (IsReached-IsKept r)

  -- Where a start ends only while no interval is held, at every moment either no interval runs, or
  -- one sends the positions, one renews the tracks, and the service holds the handles of both. The
  -- positions that it computes, and the tracks that it keeps, are each of some of the satellites,
  -- at most once and in their order.
  pub IsReached-compute_current_positions :
      {s : GlobeService} (now : ℕ)
      → IsReached lib s
      → IsTidy s
        × IsPart (position_ids (compute_current_positions lib now s)) (satellite_ids satellites)
        × IsPart (track_ids s.cached_ground_tracks) (satellite_ids satellites)
  unfolding compute_current_positions
  IsReached-compute_current_positions {s} now r =
      let (tidy, part) = IsReached-IsKept r in
      (tidy, positions_of-IsPart now s.cached_tles satellites, part)
