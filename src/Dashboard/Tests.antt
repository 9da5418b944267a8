-- ===== src/Dashboard/Tests.antt =====
-- A dashboard that connects, and the theorems of src/frontend/src/hooks/useWebSocket.ts at it.
use noaa_satellite_capture.Base.{ℕ, ◌+◌, ◌≡◌, List, [], ◌∷◌, length, pos}
use noaa_satellite_capture.Types.{SatellitePass}
use noaa_satellite_capture.Satellites.{meteor_n2_3}
use noaa_satellite_capture.StateManager.Laws.{Call, starts_pass, updates_passes}
use noaa_satellite_capture.Dashboard.{initial_dashboard, on_open}
use noaa_satellite_capture.Dashboard.Reconnect.{
  opens, closes, fails, handle_all, IsBounded, closes_times, handle_all-reconnects,
}

abbrev shown_pass : SatellitePass
shown_pass = record {
  satellite = meteor_n2_3;
  aos = 1_000_000;
  los = 1_600_000;
  max_elevation = pos 30_000;
  max_elevation_time = 1_300_000;
  duration = 600_000;
}

abbrev calls : List (ℕ × Call)
calls = (10, updates_passes (shown_pass ∷ [])) ∷ (20, starts_pass shown_pass) ∷ []

handle_all-reconnects_example :
    let d = handle_all (opens ∷ closes ∷ fails ∷ []) initial_dashboard in
    IsBounded d × (length (handle_all (closes_times 30) (on_open d)).timers ≡ length d.timers + 20)
handle_all-reconnects_example = handle_all-reconnects (opens ∷ closes ∷ fails ∷ []) 30
