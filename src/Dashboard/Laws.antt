-- ===== src/Dashboard/Laws.antt =====
-- The dashboard's copy of the server's state.

use noaa_satellite_capture.Base.{ℕ, ◌≡◌, Option, List, [], ◌∷◌, In}
use noaa_satellite_capture.Types.{
  GlobeState, SatellitePass, SystemStatus, capturing, SystemState, StateEvent,
}
use noaa_satellite_capture.StateManager.{StateManager}
use noaa_satellite_capture.StateManager.Laws.{Call, apply}
use noaa_satellite_capture.Web.{welcomes, state_event}
use noaa_satellite_capture.Dashboard.{
  ClientStatus, from_server, recording, ClientState, FftState, Dashboard, on_message,
}

abbrev pub deliver : List StateEvent → Dashboard → Dashboard
deliver [] d = d
deliver (e ∷ es) d = on_message (state_event e) d

-- Each call on the state manager, followed by the delivery of its event to the dashboard.
unfoldable pub run_shown : List (ℕ × Call) → StateManager → Dashboard → StateManager × Dashboard
run_shown [] m d = (m, d)
run_shown ((now, c) ∷ cs) m d =
    let next = apply now c m in run_shown cs next (deliver next.emitted d)

-- The words that the dashboard may hold for a status of the server: the server's own, or 'recording'
-- for 'capturing'.
abbrev pub Shows : ClientStatus → SystemStatus → Type 0
Shows (from_server t) s = t ≡ s
Shows recording s = s ≡ capturing

-- The dashboard has a state, with the status and the current pass of the server, and each upcoming pass
-- of the server.
pub record IsMirror (s : SystemState) (c : ClientState) : Type 0 where
  pub same_status : Shows c.status s.status
  pub same_pass : c.current_pass ≡ s.current_pass
  pub has_passes : (p : SatellitePass) → In p s.upcoming_passes → In p c.upcoming_passes

-- What a connection brings: the message 'init', and then any calls with their events.
abbrev pub shown_after_init :
    List (ℕ × Call)
    → StateManager
    → Option GlobeState
    → FftState
    → Dashboard
    → StateManager × Dashboard
shown_after_init cs m globe fft d =
    run_shown cs m (on_message (welcomes m.state globe fft.running fft.config [] fft.error) d)
