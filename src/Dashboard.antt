-- ===== src/Dashboard.antt =====
-- src/frontend/src/hooks/useWebSocket.ts: what the dashboard keeps of the messages of the web server, and
-- its reconnection. The messages are those that the model of the server sends.
mod State
pub mod Laws
pub mod Reconnect
mod Tests
pub use State.*
use noaa_satellite_capture.Base.{
  ℕ, ◌+◌, ◌*◌, String, Bool, true, false, Option, none, some, List, [], ◌∷◌, ltb, if◌then◌else◌,
  min_of, head?,
}
use noaa_satellite_capture.Types.{
  GlobeState, SatellitePass, SystemStatus, idle, SystemState, StateEvent, status_change, pass_start,
  pass_complete, capture_progress, passes_updated, satellite_positions, scanning_frequency,
}
use noaa_satellite_capture.Fft.{FftData, FftStreamConfig}
use noaa_satellite_capture.Web.{
  Message, welcomes, fft_history, fft_subscribed, fft_unsubscribed, gain_updated, fft_data,
  fft_error, state_event,
}

-- `data.state` of the message 'init'.
abbrev pub received : SystemState → ClientState
received s = record {
  status = from_server s.status;
  current_pass = s.current_pass;
  next_pass = s.next_pass;
  upcoming_passes = s.upcoming_passes;
  scanning_frequency = s.scanning_frequency;
  scanning_frequency_name = s.scanning_frequency_name;
}

-- `setSystemState((prev) => (prev ? {...} : null))`.
abbrev pub update_state : (ClientState → ClientState) → Dashboard → Dashboard
update_state f d = elim d.system_state [
  | none ↦ d
  | some s ↦ record d { system_state = some (f s) }
]

-- The messages that the state manager's events become. Those of the kind `status_change` carry no
-- `message`, so the text beside the status is never set, and has no field here.
unfoldable pub on_state_event : StateEvent → Dashboard → Dashboard
on_state_event (status_change status) d =
    update_state (λ s. record s { status = from_server status }) d
on_state_event (capture_progress progress elapsed total) d = record d {
  progress = some (record { percentage = progress; elapsed = elapsed; total = total });
}
on_state_event (pass_start pass) d =
    update_state (λ s. record s { current_pass = some pass; status = recording }) d
on_state_event (pass_complete result) d =
    record (update_state (λ s. record s { current_pass = none; status = from_server idle }) d) {
      progress = none;
    }
on_state_event (passes_updated passes) d =
    update_state (λ s. record s { upcoming_passes = passes; next_pass = head? passes })
      (record d { passes = passes })
on_state_event (satellite_positions globe) d = record d { globe_state = some globe }
on_state_event (scanning_frequency frequency name) d =
    update_state
      (λ s. record s { scanning_frequency = some frequency; scanning_frequency_name = some name }) d

abbrev or_globe : Option GlobeState → Option GlobeState → Option GlobeState
or_globe none old = old
or_globe (some globe) old = some globe

-- `prev.error ? { ...prev, running: true, error: null } : prev`.
abbrev clear_error : FftState → FftState
clear_error f = elim f.error [ none ↦ f | some e ↦ record f { running = true; error = none } ]

abbrev push_frames : List FftData → List FftData → List FftData
push_frames [] frames = frames
push_frames (f ∷ fs) frames = push_frames fs (f ∷ frames)

-- `ws.onmessage`; a gain is no case of the switch.
unfoldable pub on_message : Message → Dashboard → Dashboard
unfolding on_state_event
on_message (welcomes state globe running config filters last_error) d = record d {
  system_state = some (received state);
  globe_state = or_globe globe d.globe_state;
  passes = state.upcoming_passes;
  fft_state = record { running = running; config = config; error = last_error };
}
on_message (fft_history frames) d = record d { frames = push_frames frames d.frames }
on_message (fft_subscribed running config error) d = record d {
  fft_state = record { running = running; config = config; error = error };
}
on_message fft_unsubscribed d = record d {
  fft_state = record { running = false; config = none; error = none };
}
on_message (gain_updated gain) d = d
on_message (fft_data frame) d = record d {
  fft_state = clear_error d.fft_state;
  frames = frame ∷ d.frames;
}
on_message (fft_error error) d = record d {
  fft_state = record d.fft_state { running = false; error = some error };
}
on_message (state_event event) d = on_state_event event d

-- `connect`.
unfoldable pub connect : Dashboard → Dashboard
connect d = record d { has_socket = true }

unfoldable pub on_open : Dashboard → Dashboard
on_open d = record d {
  reconnect_attempts = 0;
  ws_state = record { connected = true; error = none; reconnect_attempts = 0 };
}

-- The defaults of `maxReconnectAttempts` and `reconnectDelay`.
abbrev pub max_reconnect_attempts : ℕ
max_reconnect_attempts = 20

abbrev pub reconnect_delay : ℕ
reconnect_delay = 1000

unfoldable pub on_close : Dashboard → Dashboard
on_close d =
    let closed = record d {
      ws_state = record d.ws_state { connected = false; error = none };
      has_socket = false;
    } in
    let attempts = d.reconnect_attempts + 1 in
    if ltb d.reconnect_attempts max_reconnect_attempts
    then record closed {
      reconnect_attempts = attempts;
      ws_state = record closed.ws_state { reconnect_attempts = attempts };
      timers = reconnect_delay * min_of attempts 10 ∷ d.timers;
    }
    else closed

unfoldable pub on_error : Dashboard → Dashboard
on_error d = record d { ws_state = record d.ws_state { error = some "Connection error" } }
