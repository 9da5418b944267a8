-- ===== src/Web/Inputs.antt =====
-- Everything that reaches the server of src/middleware/web/server.ts, as one step.

use noaa_satellite_capture.Base.{ℕ, Bool, Option, List, [], ◌∷◌}
use noaa_satellite_capture.Types.{GlobeState, SystemState, StateEvent}
use noaa_satellite_capture.Fft.{FftData}
use noaa_satellite_capture.Web.{WebServer, Environment}
use noaa_satellite_capture.Web.Stream.{fire_start, end_start, broadcast_fft_data}
use noaa_satellite_capture.Web.Socket.{
  ClientMessage, on_connection, on_socket_close, fire_stop, on_message, on_state_event,
}
use noaa_satellite_capture.Web.Http.{Request, handle}

-- Anything that reaches the server: a socket or its end, a message, a request, a frame, an event of
-- the state, a timer, and the end of
-- a start that has fired.
pub data Input : Type 0 where
  connects : SystemState → Option GlobeState → ℕ → Input
  disconnects : ℕ → Input
  says : SystemState → ℕ → ClientMessage → Input
  requests : Option ℕ → Request → Input
  frames : (ℕ → Bool) → FftData → Input
  follows : (ℕ → Bool) → SystemState → StateEvent → Input
  fires_start : Option ℕ → ℕ → Input
  ends_start : Option ℕ → Input
  fires_stop : ℕ → Input

unfoldable pub serve : Environment → ℕ → Input → WebServer → WebServer
serve env now (connects state globe ws) s = on_connection state globe ws s
serve env now (disconnects ws) s = on_socket_close ws s
serve env now (says state ws message) s = on_message state ws message s
serve env now (requests spawned r) s = (handle now spawned r s).0
serve env now (frames sends frame) s = broadcast_fft_data sends frame s
serve env now (follows sends state event) s = on_state_event sends now state event s
serve env now (fires_start spawned t) s = fire_start env now spawned t s
serve env now (ends_start this_timeout) s = end_start this_timeout s
serve env now (fires_stop t) s = fire_stop now t s

unfoldable pub serve_all : Environment → List (ℕ × Input) → WebServer → WebServer
unfolding serve
serve_all env [] s = s
serve_all env ((now, i) ∷ inputs) s = serve_all env inputs (serve env now i s)
