-- ===== src/SdrClient/Relayed.antt =====
-- The download of a recording from the relay of src/sdr-relay/server.ts: the client's request goes
-- through the relay's routes.

use noaa_satellite_capture.Base.{
  String, ◌≡◌, refl, sym, ◌∙◌, inl, inr, Option, some, arith, Option-cases,
}
use noaa_satellite_capture.Relay.{
  SessionData, Relay, get_session, RelayAnswer, session, audio, get_capture, get_audio,
}
use noaa_satellite_capture.Relay.Routes.{
  preflight, status_route, tune_route, start_route, stop_route, session_route, audio_route,
  signal_route, health_route, not_found, route, route_never_audio,
}
use noaa_satellite_capture.SdrClient.Recorder.{not_ok, AudioAnswer, body}
use Prim.Native.String.{◌++◌ as ◌+++◌}
use text.Mathlib.TextPositions.{starts_with-append}

-- `${relayUrl}/sdr/capture/${sessionId}/audio`, as the relay sees it.
abbrev pub audio_path : String → String
audio_path id = "/sdr/capture/" +++ (id +++ "/audio")

-- The body of an answer: a file, or the JSON of a session; any other answer to the download is not ok.
abbrev pub as_audio : (SessionData → String) → RelayAnswer → AudioAnswer
as_audio json (session d) = body (json d)
as_audio json (audio bytes) = body bytes
as_audio json _ = not_ok

-- What the relay answers to the download.
unfoldable pub relay_audio :
    (SessionData → String) → (String → Option String) → Relay → String → AudioAnswer
relay_audio json read_file r id = elim (route "GET" (audio_path id)) [
  | session_route ↦ as_audio json (get_capture id r)
  | audio_route ↦ as_audio json (get_audio read_file id r)
  | preflight ↦ not_ok
  | status_route ↦ not_ok
  | tune_route ↦ not_ok
  | start_route ↦ not_ok
  | stop_route ↦ not_ok
  | signal_route ↦ not_ok
  | health_route ↦ not_ok
  | not_found ↦ not_ok
]

-- The download is answered as a question for the session.
relay_audio_lem :
    (json : SessionData → String) (read_file : String → Option String) (r : Relay) (id : String)
    → relay_audio json read_file r id ≡ as_audio json (get_capture id r)
unfolding relay_audio
relay_audio_lem json read_file r id =
    let asked =
      (route_never_audio "GET" (audio_path id)).1
        (starts_with-append "/sdr/capture/" (id +++ "/audio")) in
    rw (asked, relay_audio) refl

-- The body is the JSON of a session of the relay.
pub relay_audio_body :
    (json : SessionData → String) (read_file : String → Option String) (r : Relay)
    (id bytes : String)
    → relay_audio json read_file r id ≡ body bytes
    → (d : SessionData) × (get_session id r.active_sessions ≡ some d) × (json d ≡ bytes)
unfolding get_capture
relay_audio_body json read_file r id bytes e =
    let answer = sym (relay_audio_lem json read_file r id) ∙ e in
    elim (Option-cases (get_session id r.active_sessions)) [
      | inl none_ ↦ absurd (ground arith)
      | inr (d, found) ↦ (d, found, ground arith)
    ]
