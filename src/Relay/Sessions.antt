-- ===== src/Relay/Sessions.antt =====
-- src/sdr-relay/server.ts: the state of the relay, and the handlers of its requests and sockets.
use noaa_satellite_capture.Base.{
  ℕ, String, Bool, true, false, not, ◌&&◌, Option, none, some, List, [], ◌∷◌, ◌++◌, map, str_eq,
  ◌==◌, if◌then◌else◌, filter, find,
}
use noaa_satellite_capture.Fft.{FftData, FftStreamConfig}
use noaa_satellite_capture.Fft.Stream.{
  FftStream, initial_stream, is_fft_stream_running, stop_fft_stream, start_fft_stream,
  update_fft_frequency,
}

pub data SessionStatus : Type 0 where
  recording complete : SessionStatus

-- An entry of `activeSessions`, with the file and the frequency of its recording session; the
-- progress is in hundredths of the whole.
pub record SessionData : Type 0 where
  pub start_time : ℕ
  pub duration_seconds : ℕ
  pub status : SessionStatus
  pub progress : ℕ
  pub output_path : String
  pub frequency : ℕ

pub data SdrMode : Type 0 where
  idle fft records : SdrMode

abbrev pub is_recording_mode : SdrMode → Bool
is_recording_mode records = true
is_recording_mode _ = false

abbrev pub is_recording_session : SessionStatus → Bool
is_recording_session recording = true
is_recording_session complete = false

pub data RelayMessage : Type 0 where
  says_error : String → RelayMessage
  subscribed : FftStreamConfig → RelayMessage
  unsubscribed : RelayMessage
  says_data : FftData → RelayMessage

-- The variables of the module; sockets are numbers, and `sent` is newest first.
pub record Relay : Type 0 where
  pub fft_subscribers : List ℕ
  pub active_sessions : List (String × SessionData)
  pub current_mode : SdrMode
  pub stream : FftStream
  pub sent : List (ℕ × RelayMessage)

unfoldable pub initial_relay : Relay
initial_relay = record {
  fft_subscribers = [];
  active_sessions = [];
  current_mode = idle;
  stream = initial_stream;
  sent = [];
}

abbrev pub relay_callback : ℕ
relay_callback = 2

-- `activeSessions.get` and `activeSessions.set`.
unfoldable pub get_session : String → List (String × SessionData) → Option SessionData
get_session id [] = none
get_session id ((key, d) ∷ sessions) = if str_eq key id then some d else get_session id sessions

unfoldable pub set_session :
    String → SessionData → List (String × SessionData) → List (String × SessionData)
set_session id d [] = (id, d) ∷ []
set_session id d ((key, e) ∷ sessions) =
    if str_eq key id then (key, d) ∷ sessions else (key, e) ∷ set_session id d sessions

abbrev say : ℕ → RelayMessage → Relay → Relay
say ws message r = record r { sent = (ws, message) ∷ r.sent }

abbrev delete : ℕ → List ℕ → List ℕ
delete ws subscribers = filter (λ (u : ℕ). not (u == ws)) subscribers

abbrev add : ℕ → List ℕ → List ℕ
add ws subscribers = elim (find (λ (u : ℕ). u == ws) subscribers) [
  | none ↦ subscribers ++ ws ∷ []
  | some u ↦ subscribers
]

abbrev is_empty : List ℕ → Bool
is_empty [] = true
is_empty (x ∷ xs) = false

unfoldable pub broadcast_fft_data : (ℕ → Bool) → FftData → Relay → Relay
broadcast_fft_data sends frame r =
    let reached = filter sends r.fft_subscribers in
    record r {
      sent = map (λ (ws : ℕ). (ws, says_data frame)) reached ++ r.sent;
      fft_subscribers = reached;
    }

pub data RelayRequest : Type 0 where
  subscribe : FftStreamConfig → RelayRequest
  unsubscribe : RelayRequest
  set_frequency : ℕ → RelayRequest
  unknown_type : RelayRequest

-- `handleFFTMessage`. The promise of `startFFTStream` is always truthy, so the branch for a start
-- that failed is never taken; the start runs to its end here before anything else comes.
unfoldable pub handle_fft_message : ℕ → Option ℕ → ℕ → RelayRequest → Relay → Relay
handle_fft_message now spawned ws (subscribe config) r =
    let added = record r { fft_subscribers = add ws r.fft_subscribers } in
    let started = record added {
      stream = (start_fft_stream now config relay_callback spawned r.stream).0;
      current_mode = fft;
    } in
    if is_recording_mode r.current_mode
    then say ws (says_error "SDR is currently recording") r
    else say ws (subscribed config) (if is_fft_stream_running r.stream then added else started)
handle_fft_message now spawned ws unsubscribe r =
    let left = say ws unsubscribed (record r { fft_subscribers = delete ws r.fft_subscribers }) in
    if is_empty left.fft_subscribers && is_fft_stream_running r.stream
    then record left { stream = stop_fft_stream now r.stream; current_mode = idle }
    else left
handle_fft_message now spawned ws (set_frequency frequency) r =
    if is_fft_stream_running r.stream
    then record r { stream = (update_fft_frequency now frequency spawned r.stream).0 }
    else r
handle_fft_message now spawned ws unknown_type r = say ws (says_error "Unknown message type") r

-- The handler of a socket's 'close'.
unfoldable pub on_close_socket : ℕ → ℕ → Relay → Relay
on_close_socket now ws r =
    let left = record r { fft_subscribers = delete ws r.fft_subscribers } in
    if is_empty left.fft_subscribers && is_fft_stream_running r.stream
    then record left { stream = stop_fft_stream now r.stream; current_mode = idle }
    else left

-- `POST /sdr/tune`; the answer repeats the frequency.
unfoldable pub tune : ℕ → Option ℕ → ℕ → Relay → Relay × ℕ
tune now spawned frequency r = (
  if is_fft_stream_running r.stream
      then record r { stream = (update_fft_frequency now frequency spawned r.stream).0 }
      else r,
  frequency,
)
