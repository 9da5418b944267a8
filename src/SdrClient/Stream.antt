-- ===== src/SdrClient/Stream.antt =====
-- `RemoteFFTStream` of src/backend/sdr-client/index.ts. Sockets and timers are numbers; a socket's
-- handlers act on the object whatever socket it holds by then.
use noaa_satellite_capture.Base.{
  ℕ, ◌+◌, ◌*◌, ◌^◌, Bool, true, false, not, ◌&&◌, ◌||◌, Option, none, some, List, [], ◌∷◌, ltb,
  ◌==◌, if◌then◌else◌, min_of, filter,
}
use noaa_satellite_capture.Fft.{FftData, FftStreamConfig}
use noaa_satellite_capture.Web.Socket.{delete}

-- `live` are the sockets that have been made and whose 'close' event has not come, `open_sockets` those
-- among them that are open, `armed` the timers with the delays they were given; `frames` and `sent`
-- are newest first.
pub record RemoteStream : Type 0 where
  pub ws : Option ℕ
  pub callback : Option ℕ
  pub current_config : Option FftStreamConfig
  pub running : Bool
  pub reconnect_attempts : ℕ
  pub reconnect_timeout : Option ℕ
  pub live : List ℕ
  pub open_sockets : List ℕ
  pub armed : List (ℕ × ℕ)
  pub next_id : ℕ
  pub frames : List (ℕ × FftData)
  pub sent : List (ℕ × FftStreamConfig)

abbrev pub max_reconnect_attempts : ℕ
max_reconnect_attempts = 10

abbrev pub new_remote_stream : RemoteStream
new_remote_stream = record {
  ws = none;
  callback = none;
  current_config = none;
  running = false;
  reconnect_attempts = 0;
  reconnect_timeout = none;
  live = [];
  open_sockets = [];
  armed = [];
  next_id = 0;
  frames = [];
  sent = [];
}

-- `connect`; the constructor of a socket throws where the address is not one.
unfoldable pub connect : Bool → RemoteStream → RemoteStream
connect is_address s =
    if is_address
    then record s { ws = some s.next_id; live = s.next_id ∷ s.live; next_id = s.next_id + 1 }
    else s

-- `start`, with the answer of `connect`.
unfoldable pub start : Bool → FftStreamConfig → ℕ → RemoteStream → RemoteStream × Bool
unfolding connect
start is_address config callback s = (
  connect is_address (record s { callback = some callback; current_config = some config }),
  is_address,
)

abbrev subscribe_on :
    Option ℕ → FftStreamConfig → List (ℕ × FftStreamConfig) → List (ℕ × FftStreamConfig)
subscribe_on none config sent = sent
subscribe_on (some ws) config sent = (ws, config) ∷ sent

-- `ws.onopen` of a socket that was made with `config`; it subscribes on the socket that is held now.
unfoldable pub on_open : ℕ → FftStreamConfig → RemoteStream → RemoteStream
on_open ws config s = record s {
  open_sockets = ws ∷ s.open_sockets;
  reconnect_attempts = 0;
  running = true;
  sent = subscribe_on s.ws config s.sent;
}

-- `ws.onmessage` with a frame.
unfoldable pub on_frame : FftData → RemoteStream → RemoteStream
on_frame frame s = elim s.callback [
  | none ↦ s
  | some callback ↦ record s { frames = (callback, frame) ∷ s.frames }
]

-- `Math.min(1000 * 2 ** attempts, 30000)`.
abbrev pub delay_of : ℕ → ℕ
delay_of attempts = min_of (1000 * 2 ^ attempts) 30_000

abbrev pub has_callback : Option ℕ → Bool
has_callback none = false
has_callback (some c) = true

-- `ws.onclose` of any socket.
unfoldable pub on_close : ℕ → RemoteStream → RemoteStream
on_close ws s =
    let closed = record s {
      live = delete ws s.live;
      open_sockets = delete ws s.open_sockets;
      running = false;
    } in
    if has_callback s.callback && ltb s.reconnect_attempts max_reconnect_attempts
    then record closed {
      reconnect_attempts = s.reconnect_attempts + 1;
      reconnect_timeout = some s.next_id;
      armed = (s.next_id, delay_of (s.reconnect_attempts + 1)) ∷ s.armed;
      next_id = s.next_id + 1;
    }
    else closed

abbrev not_timer : ℕ → ℕ × ℕ → Bool
not_timer t (u, delay) = not (u == t)

-- The callback of a timer.
unfoldable pub fire : Bool → ℕ → RemoteStream → RemoteStream
unfolding connect
fire is_address t s =
    let fired = record s { armed = filter (not_timer t) s.armed } in
    elim s.current_config [ none ↦ fired | some config ↦ connect is_address fired ]

abbrev clear_timeout : Option ℕ → List (ℕ × ℕ) → List (ℕ × ℕ)
clear_timeout none armed = armed
clear_timeout (some t) armed = filter (not_timer t) armed

-- `stop`; the close of the socket that it asks for comes later.
unfoldable pub stop : RemoteStream → RemoteStream
stop s = record s {
  armed = clear_timeout s.reconnect_timeout s.armed;
  reconnect_timeout = none;
  ws = none;
  callback = none;
  current_config = none;
  running = false;
}

abbrev holds : ℕ → List ℕ → Bool
holds x [] = false
holds x (y ∷ ys) = (x == y) || holds x ys

abbrev pub is_open : Option ℕ → List ℕ → Bool
is_open none sockets = false
is_open (some ws) sockets = holds ws sockets

-- `isRunning`.
unfoldable pub is_running : RemoteStream → Bool
is_running s = s.running && is_open s.ws s.open_sockets

abbrev with_frequency : ℕ → Option FftStreamConfig → Option FftStreamConfig
with_frequency frequency none = none
with_frequency frequency (some config) = some (record config { frequency = frequency })

-- `updateFrequency`; the message of the change is not kept.
unfoldable pub update_frequency : ℕ → RemoteStream → RemoteStream × Bool
update_frequency frequency s =
    if is_open s.ws s.open_sockets
    then (record s { current_config = with_frequency frequency s.current_config }, true)
    else (s, false)
