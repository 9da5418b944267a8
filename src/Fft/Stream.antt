-- ===== src/Fft/Stream.antt =====
-- src/backend/capture/fft-stream.ts: the life of the stream. A function that awaits is cut at its
-- awaits: the parts run to completion, and other events may come between them.
pub mod Laws
mod Races
use noaa_satellite_capture.Base.{
  ℕ, ◌-◌, String, Bool, true, false, not, ◌&&◌, Option, none, some, ltb, ◌==◌, if◌then◌else◌,
}
use noaa_satellite_capture.Fft.{FftData, FftStreamConfig, min_restart_delay_ms}

-- The child process that `sdrProcess` names, by a number of its own.
pub record SdrProcess : Type 0 where
  pub pid : ℕ
  pub killed : Bool

-- The variables of the module; a callback is a number.
pub record FftStream : Type 0 where
  pub sdr_process : Option SdrProcess
  pub current_callback : Option ℕ
  pub current_config : Option FftStreamConfig
  pub is_running : Bool
  pub is_starting : Bool
  pub last_stop_time : ℕ
  pub last_error : Option String
  pub latest_data : Option FftData
  pub averaging_count : ℕ

unfoldable pub initial_stream : FftStream
initial_stream = record {
  sdr_process = none;
  current_callback = none;
  current_config = none;
  is_running = false;
  is_starting = false;
  last_stop_time = 0;
  last_error = none;
  latest_data = none;
  averaging_count = 0;
}

-- `sdrProcess && !sdrProcess.killed`.
abbrev pub is_alive : Option SdrProcess → Bool
is_alive none = false
is_alive (some p) = not p.killed

unfoldable pub is_fft_stream_running : FftStream → Bool
is_fft_stream_running s = s.is_running && is_alive s.sdr_process

-- The part of `stopFFTStream` before its await, and whether it waits.
unfoldable pub stop_begin : FftStream → FftStream × Bool
stop_begin s =
    if is_alive s.sdr_process then (record s { sdr_process = none }, true) else (s, false)

-- The part after it, at the time `now`.
unfoldable pub stop_end : ℕ → Bool → FftStream → FftStream
stop_end now waited s = record s {
  last_stop_time = if waited then now else s.last_stop_time;
  current_callback = none;
  current_config = none;
  is_running = false;
  averaging_count = 0;
  latest_data = none;
  last_error = none;
}

-- `stopFFTStream`, where nothing comes between its parts.
unfoldable pub stop_fft_stream : ℕ → FftStream → FftStream
unfolding stop_begin stop_end
stop_fft_stream now s = let (s', waited) = stop_begin s in stop_end now waited s'

-- `currentConfig?.frequency === frequency`.
abbrev pub is_at : ℕ → Option FftStreamConfig → Bool
is_at frequency none = false
is_at frequency (some c) = c.frequency == frequency

-- What the part of `startFFTStream` before its first await decides.
pub data StartDecision : Type 0 where
  returns : Bool → StartDecision
  restarts : StartDecision
  proceeds : StartDecision

unfoldable pub start_begin : FftStreamConfig → ℕ → FftStream → FftStream × StartDecision
start_begin config callback s =
    if s.is_starting
    then (s, returns false)
    else if s.is_running && is_at config.frequency s.current_config
    then (record s { current_callback = some callback }, returns true)
    else if s.is_running
    then (record s { is_starting = true }, restarts)
    else (record s { is_starting = true }, proceeds)

-- The time that `startFFTStream` sleeps for the device to be released.
unfoldable pub release_wait : ℕ → FftStream → ℕ
release_wait now s =
    if ltb (now - s.last_stop_time) min_restart_delay_ms && ltb 0 s.last_stop_time
    then min_restart_delay_ms - (now - s.last_stop_time)
    else 0

-- The last part: `spawn` gives a process, or throws.
unfoldable pub start_spawn : FftStreamConfig → ℕ → Option ℕ → FftStream → FftStream × Bool
start_spawn config callback (some pid) s = (
  record s {
    sdr_process = some (record { pid = pid; killed = false });
    current_callback = some callback;
    current_config = some config;
    is_running = true;
    is_starting = false;
    last_error = none;
  },
  true,
)
start_spawn config callback none s = (record s { is_running = false; is_starting = false }, false)

-- `startFFTStream`, where nothing comes between its parts.
unfoldable pub start_fft_stream : ℕ → FftStreamConfig → ℕ → Option ℕ → FftStream → FftStream × Bool
unfolding start_begin start_spawn stop_fft_stream
start_fft_stream now config callback spawned s =
    let (s', decision) = start_begin config callback s in
    elim decision [
      | returns b ↦ (s', b)
      | restarts ↦ start_spawn config callback spawned (stop_fft_stream now s')
      | proceeds ↦ start_spawn config callback spawned s'
    ]

-- The handlers of the process's 'error' and 'close' events.
unfoldable pub on_error : String → FftStream → FftStream
on_error message s = record s { last_error = some message; is_running = false; is_starting = false }

abbrev or_message : Option String → String → Option String
or_message none m = some m
or_message (some e) m = some e

-- `message` is the text for a code that is neither null nor 0.
unfoldable pub on_close : ℕ → Option String → FftStream → FftStream
on_close now failure s = record s {
  last_error = elim failure [ none ↦ s.last_error | some m ↦ or_message s.last_error m ];
  is_running = false;
  is_starting = false;
  sdr_process = none;
  last_stop_time = now;
}

unfoldable pub get_fft_stream_config : FftStream → Option FftStreamConfig
get_fft_stream_config s = s.current_config

unfoldable pub update_fft_frequency : ℕ → ℕ → Option ℕ → FftStream → FftStream × Bool
unfolding start_fft_stream
update_fft_frequency now frequency spawned s = elim s.current_config [
  | none ↦ (s, false)
  | some config ↦ elim s.current_callback [
    | none ↦ (s, false)
    | some callback ↦
        start_fft_stream now (record config { frequency = frequency }) callback spawned s
  ]
]
