-- ===== src/Web/Tests.antt =====
-- The server of src/middleware/web/server.ts over a few inputs, and its theorems at them.

use noaa_satellite_capture.Satellites.{meteor_n2_3}
use noaa_satellite_capture.Base.{
  ℕ, String, ◌≡◌, refl, Bool, true, false, none, some, List, [], ◌∷◌, arith, if◌then◌else◌, pos,
  neg,
}
use noaa_satellite_capture.AutoGain.{noaa}
use noaa_satellite_capture.Types.{SatellitePass, capturing, SystemState, status_change}
use noaa_satellite_capture.Fft.{FftData, FftStreamConfig}
use noaa_satellite_capture.Fft.Stream.{FftStream}
use noaa_satellite_capture.Web.{WebServer, Environment, server_auto_gain_config, initial_server}
use noaa_satellite_capture.Web.Socket.{fft_subscribe, fft_set_gain, on_message}
use noaa_satellite_capture.Base.Strings.{starts_with}
use noaa_satellite_capture.Web.Files.{
  FileSystem, content, serve_image_path, serve_image_path_escapes,
}
use noaa_satellite_capture.Web.Inputs.{Input, connects, says, frames, fires_start, serve_all}
use noaa_satellite_capture.Web.Bounds.Kept.{IsBounded}
use noaa_satellite_capture.Web.Bounds.{serve_all-initial_server-IsBounded}
use noaa_satellite_capture.Web.Debounced.{IsDebounced}
use noaa_satellite_capture.Web.Timers.{serve_all-initial_server-IsDebounced}
use noaa_satellite_capture.Web.Requests.{in_use_starts_nothing}
use noaa_satellite_capture.StateManager.{initial}

abbrev env : Environment
env = record { default_gain = pos 20_000; has_sdr_gain = false }

abbrev reaches : ℕ → Bool
reaches ws = true

abbrev frame : FftData
frame = record {
  timestamp = 5;
  center_freq = 137_500_000;
  bins = neg 90_000 ∷ neg 91_000 ∷ [];
  min_power = neg 91_000;
  max_power = neg 90_000;
}

abbrev start_state : SystemState
start_state = (initial 0).state

abbrev capture_state : SystemState
capture_state = record start_state { status = capturing }

abbrev inputs : List (ℕ × Input)
inputs =
    (1, connects start_state none 3)
    ∷ (2, says start_state 3 (fft_subscribe none))
    ∷ (502, fires_start (some 7) 0)
    ∷ (540, frames reaches frame)
    ∷ (600, says start_state 3 (fft_set_gain (some (pos 30_000))))
    ∷ []

serve_all-initial_server-IsBounded_example : IsBounded (serve_all env inputs (initial_server env))
serve_all-initial_server-IsBounded_example =
    serve_all-initial_server-IsBounded env inputs (omega arith) (omega arith)

serve_all-initial_server-IsDebounced_example :
    IsDebounced (serve_all env inputs (initial_server env))
serve_all-initial_server-IsDebounced_example = serve_all-initial_server-IsDebounced env inputs

abbrev settings : FftStreamConfig
settings = record {
  frequency = 137_500_000;
  bandwidth = 200_000;
  fft_size = 2_048;
  gain = pos 20_000;
  update_rate = 30;
}

abbrev streaming : FftStream
streaming = record {
  sdr_process = some (record { pid = 7; killed = false });
  current_callback = some 1;
  current_config = some settings;
  is_running = true;
  is_starting = false;
  last_stop_time = 0;
  last_error = none;
  latest_data = none;
  averaging_count = 0;
}

abbrev busy : WebServer
busy = record {
  clients = 3 ∷ [];
  fft_subscribers = 3 ∷ [];
  current_gain = pos 20_000;
  current_band = noaa;
  band_gain_store = [];
  auto_gain = record {
    config = server_auto_gain_config;
    state = record { enabled = true; current_gain = pos 20_000; samples = [] };
  };
  pending_fft_start = some 4;
  pending_fft_stop = none;
  start_timers = (4, 137_100_000) ∷ [];
  starts_under_way = [];
  stop_timers = [];
  next_timer = 5;
  fft_history_buffer = [];
  stream = streaming;
  notch_filters = [];
  sent = [];
}

in_use_starts_nothing_example :
    (on_message capture_state 3 (fft_subscribe none) busy).start_timers ≡ busy.start_timers
in_use_starts_nothing_example =
    (in_use_starts_nothing reaches 9 3 none capture_state (status_change capturing) busy refl).0

abbrev pass : SatellitePass
pass = record {
  satellite = meteor_n2_3;
  aos = 1_000_000;
  los = 1_600_000;
  max_elevation = pos 55_000;
  max_elevation_time = 1_300_000;
  duration = 600_000;
}

abbrev disk : FileSystem
disk = record {
  resolve = λ (dir name : String). if starts_with name "/" then name else dir;
  file_exists = λ (path : String). true;
  read_file = λ (path : String). some "secret";
}

serve_image_path_escapes_example :
    serve_image_path disk (λ (s : String). s) "/srv/images" "/images//etc/passwd"
    ≡ some (content "image/png" "secret")
serve_image_path_escapes_example =
    serve_image_path_escapes disk (λ (s : String). s) "/srv/images" "/images//etc/passwd" "secret"
      refl (λ (d : String). refl) refl refl refl
