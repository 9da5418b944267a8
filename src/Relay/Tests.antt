-- ===== src/Relay/Tests.antt =====
-- The relay of src/sdr-relay/server.ts over a few requests, and its theorems at them.

use noaa_satellite_capture.Base.{◌≡◌, refl, true, false, none, some, [], ◌∷◌, pos}
use noaa_satellite_capture.Fft.{FftStreamConfig}
use noaa_satellite_capture.Relay.{
  SessionStatus, recording, complete, SessionData, fft, records, Relay, relay_callback,
}
use noaa_satellite_capture.Base.Strings.{is_word_then}
use noaa_satellite_capture.Relay.Routes.{is_audio_path}

abbrev settings : FftStreamConfig
settings = record {
  frequency = 137_900_000;
  bandwidth = 200_000;
  fft_size = 2_048;
  gain = pos 20_000;
  update_rate = 30;
}

abbrev streaming : Relay
streaming = record {
  fft_subscribers = 3 ∷ [];
  active_sessions = [];
  current_mode = fft;
  stream = record {
    sdr_process = some (record { pid = 7; killed = false });
    current_callback = some relay_callback;
    current_config = some settings;
    is_running = true;
    is_starting = false;
    last_stop_time = 0;
    last_error = none;
    latest_data = none;
    averaging_count = 0;
  };
  sent = [];
}

abbrev entry : SessionStatus → SessionData
entry status = record {
  start_time = 1_000;
  duration_seconds = 600;
  status = status;
  progress = 0;
  output_path = "a.wav";
  frequency = 137_900_000;
}

abbrev busy : Relay
busy = record streaming {
  current_mode = records;
  active_sessions = ("a", entry complete) ∷ ("b", entry recording) ∷ [];
}

audio_path : is_audio_path "/sdr/capture/a-1/audio" ≡ true
unfolding is_audio_path is_word_then
audio_path = refl
