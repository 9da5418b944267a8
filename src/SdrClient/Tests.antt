-- ===== src/SdrClient/Tests.antt =====
-- A recording through the relay, and a stop of the remote stream.
use noaa_satellite_capture.Fft.{FftStreamConfig}
use noaa_satellite_capture.SdrClient.Laws.{
  AllWithin, IsFaithful, record_pass_lem, record_pass_saves_json,
}
use noaa_satellite_capture.SdrClient.Stream.{
  RemoteStream, new_remote_stream, start, stop, is_running,
}
use noaa_satellite_capture.SdrClient.Endings.{
  opens, closes, fires, happen_all, IsStopped, stop-happen_all,
}
use noaa_satellite_capture.Base.{
  ℕ, String, ◌≡◌, refl, true, false, Option, some, List, [], ◌∷◌, pos,
}
use noaa_satellite_capture.Relay.{
  complete, SessionData, Relay, initial_relay, get_session, get_capture,
}
use noaa_satellite_capture.Relay.Routes.{route}
use noaa_satellite_capture.SdrClient.Recorder.{
  accepts, still_recording, Outcome, saved, World, poll, record_pass,
}
use noaa_satellite_capture.SdrClient.Relayed.{relay_audio}

abbrev done : SessionData
done = record {
  start_time = 0;
  duration_seconds = 3;
  status = complete;
  progress = 100;
  output_path = "/tmp/a.wav";
  frequency = 137_900_000;
}

abbrev the_relay : Relay
the_relay = record initial_relay { active_sessions = ("s1", done) ∷ [] }

abbrev to_json : SessionData → String
to_json d = "{}"

abbrev read_wav : String → Option String
read_wav path = some "RIFF"

abbrev slow_world : World
slow_world = record {
  start_answer = accepts (some "s1");
  status_answer = λ n. still_recording;
  extra_ms = λ n. 700;
  audio_answer = relay_audio to_json read_wav the_relay;
}

record_pass_test : record_pass slow_world 3 ≡ some (saved "{}", 1 ∷ 0 ∷ [])
unfolding record_pass poll relay_audio route get_capture get_session
record_pass_test = refl

record_pass_lem_example :
    (outcome : Outcome) × (seen : List ℕ) × (record_pass slow_world 3 ≡ some (outcome, seen))
    × AllWithin 3 seen
    × IsFaithful slow_world outcome
record_pass_lem_example = record_pass_lem slow_world 3

record_pass_saves_json_example :
    (id : String) × (d : SessionData) × (get_session id the_relay.active_sessions ≡ some d)
    × (to_json d ≡ "{}")
record_pass_saves_json_example =
    record_pass_saves_json slow_world to_json read_wav the_relay 3 "{}" (1 ∷ 0 ∷ []) (λ id. refl)
      record_pass_test

abbrev config : FftStreamConfig
config = record {
  frequency = 137_500_000;
  bandwidth = 2_400_000;
  fft_size = 2048;
  gain = pos 40_000;
  update_rate = 30;
}

abbrev started_stream : RemoteStream
started_stream = (start true config 1 new_remote_stream).0

stop-happen_all_example :
    let r = happen_all (opens 0 config ∷ closes 0 ∷ fires true 1 ∷ []) (stop started_stream) in
    IsStopped started_stream.next_id started_stream.frames r × (is_running r ≡ false)
stop-happen_all_example =
    stop-happen_all (opens 0 config ∷ closes 0 ∷ fires true 1 ∷ []) started_stream
