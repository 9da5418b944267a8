-- ===== src/Fft/Stream/Races.antt =====
-- What can come between the parts of the calls of src/backend/capture/fft-stream.ts.
use noaa_satellite_capture.Base.{ℕ, String, ◌≡◌, true, false, Option, some, arith}
use noaa_satellite_capture.Fft.{FftStreamConfig}
use noaa_satellite_capture.Fft.Stream.{
  SdrProcess, FftStream, is_fft_stream_running, stop_begin, stop_fft_stream, start_begin,
  start_spawn, on_close,
}

-- A stop that comes while a start sleeps does not cancel it: the stream runs in the end, and the
-- check before the stop says that it does not.
stop_during_start :
    (now pid k : ℕ) (c : FftStreamConfig) (s : FftStream)
    → s.is_starting ≡ false
    → s.is_running ≡ false
    → let sleeping = (start_begin c k s).0 in
      let stopped = stop_fft_stream now sleeping in
      let woken = (start_spawn c k (some pid) stopped).0 in
      (is_fft_stream_running sleeping ≡ false)
      × (is_fft_stream_running stopped ≡ false)
      × (is_fft_stream_running woken ≡ true)
unfolding start_begin stop_fft_stream start_spawn is_fft_stream_running
stop_during_start now pid k c s h r = ground arith

-- A late 'close' of an earlier process makes the module forget the process that runs: the stream
-- reads as stopped, and a stop tells no process to end.
late_close_forgets :
    (now : ℕ) (m : Option String) (p : SdrProcess) (s : FftStream)
    → s.sdr_process ≡ some p
    → let t = on_close now m s in (is_fft_stream_running t ≡ false) × ((stop_begin t).1 ≡ false)
unfolding on_close is_fft_stream_running stop_begin
late_close_forgets now m p s e = ground arith
