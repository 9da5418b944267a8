-- ===== src/Relay/Laws.antt =====
-- What the handlers of src/sdr-relay/server.ts do, one request after another.
use noaa_satellite_capture.Base.{
  ℕ, ◌-◌, ◌*◌, ◌/◌, ◌≤◌, ◌<◌, String, ◌≡◌, refl, ◌∙◌, ◌≢◌, ◌↔◌, ◌⊎◌, Bool, true, false, not, Option,
  none, some, List, [], ◌∷◌, arith, div_any, mul-le-mul_left, str_eq, eq_iff, if◌then◌else◌, min_of,
}
use noaa_satellite_capture.Fft.{FftStreamConfig}
use noaa_satellite_capture.Fft.Stream.{
  is_fft_stream_running, stop_begin, stop_end, start_fft_stream,
}
use noaa_satellite_capture.Relay.{
  recording, complete, SessionData, records, Relay, get_session, set_session, refused,
  capture_begin, progress_tick, signal_begin, signal_end,
}

str_eq_same : (s : String) → str_eq s s ≡ true
str_eq_same s = (eq_iff s s).1 refl

pub get_session-set_session :
    (id key : String) (d : SessionData) (l : List (String × SessionData))
    → get_session key (set_session id d l) ≡ (if str_eq id key then some d else get_session key l)
unfolding get_session set_session
get_session-set_session id key d [] = refl
get_session-set_session id key d ((k, e) ∷ l) =
    ground (arith, get_session-set_session id key d l, eq_iff k id, eq_iff k key, eq_iff id key)

pub get_session-set_same :
    (id : String) (d : SessionData) (l : List (String × SessionData))
    → get_session id (set_session id d l) ≡ some d
get_session-set_same id d l = get_session-set_session id id d l ∙ (rw (str_eq_same id) refl)

pub get_session-set_other :
    (id key : String) (d : SessionData) (l : List (String × SessionData))
    → str_eq id key ≡ false
    → get_session key (set_session id d l) ≡ get_session key l
get_session-set_other id key d l h = get_session-set_session id key d l ∙ (rw h refl)

-- A request to start a recording is refused with the code 409, and changes nothing, just when the
-- relay is recording; else the stream does not count as running when the recording is started, nor
-- when the stop that it began has ended.
capture_begin_lem :
    (later : ℕ) (r : Relay)
    → let (begun, waits, refusal) = capture_begin r in
      (r.current_mode ≡ records
        → (begun ≡ r) × (refusal ≡ some (refused 409 "SDR is already recording")))
      × (r.current_mode ≢ records
          → (refusal ≡ none)
            × (is_fft_stream_running begun.stream ≡ false)
            × (is_fft_stream_running (stop_end later waits begun.stream) ≡ false))
unfolding capture_begin stop_begin stop_end is_fft_stream_running
capture_begin_lem later r = (λ e. ground arith, λ e. ground arith)

share_le : (e d : ℕ) → 0 < d → min_of 100 (e * 100 / d) * d ≤ 100 * e
share_le e d h =
    let q = e * 100 / d in
    let least : min_of 100 q ≤ q = ground arith in
    let scaled : d * min_of 100 q ≤ d * q = mul-le-mul_left d least in
    let part = div_any (e * 100) d in omega arith

-- A tick of a recording session's timer sets its progress to the share of its time that has passed,
-- at most 100, and tells the recording to stop, the timer with it, just when all of it has passed.
-- The timer of a session that is complete ends, and changes nothing.
progress_tick_lem :
    (now : ℕ) (id : String) (d : SessionData) (r : Relay)
    → get_session id r.active_sessions ≡ some d
    → 0 < d.duration_seconds
    → let (t, goes_on, halts) = progress_tick now id r in
      (d.status ≡ recording
        → ((e : SessionData) × (get_session id t.active_sessions ≡ some e)
            × (e.progress ≤ 100)
            × (e.progress * (d.duration_seconds * 1_000) ≤ 100 * (now - d.start_time))
            × (e.status ≡ recording))
          × ((halts ≡ true) ↔ (d.duration_seconds * 1_000 ≤ now - d.start_time))
          × (goes_on ≡ not halts))
      × (d.status ≡ complete → (t ≡ r) × (goes_on ≡ false) × (halts ≡ false))
unfolding progress_tick
progress_tick_lem now id d r h pos_ =
    let same = str_eq_same id in
    let elapsed = now - d.start_time in
    let share = min_of 100 (elapsed * 100 / (d.duration_seconds * 1_000)) in
    let bound = share_le elapsed (d.duration_seconds * 1_000) (omega arith) in
    let next : SessionData = record d { progress = share } in
    let here = get_session-set_session id id next r.active_sessions in
    (
      λ e. ((next, ground arith, ground arith, ground arith, e), ground arith, ground arith),
      λ e. ground arith,
    )

-- A signal check that pauses a running stream leaves it stopped, whatever the check finds, both
-- where the stop has ended before the answer and where it ends after it.
signal_check_stops_stream :
    (now later : ℕ) (spawned : Option ℕ) (verdict : Bool ⊎ String) (config : FftStreamConfig)
    (r : Relay)
    → r.current_mode ≢ records
    → is_fft_stream_running r.stream ≡ true
    → r.stream.is_starting ≡ false
    → r.stream.current_config ≡ some config
    → let (paused, was_running, waits, refusal) = signal_begin r in
      let early = record paused { stream = stop_end now waits paused.stream } in
      let answered = (signal_end later spawned was_running verdict paused).0 in
      (refusal ≡ none)
      × (is_fft_stream_running (signal_end later spawned was_running verdict early).0.stream
          ≡ false)
      × (is_fft_stream_running answered.stream ≡ false)
      × (is_fft_stream_running (stop_end now waits answered.stream) ≡ false)
unfolding signal_begin signal_end stop_begin stop_end is_fft_stream_running start_fft_stream
signal_check_stops_stream now later spawned verdict config r m h k c =
    (ground arith, ground arith, ground arith, ground arith)
