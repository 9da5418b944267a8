-- ===== src/SdrClient/Recorder.antt =====
-- `RemoteRecorder.recordPass` of src/backend/sdr-client/index.ts, with the answers of the relay.
use noaa_satellite_capture.Base.{
  ℕ, zero, suc, ◌+◌, ◌*◌, ◌/◌, String, Option, none, some, List, [], ◌∷◌, ltb, if◌then◌else◌,
}

-- The answer to the start of a capture: `throws`, a refusal with its error, or a session number, which may
-- be missing.
pub data StartAnswer : Type 0 where
  throws : StartAnswer
  refuses : Option String → StartAnswer
  accepts : Option String → StartAnswer

-- The answer to a question for the session's status.
pub data StatusAnswer : Type 0 where
  throws not_ok still_recording says_complete : StatusAnswer
  fails : Option String → StatusAnswer

-- The answer to the download: `throws`, not ok, or the body.
pub data AudioAnswer : Type 0 where
  throws not_ok : AudioAnswer
  body : String → AudioAnswer

-- The result: an error, or the bytes that the local file is given.
pub data Outcome : Type 0 where
  error : String → Outcome
  saved : String → Outcome

-- What stands outside: the answers by the round of the loop, and how long each round's question takes
-- beside its sleep of a second.
pub record World : Type 0 where
  pub start_answer : StartAnswer
  pub status_answer : ℕ → StatusAnswer
  pub extra_ms : ℕ → ℕ
  pub audio_answer : String → AudioAnswer

-- How the loop ends: by its test, by `break`, or by an error.
pub data LoopEnd : Type 0 where
  time_over : LoopEnd
  is_complete : LoopEnd
  has_error : String → LoopEnd

abbrev or_text : Option String → String → String
or_text none s = s
or_text (some String.[]) s = s
or_text (some (String.◌∷◌ c t)) s = String.◌∷◌ c t

-- One round: the answer ends the loop, or it goes on.
abbrev pub after_status : StatusAnswer → Option LoopEnd
after_status throws = some (has_error "fetch failed")
after_status not_ok = none
after_status still_recording = none
after_status says_complete = some is_complete
after_status (fails e) = some (has_error (or_text e "Capture failed"))

-- The loop `while (Date.now() < endTime)` at `elapsed` milliseconds; `onProgress` gets the elapsed
-- seconds, which are kept newest first. `none` means that the rounds ran out.
unfoldable pub poll : World → ℕ → ℕ → ℕ → ℕ → List ℕ → Option (LoopEnd × List ℕ)
poll w total zero round elapsed seen = none
poll w total (suc fuel) round elapsed seen =
    let shown = elapsed / 1000 ∷ seen in
    let rest = poll w total fuel (suc round) (elapsed + 1000 + w.extra_ms round) shown in
    if ltb elapsed total
    then elim (after_status (w.status_answer round)) [ none ↦ rest | some end ↦ some (end, shown) ]
    else some (time_over, seen)

-- Each round lasts a second or more, so one round for each second, and one to end it.
abbrev pub poll_rounds : ℕ → ℕ
poll_rounds duration_seconds = suc duration_seconds

abbrev pub save : AudioAnswer → Outcome
save throws = error "fetch failed"
save not_ok = error "Failed to download recording"
save (body bytes) = saved bytes

abbrev pub download : World → String → Option (LoopEnd × List ℕ) → Option (Outcome × List ℕ)
download w session_id none = none
download w session_id (some (has_error e, seen)) = some (error e, seen)
download w session_id (some (time_over, seen)) = some (save (w.audio_answer session_id), seen)
download w session_id (some (is_complete, seen)) = some (save (w.audio_answer session_id), seen)

-- What follows the answer to the start; a session number that is missing or empty is an error.
unfoldable pub after_start : World → ℕ → StartAnswer → Option (Outcome × List ℕ)
after_start w duration_seconds throws = some (error "fetch failed", [])
after_start w duration_seconds (refuses e) = some (error (or_text e "Failed to start capture"), [])
after_start w duration_seconds (accepts none) =
    some (error "No session ID returned from capture start", [])
after_start w duration_seconds (accepts (some String.[])) =
    some (error "No session ID returned from capture start", [])
after_start w duration_seconds (accepts (some (String.◌∷◌ c id))) =
    download w (String.◌∷◌ c id)
      (poll w (duration_seconds * 1000) (poll_rounds duration_seconds) 0 0 [])

-- The outcome and the seconds that `onProgress` was given.
unfoldable pub record_pass : World → ℕ → Option (Outcome × List ℕ)
unfolding poll after_start
record_pass w duration_seconds = after_start w duration_seconds w.start_answer
