-- ===== src/SdrClient/Laws.antt =====
-- What a recording through the relay ends with, and what the client's checks accept.

use noaa_satellite_capture.Relay.{SessionData, Relay, get_session}
use noaa_satellite_capture.Base.{
  ℕ, zero, suc, ◌+◌, ◌*◌, ◌/◌, ◌≤◌, ◌<◌, String, ◌≡◌, refl, sym, subst, ◌∙◌, inl, inr, false,
  Option, none, some, List, [], ◌∷◌, arith, ltb, ltb→lt, lt→ltb, Bool-cases, Option-cases, All,
}
use noaa_satellite_capture.SdrClient.Relayed.{relay_audio, relay_audio_body}
use noaa_satellite_capture.SdrClient.Recorder.{
  StartAnswer, throws, refuses, accepts, not_ok, AudioAnswer, body, Outcome, error, saved, World,
  LoopEnd, time_over, is_complete, has_error, after_status, poll, save, download, after_start,
  record_pass,
}

-- The seconds that are shown do not pass the duration.
abbrev pub AllWithin : ℕ → List ℕ → Type 0
AllWithin duration_seconds seen = All (λ (t : ℕ). t ≤ duration_seconds) seen

-- One round that does not end the loop, if what follows it ends.
poll_round :
    (w : World) (seconds fuel round elapsed : ℕ) (seen : List ℕ)
    → AllWithin seconds seen
    → elapsed < seconds * 1000
    → ((shown : List ℕ)
        → AllWithin seconds shown
        → (end : LoopEnd) × (all : List ℕ) × (poll w
              (seconds * 1000)
              fuel
              (suc round)
              (elapsed + 1000 + w.extra_ms round)
              shown
            ≡ some (end, all))
          × AllWithin seconds all)
    → (end : LoopEnd) × (all : List ℕ) × (poll w (seconds * 1000) (suc fuel) round elapsed seen
        ≡ some (end, all))
      × AllWithin seconds all
unfolding poll
poll_round w seconds fuel round elapsed seen k less next =
    let more = lt→ltb elapsed (seconds * 1000) less in
    let now : elapsed / 1000 ≤ seconds = omega (arith, less) in
    elim (Option-cases (after_status (w.status_answer round))) [
      | inr (end, e) ↦ (end, elapsed / 1000 ∷ seen, rw (more, e) refl, (now, k))
      | inl e ↦
          let (end, all, r, a) = next (elapsed / 1000 ∷ seen) (now, k) in
          (end, all, rw (more, e) r, a)
    ]

poll_total :
    (w : World) (seconds fuel round elapsed : ℕ) (seen : List ℕ)
    → seconds * 1000 ≤ elapsed + fuel * 1000
    → AllWithin seconds seen
    → (end : LoopEnd) × (all : List ℕ) × (poll w (seconds * 1000) (suc fuel) round elapsed seen
        ≡ some (end, all))
      × AllWithin seconds all
poll_total w seconds zero round elapsed seen h k =
    let over : ltb elapsed (seconds * 1000) ≡ false = ground arith in
    (time_over, seen, unfold poll in rw over refl, k)
poll_total w seconds (suc fuel) round elapsed seen h k =
    elim (Bool-cases (ltb elapsed (seconds * 1000))) [
      | inr over ↦ (time_over, seen, unfold poll in rw over refl, k)
      | inl more ↦
          poll_round w seconds (suc fuel) round elapsed seen k
            (ltb→lt elapsed (seconds * 1000) more)
            (λ shown a.
              poll_total w seconds fuel (suc round) (elapsed + 1000 + w.extra_ms round) shown
                (omega arith) a)
    ]

-- What a recording that has an outcome says of the relay: saved bytes were the answer to the download for
-- the session that the relay had accepted.
abbrev pub IsFaithful : World → Outcome → Type 0
IsFaithful w (error e) = Unit
IsFaithful w (saved bytes) =
    (id : String) × (w.start_answer ≡ accepts (some id)) × (w.audio_answer id ≡ body bytes)

save-IsFaithful :
    (w : World) (id : String) (answer : AudioAnswer)
    → w.start_answer ≡ accepts (some id)
    → w.audio_answer id ≡ answer
    → IsFaithful w (save answer)
save-IsFaithful w id throws e h = tt
save-IsFaithful w id not_ok e h = tt
save-IsFaithful w id (body bytes) e h = (id, e, h)

download_lem :
    (w : World) (id : String) (end : LoopEnd) (seen : List ℕ)
    → w.start_answer ≡ accepts (some id)
    → (outcome : Outcome) × (download w id (some (end, seen)) ≡ some (outcome, seen))
      × IsFaithful w outcome
download_lem w id time_over seen e =
    (save (w.audio_answer id), refl, save-IsFaithful w id (w.audio_answer id) e refl)
download_lem w id is_complete seen e =
    (save (w.audio_answer id), refl, save-IsFaithful w id (w.audio_answer id) e refl)
download_lem w id (has_error m) seen e = (error m, refl, tt)

after_start_lem :
    (w : World) (duration_seconds : ℕ) (answer : StartAnswer)
    → w.start_answer ≡ answer
    → (outcome : Outcome) × (seen : List ℕ) × (after_start w duration_seconds answer
        ≡ some (outcome, seen))
      × AllWithin duration_seconds seen
      × IsFaithful w outcome
unfolding after_start
after_start_lem w seconds throws e = (_, [], refl, tt, tt)
after_start_lem w seconds (refuses m) e = (_, [], refl, tt, tt)
after_start_lem w seconds (accepts none) e = (_, [], refl, tt, tt)
after_start_lem w seconds (accepts (some String.[])) e = (_, [], refl, tt, tt)
after_start_lem w seconds (accepts (some (String.◌∷◌ c id))) e =
    let (end, seen, polled, within) = poll_total w seconds seconds 0 0 [] (omega arith) tt in
    let (outcome, downloaded, faithful) = download_lem w (String.◌∷◌ c id) end seen e in
    (outcome, seen, rw polled downloaded, within, faithful)

-- The loop over the session ends, whatever the relay answers and however long it takes, so a
-- recording always has an outcome; the seconds that it reports stay within the duration, and bytes
-- that it saves are those that the relay answered for the session it had accepted.
pub record_pass_lem :
    (w : World) (duration_seconds : ℕ)
    → (outcome : Outcome) × (seen : List ℕ) × (record_pass w duration_seconds
        ≡ some (outcome, seen))
      × AllWithin duration_seconds seen
      × IsFaithful w outcome
unfolding record_pass
record_pass_lem w duration_seconds = after_start_lem w duration_seconds w.start_answer refl

-- With the relay of this repository, what a recording saves is never the file of the relay: it is the
-- JSON that describes the session.
pub record_pass_saves_json :
    (w : World) (json : SessionData → String) (read_file : String → Option String) (r : Relay)
    (duration_seconds : ℕ) (bytes : String) (seen : List ℕ)
    → ((id : String) → w.audio_answer id ≡ relay_audio json read_file r id)
    → record_pass w duration_seconds ≡ some (saved bytes, seen)
    → (id : String) × (d : SessionData) × (get_session id r.active_sessions ≡ some d)
      × (json d ≡ bytes)
record_pass_saves_json w json read_file r seconds bytes seen relayed e =
    let (outcome, all, result, _, faithful) = record_pass_lem w seconds in
    let same : outcome ≡ saved bytes = ground arith in
    let (id, _, answer) = subst (IsFaithful w) same faithful in
    let (d, found, text) = relay_audio_body json read_file r id bytes (sym (relayed id) ∙ answer) in
    (id, d, found, text)
