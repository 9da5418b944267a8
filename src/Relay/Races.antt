-- ===== src/Relay/Races.antt =====
-- What the handlers of src/sdr-relay/server.ts do where requests meet.

use noaa_satellite_capture.Base.{
  ℕ, String, ◌≡◌, refl, ◌∙◌, ◌≢◌, inl, false, none, some, arith, str_eq, eq_iff,
}
use noaa_satellite_capture.Relay.{
  recording, complete, SessionData, records, Relay, get_session, capture_begin, capture_end,
  capture_stop,
}
use noaa_satellite_capture.Relay.Laws.{
  get_session-set_session, get_session-set_same, get_session-set_other,
}

-- Two requests to start a recording that meet before the first recording runs are both accepted:
-- two sessions are recording, though there is one SDR.
double_start :
    (later : ℕ) (a b path_a path_b : String) (f g m n : ℕ) (r : Relay)
    → r.current_mode ≢ records
    → str_eq b a ≡ false
    → let first = capture_begin r in
      let second = capture_begin first.0 in
      let one = capture_end later a f m (inl path_a) second.0 in
      let two = capture_end later b g n (inl path_b) one.0 in
      (first.2 ≡ none)
      × (second.2 ≡ none)
      × ((d : SessionData) × (get_session a two.0.active_sessions ≡ some d)
          × (d.status ≡ recording))
      × ((e : SessionData) × (get_session b two.0.active_sessions ≡ some e)
          × (e.status ≡ recording))
unfolding capture_begin capture_end
double_start later a b path_a path_b f g m n r h k = (
  ground arith,
  ground arith,
  (_, get_session-set_other b a _ _ k ∙ get_session-set_same a _ _, refl),
  (_, get_session-set_same b _ _, refl),
)

-- A stop of a session that is complete frees the relay while another session records: the next
-- request for a recording is not refused.
stale_stop :
    (a b : String) (d e : SessionData) (r : Relay)
    → r.current_mode ≡ records
    → get_session a r.active_sessions ≡ some d
    → d.status ≡ complete
    → get_session b r.active_sessions ≡ some e
    → e.status ≡ recording
    → let t = (capture_stop a r).0 in
      (get_session b t.active_sessions ≡ some e)
      × ((capture_begin r).2 ≢ none)
      × ((capture_begin t).2 ≡ none)
unfolding capture_begin capture_stop
stale_stop a b d e r m p c q s =
    let done : SessionData = record d { status = complete } in
    let there = get_session-set_session a b done r.active_sessions in
    (ground (arith, there, eq_iff a b), ground arith, ground arith)
