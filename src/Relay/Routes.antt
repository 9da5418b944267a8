-- ===== src/Relay/Routes.antt =====
-- src/sdr-relay/server.ts: which handler a request reaches.
use noaa_satellite_capture.Base.{
  String, ◌≡◌, refl, ap, ◌≢◌, inl, inr, Bool, true, false, ◌&&◌, arith, str_eq, eq_iff,
  if◌then◌else◌, Bool-cases,
}
use noaa_satellite_capture.Base.Strings.{starts_with, drop_bytes, is_word_then}

pub data Route : Type 0 where
  preflight status_route tune_route start_route stop_route : Route
  session_route audio_route signal_route health_route not_found : Route

-- The regular expression `^\/sdr\/capture\/[\w-]+\/audio$`.
unfoldable pub is_audio_path : String → Bool
is_audio_path path =
    starts_with path "/sdr/capture/" && is_word_then "/audio" false (drop_bytes 13 path)

-- The chain of tests of the request handler, in its order.
unfoldable pub route : String → String → Route
unfolding is_audio_path
route method path =
    if str_eq method "OPTIONS"
    then preflight
    else if str_eq path "/sdr/status" && str_eq method "GET"
    then status_route
    else if str_eq path "/sdr/tune" && str_eq method "POST"
    then tune_route
    else if str_eq path "/sdr/capture/start" && str_eq method "POST"
    then start_route
    else if str_eq path "/sdr/capture/stop" && str_eq method "POST"
    then stop_route
    else if starts_with path "/sdr/capture/" && str_eq method "GET"
    then session_route
    else if is_audio_path path && str_eq method "GET"
    then audio_route
    else if str_eq path "/sdr/signal/check" && str_eq method "POST"
    then signal_route
    else if str_eq path "/health" && str_eq method "GET"
    then health_route
    else not_found

never_audio :
    (options status tune begin end captures get word check health : Bool)
    → (if options
        then preflight
        else if status
        then status_route
        else if tune
        then tune_route
        else if begin
        then start_route
        else if end
        then stop_route
        else if captures && get
        then session_route
        else if (captures && word) && get
        then audio_route
        else if check
        then signal_route
        else if health
        then health_route
        else not_found)
      ≢ audio_route
never_audio options status tune begin end captures get word check health = ground arith

other_path :
    (path other : String)
    → starts_with other "/sdr/capture/" ≡ false
    → starts_with path "/sdr/capture/" ≡ true
    → str_eq path other ≡ false
other_path path other k h = elim (Bool-cases (str_eq path other)) [
  | inl same ↦
      let e = (eq_iff path other).0 same in
      absurd (cc (k, h, ap (λ (s : String). starts_with s "/sdr/capture/") e))
  | inr different ↦ different
]

-- No request reaches the handler that gives out a recording: a `GET` of any path after the prefix,
-- that of a recording included, reaches the handler that describes a session.
pub route_never_audio :
    (method path : String)
    → (route method path ≢ audio_route)
      × (starts_with path "/sdr/capture/" ≡ true → route "GET" path ≡ session_route)
unfolding route
route_never_audio method path = (
  never_audio (str_eq method "OPTIONS") (str_eq path "/sdr/status" && str_eq method "GET")
      (str_eq path "/sdr/tune" && str_eq method "POST")
      (str_eq path "/sdr/capture/start" && str_eq method "POST")
      (str_eq path "/sdr/capture/stop" && str_eq method "POST") (starts_with path "/sdr/capture/")
      (str_eq method "GET") (is_word_then "/audio" false (drop_bytes 13 path))
      (str_eq path "/sdr/signal/check" && str_eq method "POST")
      (str_eq path "/health" && str_eq method "GET"),
  λ h.
      let status = other_path path "/sdr/status" refl h in
      let tune = other_path path "/sdr/tune" refl h in ground arith,
)
