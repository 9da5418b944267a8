-- ===== src/Events/Tests.antt =====
-- Two announced events, and the theorems of src/backend/satellites/events.ts at them.
use noaa_satellite_capture.Base.{ℕ, String, ◌≡◌, refl, true, some, [], ◌∷◌, map, sort_by}
use noaa_satellite_capture.Types.{SstvEvent}
use noaa_satellite_capture.Events.{Events, initial_events, add_event, get_active_event}
use noaa_satellite_capture.Events.Laws.{adds, apply, apply_all, IsCurrent, get_active_event_lem}

abbrev event_at : String → ℕ → ℕ → SstvEvent
event_at id from to = record {
  id = id;
  name = "ARISS";
  start_time = from;
  end_time = to;
  modes = "PD120" ∷ [];
  active = true;
}

abbrev two_events : Events
two_events =
    apply_all (adds (event_at "late" 5000 9000) ∷ adds (event_at "early" 1000 6000) ∷ [])
      (initial_events true)

two_events_test : map (λ (e : SstvEvent). e.id) two_events.active_events ≡ "early" ∷ "late" ∷ []
unfolding apply_all apply add_event initial_events sort_by
two_events_test = refl

get_active_event_test : get_active_event 5500 two_events ≡ some (event_at "early" 1000 6000)
unfolding get_active_event apply_all apply add_event initial_events sort_by
get_active_event_test = refl

get_active_event_lem_example : IsCurrent 5500 (event_at "early" 1000 6000)
get_active_event_lem_example =
    ((get_active_event_lem 5500
        (adds (event_at "late" 5000 9000) ∷ adds (event_at "early" 1000 6000) ∷ []) true).0
      (event_at "early" 1000 6000) get_active_event_test).1
