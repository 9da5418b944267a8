-- ===== src/Events.antt =====
-- src/backend/satellites/events.ts: the announced SSTV events and the switches. `new Date()` is an
-- argument; `should_stop` is the flag of the scanner that `stopSstvScanner` sets.
pub mod Laws
mod Tests
use noaa_satellite_capture.Base.{
  ℕ, String, Bool, true, false, not, ◌&&◌, ◌||◌, Option, none, some, List, [], ◌∷◌, ◌++◌, str_eq,
  ltb, leb, if◌then◌else◌, take, filter, find, sort_by,
}
use noaa_satellite_capture.Types.{
  SatelliteInfo, SystemStatus, idle, waiting, capturing, decoding, scanning, SstvEvent,
}

-- The variables of the module.
pub record Events : Type 0 where
  pub active_events : List SstvEvent
  pub manual_sstv_enabled : Bool
  pub ground_sstv_scan_enabled : Bool
  pub should_stop : Bool

-- `env` tells whether GROUND_SSTV_SCAN_ENABLED is 'true'.
unfoldable pub initial_events : Bool → Events
initial_events env = record {
  active_events = [];
  manual_sstv_enabled = false;
  ground_sstv_scan_enabled = env;
  should_stop = false;
}

unfoldable pub set_manual_sstv_enabled : Bool → Events → Events
set_manual_sstv_enabled enabled s = record s { manual_sstv_enabled = enabled }

unfoldable pub set_ground_sstv_scan_enabled : Bool → Events → Events
set_ground_sstv_scan_enabled enabled s = record s {
  ground_sstv_scan_enabled = enabled;
  should_stop = if enabled then s.should_stop else true;
}

-- `push`, then `sort` by the start.
unfoldable pub add_event : SstvEvent → Events → Events
add_event event s = record s {
  active_events = sort_by (λ e. e.start_time) (s.active_events ++ event ∷ []);
}

unfoldable pub remove_event : String → Events → Events
remove_event event_id s = record s {
  active_events = filter (λ e. not (str_eq e.id event_id)) s.active_events;
}

unfoldable pub clear_events : Events → Events
clear_events s = record s { active_events = [] }

-- `e.active && now >= e.startTime && now <= e.endTime`.
abbrev pub is_on : ℕ → SstvEvent → Bool
is_on now e = e.active && leb e.start_time now && leb now e.end_time

unfoldable pub get_active_event : ℕ → Events → Option SstvEvent
get_active_event now s = find (is_on now) s.active_events

unfoldable pub get_upcoming_events : ℕ → ℕ → Events → List SstvEvent
get_upcoming_events now limit s = take limit (filter (λ e. ltb now e.end_time) s.active_events)

abbrev pub is_some : Option SstvEvent → Bool
is_some none = false
is_some (some e) = true

unfoldable pub is_sstv_active : ℕ → Events → Bool
unfolding get_active_event
is_sstv_active now s = s.manual_sstv_enabled || is_some (get_active_event now s)

-- `SSTVStatus`; its `status` is 'idle' here, and is overridden by the web server.
pub record SstvStatus : Type 0 where
  pub enabled : Bool
  pub manual_enabled : Bool
  pub ground_scan_enabled : Bool
  pub status : SystemStatus
  pub active_event : Option SstvEvent
  pub upcoming_events : List SstvEvent

unfoldable pub get_sstv_status : ℕ → Events → SstvStatus
unfolding is_sstv_active get_upcoming_events
get_sstv_status now s = record {
  enabled = is_sstv_active now s;
  manual_enabled = s.manual_sstv_enabled;
  ground_scan_enabled = s.ground_sstv_scan_enabled;
  status = idle;
  active_event = get_active_event now s;
  upcoming_events = get_upcoming_events now 10 s;
}

-- `GET /api/sstv/status` of the web server: the status of the system overrides the idle one.
unfoldable pub handle_sstv_status : ℕ → SystemStatus → Events → SstvStatus
unfolding get_sstv_status
handle_sstv_status now scanning s = record (get_sstv_status now s) { status = scanning }
handle_sstv_status now capturing s = record (get_sstv_status now s) { status = capturing }
handle_sstv_status now idle s = get_sstv_status now s
handle_sstv_status now waiting s = get_sstv_status now s
handle_sstv_status now decoding s = get_sstv_status now s

-- The bodies of the two toggles: the field, or the opposite of the current switch.
abbrev or_opposite : Option Bool → Bool → Bool
or_opposite none current = not current
or_opposite (some b) current = b

-- `POST /api/sstv/toggle`; a body that cannot be read is `none`, and changes nothing.
unfoldable pub handle_sstv_toggle : ℕ → Option (Option Bool) → Events → Events × Option SstvStatus
unfolding set_manual_sstv_enabled
handle_sstv_toggle now none s = (s, none)
handle_sstv_toggle now (some enabled) s =
    let next = set_manual_sstv_enabled (or_opposite enabled s.manual_sstv_enabled) s in
    (next, some (get_sstv_status now next))

-- `POST /api/sstv/ground-scan/toggle`.
unfoldable pub handle_ground_scan_toggle :
    ℕ → Option (Option Bool) → Events → Events × Option SstvStatus
unfolding set_ground_sstv_scan_enabled
handle_ground_scan_toggle now none s = (s, none)
handle_ground_scan_toggle now (some enabled) s =
    let next = set_ground_sstv_scan_enabled (or_opposite enabled s.ground_sstv_scan_enabled) s in
    (next, some (get_sstv_status now next))

-- The satellites that the main loop of src/backend/cli/commands/run.ts takes.
unfoldable pub active_satellites : ℕ → Events → List SatelliteInfo → List SatelliteInfo
active_satellites now s = filter (λ sat. sat.enabled || (sat.event_based && is_sstv_active now s))
