-- ===== src/StateManager.antt =====
-- src/backend/state/state-manager.ts. A method takes the current time (`new Date()`) and returns the
-- new state; the event that it emits is kept, newest first, in `emitted`.
pub mod Laws
mod Tests
use noaa_satellite_capture.Base.{
  ℕ, String, Bool, not, ◌&&◌, none, some, List, [], ◌∷◌, ◌==◌, if◌then◌else◌, head?, filter,
}
use noaa_satellite_capture.Types.{
  GlobeState, SatellitePass, CaptureResult, ceil_seconds, SystemStatus, idle, capturing,
  SystemState, StateEvent, status_change, pass_start, pass_complete, capture_progress,
  passes_updated, satellite_positions, scanning_frequency, is_scanning,
}

pub record StateManager : Type 0 where
  pub state : SystemState
  pub emitted : List StateEvent

-- The state of a new manager.
unfoldable pub initial : ℕ → StateManager
initial now = record {
  state = record {
    status = idle;
    current_pass = none;
    next_pass = none;
    upcoming_passes = [];
    capture_progress = 0;
    capture_elapsed = 0;
    capture_total = 0;
    last_update = now;
    scanning_frequency = none;
    scanning_frequency_name = none;
  };
  emitted = [];
}

abbrev emit_event : StateEvent → StateManager → StateManager
emit_event event m = record m { emitted = event ∷ m.emitted }

unfoldable pub set_status : ℕ → SystemStatus → StateManager → StateManager
set_status now status m =
    let s = record m.state { status = status; last_update = now } in
    let cleared = record s { scanning_frequency = none; scanning_frequency_name = none } in
    emit_event (status_change status)
      (record m { state = if is_scanning status then s else cleared })

unfoldable pub set_scanning_frequency : ℕ → ℕ → String → StateManager → StateManager
set_scanning_frequency now frequency name m =
    emit_event (scanning_frequency frequency name) (record m {
      state = record m.state {
        scanning_frequency = some frequency;
        scanning_frequency_name = some name;
        last_update = now;
      };
    })

unfoldable pub start_pass : ℕ → SatellitePass → StateManager → StateManager
start_pass now pass m = emit_event (pass_start pass) (record m {
  state = record m.state {
    current_pass = some pass;
    status = capturing;
    capture_progress = 0;
    capture_elapsed = 0;
    capture_total = ceil_seconds pass.duration;
    last_update = now;
  };
})

unfoldable pub update_progress : ℕ → ℕ → ℕ → ℕ → StateManager → StateManager
update_progress now progress elapsed total m =
    emit_event (capture_progress progress elapsed total) (record m {
      state = record m.state {
        capture_progress = progress;
        capture_elapsed = elapsed;
        capture_total = total;
        last_update = now;
      };
    })

-- The test under the `!` of the filter in `completePass`.
abbrev pub is_completed : CaptureResult → SatellitePass → Bool
is_completed result p =
    p.satellite.norad_id == result.satellite.norad_id && p.aos == result.start_time

unfoldable pub complete_pass : ℕ → CaptureResult → StateManager → StateManager
complete_pass now result m =
    let remaining = filter (λ p. not (is_completed result p)) m.state.upcoming_passes in
    emit_event (pass_complete result) (record m {
      state = record m.state {
        current_pass = none;
        status = idle;
        capture_progress = 0;
        capture_elapsed = 0;
        capture_total = 0;
        last_update = now;
        upcoming_passes = remaining;
        next_pass = head? remaining;
      };
    })

unfoldable pub update_passes : ℕ → List SatellitePass → StateManager → StateManager
update_passes now passes m = emit_event (passes_updated passes) (record m {
  state = record m.state { upcoming_passes = passes; next_pass = head? passes; last_update = now };
})

unfoldable pub emit_globe_state : GlobeState → StateManager → StateManager
emit_globe_state globe m = emit_event (satellite_positions globe) m
