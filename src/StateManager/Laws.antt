-- ===== src/StateManager/Laws.antt =====
-- What holds of the state after any calls of src/backend/state/state-manager.ts.
use noaa_satellite_capture.Base.{
  ℕ, String, ◌≡◌, refl, sym, ap, ◌∙◌, ◌↔◌, true, not, none, some, List, [], ◌∷◌, arith,
  if◌then◌else◌, head?, filter, In, In-filter_iff,
}
use noaa_satellite_capture.Types.{
  GlobeState, SatellitePass, CaptureResult, ceil_seconds, SystemStatus, idle, capturing,
  SystemState, StateEvent, status_change, pass_start, pass_complete, capture_progress,
  passes_updated, satellite_positions, scanning_frequency, is_scanning,
}
use noaa_satellite_capture.StateManager.{
  StateManager, initial, set_status, set_scanning_frequency, start_pass, update_progress,
  is_completed, complete_pass, update_passes, emit_globe_state,
}

-- A call of one of the methods.
pub data Call : Type 0 where
  sets_status : SystemStatus → Call
  sets_scanning_frequency : ℕ → String → Call
  starts_pass : SatellitePass → Call
  updates_progress : ℕ → ℕ → ℕ → Call
  completes_pass : CaptureResult → Call
  updates_passes : List SatellitePass → Call
  emits_globe_state : GlobeState → Call

unfoldable pub apply : ℕ → Call → StateManager → StateManager
apply now (sets_status s) m = set_status now s m
apply now (sets_scanning_frequency f n) m = set_scanning_frequency now f n m
apply now (starts_pass p) m = start_pass now p m
apply now (updates_progress p e t) m = update_progress now p e t m
apply now (completes_pass r) m = complete_pass now r m
apply now (updates_passes ps) m = update_passes now ps m
apply now (emits_globe_state g) m = emit_globe_state g m

unfoldable pub run : List (ℕ × Call) → StateManager → StateManager
unfolding apply
run [] m = m
run ((now, c) ∷ cs) m = run cs (apply now c m)

-- The state that a subscriber rebuilds from the events alone, newest first; the time of the last
-- update is not in the events and stays 0.
unfoldable pub replay : List StateEvent → SystemState
unfolding initial
replay [] = (initial 0).state
replay (status_change status ∷ es) =
    let s = record (replay es) { status = status } in
    let cleared = record s { scanning_frequency = none; scanning_frequency_name = none } in
    if is_scanning status then s else cleared
replay (pass_start pass ∷ es) = record (replay es) {
  current_pass = some pass;
  status = capturing;
  capture_progress = 0;
  capture_elapsed = 0;
  capture_total = ceil_seconds pass.duration;
}
replay (pass_complete result ∷ es) =
    let remaining = filter (λ p. not (is_completed result p)) (replay es).upcoming_passes in
    record (replay es) {
      current_pass = none;
      status = idle;
      capture_progress = 0;
      capture_elapsed = 0;
      capture_total = 0;
      upcoming_passes = remaining;
      next_pass = head? remaining;
    }
replay (capture_progress progress elapsed total ∷ es) = record (replay es) {
  capture_progress = progress;
  capture_elapsed = elapsed;
  capture_total = total;
}
replay (passes_updated passes ∷ es) = record (replay es) {
  upcoming_passes = passes;
  next_pass = head? passes;
}
replay (satellite_positions globe ∷ es) = replay es
replay (scanning_frequency frequency name ∷ es) = record (replay es) {
  scanning_frequency = some frequency;
  scanning_frequency_name = some name;
}

-- The state without the time of its last update.
abbrev pub timeless : SystemState → SystemState
timeless s = record s { last_update = 0 }

abbrev pub IsReplayed : StateManager → Type 0
IsReplayed m = timeless m.state ≡ replay m.emitted

apply-IsReplayed :
    (now : ℕ) (c : Call) (m : StateManager) → IsReplayed m → IsReplayed (apply now c m)
unfolding apply replay set_status set_scanning_frequency start_pass update_progress complete_pass
    update_passes emit_globe_state
apply-IsReplayed now (sets_status s) m h = rw (← h) (ground arith)
apply-IsReplayed now (sets_scanning_frequency f n) m h = rw (← h)
apply-IsReplayed now (starts_pass p) m h = rw (← h)
apply-IsReplayed now (updates_progress p e t) m h = rw (← h)
apply-IsReplayed now (completes_pass r) m h = rw (← h)
apply-IsReplayed now (updates_passes ps) m h = rw (← h)
apply-IsReplayed now (emits_globe_state g) m h = h

run-IsReplayed : (cs : List (ℕ × Call)) (m : StateManager) → IsReplayed m → IsReplayed (run cs m)
unfolding run
run-IsReplayed [] m h = h
run-IsReplayed ((now, c) ∷ cs) m h = run-IsReplayed cs (apply now c m) (apply-IsReplayed now c m h)

-- After any calls, at any times, the state of a manager but its time of update is the one that
-- its events determine: a subscriber who has seen every event knows the state.
pub run-initial-replay :
    (start : ℕ) (cs : List (ℕ × Call))
    → timeless (run cs (initial start)).state ≡ replay (run cs (initial start)).emitted
run-initial-replay start cs = run-IsReplayed cs (initial start) (unfold initial replay in refl)

abbrev pub NextIsFirst : SystemState → Type 0
NextIsFirst s = s.next_pass ≡ head? s.upcoming_passes

replay-NextIsFirst : (es : List StateEvent) → NextIsFirst (replay es)
unfolding replay initial
replay-NextIsFirst [] = refl
replay-NextIsFirst (status_change s ∷ es) = ground (arith, replay-NextIsFirst es)
replay-NextIsFirst (pass_start p ∷ es) = replay-NextIsFirst es
replay-NextIsFirst (pass_complete r ∷ es) = refl
replay-NextIsFirst (capture_progress p e t ∷ es) = replay-NextIsFirst es
replay-NextIsFirst (passes_updated ps ∷ es) = refl
replay-NextIsFirst (satellite_positions g ∷ es) = replay-NextIsFirst es
replay-NextIsFirst (scanning_frequency f n ∷ es) = replay-NextIsFirst es

-- After any calls the next pass is the first of the upcoming passes, or null if there is none.
run-initial-NextIsFirst :
    (start : ℕ) (cs : List (ℕ × Call)) → NextIsFirst (run cs (initial start)).state
run-initial-NextIsFirst start cs =
    let e = run-initial-replay start cs in
    ap (λ (s : SystemState). s.next_pass) e
    ∙ replay-NextIsFirst (run cs (initial start)).emitted
    ∙ sym (ap (λ (s : SystemState). head? s.upcoming_passes) e)

not_completed_iff :
    (r : CaptureResult) (p : SatellitePass)
    → (not (is_completed r p) ≡ true)
      ↔ ¬ ((p.satellite.norad_id ≡ r.satellite.norad_id) × (p.aos ≡ r.start_time))
not_completed_iff r p = (λ e. λ h. ground arith, λ h. ground arith)

-- Completing a pass frees the current pass and the counters, and removes from the upcoming passes
-- exactly those with the satellite number of the result whose start is the result's start time.
pub complete_pass_lem :
    (now : ℕ) (r : CaptureResult) (m : StateManager) (p : SatellitePass)
    → let s = (complete_pass now r m).state in
      (s.current_pass ≡ none)
      × (s.status ≡ idle)
      × (s.capture_total ≡ 0)
      × (In p s.upcoming_passes ↔ (
          In p m.state.upcoming_passes
          × ¬ ((p.satellite.norad_id ≡ r.satellite.norad_id) × (p.aos ≡ r.start_time))))
unfolding complete_pass
complete_pass_lem now r m p = (
  refl,
  refl,
  refl,
  ground (
    arith,
    In-filter_iff (λ q. not (is_completed r q)) m.state.upcoming_passes p,
    not_completed_iff r p,
  ),
)
