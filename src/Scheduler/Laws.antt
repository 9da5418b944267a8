-- ===== src/Scheduler/Laws.antt =====
-- How long src/backend/scheduler/scheduler.ts waits, and what it does with all the passes.

use noaa_satellite_capture.Base.{
  ℕ, ◌+◌, ◌*◌, ◌≤◌, ◌<◌, String, ◌≡◌, refl, subst, ◌≢◌, ◌⊎◌, inl, inr, Bool, true, false, none,
  List, [], ◌∷◌, map, arith, ltb, leb, Bool-cases, length, filter, All,
}
use noaa_satellite_capture.Types.{SatellitePass, CaptureResult, idle}
use noaa_satellite_capture.Fft.Stream.{is_fft_stream_running}
use noaa_satellite_capture.Scheduler.Captures.{IsLeft, RowsAfter, capture_pass_lem}
use noaa_satellite_capture.Scheduler.{
  Saving, saves, saves_without_images, saves_nothing, Outside, World, meanwhile, sleeps_and_scans,
  wait_decision, resumed_at, begin_scan, stop_sstv_scanner, wait_for_pass, capture_pass,
  run_scheduler,
}

-- For a pass that rises a minute or more after the epoch, `waitForPass` returns at once if the
-- rise is at most a minute away, and else exactly a minute before it. A scan is started only if it
-- may be and more than three minutes are left; it is given at most two minutes, which end at least
-- 59 seconds before the return.
wait_decision_lem :
    (may_scan : Bool) (now : ℕ) (pass : SatellitePass)
    → 60_000 ≤ pass.aos
    → let wait = wait_decision may_scan now pass in
      (pass.aos ≤ now + 60_000 → resumed_at now wait ≡ now)
      × (now + 60_000 ≤ pass.aos → resumed_at now wait + 60_000 ≡ pass.aos)
      × ((ms seconds : ℕ)
          → wait ≡ sleeps_and_scans ms seconds
          → (may_scan ≡ true)
            × (180_000 < ms)
            × (seconds ≤ 120)
            × (now + seconds * 1_000 + 59_000 ≤ resumed_at now wait))
unfolding wait_decision
wait_decision_lem may_scan now pass h =
    (λ e. ground arith, λ e. ground arith, λ ms seconds e. ground arith)

-- The passes that are not over when their turn comes.
abbrev pub remaining : List (SatellitePass × Outside) → List (SatellitePass × Outside)
remaining = filter (λ (p : SatellitePass × Outside). leb p.1.checked_at p.0.los)

-- The status is idle, and no pass is current.
pub record IsSettled (w : World) : Type 0 where
  pub idles : w.manager.state.status ≡ idle
  pub free : w.manager.state.current_pass ≡ none

capture_pass-IsSettled :
    (skip : Bool) (o : Outside) (pass : SatellitePass) (w : World)
    → IsSettled (capture_pass skip o pass w).0
capture_pass-IsSettled skip o pass w =
    let c = capture_pass_lem skip o pass w in record { idles = c.0; free = c.1 }

wait_for_pass-saved :
    (o : Outside) (pass : SatellitePass) (w : World) → (wait_for_pass o pass w).saved ≡ w.saved
unfolding wait_for_pass begin_scan stop_sstv_scanner meanwhile
wait_for_pass-saved o pass w = ground arith

length-RowsAfter :
    (saving : Saving) (r : CaptureResult) (pass : SatellitePass)
    (before after : List (CaptureResult × SatellitePass × List String))
    → RowsAfter saving r pass before after
    → length after ≤ length before + 1
length-RowsAfter saves r pass before after e = ground arith
length-RowsAfter saves_without_images r pass before after e = ground arith
length-RowsAfter saves_nothing r pass before after e = ground arith

-- No other part of the program starts the stream during the captures of a list.
abbrev pub AreLeft : List (SatellitePass × Outside) → Type 0
AreLeft passes = All (λ (p : SatellitePass × Outside). IsLeft p.1) passes

run_scheduler_past :
    (skip : Bool) (pass : SatellitePass) (o : Outside) (passes : List (SatellitePass × Outside))
    (w : World)
    → ltb pass.los o.checked_at ≡ true
    → run_scheduler skip ((pass, o) ∷ passes) w ≡ run_scheduler skip passes w
unfolding run_scheduler
run_scheduler_past skip pass o passes w h = rw (h, run_scheduler) refl

run_scheduler_due :
    (skip : Bool) (pass : SatellitePass) (o : Outside) (passes : List (SatellitePass × Outside))
    (w : World)
    → ltb pass.los o.checked_at ≡ false
    → let c = capture_pass skip o pass (wait_for_pass o pass w) in
      let rest = run_scheduler skip passes c.0 in
      run_scheduler skip ((pass, o) ∷ passes) w ≡ (rest.0, c.1 ∷ rest.1)
unfolding run_scheduler
run_scheduler_due skip pass o passes w h = rw (h, run_scheduler) refl

run_scheduler-IsSettled :
    (skip : Bool) (passes : List (SatellitePass × Outside)) (w : World)
    → IsSettled w
    → IsSettled (run_scheduler skip passes w).0
unfolding run_scheduler
run_scheduler-IsSettled skip [] w v = v
run_scheduler-IsSettled skip ((pass, o) ∷ passes) w v =
    let c = capture_pass skip o pass (wait_for_pass o pass w) in
    let settled = capture_pass-IsSettled skip o pass (wait_for_pass o pass w) in
    elim (Bool-cases (ltb pass.los o.checked_at)) [
      | inl past ↦
          rw (run_scheduler_past skip pass o passes w past)
            (run_scheduler-IsSettled skip passes w v)
      | inr due ↦
          rw (run_scheduler_due skip pass o passes w due)
            (run_scheduler-IsSettled skip passes c.0 settled)
    ]

-- Without another part that starts it, a stream that does not run is not running after the
-- remaining passes: each is captured after a stop.
run_scheduler-quiet :
    (skip : Bool) (passes : List (SatellitePass × Outside)) (w : World)
    → AreLeft passes
    → (is_fft_stream_running w.stream ≡ false) ⊎ (remaining passes ≢ [])
    → is_fft_stream_running (run_scheduler skip passes w).0.stream ≡ false
unfolding run_scheduler
run_scheduler-quiet skip [] w l (inl h) = h
run_scheduler-quiet skip [] w l (inr h) = absurd (h refl)
run_scheduler-quiet skip ((pass, o) ∷ passes) w (left, l) h =
    let c = capture_pass skip o pass (wait_for_pass o pass w) in
    let stopped = (capture_pass_lem skip o pass (wait_for_pass o pass w)).2 left in
    elim (Bool-cases (ltb pass.los o.checked_at)) [
      | inl past ↦
          let skipped : (is_fft_stream_running w.stream ≡ false) ⊎ (remaining passes ≢ []) =
            elim h [ inl quiet ↦ inl quiet | inr some_left ↦ inr (ground arith) ] in
          rw (run_scheduler_past skip pass o passes w past)
            (run_scheduler-quiet skip passes w l skipped)
      | inr due ↦
          rw (run_scheduler_due skip pass o passes w due)
            (run_scheduler-quiet skip passes c.0 l (inl stopped))
    ]

-- Whatever the other parts of the program do to the state manager and the stream at the awaits:
-- there is one result for each pass that is not over when its turn comes, in the order of the
-- passes, and of the same satellite, and no more rows are saved than results. If there is any such
-- pass, the status is idle in the end and no pass is current; and the stream does not run, if no
-- other part starts it between its stop and the end of a capture.
pub run_scheduler_lem :
    (skip : Bool) (passes : List (SatellitePass × Outside)) (w : World)
    → let (v, results) = run_scheduler skip passes w in
      (map (λ (r : CaptureResult). r.satellite) results
        ≡ map (λ (p : SatellitePass × Outside). p.0.satellite) (remaining passes))
      × (length v.saved ≤ length w.saved + length results)
      × (remaining passes ≢ []
          → IsSettled v × (AreLeft passes → is_fft_stream_running v.stream ≡ false))
run_scheduler_lem skip [] w = unfold run_scheduler in (refl, omega arith, λ h. absurd (h refl))
run_scheduler_lem skip ((pass, o) ∷ passes) w =
    let waited = wait_for_pass o pass w in
    let c = capture_pass skip o pass waited in
    let of_pass = (capture_pass_lem skip o pass waited).5 in
    let rows =
      length-RowsAfter o.saving c.1 pass waited.saved c.0.saved
        (capture_pass_lem skip o pass waited).4 in
    let settled = capture_pass-IsSettled skip o pass waited in
    let quiet : remaining ((pass, o) ∷ passes) ≢ []
        → AreLeft ((pass, o) ∷ passes)
        → is_fft_stream_running (run_scheduler skip ((pass, o) ∷ passes) w).0.stream ≡ false =
      λ n l. run_scheduler-quiet skip ((pass, o) ∷ passes) w l (inr n) in
    let rest = run_scheduler_lem skip passes c.0 in
    let skipped = run_scheduler_lem skip passes w in
    let same = wait_for_pass-saved o pass w in
    elim (Bool-cases (ltb pass.los o.checked_at)) [
      | inl past ↦
          let through = run_scheduler_past skip pass o passes w past in
          rw through (
            ground (arith, skipped.0),
            skipped.1,
            λ n. (
              (skipped.2 (ground arith)).0,
              λ l.
                  subst
                    (λ (v : World × List CaptureResult). is_fft_stream_running v.0.stream ≡ false)
                    through (quiet n l),
            ),
          )
      | inr due ↦
          let through = run_scheduler_due skip pass o passes w due in
          rw through (
            ground (arith, rest.0, of_pass),
            ground (arith, rest.1, rows, same),
            λ n. (
              run_scheduler-IsSettled skip passes c.0 settled,
              λ l.
                  subst
                    (λ (v : World × List CaptureResult). is_fft_stream_running v.0.stream ≡ false)
                    through (quiet n l),
            ),
          )
    ]
