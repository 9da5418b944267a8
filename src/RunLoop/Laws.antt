-- ===== src/RunLoop/Laws.antt =====
-- What a round of src/backend/cli/commands/run.ts leaves and results in.

use noaa_satellite_capture.StateManager.{set_status}
use noaa_satellite_capture.Scheduler.{Outside, World, run_scheduler}
use noaa_satellite_capture.Scheduler.Laws.{remaining, run_scheduler_lem}
use noaa_satellite_capture.Base.{
  ℕ, ◌≤◌, ◌≡◌, refl, sym, ap, subst, ◌∙◌, Bool, Option, none, some, List, [], ◌∷◌, map, arith, leb,
  In, All-In, In-filter_iff, In-map, In-map_to,
}
use noaa_satellite_capture.Types.{SatelliteInfo, TwoLineElement, SatellitePass, CaptureResult, idle}
use noaa_satellite_capture.Orbit.{SatelliteJs, Observer, create_observer}
use noaa_satellite_capture.Orbit.FindPasses.{find_passes, default_step_seconds}
use noaa_satellite_capture.Orbit.FindPasses.Invariant.{IsSound}
use noaa_satellite_capture.Orbit.FindPasses.Laws.{walk_of, find_passes-IsSound}
use noaa_satellite_capture.Orbit.Refine.{refine_pass_timing}
use noaa_satellite_capture.Passes.{
  PredictionOptions, end_of, is_high_quality, filter_high_quality_passes, predict_passes,
}
use noaa_satellite_capture.Passes.Laws.{IsPassOf, predict_passes_lem}
use noaa_satellite_capture.Tle.{get_tles}
use noaa_satellite_capture.RunLoop.{
  LoopConfig, Round, Service, Outcome, rest_for, with_passes, with_answers, schedule, take_passes,
  loop_options, with_elements, satellites_of, round_for, run_round,
}

-- A refined pass is of the satellite that it was searched for.
IsPassOf-satellite :
    (lib : SatelliteJs) (tles : List TwoLineElement) (observer : Observer lib)
    (o : PredictionOptions) (sat : SatelliteInfo) (p : SatellitePass)
    → IsPassOf lib tles observer o sat p
    → p.satellite ≡ sat
unfolding IsPassOf refine_pass_timing
IsPassOf-satellite lib tles observer o sat p (tle, found, _, i, refined) =
    let (sound, _) =
      find_passes-IsSound lib tle sat observer o.start_time (end_of o) o.min_elevation
        default_step_seconds (omega arith) in
    let of_sat =
      All-In
        (IsSound (
          walk_of lib tle sat observer o.start_time (end_of o) o.min_elevation
            default_step_seconds))
        (find_passes lib tle sat observer o.start_time (end_of o) o.min_elevation
          default_step_seconds)
        sound i in
    sym (ap (λ (q : SatellitePass). q.satellite) refined) ∙ of_sat.satellite

-- The outcome rests with the status idle, for five seconds or more, and its results are of the
-- satellites of a list.
pub record IsFine (sats : List SatelliteInfo) (out : Outcome) : Type 0 where
  pub idles : out.service.world.manager.state.status ≡ idle
  pub rests : 5_000 ≤ out.sleep_ms
  pub of_sats : (c : CaptureResult) → In c out.results → In c.satellite sats

rest_for-IsFine :
    (sats : List SatelliteInfo) (now ms : ℕ) (results : List CaptureResult) (s : Service)
    → 5_000 ≤ ms
    → ((c : CaptureResult) → In c results → In c.satellite sats)
    → IsFine sats (rest_for now ms results s)
unfolding set_status
rest_for-IsFine sats now ms results s h k = record { idles = refl; rests = h; of_sats = k }

-- The results of the scheduler are of the satellites of its passes.
results_of_passes :
    (skip : Bool) (answers : SatellitePass → Outside) (passes : List SatellitePass) (w : World)
    (c : CaptureResult)
    → In c (run_scheduler skip (map (with_answers answers) passes) w).1
    → (p : SatellitePass) × In p passes × (p.satellite ≡ c.satellite)
results_of_passes skip answers passes w c i =
    let pairs = map (with_answers answers) passes in
    let results = (run_scheduler skip pairs w).1 in
    let same = (run_scheduler_lem skip pairs w).0 in
    let there = In-map_to (λ (r : CaptureResult). r.satellite) results c i in
    let (pair, j, e) =
      In-map (λ (q : SatellitePass × Outside). q.0.satellite) (remaining pairs) c.satellite
        (subst (λ l. In c.satellite l) same there) in
    let (j₂, _) =
      (In-filter_iff (λ (q : SatellitePass × Outside). leb q.1.checked_at q.0.los) pairs pair).0
        j in
    let (p, k, f) = In-map (with_answers answers) passes pair j₂ in
    (p, k, ap (λ (q : SatellitePass × Outside). q.0.satellite) f ∙ e)

schedule-IsFine :
    (sats : List SatelliteInfo) (config : LoopConfig) (r : Round) (passes : List SatellitePass)
    (s : Service)
    → ((p : SatellitePass) → In p passes → In p.satellite sats)
    → IsFine sats (schedule config r passes s)
unfolding schedule
schedule-IsFine sats config r [] s h =
    rest_for-IsFine sats r.now 3_600_000 [] s (omega arith) (λ c i. absurd i)
schedule-IsFine sats config r (p ∷ ps) s h =
    let (world, results) =
      run_scheduler config.skip_signal_check (map (with_answers r.answers) (p ∷ ps)) s.world in
    rest_for-IsFine sats r.now 5_000 results (record s { world = world }) (omega arith)
      (λ c i.
        let (q, j, e) = results_of_passes config.skip_signal_check r.answers (p ∷ ps) s.world c i in
        subst (λ z. In z sats) e (h q j))

take_passes-IsFine :
    (sats : List SatelliteInfo) (config : LoopConfig) (r : Round) (passes : List SatellitePass)
    (s : Service)
    → ((p : SatellitePass) → In p passes → In p.satellite sats)
    → IsFine sats (take_passes config r passes s)
unfolding take_passes filter_high_quality_passes
take_passes-IsFine sats config r [] s h =
    rest_for-IsFine sats r.now 3_600_000 [] (with_passes r.now [] s) (omega arith) (λ c i. absurd i)
take_passes-IsFine sats config r (p ∷ ps) s h =
    let good = filter_high_quality_passes config.min_elevation (p ∷ ps) in
    schedule-IsFine sats config r good (with_passes r.now good s)
      (λ q i. h q ((In-filter_iff (is_high_quality config.min_elevation) (p ∷ ps) q).0 i).0)

with_elements-IsFine :
    (lib : SatelliteJs) (config : LoopConfig) (r : Round) (sats : List SatelliteInfo)
    (tles : Option (List TwoLineElement)) (s : Service)
    → IsFine sats (with_elements lib config r sats tles s)
unfolding with_elements
with_elements-IsFine lib config r sats none s =
    rest_for-IsFine sats r.now 300_000 [] s (omega arith) (λ c i. absurd i)
with_elements-IsFine lib config r sats (some tles) s =
    let o = loop_options config r in
    let passes = predict_passes lib sats tles config.station o in
    let (_, _, found) = predict_passes_lem lib sats tles config.station o in
    take_passes-IsFine sats config r passes s (λ p i.
      let (sat, j, of_sat) = (found p).0 i in
      let e = IsPassOf-satellite lib tles (create_observer lib config.station) o sat p of_sat in
      subst (λ z. In z sats) (sym e) j)

round_for-IsFine :
    (lib : SatelliteJs) (config : LoopConfig) (r : Round) (sats : List SatelliteInfo) (s : Service)
    → IsFine sats (round_for lib config r sats s)
unfolding round_for
round_for-IsFine lib config r [] s =
    rest_for-IsFine [] r.now 60_000 [] s (omega arith) (λ c i. absurd i)
round_for-IsFine lib config r (sat ∷ sats) s =
    let (files, tles) = get_tles r.elements (sat ∷ sats) config.update_interval_hours s.files in
    with_elements-IsFine lib config r (sat ∷ sats) tles (record s { files = files })

-- A round ends with the status idle and rests for five seconds or more, whether or not the elements
-- are found and passes are predicted; and each of its results is of a satellite that was active when
-- it began.
pub run_round-IsFine :
    (lib : SatelliteJs) (config : LoopConfig) (r : Round) (s : Service)
    → IsFine (satellites_of r s) (run_round lib config r s)
unfolding run_round
run_round-IsFine lib config r s = round_for-IsFine lib config r (satellites_of r s) s
