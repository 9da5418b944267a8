-- ===== src/RunLoop.antt =====
-- The loop of src/backend/cli/commands/run.ts: the active satellites, their elements, their passes
-- and the scheduler, round by round. Its start and its shutdown are not modelled.
pub mod Laws
mod Tests
use noaa_satellite_capture.Base.{ℕ, Bool, Option, none, some, List, [], ◌∷◌, map, ℤ}
use noaa_satellite_capture.Types.{
  Coordinates, SatelliteInfo, TwoLineElement, SatellitePass, CaptureResult, idle,
}
use noaa_satellite_capture.Satellites.{satellites}
use noaa_satellite_capture.StateManager.{set_status, update_passes}
use noaa_satellite_capture.Orbit.{SatelliteJs}
use noaa_satellite_capture.Events.{Events, active_satellites}
use noaa_satellite_capture.Passes.{PredictionOptions, filter_high_quality_passes, predict_passes}
use noaa_satellite_capture.Tle.{CacheFiles, Outside, get_tles}
use noaa_satellite_capture.Tle as Tle
use noaa_satellite_capture.Scheduler.{World, run_scheduler}
use noaa_satellite_capture.Scheduler as Scheduler

-- The part of the configuration that the loop reads; `skip` is the scheduler's own option.
pub record LoopConfig : Type 0 where
  pub station : Coordinates
  pub min_elevation : ℤ
  pub update_interval_hours : ℕ
  pub skip_signal_check : Bool

-- What a round meets: the time, one for the whole round, the server of the elements, and the answers during each pass.
pub record Round : Type 0 where
  pub now : ℕ
  pub elements : Tle.Outside
  pub answers : SatellitePass → Scheduler.Outside

pub record Service : Type 0 where
  pub world : World
  pub files : CacheFiles
  pub events : Events

-- The service after a round, how long it sleeps then, and the results of the round.
pub record Outcome : Type 0 where
  pub service : Service
  pub sleep_ms : ℕ
  pub results : List CaptureResult

-- `stateManager.setStatus('idle')`, and the sleep.
abbrev pub rest_for : ℕ → ℕ → List CaptureResult → Service → Outcome
rest_for now ms results s = record {
  service = record s { world = record s.world { manager = set_status now idle s.world.manager } };
  sleep_ms = ms;
  results = results;
}

abbrev pub with_passes : ℕ → List SatellitePass → Service → Service
with_passes now passes s = record s {
  world = record s.world { manager = update_passes now passes s.world.manager };
}

-- The scheduler's pairs of a pass and what happens during it.
abbrev pub with_answers :
    (SatellitePass → Scheduler.Outside) → SatellitePass → SatellitePass × Scheduler.Outside
with_answers answers pass = (pass, answers pass)

-- The end of a round, with the passes of high quality.
unfoldable pub schedule : LoopConfig → Round → List SatellitePass → Service → Outcome
schedule config r [] s = rest_for r.now 3_600_000 [] s
schedule config r (p ∷ ps) s =
    let (world, results) =
      run_scheduler config.skip_signal_check (map (with_answers r.answers) (p ∷ ps)) s.world in
    rest_for r.now 5_000 results (record s { world = world })

-- The part of a round that has the predicted passes.
unfoldable pub take_passes : LoopConfig → Round → List SatellitePass → Service → Outcome
unfolding schedule
take_passes config r [] s = rest_for r.now 3_600_000 [] (with_passes r.now [] s)
take_passes config r (p ∷ ps) s =
    let passes = filter_high_quality_passes config.min_elevation (p ∷ ps) in
    schedule config r passes (with_passes r.now passes s)

abbrev pub loop_options : LoopConfig → Round → PredictionOptions
loop_options config r = record {
  start_time = r.now;
  hours_ahead = 24;
  min_elevation = config.min_elevation;
}

-- What follows `getTles`; an error that it throws ends the round, with a rest of five minutes.
unfoldable pub with_elements :
    SatelliteJs
    → LoopConfig
    → Round
    → List SatelliteInfo
    → Option (List TwoLineElement)
    → Service
    → Outcome
unfolding take_passes
with_elements lib config r sats none s = rest_for r.now 300_000 [] s
with_elements lib config r sats (some tles) s =
    take_passes config r (predict_passes lib sats tles config.station (loop_options config r)) s

-- The satellites of the round.
abbrev pub satellites_of : Round → Service → List SatelliteInfo
satellites_of r s = active_satellites r.now s.events satellites

-- A round for the given satellites.
unfoldable pub round_for : SatelliteJs → LoopConfig → Round → List SatelliteInfo → Service → Outcome
unfolding with_elements
round_for lib config r [] s = rest_for r.now 60_000 [] s
round_for lib config r (sat ∷ sats) s =
    let (files, tles) = get_tles r.elements (sat ∷ sats) config.update_interval_hours s.files in
    with_elements lib config r (sat ∷ sats) tles (record s { files = files })

-- The body of the loop.
unfoldable pub run_round : SatelliteJs → LoopConfig → Round → Service → Outcome
unfolding round_for
run_round lib config r s = round_for lib config r (satellites_of r s) s
