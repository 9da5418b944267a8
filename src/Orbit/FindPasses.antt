-- ===== src/Orbit/FindPasses.antt =====
-- `findPasses` of src/backend/prediction/orbit.ts: a walk over the instants of a window that
-- collects the intervals in which the satellite stands above an elevation.
pub mod Invariant
mod Branches
mod Tracking
mod Steps
pub mod Laws
use noaa_satellite_capture.Base.{
  ℕ, ◌-◌, ◌*◌, Bool, true, false, not, ◌&&◌, Option, none, some, List, [], ◌∷◌, ◌++◌, leb,
  if◌then◌else◌, ℤ, pos, ltb_ℤ, leb_ℤ, for_instants,
}
use noaa_satellite_capture.Types.{SatelliteInfo, TwoLineElement, SatellitePosition, SatellitePass}
use noaa_satellite_capture.Satellites.{min_duration_seconds, max_duration_seconds}
use noaa_satellite_capture.Orbit.{SatelliteJs, Observer, get_satellite_position}

-- The variables of the loop; `passes` grows at its end.
pub record Search : Type 0 where
  pub passes : List SatellitePass
  pub in_pass : Bool
  pub pass_start : Option ℕ
  pub max_elev : ℤ
  pub max_elev_time : Option ℕ

unfoldable pub new_search : Search
new_search = record {
  passes = [];
  in_pass = false;
  pass_start = none;
  max_elev = pos 0;
  max_elev_time = none;
}

-- `duration >= 240 && duration <= 1200`, in milliseconds.
abbrev pub is_acceptable : ℕ → Bool
is_acceptable duration =
    leb (min_duration_seconds * 1000) duration && leb duration (max_duration_seconds * 1000)

unfoldable pub begin_pass : ℕ → ℤ → Search → Search
begin_pass current elevation s = record s {
  in_pass = true;
  pass_start = some current;
  max_elev = elevation;
  max_elev_time = some current;
}

unfoldable pub follow_pass : ℕ → ℤ → Search → Search
follow_pass current elevation s =
    if ltb_ℤ s.max_elev elevation
    then record s { max_elev = elevation; max_elev_time = some current }
    else s

unfoldable pub end_pass : SatelliteInfo → ℕ → ℕ → ℕ → Search → Search
end_pass info current pass_start max_elev_time s =
    let duration = current - pass_start in
    let pass : SatellitePass = record {
      satellite = info;
      aos = pass_start;
      los = current;
      max_elevation = s.max_elev;
      max_elevation_time = max_elev_time;
      duration = duration;
    } in
    record s {
      passes = if is_acceptable duration then s.passes ++ pass ∷ [] else s.passes;
      in_pass = false;
      pass_start = none;
      max_elev = pos 0;
      max_elev_time = none;
    }

-- The branch for a position at or below the elevation.
unfoldable pub leave_pass : SatelliteInfo → ℕ → Bool → Option ℕ → Option ℕ → Search → Search
leave_pass info current true (some pass_start) (some max_elev_time) s =
    end_pass info current pass_start max_elev_time s
leave_pass _ _ _ _ _ s = s

-- The body of the loop under `if (position)`.
unfoldable pub visit_position : SatelliteInfo → ℤ → ℕ → SatellitePosition → Search → Search
visit_position info min_elevation current position s =
    if ltb_ℤ min_elevation position.elevation && not s.in_pass
    then begin_pass current position.elevation s
    else if ltb_ℤ min_elevation position.elevation && s.in_pass
    then follow_pass current position.elevation s
    else if leb_ℤ position.elevation min_elevation
    then leave_pass info current s.in_pass s.pass_start s.max_elev_time s
    else s

unfoldable pub visit : SatelliteInfo → ℤ → (ℕ → Option SatellitePosition) → ℕ → Search → Search
visit info min_elevation position_at current s = elim (position_at current) [
  | none ↦ s
  | some position ↦ visit_position info min_elevation current position s
]

unfoldable pub find_passes :
    (lib : SatelliteJs)
    → TwoLineElement
    → SatelliteInfo
    → Observer lib
    → ℕ
    → ℕ
    → ℤ
    → ℕ
    → List SatellitePass
unfolding visit
find_passes lib tle info observer start_time end_time min_elevation step_seconds =
    (for_instants (step_seconds * 1000) end_time
      (visit info min_elevation (get_satellite_position lib tle observer)) start_time
      new_search).passes

-- The default of `stepSeconds`.
abbrev pub default_step_seconds : ℕ
default_step_seconds = 60
