-- ===== src/Orbit.antt =====
-- src/backend/prediction/orbit.ts: positions of a satellite, over the package satellite.js.
pub mod FindPasses
pub mod Refine
pub mod Tests
use noaa_satellite_capture.Base.{ℕ, String, Option, none, some, ℤ}
use noaa_satellite_capture.Types.{
  Coordinates, SatelliteInfo, TwoLineElement, SatellitePosition, SatelliteGeolocation,
}

-- What the code takes from satellite.js, and the floating-point scalings between degrees and
-- radians. A call that can throw answers `none`; `propagate` answers `some none` where its
-- `position` is a Boolean.
pub record SatelliteJs : Type 1 where
  pub SatRec : Type 0
  pub EciVec : Type 0
  pub EcfVec : Type 0
  pub Gmst : Type 0
  pub Angle : Type 0
  pub twoline2satrec : String → String → Option SatRec
  pub propagate : SatRec → ℕ → Option (Option EciVec)
  pub gstime : ℕ → Gmst
  pub eci_to_ecf : EciVec → Gmst → EcfVec
  pub look_azimuth : Angle × Angle × ℤ → EcfVec → Angle
  pub look_elevation : Angle × Angle × ℤ → EcfVec → Angle
  pub look_range : Angle × Angle × ℤ → EcfVec → ℤ
  pub geodetic_latitude : EciVec → Gmst → Angle
  pub geodetic_longitude : EciVec → Gmst → Angle
  pub geodetic_height : EciVec → Gmst → ℤ
  pub degrees_lat : Angle → ℤ
  pub degrees_long : Angle → ℤ
  pub times_rad_to_deg : Angle → ℤ
  pub times_deg_to_rad : ℤ → Angle

module _ (lib : SatelliteJs) where
  open lib use {
    EciVec, Angle, twoline2satrec, propagate, gstime, eci_to_ecf, look_azimuth, look_elevation,
    look_range, geodetic_latitude, geodetic_longitude, geodetic_height, degrees_lat, degrees_long,
    times_rad_to_deg, times_deg_to_rad,
  }

  -- Longitude, latitude and height; the height stays in the unit of the altitude, a metre, where
  -- the source divides it by 1000.
  abbrev pub Observer : Type 0
  Observer = Angle × Angle × ℤ

  unfoldable pub create_observer : Coordinates → Observer
  create_observer coords =
      (times_deg_to_rad coords.longitude, times_deg_to_rad coords.latitude, coords.altitude)

  unfoldable pub compute_look_angles : EciVec → Observer → ℕ → SatellitePosition
  compute_look_angles position_eci observer time =
      let position_ecf = eci_to_ecf position_eci (gstime time) in
      record {
        azimuth = times_rad_to_deg (look_azimuth observer position_ecf);
        elevation = times_rad_to_deg (look_elevation observer position_ecf);
        range_sat = look_range observer position_ecf;
        timestamp = time;
      }

  -- The body of the `try` that both position functions share: the position, or null.
  unfoldable pub propagated : TwoLineElement → ℕ → Option EciVec
  propagated tle time = elim (twoline2satrec tle.line1 tle.line2) [
    | none ↦ none
    | some satrec ↦ elim (propagate satrec time) [ none ↦ none | some position ↦ position ]
  ]

  unfoldable pub get_satellite_position : TwoLineElement → Observer → ℕ → Option SatellitePosition
  unfolding propagated compute_look_angles
  get_satellite_position tle observer time = elim (propagated tle time) [
    | none ↦ none
    | some position ↦ some (compute_look_angles position observer time)
  ]

  unfoldable pub get_satellite_geolocation :
      TwoLineElement → SatelliteInfo → ℕ → Option SatelliteGeolocation
  unfolding propagated
  get_satellite_geolocation tle info time = elim (propagated tle time) [
    | none ↦ none
    | some position ↦ some (record {
      norad_id = info.norad_id;
      name = info.name;
      latitude = degrees_lat (geodetic_latitude position (gstime time));
      longitude = degrees_long (geodetic_longitude position (gstime time));
      altitude = geodetic_height position (gstime time);
      signal_type = info.signal_type;
    })
  ]
