-- ===== src/Passes/Doppler.antt =====
-- src/backend/prediction/doppler.ts: the shift of the frequency along the positions of a pass.
pub mod Laws
use noaa_satellite_capture.Base.{
  ℕ, Option, none, some, List, [], ◌∷◌, ◌++◌, ◌==◌, if◌then◌else◌, head?, ℤ, pos, sub_ℕ, ◌+ℤ◌, ◌-ℤ◌,
  ltb_ℤ,
}
use noaa_satellite_capture.Types.{SatellitePosition}

-- The floating-point arithmetic: `dRange * 1000 / dt` for a change of the range in a time in
-- milliseconds, and the shift of a frequency at a velocity, with the speed of light.
pub record Arithmetic : Type 0 where
  pub velocity : ℤ → ℤ → ℤ
  pub shift_at : ℕ → ℤ → ℤ

pub record DopplerPoint : Type 0 where
  pub timestamp : ℕ
  pub frequency : ℤ
  pub shift : ℤ

pub record DopplerData : Type 0 where
  pub points : List DopplerPoint
  pub max_shift : ℤ
  pub min_shift : ℤ

-- `if (shift > maxShift) maxShift = shift` and its mirror image.
abbrev pub raise : Option ℤ → ℤ → Option ℤ
raise none x = some x
raise (some m) x = if ltb_ℤ m x then some x else some m

abbrev pub lower : Option ℤ → ℤ → Option ℤ
lower none x = some x
lower (some m) x = if ltb_ℤ x m then some x else some m

abbrev pub or_zero : Option ℤ → ℤ
or_zero none = pos 0
or_zero (some x) = x

module _ (ar : Arithmetic) where
  -- The velocity between two positions, unless no time lies between them.
  abbrev between_positions : SatellitePosition → SatellitePosition → Option ℤ
  between_positions a b =
      if a.timestamp == b.timestamp
      then none
      else some (ar.velocity (b.range_sat -ℤ a.range_sat) (sub_ℕ b.timestamp a.timestamp))

  abbrev from_prev : Option SatellitePosition → SatellitePosition → ℤ
  from_prev none current = pos 0
  from_prev (some prev) current = elim (between_positions prev current) [
    | none ↦ pos 0
    | some v ↦ v
  ]

  unfoldable pub calculate_radial_velocity :
      Option SatellitePosition → SatellitePosition → Option SatellitePosition → ℤ
  calculate_radial_velocity prev current none = from_prev prev current
  calculate_radial_velocity prev current (some next) = elim (between_positions current next) [
    | none ↦ from_prev prev current
    | some v ↦ v
  ]

  -- The variables of `calculateDopplerShift`; no bound yet stands for the infinities.
  pub record Shifts : Type 0 where
    pub points : List DopplerPoint
    pub max_shift : Option ℤ
    pub min_shift : Option ℤ

  unfoldable pub push_shift :
      ℕ → Option SatellitePosition → SatellitePosition → Option SatellitePosition → Shifts → Shifts
  push_shift base_frequency prev current next s =
      let velocity = calculate_radial_velocity prev current next in
      let shift = ar.shift_at base_frequency velocity in
      record {
        points =
            s.points
            ++ record {
              timestamp = current.timestamp;
              frequency = pos base_frequency +ℤ shift;
              shift = shift;
            }
              ∷ [];
        max_shift = raise s.max_shift shift;
        min_shift = lower s.min_shift shift;
      }

  -- `positions.map(...)`, with the position before.
  unfoldable pub map_shifts :
      ℕ → Option SatellitePosition → List SatellitePosition → Shifts → Shifts
  map_shifts base_frequency prev [] s = s
  map_shifts base_frequency prev (current ∷ rest) s =
      map_shifts base_frequency (some current) rest
        (push_shift base_frequency prev current (head? rest) s)

  unfoldable pub calculate_doppler_shift : ℕ → List SatellitePosition → DopplerData
  calculate_doppler_shift base_frequency positions =
      let s =
        map_shifts base_frequency none positions
          (record { points = []; max_shift = none; min_shift = none }) in
      record { points = s.points; max_shift = or_zero s.max_shift; min_shift = or_zero s.min_shift }
