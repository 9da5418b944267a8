-- ===== src/Orbit/FindPasses/Invariant.antt =====
-- What the loop of `findPasses` keeps, over any function that gives positions.
use noaa_satellite_capture.Base.{
  ℕ, suc, ◌+◌, ◌*◌, ◌≤◌, ◌<◌, ◌≡◌, subst, ◌⊎◌, inl, inr, true, false, Option, none, some, List, [],
  ◌∷◌, arith, All, ℤ, ◌≤ℤ◌, ◌<ℤ◌, mul-le_cases,
}
use noaa_satellite_capture.Types.{SatelliteInfo, SatellitePosition, SatellitePass}
use noaa_satellite_capture.Orbit.FindPasses.{Search}

-- Each pass sets before the next one rises.
abbrev pub IsChronological : List SatellitePass → Type 0
IsChronological [] = Unit
IsChronological (p ∷ ps) = All (λ q. p.los < q.aos) ps × IsChronological ps

-- The arguments of one walk, with the positions that it meets and its step in milliseconds.
pub record Walk : Type 0 where
  pub position_at : ℕ → Option SatellitePosition
  pub sat : SatelliteInfo
  pub start_time : ℕ
  pub end_time : ℕ
  pub min_elevation : ℤ
  pub step : ℕ

module _ (walk : Walk) where
  open walk use {position_at, sat, start_time, end_time, min_elevation, step}

  -- An instant that the walk visits.
  abbrev pub IsInstant : ℕ → Type 0
  IsInstant t = (k : ℕ) × (t ≡ start_time + k * step)

  -- At each instant from `a` to before `b` that has a position, the satellite is above the
  -- elevation, and at most as high as `top`.
  abbrev pub IsVisible : ℕ → ℕ → ℤ → Type 0
  IsVisible a b top =
      (t : ℕ)
      → IsInstant t
      → a ≤ t
      → t < b
      → (p : SatellitePosition) → position_at t ≡ some p
      → (min_elevation <ℤ p.elevation) × (p.elevation ≤ℤ top)

  -- At the instant before `c`, if the walk visits it and it has a position, the satellite is not
  -- above the elevation.
  abbrev pub IsQuiet : ℕ → Type 0
  IsQuiet c =
      (b : ℕ)
      → b + step ≡ c
      → start_time ≤ b
      → (p : SatellitePosition) → position_at b ≡ some p
      → p.elevation ≤ℤ min_elevation

  pub record IsSound (pass : SatellitePass) : Type 0 where
    pub satellite : pass.satellite ≡ sat
    pub after_start : start_time ≤ pass.aos
    pub before_end : pass.los ≤ end_time
    pub lasts : pass.aos + pass.duration ≡ pass.los
    pub long_enough : 240_000 ≤ pass.duration
    pub short_enough : pass.duration ≤ 1_200_000
    pub rises :
        (p : SatellitePosition) × (position_at pass.aos ≡ some p) × (min_elevation <ℤ p.elevation)
    pub preceded : IsQuiet pass.aos
    pub sets :
        (p : SatellitePosition) × (position_at pass.los ≡ some p) × (p.elevation ≤ℤ min_elevation)
    pub culminates :
        (p : SatellitePosition) × (position_at pass.max_elevation_time ≡ some p)
        × (p.elevation ≡ pass.max_elevation)
    pub peak_after : pass.aos ≤ pass.max_elevation_time
    pub peak_before : pass.max_elevation_time < pass.los
    pub visible : IsVisible pass.aos pass.los pass.max_elevation

  -- A pass is under way since `a`, and was highest at `m`.
  pub record IsTracked (c : ℕ) (s : Search) (a m : ℕ) : Type 0 where
    pub active : s.in_pass ≡ true
    pub started : s.pass_start ≡ some a
    pub peaked : s.max_elev_time ≡ some m
    pub after_start : start_time ≤ a
    pub peak_after : a ≤ m
    pub peak_before : m < c
    pub rises : (p : SatellitePosition) × (position_at a ≡ some p) × (min_elevation <ℤ p.elevation)
    pub culminates : (p : SatellitePosition) × (position_at m ≡ some p) × (p.elevation ≡ s.max_elev)
    pub visible : IsVisible a c s.max_elev
    pub preceded : IsQuiet a
    pub later : All (λ p. p.los < a) s.passes

  pub record Inv (c : ℕ) (s : Search) : Type 0 where
    pub instant : IsInstant c
    pub sound : All IsSound s.passes
    pub ordered : IsChronological s.passes
    pub before : All (λ p. p.los < c) s.passes
    pub phase : ((s.in_pass ≡ false) × IsQuiet c) ⊎ ((a : ℕ) × (m : ℕ) × IsTracked c s a m)

  pub IsInstant-next : (t c : ℕ) → IsInstant c → IsInstant t → t < c + step → (t < c) ⊎ (t ≡ c)
  IsInstant-next t c (k, ek) (j, ej) h = omega (arith, mul-le_cases j k step, ek, ej)

  pub IsInstant-step : (c : ℕ) → IsInstant c → IsInstant (c + step)
  IsInstant-step c (k, e) = (suc k, grind arith)

  pub IsInstant-after : (c : ℕ) → IsInstant c → start_time ≤ c
  IsInstant-after c (k, e) = omega arith

  -- One more instant, at which the satellite stands at `p`.
  pub IsVisible-next :
      (a c : ℕ) (top top' : ℤ) (p : SatellitePosition)
      → IsInstant c
      → position_at c ≡ some p
      → min_elevation <ℤ p.elevation
      → p.elevation ≤ℤ top'
      → top ≤ℤ top'
      → IsVisible a c top
      → IsVisible a (c + step) top'
  IsVisible-next a c top top' p ic e low high mono v t it la lb q eq =
      elim (IsInstant-next t c ic it lb) [
        | inl old ↦ omega (arith, v t it la old q eq)
        | inr now ↦
            let same : p ≡ q = ground arith in
            subst (λ r. (min_elevation <ℤ r.elevation) × (r.elevation ≤ℤ top')) same (low, high)
      ]

  pub IsQuiet-low :
      (c : ℕ) (p : SatellitePosition)
      → position_at c ≡ some p
      → p.elevation ≤ℤ min_elevation
      → IsQuiet (c + step)
  IsQuiet-low c p e low b eb after q eq =
      let now : b ≡ c = omega arith in
      let same : p ≡ q = ground arith in
      subst (λ (r : SatellitePosition). r.elevation ≤ℤ min_elevation) same low

  pub IsQuiet-missing : (c : ℕ) → position_at c ≡ none → IsQuiet (c + step)
  IsQuiet-missing c e b eb after q eq = let now : b ≡ c = omega arith in absurd (ground arith)
