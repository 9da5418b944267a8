-- ===== src/AutoGain/Calibration.antt =====
-- src/middleware/web/auto-gain.ts: `createAutoGain`. A method takes the closure's state and returns
-- the new one. A mean is compared through its sum: `sum / n > t` as `sum > t * n`.
use noaa_satellite_capture.Base.{
  ℕ, ◌/◌, Bool, true, false, not, Option, none, some, List, [], ◌∷◌, ◌++◌, ltb, if◌then◌else◌,
  length, get_elem?, ℤ, pos, neg, ◌+ℤ◌, ◌-ℤ◌, ◌*ℤ◌, ltb_ℤ, leb_ℤ, eqb_ℤ, max_ℤ, min_ℤ, sum_ℤ,
}

pub record AutoGainConfig : Type 0 where
  pub target_min : ℤ
  pub target_max : ℤ
  pub samples_needed : ℕ
  pub step : ℤ
  pub min_gain : ℤ
  pub max_gain : ℤ

pub record AutoGainState : Type 0 where
  pub enabled : Bool
  pub current_gain : ℤ
  pub samples : List ℤ

pub data GainAdjustResult : Type 0 where
  waiting : GainAdjustResult
  in_range : ℤ → GainAdjustResult
  adjusted : ℤ → ℤ → GainAdjustResult
  limit_reached : ℤ → GainAdjustResult

abbrev pub default_config : AutoGainConfig
default_config = record {
  target_min = neg 80_000;
  target_max = neg 55_000;
  samples_needed = 10;
  step = pos 5_000;
  min_gain = pos 0;
  max_gain = pos 50_000;
}

pub record AutoGain : Type 0 where
  pub config : AutoGainConfig
  pub state : AutoGainState

unfoldable pub create_auto_gain : ℤ → AutoGainConfig → AutoGain
create_auto_gain initial_gain config = record {
  config = config;
  state = record { enabled = true; current_gain = initial_gain; samples = [] };
}

-- `sort((a, b) => a - b)`.
unfoldable pub insert : ℤ → List ℤ → List ℤ
insert x [] = x ∷ []
insert x (y ∷ ys) = if leb_ℤ x y then x ∷ y ∷ ys else y ∷ insert x ys

unfoldable pub sort : List ℤ → List ℤ
unfolding insert
sort [] = []
sort (x ∷ xs) = insert x (sort xs)

abbrev or_default : Option ℤ → ℤ
or_default none = neg 100_000
or_default (some x) = x

unfoldable pub median : List ℤ → ℤ
unfolding sort
median bins = let sorted = sort bins in or_default (get_elem? sorted (length sorted / 2))

-- The end of `feed`: `newGain` is chosen.
unfoldable pub settle : ℤ → AutoGain → AutoGain × GainAdjustResult
settle new_gain a =
    let old_gain = a.state.current_gain in
    if not (eqb_ℤ new_gain old_gain)
    then (
      record a { state = record a.state { current_gain = new_gain } },
      adjusted old_gain new_gain,
    )
    else (record a { state = record a.state { enabled = false } }, limit_reached old_gain)

-- The part of `feed` after the samples are full: `sum` is that of `n` samples.
unfoldable pub conclude : ℤ → ℕ → AutoGain → AutoGain × GainAdjustResult
unfolding settle
conclude sum n a =
    let b = record a { state = record a.state { samples = [] } } in
    let gain = a.state.current_gain in
    if ltb_ℤ (a.config.target_max *ℤ n) sum
    then settle (max_ℤ a.config.min_gain (gain -ℤ a.config.step)) b
    else if ltb_ℤ sum (a.config.target_min *ℤ n)
    then settle (min_ℤ a.config.max_gain (gain +ℤ a.config.step)) b
    else (record b { state = record b.state { enabled = false } }, in_range gain)

unfoldable pub feed : List ℤ → AutoGain → AutoGain × GainAdjustResult
unfolding conclude
feed bins a =
    let samples = a.state.samples ++ median bins ∷ [] in
    if not a.state.enabled
    then (a, waiting)
    else if ltb (length samples) a.config.samples_needed
    then (record a { state = record a.state { samples = samples } }, waiting)
    else conclude (sum_ℤ samples) (length samples) a

unfoldable pub reset : AutoGain → AutoGain
reset a = record a { state = record a.state { samples = []; enabled = true } }

unfoldable pub enable : AutoGain → AutoGain
enable a = record a { state = record a.state { enabled = true; samples = [] } }

unfoldable pub disable : AutoGain → AutoGain
disable a = record a { state = record a.state { enabled = false; samples = [] } }

unfoldable pub set_gain : ℤ → AutoGain → AutoGain
set_gain gain a = record a { state = record { current_gain = gain; enabled = false; samples = [] } }
