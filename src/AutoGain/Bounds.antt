-- ===== src/AutoGain/Bounds.antt =====
-- The bounds that the calibration of src/middleware/web/auto-gain.ts keeps.
use noaa_satellite_capture.Base.{
  ℕ, ◌<◌, List, [], ◌∷◌, ◌++◌, arith, length, ℤ, pos, ◌≤ℤ◌, sum_ℤ, +ℤ_parts, -ℤ_parts,
}
use noaa_satellite_capture.AutoGain.{AutoGain, median, settle, conclude, feed}

-- The gain stays between its limits, and the samples never reach the number that is waited for.
pub record IsCalibrating (a : AutoGain) : Type 0 where
  pub step_pos : pos 0 ≤ℤ a.config.step
  pub above_min : a.config.min_gain ≤ℤ a.state.current_gain
  pub below_max : a.state.current_gain ≤ℤ a.config.max_gain
  pub needed_pos : 0 < a.config.samples_needed
  pub collecting : length a.state.samples < a.config.samples_needed

settle-IsCalibrating :
    (g : ℤ) (a : AutoGain)
    → a.config.min_gain ≤ℤ g
    → g ≤ℤ a.config.max_gain
    → IsCalibrating a
    → IsCalibrating (settle g a).0
unfolding settle
settle-IsCalibrating g a h k v = ground arith

conclude-IsCalibrating :
    (sum : ℤ) (n : ℕ) (a : AutoGain) → IsCalibrating a → IsCalibrating (conclude sum n a).0
unfolding conclude
conclude-IsCalibrating sum n a v = ground (
  arith,
  -ℤ_parts a.state.current_gain a.config.step,
  +ℤ_parts a.state.current_gain a.config.step,
)

-- Feeding a frame keeps the gain between the limits and fewer samples than are waited for, where
-- the step is not negative and this held before.
pub feed-IsCalibrating :
    (bins : List ℤ) (a : AutoGain) → IsCalibrating a → IsCalibrating (feed bins a).0
unfolding feed
feed-IsCalibrating bins a v = ground (
  arith,
  conclude-IsCalibrating (sum_ℤ (a.state.samples ++ median bins ∷ []))
      (length (a.state.samples ++ median bins ∷ [])) a,
)
