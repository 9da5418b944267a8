-- ===== src/AutoGain/Verdicts.antt =====
-- What each result of `feed` in src/middleware/web/auto-gain.ts means.
use noaa_satellite_capture.Base.{
  ◌≤◌, ◌<◌, ◌≡◌, ◌≢◌, ◌⊎◌, inl, inr, true, false, List, [], ◌∷◌, ◌++◌, arith, ltb, Bool-cases,
  length, ℤ, pos, ◌+ℤ◌, ◌-ℤ◌, ◌*ℤ◌, ◌≤ℤ◌, ◌<ℤ◌, ltb_ℤ, eqb_ℤ, max_ℤ, min_ℤ, sum_ℤ, ltb_ℤ→lt,
  not_ltb_ℤ→le, int_laws,
}
use noaa_satellite_capture.AutoGain.{
  GainAdjustResult, waiting, in_range, adjusted, limit_reached, AutoGain, median, settle, conclude,
  feed,
}

-- The samples that a frame completes.
abbrev pub with_frame : List ℤ → AutoGain → List ℤ
with_frame bins a = a.state.samples ++ median bins ∷ []

-- The mean of the samples is above the targets, below them, or between.
abbrev pub IsTooHigh : List ℤ → AutoGain → Type 0
IsTooHigh samples a = a.config.target_max *ℤ length samples <ℤ sum_ℤ samples

abbrev pub IsTooLow : List ℤ → AutoGain → Type 0
IsTooLow samples a = sum_ℤ samples <ℤ a.config.target_min *ℤ length samples

-- The calibration is on and has the samples that it needs.
abbrev pub IsFull : List ℤ → AutoGain → Type 0
IsFull samples a = (a.state.enabled ≡ true) × (a.config.samples_needed ≤ length samples)

-- The result tells the new gain, whether the calibration goes on, and why.
abbrev pub Explains : List ℤ → AutoGain → AutoGain → GainAdjustResult → Type 0
Explains samples a b waiting =
    (b.state.current_gain ≡ a.state.current_gain)
    × (b.state.enabled ≡ a.state.enabled)
    × ((a.state.enabled ≡ false) ⊎ (length samples < a.config.samples_needed))
Explains samples a b (in_range g) =
    IsFull samples a
    × (g ≡ a.state.current_gain)
    × (b.state.current_gain ≡ g)
    × (b.state.enabled ≡ false)
    × (b.state.samples ≡ [])
    × ¬ IsTooHigh samples a
    × ¬ IsTooLow samples a
Explains samples a b (adjusted old new) =
    IsFull samples a
    × (old ≡ a.state.current_gain)
    × (b.state.current_gain ≡ new)
    × (b.state.enabled ≡ true)
    × (b.state.samples ≡ [])
    × ((IsTooHigh samples a × (new <ℤ old) × (old ≤ℤ new +ℤ a.config.step))
        ⊎ (IsTooLow samples a × (old <ℤ new) × (new ≤ℤ old +ℤ a.config.step)))
Explains samples a b (limit_reached g) =
    IsFull samples a
    × (g ≡ a.state.current_gain)
    × (b.state.current_gain ≡ g)
    × (b.state.enabled ≡ false)
    × (b.state.samples ≡ [])
    × ((IsTooHigh samples a × (g ≡ a.config.min_gain))
        ⊎ (IsTooLow samples a × (g ≡ a.config.max_gain)))

module _ (limit g step : ℤ) (step_pos : pos 0 <ℤ step) where
  lowered_cases :
      limit ≤ℤ g
      → let new = max_ℤ limit (g -ℤ step) in
        ((new <ℤ g) × (g ≤ℤ new +ℤ step)) ⊎ ((new ≡ g) × (g ≡ limit))
  lowered_cases h = elim (Bool-cases (ltb_ℤ limit (g -ℤ step))) [
    | inl inside ↦ rw inside (inl (omega int_laws, omega int_laws))
    | inr past ↦ rw past (elim (Bool-cases (ltb_ℤ limit g)) [
      | inl below ↦
          let small = not_ltb_ℤ→le limit (g -ℤ step) past in
          inl (ltb_ℤ→lt limit g below, omega int_laws)
      | inr same ↦ let small = not_ltb_ℤ→le limit g same in inr (omega int_laws, omega int_laws)
    ])
  ]

  raised_cases :
      g ≤ℤ limit
      → let new = min_ℤ limit (g +ℤ step) in
        ((g <ℤ new) × (new ≤ℤ g +ℤ step)) ⊎ ((new ≡ g) × (g ≡ limit))
  raised_cases h = elim (Bool-cases (ltb_ℤ (g +ℤ step) limit)) [
    | inl inside ↦ rw inside (inl (omega int_laws, omega int_laws))
    | inr past ↦ rw past (elim (Bool-cases (ltb_ℤ g limit)) [
      | inl above ↦
          let big = not_ltb_ℤ→le (g +ℤ step) limit past in
          inl (ltb_ℤ→lt g limit above, omega int_laws)
      | inr same ↦ let big = not_ltb_ℤ→le g limit same in inr (omega int_laws, omega int_laws)
    ])
  ]

-- The choice between a new gain and the end of the calibration.
settle_cases :
    (new : ℤ) (a : AutoGain)
    → ((new ≢ a.state.current_gain)
        × (settle new a ≡ (
          record a { state = record a.state { current_gain = new } },
          adjusted a.state.current_gain new,
        )))
      ⊎ ((new ≡ a.state.current_gain)
          × (settle new a ≡ (
            record a { state = record a.state { enabled = false } },
            limit_reached a.state.current_gain,
          )))
unfolding settle
settle_cases new a = elim (Bool-cases (eqb_ℤ new a.state.current_gain)) [
  | inl same ↦ inr (ground arith, rw same)
  | inr differ ↦ inl (ground arith, rw differ)
]

module _ (a : AutoGain) (samples : List ℤ) (full : IsFull samples a)
    (step_pos : pos 0 <ℤ a.config.step) (above_min : a.config.min_gain ≤ℤ a.state.current_gain)
    (below_max : a.state.current_gain ≤ℤ a.config.max_gain) where
  conclude-Explains :
      let done = conclude (sum_ℤ samples) (length samples) a in Explains samples a done.0 done.1
  unfolding conclude
  conclude-Explains =
      let g = a.state.current_gain in
      let down = lowered_cases a.config.min_gain g a.config.step step_pos above_min in
      let up = raised_cases a.config.max_gain g a.config.step step_pos below_max in
      let b = record a { state = record a.state { samples = [] } } in
      ground (
        arith,
        settle_cases (max_ℤ a.config.min_gain (g -ℤ a.config.step)) b,
        settle_cases (min_ℤ a.config.max_gain (g +ℤ a.config.step)) b,
      )

-- With a positive step and a gain between the limits, the result of `feed` tells what happened:
-- it waits, with the gain unchanged, exactly for a disabled calibration or too few samples;
-- otherwise the samples start afresh, and it locks the gain where the mean is in the target range,
-- moves it by at most a step, down where the mean is above and up where it is below the range, or
-- stops at the limit in that direction.
pub feed-Explains :
    (bins : List ℤ) (a : AutoGain)
    → pos 0 <ℤ a.config.step
    → a.config.min_gain ≤ℤ a.state.current_gain
    → a.state.current_gain ≤ℤ a.config.max_gain
    → let done = feed bins a in Explains (with_frame bins a) a done.0 done.1
unfolding feed
feed-Explains bins a step_pos above below = elim (Bool-cases a.state.enabled) [
  | inr off ↦ ground arith
  | inl on ↦ elim (Bool-cases (ltb (length (with_frame bins a)) a.config.samples_needed)) [
    | inl few ↦ ground arith
    | inr full ↦
        let enough : IsFull (with_frame bins a) a = (on, ground arith) in
        let all = conclude-Explains a (with_frame bins a) enough step_pos above below in
        ground arith
  ]
]
