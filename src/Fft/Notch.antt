-- ===== src/Fft/Notch.antt =====
-- src/backend/capture/fft-stream.ts: the list of notch filters, and their effect on a frame.
pub mod Laws
mod Beside
pub mod Effect
use noaa_satellite_capture.Base.{
  ℕ, ◌+◌, ◌-◌, ◌*◌, ◌/◌, Bool, true, false, ◌&&◌, Option, none, some, List, [], ◌∷◌, ltb, leb,
  if◌then◌else◌, min_of, length, get_elem?, filter, ℤ, neg, max_ℤ, min_ℤ,
}
use noaa_satellite_capture.Fft.{FftData, NotchFilter}

-- `Math.abs(f - g) < 1_000`.
abbrev pub is_near : ℕ → ℕ → Bool
is_near f g = ltb f (g + 1_000) && ltb g (f + 1_000)

-- The first filter near a frequency is widened and enabled; if there is none, one is added.
unfoldable pub add_notch_filter : ℕ → ℕ → List NotchFilter → List NotchFilter
add_notch_filter frequency width [] =
    record { frequency = frequency; width = width; enabled = true } ∷ []
add_notch_filter frequency width (f ∷ filters) =
    if is_near f.frequency frequency
    then record f { width = width; enabled = true } ∷ filters
    else f ∷ add_notch_filter frequency width filters

unfoldable pub remove_notch_filter : ℕ → List NotchFilter → List NotchFilter × Bool
remove_notch_filter frequency [] = ([], false)
remove_notch_filter frequency (f ∷ filters) =
    let (rest, removed) = remove_notch_filter frequency filters in
    if is_near f.frequency frequency then (filters, true) else (f ∷ rest, removed)

unfoldable pub set_notch_filter_enabled : ℕ → Bool → List NotchFilter → List NotchFilter × Bool
set_notch_filter_enabled frequency enabled [] = ([], false)
set_notch_filter_enabled frequency enabled (f ∷ filters) =
    let (rest, updated) = set_notch_filter_enabled frequency enabled filters in
    if is_near f.frequency frequency
    then (record f { enabled = enabled } ∷ filters, true)
    else (f ∷ rest, updated)

unfoldable pub get_notch_filters : List NotchFilter → List NotchFilter
get_notch_filters filters = filters

unfoldable pub clear_notch_filters : List NotchFilter → List NotchFilter
clear_notch_filters filters = []

-- The grid of a frame: bin `i` stands at `start_freq + i * rate / size` hertz. The width of a bin is
-- kept as the fraction `rate / size`, and comparisons are multiplied by `size`.
pub record Grid : Type 0 where
  pub start_freq : ℕ
  pub rate : ℕ
  pub size : ℕ

-- `binFreq >= notchStart && binFreq <= notchEnd`.
unfoldable pub in_notch : Grid → NotchFilter → ℕ → Bool
in_notch g f i =
    leb (f.frequency * g.size) ((g.start_freq + f.width) * g.size + i * g.rate)
    && leb (g.start_freq * g.size + i * g.rate) ((f.frequency + f.width) * g.size)

-- `Math.max(0, Math.floor((notchStart - startFreq) / binWidth) - 2)`.
unfoldable pub left_idx : Grid → NotchFilter → ℕ
left_idx g f = (f.frequency - (f.width + g.start_freq)) * g.size / g.rate - 2

-- `Math.min(length - 1, Math.ceil((notchEnd - startFreq) / binWidth) + 2)`.
unfoldable pub right_idx : Grid → NotchFilter → ℕ → ℕ
right_idx g f count =
    min_of (count - 1) (((f.frequency + f.width - g.start_freq) * g.size + g.rate - 1) / g.rate + 2)

-- `bins[i] ?? bins[0] ?? -100` and `bins[i] ?? bins[length - 1] ?? -100`.
abbrev or_power : Option ℤ → ℤ → ℤ
or_power none p = p
or_power (some q) p = q

-- The mean of two powers, a floating-point operation.
module _ (mean : ℤ → ℤ → ℤ) where
  unfoldable pub notch_value : Grid → NotchFilter → List ℤ → ℤ
  unfolding left_idx right_idx
  notch_value g f bins =
      let n = length bins in
      let left =
        or_power (get_elem? bins (left_idx g f)) (or_power (get_elem? bins 0) (neg 100_000)) in
      let right =
        or_power (get_elem? bins (right_idx g f n))
          (or_power (get_elem? bins (n - 1)) (neg 100_000)) in
      mean left right

  -- The inner loop over `filteredBins`, from bin `i`; `bins` are those of the data.
  unfoldable pub notch_bins : Grid → NotchFilter → List ℤ → ℕ → List ℤ → List ℤ
  unfolding notch_value in_notch
  notch_bins g f bins i [] = []
  notch_bins g f bins i (b ∷ filtered) =
      (if in_notch g f i then notch_value g f bins else b) ∷ notch_bins g f bins (i + 1) filtered

  -- The outer loop over the enabled filters.
  unfoldable pub notch_all : Grid → List NotchFilter → List ℤ → List ℤ → List ℤ
  unfolding notch_bins
  notch_all g [] bins filtered = filtered
  notch_all g (f ∷ filters) bins filtered =
      notch_all g filters bins (notch_bins g f bins 0 filtered)

  -- The loop that recalculates `minPower` and `maxPower`.
  abbrev pub extremes : List ℤ → Option (ℤ × ℤ)
  extremes [] = none
  extremes (b ∷ bins) = elim (extremes bins) [
    | none ↦ some (b, b)
    | some (low, high) ↦ some (min_ℤ b low, max_ℤ b high)
  ]

  unfoldable pub apply_notch_filters : List NotchFilter → Grid → FftData → FftData
  unfolding notch_all
  apply_notch_filters [] g fft = fft
  apply_notch_filters (f ∷ filters) g fft =
      let enabled = filter (λ (n : NotchFilter). n.enabled) (f ∷ filters) in
      let filtered = notch_all g enabled fft.bins fft.bins in
      elim (extremes filtered) [
        | none ↦ record fft { bins = filtered; min_power = neg 100_000; max_power = neg 50_000 }
        | some (low, high) ↦ record fft { bins = filtered; min_power = low; max_power = high }
      ]
