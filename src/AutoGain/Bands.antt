-- ===== src/AutoGain/Bands.antt =====
-- src/middleware/web/auto-gain.ts: `classifyBand` and the store that `createBandGainStore` makes. A
-- `Map` is a list of entries in the order of their first insertion.
use noaa_satellite_capture.Base.{
  ℕ, Bool, true, false, not, ◌&&◌, Option, none, some, List, [], ◌∷◌, leb, if◌then◌else◌, filter, ℤ,
}

-- 'noaa', '2m' and 'unknown'.
pub data FrequencyBand : Type 0 where
  noaa two_metre unknown : FrequencyBand

abbrev pub band_eq : FrequencyBand → FrequencyBand → Bool
band_eq noaa noaa = true
band_eq two_metre two_metre = true
band_eq unknown unknown = true
band_eq _ _ = false

abbrev pub band_ranges : List (FrequencyBand × ℕ × ℕ)
band_ranges = (noaa, 136_000_000, 138_000_000) ∷ (two_metre, 144_000_000, 146_000_000) ∷ []

-- The loop of `classifyBand`.
unfoldable pub classify_in : List (FrequencyBand × ℕ × ℕ) → ℕ → FrequencyBand
classify_in [] frequency = unknown
classify_in ((band, low, high) ∷ ranges) frequency =
    if leb low frequency && leb frequency high then band else classify_in ranges frequency

unfoldable pub classify_band : ℕ → FrequencyBand
unfolding classify_in
classify_band frequency = classify_in band_ranges frequency

pub record BandGainState : Type 0 where
  pub band : FrequencyBand
  pub gain : ℤ
  pub calibrated : Bool

abbrev pub BandGainStore : Type 0
BandGainStore = List BandGainState

unfoldable pub get : FrequencyBand → BandGainStore → Option BandGainState
get band [] = none
get band (e ∷ store) = if band_eq e.band band then some e else get band store

unfoldable pub set : FrequencyBand → ℤ → Bool → BandGainStore → BandGainStore
set band gain calibrated [] = record { band = band; gain = gain; calibrated = calibrated } ∷ []
set band gain calibrated (e ∷ store) =
    if band_eq e.band band
    then record { band = band; gain = gain; calibrated = calibrated } ∷ store
    else e ∷ set band gain calibrated store

-- The result of `getForFrequency`.
pub record BandGain : Type 0 where
  pub band : FrequencyBand
  pub gain : ℤ
  pub needs_calibration : Bool

unfoldable pub get_for_frequency : ℕ → ℤ → BandGainStore → BandGain
unfolding get classify_band
get_for_frequency frequency default_gain store =
    let band = classify_band frequency in
    elim (get band store) [
      | none ↦ record { band = band; gain = default_gain; needs_calibration = true }
      | some stored ↦ record { band = band; gain = stored.gain; needs_calibration = false }
    ]

unfoldable pub clear : FrequencyBand → BandGainStore → BandGainStore
clear band store = filter (λ e. not (band_eq e.band band)) store

unfoldable pub clear_all : BandGainStore → BandGainStore
clear_all store = []

unfoldable pub get_all : BandGainStore → List BandGainState
get_all store = store
