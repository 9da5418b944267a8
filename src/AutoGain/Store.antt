-- ===== src/AutoGain/Store.antt =====
-- The band gain store of src/middleware/web/auto-gain.ts is a map, and its bands are ranges.
use noaa_satellite_capture.Base.{
  ℕ, ◌≤◌, ◌<◌, ◌≡◌, refl, ◌≢◌, ◌↔◌, ◌⊎◌, Bool, true, false, none, some, [], ◌∷◌, arith,
  if◌then◌else◌, ℤ,
}
use noaa_satellite_capture.AutoGain.{
  FrequencyBand, noaa, two_metre, unknown, band_eq, classify_band, BandGainStore, get, set,
  get_for_frequency, clear,
}

-- A frequency is of the band 'noaa' from 136 to 138 MHz, of '2m' from 144 to 146 MHz, the ends
-- included, and of no band otherwise.
classify_band_iff :
    (f : ℕ)
    → ((classify_band f ≡ noaa) ↔ ((136_000_000 ≤ f) × (f ≤ 138_000_000)))
      × ((classify_band f ≡ two_metre) ↔ ((144_000_000 ≤ f) × (f ≤ 146_000_000)))
      × ((classify_band f ≡ unknown)
          ↔ ((f < 136_000_000) ⊎ ((138_000_000 < f) × (f < 144_000_000)) ⊎ (146_000_000 < f)))
unfolding classify_band
classify_band_iff f = ground arith

band_eq_iff : (b c : FrequencyBand) → (band_eq b c ≡ true) ↔ (b ≡ c)
band_eq_iff b c = ground arith

pub get-set :
    (b c : FrequencyBand) (g : ℤ) (k : Bool) (s : BandGainStore)
    → get c (set b g k s)
      ≡ (if band_eq b c then some (record { band = b; gain = g; calibrated = k }) else get c s)
unfolding get set
get-set b c g k [] = refl
get-set b c g k (e ∷ s) =
    ground (arith, get-set b c g k s, band_eq_iff e.band b, band_eq_iff e.band c, band_eq_iff b c)

pub get-clear :
    (b c : FrequencyBand) (s : BandGainStore)
    → get c (clear b s) ≡ (if band_eq b c then none else get c s)
unfolding get clear
get-clear b c [] = ground arith
get-clear b c (e ∷ s) =
    ground (arith, get-clear b c s, band_eq_iff e.band b, band_eq_iff e.band c, band_eq_iff b c)

-- The gain for a frequency after a store of its band: the gain that was stored, with no
-- calibration needed, whether or not it was marked as calibrated; the gains for the frequencies of
-- other bands are unchanged. After clearing its band it is the default, to be calibrated.
pub get_for_frequency-set :
    (f h : ℕ) (g d : ℤ) (k : Bool) (s : BandGainStore)
    → (get_for_frequency f d (set (classify_band f) g k s)
        ≡ record { band = classify_band f; gain = g; needs_calibration = false })
      × (get_for_frequency f d (clear (classify_band f) s)
          ≡ record { band = classify_band f; gain = d; needs_calibration = true })
      × (classify_band h ≢ classify_band f
          → (get_for_frequency h d (set (classify_band f) g k s) ≡ get_for_frequency h d s)
            × (get_for_frequency h d (clear (classify_band f) s) ≡ get_for_frequency h d s))
unfolding get_for_frequency
get_for_frequency-set f h g d k s =
    let b = classify_band f in
    let c = classify_band h in
    ground (
      arith,
      get-set b b g k s,
      get-clear b b s,
      get-set b c g k s,
      get-clear b c s,
      band_eq_iff b b,
      band_eq_iff b c,
    )
