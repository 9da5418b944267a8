-- ===== src/Web/Bounds/Kept.antt =====
-- What bounds the state of src/middleware/web/server.ts: its history and its gains.
use noaa_satellite_capture.Base.{
  ℕ, ◌≤◌, ◌≡◌, inl, inr, Bool, some, [], ◌∷◌, arith, Option-cases, length, ℤ, pos, ◌≤ℤ◌,
}
use noaa_satellite_capture.AutoGain.{
  FrequencyBand, classify_band, BandGainState, BandGainStore, get, set, get_for_frequency, clear,
}
use noaa_satellite_capture.AutoGain.Bounds.{IsCalibrating}
use noaa_satellite_capture.Web.{WebServer}

abbrev pub InRange : ℤ → Type 0
InRange g = (pos 0 ≤ℤ g) × (g ≤ℤ pos 49_000)

-- The gains of a store are in range.
unfoldable pub HasGains : BandGainStore → Type 0
HasGains [] = Unit
HasGains (b ∷ store) = InRange b.gain × HasGains store

-- The history is bounded, and every gain that the server keeps is one that the SDR can take.
pub record IsBounded (s : WebServer) : Type 0 where
  pub history : length s.fft_history_buffer ≤ 150
  pub gain : (pos 0 ≤ℤ s.current_gain) × (s.current_gain ≤ℤ pos 49_000)
  pub stored : HasGains s.band_gain_store
  pub calibrating : IsCalibrating s.auto_gain
  pub min_gain : s.auto_gain.config.min_gain ≡ pos 0
  pub max_gain : s.auto_gain.config.max_gain ≡ pos 49_000

pub set-HasGains :
    (band : FrequencyBand) (g : ℤ) (c : Bool) (store : BandGainStore)
    → InRange g
    → HasGains store
    → HasGains (set band g c store)
unfolding set HasGains
set-HasGains band g c [] h k = (h, tt)
set-HasGains band g c (e ∷ store) h (p, k) = ground (arith, set-HasGains band g c store h k)

get-InRange :
    (band : FrequencyBand) (store : BandGainStore) (e : BandGainState)
    → HasGains store
    → get band store ≡ some e
    → InRange e.gain
unfolding get HasGains
get-InRange band [] e k h = absurd (cc h)
get-InRange band (b ∷ store) e (p, k) h = ground (arith, get-InRange band store e k)

pub get_for_frequency-InRange :
    (frequency : ℕ) (d : ℤ) (store : BandGainStore)
    → InRange d
    → HasGains store
    → InRange (get_for_frequency frequency d store).gain
unfolding get_for_frequency
get_for_frequency-InRange frequency d store h k =
    let band = classify_band frequency in
    elim (Option-cases (get band store)) [
      | inl nothing ↦ ground arith
      | inr (e, found) ↦ ground (arith, get-InRange band store e k found)
    ]

pub clear-HasGains :
    (band : FrequencyBand) (store : BandGainStore) → HasGains store → HasGains (clear band store)
unfolding clear HasGains
clear-HasGains band [] k = tt
clear-HasGains band (b ∷ store) (p, k) = ground (arith, clear-HasGains band store k)
