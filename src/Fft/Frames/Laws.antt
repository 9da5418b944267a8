-- ===== src/Fft/Frames/Laws.antt =====
-- What the handler of src/backend/capture/fft-stream.ts keeps and gives out.
use noaa_satellite_capture.Base.{
  ℕ, ◌-◌, ◌*◌, ◌≤◌, ◌<◌, ◌≡◌, List, [], ◌∷◌, arith, length, take, drop, All,
}
use noaa_satellite_capture.Fft.{FftData, FftStreamConfig, NotchFilter}
use noaa_satellite_capture.Fft.Frames.{Reader, Arithmetic, process_frame, trim}

-- The frames of a reader, newest first, are stamped with the time of an update, and each is at
-- least an update interval after the one before it.
abbrev pub IsPaced : ℕ → ℕ → List FftData → Type 0
IsPaced rate last [] = Unit
IsPaced rate last (d ∷ ds) =
    (d.timestamp ≤ last)
    × All (λ (e : FftData). 1_000 ≤ (d.timestamp - e.timestamp) * rate) ds
    × IsPaced rate last ds

module _ (ops : Arithmetic) (config : FftStreamConfig) (filters : List NotchFilter) where
  -- The reader after a frame that is due, or after one that is skipped.
  abbrev Used : ℕ → Reader → Reader
  Used now r =
      record (process_frame ops config filters now (take (config.fft_size * 2) r.buffer) r) {
        buffer = drop (config.fft_size * 2) r.buffer;
      }

  abbrev Skipped : Reader → Reader
  Skipped r = record r { buffer = drop (config.fft_size * 2) r.buffer }

  abbrev Paced : Reader → Type 0
  Paced r = IsPaced config.update_rate r.last_update_time r.emitted

  trim_small : (s : Reader) → length s.buffer < config.fft_size * 2 → trim ops config filters s ≡ s
  unfolding trim
  trim_small s h = ground arith
