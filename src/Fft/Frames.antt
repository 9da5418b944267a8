-- ===== src/Fft/Frames.antt =====
-- src/backend/capture/fft-stream.ts: the handler of the bytes that rtl_sdr writes. The transform
-- (fft.js) and the arithmetic on samples and powers are floating-point, and parameters.
pub mod Laws
use noaa_satellite_capture.Base.{
  ℕ, zero, suc, ◌+◌, ◌-◌, ◌*◌, ◌/◌, Bool, true, false, not, Option, none, some, List, ◌∷◌, ◌++◌,
  ltb, leb, ◌==◌, if◌then◌else◌, length, take, drop, ℤ, pos,
}
use noaa_satellite_capture.Fft.{FftData, FftStreamConfig, NotchFilter, fft_sample_rate}
use noaa_satellite_capture.Fft.Notch.{extremes, apply_notch_filters}

-- The variables that the handler keeps, and the frames that it gave out to the callback that is
-- set, newest first.
pub record Reader : Type 0 where
  pub buffer : List ℕ
  pub last_update_time : ℕ
  pub averaging_buffer : Option (List ℤ)
  pub averaging_count : ℕ
  pub emitted : List FftData

-- The powers of a frame of bytes, the exponential mean of two spectra, and the mean of two powers.
pub record Arithmetic : Type 0 where
  pub powers : List ℕ → List ℤ
  pub smooth : List ℤ → List ℤ → List ℤ
  pub mean : ℤ → ℤ → ℤ

-- The end of `computePowerSpectrum`: the upper half of the spectrum comes first.
unfoldable pub reorder : ℕ → List ℤ → List ℤ
reorder fft_size spectrum = drop (fft_size / 2) spectrum ++ take (fft_size / 2) spectrum

abbrev low_of : Option (ℤ × ℤ) → ℤ
low_of none = pos 0
low_of (some (low, high)) = low

abbrev high_of : Option (ℤ × ℤ) → ℤ
high_of none = pos 0
high_of (some (low, high)) = high

abbrev pub has_length : ℕ → Option (List ℤ) → Bool
has_length n none = false
has_length n (some l) = length l == n

abbrev pub averaged : (List ℤ → List ℤ → List ℤ) → List ℤ → Option (List ℤ) → ℕ → List ℤ
averaged smooth spectrum none count = spectrum
averaged smooth spectrum (some previous) zero = spectrum
averaged smooth spectrum (some previous) (suc count) = smooth previous spectrum

module _ (ops : Arithmetic) (config : FftStreamConfig) (filters : List NotchFilter) where
  abbrev pub bytes_per_frame : ℕ
  bytes_per_frame = config.fft_size * 2

  -- `now - lastUpdateTime >= 1_000 / updateRate`.
  abbrev pub is_due : ℕ → Reader → Bool
  is_due now r = leb 1_000 ((now - r.last_update_time) * config.update_rate)

  unfoldable pub frame_data : ℕ → List ℤ → FftData
  frame_data now bins =
      let fft : FftData = record {
        timestamp = now;
        center_freq = config.frequency;
        bins = bins;
        min_power = low_of (extremes (ops.mean) bins);
        max_power = high_of (extremes (ops.mean) bins);
      } in
      apply_notch_filters ops.mean filters
        (record {
          start_freq = config.frequency - fft_sample_rate / 2;
          rate = fft_sample_rate;
          size = config.fft_size;
        })
        fft

  -- A frame that is due; its bytes are removed by the caller.
  unfoldable pub process_frame : ℕ → List ℕ → Reader → Reader
  process_frame now frame r =
      let spectrum = reorder config.fft_size (ops.powers frame) in
      let fresh = not (has_length config.fft_size r.averaging_buffer) in
      let count = if fresh then 0 else r.averaging_count in
      let mean = averaged ops.smooth spectrum r.averaging_buffer count in
      let next = record r {
        averaging_buffer = some mean;
        averaging_count = count + 1;
        last_update_time = now;
      } in
      if ltb (count + 1) 2 then next else record next { emitted = frame_data now mean ∷ r.emitted }

  -- The `while` loop, at its round `i`; `none` means that the rounds ran out. Without a processor
  -- the handler returns at a frame that is due.
  unfoldable pub drain : ℕ → (ℕ → ℕ) → Bool → ℕ → Reader → Option Reader
  drain zero clock processor i r = none
  drain (suc fuel) clock processor i r =
      let now = clock i in
      let frame = take bytes_per_frame r.buffer in
      let rest = drop bytes_per_frame r.buffer in
      let used =
        drain fuel clock processor (i + 1) (record (process_frame now frame r) { buffer = rest }) in
      let skipped = drain fuel clock processor (i + 1) (record r { buffer = rest }) in
      if ltb (length r.buffer) bytes_per_frame
      then some r
      else if is_due now r
      then (if processor then used else some r)
      else skipped

  -- `if (buffer.length > bytesPerFrame * 10) …`.
  unfoldable pub trim : Reader → Reader
  trim r =
      if ltb (bytes_per_frame * 10) (length r.buffer)
      then record r { buffer = drop (length r.buffer - bytes_per_frame) r.buffer }
      else r

  -- The handler: a chunk of bytes arrives. `processor` tells whether `fftProcessor` is set. A whole
  -- frame that is left is one at which the handler has returned, before the cut.
  unfoldable pub on_data : (ℕ → ℕ) → Bool → List ℕ → Reader → Option Reader
  on_data clock processor chunk r =
      let buffer = r.buffer ++ chunk in
      elim (drain (suc (length buffer)) clock processor 0 (record r { buffer = buffer })) [
        | none ↦ none
        | some r' ↦ some (if ltb (length r'.buffer) bytes_per_frame then trim r' else r')
      ]
