-- ===== src/Web/Broadcast.antt =====
-- What src/middleware/web/server.ts does with a frame.
use noaa_satellite_capture.Base.{
  ℕ, ◌-◌, ◌≤◌, ◌≡◌, refl, ◌≢◌, inl, inr, Bool, List, [], ◌∷◌, ◌++◌, map, arith, ltb, Bool-cases,
  length, drop, length-append, filter,
}
use noaa_satellite_capture.Fft.{FftData}
use noaa_satellite_capture.Web.{fft_data, WebServer}
use noaa_satellite_capture.Web.Stream.{
  debounced_fft_start, push_history, follow_verdict, broadcast_fft_data,
}

push_history_lem :
    (d : FftData) (h : List FftData)
    → length h ≤ 150
    → push_history d h ≡ drop (length (h ++ d ∷ []) - 150) (h ++ d ∷ [])
unfolding push_history
push_history_lem d h k =
    let pushed = h ++ d ∷ [] in
    let grown = length-append h (d ∷ []) in
    elim (Bool-cases (ltb 150 (length pushed))) [
      | inl full ↦ let one : length pushed - 150 ≡ 1 = ground arith in rw (full, one) refl
      | inr small ↦ let same : length pushed - 150 ≡ 0 = ground arith in rw (small, same) refl
    ]

-- A frame joins the history, of which the last 150 frames are kept. Without subscribers nothing else
-- changes. With them the frame is sent to each that can be reached, and the others are forgotten.
broadcast_fft_data_lem :
    (sends : ℕ → Bool) (d : FftData) (s : WebServer)
    → length s.fft_history_buffer ≤ 150
    → let t = broadcast_fft_data sends d s in
      let pushed = s.fft_history_buffer ++ d ∷ [] in
      (t.fft_history_buffer ≡ drop (length pushed - 150) pushed)
      × (s.fft_subscribers ≡ [] → t ≡ record s { fft_history_buffer = t.fft_history_buffer })
      × (s.fft_subscribers ≢ []
          → (t.fft_subscribers ≡ filter sends s.fft_subscribers)
            × (t.sent ≡ map (λ (ws : ℕ). (ws, fft_data d)) t.fft_subscribers ++ s.sent))
unfolding broadcast_fft_data push_history follow_verdict debounced_fft_start
broadcast_fft_data_lem sends d s h =
    let pushed = push_history_lem d s.fft_history_buffer h in
    (ground arith, λ e. ground arith, λ e. ground arith)
