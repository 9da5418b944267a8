-- ===== src/SdrClient/Endings.antt =====
-- What a stop of the remote stream leaves, and what it does not.
use noaa_satellite_capture.Base.{
  ℕ, ◌+◌, ◌<◌, ◌≡◌, refl, ap, inl, inr, Bool, true, false, not, none, some, List, [], ◌∷◌, arith,
  ◌==◌, lt→ltb, In, In-filter_iff,
}
use noaa_satellite_capture.Fft.{FftData, FftStreamConfig}
use noaa_satellite_capture.Web.Socket.{delete}
use noaa_satellite_capture.SdrClient.Stream.{
  RemoteStream, max_reconnect_attempts, start, on_open, on_frame, on_close, fire, stop, is_running,
  update_frequency,
}

-- What can happen without a call: events of sockets and timers, and the calls but `start`.
pub data Happening : Type 0 where
  opens : ℕ → FftStreamConfig → Happening
  receives : FftData → Happening
  closes : ℕ → Happening
  fires : Bool → ℕ → Happening
  stops : Happening
  tunes : ℕ → Happening

unfoldable pub happen : Happening → RemoteStream → RemoteStream
happen (opens ws config) s = on_open ws config s
happen (receives frame) s = on_frame frame s
happen (closes ws) s = on_close ws s
happen (fires is_address t) s = fire is_address t s
happen stops s = stop s
happen (tunes frequency) s = (update_frequency frequency s).0

unfoldable pub happen_all : List Happening → RemoteStream → RemoteStream
unfolding happen
happen_all [] s = s
happen_all (h ∷ hs) s = happen_all hs (happen h s)

-- The stream holds no socket and no callback, so nothing is delivered, and no number is used up.
pub record IsStopped (n : ℕ) (frames : List (ℕ × FftData)) (s : RemoteStream) : Type 0 where
  pub no_socket : s.ws ≡ none
  pub no_callback : s.callback ≡ none
  pub no_config : s.current_config ≡ none
  pub no_new : s.next_id ≡ n
  pub no_frame : s.frames ≡ frames

happen-IsStopped :
    (n : ℕ) (frames : List (ℕ × FftData)) (h : Happening) (s : RemoteStream)
    → IsStopped n frames s
    → IsStopped n frames (happen h s)
unfolding happen on_open on_frame on_close fire stop update_frequency
happen-IsStopped n frames (opens ws config) s k = record {
  no_socket = k.no_socket;
  no_callback = k.no_callback;
  no_config = k.no_config;
  no_new = k.no_new;
  no_frame = k.no_frame;
}
happen-IsStopped n frames (receives frame) s k = rw (k.no_callback, on_frame) k
happen-IsStopped n frames (closes ws) s k =
    rw (k.no_callback, on_close)
      (record {
        no_socket = k.no_socket;
        no_callback = refl;
        no_config = k.no_config;
        no_new = k.no_new;
        no_frame = k.no_frame;
      })
happen-IsStopped n frames (fires is_address t) s k =
    rw (k.no_config, fire)
      (record {
        no_socket = k.no_socket;
        no_callback = k.no_callback;
        no_config = k.no_config;
        no_new = k.no_new;
        no_frame = k.no_frame;
      })
happen-IsStopped n frames stops s k = record {
  no_socket = refl;
  no_callback = refl;
  no_config = refl;
  no_new = k.no_new;
  no_frame = k.no_frame;
}
happen-IsStopped n frames (tunes frequency) s k =
    rw (k.no_socket, update_frequency)
      (record {
        no_socket = refl;
        no_callback = k.no_callback;
        no_config = k.no_config;
        no_new = k.no_new;
        no_frame = k.no_frame;
      })

happen_all-IsStopped :
    (n : ℕ) (frames : List (ℕ × FftData)) (hs : List Happening) (s : RemoteStream)
    → IsStopped n frames s
    → IsStopped n frames (happen_all hs s)
unfolding happen_all
happen_all-IsStopped n frames [] s k = k
happen_all-IsStopped n frames (h ∷ hs) s k =
    happen_all-IsStopped n frames hs (happen h s) (happen-IsStopped n frames h s k)

is_running-IsStopped :
    (n : ℕ) (frames : List (ℕ × FftData)) (s : RemoteStream)
    → IsStopped n frames s
    → is_running s ≡ false
unfolding is_running
is_running-IsStopped n frames s k = let e = k.no_socket in ground arith

-- After a stop, whatever sockets and timers still do, until the next start the stream does not run,
-- holds no socket, makes no socket or timer, and delivers no frame.
pub stop-happen_all :
    (hs : List Happening) (s : RemoteStream)
    → let r = happen_all hs (stop s) in IsStopped s.next_id s.frames r × (is_running r ≡ false)
unfolding stop
stop-happen_all hs s =
    let k : IsStopped s.next_id s.frames (stop s) = record {
      no_socket = refl;
      no_callback = refl;
      no_config = refl;
      no_new = refl;
      no_frame = refl;
    } in
    let r = happen_all-IsStopped s.next_id s.frames hs (stop s) k in
    (r, is_running-IsStopped s.next_id s.frames (happen_all hs (stop s)) r)

on_close_again :
    (s : RemoteStream) (old callback : ℕ)
    → s.reconnect_attempts < max_reconnect_attempts
    → s.callback ≡ some callback
    → let r = on_close old s in
      (r.current_config ≡ s.current_config)
      × (r.next_id ≡ s.next_id + 1)
      × (r.live ≡ delete old s.live)
unfolding on_close
on_close_again s old callback h e =
    let more = lt→ltb s.reconnect_attempts max_reconnect_attempts h in
    rw (e, more, on_close) (refl, refl, refl)

fire-connect :
    (s : RemoteStream) (t : ℕ) (config : FftStreamConfig)
    → s.current_config ≡ some config
    → (fire true t s).ws ≡ some s.next_id × ((fire true t s).live ≡ s.next_id ∷ s.live)
unfolding fire
fire-connect s t config e = rw (e, fire) (refl, refl)

In-delete_other : (x y : ℕ) (xs : List ℕ) → y < x → In x xs → In x (delete y xs)
unfolding delete
In-delete_other x y xs h i = (In-filter_iff (λ z. not (z == y)) xs x).1 (i, ground arith)

-- When the close of a socket comes only after a stop and a new start, with an attempt left, it arms a
-- reconnection; when that fires, two sockets are live, and the stream holds only the later one.
late_close_adds_socket :
    (s : RemoteStream) (old : ℕ) (config : FftStreamConfig) (callback : ℕ)
    → s.reconnect_attempts < max_reconnect_attempts
    → old < s.next_id
    → let started = (start true config callback (stop s)).0 in
      let r = fire true (s.next_id + 1) (on_close old started) in
      (r.ws ≡ some (s.next_id + 2)) × In s.next_id r.live × In (s.next_id + 2) r.live
unfolding stop start
late_close_adds_socket s old config callback h k =
    let started = (start true config callback (stop s)).0 in
    let closed = on_close old started in
    let (configured, numbered, listed) = on_close_again started old callback h refl in
    let (held, sockets) = fire-connect closed (s.next_id + 1) config configured in
    let stays : In s.next_id closed.live =
      rw listed (In-delete_other s.next_id old (s.next_id ∷ s.live) k (inl refl)) in
    (
      rw (held, numbered) (ap some (omega arith)),
      rw sockets (inr stays),
      rw sockets (inl (omega (arith, numbered))),
    )
