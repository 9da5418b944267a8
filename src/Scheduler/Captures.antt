-- ===== src/Scheduler/Captures.antt =====
-- What src/backend/scheduler/scheduler.ts does with one pass.

use noaa_satellite_capture.Base.{
  ℕ, String, ◌≡◌, refl, sym, ap, subst, ◌∙◌, ◌≢◌, ◌↔◌, ◌⊎◌, inl, inr, Bool, true, false, not,
  Option, none, List, [], ◌∷◌, arith, if◌then◌else◌, Bool-cases, In,
}
use noaa_satellite_capture.Types.{
  SatellitePass, CaptureResult, idle, decoding, StateEvent, pass_complete,
}
use noaa_satellite_capture.StateManager.{
  StateManager, set_status, start_pass, update_progress, complete_pass,
}
use noaa_satellite_capture.StateManager.Laws.{complete_pass_lem}
use noaa_satellite_capture.Fft.Stream.{FftStream, is_fft_stream_running, stop_begin, stop_end}
use noaa_satellite_capture.Scheduler.{
  Recording, recording_throws, decoding_throws, decodes, Saving, saves, saves_without_images,
  saves_nothing, Meanwhile, Outside, World, meanwhile, save_result_to_database, report_progress,
  failed_result, finish_capture, decoded_result, record_and_decode, release_stream, capture_pass,
}

report_progress_lem :
    (now : ℕ) (calls : List (ℕ × ℕ)) (w : World)
    → let v = report_progress now calls w in (v.stream ≡ w.stream) × (v.saved ≡ w.saved)
unfolding report_progress update_progress
report_progress_lem now [] w = (refl, refl)
report_progress_lem now ((e, t) ∷ calls) w = report_progress_lem now calls _

-- A recording succeeds where its signal is strong or not checked, and neither the recording nor the
-- decoding throws.
abbrev pub Succeeds : Bool → Outside → Type 0
Succeeds skip o =
    ((skip ≡ true) ⊎ (o.signal_ok ≡ true))
    × ((path : String) × (paths : Option (List String)) × (o.recording ≡ decodes path paths))

pub Recording-cases :
    (r : Recording)
    → ((m : String) × (r ≡ recording_throws m))
      ⊎ ((path : String) × (m : String) × (r ≡ decoding_throws path m))
      ⊎ ((path : String) × (paths : Option (List String)) × (r ≡ decodes path paths))
Recording-cases (recording_throws m) = inl (m, refl)
Recording-cases (decoding_throws path m) = inr (inl (path, m, refl))
Recording-cases (decodes path paths) = inr (inr (path, paths, refl))

-- A result of `o` for a pass, which is a success if `good` and else has an error and no image.
record IsResult (o : Outside) (pass : SatellitePass) (good : Bool) (r : CaptureResult)
    : Type 0 where
  of_pass : r.satellite ≡ pass.satellite
  starts : r.start_time ≡ o.started_at
  verdict : r.success ≡ good
  failure : good ≡ false → (r.error ≢ none) × (r.image_paths ≡ [])

-- The other parts of the program do not start a stream that does not run.
abbrev pub Leaves : Meanwhile → Type 0
Leaves others =
    (m : StateManager) (s : FftStream)
    → is_fft_stream_running s ≡ false
    → is_fft_stream_running (others (m, s)).1 ≡ false

-- None of them does from the stop of the stream to the end of the capture.
pub record IsLeft (o : Outside) : Type 0 where
  pub released : Leaves o.while_released
  pub checking : Leaves o.while_checking
  pub recording_left : Leaves o.while_recording
  pub decoding_left : Leaves o.while_decoding

-- What a capture does before it announces its result `r` in the world `v`.
record IsBefore (o : Outside) (w v : World) : Type 0 where
  stopped :
      IsLeft o → is_fft_stream_running w.stream ≡ false → is_fft_stream_running v.stream ≡ false
  unsaved : v.saved ≡ w.saved

meanwhile-saved : (others : Meanwhile) (w : World) → (meanwhile others w).saved ≡ w.saved
unfolding meanwhile
meanwhile-saved others w = refl

meanwhile-Leaves :
    (others : Meanwhile) (w : World)
    → Leaves others
    → is_fft_stream_running w.stream ≡ false
    → is_fft_stream_running (meanwhile others w).stream ≡ false
unfolding meanwhile
meanwhile-Leaves others w l h = l w.manager w.stream h

recorded-IsBefore :
    (o : Outside) (w : World)
    → IsBefore o w (meanwhile o.while_recording (report_progress o.started_at o.progress w))
recorded-IsBefore o w =
    let reported = report_progress o.started_at o.progress w in
    let (same, unsaved) = report_progress_lem o.started_at o.progress w in
    record {
      stopped = λ l h.
          meanwhile-Leaves o.while_recording reported l.recording_left
            (subst (λ s. is_fft_stream_running s ≡ false) (sym same) h);
      unsaved = meanwhile-saved o.while_recording reported ∙ unsaved;
    }

record_and_decode_cases :
    (o : Outside) (pass : SatellitePass) (w : World)
    → (v : World) × (r : CaptureResult) × (good : Bool) × (record_and_decode o pass w
        ≡ (finish_capture o pass r v, r))
      × IsBefore o w v
      × IsResult o pass good r
      × ((good ≡ true)
          ↔ ((path : String) × (paths : Option (List String)) × (o.recording ≡ decodes path paths)))
unfolding record_and_decode failed_result decoded_result
record_and_decode_cases o pass w =
    let recorded = meanwhile o.while_recording (report_progress o.started_at o.progress w) in
    let begun = record recorded { manager = set_status o.recorded_at decoding recorded.manager } in
    let decoded = meanwhile o.while_decoding begun in
    let before = recorded-IsBefore o w in
    let before_end : IsBefore o w decoded = record {
      stopped = λ l h. meanwhile-Leaves o.while_decoding begun l.decoding_left (before.stopped l h);
      unsaved = meanwhile-saved o.while_decoding begun ∙ before.unsaved;
    } in
    elim (Recording-cases o.recording) [
      | inl (m, e) ↦
          let r = failed_result pass.satellite o.started_at o.ended_at m in
          (recorded, r, false, rw (e, record_and_decode) refl, before, ground arith, ground arith)
      | inr (inl (path, m, e)) ↦
          let r = failed_result pass.satellite o.started_at o.ended_at m in
          (
            decoded,
            r,
            false,
            rw (e, record_and_decode) refl,
            before_end,
            ground arith,
            ground arith,
          )
      | inr (inr (path, paths, e)) ↦ (
        decoded,
        decoded_result o pass path paths,
        true,
        rw (e, record_and_decode) refl,
        before_end,
        ground arith,
        (λ t. (path, paths, e), λ t. refl),
      )
    ]

-- The world in which the pass begins.
abbrev released_world : Outside → World → World
released_world o w = if is_fft_stream_running w.stream then release_stream o w else w

-- What a capture has done, whatever the stream was, before it announces its result.
record IsReady (o : Outside) (w v : World) : Type 0 where
  stopped : IsLeft o → is_fft_stream_running v.stream ≡ false
  unsaved : v.saved ≡ w.saved

release_stream-IsReady : (o : Outside) (w : World) → IsReady o w (release_stream o w)
unfolding release_stream
release_stream-IsReady o w =
    let (stopping, waited) = stop_begin w.stream in
    let between = meanwhile o.while_stopping (record w { stream = stopping }) in
    let ended = record between { stream = stop_end o.stopped_at waited between.stream } in
    record {
      stopped = λ l.
          meanwhile-Leaves o.while_released ended l.released
            (unfold stop_end in unfold is_fft_stream_running in refl);
      unsaved =
          meanwhile-saved o.while_released ended
          ∙ meanwhile-saved o.while_stopping (record w { stream = stopping });
    }

released_world-IsReady : (o : Outside) (w : World) → IsReady o w (released_world o w)
released_world-IsReady o w = elim (Bool-cases (is_fft_stream_running w.stream)) [
  | inl running ↦ rw running (release_stream-IsReady o w)
  | inr quiet ↦ rw quiet (record { stopped = λ l. quiet; unsaved = refl })
]

IsReady-IsBefore : (o : Outside) (w u v : World) → IsReady o w u → IsBefore o u v → IsReady o w v
IsReady-IsBefore o w u v a b = record {
  stopped = λ l. b.stopped l (a.stopped l);
  unsaved = b.unsaved ∙ a.unsaved;
}

checked-IsReady :
    (o : Outside) (w u : World) → IsReady o w u → IsReady o w (meanwhile o.while_checking u)
checked-IsReady o w u a = record {
  stopped = λ l. meanwhile-Leaves o.while_checking u l.checking (a.stopped l);
  unsaved = meanwhile-saved o.while_checking u ∙ a.unsaved;
}

capture_pass_cases :
    (skip : Bool) (o : Outside) (pass : SatellitePass) (w : World)
    → (v : World) × (r : CaptureResult) × (good : Bool) × (capture_pass skip o pass w
        ≡ (finish_capture o pass r v, r))
      × IsReady o w v
      × IsResult o pass good r
      × ((good ≡ true) ↔ Succeeds skip o)
unfolding capture_pass failed_result
capture_pass_cases skip o pass w =
    let released = released_world o w in
    let begun = record released { manager = start_pass o.begun_at pass released.manager } in
    let checked = meanwhile o.while_checking begun in
    let a = released_world-IsReady o w in
    let b : IsReady o w begun = record { stopped = a.stopped; unsaved = a.unsaved } in
    let c = checked-IsReady o w begun b in
    let failed = failed_result pass.satellite o.started_at o.ended_at "Signal too weak" in
    let after : Bool → World × CaptureResult = λ ok.
      if not ok
      then (finish_capture o pass failed checked, failed)
      else record_and_decode o pass checked in
    elim (Bool-cases skip) [
      | inl skips ↦
          let (v, r, good, e, before, i, s) = record_and_decode_cases o pass begun in
          (
            v,
            r,
            good,
            rw (skips, capture_pass) e,
            IsReady-IsBefore o w begun v b before,
            i,
            (λ t. (inl skips, s.0 t), λ t. s.1 t.1),
          )
      | inr looks ↦ elim (Bool-cases o.signal_ok) [
        | inl strong ↦
            let (v, r, good, e, before, i, s) = record_and_decode_cases o pass checked in
            (
              v,
              r,
              good,
              rw (looks, capture_pass) (ap after strong ∙ e),
              IsReady-IsBefore o w checked v c before,
              i,
              (λ t. (inr strong, s.0 t), λ t. s.1 t.1),
            )
        | inr weak ↦ (
          checked,
          failed,
          false,
          rw (looks, capture_pass) (ap after weak),
          c,
          ground arith,
          ground arith,
        )
      ]
    ]

-- The rows after the two writes, of which both, only the first or none is done.
abbrev pub RowsAfter :
    Saving
    → CaptureResult
    → SatellitePass
    → List (CaptureResult × SatellitePass × List String)
    → List (CaptureResult × SatellitePass × List String)
    → Type 0
RowsAfter saves r pass before after = after ≡ (r, pass, r.image_paths) ∷ before
RowsAfter saves_without_images r pass before after = after ≡ (r, pass, []) ∷ before
RowsAfter saves_nothing r pass before after = after ≡ before

save_result_to_database-RowsAfter :
    (saving : Saving) (r : CaptureResult) (pass : SatellitePass) (w : World)
    → RowsAfter saving r pass w.saved (save_result_to_database saving r pass w).saved
unfolding save_result_to_database
save_result_to_database-RowsAfter saves r pass w = refl
save_result_to_database-RowsAfter saves_without_images r pass w = refl
save_result_to_database-RowsAfter saves_nothing r pass w = refl

save_result_to_database-shared :
    (saving : Saving) (r : CaptureResult) (pass : SatellitePass) (w : World)
    → let v = save_result_to_database saving r pass w in
      (v.manager ≡ w.manager) × (v.stream ≡ w.stream)
unfolding save_result_to_database
save_result_to_database-shared saves r pass w = (refl, refl)
save_result_to_database-shared saves_without_images r pass w = (refl, refl)
save_result_to_database-shared saves_nothing r pass w = (refl, refl)

finish_capture_lem :
    (o : Outside) (pass : SatellitePass) (r : CaptureResult) (w : World)
    → let v = finish_capture o pass r w in
      (v.manager.state.status ≡ idle)
      × (v.manager.state.current_pass ≡ none)
      × (v.stream ≡ w.stream)
      × ((rest : List StateEvent) × (v.manager.emitted ≡ pass_complete r ∷ rest))
      × RowsAfter o.saving r pass w.saved v.saved
unfolding finish_capture complete_pass
finish_capture_lem o pass r w = (
  refl,
  refl,
  (save_result_to_database-shared o.saving r pass w).1,
  (_, refl),
  save_result_to_database-RowsAfter o.saving r pass w,
)

-- After any capture, whatever the other parts of the program do to the state manager and the stream
-- at its awaits: the status is idle, no pass is current, and the result was announced last, and is
-- saved with its pass and its images, as far as the database takes them. It is of the satellite of
-- the pass, and a success just when the signal is strong or not checked and neither the recording
-- nor the decoding throws, even if no image was decoded; else it has an error and no image. If no
-- other part starts the stream from its stop to the end of the capture, it does not run in the end.
pub capture_pass_lem :
    (skip : Bool) (o : Outside) (pass : SatellitePass) (w : World)
    → let (v, result) = capture_pass skip o pass w in
      (v.manager.state.status ≡ idle)
      × (v.manager.state.current_pass ≡ none)
      × (IsLeft o → is_fft_stream_running v.stream ≡ false)
      × ((rest : List StateEvent) × (v.manager.emitted ≡ pass_complete result ∷ rest))
      × RowsAfter o.saving result pass w.saved v.saved
      × (result.satellite ≡ pass.satellite)
      × ((result.success ≡ true) ↔ Succeeds skip o)
      × (result.success ≡ false → (result.error ≢ none) × (result.image_paths ≡ []))
capture_pass_lem skip o pass w =
    let (u, r, good, e, b, i, g) = capture_pass_cases skip o pass w in
    let f = finish_capture_lem o pass r u in
    let rows =
      subst (λ l. RowsAfter o.saving r pass l (finish_capture o pass r u).saved) b.unsaved f.4 in
    let quiet : IsLeft o → is_fft_stream_running (finish_capture o pass r u).stream ≡ false =
      λ l. subst (λ s. is_fft_stream_running s ≡ false) (sym f.2) (b.stopped l) in
    rw e (f.0, f.1, quiet, f.3, rows, i.of_pass, ground arith, ground arith)

-- The end of a capture leaves its pass among the upcoming passes, unless the recording began in the
-- very millisecond of its rise.
finish_capture_keeps_pass :
    (o : Outside) (pass : SatellitePass) (r : CaptureResult) (w : World)
    → In pass w.manager.state.upcoming_passes
    → r.start_time ≡ o.started_at
    → o.started_at ≢ pass.aos
    → In pass (finish_capture o pass r w).manager.state.upcoming_passes
unfolding finish_capture
finish_capture_keeps_pass o pass r w h starts k =
    let saved = save_result_to_database o.saving r pass w in
    let kept = (complete_pass_lem o.ended_at r saved.manager pass).3 in
    let queued =
      subst (λ m. In pass m.state.upcoming_passes)
        (sym (save_result_to_database-shared o.saving r pass w).0) h in
    kept.1 (queued, λ t. k (sym (t.1 ∙ starts)))
