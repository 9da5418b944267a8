-- ===== src/Database/Tests.antt =====
-- A capture and its images, and the theorems of src/backend/db/database.ts at them.
use noaa_satellite_capture.Base.{
  ◌+◌, String, ◌≡◌, refl, subst, ◌↔◌, inl, inr, true, none, List, [], ◌∷◌, In, pos,
}
use noaa_satellite_capture.Types.{SatellitePass, CaptureResult}
use noaa_satellite_capture.Satellites.{meteor_n2_3}
use noaa_satellite_capture.Database.{
  empty_database, save_images, image_paths_of, get_capture_summary,
}
use noaa_satellite_capture.Database.Laws.{
  saves, adds_images, apply_all, IsConsistent, apply_all-IsConsistent_summary,
}
use noaa_satellite_capture.Database.Paths.{is_plain, image_paths_of-save_images}

abbrev saved_pass : SatellitePass
saved_pass = record {
  satellite = meteor_n2_3;
  aos = 1_000_000;
  los = 1_600_000;
  max_elevation = pos 30_000;
  max_elevation_time = 1_300_000;
  duration = 600_000;
}

abbrev saved_result : CaptureResult
saved_result = record {
  satellite = meteor_n2_3;
  recording_path = "/r/a.wav";
  image_paths = [];
  start_time = 1_000_100;
  end_time = 1_600_000;
  max_signal_strength = pos 0;
  success = true;
  error = none;
}

-- The second of two captures of a pass is not kept.
apply_all-IsConsistent_summary_example :
    let db =
      apply_all
        (saves saved_result saved_pass
          ∷ saves saved_result saved_pass
          ∷ adds_images 1 ("a-chA.png" ∷ [])
          ∷ [])
        empty_database in
    IsConsistent db
    × ((get_capture_summary db).successful + (get_capture_summary db).failed
        ≡ (get_capture_summary db).total)
apply_all-IsConsistent_summary_example = apply_all-IsConsistent_summary (
    saves saved_result saved_pass
    ∷ saves saved_result saved_pass
    ∷ adds_images 1 ("a-chA.png" ∷ [])
    ∷ [])

abbrev plain_paths : List String
plain_paths = "/i/a-chA.png" ∷ "/i/a-chB.png" ∷ []

plain_paths_lem : (p : String) → In p plain_paths → is_plain p ≡ true
plain_paths_lem p (inl e) = subst (λ z. is_plain z ≡ true) e refl
plain_paths_lem p (inr (inl e)) = subst (λ z. is_plain z ≡ true) e refl
plain_paths_lem p (inr (inr i)) = absurd i

image_paths_of-save_images_example :
    In "/i/a-chB.png" (image_paths_of (λ xs. xs) 1 (save_images 1 plain_paths empty_database))
    ↔ In "/i/a-chB.png" plain_paths
image_paths_of-save_images_example =
    image_paths_of-save_images (λ xs. xs) 1 plain_paths empty_database (λ xs p. (λ i. i, λ i. i))
      refl plain_paths_lem "/i/a-chB.png"
