-- ===== src/Maintenance/Laws.antt =====
-- What the maintenance changes, and what it leaves.
use mathlib.Core.List as L
use noaa_satellite_capture.Base.{
  ℕ, ◌≤◌, String, ◌≡◌, refl, sym, ap, subst, ◌∙◌, ◌≢◌, inl, inr, Bool, true, false, ◌&&◌, Option,
  some, List, [], ◌∷◌, ◌++◌, arith, leb, ◌==◌, if◌then◌else◌, Bool-cases, Option-cases, filter, All,
  In, In-filter_iff,
}
use noaa_satellite_capture.Types.{SignalType}
use noaa_satellite_capture.Database.{
  CaptureRow, ImageRow, CaptureDatabase, image_rows, save_images, image_paths_of,
}
use noaa_satellite_capture.Maintenance.{
  WavFileInfo, File, scan_recordings, capture_of, has_no_paths, is_undecoded,
  find_undecoded_recordings, decode_recording, add_images_to_database, add_decoded, decode_all,
  max_failed_size, cleanup_failed_recordings, run_maintenance,
}

-- A capture that a later call of the loop may add images to.
abbrev pub images_of : ℕ → CaptureDatabase → List ImageRow
images_of id db = filter (λ (i : ImageRow). i.capture_id == id) db.images

-- The captures are the same, and the images of a capture with number `id` are too.
abbrev pub IsKept : ℕ → CaptureDatabase → CaptureDatabase → Type 0
IsKept id before after =
    (after.captures ≡ before.captures) × (images_of id after ≡ images_of id before)

-- The recording is not one of that capture's.
abbrev pub IsOther : ℕ → List CaptureRow → WavFileInfo → Type 0
IsOther id captures r = (c : CaptureRow) → capture_of r.name captures ≡ some c → c.id ≢ id

image_rows_other :
    (id other : ℕ) (paths : List String)
    → other ≢ id
    → filter (λ (i : ImageRow). i.capture_id == id) (image_rows other paths) ≡ []
image_rows_other id other [] n = refl
image_rows_other id other (p ∷ ps) n =
    let away : (other == id) ≡ false = ground arith in rw away (image_rows_other id other ps n)

filter-append :
    (id : ℕ) (xs ys : List ImageRow)
    → filter (λ (i : ImageRow). i.capture_id == id) (xs ++ ys)
      ≡ filter (λ (i : ImageRow). i.capture_id == id) xs
        ++ filter (λ (i : ImageRow). i.capture_id == id) ys
filter-append id [] ys = refl
filter-append id (x ∷ xs) ys = elim (Bool-cases (x.capture_id == id)) [
  | inl here ↦ rw here (ap (λ z. x ∷ z) (filter-append id xs ys))
  | inr away ↦ rw away (filter-append id xs ys)
]

add_decoded-IsKept :
    (id : ℕ) (r : WavFileInfo) (paths : List String) (db : CaptureDatabase)
    → IsOther id db.captures r
    → IsKept id db (add_decoded r.name paths db)
unfolding add_images_to_database save_images
add_decoded-IsKept id r [] db h = (refl, refl)
add_decoded-IsKept id r (p ∷ ps) db h = elim (Option-cases (capture_of r.name db.captures)) [
  | inl e ↦ rw (e, add_images_to_database) (refl, refl)
  | inr (c, e) ↦
      let none_ = image_rows_other id c.id (p ∷ ps) (h c e) in
      rw (e, add_images_to_database)
        (
          refl,
          filter-append id db.images (image_rows c.id (p ∷ ps))
              ∙ rw none_ (L.append-nil (images_of id db)),
        )
]

decode_all-IsKept :
    (decode : SignalType → String → Option (List String)) (id : ℕ) (recordings : List WavFileInfo)
    (db : CaptureDatabase)
    → All (IsOther id db.captures) recordings
    → IsKept id db (decode_all decode recordings db)
unfolding decode_all
decode_all-IsKept decode id [] db h = (refl, refl)
decode_all-IsKept decode id (r ∷ rs) db (h, hs) =
    let next = add_decoded r.name (decode_recording decode r) db in
    let (same, images) = add_decoded-IsKept id r (decode_recording decode r) db h in
    let (rest_same, rest_images) =
      decode_all-IsKept decode id rs next (subst (λ l. All (IsOther id l) rs) (sym same) hs) in
    (rest_same ∙ same, rest_images ∙ images)

no_paths : (l : List String) → has_no_paths l ≡ true → l ≡ []
no_paths [] h = refl
no_paths (p ∷ ps) h = absurd (cc h)

add_decoded-captures :
    (r : WavFileInfo) (paths : List String) (db : CaptureDatabase)
    → (add_decoded r.name paths db).captures ≡ db.captures
unfolding add_images_to_database save_images
add_decoded-captures r [] db = refl
add_decoded-captures r (p ∷ ps) db = elim (Option-cases (capture_of r.name db.captures)) [
  | inl e ↦ rw (e, add_images_to_database) refl
  | inr (c, e) ↦ rw (e, add_images_to_database) refl
]

decode_all-captures :
    (decode : SignalType → String → Option (List String)) (recordings : List WavFileInfo)
    (db : CaptureDatabase)
    → (decode_all decode recordings db).captures ≡ db.captures
unfolding decode_all
decode_all-captures decode [] db = refl
decode_all-captures decode (r ∷ rs) db =
    decode_all-captures decode rs (add_decoded r.name (decode_recording decode r) db)
    ∙ add_decoded-captures r (decode_recording decode r) db

-- A recording that is decoded is not of a capture that has images.
undecoded-IsOther :
    (order : List String → List String) (id : ℕ) (db : CaptureDatabase) (r : WavFileInfo)
    → image_paths_of order id db ≢ []
    → is_undecoded order db r ≡ true
    → IsOther id db.captures r
unfolding is_undecoded
undecoded-IsOther order id db r n u c e same =
    let listed : has_no_paths (image_paths_of order c.id db) ≡ true = ground arith in
    n (subst (λ (k : ℕ). image_paths_of order k db ≡ []) same (no_paths _ listed))

find_undecoded_recordings-IsOther :
    (order : List String → List String) (id : ℕ) (db : CaptureDatabase)
    (recordings : List WavFileInfo)
    → image_paths_of order id db ≢ []
    → All (IsOther id db.captures) (find_undecoded_recordings order db recordings)
unfolding find_undecoded_recordings
find_undecoded_recordings-IsOther order id db [] n = tt
find_undecoded_recordings-IsOther order id db (r ∷ rs) n =
    elim (Bool-cases (is_undecoded order db r)) [
      | inl u ↦
          rw u (
            undecoded-IsOther order id db r n u,
            find_undecoded_recordings-IsOther order id db rs n,
          )
      | inr d ↦ rw d (find_undecoded_recordings-IsOther order id db rs n)
    ]

removed_lem :
    (unlinks : String → Bool) (recordings : List WavFileInfo) (path : String)
    → In path (cleanup_failed_recordings unlinks recordings)
    → (r : WavFileInfo) × In r recordings × (r.path ≡ path) × (r.size ≤ max_failed_size)
unfolding cleanup_failed_recordings
removed_lem unlinks [] path i = absurd i
removed_lem unlinks (r ∷ rs) path i =
    elim (Bool-cases (leb r.size max_failed_size && unlinks r.path)) [
      | inl gone ↦ elim (rw gone at i) [
        | inl e ↦ (r, inl refl, e, ground arith)
        | inr j ↦ let (q, k, f, s) = removed_lem unlinks rs path j in (q, inr k, f, s)
      ]
      | inr kept ↦ let (q, k, f, s) = removed_lem unlinks rs path (rw kept at i) in (q, inr k, f, s)
    ]

if_decodes :
    (P : CaptureDatabase → Type 0) (decodes : Bool) (after before : CaptureDatabase)
    → P after
    → P before
    → P (if decodes then after else before)
if_decodes P true after before a b = a
if_decodes P false after before a b = b

if_cleans :
    (cleans : Bool) (removed : List String) (path : String)
    → In path (if cleans then removed else [])
    → In path removed
if_cleans true removed path i = i
if_cleans false removed path i = absurd i

-- Maintenance adds or removes no capture and leaves the images of every capture that has some as they
-- are; and a file that it removes is one of the recordings, of at most 10 000 bytes.
pub run_maintenance_lem :
    (date_of : String → Option ℕ) (order : List String → List String)
    (decode : SignalType → String → Option (List String)) (unlinks : String → Bool)
    (decodes cleans : Bool) (files : Option (List File)) (db : CaptureDatabase)
    → let (after, removed) = run_maintenance date_of order decode unlinks decodes cleans files db in
      (after.captures ≡ db.captures)
      × ((id : ℕ) → image_paths_of order id db ≢ [] → images_of id after ≡ images_of id db)
      × ((path : String)
          → In path removed
          → (r : WavFileInfo) × In r (scan_recordings date_of files)
            × (r.path ≡ path)
            × (r.size ≤ max_failed_size))
unfolding run_maintenance
run_maintenance_lem date_of order decode unlinks decodes cleans files db =
    let recordings = scan_recordings date_of files in
    let undecoded = find_undecoded_recordings order db recordings in
    let decoded = decode_all decode undecoded db in
    (
      if_decodes (λ z. z.captures ≡ db.captures) decodes decoded db
          (decode_all-captures decode undecoded db) refl,
      λ id n.
          if_decodes (λ z. images_of id z ≡ images_of id db) decodes decoded db
            (decode_all-IsKept decode id undecoded db
              (find_undecoded_recordings-IsOther order id db recordings n)).1
            refl,
      λ path i.
          let failed = filter (λ (r : WavFileInfo). leb r.size max_failed_size) recordings in
          let removed = cleanup_failed_recordings unlinks failed in
          let (r, j, e, s) = removed_lem unlinks failed path (if_cleans cleans removed path i) in
          let (k, _) =
            (In-filter_iff (λ (q : WavFileInfo). leb q.size max_failed_size) recordings r).0 j in
          (r, k, e, s),
    )
