-- ===== src/Database/Paths.antt =====
-- The paths of a capture's images, which src/backend/db/database.ts reads from one text.
use noaa_satellite_capture.Base.{
  ℕ, String, ◌≡◌, refl, ap, ◌∙◌, ◌↔◌, inl, inr, Bool, true, false, List, [], ◌∷◌, ◌++◌, map, arith,
  ◌==◌, Bool-cases, filter, In,
}
use noaa_satellite_capture.Base.Texts.{unit_text, split, join, lacks, all_lack, split-join}
use noaa_satellite_capture.Database.{
  ImageRow, CaptureDatabase, image_rows, save_images, comma_char, split_paths, read_paths,
  image_paths_of,
}
use text.Mathlib.TextLemmas.{cons-append}

-- A path is not empty and has no comma.
abbrev pub is_plain : String → Bool
is_plain String.[] = false
is_plain (String.◌∷◌ c s) = lacks 44 (String.◌∷◌ c s)

all_lack-plain :
    (xs : List String) → ((p : String) → In p xs → is_plain p ≡ true) → all_lack 44 xs ≡ true
all_lack-plain [] h = refl
all_lack-plain (String.[] ∷ xs) h = absurd (cc (h "" (inl refl)))
all_lack-plain (String.◌∷◌ c s ∷ xs) h =
    let here = h (String.◌∷◌ c s) (inl refl) in
    rw (here, all_lack-plain xs (λ p i. h p (inr i))) refl

-- A text that begins with a character is split as it is.
split_paths-join :
    (p : String) (ps : List String)
    → is_plain p ≡ true
    → split_paths (join (unit_text comma_char) (p ∷ ps))
      ≡ split 44 (join (unit_text comma_char) (p ∷ ps))
unfolding join
split_paths-join String.[] ps h = absurd (cc h)
split_paths-join (String.◌∷◌ c s) [] h = refl
split_paths-join (String.◌∷◌ c s) (q ∷ qs) h = rw cons-append refl

-- The paths of the rows that were just added.
filter-image_rows :
    (id : ℕ) (paths : List String)
    → map
        (λ (i : ImageRow). i.file_path)
        (filter (λ (i : ImageRow). i.capture_id == id) (image_rows id paths))
      ≡ paths
filter-image_rows id [] = refl
filter-image_rows id (p ∷ ps) =
    let same : (id == id) ≡ true = ground arith in
    rw same (ap (λ z. p ∷ z) (filter-image_rows id ps))

filter-append_new :
    (id : ℕ) (images rows : List ImageRow)
    → filter (λ (i : ImageRow). i.capture_id == id) images ≡ []
    → filter (λ (i : ImageRow). i.capture_id == id) (images ++ rows)
      ≡ filter (λ (i : ImageRow). i.capture_id == id) rows
filter-append_new id [] rows e = refl
filter-append_new id (i ∷ images) rows e = elim (Bool-cases (i.capture_id == id)) [
  | inl here ↦ absurd (ground arith)
  | inr away ↦ rw away (filter-append_new id images rows (ground arith))
]

saved_paths :
    (id : ℕ) (paths : List String) (db : CaptureDatabase)
    → filter (λ (i : ImageRow). i.capture_id == id) db.images ≡ []
    → map
        (λ (i : ImageRow). i.file_path)
        (filter (λ (i : ImageRow). i.capture_id == id) (save_images id paths db).images)
      ≡ paths
unfolding save_images
saved_paths id paths db e =
    rw (filter-append_new id db.images (image_rows id paths) e) (filter-image_rows id paths)

read_back :
    (ordered : List String)
    → ((p : String) → In p ordered → is_plain p ≡ true)
    → read_paths ordered ≡ ordered
unfolding read_paths
read_back [] h = refl
read_back (p ∷ ps) h =
    split_paths-join p ps (h p (inl refl))
    ∙ split-join 44 comma_char p ps refl (all_lack-plain (p ∷ ps) h)

-- The images that are saved for a capture without images are read back, whatever the order in which
-- the paths are put together, if no path is empty or holds a comma.
pub image_paths_of-save_images :
    (order : List String → List String) (id : ℕ) (paths : List String) (db : CaptureDatabase)
    → ((xs : List String) (p : String) → In p (order xs) ↔ In p xs)
    → filter (λ (i : ImageRow). i.capture_id == id) db.images ≡ []
    → ((p : String) → In p paths → is_plain p ≡ true)
    → (p : String) → In p (image_paths_of order id (save_images id paths db)) ↔ In p paths
unfolding image_paths_of
image_paths_of-save_images order id paths db reorders none_yet plain p =
    let saved = saved_paths id paths db none_yet in
    let back = read_back (order paths) (λ q i. plain q ((reorders paths q).0 i)) in
    rw (saved, back) (reorders paths p)
