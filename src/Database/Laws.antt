-- ===== src/Database/Laws.antt =====
-- What src/backend/db/database.ts keeps.

use noaa_satellite_capture.Base.{
  ℕ, ◌+◌, ◌≤◌, ◌<◌, String, ◌≡◌, inl, inr, false, not, Option, none, some, List, [], ◌∷◌, ◌++◌,
  arith, Option-cases, length, filter, find, All, All-append,
}
use noaa_satellite_capture.Types.{SatellitePass, CaptureResult}
use noaa_satellite_capture.Database.{
  generate_pass_id, pass_id_eq, CaptureRow, CaptureDatabase, empty_database, new_row, has_pass,
  save_capture, save_images, get_capture_summary,
}

pub data Call : Type 0 where
  saves : CaptureResult → SatellitePass → Call
  adds_images : ℕ → List String → Call

abbrev or_unchanged : CaptureDatabase → Option (CaptureDatabase × ℕ) → CaptureDatabase
or_unchanged db none = db
or_unchanged db (some (saved, id)) = saved

unfoldable pub apply : Call → CaptureDatabase → CaptureDatabase
apply (saves result pass) db = or_unchanged db (save_capture result pass db)
apply (adds_images id paths) db = save_images id paths db

unfoldable pub apply_all : List Call → CaptureDatabase → CaptureDatabase
unfolding apply
apply_all [] db = db
apply_all (c ∷ cs) db = apply_all cs (apply c db)

-- The row's number was given, and the other rows have another number and another pass.
unfoldable pub IsNew : CaptureRow → CaptureRow → Type 0
IsNew row other = (row.id < other.id) × (pass_id_eq row.pass_id other.pass_id ≡ false)

-- Of any two rows the later has the greater number and another pass.
abbrev pub AreDistinct : List CaptureRow → Type 0
AreDistinct [] = Unit
AreDistinct (row ∷ rows) = All (IsNew row) rows × AreDistinct rows

abbrev pub IsConsistent : CaptureDatabase → Type 0
IsConsistent db =
    All (λ (row : CaptureRow). row.id < db.next_id) db.captures × AreDistinct db.captures

AreDistinct-snoc :
    (rows : List CaptureRow) (row : CaptureRow)
    → AreDistinct rows
    → All (λ (r : CaptureRow). r.id < row.id) rows
    → find (has_pass row.pass_id) rows ≡ none
    → AreDistinct (rows ++ row ∷ [])
AreDistinct-snoc [] row d b e = (tt, tt)
AreDistinct-snoc (r ∷ rows) row (n, d) (l, b) e =
    let fresh : pass_id_eq r.pass_id row.pass_id ≡ false = ground arith in
    let rest : find (has_pass row.pass_id) rows ≡ none = ground arith in
    (
      All-append (IsNew r) rows (row ∷ []) n (unfold IsNew in (l, fresh), tt),
      AreDistinct-snoc rows row d b rest,
    )

All-id_lower :
    (n m : ℕ) (rows : List CaptureRow)
    → n ≤ m
    → All (λ (r : CaptureRow). r.id < n) rows
    → All (λ (r : CaptureRow). r.id < m) rows
All-id_lower n m [] h b = tt
All-id_lower n m (r ∷ rows) h (l, b) = (omega arith, All-id_lower n m rows h b)

save_capture-IsConsistent :
    (result : CaptureResult) (pass : SatellitePass) (db : CaptureDatabase)
    → IsConsistent db
    → IsConsistent (or_unchanged db (save_capture result pass db))
unfolding save_capture
save_capture-IsConsistent result pass db (b, d) =
    elim (Option-cases (find (has_pass (generate_pass_id pass)) db.captures)) [
      | inr (row, e) ↦ rw (e, save_capture) (b, d)
      | inl e ↦
          let row = new_row db.next_id result pass in
          let lower = All-id_lower db.next_id (db.next_id + 1) db.captures (omega arith) b in
          rw (e, save_capture)
            (
              All-append (λ (r : CaptureRow). r.id < db.next_id + 1) db.captures (row ∷ []) lower
                  (omega arith, tt),
              AreDistinct-snoc db.captures row d b e,
            )
    ]

apply-IsConsistent : (c : Call) (db : CaptureDatabase) → IsConsistent db → IsConsistent (apply c db)
unfolding apply save_images
apply-IsConsistent (saves result pass) db h = save_capture-IsConsistent result pass db h
apply-IsConsistent (adds_images id paths) db h = h

apply_all-IsConsistent :
    (cs : List Call) (db : CaptureDatabase) → IsConsistent db → IsConsistent (apply_all cs db)
unfolding apply_all
apply_all-IsConsistent [] db h = h
apply_all-IsConsistent (c ∷ cs) db h =
    apply_all-IsConsistent cs (apply c db) (apply-IsConsistent c db h)

length-filter_split :
    (rows : List CaptureRow)
    → length (filter (λ (r : CaptureRow). r.success) rows)
        + length (filter (λ (r : CaptureRow). not r.success) rows)
      ≡ length rows
length-filter_split [] = omega arith
length-filter_split (r ∷ rows) = ground (arith, length-filter_split rows)

-- After any calls the numbers of the captures rise in the order of their insertion and lie below the
-- next one, no two captures are of the same pass, and the summary's total is the sum of the
-- successful and the failed captures.
pub apply_all-IsConsistent_summary :
    (cs : List Call)
    → let db = apply_all cs empty_database in
      IsConsistent db
      × ((get_capture_summary db).successful + (get_capture_summary db).failed
          ≡ (get_capture_summary db).total)
unfolding get_capture_summary
apply_all-IsConsistent_summary cs =
    let db = apply_all cs empty_database in
    (apply_all-IsConsistent cs empty_database (tt, tt), length-filter_split db.captures)
