-- ===== src/Maintenance.antt =====
-- src/backend/cli/commands/maintenance.ts: recordings that are decoded later, and the removal of failed
-- ones. The decoders and the removal of a file answer through arguments; `getRecentCaptures(1000)` is
-- taken over a database of at most so many captures, in the order of the given list.
pub mod Filenames
pub mod Laws
mod Tests
use noaa_satellite_capture.Base.{
  ℕ, String, Bool, true, false, ◌&&◌, Option, none, some, List, [], ◌∷◌, ltb, leb, if◌then◌else◌,
  filter, find,
}
use noaa_satellite_capture.Base.Strings.{starts_with, includes}
use noaa_satellite_capture.Types.{SignalType, sstv, lrpt}
use noaa_satellite_capture.Database.{CaptureRow, CaptureDatabase, save_images, image_paths_of}
use noaa_satellite_capture.Maintenance.Filenames.{parse_wav_filename}

-- `WavFileInfo`; an invalid date is `none`.
pub record WavFileInfo : Type 0 where
  pub path : String
  pub name : String
  pub size : ℕ
  pub satellite : String
  pub timestamp : Option ℕ

-- A file of the directory, with its joined path and its size.
pub record File : Type 0 where
  pub name : String
  pub path : String
  pub size : ℕ

-- `f.endsWith('.wav')` holds of every name that can be parsed. `none` is a directory that cannot be
-- read.
unfoldable pub scan_recordings : (String → Option ℕ) → Option (List File) → List WavFileInfo
scan_recordings date_of none = []
scan_recordings date_of (some []) = []
scan_recordings date_of (some (f ∷ files)) =
    let rest = scan_recordings date_of (some files) in
    elim (parse_wav_filename date_of f.name) [
      | none ↦ rest
      | some parsed ↦
          record {
            path = f.path;
            name = f.name;
            size = f.size;
            satellite = parsed.satellite;
            timestamp = parsed.timestamp;
          }
          ∷ rest
    ]

abbrev names_recording : String → Option String → Bool
names_recording name none = false
names_recording name (some path) = includes path name

-- `allCaptures.find((c) => c.recordingPath?.includes(name))`.
unfoldable pub capture_of : String → List CaptureRow → Option CaptureRow
capture_of name captures = find (λ (c : CaptureRow). names_recording name c.recording_path) captures

abbrev pub min_size : ℕ
min_size = 1_000_000

abbrev is_none : Option CaptureRow → Bool
is_none none = true
is_none (some c) = false

-- The predicates of the two filters.
unfoldable pub is_missing : CaptureDatabase → WavFileInfo → Bool
is_missing db recording =
    if ltb recording.size min_size then false else is_none (capture_of recording.name db.captures)

abbrev pub has_no_paths : List String → Bool
has_no_paths [] = true
has_no_paths (p ∷ ps) = false

unfoldable pub is_undecoded : (List String → List String) → CaptureDatabase → WavFileInfo → Bool
is_undecoded order db recording =
    if ltb recording.size min_size then false else elim (capture_of recording.name db.captures) [
      | none ↦ false
      | some c ↦ has_no_paths (image_paths_of order c.id db)
    ]

unfoldable pub find_missing_recordings : CaptureDatabase → List WavFileInfo → List WavFileInfo
unfolding is_missing
find_missing_recordings db recordings = filter (is_missing db) recordings

unfoldable pub find_undecoded_recordings :
    (List String → List String) → CaptureDatabase → List WavFileInfo → List WavFileInfo
find_undecoded_recordings order db recordings = filter (is_undecoded order db) recordings

-- The signal type that the name of the satellite stands for.
abbrev pub signal_type_of : WavFileInfo → SignalType
signal_type_of recording = if starts_with recording.satellite "METEOR" then lrpt else sstv

-- The paths of the decoded images; `decode` answers none where there is no decoder, nothing was
-- decoded, or it throws.
unfoldable pub decode_recording :
    (SignalType → String → Option (List String)) → WavFileInfo → List String
decode_recording decode recording = elim (decode (signal_type_of recording) recording.path) [
  | none ↦ []
  | some paths ↦ paths
]

-- `addImagesToDatabase`.
unfoldable pub add_images_to_database : String → List String → CaptureDatabase → CaptureDatabase
add_images_to_database name paths db = elim (capture_of name db.captures) [
  | none ↦ db
  | some c ↦ save_images c.id paths db
]

abbrev pub add_decoded : String → List String → CaptureDatabase → CaptureDatabase
add_decoded name [] db = db
add_decoded name (p ∷ ps) db = add_images_to_database name (p ∷ ps) db

-- The loop over the undecoded recordings.
unfoldable pub decode_all :
    (SignalType → String → Option (List String))
    → List WavFileInfo
    → CaptureDatabase
    → CaptureDatabase
unfolding decode_recording add_images_to_database
decode_all decode [] db = db
decode_all decode (r ∷ recordings) db =
    decode_all decode recordings (add_decoded r.name (decode_recording decode r) db)

abbrev pub max_failed_size : ℕ
max_failed_size = 10_000

-- `cleanupFailedRecordings`: the paths that were removed, of those that may be.
unfoldable pub cleanup_failed_recordings : (String → Bool) → List WavFileInfo → List String
cleanup_failed_recordings unlinks [] = []
cleanup_failed_recordings unlinks (r ∷ recordings) =
    let rest = cleanup_failed_recordings unlinks recordings in
    if leb r.size max_failed_size && unlinks r.path then r.path ∷ rest else rest

-- `runMaintenance`: the database afterwards, and the removed files.
unfoldable pub run_maintenance :
    (String → Option ℕ)
    → (List String → List String)
    → (SignalType → String → Option (List String))
    → (String → Bool)
    → Bool
    → Bool
    → Option (List File)
    → CaptureDatabase
    → CaptureDatabase × List String
unfolding decode_all find_undecoded_recordings
run_maintenance date_of order decode unlinks decodes cleans files db =
    let recordings = scan_recordings date_of files in
    (
      if decodes then decode_all decode (find_undecoded_recordings order db recordings) db else db,
      if cleans
          then cleanup_failed_recordings unlinks
              (filter (λ (r : WavFileInfo). leb r.size max_failed_size) recordings)
          else [],
    )
