-- ===== src/Database.antt =====
-- src/backend/db/database.ts: the captures and their images. The tables are lists in the order of
-- their insertion; what SQLite leaves open, the order of equal rows and of the concatenated paths, is
-- an argument. Times are kept as numbers where the source prints and stores them.
pub mod Laws
pub mod Paths
mod Tests
use noaa_satellite_capture.Base.{
  ℕ, ◌+◌, ◌/◌, String, Bool, true, false, not, ◌&&◌, Option, none, some, List, [], ◌∷◌, ◌++◌, map,
  str_eq, ◌==◌, if◌then◌else◌, length, take, drop, filter, find, ℤ,
}
use noaa_satellite_capture.Base.Strings.{includes}
use noaa_satellite_capture.Base.Texts.{is_space, unit_text, split, join}
use noaa_satellite_capture.Types.{SignalType, SatellitePass, CaptureResult, ceil_seconds}
use Prim.Native.Char.{Char, char}

-- `${safeName}_${timestamp}`; the time's text to the second is the number of seconds, and as it has a
-- fixed length, the two parts determine the text.
pub record PassId : Type 0 where
  pub safe_name : String
  pub timestamp : ℕ

-- `name.replace(/\s+/g, '-')`; the flag tells whether a space was just replaced.
abbrev pub dash_spaces : Bool → String → String
dash_spaces after_space String.[] = ""
dash_spaces after_space (String.◌∷◌ c s) =
    let kept = String.◌∷◌ c (dash_spaces false s) in
    let rest = dash_spaces true s in
    if is_space c then (if after_space then rest else String.◌∷◌ (char 45 tt) rest) else kept

unfoldable pub generate_pass_id : SatellitePass → PassId
generate_pass_id pass = record {
  safe_name = dash_spaces false pass.satellite.name;
  timestamp = pass.aos / 1000;
}

abbrev pub pass_id_eq : PassId → PassId → Bool
pass_id_eq a b = str_eq a.safe_name b.safe_name && a.timestamp == b.timestamp

-- A row of `captures`.
pub record CaptureRow : Type 0 where
  pub id : ℕ
  pub pass_id : PassId
  pub satellite_name : String
  pub satellite_norad_id : ℕ
  pub frequency : ℕ
  pub signal_type : SignalType
  pub aos_time : ℕ
  pub los_time : ℕ
  pub max_elevation : ℤ
  pub duration_seconds : ℕ
  pub recording_path : Option String
  pub start_time : ℕ
  pub end_time : ℕ
  pub max_signal_strength : ℤ
  pub success : Bool
  pub error_message : Option String

pub data ImageType : Type 0 where
  channel_a channel_b composite : ImageType

-- A row of `images`.
pub record ImageRow : Type 0 where
  pub capture_id : ℕ
  pub image_type : ImageType
  pub file_path : String

-- `next_id` is the number that AUTOINCREMENT gives next.
pub record CaptureDatabase : Type 0 where
  pub captures : List CaptureRow
  pub images : List ImageRow
  pub next_id : ℕ

abbrev pub empty_database : CaptureDatabase
empty_database = record { captures = []; images = []; next_id = 1 }

-- `text || null`.
abbrev or_null : String → Option String
or_null String.[] = none
or_null (String.◌∷◌ c s) = some (String.◌∷◌ c s)

abbrev or_null? : Option String → Option String
or_null? none = none
or_null? (some s) = or_null s

abbrev pub new_row : ℕ → CaptureResult → SatellitePass → CaptureRow
new_row id result pass = record {
  id = id;
  pass_id = generate_pass_id pass;
  satellite_name = result.satellite.name;
  satellite_norad_id = result.satellite.norad_id;
  frequency = result.satellite.frequency;
  signal_type = result.satellite.signal_type;
  aos_time = pass.aos;
  los_time = pass.los;
  max_elevation = pass.max_elevation;
  duration_seconds = ceil_seconds pass.duration;
  recording_path = or_null result.recording_path;
  start_time = result.start_time;
  end_time = result.end_time;
  max_signal_strength = result.max_signal_strength;
  success = result.success;
  error_message = or_null? result.error;
}

abbrev pub has_pass : PassId → CaptureRow → Bool
has_pass id row = pass_id_eq row.pass_id id

-- `saveCapture`: the number of the new row; `none` where the constraint UNIQUE of `pass_id` throws.
unfoldable pub save_capture :
    CaptureResult → SatellitePass → CaptureDatabase → Option (CaptureDatabase × ℕ)
save_capture result pass db = elim (find (has_pass (generate_pass_id pass)) db.captures) [
  | some row ↦ none
  | none ↦ some (
    record db {
      captures = db.captures ++ new_row db.next_id result pass ∷ [];
      next_id = db.next_id + 1;
    },
    db.next_id,
  )
]

unfoldable pub image_type_of : String → ImageType
image_type_of path =
    if includes path "-chA"
    then channel_a
    else if includes path "-chB"
    then channel_b
    else composite

abbrev pub image_rows : ℕ → List String → List ImageRow
image_rows id [] = []
image_rows id (path ∷ paths) =
    record { capture_id = id; image_type = image_type_of path; file_path = path }
    ∷ image_rows id paths

-- `saveImages` for a capture that exists.
unfoldable pub save_images : ℕ → List String → CaptureDatabase → CaptureDatabase
save_images id paths db = record db { images = db.images ++ image_rows id paths }

abbrev pub comma_char : Char
comma_char = char 44 tt

-- `row.image_paths ? row.image_paths.split(',') : []`.
abbrev pub split_paths : String → List String
split_paths String.[] = []
split_paths (String.◌∷◌ c s) = split 44 (String.◌∷◌ c s)

-- The paths in the text of GROUP_CONCAT, which is null without a row.
unfoldable pub read_paths : List String → List String
read_paths [] = []
read_paths (p ∷ ps) = split_paths (join (unit_text comma_char) (p ∷ ps))

-- The `image_paths` of a capture; `order` is the order in which the join gives its images.
unfoldable pub image_paths_of : (List String → List String) → ℕ → CaptureDatabase → List String
image_paths_of order id db = read_paths (
    order (
      map (λ (i : ImageRow). i.file_path)
        (filter (λ (i : ImageRow). i.capture_id == id) db.images)))

-- `CaptureHistoryEntry`: the row, and the paths of its images.
pub record CaptureHistoryEntry : Type 0 where
  pub row : CaptureRow
  pub image_paths : List String

-- `getRecentCaptures`; `newest` is the table by its descending time of creation.
unfoldable pub get_recent_captures :
    (List String → List String)
    → (List CaptureRow → List CaptureRow)
    → ℕ
    → ℕ
    → CaptureDatabase
    → List CaptureHistoryEntry
get_recent_captures order newest limit offset db =
    map (λ (row : CaptureRow). record { row = row; image_paths = image_paths_of order row.id db })
      (take limit (drop offset (newest db.captures)))

pub record CaptureSummary : Type 0 where
  pub total : ℕ
  pub successful : ℕ
  pub failed : ℕ

-- `getCaptureSummary`; a sum over no rows is null, and counts as zero.
unfoldable pub get_capture_summary : CaptureDatabase → CaptureSummary
get_capture_summary db = record {
  total = length db.captures;
  successful = length (filter (λ (row : CaptureRow). row.success) db.captures);
  failed = length (filter (λ (row : CaptureRow). not row.success) db.captures);
}
