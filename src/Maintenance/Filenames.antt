-- ===== src/Maintenance/Filenames.antt =====
-- The names of recordings: `generateFilename` of src/backend/utils/fs.ts, and `parseWavFilename` of
-- src/backend/cli/commands/maintenance.ts.
pub mod Stamps
pub mod Laws
use noaa_satellite_capture.Base.{
  ℕ, String, Bool, true, false, ◌&&◌, ◌||◌, Option, none, some, [], ◌∷◌, ◌++◌, if◌then◌else◌,
}
use noaa_satellite_capture.Base.Texts.{is_char, is_digit, take_chars}
use noaa_satellite_capture.Database.{dash_spaces}
use text.Mathlib.TextEquality.{Char-path}
use Prim.Native.Char.{Char, char, code}
use Prim.Native.String.{◌++◌ as ◌+++◌}
use text.Mathlib.TextLemmas.{cons-append, nil-append}

-- `.replace(/[:.]/g, '-')`.
abbrev pub dash_marks : String → String
dash_marks String.[] = ""
dash_marks (String.◌∷◌ c s) =
    if is_char 58 c || is_char 46 c
    then String.◌∷◌ (char 45 tt) (dash_marks s)
    else String.◌∷◌ c (dash_marks s)

-- `iso` is the text of the current time by `toISOString`.
unfoldable pub timestamp_of : String → String
timestamp_of iso = take_chars 19 (dash_marks iso)

unfoldable pub generate_filename : String → String → String → String
generate_filename satellite extension iso =
    dash_spaces false satellite +++ ("_" +++ (timestamp_of iso +++ ("." +++ extension)))

pub record ParsedName : Type 0 where
  pub satellite : String
  pub timestamp : String

-- A text has the form of a template, in which a zero stands for any digit.
unfoldable pub has_form : String → String → Bool
has_form String.[] String.[] = true
has_form String.[] (String.◌∷◌ d s) = false
has_form (String.◌∷◌ c t) String.[] = false
has_form (String.◌∷◌ c t) (String.◌∷◌ d s) =
    let rest = has_form t s in (if is_char 48 c then is_digit d else is_char (code c) d) && rest

abbrev pub date_form : String
date_form = "0000-00-00T00-00-00"

abbrev pub file_form : String
file_form = "0000-00-00T00-00-00.wav"

abbrev push_char : Char → Option ParsedName → Option ParsedName
push_char c none = none
push_char c (some p) = some (record p { satellite = String.◌∷◌ c p.satellite })

-- The expression `^(.+?)_(\d{4}-\d{2}-\d{2}T\d{2}-\d{2}-\d{2})\.wav$` from some place; `seen` tells whether
-- the first group has a character. A dot stands for no line break.
unfoldable pub match_from : Bool → String → Option ParsedName
unfolding has_form
match_from seen String.[] = none
match_from seen (String.◌∷◌ c s) =
    let rest = match_from true s in
    if seen && is_char 95 c && has_form file_form s
    then some (record { satellite = ""; timestamp = take_chars 19 s })
    else if is_char 10 c || is_char 13 c
    then none
    else push_char c rest

-- `.replace(/T(\d{2})-(\d{2})-(\d{2})/, 'T$1:$2:$3')` on a text of the form of the second group.
unfoldable pub dashes_to_colons : String → String
dashes_to_colons String.[] = ""
dashes_to_colons (String.◌∷◌ c s) =
    String.◌∷◌ (if is_char 45 c then char 58 tt else c) (dashes_to_colons s)

unfoldable pub with_colons : String → String
unfolding dashes_to_colons
with_colons String.[] = ""
with_colons (String.◌∷◌ c s) =
    if is_char 84 c && has_form "00-00-00" s
    then String.◌∷◌ c (dashes_to_colons s)
    else String.◌∷◌ c (with_colons s)

-- The result of `parseWavFilename`; an invalid date is `none`.
pub record WavName : Type 0 where
  pub satellite : String
  pub timestamp : Option ℕ

-- `date_of` is the constructor `Date` on a text without a zone, which it reads in local time.
unfoldable pub parse_wav_filename : (String → Option ℕ) → String → Option WavName
unfolding match_from with_colons
parse_wav_filename date_of filename = elim (match_from false filename) [
  | none ↦ none
  | some found ↦
      some
        (record { satellite = found.satellite; timestamp = date_of (with_colons found.timestamp) })
]
