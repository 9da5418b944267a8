-- ===== src/Maintenance/Filenames/Laws.antt =====
-- The name that src/backend/utils/fs.ts makes is read back by
-- src/backend/cli/commands/maintenance.ts.
use noaa_satellite_capture.Base.{
  ℕ, suc, ◌+◌, String, ◌≡◌, refl, sym, ap, subst, ◌∙◌, ◌≢◌, ◌⊎◌, inl, inr, Bool, true, false, ◌&&◌,
  ◌||◌, Option, some, arith, if◌then◌else◌, Bool-cases,
}
use noaa_satellite_capture.Base.Texts.{is_char, is_digit, take_chars, lacks}
use noaa_satellite_capture.Database.{dash_spaces}
use noaa_satellite_capture.Maintenance.Filenames.{
  timestamp_of, generate_filename, has_form, date_form, file_form, match_from, with_colons,
  parse_wav_filename,
}
use noaa_satellite_capture.Maintenance.Filenames.Stamps.{
  has_form-dash_marks, with_colons-dash_marks, take_chars-dash_marks, iso_form,
  iso_form-IsStampForm,
}
use Prim.Native.Char.{code}
use Prim.Native.String.{◌++◌ as ◌+++◌}
use text.Mathlib.TextLemmas.{cons-append, nil-append}

abbrev pub size_of : String → ℕ
size_of String.[] = 0
size_of (String.◌∷◌ c s) = suc (size_of s)

size_of-append : (s t : String) → size_of (s +++ t) ≡ size_of s + size_of t
size_of-append String.[] t = rw nil-append (omega arith)
size_of-append (String.◌∷◌ c s) t = rw cons-append (omega (arith, size_of-append s t))

has_form-size_of : (t s : String) → has_form t s ≡ true → size_of s ≡ size_of t
unfolding has_form
has_form-size_of String.[] String.[] h = refl
has_form-size_of String.[] (String.◌∷◌ d s) h = absurd (cc h)
has_form-size_of (String.◌∷◌ c t) String.[] h = absurd (cc h)
has_form-size_of (String.◌∷◌ c t) (String.◌∷◌ d s) h = ap suc (has_form-size_of t s (ground arith))

-- A text that is too long has not the form of a file name's end.
has_form_longer : (u s : String) → size_of s ≡ 24 → has_form file_form (u +++ s) ≡ false
has_form_longer u s h = elim (Bool-cases (has_form file_form (u +++ s))) [
  | inr no_ ↦ no_
  | inl yes_ ↦
      let long = size_of-append u s in
      let short = has_form-size_of file_form (u +++ s) yes_ in
      absurd (omega (arith, long, short, h))
]

-- No line break stands in a text.
abbrev pub is_one_line : String → Bool
is_one_line s = lacks 10 s && lacks 13 s

-- From any place in the name, the expression finds the last part.
match_from_name :
    (name s : String) (seen : Bool)
    → is_one_line name ≡ true
    → (name ≢ "") ⊎ (seen ≡ true)
    → has_form file_form s ≡ true
    → match_from seen (name +++ ("_" +++ s))
      ≡ some (record { satellite = name; timestamp = take_chars 19 s })
unfolding match_from
match_from_name String.[] s seen h k e = elim k [
  | inl nonempty ↦ absurd (nonempty refl)
  | inr first ↦ rw (nil-append, cons-append, nil-append, first, e) refl
]
match_from_name (String.◌∷◌ c n) s seen h k e =
    let size : size_of ("_" +++ s) ≡ 24 =
      omega (arith, size_of-append "_" s, has_form-size_of file_form s e) in
    let early = has_form_longer n ("_" +++ s) size in
    let rest = match_from_name n s true (ground arith) (inr refl) e in
    let no_break : (is_char 10 c || is_char 13 c) ≡ false = ground arith in
    let no_end : (seen && is_char 95 c && has_form file_form (n +++ ("_" +++ s))) ≡ false =
      ground arith in
    rw (cons-append, no_end, no_break, rest) refl

-- A date followed by the extension has the form of a file name's end, and begins with the date.
date_wav : (t s : String) → has_form t s ≡ true → has_form (t +++ ".wav") (s +++ ".wav") ≡ true
unfolding has_form
date_wav String.[] String.[] h = refl
date_wav String.[] (String.◌∷◌ d s) h = absurd (cc h)
date_wav (String.◌∷◌ c t) String.[] h = absurd (cc h)
date_wav (String.◌∷◌ c t) (String.◌∷◌ d s) h =
    let rest = date_wav t s (ground arith) in
    let here : (if is_char 48 c then is_digit d else is_char (code c) d) ≡ true = ground arith in
    rw (cons-append c t ".wav", cons-append d s ".wav", here) rest

take_chars-append : (t s u : String) → has_form t s ≡ true → take_chars (size_of t) (s +++ u) ≡ s
unfolding has_form
take_chars-append String.[] String.[] u h = refl
take_chars-append String.[] (String.◌∷◌ d s) u h = absurd (cc h)
take_chars-append (String.◌∷◌ c t) String.[] u h = absurd (cc h)
take_chars-append (String.◌∷◌ c t) (String.◌∷◌ d s) u h =
    rw (cons-append d s u) (ap (String.◌∷◌ d) (take_chars-append t s u (ground arith)))

-- The name of a recording is read back: for a satellite whose name, with dashes for its white
-- space, is one line and not empty, at a time whose text begins with digits in the form of
-- `toISOString`, it gives this name, and the date that is made of the text of the time up to its
-- seconds, without its zone.
pub parse_wav_filename-generate_filename :
    (date_of : String → Option ℕ) (satellite iso : String)
    → is_one_line (dash_spaces false satellite) ≡ true
    → dash_spaces false satellite ≢ ""
    → has_form iso_form (take_chars 19 iso) ≡ true
    → parse_wav_filename date_of (generate_filename satellite "wav" iso)
      ≡ some (record {
        satellite = dash_spaces false satellite;
        timestamp = date_of (take_chars 19 iso);
      })
unfolding parse_wav_filename generate_filename timestamp_of
parse_wav_filename-generate_filename date_of satellite iso h k e =
    let commutes = take_chars-dash_marks 19 iso in
    let dashed = has_form-dash_marks iso_form (take_chars 19 iso) e in
    let form : has_form date_form (timestamp_of iso) ≡ true =
      subst (λ z. has_form date_form z ≡ true) (sym commutes) dashed in
    let back =
      ap with_colons commutes
      ∙ with_colons-dash_marks iso_form (take_chars 19 iso) iso_form-IsStampForm e in
    let found =
      match_from_name (dash_spaces false satellite) (timestamp_of iso +++ ("." +++ "wav")) false h
        (inl k) (date_wav date_form (timestamp_of iso) form) in
    let read = take_chars-append date_form (timestamp_of iso) ".wav" form in
    rw (found, parse_wav_filename)
      (ap
        (λ (t : String).
          some (record { satellite = dash_spaces false satellite; timestamp = date_of t }))
        (ap with_colons read ∙ back))
