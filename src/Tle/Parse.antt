-- ===== src/Tle/Parse.antt =====
-- `parseTleText` of src/backend/satellites/tle.ts, and the text that `saveTlesToCache` prints for a
-- satellite.
use noaa_satellite_capture.Base.{
  String, ◌≡◌, refl, ap, ◌∙◌, Bool, true, ◌&&◌, Option, none, some, List, [], ◌∷◌, arith,
  if◌then◌else◌,
}
use noaa_satellite_capture.Base.Strings.{starts_with}
use noaa_satellite_capture.Base.Texts.{unit_text, split, join, trim, lacks, split-join}
use noaa_satellite_capture.Base.Trimmed.{
  begins_dark, ends_dark, ends_dark-append, trim-append, trim_dark,
}
use noaa_satellite_capture.Types.{TwoLineElement}
use Prim.Native.String.{◌++◌ as ◌+++◌}
use Prim.Native.Char.{Char, char}

abbrev pub newline_char : Char
newline_char = char 10 tt

abbrev trim_all : List String → List String
trim_all [] = []
trim_all (l ∷ lines) = trim l ∷ trim_all lines

-- `line1.startsWith('1 ') && line2.startsWith('2 ')`.
abbrev pub are_element_lines : String → String → Bool
are_element_lines line1 line2 = starts_with line1 "1 " && starts_with line2 "2 "

-- The two formats; a text of two lines has no name of its own.
abbrev pub parse_lines : String → List String → Option TwoLineElement
parse_lines expected_name [] = none
parse_lines expected_name (line0 ∷ []) = none
parse_lines expected_name (line0 ∷ line1 ∷ []) =
    if are_element_lines line0 line1
    then some (record { name = expected_name; line1 = line0; line2 = line1 })
    else none
parse_lines expected_name (line0 ∷ line1 ∷ line2 ∷ rest) =
    if are_element_lines line1 line2
    then some (record { name = line0; line1 = line1; line2 = line2 })
    else none

unfoldable pub parse_tle_text : String → String → Option TwoLineElement
parse_tle_text text expected_name = parse_lines expected_name (trim_all (split 10 (trim text)))

-- `${t.name}\n${t.line1}\n${t.line2}`.
unfoldable pub print_tle : TwoLineElement → String
print_tle t = join (unit_text newline_char) (t.name ∷ t.line1 ∷ t.line2 ∷ [])

-- A line that neither begins nor ends with white space and has no line break.
abbrev pub is_line : String → Bool
is_line s = begins_dark s && ends_dark s && lacks 10 s

print_tle-trim :
    (t : TwoLineElement)
    → begins_dark t.name ≡ true
    → ends_dark t.line2 ≡ true
    → trim (print_tle t) ≡ print_tle t
unfolding print_tle join
print_tle-trim t h k =
    trim-append t.name
      (unit_text newline_char +++ (t.line1 +++ (unit_text newline_char +++ t.line2))) h
      (ends_dark-append (unit_text newline_char) (t.line1 +++ (unit_text newline_char +++ t.line2))
        (ends_dark-append t.line1 (unit_text newline_char +++ t.line2)
          (ends_dark-append (unit_text newline_char) t.line2 k)))

trim_line : (s : String) → is_line s ≡ true → trim s ≡ s
trim_line s h = trim_dark s (ground arith) (ground arith)

print_tle-lines :
    (t : TwoLineElement)
    → is_line t.name ≡ true
    → is_line t.line1 ≡ true
    → is_line t.line2 ≡ true
    → trim_all (split 10 (trim (print_tle t))) ≡ t.name ∷ t.line1 ∷ t.line2 ∷ []
unfolding print_tle
print_tle-lines t a b c =
    let whole = print_tle-trim t (ground arith) (ground arith) in
    let parts = split-join 10 newline_char t.name (t.line1 ∷ t.line2 ∷ []) refl (ground arith) in
    ap (λ s. trim_all (split 10 s)) whole
    ∙ ap trim_all parts
    ∙ rw (trim_line t.name a, trim_line t.line1 b, trim_line t.line2 c) refl

-- What is printed is read back, for any expected name: a set whose name and lines have no line
-- break and no white space at their ends, and whose lines begin with "1 " and "2 ".
pub parse_tle_text-print_tle :
    (t : TwoLineElement) (expected_name : String)
    → is_line t.name ≡ true
    → is_line t.line1 ≡ true
    → is_line t.line2 ≡ true
    → are_element_lines t.line1 t.line2 ≡ true
    → parse_tle_text (print_tle t) expected_name ≡ some t
unfolding parse_tle_text
parse_tle_text-print_tle t expected_name a b c e = rw (print_tle-lines t a b c, e) refl
