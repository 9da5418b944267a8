-- ===== src/Passes/Names.antt =====
-- How src/backend/prediction/passes.ts finds the element set of a satellite: by its name, without
-- regard to case and white space, by its number, or by a part of its name.
use noaa_satellite_capture.Base.{
  ℕ, ◌+◌, ◌-◌, ◌*◌, String, Bool, true, false, ◌&&◌, ◌||◌, Option, none, some, List, [], ◌∷◌, map,
  leb, ◌==◌, if◌then◌else◌, take,
}
use noaa_satellite_capture.Types.{SatelliteInfo, TwoLineElement}
use noaa_satellite_capture.Base.Texts.{is_char, is_space, is_digit, remove_space}
use Prim.Native.Char.{code}

-- The code points of a text, which is ASCII.
abbrev pub codes : String → List ℕ
codes String.[] = []
codes (String.◌∷◌ c s) = code c ∷ codes s

abbrev pub eq_codes : List ℕ → List ℕ → Bool
eq_codes [] [] = true
eq_codes [] (y ∷ ys) = false
eq_codes (x ∷ xs) [] = false
eq_codes (x ∷ xs) (y ∷ ys) = (x == y) && eq_codes xs ys

abbrev pub has_prefix : List ℕ → List ℕ → Bool
has_prefix xs [] = true
has_prefix [] (y ∷ ys) = false
has_prefix (x ∷ xs) (y ∷ ys) = (x == y) && has_prefix xs ys

-- `xs.includes(ys)`.
unfoldable pub includes_codes : List ℕ → List ℕ → Bool
includes_codes [] ys = has_prefix [] ys
includes_codes (x ∷ xs) ys = has_prefix (x ∷ xs) ys || includes_codes xs ys

abbrev pub to_lower : ℕ → ℕ
to_lower c = if leb 65 c && leb c 90 then c + 32 else c

-- `name.toLowerCase().replace(/\s+/g, '')`.
unfoldable pub normal_name : String → List ℕ
normal_name s = map to_lower (codes (remove_space s))

-- `Number.parseInt` of the digits that a text begins with, or null where it begins with none.
abbrev digits_from : Bool → ℕ → String → Option ℕ
digits_from seen n String.[] = if seen then some n else none
digits_from seen n (String.◌∷◌ c s) =
    if is_digit c
    then digits_from true (n * 10 + (code c - 48)) s
    else if seen
    then some n
    else none

abbrev after_space : Bool → String → Option ℕ
after_space seen String.[] = none
after_space seen (String.◌∷◌ c s) =
    if is_space c
    then after_space true s
    else if seen
    then digits_from false 0 (String.◌∷◌ c s)
    else none

-- The number that `/^1\s+(\d+)/` captures.
unfoldable pub norad_of_line : String → Option ℕ
norad_of_line String.[] = none
norad_of_line (String.◌∷◌ c s) = if is_char 49 c then after_space false s else none

abbrev is_number : ℕ → Option ℕ → Bool
is_number n none = false
is_number n (some m) = m == n

-- The predicate of `tles.find`.
unfoldable pub is_tle_of : SatelliteInfo → TwoLineElement → Bool
is_tle_of sat t =
    let tle_name = normal_name t.name in
    let sat_name = normal_name sat.name in
    if eq_codes tle_name sat_name
    then true
    else if is_number sat.norad_id (norad_of_line t.line1)
    then true
    else if includes_codes tle_name (take 8 sat_name) || includes_codes sat_name (take 8 tle_name)
    then true
    else false

-- `name.replace(' ', '-')`, which replaces the first space.
abbrev dash_for_space : List ℕ → List ℕ
dash_for_space [] = []
dash_for_space (c ∷ cs) = if c == 32 then 45 ∷ cs else c ∷ dash_for_space cs

-- The predicate of the second `tles.find`, in `predictPassesWithDoppler`.
unfoldable pub is_named_for : SatelliteInfo → TwoLineElement → Bool
is_named_for sat t =
    includes_codes (codes t.name) (codes sat.name)
    || includes_codes (codes t.name) (dash_for_space (codes sat.name))
