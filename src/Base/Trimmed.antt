-- ===== src/Base/Trimmed.antt =====
-- When `trim` leaves a text as it is.
use Prim.Native.Char.{Char}
use Prim.Native.String.{String, ◌++◌ as ◌+++◌}
use mathlib.Core.Bool.{Bool, true, false, not}
use mathlib.Core.Path.{◌≡◌, refl}
use native.Mathlib.Omega.{arith}
use text.Mathlib.TextLemmas.{nil-append, cons-append}
use noaa_satellite_capture.Base.Texts.{is_space, trim_start, trim_end, trim, or_end}

-- The first, and the last, character of a text is not white space.
abbrev pub begins_dark : String → Bool
begins_dark String.[] = false
begins_dark (String.◌∷◌ c s) = not (is_space c)

abbrev pub ends_dark : String → Bool
ends_dark String.[] = false
ends_dark (String.◌∷◌ c String.[]) = not (is_space c)
ends_dark (String.◌∷◌ c (String.◌∷◌ d s)) = ends_dark (String.◌∷◌ d s)

trim_start-append : (s t : String) → begins_dark s ≡ true → trim_start (s +++ t) ≡ s +++ t
trim_start-append String.[] t h = absurd (cc h)
trim_start-append (String.◌∷◌ c s) t h =
    let dark : is_space c ≡ false = ground arith in rw (cons-append, dark) refl

or_end-cons :
    (b : Bool) (c d : Char) (s : String)
    → or_end b c (String.◌∷◌ d s) ≡ String.◌∷◌ c (String.◌∷◌ d s)
or_end-cons true c d s = refl
or_end-cons false c d s = refl

trim_end_dark : (s : String) → ends_dark s ≡ true → trim_end s ≡ s
trim_end_dark String.[] h = refl
trim_end_dark (String.◌∷◌ c String.[]) h =
    let dark : is_space c ≡ false = ground arith in rw dark refl
trim_end_dark (String.◌∷◌ c (String.◌∷◌ d s)) h =
    rw (trim_end_dark (String.◌∷◌ d s) h) (or_end-cons (is_space c) c d s)

ends_dark-cons : (c : Char) (s : String) → ends_dark s ≡ true → ends_dark (String.◌∷◌ c s) ≡ true
ends_dark-cons c String.[] h = absurd (cc h)
ends_dark-cons c (String.◌∷◌ d s) h = h

pub ends_dark-append : (s t : String) → ends_dark t ≡ true → ends_dark (s +++ t) ≡ true
ends_dark-append String.[] t h = rw nil-append h
ends_dark-append (String.◌∷◌ c s) t h =
    rw cons-append (ends_dark-cons c (s +++ t) (ends_dark-append s t h))

-- A text that begins with a dark text and ends with one is trimmed.
pub trim-append :
    (s t : String) → begins_dark s ≡ true → ends_dark t ≡ true → trim (s +++ t) ≡ s +++ t
trim-append s t h k =
    rw (trim_start-append s t h) (trim_end_dark (s +++ t) (ends_dark-append s t k))

trim_start_dark : (s : String) → begins_dark s ≡ true → trim_start s ≡ s
trim_start_dark String.[] h = refl
trim_start_dark (String.◌∷◌ c s) h = let dark : is_space c ≡ false = ground arith in rw dark refl

pub trim_dark : (s : String) → begins_dark s ≡ true → ends_dark s ≡ true → trim s ≡ s
trim_dark s h k = rw (trim_start_dark s h) (trim_end_dark s k)
