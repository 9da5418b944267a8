-- ===== src/Base/Strings.antt =====
-- The string methods of the source, on the library's texts; positions are bytes.
use Prim.Native.Nat.{ℕ}
use Prim.Native.Char.{Char, code}
use Prim.Native.String.{String, [], ◌∷◌, len, slice, find}
use mathlib.Core.Bool.{Bool, true, false, ◌&&◌, ◌||◌}
use text.Mathlib.Text.{◌==◌, starts_with as has_prefix, is_le}
use Prim.Native.Nat.{compare}

abbrev pub starts_with : String → String → Bool
starts_with s t = has_prefix s t

-- `s.includes(t)`.
abbrev pub includes : String → String → Bool
includes s t = is_le (compare (find s t) (len s))

-- `s.slice(n)`.
abbrev pub drop_bytes : ℕ → String → String
drop_bytes n s = slice s n (len s)

abbrev between : ℕ → ℕ → ℕ → Bool
between low high n = is_le (compare low n) && is_le (compare n high)

-- The class `[\w-]` of a regular expression.
abbrev is_word : Char → Bool
is_word c =
    between 48 57 (code c)
    || between 65 90 (code c)
    || between 97 122 (code c)
    || between 95 95 (code c)
    || between 45 45 (code c)

-- A text is some characters of that class, then `rest`; `seen` tells whether one was read.
unfoldable pub is_word_then : String → Bool → String → Bool
is_word_then rest seen [] = false
is_word_then rest seen (c ∷ s) =
    (is_word c && is_word_then rest true s) || (seen && (c ∷ s) == rest)
