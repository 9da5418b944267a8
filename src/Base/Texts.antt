-- ===== src/Base/Texts.antt =====
-- The string methods `split`, `join`, `trim`, `toLowerCase` and `slice` of the source, by characters.
use Prim.Native.Nat.{ℕ, zero, suc}
use Prim.Native.Char.{Char, code}
use Prim.Native.String.{String, ◌++◌ as ◌+++◌}
use mathlib.Core.Logic.{inl, inr}
use mathlib.Core.Bool.{Bool, true, false, ◌&&◌, ◌||◌, not}
use mathlib.Core.Path.{◌≡◌, refl, ap}
use mathlib.Core.List.{List, [], ◌∷◌, ◌++◌}
use native.Mathlib.Omega.{arith}
use text.Mathlib.TextLemmas.{nil-append, cons-append}
use noaa_satellite_capture.Base.Tests.{leb, if◌then◌else◌, Bool-cases}

abbrev pub is_char : ℕ → Char → Bool
is_char n c = leb n (code c) && leb (code c) n

-- White space as `trim` and `\s` read it, within ASCII.
abbrev pub is_space : Char → Bool
is_space c = is_char 32 c || (leb 9 (code c) && leb (code c) 13)

abbrev pub is_digit : Char → Bool
is_digit c = leb 48 (code c) && leb (code c) 57

-- A text of one character.
abbrev pub unit_text : Char → String
unit_text c = String.◌∷◌ c String.[]

abbrev prepend : Char → List String → List String
prepend c [] = unit_text c ∷ []
prepend c (w ∷ ws) = String.◌∷◌ c w ∷ ws

-- `s.split(c)` for the text of one character with the code `n`.
unfoldable pub split : ℕ → String → List String
split n String.[] = "" ∷ []
split n (String.◌∷◌ c s) = if is_char n c then "" ∷ split n s else prepend c (split n s)

-- `ws.join(d)`.
unfoldable pub join : String → List String → String
join d [] = ""
join d (w ∷ []) = w
join d (w ∷ v ∷ ws) = w +++ (d +++ join d (v ∷ ws))

abbrev pub trim_start : String → String
trim_start String.[] = ""
trim_start (String.◌∷◌ c s) = if is_space c then trim_start s else String.◌∷◌ c s

abbrev pub or_end : Bool → Char → String → String
or_end true c String.[] = ""
or_end _ c s = String.◌∷◌ c s

abbrev pub trim_end : String → String
trim_end String.[] = ""
trim_end (String.◌∷◌ c s) = or_end (is_space c) c (trim_end s)

abbrev pub trim : String → String
trim s = trim_end (trim_start s)

-- `s.replace(/\s+/g, '')`.
abbrev pub remove_space : String → String
remove_space String.[] = ""
remove_space (String.◌∷◌ c s) = if is_space c then remove_space s else String.◌∷◌ c (remove_space s)

-- `s.slice(0, n)`.
abbrev pub take_chars : ℕ → String → String
take_chars zero s = ""
take_chars (suc n) String.[] = ""
take_chars (suc n) (String.◌∷◌ c s) = String.◌∷◌ c (take_chars n s)

-- The text does not hold the character with the code `n`.
abbrev pub lacks : ℕ → String → Bool
lacks n String.[] = true
lacks n (String.◌∷◌ c s) = not (is_char n c) && lacks n s

-- What `lines.pop()` leaves, and what it returns.
abbrev pub init : List String → List String
init [] = []
init (w ∷ []) = []
init (w ∷ v ∷ ws) = w ∷ init (v ∷ ws)

abbrev pub last_or_empty : List String → String
last_or_empty [] = ""
last_or_empty (w ∷ []) = w
last_or_empty (w ∷ v ∷ ws) = last_or_empty (v ∷ ws)

pub init-append :
    (ws : List String) (v : String) (vs : List String) → init (ws ++ v ∷ vs) ≡ ws ++ init (v ∷ vs)
init-append [] v vs = refl
init-append (w ∷ []) v vs = refl
init-append (w ∷ u ∷ ws) v vs = ap (λ z. w ∷ z) (init-append (u ∷ ws) v vs)

pub last_or_empty-append :
    (ws : List String) (v : String) (vs : List String)
    → last_or_empty (ws ++ v ∷ vs) ≡ last_or_empty (v ∷ vs)
last_or_empty-append [] v vs = refl
last_or_empty-append (w ∷ []) v vs = refl
last_or_empty-append (w ∷ u ∷ ws) v vs = last_or_empty-append (u ∷ ws) v vs

pub split-cons : (n : ℕ) (s : String) → (w : String) × (ws : List String) × (split n s ≡ w ∷ ws)
unfolding split
split-cons n String.[] = ("", [], refl)
split-cons n (String.◌∷◌ c s) = elim (Bool-cases (is_char n c)) [
  | inl here ↦ ("", split n s, rw here)
  | inr away ↦ let (w, ws, e) = split-cons n s in (String.◌∷◌ c w, ws, rw (away, e))
]

-- A character that is no separator joins the first line of what follows.
split-append_away :
    (n : ℕ) (c : Char) (t w : String) (ws : List String)
    → is_char n c ≡ false
    → prepend c (init (w ∷ ws) ++ split n (last_or_empty (w ∷ ws) +++ t))
      ≡ init (prepend c (w ∷ ws)) ++ split n (last_or_empty (prepend c (w ∷ ws)) +++ t)
unfolding split
split-append_away n c t w [] away = rw (cons-append, away)
split-append_away n c t w (v ∷ vs) away = refl

-- A text can be cut anywhere: the lines that are complete in the first part, then those of the rest
-- behind its last line.
pub split-append :
    (n : ℕ) (s t : String)
    → split n (s +++ t) ≡ init (split n s) ++ split n (last_or_empty (split n s) +++ t)
unfolding split
split-append n String.[] t = refl
split-append n (String.◌∷◌ c s) t = elim (Bool-cases (is_char n c)) [
  | inl here ↦ let (w, ws, e) = split-cons n s in rw (cons-append, here, split-append n s t, e)
  | inr away ↦
      let (w, ws, e) = split-cons n s in
      rw (cons-append, away, split-append n s t, e) (split-append_away n c t w ws away)
]

-- A text without the separator is one part.
pub split-lacks : (n : ℕ) (s : String) → lacks n s ≡ true → split n s ≡ s ∷ []
unfolding split
split-lacks n String.[] h = refl
split-lacks n (String.◌∷◌ c s) h =
    let away : is_char n c ≡ false = ground arith in
    let rest : lacks n s ≡ true = ground arith in rw (away, split-lacks n s rest)

-- Behind a text without the separator, the separator begins the next part.
pub split_next :
    (n : ℕ) (c : Char) (s t : String)
    → lacks n s ≡ true
    → is_char n c ≡ true
    → split n (s +++ String.◌∷◌ c t) ≡ s ∷ split n t
unfolding split
split_next n c String.[] t h k = rw (nil-append, k)
split_next n c (String.◌∷◌ d s) t h k =
    let away : is_char n d ≡ false = ground arith in
    let rest : lacks n s ≡ true = ground arith in rw (cons-append, away, split_next n c s t rest k)

abbrev pub all_lack : ℕ → List String → Bool
all_lack n [] = true
all_lack n (w ∷ ws) = lacks n w && all_lack n ws

-- What is joined by the separator is read back: `ws.join(c).split(c)` is `ws`.
pub split-join :
    (n : ℕ) (c : Char) (w : String) (ws : List String)
    → is_char n c ≡ true
    → all_lack n (w ∷ ws) ≡ true
    → split n (join (unit_text c) (w ∷ ws)) ≡ w ∷ ws
unfolding join
split-join n c w [] k h = split-lacks n w (ground arith)
split-join n c w (v ∷ ws) k h =
    let here : lacks n w ≡ true = ground arith in
    let rest = split-join n c v ws k (ground arith) in
    rw (cons-append, nil-append, split_next n c w (join (unit_text c) (v ∷ ws)) here k)
      (ap (λ z. w ∷ z) rest)
