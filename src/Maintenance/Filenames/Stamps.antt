-- ===== src/Maintenance/Filenames/Stamps.antt =====
-- The text of a time in the names of recordings, as src/backend/utils/fs.ts writes it and
-- src/backend/cli/commands/maintenance.ts reads it.
use noaa_satellite_capture.Base.{
  ℕ, zero, suc, String, ◌≡◌, refl, sym, ap, subst, ◌∙◌, ◌⊎◌, inl, inr, Bool, true, false, ◌&&◌,
  ◌||◌, arith, Bool-cases,
}
use noaa_satellite_capture.Base.Texts.{is_char, is_digit, take_chars}
use noaa_satellite_capture.Maintenance.Filenames.{
  dash_marks, has_form, dashes_to_colons, with_colons,
}
use text.Mathlib.TextEquality.{Char-path}
use Prim.Native.Char.{Char, char, code}

-- A template of digits and colons.
abbrev is_time_part : String → Bool
is_time_part String.[] = true
is_time_part (String.◌∷◌ c t) = (is_char 48 c || is_char 58 c) && is_time_part t

-- A template of digits and dashes, followed by a T and the digits and colons of a time.
abbrev pub IsStampForm : String → Type 0
IsStampForm String.[] = ⊥
IsStampForm (String.◌∷◌ c t) =
    ((is_char 84 c ≡ true) × (t ≡ "00:00:00"))
    ⊎ (((is_char 48 c || is_char 45 c) ≡ true) × IsStampForm t)

-- Dashes for the marks, in the text and in its template.
pub has_form-dash_marks :
    (t s : String) → has_form t s ≡ true → has_form (dash_marks t) (dash_marks s) ≡ true
unfolding has_form
has_form-dash_marks String.[] String.[] h = refl
has_form-dash_marks String.[] (String.◌∷◌ d s) h = absurd (cc h)
has_form-dash_marks (String.◌∷◌ c t) String.[] h = absurd (cc h)
has_form-dash_marks (String.◌∷◌ c t) (String.◌∷◌ d s) h =
    let form = has_form-dash_marks t s (ground arith) in
    elim (Bool-cases (is_char 48 c)) [
      | inl zero_ ↦
          let digit : is_digit d ≡ true = ground arith in
          let plain : (is_char 58 d || is_char 46 d) ≡ false = ground arith in
          let kept : (is_char 58 c || is_char 46 c) ≡ false = ground arith in
          rw (plain, kept, zero_, digit) form
      | inr other ↦ elim (Bool-cases (is_char 58 c || is_char 46 c)) [
        | inl mark ↦
            let same : (is_char 58 d || is_char 46 d) ≡ true = ground arith in rw (mark, same) form
        | inr plain ↦
            let kept : (is_char 58 d || is_char 46 d) ≡ false = ground arith in
            let equal : is_char (code c) d ≡ true = ground arith in
            rw (plain, kept, other, equal) form
      ]
    ]

-- The digits and colons of a time: dashes for the colons, and colons again.
dashes_to_colons-dash_marks :
    (t s : String)
    → is_time_part t ≡ true
    → has_form t s ≡ true
    → dashes_to_colons (dash_marks s) ≡ s
unfolding has_form dashes_to_colons
dashes_to_colons-dash_marks String.[] String.[] p h = refl
dashes_to_colons-dash_marks String.[] (String.◌∷◌ d s) p h = absurd (cc h)
dashes_to_colons-dash_marks (String.◌∷◌ c t) String.[] p h = absurd (cc h)
dashes_to_colons-dash_marks (String.◌∷◌ c t) (String.◌∷◌ d s) p h =
    let back = dashes_to_colons-dash_marks t s (ground arith) (ground arith) in
    elim (Bool-cases (is_char 48 c)) [
      | inl zero_ ↦
          let digit : is_digit d ≡ true = ground arith in
          let plain : (is_char 58 d || is_char 46 d) ≡ false = ground arith in
          let no_dash : is_char 45 d ≡ false = ground arith in
          rw (plain, no_dash) (ap (String.◌∷◌ d) back)
      | inr colon_ ↦
          let same : is_char 58 d ≡ true = ground arith in
          let code_d : code d ≡ 58 = ground arith in
          let is_colon : d ≡ char 58 tt = Char-path d (char 58 tt) code_d in
          rw same
            (ap (String.◌∷◌ (char 58 tt)) back ∙ ap (λ (e : Char). String.◌∷◌ e s) (sym is_colon))
    ]

-- The date and the time: dashes for the colons, and colons again after the T.
pub with_colons-dash_marks :
    (t s : String) → IsStampForm t → has_form t s ≡ true → with_colons (dash_marks s) ≡ s
unfolding has_form with_colons
with_colons-dash_marks String.[] s p h = absurd p
with_colons-dash_marks (String.◌∷◌ c t) String.[] p h = absurd (cc h)
with_colons-dash_marks (String.◌∷◌ c t) (String.◌∷◌ d s) (inl (mark, time)) h =
    let rest : has_form t s ≡ true = ground arith in
    let form : has_form "00:00:00" s ≡ true = subst (λ z. has_form z s ≡ true) time rest in
    let dashed = has_form-dash_marks "00:00:00" s form in
    let back = dashes_to_colons-dash_marks "00:00:00" s refl form in
    let is_t : is_char 84 d ≡ true = ground arith in
    let plain : (is_char 58 d || is_char 46 d) ≡ false = ground arith in
    rw (plain, is_t, dashed) (ap (String.◌∷◌ d) back)
with_colons-dash_marks (String.◌∷◌ c t) (String.◌∷◌ d s) (inr (part, later)) h =
    let back = with_colons-dash_marks t s later (ground arith) in
    let plain : (is_char 58 d || is_char 46 d) ≡ false = ground arith in
    let no_t : is_char 84 d ≡ false = ground arith in rw (plain, no_t) (ap (String.◌∷◌ d) back)

pub take_chars-dash_marks :
    (n : ℕ) (s : String) → take_chars n (dash_marks s) ≡ dash_marks (take_chars n s)
take_chars-dash_marks zero s = refl
take_chars-dash_marks (suc n) String.[] = refl
take_chars-dash_marks (suc n) (String.◌∷◌ c s) = elim (Bool-cases (is_char 58 c || is_char 46 c)) [
  | inl mark ↦ rw mark (ap (String.◌∷◌ (char 45 tt)) (take_chars-dash_marks n s))
  | inr plain ↦ rw plain (ap (String.◌∷◌ c) (take_chars-dash_marks n s))
]

-- The time of `toISOString` up to its seconds.
abbrev pub iso_form : String
iso_form = "0000-00-00T00:00:00"

pub iso_form-IsStampForm : IsStampForm iso_form
iso_form-IsStampForm = inr (
  refl,
  inr (
    refl,
    inr (
      refl,
      inr (
        refl,
        inr (refl, inr (refl, inr (refl, inr (refl, inr (refl, inr (refl, inl (refl, refl))))))),
      ),
    ),
  ),
)
