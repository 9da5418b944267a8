-- ===== src/Fft/Notch/Laws.antt =====
-- The list of notch filters of src/backend/capture/fft-stream.ts.
use noaa_satellite_capture.Base.{
  ℕ, ◌≡◌, refl, inl, inr, Bool, true, false, Option, none, some, List, [], ◌∷◌, arith, Bool-cases,
  find, All,
}
use noaa_satellite_capture.Fft.{NotchFilter}
use noaa_satellite_capture.Fft.Notch.{
  is_near, add_notch_filter, remove_notch_filter, set_notch_filter_enabled, clear_notch_filters,
}

-- No two filters are near each other.
abbrev pub IsSeparate : List NotchFilter → Type 0
IsSeparate [] = Unit
IsSeparate (f ∷ fs) =
    All (λ (g : NotchFilter). is_near f.frequency g.frequency ≡ false) fs × IsSeparate fs

-- A predicate of a filter that only its frequency decides.
module _ (P : ℕ → Type 0) where
  abbrev AllAt : List NotchFilter → Type 0
  AllAt = All (λ (g : NotchFilter). P g.frequency)

  AllAt-add :
      (frequency width : ℕ) (fs : List NotchFilter)
      → P frequency
      → AllAt fs
      → AllAt (add_notch_filter frequency width fs)
  unfolding add_notch_filter
  AllAt-add frequency width [] p h = (p, tt)
  AllAt-add frequency width (f ∷ fs) p (q, h) = ground (arith, AllAt-add frequency width fs p h)

  AllAt-remove :
      (frequency : ℕ) (fs : List NotchFilter)
      → AllAt fs
      → AllAt (remove_notch_filter frequency fs).0
  unfolding remove_notch_filter
  AllAt-remove frequency [] h = tt
  AllAt-remove frequency (f ∷ fs) (q, h) = ground (arith, AllAt-remove frequency fs h)

  AllAt-set :
      (frequency : ℕ) (b : Bool) (fs : List NotchFilter)
      → AllAt fs
      → AllAt (set_notch_filter_enabled frequency b fs).0
  unfolding set_notch_filter_enabled
  AllAt-set frequency b [] h = tt
  AllAt-set frequency b (f ∷ fs) (q, h) = ground (arith, AllAt-set frequency b fs h)

add-IsSeparate :
    (frequency width : ℕ) (fs : List NotchFilter)
    → IsSeparate fs
    → IsSeparate (add_notch_filter frequency width fs)
unfolding add_notch_filter
add-IsSeparate frequency width [] h = (tt, tt)
add-IsSeparate frequency width (f ∷ fs) (k, h) = elim (Bool-cases (is_near f.frequency frequency)) [
  | inl near ↦ rw near (k, h)
  | inr far ↦ rw far (
    AllAt-add (λ g. is_near f.frequency g ≡ false) frequency width fs far k,
    add-IsSeparate frequency width fs h,
  )
]

remove-IsSeparate :
    (frequency : ℕ) (fs : List NotchFilter)
    → IsSeparate fs
    → IsSeparate (remove_notch_filter frequency fs).0
unfolding remove_notch_filter
remove-IsSeparate frequency [] h = tt
remove-IsSeparate frequency (f ∷ fs) (k, h) = ground (
  arith,
  remove-IsSeparate frequency fs h,
  AllAt-remove (λ g. is_near f.frequency g ≡ false) frequency fs k,
)

set-IsSeparate :
    (frequency : ℕ) (b : Bool) (fs : List NotchFilter)
    → IsSeparate fs
    → IsSeparate (set_notch_filter_enabled frequency b fs).0
unfolding set_notch_filter_enabled
set-IsSeparate frequency b [] h = tt
set-IsSeparate frequency b (f ∷ fs) (k, h) = ground (
  arith,
  set-IsSeparate frequency b fs h,
  AllAt-set (λ g. is_near f.frequency g ≡ false) frequency b fs k,
)

-- A call that changes the filters.
pub data NotchCall : Type 0 where
  adds : ℕ → ℕ → NotchCall
  removes : ℕ → NotchCall
  enables : ℕ → Bool → NotchCall
  clears : NotchCall

unfoldable pub apply : NotchCall → List NotchFilter → List NotchFilter
unfolding clear_notch_filters
apply (adds f w) fs = add_notch_filter f w fs
apply (removes f) fs = (remove_notch_filter f fs).0
apply (enables f b) fs = (set_notch_filter_enabled f b fs).0
apply clears fs = clear_notch_filters fs

unfoldable pub apply_all : List NotchCall → List NotchFilter → List NotchFilter
unfolding apply
apply_all [] fs = fs
apply_all (c ∷ cs) fs = apply_all cs (apply c fs)

apply_all-IsSeparate :
    (cs : List NotchCall) (fs : List NotchFilter) → IsSeparate fs → IsSeparate (apply_all cs fs)
unfolding apply_all
apply_all-IsSeparate [] fs h = h
apply_all-IsSeparate (adds f w ∷ cs) fs h = apply_all-IsSeparate cs _ (add-IsSeparate f w fs h)
apply_all-IsSeparate (removes f ∷ cs) fs h = apply_all-IsSeparate cs _ (remove-IsSeparate f fs h)
apply_all-IsSeparate (enables f b ∷ cs) fs h = apply_all-IsSeparate cs _ (set-IsSeparate f b fs h)
apply_all-IsSeparate (clears ∷ cs) fs h = apply_all-IsSeparate cs [] tt

-- After any calls from the empty list no two filters lie within a kilohertz of each other.
pub apply_all-empty-IsSeparate : (cs : List NotchCall) → IsSeparate (apply_all cs [])
apply_all-empty-IsSeparate cs = apply_all-IsSeparate cs [] tt

abbrev pub near_filter : ℕ → List NotchFilter → Option NotchFilter
near_filter frequency = find (λ f. is_near f.frequency frequency)

-- After an add, the first filter near the frequency is enabled with the width asked for, and
-- stands where the first such filter stood before, or at the frequency if there was none.
find-add_notch_filter :
    (frequency width : ℕ) (fs : List NotchFilter)
    → (g : NotchFilter) × (near_filter frequency (add_notch_filter frequency width fs) ≡ some g)
      × (g.width ≡ width)
      × (g.enabled ≡ true)
      × (near_filter frequency fs ≡ none → g.frequency ≡ frequency)
      × ((f : NotchFilter) → near_filter frequency fs ≡ some f → g.frequency ≡ f.frequency)
unfolding add_notch_filter
find-add_notch_filter frequency width [] = (
  record { frequency = frequency; width = width; enabled = true },
  ground arith,
  refl,
  refl,
  λ e. refl,
  λ f e. cc,
)
find-add_notch_filter frequency width (f ∷ fs) = elim (Bool-cases (is_near f.frequency frequency)) [
  | inl near ↦ (
    record f { width = width; enabled = true },
    ground arith,
    refl,
    refl,
    λ e. ground arith,
    λ g e. ground arith,
  )
  | inr far ↦
      let (g, e, w, b, n, s) = find-add_notch_filter frequency width fs in
      (g, ground arith, w, b, λ e. n (ground arith), λ h e. s h (ground arith))
]
