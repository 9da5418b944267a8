-- ===== src/Fft/Notch/Effect.antt =====
-- What the notch filters of src/backend/capture/fft-stream.ts do to a frame.
use noaa_satellite_capture.Base.{
  ℕ, zero, suc, ◌+◌, ◌<◌, ◌≡◌, refl, ap, ◌∙◌, ◌⊎◌, inl, inr, Bool, true, false, some, List, [], ◌∷◌,
  arith, zero-add, if◌then◌else◌, Bool-cases, Option-cases, length, get_elem?, filter, ℤ,
}
use noaa_satellite_capture.Fft.{FftData, NotchFilter}
use noaa_satellite_capture.Fft.Notch.Beside.{
  IsOver, in_notch-IsOver, IsOver-in_notch, IsMeanBeside, notch_value-IsMeanBeside,
}
use noaa_satellite_capture.Fft.Notch.{
  Grid, in_notch, notch_value, notch_bins, notch_all, extremes, apply_notch_filters,
}

module _ (mean : ℤ → ℤ → ℤ) (g : Grid) where
  length-notch_bins :
      (f : NotchFilter) (bins : List ℤ) (i : ℕ) (filtered : List ℤ)
      → length (notch_bins mean g f bins i filtered) ≡ length filtered
  unfolding notch_bins
  length-notch_bins f bins i [] = refl
  length-notch_bins f bins i (b ∷ filtered) = ap suc (length-notch_bins f bins (i + 1) filtered)

  length-notch_all :
      (fs : List NotchFilter) (bins filtered : List ℤ)
      → length (notch_all mean g fs bins filtered) ≡ length filtered
  unfolding notch_all
  length-notch_all [] bins filtered = refl
  length-notch_all (f ∷ fs) bins filtered =
      length-notch_all fs bins (notch_bins mean g f bins 0 filtered)
      ∙ length-notch_bins f bins 0 filtered

  shift : (i j : ℕ) → i + 1 + j ≡ i + suc j
  shift i j = omega arith

  notch_bins-get_elem? :
      (f : NotchFilter) (bins : List ℤ) (i : ℕ) (filtered : List ℤ) (j : ℕ) (b : ℤ)
      → get_elem? filtered j ≡ some b
      → get_elem? (notch_bins mean g f bins i filtered) j
        ≡ some (if in_notch g f (i + j) then notch_value mean g f bins else b)
  unfolding notch_bins
  notch_bins-get_elem? f bins i [] j b e = cc
  notch_bins-get_elem? f bins i (x ∷ xs) zero b e = ground arith
  notch_bins-get_elem? f bins i (x ∷ xs) (suc j) b e =
      notch_bins-get_elem? f bins (i + 1) xs j b e
      ∙ ap (λ (k : ℕ). some (if in_notch g f k then notch_value mean g f bins else b)) (shift i j)

  -- The value that the last filter over bin `i` gives it, or `b` if there is none.
  unfoldable pub notched : List NotchFilter → List ℤ → ℕ → ℤ → ℤ
  notched [] bins i b = b
  notched (f ∷ fs) bins i b =
      notched fs bins i (if in_notch g f i then notch_value mean g f bins else b)

  notch_all-get_elem? :
      (fs : List NotchFilter) (bins filtered : List ℤ) (i : ℕ) (b : ℤ)
      → get_elem? filtered i ≡ some b
      → get_elem? (notch_all mean g fs bins filtered) i ≡ some (notched fs bins i b)
  unfolding notch_all notched
  notch_all-get_elem? [] bins filtered i b e = e
  notch_all-get_elem? (f ∷ fs) bins filtered i b e =
      notch_all-get_elem? fs bins (notch_bins mean g f bins 0 filtered) i _ (
        notch_bins-get_elem? f bins 0 filtered i b e
        ∙ ap (λ (k : ℕ). some (if in_notch g f k then notch_value mean g f bins else b))
            (zero-add i))

  abbrev enabled_of : List NotchFilter → List NotchFilter
  enabled_of = filter (λ (f : NotchFilter). f.enabled)

  -- No enabled notch of the list covers the bin.
  abbrev pub IsFree : List NotchFilter → ℕ → Type 0
  IsFree [] i = Unit
  IsFree (f ∷ fs) i = (f.enabled ≡ true → ¬ IsOver g f i) × IsFree fs i

  -- The last enabled notch of the list that covers the bin is `f`.
  abbrev pub IsLastOver : NotchFilter → List NotchFilter → ℕ → Type 0
  IsLastOver f [] i = ⊥
  IsLastOver f (h ∷ fs) i =
      IsLastOver f fs i ⊎ ((h ≡ f) × (f.enabled ≡ true) × IsOver g f i × IsFree fs i)

  IsLastOver-IsOver :
      (f : NotchFilter) (fs : List NotchFilter) (i : ℕ) → IsLastOver f fs i → IsOver g f i
  IsLastOver-IsOver f [] i h = absurd h
  IsLastOver-IsOver f (e ∷ fs) i (inl later) = IsLastOver-IsOver f fs i later
  IsLastOver-IsOver f (e ∷ fs) i (inr (same, on, over, free)) = over

  uncovered : (f : NotchFilter) (i : ℕ) → (¬ IsOver g f i) → in_notch g f i ≡ false
  uncovered f i n = elim (Bool-cases (in_notch g f i)) [
    | inl yes_ ↦ absurd (n (in_notch-IsOver g f i yes_))
    | inr no_ ↦ no_
  ]

  -- An enabled notch at the head of the list, and a disabled one.
  notched_enabled :
      (f : NotchFilter) (fs : List NotchFilter) (bins : List ℤ) (i : ℕ) (b : ℤ) (over : Bool)
      → f.enabled ≡ true
      → in_notch g f i ≡ over
      → notched (enabled_of (f ∷ fs)) bins i b
        ≡ notched (enabled_of fs) bins i (if over then notch_value mean g f bins else b)
  unfolding notched
  notched_enabled f fs bins i b over on e =
      ap (λ (c : Bool). notched (if c then f ∷ enabled_of fs else enabled_of fs) bins i b) on
      ∙ ap
          (λ (c : Bool).
            notched (enabled_of fs) bins i (if c then notch_value mean g f bins else b))
          e

  notched_disabled :
      (f : NotchFilter) (fs : List NotchFilter) (bins : List ℤ) (i : ℕ) (b : ℤ)
      → f.enabled ≡ false
      → notched (enabled_of (f ∷ fs)) bins i b ≡ notched (enabled_of fs) bins i b
  notched_disabled f fs bins i b off =
      ap (λ (c : Bool). notched (if c then f ∷ enabled_of fs else enabled_of fs) bins i b) off

  notched-IsFree :
      (fs : List NotchFilter) (bins : List ℤ) (i : ℕ) (b : ℤ)
      → IsFree fs i
      → notched (enabled_of fs) bins i b ≡ b
  notched-IsFree [] bins i b h = unfold notched in refl
  notched-IsFree (f ∷ fs) bins i b (h, k) = elim (Bool-cases f.enabled) [
    | inl on ↦
        notched_enabled f fs bins i b false on (uncovered f i (h on)) ∙ notched-IsFree fs bins i b k
    | inr off ↦ notched_disabled f fs bins i b off ∙ notched-IsFree fs bins i b k
  ]

  notched-IsLastOver :
      (f : NotchFilter) (fs : List NotchFilter) (bins : List ℤ) (i : ℕ) (b : ℤ)
      → IsLastOver f fs i
      → notched (enabled_of fs) bins i b ≡ notch_value mean g f bins
  notched-IsLastOver f [] bins i b h = absurd h
  notched-IsLastOver f (e ∷ fs) bins i b (inl later) = elim (Bool-cases e.enabled) [
    | inl on ↦
        notched_enabled e fs bins i b (in_notch g e i) on refl
        ∙ notched-IsLastOver f fs bins i _ later
    | inr off ↦ notched_disabled e fs bins i b off ∙ notched-IsLastOver f fs bins i b later
  ]
  notched-IsLastOver f (e ∷ fs) bins i b (inr (same, on, over, free)) =
      let enabled : e.enabled ≡ true = ap (λ (n : NotchFilter). n.enabled) same ∙ on in
      let covered : in_notch g e i ≡ true =
        ap (λ (n : NotchFilter). in_notch g n i) same ∙ IsOver-in_notch g f i over in
      notched_enabled e fs bins i b true enabled covered
      ∙ notched-IsFree fs bins i _ free
      ∙ ap (λ (n : NotchFilter). notch_value mean g n bins) same

  filtered_bins :
      (fs : List NotchFilter) (d : FftData) (i : ℕ) (b : ℤ)
      → get_elem? d.bins i ≡ some b
      → get_elem? (apply_notch_filters mean fs g d).bins i
        ≡ some (notched (enabled_of fs) d.bins i b)
  unfolding apply_notch_filters notched
  filtered_bins [] d i b h = h
  filtered_bins (f ∷ fs) d i b h =
      let enabled = enabled_of (f ∷ fs) in
      let bin = notch_all-get_elem? enabled d.bins d.bins i b h in
      elim (Option-cases (extremes mean (notch_all mean g enabled d.bins d.bins))) [
        | inl nothing ↦ ground arith
        | inr (pair, found) ↦ ground arith
      ]

  filtered_frame :
      (fs : List NotchFilter) (d : FftData)
      → let e = apply_notch_filters mean fs g d in
        (length e.bins ≡ length d.bins)
        × (e.timestamp ≡ d.timestamp)
        × (e.center_freq ≡ d.center_freq)
  unfolding apply_notch_filters
  filtered_frame [] d = (refl, refl, refl)
  filtered_frame (f ∷ fs) d =
      let enabled = enabled_of (f ∷ fs) in
      let len = length-notch_all enabled d.bins d.bins in
      elim (Option-cases (extremes mean (notch_all mean g enabled d.bins d.bins))) [
        | inl nothing ↦ ground arith
        | inr (pair, found) ↦ ground arith
      ]

  -- With a positive sample rate, filtering keeps the number of bins, the time and the centre of a
  -- frame. A bin that no enabled notch covers keeps its power. A bin that is covered gets the mean
  -- of two powers that the frame had before any filter: that of the bin two before the start of the
  -- last enabled notch over it, or of the first bin, and that of the bin two after its end, or of
  -- the last bin.
  pub apply_notch_filters_lem :
      (fs : List NotchFilter) (d : FftData) (i : ℕ) (b : ℤ)
      → 0 < g.rate
      → get_elem? d.bins i ≡ some b
      → let e = apply_notch_filters mean fs g d in
        (length e.bins ≡ length d.bins)
        × (e.timestamp ≡ d.timestamp)
        × (e.center_freq ≡ d.center_freq)
        × (IsFree fs i → get_elem? e.bins i ≡ some b)
        × ((f : NotchFilter)
            → IsLastOver f fs i
            → (v : ℤ) × (get_elem? e.bins i ≡ some v) × IsMeanBeside g mean f d.bins v)
  apply_notch_filters_lem fs d i b h k =
      let (len, time, centre) = filtered_frame fs d in
      let bin = filtered_bins fs d i b k in
      (
        len,
        time,
        centre,
        λ free. bin ∙ ap some (notched-IsFree fs d.bins i b free),
        λ f last. (
          notch_value mean g f d.bins,
          bin ∙ ap some (notched-IsLastOver f fs d.bins i b last),
          notch_value-IsMeanBeside g mean f d.bins i b h k (IsLastOver-IsOver f fs i last),
        ),
      )
