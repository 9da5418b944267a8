-- ===== src/Fft/Notch/Beside.antt =====
-- Where the notch filters of src/backend/capture/fft-stream.ts take their powers from.
use native.Mathlib.Omega.{mod_cases}
use noaa_satellite_capture.Base.{
  ℕ, zero, suc, ◌+◌, ◌-◌, ◌*◌, ◌/◌, ◌≤◌, ◌<◌, ◌≡◌, refl, ap, subst, ◌⊎◌, inl, inr, true, some, List,
  [], ◌∷◌, arith, div_any, dec_lt, mul-le-mul_left, leb, min_of, Bool-cases, length, get_elem?, ℤ,
}
use noaa_satellite_capture.Fft.{NotchFilter}
use noaa_satellite_capture.Fft.Notch.{Grid, in_notch, left_idx, right_idx, notch_value}

-- A bin that exists.
pub get_elem?-some : (xs : List ℤ) (i : ℕ) → i < length xs → (x : ℤ) × (get_elem? xs i ≡ some x)
get_elem?-some [] i h = absurd (omega arith)
get_elem?-some (x ∷ xs) zero h = (x, refl)
get_elem?-some (x ∷ xs) (suc i) h = get_elem?-some xs i (omega arith)

pub get_elem?-lt : (xs : List ℤ) (i : ℕ) (x : ℤ) → get_elem? xs i ≡ some x → i < length xs
get_elem?-lt [] i x h = absurd (cc h)
get_elem?-lt (y ∷ ys) zero x h = omega arith
get_elem?-lt (y ∷ ys) (suc i) x h = omega (arith, get_elem?-lt ys i x h)

-- A quotient, by its bounds.
quotient_bounds : (a r : ℕ) → 0 < r → (a / r * r ≤ a) × (a < (a / r + 1) * r)
quotient_bounds a r h =
    let whole = div_any a r in
    mod_cases a r ((a / r * r ≤ a) × (a < (a / r + 1) * r)) (λ e k l. absurd (omega (arith, e, h)))
      (λ small le. (omega (arith, whole), omega (arith, whole, small)))

two_before :
    (a r q : ℕ)
    → q * r ≤ a
    → a < (q + 1) * r
    → (a < (q - 2 + 3) * r) × ((q - 2 ≡ 0) ⊎ ((q - 2 + 2) * r ≤ a))
two_before a r zero h k = (omega arith, inl refl)
two_before a r (suc zero) h k = (omega arith, inl refl)
two_before a r (suc (suc q)) h k =
    let e : suc (suc q) - 2 ≡ q = omega arith in
    let n : suc (suc q) ≡ q + 2 = omega arith in
    let low : (q + 2) * r ≤ a = subst (λ z. z * r ≤ a) n h in
    let high : a < (q + 2 + 1) * r = subst (λ z. a < (z + 1) * r) n k in
    rw e (omega (arith, high), inr low)

two_after :
    (a r n : ℕ)
    → 0 < r
    → 0 < n
    → let m = min_of (n - 1) ((a + r - 1) / r + 2) in
      (m * r < a + 3 * r) × ((m + 1 ≡ n) ⊎ (a + 2 * r ≤ m * r))
two_after a r n h k =
    let c = (a + r - 1) / r in
    let (low, high) = quotient_bounds (a + r - 1) r h in
    elim (Bool-cases (leb (n - 1) (c + 2))) [
      | inl clipped ↦
          let least : min_of (n - 1) (c + 2) ≡ n - 1 = ground arith in
          let le : n - 1 ≤ c + 2 = ground arith in
          let scaled : r * (n - 1) ≤ r * (c + 2) = mul-le-mul_left r le in
          rw least (omega arith, inl (omega arith))
      | inr inside ↦
          let least : min_of (n - 1) (c + 2) ≡ c + 2 = ground arith in
          rw least (omega arith, inr (omega arith))
    ]

quotient_le : (a r i : ℕ) → 0 < r → a ≤ i * r → a / r ≤ i
quotient_le a r i h k = elim (dec_lt i (a / r)) [
  | no le ↦ omega arith
  | yes lt ↦
      let (low, high) = quotient_bounds a r h in
      let scaled : r * (i + 1) ≤ r * (a / r) = mul-le-mul_left r (omega (arith, lt)) in
      absurd (omega arith)
]

scaled_difference : (f a s b : ℕ) → f * s ≤ a * s + b → (f - a) * s ≤ b
scaled_difference f a s b h = elim (dec_lt f a) [
  | yes below ↦ let none_left : f - a ≡ 0 = omega arith in rw none_left (omega arith)
  | no above ↦
      let split : f ≡ a + (f - a) = omega arith in
      let scaled = ap (λ (z : ℕ). z * s) split in omega arith
]

module _ (g : Grid) where
  -- The frequency of bin `i` lies in the notch; both are taken `size` times.
  abbrev pub IsOver : NotchFilter → ℕ → Type 0
  IsOver f i =
      (f.frequency * g.size ≤ (g.start_freq + f.width) * g.size + i * g.rate)
      × (g.start_freq * g.size + i * g.rate ≤ (f.frequency + f.width) * g.size)

  -- The bin `l` stands two bins before the one in which the notch starts, or is the first.
  abbrev pub IsLeftOf : NotchFilter → ℕ → Type 0
  IsLeftOf f l =
      let from = (f.frequency - (f.width + g.start_freq)) * g.size in
      (from < (l + 3) * g.rate) × ((l ≡ 0) ⊎ ((l + 2) * g.rate ≤ from))

  -- The bin `r` stands two bins after the first one that the notch does not reach past, or is the
  -- last.
  abbrev pub IsRightOf : NotchFilter → ℕ → ℕ → Type 0
  IsRightOf f count r =
      let to = (f.frequency + f.width - g.start_freq) * g.size in
      (r * g.rate < to + 3 * g.rate) × ((r + 1 ≡ count) ⊎ (to + 2 * g.rate ≤ r * g.rate))

  pub in_notch-IsOver : (f : NotchFilter) (i : ℕ) → in_notch g f i ≡ true → IsOver f i
  unfolding in_notch
  in_notch-IsOver f i h = (ground arith, ground arith)

  pub IsOver-in_notch : (f : NotchFilter) (i : ℕ) → IsOver f i → in_notch g f i ≡ true
  unfolding in_notch
  IsOver-in_notch f i (h, k) = ground arith

  left_idx-IsLeftOf : (f : NotchFilter) → 0 < g.rate → IsLeftOf f (left_idx g f)
  unfolding left_idx
  left_idx-IsLeftOf f h =
      let from = (f.frequency - (f.width + g.start_freq)) * g.size in
      let (low, high) = quotient_bounds from g.rate h in
      two_before from g.rate (from / g.rate) low high

  right_idx-IsRightOf :
      (f : NotchFilter) (n : ℕ) → 0 < g.rate → 0 < n → IsRightOf f n (right_idx g f n)
  unfolding right_idx
  right_idx-IsRightOf f n h k =
      two_after ((f.frequency + f.width - g.start_freq) * g.size) g.rate n h k

  left_idx-le : (f : NotchFilter) (i : ℕ) → 0 < g.rate → IsOver f i → left_idx g f ≤ i
  unfolding left_idx
  left_idx-le f i h (k, _) =
      let from = (f.frequency - (f.width + g.start_freq)) * g.size in
      let near : from ≤ i * g.rate =
        scaled_difference f.frequency (f.width + g.start_freq) g.size (i * g.rate) (omega arith) in
      let q = quotient_le from g.rate i h near in omega (arith, q)

  right_idx-lt : (f : NotchFilter) (n : ℕ) → 0 < n → right_idx g f n < n
  unfolding right_idx
  right_idx-lt f n h = ground arith

  -- The value that a notch gives to the bins under it: the mean of two powers of the frame, taken
  -- beside the notch.
  abbrev pub IsMeanBeside : (ℤ → ℤ → ℤ) → NotchFilter → List ℤ → ℤ → Type 0
  IsMeanBeside mean f bins v =
      (l : ℕ) × (r : ℕ) × (x : ℤ) × (y : ℤ) × IsLeftOf f l
      × IsRightOf f (length bins) r
      × (get_elem? bins l ≡ some x)
      × (get_elem? bins r ≡ some y)
      × (v ≡ mean x y)

  pub notch_value-IsMeanBeside :
      (mean : ℤ → ℤ → ℤ) (f : NotchFilter) (bins : List ℤ) (i : ℕ) (b : ℤ)
      → 0 < g.rate
      → get_elem? bins i ≡ some b
      → IsOver f i
      → IsMeanBeside mean f bins (notch_value mean g f bins)
  unfolding notch_value
  notch_value-IsMeanBeside mean f bins i b h e over =
      let inside = get_elem?-lt bins i b e in
      let some_bins : 0 < length bins = omega (arith, inside) in
      let before = left_idx-le f i h over in
      let after = right_idx-lt f (length bins) some_bins in
      let (x, left) = get_elem?-some bins (left_idx g f) (omega (arith, before, inside)) in
      let (y, right) = get_elem?-some bins (right_idx g f (length bins)) after in
      (
        left_idx g f,
        right_idx g f (length bins),
        x,
        y,
        left_idx-IsLeftOf f h,
        right_idx-IsRightOf f (length bins) h some_bins,
        left,
        right,
        rw (left, right) refl,
      )
