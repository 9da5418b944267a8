-- ===== src/AutoGain/Median.antt =====
-- The noise floor of src/middleware/web/auto-gain.ts is the median of the frame.
use noaa_satellite_capture.Base.{
  ℕ, zero, suc, ◌+◌, ◌*◌, ◌/◌, ◌≤◌, ◌<◌, ◌≡◌, refl, sym, subst, ◌∙◌, inl, inr, Bool, true, some,
  List, [], ◌∷◌, arith, if◌then◌else◌, Bool-cases, length, get_elem?, All, ℤ, neg, ◌≤ℤ◌, leb_ℤ,
}
use noaa_satellite_capture.AutoGain.{insert, sort, median}

abbrev pub IsSorted : List ℤ → Type 0
IsSorted [] = Unit
IsSorted (x ∷ xs) = All (λ y. x ≤ℤ y) xs × IsSorted xs

All-le_trans : (x y : ℤ) (xs : List ℤ) → x ≤ℤ y → All (λ z. y ≤ℤ z) xs → All (λ z. x ≤ℤ z) xs
All-le_trans x y [] h k = tt
All-le_trans x y (z ∷ xs) h (k, ks) = (omega arith, All-le_trans x y xs h ks)

All-insert : (P : ℤ → Type 0) (x : ℤ) (xs : List ℤ) → P x → All P xs → All P (insert x xs)
unfolding insert
All-insert P x [] p h = (p, tt)
All-insert P x (y ∷ ys) p (q, h) = ground (arith, All-insert P x ys p h)

insert-IsSorted : (x : ℤ) (xs : List ℤ) → IsSorted xs → IsSorted (insert x xs)
unfolding insert
insert-IsSorted x [] h = (tt, tt)
insert-IsSorted x (y ∷ ys) (k, h) = elim (Bool-cases (leb_ℤ x y)) [
  | inl le ↦ rw le ((ground arith, All-le_trans x y ys (ground arith) k), (k, h))
  | inr gt ↦ rw gt (All-insert (λ z. y ≤ℤ z) x ys (ground arith) k, insert-IsSorted x ys h)
]

sort-IsSorted : (xs : List ℤ) → IsSorted (sort xs)
unfolding sort
sort-IsSorted [] = tt
sort-IsSorted (x ∷ xs) = insert-IsSorted x (sort xs) (sort-IsSorted xs)

-- How many entries pass a test.
abbrev pub count : (ℤ → Bool) → List ℤ → ℕ
count p [] = 0
count p (x ∷ xs) = (if p x then 1 else 0) + count p xs

count-insert : (p : ℤ → Bool) (x : ℤ) (xs : List ℤ) → count p (insert x xs) ≡ count p (x ∷ xs)
unfolding insert
count-insert p x [] = refl
count-insert p x (y ∷ ys) = ground (arith, count-insert p x ys)

count-sort : (p : ℤ → Bool) (xs : List ℤ) → count p (sort xs) ≡ count p xs
unfolding sort
count-sort p [] = refl
count-sort p (x ∷ xs) = omega (arith, count-insert p x (sort xs), count-sort p xs)

length-count : (xs : List ℤ) → length xs ≡ count (λ x. true) xs
length-count [] = refl
length-count (x ∷ xs) = omega (arith, length-count xs)

count-All : (x : ℤ) (xs : List ℤ) → All (λ y. x ≤ℤ y) xs → count (leb_ℤ x) xs ≡ length xs
count-All x [] h = refl
count-All x (y ∷ ys) (p, h) = ground (arith, count-All x ys h)

All-get_elem? :
    (P : ℤ → Type 0) (xs : List ℤ) (i : ℕ) (m : ℤ) → All P xs → get_elem? xs i ≡ some m → P m
All-get_elem? P [] i m h e = cc
All-get_elem? P (x ∷ xs) zero m (p, h) e = subst P (ground arith) p
All-get_elem? P (x ∷ xs) (suc i) m (p, h) e = All-get_elem? P xs i m h e

get_elem?-total : (xs : List ℤ) (i : ℕ) → i < length xs → (m : ℤ) × (get_elem? xs i ≡ some m)
get_elem?-total [] i h = absurd (omega arith)
get_elem?-total (x ∷ xs) zero h = (x, refl)
get_elem?-total (x ∷ xs) (suc i) h = get_elem?-total xs i (omega arith)

-- In a sorted list at least `i + 1` entries are no more than entry `i`, and the others no less.
count-sorted :
    (xs : List ℤ) (i : ℕ) (m : ℤ)
    → IsSorted xs
    → get_elem? xs i ≡ some m
    → (i < count (λ x. leb_ℤ x m) xs) × (length xs ≤ i + count (λ x. leb_ℤ m x) xs)
count-sorted [] i m h e = cc
count-sorted (x ∷ xs) zero m h e =
    let same : x ≡ m = ground arith in
    let all = count-All x xs h.0 in
    subst
      (λ k.
        (0 < count (λ y. leb_ℤ y k) (x ∷ xs))
        × (length (x ∷ xs) ≤ 0 + count (λ y. leb_ℤ k y) (x ∷ xs)))
      same (ground arith, ground arith)
count-sorted (x ∷ xs) (suc i) m h e =
    let ih = count-sorted xs i m h.1 e in
    let le = All-get_elem? (λ y. x ≤ℤ y) xs i m h.0 e in ground arith

length-sort : (xs : List ℤ) → length (sort xs) ≡ length xs
length-sort xs = length-count (sort xs) ∙ count-sort (λ x. true) xs ∙ sym (length-count xs)

median-some :
    (bins : List ℤ) (m : ℤ)
    → get_elem? (sort bins) (length (sort bins) / 2) ≡ some m
    → median bins ≡ m
unfolding median
median-some bins m e = ground arith

-- The median of a frame that is not empty is a power that at least half of the bins do not exceed,
-- and that does not exceed at least half of them; that of an empty frame is -100 dB.
median_lem :
    (bins : List ℤ)
    → (length bins ≤ 2 * count (λ x. leb_ℤ x (median bins)) bins)
      × (length bins ≤ 2 * count (λ x. leb_ℤ (median bins) x) bins)
      × (bins ≡ [] → median bins ≡ neg 100_000)
median_lem [] = (omega arith, omega arith, λ e. unfold median sort in refl)
median_lem (x ∷ xs) =
    let bins = x ∷ xs in
    let n = length-sort bins in
    let (m, e) = get_elem?-total (sort bins) (length (sort bins) / 2) (omega arith) in
    let (low, high) = count-sorted (sort bins) (length (sort bins) / 2) m (sort-IsSorted bins) e in
    let same : median bins ≡ m = median-some bins m e in
    let below = count-sort (λ y. leb_ℤ y m) bins in
    let above = count-sort (λ y. leb_ℤ m y) bins in
    subst
      (λ k.
        (length bins ≤ 2 * count (λ y. leb_ℤ y k) bins)
        × (length bins ≤ 2 * count (λ y. leb_ℤ k y) bins)
        × (bins ≡ [] → k ≡ neg 100_000))
      (sym same) (omega arith, omega arith, λ e. cc)
