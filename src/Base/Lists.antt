-- ===== src/Base/Lists.antt =====
-- Lists measured and indexed by native numbers, under the library's names, and the array methods
-- `find`, `filter`, `some` and `slice` of the source with a Boolean test.
use Prim.Native.Nat.{ℕ, zero, suc, ◌+◌, ◌-◌, ◌≤◌}
use mathlib.Core.Path.{◌≡◌, refl, sym, ◌∙◌, subst, ap}
use mathlib.Core.Logic.{◌⊎◌, ◌↔◌, inl, inr}
use mathlib.Core.Bool.{Bool, true}
use mathlib.Core.List.{List, [], ◌∷◌, ◌++◌, map}
use mathlib.Core.Option.{Option, none, some}
use native.Mathlib.Omega.{arith}
use native.Mathlib.Nat.{zero-add, suc-add}
use noaa_satellite_capture.Base.Tests.{if◌then◌else◌}

module _ {ℓ} {A : Type ℓ} where
  abbrev pub length : List A → ℕ
  length [] = 0
  length (x ∷ xs) = suc (length xs)

  abbrev pub get_elem? : List A → ℕ → Option A
  get_elem? [] i = none
  get_elem? (x ∷ xs) zero = some x
  get_elem? (x ∷ xs) (suc i) = get_elem? xs i

  abbrev pub head? : List A → Option A
  head? [] = none
  head? (x ∷ xs) = some x

  abbrev pub take : ℕ → List A → List A
  take zero xs = []
  take (suc n) [] = []
  take (suc n) (x ∷ xs) = x ∷ take n xs

  abbrev pub drop : ℕ → List A → List A
  drop zero xs = xs
  drop (suc n) [] = []
  drop (suc n) (x ∷ xs) = drop n xs

  pub length-append : (xs ys : List A) → length (xs ++ ys) ≡ length xs + length ys
  length-append [] ys = omega arith
  length-append (x ∷ xs) ys = omega (arith, length-append xs ys)

  pub length-drop : (n : ℕ) (xs : List A) → length (drop n xs) ≡ length xs - n
  length-drop zero xs = omega arith
  length-drop (suc n) [] = omega arith
  length-drop (suc n) (x ∷ xs) = omega (arith, length-drop n xs)

  drop-nil : (n : ℕ) → drop n [] ≡ []
  drop-nil zero = refl
  drop-nil (suc n) = refl

  pub drop-drop : (n m : ℕ) (xs : List A) → drop m (drop n xs) ≡ drop (n + m) xs
  drop-drop zero m xs = rw zero-add
  drop-drop (suc n) m [] = drop-nil m ∙ sym (drop-nil (suc n + m))
  drop-drop (suc n) m (x ∷ xs) = rw suc-add (drop-drop n m xs)

module _ {ℓ} {A : Type ℓ} (p : A → Bool) where
  abbrev pub filter : List A → List A
  filter [] = []
  filter (x ∷ xs) = if p x then x ∷ filter xs else filter xs

  abbrev pub find : List A → Option A
  find [] = none
  find (x ∷ xs) = if p x then some x else find xs

  pub length-filter : (xs : List A) → length (filter xs) ≤ length xs
  length-filter [] = omega arith
  length-filter (x ∷ xs) = ground (arith, length-filter xs)

-- Every entry of a list has a property; with this the tactics read lists as tuples.
module _ {ℓ κ} {A : Type ℓ} (P : A → Type κ) where
  abbrev pub All : List A → Type κ
  All [] = Unit
  All (x ∷ xs) = P x × All xs

  pub All-append : (xs ys : List A) → All xs → All ys → All (xs ++ ys)
  All-append [] ys h k = k
  All-append (x ∷ xs) ys (p, h) k = (p, All-append xs ys h k)

  pub All-filter : (p : A → Bool) (xs : List A) → All xs → All (filter p xs)
  All-filter p [] h = tt
  All-filter p (x ∷ xs) (q, h) = ground (arith, All-filter p xs h)

-- An entry stands in a list, at a place that the derivation shows.
abbrev pub In : {A : Type 0} → A → List A → Type 0
In a [] = ⊥
In a (x ∷ xs) = (x ≡ a) ⊎ In a xs

pub All-In : {A : Type 0} (P : A → Type 0) (xs : List A) {a : A} → All P xs → In a xs → P a
All-In P [] h i = elim i [ ]
All-In P (x ∷ xs) (p, h) (inl e) = subst P e p
All-In P (x ∷ xs) (p, h) (inr i) = All-In P xs h i

pub In-filter_iff :
    {A : Type 0} (p : A → Bool) (xs : List A) (a : A)
    → In a (filter p xs) ↔ (In a xs × (p a ≡ true))
In-filter_iff p [] a = ground arith
In-filter_iff p (x ∷ xs) a = ground (arith, In-filter_iff p xs a, λ (e : x ≡ a). ap p e)

pub In-append : {A : Type 0} (xs ys : List A) (a : A) → In a (xs ++ ys) ↔ (In a xs ⊎ In a ys)
In-append [] ys a = ground arith
In-append (x ∷ xs) ys a = ground (arith, In-append xs ys a)

pub In-map :
    {A B : Type 0} (f : A → B) (xs : List A) (b : B)
    → In b (map f xs)
    → (a : A) × In a xs × (f a ≡ b)
In-map f [] b i = absurd i
In-map f (x ∷ xs) b (inl e) = (x, inl refl, e)
In-map f (x ∷ xs) b (inr i) = let (a, j, e) = In-map f xs b i in (a, inr j, e)

pub In-map_to : {A B : Type 0} (f : A → B) (xs : List A) (a : A) → In a xs → In (f a) (map f xs)
In-map_to f [] a i = absurd i
In-map_to f (x ∷ xs) a (inl e) = inl (ap f e)
In-map_to f (x ∷ xs) a (inr i) = inr (In-map_to f xs a i)
