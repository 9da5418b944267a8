-- ===== src/Base/Sort.antt =====
-- `Array.sort` with the comparator `(a, b) => key(a) - key(b)`: a stable sort, here by insertion.
use Prim.Native.Nat.{ℕ, ◌≤◌}
use mathlib.Core.Logic.{◌↔◌, inl, inr}
use mathlib.Core.Bool.{Bool}
use mathlib.Core.List.{List, [], ◌∷◌}
use mathlib.Core.List.Perm
use mathlib.Core.List.{Perm}
use native.Mathlib.Omega.{arith}
use noaa_satellite_capture.Base.Tests.{leb, if◌then◌else◌, Bool-cases}
use noaa_satellite_capture.Base.Lists.{All, All-filter, filter, In}

module _ {ℓ} {A : Type ℓ} (key : A → ℕ) where
  unfoldable pub insert_by : A → List A → List A
  insert_by x [] = x ∷ []
  insert_by x (y ∷ ys) = if leb (key x) (key y) then x ∷ y ∷ ys else y ∷ insert_by x ys

  unfoldable pub sort_by : List A → List A
  unfolding insert_by
  sort_by [] = []
  sort_by (x ∷ xs) = insert_by x (sort_by xs)

  -- Each entry's key is at most those of the entries after it.
  abbrev pub IsSorted : List A → Type 0
  IsSorted [] = Unit
  IsSorted (x ∷ xs) = All (λ (y : A). key x ≤ key y) xs × IsSorted xs

  All-insert_by :
      (n : ℕ) (x : A) (ys : List A)
      → n ≤ key x
      → All (λ (y : A). n ≤ key y) ys
      → All (λ (y : A). n ≤ key y) (insert_by x ys)
  unfolding insert_by
  All-insert_by n x [] h k = (h, tt)
  All-insert_by n x (y ∷ ys) h (l, k) = elim (Bool-cases (leb (key x) (key y))) [
    | inl le ↦ rw le (h, (l, k))
    | inr gt ↦ rw gt (l, All-insert_by n x ys h k)
  ]

  All-le_lower :
      (m n : ℕ) (ys : List A)
      → m ≤ n
      → All (λ (y : A). n ≤ key y) ys
      → All (λ (y : A). m ≤ key y) ys
  All-le_lower m n [] h k = tt
  All-le_lower m n (y ∷ ys) h (l, k) = (omega arith, All-le_lower m n ys h k)

  pub insert_by-IsSorted : (x : A) (ys : List A) → IsSorted ys → IsSorted (insert_by x ys)
  unfolding insert_by
  insert_by-IsSorted x [] s = (tt, tt)
  insert_by-IsSorted x (y ∷ ys) (a, s) = elim (Bool-cases (leb (key x) (key y))) [
    | inl le ↦
        let below : key x ≤ key y = ground arith in
        rw le ((below, All-le_lower (key x) (key y) ys below a), (a, s))
    | inr gt ↦
        let above : key y ≤ key x = ground arith in
        rw gt (All-insert_by (key y) x ys above a, insert_by-IsSorted x ys s)
  ]

  pub sort_by-IsSorted : (xs : List A) → IsSorted (sort_by xs)
  unfolding sort_by
  sort_by-IsSorted [] = tt
  sort_by-IsSorted (x ∷ xs) = insert_by-IsSorted x (sort_by xs) (sort_by-IsSorted xs)

  insert_by-perm : (x : A) (ys : List A) → Perm (insert_by x ys) (x ∷ ys)
  unfolding insert_by
  insert_by-perm x [] = Perm.refl (x ∷ [])
  insert_by-perm x (y ∷ ys) = elim (Bool-cases (leb (key x) (key y))) [
    | inl le ↦ rw le (Perm.refl (x ∷ y ∷ ys))
    | inr gt ↦ rw gt (Perm.trans (Perm.cons y (insert_by-perm x ys)) (Perm.swap x y ys))
  ]

  pub sort_by-perm : (xs : List A) → Perm (sort_by xs) xs
  unfolding sort_by
  sort_by-perm [] = Perm.refl []
  sort_by-perm (x ∷ xs) = Perm.trans (insert_by-perm x (sort_by xs)) (Perm.cons x (sort_by-perm xs))

  pub IsSorted-filter : (p : A → Bool) (xs : List A) → IsSorted xs → IsSorted (filter p xs)
  IsSorted-filter p [] s = tt
  IsSorted-filter p (x ∷ xs) (a, s) = elim (Bool-cases (p x)) [
    | inl kept ↦ rw kept (All-filter _ p xs a, IsSorted-filter p xs s)
    | inr dropped ↦ rw dropped (IsSorted-filter p xs s)
  ]

module _ {A : Type 0} (key : A → ℕ) where
  In-insert_by : (a x : A) (ys : List A) → In a (insert_by key x ys) ↔ In a (x ∷ ys)
  unfolding insert_by
  In-insert_by a x [] = ground arith
  In-insert_by a x (y ∷ ys) = ground (arith, In-insert_by a x ys)

  pub In-sort_by : (a : A) (xs : List A) → In a (sort_by key xs) ↔ In a xs
  unfolding sort_by
  In-sort_by a [] = ground arith
  In-sort_by a (x ∷ xs) = ground (arith, In-sort_by a xs, In-insert_by a x (sort_by key xs))
