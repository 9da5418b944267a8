-- ===== src/Web/Guard.antt =====
-- The timers of the debounced start of src/middleware/web/server.ts, and the starts that have fired.
use noaa_satellite_capture.Base.{
  ℕ, ◌+◌, ◌<◌, ◌≡◌, refl, sym, subst, ◌≢◌, inl, inr, true, not, Option, none, some, List, [], ◌∷◌,
  arith, ◌==◌, if◌then◌else◌, Bool-cases, filter, All,
}
use noaa_satellite_capture.Web.Stream.{
  clear_start, find_start, is_same_timer, remove_start, is_under_way,
}

-- At most one timer is armed, and it is the one that is pending.
abbrev pub IsSingleStart : Option ℕ → List (ℕ × ℕ) → Type 0
IsSingleStart pending [] = Unit
IsSingleStart pending (e ∷ []) = pending ≡ some e.0
IsSingleStart pending (e ∷ f ∷ timers) = ⊥

-- A start that is under way was fired by a timer, older than the next one, that is armed no more.
abbrev pub IsFired : List (ℕ × ℕ) → ℕ → Option ℕ → Type 0
IsFired timers next none = ⊥
IsFired [] next (some t) = t < next
IsFired (e ∷ timers) next (some t) = (t < next) × (e.0 ≢ t)

-- The pending start, the armed timers, the next number and the starts under way fit together.
pub record IsGuarded (pending : Option ℕ) (timers : List (ℕ × ℕ)) (next : ℕ)
    (under_way : List (Option ℕ)) : Type 0 where
  pub single : IsSingleStart pending timers
  pub young : All (λ (e : ℕ × ℕ). e.0 < next) timers
  pub fired : All (IsFired timers next) under_way

clear_start_all : (p : Option ℕ) (ts : List (ℕ × ℕ)) → IsSingleStart p ts → clear_start p ts ≡ []
clear_start_all none [] h = refl
clear_start_all (some t) [] h = refl
clear_start_all p (e ∷ []) h = rw h (ground arith)
clear_start_all p (e ∷ f ∷ ts) h = absurd h

IsFired-below : (ts : List (ℕ × ℕ)) (n t : ℕ) → IsFired ts n (some t) → t < n
IsFired-below [] n t h = h
IsFired-below (e ∷ ts) n t (h, k) = h

IsFired-arm :
    (ts : List (ℕ × ℕ)) (n f : ℕ) (u : List (Option ℕ))
    → All (IsFired ts n) u
    → All (IsFired ((n, f) ∷ []) (n + 1)) u
IsFired-arm ts n f [] h = tt
IsFired-arm ts n f (none ∷ u) (a, h) = absurd a
IsFired-arm ts n f (some t ∷ u) (a, h) =
    let below = IsFired-below ts n t a in
    ((omega (arith, below), λ e. omega (arith, below, e)), IsFired-arm ts n f u h)

IsFired-later :
    (ts : List (ℕ × ℕ)) (n : ℕ) (u : List (Option ℕ))
    → All (IsFired ts n) u
    → All (IsFired ts (n + 1)) u
IsFired-later ts n [] h = tt
IsFired-later ts n (none ∷ u) (a, h) = absurd a
IsFired-later [] n (some t ∷ u) (a, h) = (omega arith, IsFired-later [] n u h)
IsFired-later (e ∷ ts) n (some t ∷ u) ((a, b), h) = ((omega arith, b), IsFired-later (e ∷ ts) n u h)

IsFired-none :
    (ts : List (ℕ × ℕ)) (n : ℕ) (u : List (Option ℕ)) → All (IsFired ts n) u → All (IsFired [] n) u
IsFired-none ts n [] h = tt
IsFired-none ts n (none ∷ u) (a, h) = absurd a
IsFired-none ts n (some t ∷ u) (a, h) = (IsFired-below ts n t a, IsFired-none ts n u h)

young_later :
    (ts : List (ℕ × ℕ)) (n : ℕ)
    → All (λ (e : ℕ × ℕ). e.0 < n) ts
    → All (λ (e : ℕ × ℕ). e.0 < n + 1) ts
young_later [] n h = tt
young_later (e ∷ ts) n (a, h) = (omega arith, young_later ts n h)

IsFired-rest :
    (ts : List (ℕ × ℕ)) (n : ℕ) (x : Option ℕ) (u : List (Option ℕ))
    → All (IsFired ts n) u
    → All (IsFired ts n) (remove_start x u)
IsFired-rest ts n x [] h = tt
IsFired-rest ts n x (t ∷ u) (a, h) = ground (arith, IsFired-rest ts n x u h)

is_same_timer-eq : (p x : Option ℕ) → is_same_timer p x ≡ true → p ≡ x
is_same_timer-eq none none h = refl
is_same_timer-eq none (some u) h = absurd (cc h)
is_same_timer-eq (some t) none h = absurd (cc h)
is_same_timer-eq (some t) (some u) h = ground arith

IsFired-of :
    (ts : List (ℕ × ℕ)) (n : ℕ) (x : Option ℕ) (u : List (Option ℕ))
    → All (IsFired ts n) u
    → is_under_way x u ≡ true
    → IsFired ts n x
IsFired-of ts n x [] h k = absurd (cc k)
IsFired-of ts n x (t ∷ u) (a, h) k = elim (Bool-cases (is_same_timer t x)) [
  | inl same ↦ subst (IsFired ts n) (is_same_timer-eq t x same) a
  | inr other ↦ IsFired-of ts n x u h (ground arith)
]

-- A new timer is armed, and the pending one is cleared.
pub arm-IsGuarded :
    (p : Option ℕ) (ts : List (ℕ × ℕ)) (n f : ℕ) (u : List (Option ℕ))
    → IsGuarded p ts n u
    → IsGuarded (some n) ((n, f) ∷ clear_start p ts) (n + 1) u
arm-IsGuarded p ts n f u g =
    rw (clear_start_all p ts g.single)
      (record { single = refl; young = (omega arith, tt); fired = IsFired-arm ts n f u g.fired })

-- A number is taken for another timer.
pub later-IsGuarded :
    (p : Option ℕ) (ts : List (ℕ × ℕ)) (n : ℕ) (u : List (Option ℕ))
    → IsGuarded p ts n u
    → IsGuarded p ts (n + 1) u
later-IsGuarded p ts n u g = record {
  single = g.single;
  young = young_later ts n g.young;
  fired = IsFired-later ts n u g.fired;
}

-- An armed timer fires.
pub fire-IsGuarded :
    (p : Option ℕ) (t f : ℕ) (ts : List (ℕ × ℕ)) (n : ℕ) (u : List (Option ℕ))
    → IsGuarded p ts n u
    → find_start t ts ≡ some f
    → IsGuarded p (filter (λ (e : ℕ × ℕ). not (e.0 == t)) ts) n (p ∷ u)
fire-IsGuarded p t f [] n u g e = absurd (cc e)
fire-IsGuarded p t f (x ∷ y ∷ ts) n u g e = absurd g.single
fire-IsGuarded p t f (x ∷ []) n u g e = elim (Bool-cases (x.0 == t)) [
  | inl same ↦ rw same (record {
    single = tt;
    young = tt;
    fired = (subst (IsFired [] n) (sym g.single) g.young.0, IsFired-none (x ∷ []) n u g.fired);
  })
  | inr other ↦ absurd (ground arith)
]

ended_single :
    (p : Option ℕ) (ts : List (ℕ × ℕ)) (n : ℕ) (x : Option ℕ)
    → IsSingleStart p ts
    → IsFired ts n x
    → IsSingleStart (if is_same_timer p x then none else p) ts
ended_single p [] n x h k = tt
ended_single p (e ∷ f ∷ ts) n x h k = h
ended_single p (e ∷ []) n none h k = absurd k
ended_single p (e ∷ []) n (some t) h (below, differs) =
    elim (Bool-cases (is_same_timer p (some t))) [
      | inl same ↦ let at = is_same_timer-eq p (some t) same in absurd (differs (ground arith))
      | inr other ↦ rw other h
    ]

-- A start that was under way ends.
pub end-IsGuarded :
    (p : Option ℕ) (ts : List (ℕ × ℕ)) (n : ℕ) (x : Option ℕ) (u : List (Option ℕ))
    → IsGuarded p ts n u
    → is_under_way x u ≡ true
    → IsGuarded (if is_same_timer p x then none else p) ts n (remove_start x u)
end-IsGuarded p ts n x u g k = record {
  single = ended_single p ts n x g.single (IsFired-of ts n x u g.fired k);
  young = g.young;
  fired = IsFired-rest ts n x u g.fired;
}
