-- ===== src/Events/Laws.antt =====
-- What src/backend/satellites/events.ts keeps and answers.
use noaa_satellite_capture.Base.{
  ℕ, ◌≤◌, String, ◌≡◌, subst, ◌↔◌, inl, inr, Bool, true, false, not, none, some, List, [], ◌∷◌,
  ◌++◌, Perm, arith, str_eq, Bool-cases, Option-cases, find, In, All-In, IsSorted, sort_by-IsSorted,
  sort_by-perm, IsSorted-filter,
}
use noaa_satellite_capture.Types.{SstvEvent}
use noaa_satellite_capture.Events.{
  Events, initial_events, set_manual_sstv_enabled, set_ground_sstv_scan_enabled, add_event,
  remove_event, clear_events, is_on, get_active_event,
}

pub data Call : Type 0 where
  adds : SstvEvent → Call
  removes : String → Call
  clears : Call
  switches_manual : Bool → Call
  switches_ground : Bool → Call

unfoldable pub apply : Call → Events → Events
unfolding add_event remove_event
apply (adds e) s = add_event e s
apply (removes id) s = remove_event id s
apply clears s = clear_events s
apply (switches_manual b) s = set_manual_sstv_enabled b s
apply (switches_ground b) s = set_ground_sstv_scan_enabled b s

unfoldable pub apply_all : List Call → Events → Events
apply_all [] s = s
apply_all (c ∷ cs) s = apply_all cs (apply c s)

-- The events are in the order of their starts, and a scan that may not run is told to stop.
abbrev pub IsOrdered : Events → Type 0
IsOrdered s = IsSorted (λ (e : SstvEvent). e.start_time) s.active_events

apply-IsOrdered : (c : Call) (s : Events) → IsOrdered s → IsOrdered (apply c s)
unfolding apply clear_events set_manual_sstv_enabled set_ground_sstv_scan_enabled
apply-IsOrdered (adds e) s h = sort_by-IsSorted (λ e. e.start_time) (s.active_events ++ e ∷ [])
apply-IsOrdered (removes id) s h =
    IsSorted-filter (λ e. e.start_time) (λ e. not (str_eq e.id id)) s.active_events h
apply-IsOrdered clears s h = tt
apply-IsOrdered (switches_manual b) s h = h
apply-IsOrdered (switches_ground b) s h = h

apply_all-IsOrdered : (cs : List Call) (s : Events) → IsOrdered s → IsOrdered (apply_all cs s)
unfolding apply_all
apply_all-IsOrdered [] s h = h
apply_all-IsOrdered (c ∷ cs) s h = apply_all-IsOrdered cs (apply c s) (apply-IsOrdered c s h)

-- After any calls the events are in the order of their starts.
pub apply_all-initial_events-IsOrdered :
    (cs : List Call) (env : Bool) → IsOrdered (apply_all cs (initial_events env))
apply_all-initial_events-IsOrdered cs env =
    apply_all-IsOrdered cs (initial_events env) (unfold initial_events in tt)

find_first :
    {A : Type 0} (p : A → Bool) (xs : List A) (x : A) → find p xs ≡ some x → (p x ≡ true) × In x xs
find_first p [] x e = absurd (cc e)
find_first p (y ∷ ys) x e = elim (Bool-cases (p y)) [
  | inl yes_ ↦ let same : y ≡ x = ground arith in (subst (λ z. p z ≡ true) same yes_, inl same)
  | inr no_ ↦ let (a, b) = find_first p ys x (ground arith) in (a, inr b)
]

find_earliest :
    (p : SstvEvent → Bool) (xs : List SstvEvent) (x y : SstvEvent)
    → IsSorted (λ (e : SstvEvent). e.start_time) xs
    → find p xs ≡ some x
    → In y xs
    → p y ≡ true
    → x.start_time ≤ y.start_time
find_earliest p [] x y s e i h = absurd i
find_earliest p (z ∷ zs) x y (a, s) e i h = elim (Bool-cases (p z)) [
  | inl here ↦
      let same : z ≡ x = ground arith in
      elim i [
        | inl first ↦ ground arith
        | inr later ↦
            let bound = All-In (λ (w : SstvEvent). z.start_time ≤ w.start_time) zs a later in
            ground arith
      ]
  | inr away ↦ elim i [
    | inl first ↦ absurd (ground arith)
    | inr later ↦ find_earliest p zs x y s (ground arith) later h
  ]
]

find-none :
    {A : Type 0} (p : A → Bool) (xs : List A) (x : A) → find p xs ≡ none → In x xs → p x ≡ false
find-none p [] x e i = absurd i
find-none p (y ∷ ys) x e i = elim (Bool-cases (p y)) [
  | inl here ↦ absurd (ground arith)
  | inr away ↦ elim i [
    | inl first ↦ subst (λ z. p z ≡ false) first away
    | inr later ↦ find-none p ys x (ground arith) later
  ]
]

-- The event is marked active, and the time is between its start and its end.
abbrev pub IsCurrent : ℕ → SstvEvent → Type 0
IsCurrent now e = (e.active ≡ true) × (e.start_time ≤ now) × (now ≤ e.end_time)

is_on-IsCurrent : (now : ℕ) (e : SstvEvent) → is_on now e ≡ true → IsCurrent now e
is_on-IsCurrent now e h = (ground arith, ground arith, ground arith)

IsCurrent-is_on : (now : ℕ) (e : SstvEvent) → IsCurrent now e → is_on now e ≡ true
IsCurrent-is_on now e (a, b, c) = ground arith

-- After any calls: the active event is one of the events, is marked active, and has begun and not
-- ended, and no other that is so starts earlier; there is none just when no event is so.
pub get_active_event_lem :
    (now : ℕ) (cs : List Call) (env : Bool)
    → let s = apply_all cs (initial_events env) in
      ((e : SstvEvent)
        → get_active_event now s ≡ some e
        → In e s.active_events
          × IsCurrent now e
          × ((f : SstvEvent)
              → In f s.active_events
              → IsCurrent now f
              → e.start_time ≤ f.start_time))
      × (get_active_event now s ≡ none
          ↔ ((f : SstvEvent) → In f s.active_events → ¬ IsCurrent now f))
unfolding get_active_event
get_active_event_lem now cs env =
    let s = apply_all cs (initial_events env) in
    let h = apply_all-initial_events-IsOrdered cs env in
    (
      λ e k.
          let (on, there) = find_first (is_on now) s.active_events e k in
          (
            there,
            is_on-IsCurrent now e on,
            λ f i o. find_earliest (is_on now) s.active_events e f h k i (IsCurrent-is_on now f o),
          ),
      (
        λ k f i o.
            let off = find-none (is_on now) s.active_events f k i in
            let on = IsCurrent-is_on now f o in absurd (cc (off, on)),
        λ n. elim (Option-cases (find (is_on now) s.active_events)) [
          | inl nothing ↦ nothing
          | inr (e, k) ↦
              let (on, there) = find_first (is_on now) s.active_events e k in
              absurd (n e there (is_on-IsCurrent now e on))
        ],
      ),
    )

-- An added event joins the others: the list is a permutation of them with it at the end.
pub add_event_lem :
    (e : SstvEvent) (s : Events) → Perm (add_event e s).active_events (s.active_events ++ e ∷ [])
unfolding add_event
add_event_lem e s = sort_by-perm (λ e. e.start_time) (s.active_events ++ e ∷ [])
