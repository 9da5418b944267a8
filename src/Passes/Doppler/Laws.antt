-- ===== src/Passes/Doppler/Laws.antt =====
-- The bounds of the shifts that src/backend/prediction/doppler.ts returns.
use noaa_satellite_capture.Base.{
  ℕ, ◌+◌, ◌<◌, ◌≡◌, refl, ◌∙◌, ◌⊎◌, inl, inr, Option, none, some, List, [], ◌∷◌, ◌++◌, arith,
  Bool-cases, length, head?, length-append, All, All-append, In, In-append, ℤ, pos, ◌+ℤ◌, ◌≤ℤ◌,
  ltb_ℤ,
}
use noaa_satellite_capture.Types.{SatellitePosition}
use noaa_satellite_capture.Passes.Doppler.{
  Arithmetic, DopplerPoint, raise, lower, or_zero, calculate_radial_velocity, Shifts, push_shift,
  map_shifts, calculate_doppler_shift,
}

-- The shifts lie between the two bounds, and both bounds are shifts of points.
pub record IsTight (base : ℕ) (most least : ℤ) (points : List DopplerPoint) : Type 0 where
  pub all_between :
      All
        (λ (p : DopplerPoint).
          (least ≤ℤ p.shift) × (p.shift ≤ℤ most) × (p.frequency ≡ pos base +ℤ p.shift))
        points
  pub most_reached : (p : DopplerPoint) × In p points × (p.shift ≡ most)
  pub least_reached : (p : DopplerPoint) × In p points × (p.shift ≡ least)

-- The bounds are set as soon as there is a point.
unfoldable pub IsTight? : ℕ → Option ℤ → Option ℤ → List DopplerPoint → Type 0
IsTight? base (some most) (some least) points = IsTight base most least points
IsTight? base none none points = points ≡ []
IsTight? _ _ _ _ = ⊥

All-between_widen :
    (base : ℕ) (most least most₂ least₂ : ℤ) (points : List DopplerPoint)
    → most ≤ℤ most₂
    → least₂ ≤ℤ least
    → All
        (λ (p : DopplerPoint).
          (least ≤ℤ p.shift) × (p.shift ≤ℤ most) × (p.frequency ≡ pos base +ℤ p.shift))
        points
    → All
        (λ (p : DopplerPoint).
          (least₂ ≤ℤ p.shift) × (p.shift ≤ℤ most₂) × (p.frequency ≡ pos base +ℤ p.shift))
        points
All-between_widen base most least most₂ least₂ [] h k a = tt
All-between_widen base most least most₂ least₂ (p ∷ ps) h k ((low, high, f), a) =
    ((omega arith, omega arith, f), All-between_widen base most least most₂ least₂ ps h k a)

IsTight-widen :
    (base : ℕ) (most least most₂ least₂ : ℤ) (points : List DopplerPoint) (p : DopplerPoint)
    → p.frequency ≡ pos base +ℤ p.shift
    → IsTight base most least points
    → (p.shift ≤ℤ most₂) × (most ≤ℤ most₂) × ((p.shift ≡ most₂) ⊎ (most ≡ most₂))
    → (least₂ ≤ℤ p.shift) × (least₂ ≤ℤ least) × ((p.shift ≡ least₂) ⊎ (least ≡ least₂))
    → IsTight base most₂ least₂ (points ++ p ∷ [])
IsTight-widen base most least most₂ least₂ points p f h (high, up, a) (low, down, b) =
    let last : In p (points ++ p ∷ []) = (In-append points (p ∷ []) p).1 (inr (inl refl)) in
    let earlier : (q : DopplerPoint) → In q points → In q (points ++ p ∷ []) =
      λ q i. (In-append points (p ∷ []) q).1 (inl i) in
    let (q, i, top) = h.most_reached in
    let (r, j, bottom) = h.least_reached in
    record {
      all_between =
          All-append
            (λ (z : DopplerPoint).
              (least₂ ≤ℤ z.shift) × (z.shift ≤ℤ most₂) × (z.frequency ≡ pos base +ℤ z.shift))
            points (p ∷ [])
            (All-between_widen base most least most₂ least₂ points up down h.all_between)
            ((low, high, f), tt);
      most_reached = elim a [ inl e ↦ (p, last, e) | inr e ↦ (q, earlier q i, top ∙ e) ];
      least_reached = elim b [ inl e ↦ (p, last, e) | inr e ↦ (r, earlier r j, bottom ∙ e) ];
    }

-- One more point, with the bounds that follow it.
IsTight-snoc :
    (base : ℕ) (most least : Option ℤ) (points : List DopplerPoint) (p : DopplerPoint)
    → p.frequency ≡ pos base +ℤ p.shift
    → IsTight? base most least points
    → IsTight? base (raise most p.shift) (lower least p.shift) (points ++ p ∷ [])
unfolding IsTight?
IsTight-snoc base none none points p f h = rw h (record {
  all_between = ((omega arith, omega arith, f), tt);
  most_reached = (p, inl refl, refl);
  least_reached = (p, inl refl, refl);
})
IsTight-snoc base none (some m) points p f h = absurd h
IsTight-snoc base (some M) none points p f h = absurd h
IsTight-snoc base (some M) (some m) points p f h = elim (Bool-cases (ltb_ℤ M p.shift)) [
  | inl higher ↦ elim (Bool-cases (ltb_ℤ p.shift m)) [
    | inl lower_ ↦
        rw (higher, lower_)
          (IsTight-widen base M m p.shift p.shift points p f h (omega arith, ground arith, inl refl)
            (omega arith, ground arith, inl refl))
    | inr above ↦
        rw (higher, above)
          (IsTight-widen base M m p.shift m points p f h (omega arith, ground arith, inl refl)
            (ground arith, omega arith, inr refl))
  ]
  | inr below ↦ elim (Bool-cases (ltb_ℤ p.shift m)) [
    | inl lower_ ↦
        rw (below, lower_)
          (IsTight-widen base M m M p.shift points p f h (ground arith, omega arith, inr refl)
            (omega arith, ground arith, inl refl))
    | inr above ↦
        rw (below, above)
          (IsTight-widen base M m M m points p f h (ground arith, omega arith, inr refl)
            (ground arith, omega arith, inr refl))
  ]
]

module _ (ar : Arithmetic) (base : ℕ) where
  map_shifts-IsTight :
      (prev : Option SatellitePosition) (positions : List SatellitePosition) (s : Shifts ar)
      → IsTight? base s.max_shift s.min_shift s.points
      → let t = map_shifts ar base prev positions s in
        IsTight? base t.max_shift t.min_shift t.points
        × (length t.points ≡ length s.points + length positions)
  unfolding map_shifts push_shift
  map_shifts-IsTight prev [] s h = (h, omega arith)
  map_shifts-IsTight prev (current ∷ rest) s h =
      let shift = ar.shift_at base (calculate_radial_velocity ar prev current (head? rest)) in
      let point : DopplerPoint = record {
        timestamp = current.timestamp;
        frequency = pos base +ℤ shift;
        shift = shift;
      } in
      let (tight, count) =
        map_shifts-IsTight (some current) rest (push_shift ar base prev current (head? rest) s)
          (IsTight-snoc base s.max_shift s.min_shift s.points point refl h) in
      (tight, omega (arith, count, length-append s.points (point ∷ [])))

  IsTight-or_zero :
      (most least : Option ℤ) (points : List DopplerPoint)
      → 0 < length points
      → IsTight? base most least points
      → IsTight base (or_zero most) (or_zero least) points
  unfolding IsTight?
  IsTight-or_zero none none points h t = absurd (ground arith)
  IsTight-or_zero none (some m) points h t = absurd t
  IsTight-or_zero (some M) none points h t = absurd t
  IsTight-or_zero (some M) (some m) points h t = t

  -- There is one point for each position. Where there is a position, every shift lies between the
  -- two bounds, both bounds are the shifts of points, and each frequency is the base frequency
  -- moved by the shift; without positions both bounds are zero.
  pub calculate_doppler_shift_lem :
      (positions : List SatellitePosition)
      → let d = calculate_doppler_shift ar base positions in
        (length d.points ≡ length positions)
        × (0 < length positions → IsTight base d.max_shift d.min_shift d.points)
        × (positions ≡ [] → (d.max_shift ≡ pos 0) × (d.min_shift ≡ pos 0))
  unfolding calculate_doppler_shift
  calculate_doppler_shift_lem positions =
      let start : Shifts ar = record { points = []; max_shift = none; min_shift = none } in
      let (tight, count) = map_shifts-IsTight none positions start (unfold IsTight? in refl) in
      let end = map_shifts ar base none positions start in
      (
        omega (arith, count),
        λ h. IsTight-or_zero end.max_shift end.min_shift end.points (omega (arith, count, h)) tight,
        λ e. rw e (unfold map_shifts in (refl, refl)),
      )
