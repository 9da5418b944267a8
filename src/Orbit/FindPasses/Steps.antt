-- ===== src/Orbit/FindPasses/Steps.antt =====
-- Each round of the loop of `findPasses` keeps its invariant.
use noaa_satellite_capture.Base.{
  ℕ, ◌+◌, ◌-◌, ◌≤◌, ◌<◌, ◌≡◌, refl, sym, subst, ◌⊎◌, inl, inr, false, none, some, arith, Bool-cases,
  Option-cases, All-append, ◌≤ℤ◌, ◌<ℤ◌, ltb_ℤ, ltb_ℤ→lt, not_ltb_ℤ→le,
}
use noaa_satellite_capture.Types.{SatellitePosition}
use noaa_satellite_capture.Orbit.FindPasses.{
  Search, is_acceptable, begin_pass, follow_pass, end_pass, visit_position, visit,
}
use noaa_satellite_capture.Orbit.FindPasses.Invariant.{
  Walk, IsQuiet, IsTracked, Inv, IsInstant-step, IsInstant-after, IsQuiet-low, IsQuiet-missing,
}
use noaa_satellite_capture.Orbit.FindPasses.Branches.{
  IsChronological-append, All-los_mono, follow_pass-passes, branch_begin, branch_follow, branch_out,
  branch_end,
}
use noaa_satellite_capture.Orbit.FindPasses.Tracking.{
  visit_begin, visit_follow, ended-IsSound, missing-IsTracked,
}

module _ (walk : Walk) where
  open walk use {position_at, sat, start_time, end_time, min_elevation, step}

  visit_end :
      (c : ℕ) (s : Search) (p : SatellitePosition) (a m : ℕ)
      → 0 < step
      → position_at c ≡ some p
      → p.elevation ≤ℤ min_elevation
      → c ≤ end_time
      → Inv walk c s
      → IsTracked walk c s a m
      → Inv walk (c + step) (end_pass sat c a m s)
  unfolding end_pass
  visit_end c s p a m h e set inside v w = elim (Bool-cases (is_acceptable (c - a))) [
    | inl ok ↦ rw ok (record {
      instant = IsInstant-step walk c v.instant;
      sound = All-append _ s.passes _ v.sound (ended-IsSound walk c s p a m e set inside ok w, tt);
      ordered = IsChronological-append s.passes _ v.ordered w.later;
      before =
          All-append _ s.passes _ (All-los_mono s.passes c (c + step) (omega arith) v.before)
            (omega arith, tt);
      phase = inl (refl, IsQuiet-low walk c p e set);
    })
    | inr bad ↦ rw bad (record {
      instant = IsInstant-step walk c v.instant;
      sound = v.sound;
      ordered = v.ordered;
      before = All-los_mono s.passes c (c + step) (omega arith) v.before;
      phase = inl (refl, IsQuiet-low walk c p e set);
    })
  ]

  -- An instant without a position, or at which nothing is to do.
  idle-Inv :
      (c : ℕ) (s : Search)
      → 0 < step
      → Inv walk c s
      → ((s.in_pass ≡ false) × IsQuiet walk (c + step))
        ⊎ ((a : ℕ) × (m : ℕ) × IsTracked walk (c + step) s a m)
      → Inv walk (c + step) s
  idle-Inv c s h v phase = record {
    instant = IsInstant-step walk c v.instant;
    sound = v.sound;
    ordered = v.ordered;
    before = All-los_mono s.passes c (c + step) (omega arith) v.before;
    phase = phase;
  }

  begin-Inv :
      (c : ℕ) (s : Search) (p : SatellitePosition)
      → 0 < step
      → position_at c ≡ some p
      → min_elevation <ℤ p.elevation
      → s.in_pass ≡ false
      → IsQuiet walk c
      → Inv walk c s
      → Inv walk (c + step) (begin_pass c p.elevation s)
  unfolding begin_pass
  begin-Inv c s p h e low out quiet v = record {
    instant = IsInstant-step walk c v.instant;
    sound = v.sound;
    ordered = v.ordered;
    before = All-los_mono s.passes c (c + step) (omega arith) v.before;
    phase =
        inr (c, c, visit_begin walk c s p h e low out quiet (IsInstant-after walk c v.instant) v);
  }

  follow-Inv :
      (c : ℕ) (s : Search) (p : SatellitePosition) (a m : ℕ)
      → 0 < step
      → position_at c ≡ some p
      → min_elevation <ℤ p.elevation
      → Inv walk c s
      → IsTracked walk c s a m
      → Inv walk (c + step) (follow_pass c p.elevation s)
  follow-Inv c s p a m h e low v w =
      let (n, w') = visit_follow walk c s p a m h e low v w in
      let same = follow_pass-passes c p.elevation s in
      record {
        instant = IsInstant-step walk c v.instant;
        sound = rw same v.sound;
        ordered = rw same v.ordered;
        before = rw same (All-los_mono s.passes c (c + step) (omega arith) v.before);
        phase = inr (a, n, w');
      }

  visit_position-Inv :
      (c : ℕ) (s : Search) (p : SatellitePosition)
      → 0 < step
      → position_at c ≡ some p
      → c ≤ end_time
      → Inv walk c s
      → Inv walk (c + step) (visit_position sat min_elevation c p s)
  visit_position-Inv c s p h e inside v = elim (Bool-cases (ltb_ℤ min_elevation p.elevation)) [
    | inl high ↦ elim v.phase [
      | inl (out, quiet) ↦
          subst (Inv walk (c + step)) (sym (branch_begin sat min_elevation c p s high out))
            (begin-Inv c s p h e (ltb_ℤ→lt min_elevation p.elevation high) out quiet v)
      | inr (a, m, w) ↦
          subst (Inv walk (c + step)) (sym (branch_follow sat min_elevation c p s high w.active))
            (follow-Inv c s p a m h e (ltb_ℤ→lt min_elevation p.elevation high) v w)
    ]
    | inr low ↦ elim v.phase [
      | inl (out, quiet) ↦
          subst (Inv walk (c + step)) (sym (branch_out sat min_elevation c p s low out)) (
            idle-Inv c s h v
              (inl (out, IsQuiet-low walk c p e (not_ltb_ℤ→le min_elevation p.elevation low))))
      | inr (a, m, w) ↦
          subst (Inv walk (c + step))
            (sym (branch_end sat min_elevation c p s a m low w.active w.started w.peaked))
            (visit_end c s p a m h e (not_ltb_ℤ→le min_elevation p.elevation low) inside v w)
    ]
  ]

  missing-Inv :
      (c : ℕ) (s : Search) → 0 < step → position_at c ≡ none → Inv walk c s → Inv walk (c + step) s
  missing-Inv c s h missing v = elim v.phase [
    | inl (out, quiet) ↦ idle-Inv c s h v (inl (out, IsQuiet-missing walk c missing))
    | inr (a, m, w) ↦ idle-Inv c s h v (inr (a, m, missing-IsTracked walk c s a m h missing v w))
  ]

  -- Every round of the loop keeps the invariant.
  pub visit-Inv :
      (c : ℕ) (s : Search)
      → 0 < step
      → c ≤ end_time
      → Inv walk c s
      → Inv walk (c + step) (visit sat min_elevation position_at c s)
  unfolding visit
  visit-Inv c s h inside v = elim (Option-cases (position_at c)) [
    | inl missing ↦ rw (missing, visit) (missing-Inv c s h missing v)
    | inr (p, e) ↦ rw (e, visit) (visit_position-Inv c s p h e inside v)
  ]
