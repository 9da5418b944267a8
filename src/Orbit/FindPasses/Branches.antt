-- ===== src/Orbit/FindPasses/Branches.antt =====
-- The branches of the body of the loop of `findPasses`, and the order of the passes it has found.
use noaa_satellite_capture.Base.{
  ℕ, ◌≤◌, ◌<◌, ◌≡◌, true, false, some, List, [], ◌∷◌, ◌++◌, arith, All, All-append, ℤ, ltb_ℤ,
}
use noaa_satellite_capture.Types.{SatelliteInfo, SatellitePosition, SatellitePass}
use noaa_satellite_capture.Orbit.FindPasses.{
  Search, begin_pass, follow_pass, end_pass, leave_pass, visit_position,
}
use noaa_satellite_capture.Orbit.FindPasses.Invariant.{IsChronological}

pub IsChronological-append :
    (ps : List SatellitePass) (q : SatellitePass)
    → IsChronological ps
    → All (λ p. p.los < q.aos) ps
    → IsChronological (ps ++ q ∷ [])
IsChronological-append [] q h k = (tt, tt)
IsChronological-append (p ∷ ps) q (h, hs) (k, ks) =
    (All-append _ ps (q ∷ []) h (k, tt), IsChronological-append ps q hs ks)

pub All-los_mono :
    (ps : List SatellitePass) (b c : ℕ) → b ≤ c → All (λ p. p.los < b) ps → All (λ p. p.los < c) ps
All-los_mono [] b c h k = tt
All-los_mono (p ∷ ps) b c h (k, ks) = (omega arith, All-los_mono ps b c h ks)

pub follow_pass-passes : (c : ℕ) (e : ℤ) (s : Search) → (follow_pass c e s).passes ≡ s.passes
unfolding follow_pass
follow_pass-passes c e s = ground arith

-- The branches of the body of the loop.
module _ (sat : SatelliteInfo) (min_elevation : ℤ) (c : ℕ) (p : SatellitePosition)
    (s : Search) where
  pub branch_begin :
      ltb_ℤ min_elevation p.elevation ≡ true
      → s.in_pass ≡ false
      → visit_position sat min_elevation c p s ≡ begin_pass c p.elevation s
  unfolding visit_position
  branch_begin high out = ground arith

  pub branch_follow :
      ltb_ℤ min_elevation p.elevation ≡ true
      → s.in_pass ≡ true
      → visit_position sat min_elevation c p s ≡ follow_pass c p.elevation s
  unfolding visit_position
  branch_follow high inside = ground arith

  pub branch_out :
      ltb_ℤ min_elevation p.elevation ≡ false
      → s.in_pass ≡ false
      → visit_position sat min_elevation c p s ≡ s
  unfolding visit_position leave_pass
  branch_out low out = ground arith

  pub branch_end :
      (a m : ℕ)
      → ltb_ℤ min_elevation p.elevation ≡ false
      → s.in_pass ≡ true
      → s.pass_start ≡ some a
      → s.max_elev_time ≡ some m
      → visit_position sat min_elevation c p s ≡ end_pass sat c a m s
  unfolding visit_position leave_pass
  branch_end a m low inside started peaked = ground arith
