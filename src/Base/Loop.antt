-- ===== src/Base/Loop.antt =====
-- The loop `while (current <= end) { visit(current); current += step }`, which four routines of the
-- program share. `none` means that the rounds ran out.
use Prim.Native.Nat.{ℕ, zero, suc, ◌+◌, ◌-◌, ◌*◌, ◌/◌, ◌≤◌, ◌<◌}
use mathlib.Core.Path.{◌≡◌, subst}
use mathlib.Core.Logic.{◌⊎◌, inl, inr, inl, inr}
use mathlib.Core.Option.{Option, none, some}
use native.Mathlib.Omega.{arith}
use native.Mathlib.Decide.{dec_lt}
use noaa_satellite_capture.Base.Tests.{leb, if◌then◌else◌, Bool-cases}

module _ {S : Type 0} (step end : ℕ) (visit : ℕ → S → S) where
  unfoldable pub sample : ℕ → ℕ → S → Option S
  sample zero current s = none
  sample (suc f) current s =
      let rest = sample f (current + step) (visit current s) in
      if leb current end then rest else some s

  -- The rounds that a loop from `start` is given: one for each instant, and one to end it.
  abbrev pub rounds : ℕ → ℕ
  rounds start = suc (suc ((end - start) / step))

  abbrev or_else : Option S → S → S
  or_else none s = s
  or_else (some r) s = r

  unfoldable pub for_instants : ℕ → S → S
  unfolding sample
  for_instants start s = or_else (sample (rounds start) start s) s

  pub sample_total :
      (f current : ℕ) (s : S)
      → end < current + f * step
      → (r : S) × (sample (suc f) current s ≡ some r)
  unfolding sample
  sample_total zero current s h = (s, ground arith)
  sample_total (suc f) current s h = elim (Bool-cases (leb current end)) [
    | inl more ↦
        let (r, e) = sample_total f (current + step) (visit current s) (grind arith) in
        (r, rw more e)
    | inr done ↦ (s, rw done)
  ]

  rounds_suffice : (start : ℕ) → 0 < step → end < start + suc ((end - start) / step) * step
  rounds_suffice start h = grind arith

  -- With a positive step the rounds suffice, so the loop ends by its test.
  pub for_instants_lem :
      (start : ℕ) (s : S) → 0 < step → sample (rounds start) start s ≡ some (for_instants start s)
  unfolding for_instants
  for_instants_lem start s h =
      let (r, e) = sample_total (suc ((end - start) / step)) start s (rounds_suffice start h) in
      rw e

  -- An invariant of the rounds holds of the result, at an instant past the end.
  pub sample_inv :
      (P : ℕ → S → Type 0)
      → ((c : ℕ) (s : S) → c ≤ end → P c s → P (c + step) (visit c s))
      → (f current : ℕ) (s r : S) → P current s
      → sample f current s ≡ some r
      → (c : ℕ) × (end < c) × P c r
  unfolding sample
  sample_inv P keep zero current s r h e = absurd (ground arith)
  sample_inv P keep (suc f) current s r h e = elim (Bool-cases (leb current end)) [
    | inl more ↦
        sample_inv P keep f (current + step) (visit current s) r (keep current s (ground arith) h)
          (ground arith)
    | inr done ↦ (current, ground arith, subst (P current) (ground arith) h)
  ]

  pub for_instants_inv :
      (P : ℕ → S → Type 0)
      → ((c : ℕ) (s : S) → c ≤ end → P c s → P (c + step) (visit c s))
      → (start : ℕ) (s : S) → 0 < step
      → P start s
      → (c : ℕ) × (end < c) × P c (for_instants start s)
  for_instants_inv P keep start s h p =
      sample_inv P keep (rounds start) start s (for_instants start s) p (for_instants_lem start s h)

pub mul-le_cases : (j k n : ℕ) → (j * n ≤ k * n) ⊎ (k * n + n ≤ j * n)
mul-le_cases j k n = elim (dec_lt k j) [ yes h ↦ inr (grind arith) | no h ↦ inl (grind arith) ]
