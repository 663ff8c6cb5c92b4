-- ===== src/Arrange/Sizes.antt =====
-- The split of an extent in bsp_arrange_node (src/wm/bsp_arrange.c).
use uwm.Base.{◌≡◌, inl, inr, true, false, Bool-cases, arith}
use uwm.Base.Int.{ℤ, pos, ◌+ℤ◌, ◌-ℤ◌, ◌≤ℤ◌, ltb_ℤ, int_laws}
use uwm.Bsp.{Float}
use uwm.Arrange.{at_least_one, eqb_ℤ, check_sum, clamp_second, split_sizes}

abbrev Fits : (extent gap : ℤ) → ℤ × ℤ → Type 0
Fits extent gap (first, second) =
    (first +ℤ second +ℤ gap ≡ extent) × (pos 1 ≤ℤ first) × (pos 1 ≤ℤ second)

module _ (scale : ℤ → Float → ℤ) where
  check_sum-Fits :
      (extent gap : ℤ) (p : ℤ × ℤ)
      → Fits extent gap p
      → Fits extent gap (check_sum scale extent gap p)
  unfolding check_sum
  check_sum-Fits extent gap (a, b) (e, l, m) = rw (same (a +ℤ b +ℤ gap) extent e) (e, l, m)
    where
      same : (x y : ℤ) → x ≡ y → eqb_ℤ x y ≡ true
      same x y q = ground arith

  clamp_second-Fits :
      (extent gap first : ℤ)
      → gap +ℤ pos 2 ≤ℤ extent
      → pos 1 ≤ℤ first
      → Fits extent gap (clamp_second scale extent gap first (extent -ℤ gap -ℤ first))
  unfolding clamp_second
  clamp_second-Fits extent gap first le l =
      elim (Bool-cases (ltb_ℤ (extent -ℤ gap -ℤ first) (pos 1))) [
        | inl t ↦ rw t (omega int_laws, omega int_laws, omega arith)
        | inr e ↦ rw e (omega int_laws, l, not_below _ e)
      ]
    where
      not_below : (x : ℤ) → ltb_ℤ x (pos 1) ≡ false → pos 1 ≤ℤ x
      not_below x e = ground arith

  pub split_sizes-Fits :
      (extent gap : ℤ) (ratio : Float)
      → gap +ℤ pos 2 ≤ℤ extent
      → let r = split_sizes scale extent gap ratio in
        (r.0 +ℤ r.1 +ℤ gap ≡ extent) × (pos 1 ≤ℤ r.0) × (pos 1 ≤ℤ r.1)
  unfolding split_sizes
  split_sizes-Fits extent gap ratio le = check_sum-Fits extent gap _ (
      clamp_second-Fits extent gap (at_least_one (scale (extent -ℤ gap) ratio)) le
        (one_le (scale (extent -ℤ gap) ratio)))
    where
      one_le : (a : ℤ) → pos 1 ≤ℤ at_least_one a
      one_le a = ground (at_least_one, arith)
