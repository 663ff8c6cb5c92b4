-- ===== src/Arrange.antt =====
-- The arrangement of windows of src/wm/bsp_arrange.c and src/wm/layout.c; here, the split of a node's
-- extent between its two children. An `int` is an integer, which is what C computes as long as no
-- sum overflows.
pub mod Sizes
pub mod Place
pub mod Placed
pub mod Joined
pub mod Tiled
pub mod Walked
pub mod Apply
pub mod Settled
pub mod Workspaces
pub mod Enabled
pub mod Shown
pub mod Visible
pub mod Revealed
mod Tests
mod TileTests
use uwm.Base.{
  ℕ, zero, suc, ◌/◌, Bool, true, false, not, ◌||◌, ◌&&◌, Option, none, some, List, ◌∷◌,
  if◌then◌else◌, Link,
}
use uwm.Base.Int.{ℤ, pos, negsuc, ◌+ℤ◌, ◌-ℤ◌, ltb_ℤ, pos_part, neg_part}
use uwm.Bsp.{Node, Nodes, Float, Split, Mode, write}

-- Division by 2 in C goes towards 0.
unfoldable pub half_of : ℤ → ℤ
half_of (pos n) = pos (n / 2)
half_of (negsuc n) = pos 0 -ℤ pos (suc n / 2)

unfoldable pub at_least_one : ℤ → ℤ
at_least_one a = if ltb_ℤ a (pos 1) then pos 1 else a

abbrev pub eqb_ℤ : ℤ → ℤ → Bool
eqb_ℤ a b = not (ltb_ℤ a b || ltb_ℤ b a)

-- The two parts of `extent`, a width or a height. `scale` stands for the product of an `int` and a
-- `float`, cast to `int`.
module _ (scale : ℤ → Float → ℤ) where
  -- Behind the second clamp: the fallback if the parts do not add up.
  unfoldable pub check_sum : (extent gap : ℤ) → ℤ × ℤ → ℤ × ℤ
  unfolding half_of at_least_one
  check_sum extent gap (first, second) =
      if eqb_ℤ (first +ℤ second +ℤ gap) extent
      then (first, second)
      else (let first' = half_of (extent -ℤ gap) in
          (at_least_one first', at_least_one (extent -ℤ gap -ℤ first')))

  unfoldable pub clamp_second : (extent gap first second : ℤ) → ℤ × ℤ
  clamp_second extent gap first second =
      if ltb_ℤ second (pos 1) then (extent -ℤ gap -ℤ pos 1, pos 1) else (first, second)

  unfoldable pub split_sizes : (extent gap : ℤ) → Float → ℤ × ℤ
  unfolding check_sum clamp_second at_least_one
  split_sizes extent gap ratio =
      let first = at_least_one (scale (extent -ℤ gap) ratio) in
      check_sum extent gap (clamp_second extent gap first (extent -ℤ gap -ℤ first))
