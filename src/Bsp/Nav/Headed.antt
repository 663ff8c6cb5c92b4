-- ===== src/Bsp/Nav/Headed.antt =====
-- Where the leaf that bsp_nearest_in_direction (src/wm/bsp_nav.c) finds lies, in the integer
-- coordinates of the tree.
use uwm.Base.{ℕ, ◌+◌, ◌≤◌, ◌≡◌, ◌≢◌, ◌⊎◌, Bool, true, false, none, some, List, Link, contains}
use uwm.Base.Int.{ℤ, pos_part, neg_part, ◌+ℤ◌, ◌≤ℤ◌}
use uwm.Bsp.{Node, Nodes}
use uwm.Bsp.Tree.{Tree}
use uwm.Bsp.Nav.{Reals, is_candidate, dist}
use uwm.Bsp.Nav.Nearest.{IsOrder}

-- The four directions, and their numbers in the calls.
pub data Heading : Type 0 where
  to_left to_right upward downward : Heading

abbrev pub code : Heading → ℕ
code to_left = 0
code to_right = 1
code upward = 2
code downward = 3

-- The second node lies wholly on that side of the first.
abbrev pub Lies : Heading → Node → Node → Type 0
Lies to_left f n = n.x +ℤ n.width ≤ℤ f.x
Lies to_right f n = f.x +ℤ f.width ≤ℤ n.x
Lies upward f n = n.y +ℤ n.height ≤ℤ f.y
Lies downward f n = f.y +ℤ f.height ≤ℤ n.y

-- A float holds the integers up to 2 ^ 24 exactly.
abbrev pub Small : ℤ → Type 0
Small a = pos_part a + neg_part a ≤ 16777216

pub record IsSmall (n : Node) : Type 0 where
  pub x : Small n.x
  pub y : Small n.y
  pub width : Small n.width
  pub height : Small n.height
  pub right : Small (n.x +ℤ n.width)
  pub bottom : Small (n.y +ℤ n.height)

-- Sums and comparisons of small integers are exact, and `<` is a strict order, as on floats.
pub record IsExact {F : Type 0} (R : Reals F) : Type 0 where
  pub order : IsOrder R.lt
  pub sums :
      (a b : ℤ)
      → Small a
      → Small b
      → Small (a +ℤ b)
      → R.plus (R.of_int a) (R.of_int b) ≡ R.of_int (a +ℤ b)
  pub below : (a b : ℤ) → Small a → Small b → R.le (R.of_int a) (R.of_int b) ≡ true → a ≤ℤ b
  pub ordered : (a b : ℤ) → Small a → Small b → a ≤ℤ b → R.le (R.of_int a) (R.of_int b) ≡ true

module _ {F : Type 0} (R : Reals F) where
  -- How far the centers of two nodes are apart from side to side, and from top to bottom.
  abbrev pub across : Node → Node → F
  across f n = R.fabs (
      R.minus (R.plus (R.of_int f.x) (R.halved f.width)) (R.plus (R.of_int n.x) (R.halved n.width)))

  abbrev pub up_down : Node → Node → F
  up_down f n = R.fabs (
      R.minus (R.plus (R.of_int f.y) (R.halved f.height))
        (R.plus (R.of_int n.y) (R.halved n.height)))

  -- The distance in a direction; the offset to the side is weighed.
  abbrev pub distance : Heading → Node → Node → F
  distance to_left f n = R.plus (across f n) (R.weighed (up_down f n))
  distance to_right f n = R.plus (across f n) (R.weighed (up_down f n))
  distance upward f n = R.plus (up_down f n) (R.weighed (across f n))
  distance downward f n = R.plus (up_down f n) (R.weighed (across f n))

-- `xs` are the leaves, `f` is the focused one; no leaf on the side of `e` is nearer than `d`.
abbrev pub NoNearer : {F : Type 0} (R : Reals F) → Heading → Nodes → List ℕ → ℕ → F → Type 0
NoNearer R e h xs f d =
    (b : ℕ)
    → contains b xs ≡ true
    → b ≢ f
    → Lies e (h f) (h b)
    → R.lt (distance R e (h f) (h b)) d ≡ false

abbrev pub IsNearest : {F : Type 0} (R : Reals F) → Heading → Nodes → List ℕ → ℕ → Link → Type 0
IsNearest R e h xs f r =
    ((r ≡ none) × NoNearer R e h xs f R.infinity)
    ⊎ ((a : ℕ) × (r ≡ some a)
        × (contains a xs ≡ true)
        × (a ≢ f)
        × Lies e (h f) (h a)
        × (R.lt (distance R e (h f) (h a)) R.infinity ≡ true)
        × NoNearer R e h xs f (distance R e (h f) (h a)))

module _ {F : Type 0} (R : Reals F) (x : IsExact R) (e : Heading) (h : Nodes) (xs : List ℕ) (f : ℕ)
    (sf : IsSmall (h f)) (small : (a : ℕ) → contains a xs ≡ true → IsSmall (h a)) where
  abbrev candidate : ℕ → Bool
  candidate = is_candidate R h f (code e)

  abbrev far : ℕ → F
  far a = dist R (h f) (h a) (code e)
