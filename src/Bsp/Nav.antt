-- ===== src/Bsp/Nav.antt =====
-- Moving in the tree, src/wm/bsp_nav.c: the nearest leaf in a direction, swapping, resizing and
-- rotating. Floating-point arithmetic is a parameter.
pub mod Nearest
pub mod Headed
mod Tests
use uwm.Base.{
  ℕ, zero, suc, Bool, true, false, ◌||◌, Option, none, some, List, [], ◌∷◌, ◌==◌, Link,
  if◌then◌else◌,
}
use uwm.Base.Int.{ℤ, ◌+ℤ◌}
use uwm.Bsp.{Node, Nodes, Float, Split, vertical, horizontal, State, Workspace, write}
use uwm.Bsp.Find.{find_leaf, find_focused_leaf, collect_leaves}

-- UWM_MAX_WINDOWS
abbrev pub max_windows : ℕ
max_windows = 256

-- Conversion, half of an `int`, sum, difference, fabsf, the product with 0.3f, the comparisons and
-- INFINITY.
pub record Reals (F : Type 0) : Type 0 where
  pub of_int : ℤ → F
  pub halved : ℤ → F
  pub plus : F → F → F
  pub minus : F → F → F
  pub fabs : F → F
  pub weighed : F → F
  pub lt : F → F → Bool
  pub le : F → F → Bool
  pub infinity : F

module _ {F : Type 0} (R : Reals F) where
  abbrev pub center_x : Node → F
  center_x n = R.plus (R.of_int n.x) (R.halved n.width)

  abbrev pub center_y : Node → F
  center_y n = R.plus (R.of_int n.y) (R.halved n.height)

  -- Does `leaf` lie in the direction `dir` of `focused`: 0 left, 1 right, 2 up, 3 down?
  unfoldable pub in_dir : (focused leaf : Node) → (dir : ℕ) → Bool
  unfolding ◌+ℤ◌
  in_dir focused leaf zero = R.le (R.of_int (leaf.x +ℤ leaf.width)) (R.of_int focused.x)
  in_dir focused leaf (suc zero) =
      R.le (R.plus (R.of_int focused.x) (R.of_int focused.width)) (R.of_int leaf.x)
  in_dir focused leaf (suc (suc zero)) =
      R.le (R.of_int (leaf.y +ℤ leaf.height)) (R.of_int focused.y)
  in_dir focused leaf (suc (suc (suc zero))) =
      R.le (R.plus (R.of_int focused.y) (R.of_int focused.height)) (R.of_int leaf.y)
  in_dir focused leaf _ = false

  unfoldable pub dist : (focused leaf : Node) → (dir : ℕ) → F
  dist focused leaf dir =
      let dx = R.fabs (R.minus (center_x focused) (center_x leaf)) in
      let dy = R.fabs (R.minus (center_y focused) (center_y leaf)) in
      if dir == 0 || dir == 1 then R.plus dx (R.weighed dy) else R.plus dy (R.weighed dx)

  -- The loop over the leaves, with the best one so far.
  unfoldable pub nearest_loop :
      (is_candidate : ℕ → Bool) (distance : ℕ → F) (leaves : List ℕ) (best : Link) (best_dist : F)
      → Link
  nearest_loop is_candidate distance [] best best_dist = best
  nearest_loop is_candidate distance (a ∷ as') best best_dist =
      let further = nearest_loop is_candidate distance as' best best_dist in
      let nearer = nearest_loop is_candidate distance as' (some a) (distance a) in
      if is_candidate a then (if R.lt (distance a) best_dist then nearer else further) else further

  abbrev pub is_candidate : Nodes → (focused_leaf dir a : ℕ) → Bool
  is_candidate h focused_leaf dir a =
      if a == focused_leaf then false else in_dir (h focused_leaf) (h a) dir

  unfoldable pub nearest_in_direction : ℕ → Nodes → Workspace → (focused_leaf dir : ℕ) → Option Link
  unfolding nearest_loop collect_leaves in_dir dist
  nearest_in_direction k h ws focused_leaf dir = elim (collect_leaves k h ws.root [] max_windows) [
    | none ↦ none
    | some leaves ↦ some (
        nearest_loop (is_candidate h focused_leaf dir) (λ a. dist (h focused_leaf) (h a) dir) leaves
          none R.infinity)
  ]

  -- The window of a node that may be NULL.
  unfoldable pub toplevel_of : Nodes → Link → Link
  toplevel_of h none = none
  toplevel_of h (some a) = (h a).toplevel

  -- bsp_focus_left, bsp_focus_right, bsp_focus_up and bsp_focus_down, which differ in `dir`.
  unfoldable pub focus_direction : ℕ → State → Workspace → (dir : ℕ) → Option (State × Link)
  unfolding find_focused_leaf nearest_in_direction toplevel_of
  focus_direction k s ws dir = elim (find_focused_leaf k s ws) [
    | none ↦ none
    | some (s', none) ↦ some (s', none)
    | some (s', some a) ↦ elim (nearest_in_direction k s'.nodes ws a dir) [
      | none ↦ none
      | some best ↦ some (s', toplevel_of s'.nodes best)
    ]
  ]

unfoldable pub set_toplevel : Nodes → ℕ → Link → Nodes
unfolding write
set_toplevel h a t = write h a (record (h a) { toplevel = t })

-- The exchange of bsp_swap_direction.
unfoldable pub swap_toplevels : Nodes → (focused_leaf target : ℕ) → Nodes
unfolding set_toplevel
swap_toplevels h focused_leaf target =
    set_toplevel (set_toplevel h focused_leaf (h target).toplevel) target (h focused_leaf).toplevel

unfoldable pub flip : Split → Split
flip vertical = horizontal
flip horizontal = vertical

-- bsp_rotate_split, for a node that is not NULL.
unfoldable pub rotate_split : Nodes → ℕ → Nodes
unfolding write flip
rotate_split h a = elim (h a).first [
  | none ↦ h
  | some f ↦ write h a (record (h a) { split = flip (h a).split })
]

-- The part of bsp_rotate_focused_split and bsp_resize behind the search: what is done to the parent.
unfoldable pub at_parent : (Nodes → ℕ → Nodes) → Option (State × Link) → Option State
at_parent change none = none
at_parent change (some (s, none)) = some s
at_parent change (some (s, some leaf)) = elim (s.nodes leaf).parent [
  | none ↦ some s
  | some p ↦ some (record s { nodes = change s.nodes p })
]

unfoldable pub rotate_focused_split : ℕ → State → Workspace → Option State
unfolding find_focused_leaf at_parent rotate_split
rotate_focused_split k s ws = at_parent rotate_split (find_focused_leaf k s ws)

-- 0.10f and 0.90f
abbrev pub ratio_min : Float
ratio_min = 0x3dcccccd

abbrev pub ratio_max : Float
ratio_max = 0x3f666666

-- The sum and the two clamps of bsp_resize; `add` and `lt` are those of floats.
unfoldable pub adjust_ratio :
    (add : Float → Float → Float) (lt : Float → Float → Bool) → Float → Float → Float
adjust_ratio add lt ratio delta =
    let sum = add ratio delta in
    let low = if lt sum ratio_min then ratio_min else sum in
    if lt ratio_max low then ratio_max else low

unfoldable pub resize :
    (add : Float → Float → Float) (lt : Float → Float → Bool)
    → ℕ
    → State
    → Workspace
    → Link
    → Float
    → Option State
unfolding find_leaf at_parent write adjust_ratio
resize add lt k s ws focused delta =
    at_parent (λ h p. write h p (record (h p) { ratio = adjust_ratio add lt (h p).ratio delta }))
      (find_leaf k s ws.root focused)

-- bsp_swap_direction, behind the search for the focused leaf.
module _ {F : Type 0} (R : Reals F) where
  unfoldable pub swap_found : ℕ → Workspace → (dir : ℕ) → Option (State × Link) → Option State
  unfolding nearest_in_direction swap_toplevels
  swap_found k ws dir none = none
  swap_found k ws dir (some (s, none)) = some s
  swap_found k ws dir (some (s, some a)) = elim (nearest_in_direction R k s.nodes ws a dir) [
    | none ↦ none
    | some none ↦ some s
    | some (some target) ↦ some (record s { nodes = swap_toplevels s.nodes a target })
  ]

  unfoldable pub swap_direction : ℕ → State → Workspace → Link → (dir : ℕ) → Option State
  unfolding swap_found find_leaf
  swap_direction k s ws focused dir = swap_found k ws dir (find_leaf k s ws.root focused)
