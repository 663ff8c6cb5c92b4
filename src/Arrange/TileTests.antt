-- ===== src/Arrange/TileTests.antt =====
-- The theorems on the arrangement at a tree of two tiles in an area of 801 by 600, and at a window.
use uwm.Base.{◌++◌, inr, zero, suc, ◌≡◌, refl, true, false, none, some, [], ◌∷◌, arith, length, ◌≤◌}
use uwm.Base.Int.{pos, ◌+ℤ◌, ◌-ℤ◌}
use uwm.Bsp.{Node, Nodes, vertical, bsp, half}
use uwm.Bsp.Tree.{Tree, leaf, branch, Rep}
use uwm.Arrange.{split_sizes}
use uwm.Arrange.Visible.{update_layout_visibility, set_children_visible}
use uwm.Arrange.Revealed.{
  tree_visible, update_layout_visibility-tree_visible, set_children_visible-windows,
}
use uwm.Bsp.Find.Collect.{leaves}
use uwm.Bsp.Nav.{max_windows}
use uwm.Arrange.Workspaces.{enable, Desk, arrange}
use uwm.Arrange.Shown.{ShowsActive, arrange-ShowsActive}
use uwm.Arrange.Walked.{Within}
use uwm.Arrange.Place.{Tiles}
use uwm.Arrange.Placed.{Roomy}
use uwm.Arrange.Tiled.{Tiled, arrange_node-Tiled}
use uwm.Arrange.Apply.{Window, Surface, xwayland_configure, node_apply_geometry}
use uwm.Arrange.Settled.{
  moved, applied, node_move, node_apply_geometry_settles, node_apply_geometry_again,
}

abbrev blank : Node
blank = record {
  parent = none;
  first = none;
  second = none;
  toplevel = none;
  split = vertical;
  ratio = half;
  x = pos 0;
  y = pos 0;
  width = pos 800;
  height = pos 600;
  mode = bsp;
  active_child = none;
}

abbrev nodes : Nodes
nodes zero = record blank { parent = some 1; toplevel = some 7 }
nodes (suc zero) = record blank { first = some 0; second = some 2 }
nodes (suc (suc zero)) = record blank { parent = some 1; toplevel = some 8 }
nodes _ = blank

abbrev both : Tree
both = branch 1 vertical (leaf 0 7) (leaf 2 8)

both-Rep : Rep nodes none both
both-Rep = (
  record { parent = refl; first = refl; second = refl; toplevel = refl; split = refl },
  refl,
  refl,
  λ b e. ground arith,
  record { parent = refl; first = refl; second = refl; toplevel = refl },
  record { parent = refl; first = refl; second = refl; toplevel = refl },
)

abbrev plain : Tiles
plain = record { floating = λ t. false; fullscreen = λ t. false; on_monocle = λ t. false }

both-Roomy : Roomy (λ a q. pos 263) 10 nodes both (pos 801) (pos 600)
unfolding split_sizes ◌+ℤ◌ ◌-ℤ◌
both-Roomy =
    (refl, omega arith, omega arith, (omega arith, omega arith), (omega arith, omega arith))

arrange_node-Tiled_example :
    Tiled (λ a q. pos 263) plain 10 false 9 nodes both (pos 10) (pos 10) (pos 801) (pos 600)
arrange_node-Tiled_example =
    arrange_node-Tiled (λ a q. pos 263) plain 10 false 9 nodes both none (pos 10) (pos 10) (pos 801)
      (pos 600) both-Rep (omega arith) both-Roomy

abbrev window : Window
window = record {
  scene_x = pos 0;
  scene_y = pos 0;
  req_width = pos 0;
  req_height = pos 0;
  is_xwayland = false;
  has_xdg = true;
  xwayland_surface = none;
  floating = false;
  float_x = pos 0;
  float_y = pos 0;
}

node_apply_geometry_settles_example :
    let t' = moved blank (node_apply_geometry blank window).0 in
    node_apply_geometry blank t' ≡ (t', [])
node_apply_geometry_settles_example = node_apply_geometry_settles blank window refl

abbrev surface : Surface
surface = record { x = pos 0; y = pos 0; mapped = true; override_redirect = false }

abbrev x11 : Window
x11 = record window { is_xwayland = true; has_xdg = false; xwayland_surface = some surface }

node_apply_geometry_again_example :
    let t' = applied blank 2 x11 in
    node_apply_geometry blank t'
    ≡ (t', node_move blank t' ++ xwayland_configure (pos 0) (pos 0) (pos 800) (pos 600) ∷ [])
node_apply_geometry_again_example =
    node_apply_geometry_again blank x11 surface 2 refl refl (inr refl)

abbrev desk : Desk
desk = record {
  has_output = true;
  outer_gap = pos 0;
  root = some 1;
  monocle = true;
  focused = some 7;
  last_focused = none;
  toplevels = 7 ∷ 8 ∷ [];
  floating_windows = [];
  tiles = plain;
  float_x = λ t. pos 0;
  float_y = λ t. pos 0;
  req_width = λ t. pos 0;
  req_height = λ t. pos 0;
}

both-Within : Within nodes both
both-Within = (λ c e. cc, tt, tt)

arrange-ShowsActive_example :
    ShowsActive desk
      (arrange (λ a q. pos 263) 9 (pos 10) desk nodes (pos 0) (pos 0) (pos 801) (pos 600))
arrange-ShowsActive_example =
    arrange-ShowsActive (λ a q. pos 263) 9 10 desk nodes both (pos 0) (pos 0) (pos 801) (pos 600)
      refl refl refl both-Rep both-Within (omega arith)

few : length (leaves both) ≤ max_windows
few = omega arith

update_layout_visibility-tree_visible_example :
    update_layout_visibility plain 9 nodes (some 1) ≡ some (tree_visible plain none both)
update_layout_visibility-tree_visible_example =
    update_layout_visibility-tree_visible plain 9 nodes 1 vertical (leaf 0 7) (leaf 2 8) none
      both-Rep (omega arith) few

set_children_visible-windows_example :
    set_children_visible 9 nodes (some 1) true ≡ some (enable 7 true ∷ enable 8 true ∷ [])
set_children_visible-windows_example =
    set_children_visible-windows 9 nodes both none true both-Rep (omega arith)
