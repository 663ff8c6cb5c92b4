-- ===== src/Arrange/Workspaces.antt =====
-- bsp_arrange, get_output_size and bsp_arrange_workspace of src/wm/bsp_arrange.c. What they do to
-- windows is a list of steps.
use uwm.Base.{
  ℕ, Bool, true, false, not, ◌||◌, ◌&&◌, Option, none, some, List, [], ◌∷◌, ◌++◌, map,
  if◌then◌else◌, Link, ◌=?◌, is_some,
}
use uwm.Base.Int.{ℤ, pos, ◌+ℤ◌, ◌-ℤ◌, ◌*ℤ◌}
use uwm.Bsp.{Nodes, Float}
use uwm.Arrange.{at_least_one, eqb_ℤ}
use uwm.Arrange.Place.{Tiles, Effect, arrange_node}

-- The fields of the workspace and its lists of windows, each window with its flags.
pub record Desk : Type 0 where
  pub has_output : Bool
  pub outer_gap : ℤ
  pub root : Link
  pub monocle : Bool
  pub focused : Link
  pub last_focused : Link
  pub toplevels : List ℕ
  pub floating_windows : List ℕ
  pub tiles : Tiles
  pub float_x : ℕ → ℤ
  pub float_y : ℕ → ℤ
  pub req_width : ℕ → ℤ
  pub req_height : ℕ → ℤ

-- wlr_scene_node_set_enabled, wlr_scene_node_set_position, toplevel_set_size, an effect of the
-- arrangement of the tree, and workspace_update_borders.
pub data Action : Type 0 where
  enable : ℕ → Bool → Action
  move : ℕ → (x y : ℤ) → Action
  resize : ℕ → (width height : ℤ) → Action
  tile : Effect → Action
  borders : Action

-- Neither floating nor fullscreen.
unfoldable pub is_tiled : Desk → ℕ → Bool
is_tiled d t = not (d.tiles.floating t) && not (d.tiles.fullscreen t)

unfoldable pub is_tiled_link : Desk → Link → Bool
unfolding is_tiled
is_tiled_link d none = false
is_tiled_link d (some t) = is_tiled d t

unfoldable pub first_tiled : Desk → List ℕ → Link
unfolding is_tiled
first_tiled d [] = none
first_tiled d (t ∷ ts) = let rest = first_tiled d ts in if is_tiled d t then some t else rest

-- The window that a workspace in monocle mode shows.
unfoldable pub active_tiled : Desk → Link
unfolding is_tiled_link first_tiled
active_tiled d =
    if is_tiled_link d d.focused
    then d.focused
    else if is_tiled_link d d.last_focused
    then d.last_focused
    else first_tiled d d.toplevels

-- The two loops over the floating windows.
unfoldable pub show_floating : Desk → List ℕ → List Action
show_floating d [] = []
show_floating d (t ∷ ts) = enable t true ∷ move t (d.float_x t) (d.float_y t) ∷ show_floating d ts

-- One round of the loop over the windows of a workspace in monocle mode.
unfoldable pub show_one : Desk → Link → (x y width height : ℤ) → ℕ → List Action
unfolding is_tiled
show_one d active x y width height t =
    if not (is_tiled d t)
    then []
    else if active =? some t
    then move t x y
      ∷ ((if not (eqb_ℤ (d.req_width t) width) || not (eqb_ℤ (d.req_height t) height)
            then resize t width height ∷ []
            else [])
          ++ enable t true ∷ [])
    else enable t false ∷ []

unfoldable pub show_all : Desk → Link → (x y width height : ℤ) → List ℕ → List Action
unfolding show_one
show_all d active x y width height [] = []
show_all d active x y width height (t ∷ ts) =
    show_one d active x y width height t ++ show_all d active x y width height ts

unfoldable pub show_active : Link → (x y : ℤ) → List Action
show_active none x y = []
show_active (some t) x y = move t x y ∷ enable t true ∷ []

module _ (scale : ℤ → Float → ℤ) (k : ℕ) (gap : ℤ) (d : Desk) (h : Nodes) where
  -- Behind the clamps; `root` is not NULL.
  unfoldable pub arrange_root : (root : ℕ) → (x y width height : ℤ) → Option (Nodes × List Action)
  unfolding show_floating active_tiled show_all show_active arrange_node
  arrange_root root x y width height =
      let active = active_tiled d in
      elim (arrange_node scale d.tiles gap d.monocle k h (some root) x y width height) [
        | none ↦ none
        | some (h', es) ↦ some (
          h',
          (if d.monocle then show_all d active x y width height d.toplevels else [])
              ++ (map tile es
                  ++ ((if d.monocle then show_active active x y else [])
                      ++ (show_floating d d.floating_windows ++ borders ∷ []))),
        )
      ]

  -- bsp_arrange
  unfoldable pub arrange : (x y width height : ℤ) → Option (Nodes × List Action)
  unfolding arrange_root show_floating at_least_one
  arrange x y width height =
      let width' = at_least_one (width -ℤ pos 2 *ℤ d.outer_gap) in
      let height' = at_least_one (height -ℤ pos 2 *ℤ d.outer_gap) in
      if not d.has_output then some (h, []) else elim d.root [
        | none ↦ some (h, show_floating d d.floating_windows ++ borders ∷ [])
        | some root ↦ arrange_root root (x +ℤ d.outer_gap) (y +ℤ d.outer_gap) width' height'
      ]

-- An output's place in the layout and its usable area.
pub record Area : Type 0 where
  pub lx : ℤ
  pub ly : ℤ
  pub x : ℤ
  pub y : ℤ
  pub width : ℤ
  pub height : ℤ

-- `output` is the workspace's, `first` the server's first one; a server is known only through the
-- focused window.
unfoldable pub get_output_size : (output first : Option Area) → (focused : Link) → ℤ × ℤ × ℤ × ℤ
get_output_size (some o) first focused = (o.lx +ℤ o.x, o.ly +ℤ o.y, o.width, o.height)
get_output_size none (some o) (some t) = (o.lx +ℤ o.x, o.ly +ℤ o.y, o.width, o.height)
get_output_size none (some o) none = (pos 0, pos 0, pos 0, pos 0)
get_output_size none none focused = (pos 0, pos 0, pos 0, pos 0)

unfoldable pub arrange_workspace :
    (ℤ → Float → ℤ)
    → ℕ
    → (inner_gap : ℤ) → Desk
    → Nodes
    → (output first : Option Area) → Option (Nodes × List Action)
unfolding arrange get_output_size
arrange_workspace scale k inner_gap d h output first =
    let (x, y, w, ht) = get_output_size output first d.focused in
    arrange scale k (if is_some output then inner_gap else pos 0) d h x y w ht
