-- ===== src/Windows.antt =====
-- The windows of the session and the lists they stand on: the fields of struct uwm_toplevel
-- (include/wm/window.h), struct uwm_workspace (include/wm/workspace.h) and the server that the
-- functions of src/wm/window.c, src/wm/workspace.c and src/wm/floating.c read and write. A window's
-- workspace_link and floating_link share their storage, so that one link serves both lists. What
-- happens on the screen is a list of events, in order.
pub mod Focus
pub mod Fullscreen
pub mod Move
pub mod Listed
pub mod Left
pub mod Settled
pub mod Entered
pub mod Activated
pub mod Focused
pub mod Moved
pub mod Cycle
mod Tests
use uwm.Base.{
  ℕ, Bool, true, false, not, ◌&&◌, Option, none, some, List, [], ◌∷◌, ◌++◌, if◌then◌else◌, Link,
}
use uwm.Base.Int.{ℤ}
use uwm.Base.Maps.{update}
use uwm.Base.Counts.{erase}
use uwm.Bsp.{State, Workspace}

-- `surface` is what toplevel_surface returns.
pub record Frame : Type 0 where
  pub workspace : ℕ
  pub floating : Bool
  pub fullscreen : Bool
  pub saved_floating : Bool
  pub surface : Link

-- `tree` holds `root`, `focused` and `tree_gen`.
pub record Space : Type 0 where
  pub tree : Workspace
  pub last_focused : Link
  pub fullscreen_window : Link
  pub monocle : Bool
  pub output : Link

-- A call for the screen. `arrange` is bsp_arrange on the workspace's output: of the pool it writes
-- the areas of the tree's nodes alone, which Arrange models and the session does not follow.
-- `show_children` is set_children_visible, `show_tab` update_layout_visibility, `fit` the placement
-- of a window in monocle mode, `borders` workspace_update_borders. `set_size` is toplevel_set_size,
-- `activate` has the decoration and Xwayland's seat with it; `deactivate` is for the window of a
-- surface, and `warp` and `notify_bar` are what the cursor's mode decides.
pub data ScreenCall : Type 0 where
  enable : ℕ → Bool → ScreenCall
  layers : (output : ℕ) → Bool → ScreenCall
  fit raise activate keyboard_enter warp notify_bar : ℕ → ScreenCall
  deactivate : (surface : ℕ) → ScreenCall
  show_tab : (node : ℕ) → ScreenCall
  set_fullscreen : ℕ → Bool → ScreenCall
  to_floating_layer to_tiled_layer set_position set_size : ℕ → ScreenCall
  arrange borders : (workspace : ℕ) → ScreenCall
  show_children : (workspace : ℕ) → ScreenCall

pub record Session : Type 0 where
  pub pool : State
  pub spaces : ℕ → Space
  pub toplevels : ℕ → List ℕ
  pub floating_windows : ℕ → List ℕ
  pub frames : ℕ → Frame
  pub all_toplevels : List ℕ
  pub active_output : Link
  pub keyboard_focus : Link
  pub events : List ScreenCall

unfoldable pub say : List ScreenCall → Session → Session
say es s = record s { events = s.events ++ es }

-- Neither floating nor fullscreen.
unfoldable pub in_tiling : Session → ℕ → Bool
in_tiling s t = not (s.frames t).floating && not (s.frames t).fullscreen

-- wl_list_remove and wl_list_init on the window's link: it is on one list at most.
unfoldable pub unlink : ℕ → Session → Session
unlink t s = record s {
  toplevels = λ w. erase t (s.toplevels w);
  floating_windows = λ w. erase t (s.floating_windows w);
}

-- wl_list_insert in front of a workspace's list.
unfoldable pub link_tiled : (w t : ℕ) → Session → Session
unfolding update
link_tiled w t s = record s { toplevels = update s.toplevels w (t ∷ s.toplevels w) }

unfoldable pub link_floating : (w t : ℕ) → Session → Session
unfolding update
link_floating w t s = record s {
  floating_windows = update s.floating_windows w (t ∷ s.floating_windows w);
}

unfoldable pub set_space : ℕ → Space → Session → Session
unfolding update
set_space w sp s = record s { spaces = update s.spaces w sp }

unfoldable pub set_frame : ℕ → Frame → Session → Session
unfolding update
set_frame t fr s = record s { frames = update s.frames t fr }

-- `workspace->focused = focused`
unfoldable pub focus_on : Link → Space → Space
focus_on focused sp = record sp { tree = record sp.tree { focused = focused } }

unfoldable pub link_in_tiling : Session → Link → Bool
unfolding in_tiling
link_in_tiling s none = false
link_in_tiling s (some t) = in_tiling s t

unfoldable pub first_in_tiling : Session → List ℕ → Link
unfolding in_tiling
first_in_tiling s [] = none
first_in_tiling s (t ∷ ts) =
    let rest = first_in_tiling s ts in if in_tiling s t then some t else rest
