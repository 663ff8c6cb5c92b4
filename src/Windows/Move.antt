-- ===== src/Windows/Move.antt =====
-- workspace_move_toplevel (src/wm/workspace.c) on the state of the session. A result `none` means that a walk over a tree
-- ran out of fuel.
use mathlib.Core.Option
use uwm.Base.{
  ℕ, ◌+◌, Bool, false, ◌&&◌, Option, none, some, List, [], ◌∷◌, ◌==◌, leb, if◌then◌else◌, Link,
  ◌=?◌, is_some,
}
use uwm.Base.Counts.{one}
use uwm.Bsp.{State, Workspace}
use uwm.Bsp.Edit.{insert}
use uwm.Bsp.Remove.{remove}
use uwm.Outputs.{workspace_count}
use uwm.Windows.{
  Session, enable, arrange, borders, show_children, say, in_tiling, unlink, link_tiled,
  link_floating, set_space, set_frame, focus_on,
}
use uwm.Windows.Fullscreen.{toggle_fullscreen}
use uwm.Windows.Focus.{focus_toplevel}

-- What bsp_remove and bsp_insert write of a workspace.
unfoldable pub with_tree : Session → (w : ℕ) → State → Workspace → Session
unfolding set_space
with_tree s w pool ws =
    let sp = s.spaces w in
    set_space w (record sp { tree = record sp.tree { root = ws.root; tree_gen = ws.tree_gen } })
      (record s { pool = pool })

-- bsp_remove and bsp_insert on the tree of the workspace `w`.
unfoldable pub remove_from_tree : ℕ → (w t : ℕ) → Session → Option Session
unfolding with_tree remove
remove_from_tree k w t s =
    Option.map (λ r. with_tree s w r.0 r.1) (remove k s.pool (s.spaces w).tree t)

unfoldable pub insert_into_tree : ℕ → (w t : ℕ) → Session → Option Session
unfolding with_tree insert
insert_into_tree k w t s =
    Option.map (λ r. with_tree s w r.0 r.1) (insert k s.pool (s.spaces w).tree t)

-- The loop that counts the tiled windows.
unfoldable pub tiled_count : Session → List ℕ → ℕ
unfolding in_tiling
tiled_count s [] = 0
tiled_count s (t ∷ ts) = one (in_tiling s t) + tiled_count s ts

-- bsp_arrange on the output of a workspace, if it has one and a tree.
unfoldable pub arrange_on_output : (w : ℕ) → Session → Session
unfolding say
arrange_on_output w s =
    if is_some (s.spaces w).output && is_some (s.spaces w).tree.root
    then say (arrange w ∷ []) s
    else s

-- A workspace in monocle mode leaves it with its last tiled window.
unfoldable pub exit_monocle : (w : ℕ) → Session → Session
unfolding tiled_count set_space arrange_on_output say
exit_monocle w s =
    let s' = set_space w (record (s.spaces w) { monocle = false }) s in
    if (s.spaces w).monocle && tiled_count s (s.toplevels w) == 0
    then if is_some (s.spaces w).tree.root
      then say (show_children w ∷ []) (arrange_on_output w s')
      else s'
    else s

-- `if (ws->last_focused == toplevel) ws->last_focused = NULL`
unfoldable pub forget_last : (w t : ℕ) → Session → Session
unfolding set_space
forget_last w t s =
    let last = (s.spaces w).last_focused in
    set_space w (record (s.spaces w) { last_focused = if last =? some t then none else last }) s

-- The first window of the workspace, tiled windows before floating ones.
unfoldable pub next_window : List ℕ → List ℕ → Link
next_window (t ∷ ts) fs = some t
next_window [] (f ∷ fs) = some f
next_window [] [] = none

-- The focus of the workspace that the window has left.
unfoldable pub hand_over : Bool → (w : ℕ) → Session → Session
unfolding set_space focus_on next_window
hand_over was_focused w s =
    if was_focused
    then set_space w
        (record (focus_on (next_window (s.toplevels w) (s.floating_windows w)) (s.spaces w)) {
          last_focused = none;
        })
        s
    else s

-- `toplevel->workspace = new_ws`
unfoldable pub set_workspace : (w t : ℕ) → Session → Session
unfolding set_frame
set_workspace w t s = set_frame t (record (s.frames t) { workspace = w }) s

-- The window leaves the tree and the list of its workspace.
unfoldable pub leave_workspace : ℕ → (w t : ℕ) → Session → Option Session
unfolding unlink remove_from_tree exit_monocle
leave_workspace k w t s =
    if (s.frames t).floating
    then some (unlink t s)
    else Option.map (λ s'. exit_monocle w (unlink t s')) (remove_from_tree k w t s)

unfoldable pub enter_workspace : ℕ → (w t : ℕ) → Session → Option Session
unfolding link_floating link_tiled insert_into_tree
enter_workspace k w t s =
    if (s.frames t).floating
    then some (link_floating w t s)
    else insert_into_tree k w t (link_tiled w t s)

unfoldable pub arrange_both : (old new : ℕ) → Session → Session
unfolding arrange_on_output say
arrange_both old new s =
    say (borders old ∷ borders new ∷ []) (arrange_on_output new (arrange_on_output old s))

module _ (entered : Link → Link → Link) where
  -- The window is shown and focused if its workspace is on an output, and hidden otherwise.
  unfoldable pub show_moved : ℕ → (w t : ℕ) → Session → Option Session
  unfolding say set_space focus_on focus_toplevel
  show_moved k w t s =
      let shown = is_some (s.spaces w).output in
      let s' = set_space w (focus_on (some t) (s.spaces w)) (say (enable t shown ∷ []) s) in
      if shown then focus_toplevel entered k t s' else some s'

  -- Behind the guards of workspace_move_toplevel, for a window that is not fullscreen.
  unfoldable pub move_between : ℕ → (old new t : ℕ) → Session → Option Session
  unfolding forget_last leave_workspace set_workspace hand_over enter_workspace show_moved
      arrange_both
  move_between k old new t s =
      let was_focused = (s.spaces old).tree.focused =? some t in
      Option.bind (leave_workspace k old t (forget_last old t s)) (λ s₁.
        Option.bind (enter_workspace k new t (hand_over was_focused old (set_workspace new t s₁)))
          (λ s₂. Option.map (arrange_both old new) (show_moved k new t s₂)))

  unfoldable pub workspace_move_toplevel : ℕ → (t workspace : ℕ) → Session → Option Session
  unfolding toggle_fullscreen move_between
  workspace_move_toplevel k t workspace s =
      let old = (s.frames t).workspace in
      let moved =
        Option.bind (if (s.frames t).fullscreen then toggle_fullscreen entered k t s else some s)
          (move_between k old workspace t) in
      if leb workspace_count workspace then some s else if old == workspace then some s else moved
