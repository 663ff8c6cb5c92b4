-- ===== src/Windows/Fullscreen.antt =====
-- toggle_fullscreen (src/wm/floating.c).
pub mod Frames
pub mod Covered
pub mod Toggled
use mathlib.Core.Option
use uwm.Base.{
  ℕ, Bool, true, false, Option, none, some, List, [], ◌∷◌, ◌++◌, ◌==◌, if◌then◌else◌, Link, ◌=?◌,
}
use uwm.Bsp.Find.{find_leaf}
use uwm.Windows.{
  Frame, Space, Session, ScreenCall, enable, layers, set_fullscreen, to_floating_layer,
  to_tiled_layer, set_position, set_size, raise, arrange, borders, say, unlink, link_floating,
  set_space, set_frame,
}
use uwm.Windows.Focus.{raise_floating, focus_toplevel, enable_all}

unfoldable pub hide_others : (t : ℕ) → List ℕ → List ScreenCall
hide_others t [] = []
hide_others t (u ∷ us) =
    let rest = hide_others t us in if u == t then rest else enable u false ∷ rest

-- The bar layers of the output, if the workspace is on one.
unfoldable pub bar_layers : Link → Bool → List ScreenCall
bar_layers none shown = []
bar_layers (some o) shown = layers o shown ∷ []

-- A floating window leaves its list; the leaf of another is looked up for its place, which is not in
-- the model.
unfoldable pub leave_floating_list : ℕ → (t : ℕ) → Session → Option Session
unfolding unlink set_frame find_leaf
leave_floating_list k t s =
    let fr = s.frames t in
    if fr.floating
    then some (set_frame t (record fr { saved_floating = true; floating = false }) (unlink t s))
    else Option.map
        (λ r. record (set_frame t (record fr { saved_floating = false }) s) { pool = r.0 })
        (find_leaf k s.pool (s.spaces fr.workspace).tree.root (some t))

-- toggle_fullscreen of a window that is not fullscreen.
unfoldable pub enter_fullscreen : ℕ → (t : ℕ) → Session → Option Session
unfolding say hide_others bar_layers leave_floating_list set_space set_frame
enter_fullscreen k t s =
    let w = (s.frames t).workspace in
    let hidden =
      hide_others t (s.toplevels w)
      ++ (hide_others t (s.floating_windows w) ++ bar_layers (s.spaces w).output false) in
    Option.map
      (λ s'.
        say
          (to_floating_layer t ∷ set_position t ∷ set_fullscreen t true ∷ set_size t ∷ raise t ∷ [])
          (set_frame t (record (s'.frames t) { fullscreen = true })
            (set_space w (record (s'.spaces w) { fullscreen_window = some t }) s')))
      (leave_floating_list k t (say hidden s))

-- A window that was floating floats again.
unfoldable pub restore_floating : (w t : ℕ) → Session → Session
unfolding say link_floating unlink set_frame
restore_floating w t s =
    if (s.frames t).saved_floating
    then say (to_floating_layer t ∷ set_position t ∷ set_size t ∷ [])
        (link_floating w t (unlink t (set_frame t (record (s.frames t) { floating = true }) s)))
    else say (to_tiled_layer t ∷ []) s

-- `window->fullscreen = false; ws->fullscreen_window = NULL`
unfoldable pub clear_fullscreen : (w t : ℕ) → Session → Session
unfolding say set_space set_frame
clear_fullscreen w t s = say (set_fullscreen t false ∷ []) (
    set_space w (record (s.spaces w) { fullscreen_window = none })
      (set_frame t (record (s.frames t) { fullscreen = false }) s))

-- The other windows and the bars are shown, and the workspace is arranged.
unfoldable pub show_workspace : (w t : ℕ) → Session → Session
unfolding say enable_all bar_layers raise_floating
show_workspace w t s =
    let s' =
      say
        (enable_all (s.toplevels w)
          ++ (enable_all (s.floating_windows w) ++ bar_layers (s.spaces w).output true))
        s in
    say (arrange w ∷ []) (if (s.frames t).saved_floating then raise_floating t s' else s')

module _ (entered : Link → Link → Link) where
  -- toggle_fullscreen of a window that is fullscreen.
  unfoldable pub leave_fullscreen : ℕ → (t : ℕ) → Session → Option Session
  unfolding clear_fullscreen restore_floating show_workspace focus_toplevel say
  leave_fullscreen k t s =
      let w = (s.frames t).workspace in
      let s' = show_workspace w t (restore_floating w t (clear_fullscreen w t s)) in
      Option.map (say (borders w ∷ []))
        (if (s'.spaces w).tree.focused =? some t then focus_toplevel entered k t s' else some s')

  unfoldable pub toggle_fullscreen : ℕ → (t : ℕ) → Session → Option Session
  unfolding enter_fullscreen leave_fullscreen
  toggle_fullscreen k t s =
      if (s.frames t).fullscreen then leave_fullscreen k t s else enter_fullscreen k t s
