-- ===== src/Windows/Cycle.antt =====
-- workspace_cycle_next and workspace_focus_previous (src/wm/workspace.c) on the current workspace.
pub mod Cycled
use mathlib.Core.Option
use uwm.Base.{
  ℕ, suc, ◌+◌, ◌%◌, Bool, true, false, Option, none, some, List, [], ◌∷◌, ◌++◌, ltb, length,
  get_elem?, take, if◌then◌else◌, Link, ◌=?◌, is_some,
}
use uwm.Windows.{Space, Session, ScreenCall, warp, say}
use uwm.Windows.Focus.{focus_toplevel}

abbrev pub max_windows : ℕ
max_windows = 256

-- The array of the workspace's windows, tiled windows before floating ones.
unfoldable pub cycle_windows : Session → (w : ℕ) → List ℕ
cycle_windows s w = take max_windows (s.toplevels w ++ s.floating_windows w)

-- The place of the focused window, from `i` on.
unfoldable pub focused_index : Link → List ℕ → (i : ℕ) → Option ℕ
focused_index focused [] i = none
focused_index focused (u ∷ us) i =
    let rest = focused_index focused us (suc i) in if focused =? some u then some i else rest

-- `(idx + 1) % count`, where idx is -1 if the focused window has no place.
unfoldable pub next_index : Option ℕ → (count : ℕ) → ℕ
next_index none count = 0
next_index (some i) count = (i + 1) % count

module _ (entered : Link → Link → Link) where
  unfoldable pub workspace_cycle_next : ℕ → (current : ℕ) → Session → Option Session
  unfolding cycle_windows focused_index next_index focus_toplevel say
  workspace_cycle_next k current s =
      let sp = s.spaces current in
      let windows = cycle_windows s current in
      let count = length windows in
      let next = next_index (focused_index sp.tree.focused windows 0) count in
      let cycled : Option Session = elim (get_elem? windows next) [
        | none ↦ some s
        | some u ↦ Option.map (say (warp u ∷ [])) (focus_toplevel entered k u s)
      ] in
      if is_some sp.fullscreen_window then some s else if ltb count 2 then some s else cycled

  unfoldable pub workspace_focus_previous : ℕ → (current : ℕ) → Session → Option Session
  unfolding focus_toplevel
  workspace_focus_previous k current s = elim (s.spaces current).last_focused [
    | none ↦ some s
    | some t ↦ focus_toplevel entered k t s
  ]
