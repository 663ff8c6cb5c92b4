-- ===== src/Windows/Focus.antt =====
-- focus_toplevel (src/wm/window.c) and raise_floating (src/wm/floating.c).
use mathlib.Core.Option
use uwm.Base.{
  ℕ, zero, suc, Bool, true, false, not, ◌&&◌, Option, none, some, List, [], ◌∷◌, ◌++◌,
  if◌then◌else◌, Link, ◌=?◌, is_some,
}
use uwm.Base.Counts.{erase}
use uwm.Bsp.{State, write}
use uwm.Bsp.Find.{find_leaf, find_tabbed_parent}
use uwm.Outputs.{workspace_count}
use uwm.Windows.{
  Session, ScreenCall, enable, fit, raise, activate, deactivate, keyboard_enter, warp, notify_bar,
  show_tab, borders, say, in_tiling, unlink, link_floating, set_space, focus_on, link_in_tiling,
  first_in_tiling,
}

-- Do two pointers that may be NULL agree?
unfoldable pub same_link : Link → Link → Bool
same_link none none = true
same_link none (some b) = false
same_link (some a) l = l =? some a

unfoldable pub deactivate_previous : (prev_surface : Link) → List ScreenCall
deactivate_previous none = []
deactivate_previous (some surface) = deactivate surface ∷ []

unfoldable pub raise_floating : ℕ → Session → Session
unfolding say unlink link_floating
raise_floating t s =
    if not (s.frames t).floating
    then s
    else say (raise t ∷ []) (link_floating (s.frames t).workspace t (unlink t s))

-- `cont->active_child = leaf` and update_layout_visibility, unless it is already.
unfoldable pub set_active : State → (cont leaf : ℕ) → State × List ScreenCall
unfolding write
set_active p cont leaf = if (p.nodes cont).active_child =? some leaf then (p, []) else (
  record p { nodes = write p.nodes cont (record (p.nodes cont) { active_child = some leaf }) },
  show_tab cont ∷ [],
)

-- Behind bsp_find_tabbed_parent.
unfoldable pub activate_in : State → (leaf : ℕ) → Option Link → Option (State × List ScreenCall)
unfolding set_active
activate_in p leaf none = none
activate_in p leaf (some none) = some (p, [])
activate_in p leaf (some (some cont)) = some (set_active p cont leaf)

-- Behind bsp_find_leaf.
unfoldable pub activate_leaf : ℕ → Option (State × Link) → Option (State × List ScreenCall)
unfolding activate_in find_tabbed_parent
activate_leaf k none = none
activate_leaf k (some (p, none)) = some (p, [])
activate_leaf k (some (p, some leaf)) =
    activate_in p leaf (find_tabbed_parent k p.nodes (some leaf))

-- The window becomes the active child of the container it stands in.
unfoldable pub activate_tab : ℕ → Session → (w t : ℕ) → Option (State × List ScreenCall)
unfolding activate_leaf find_leaf in_tiling
activate_tab k s w t =
    if is_some (s.spaces w).tree.root && in_tiling s t
    then activate_leaf k (find_leaf k s.pool (s.spaces w).tree.root (some t))
    else some (s.pool, [])

-- The window that is shown in monocle mode.
unfoldable pub active_in_tiling : Session → (w t : ℕ) → Link
unfolding in_tiling link_in_tiling first_in_tiling
active_in_tiling s w t =
    if in_tiling s t
    then some t
    else if link_in_tiling s (s.spaces w).last_focused
    then (s.spaces w).last_focused
    else first_in_tiling s (s.toplevels w)

unfoldable pub enable_tiled : Session → (active : Link) → List ℕ → List ScreenCall
unfolding in_tiling
enable_tiled s active [] = []
enable_tiled s active (t ∷ ts) =
    let rest = enable_tiled s active ts in
    if in_tiling s t then enable t (active =? some t) ∷ rest else rest

unfoldable pub enable_all : List ℕ → List ScreenCall
enable_all [] = []
enable_all (t ∷ ts) = enable t true ∷ enable_all ts

unfoldable pub fit_active : Link → (output : Link) → List ScreenCall
fit_active none o = []
fit_active (some t) none = []
fit_active (some t) (some o) = fit t ∷ []

unfoldable pub monocle_events : Session → (w t : ℕ) → List ScreenCall
unfolding active_in_tiling enable_tiled fit_active enable_all
monocle_events s w t =
    let active = active_in_tiling s w t in
    if (s.spaces w).monocle
    then enable_tiled s active (s.toplevels w)
      ++ (fit_active active (s.spaces w).output ++ enable_all (s.floating_windows w))
    else []

-- The borders of all workspaces, with `n` to go.
unfoldable pub all_borders : (n i : ℕ) → List ScreenCall
all_borders zero i = []
all_borders (suc n) i = borders i ∷ all_borders n (suc i)

module _ (entered : Link → Link → Link) where
  -- From the raise on. `entered` is the seat's focused surface after the call of
  -- wlr_seat_keyboard_notify_enter, if there is a keyboard; the pointer's part is one event.
  unfoldable pub hand_keyboard : (t : ℕ) → Session → Session
  unfolding raise_floating say all_borders
  hand_keyboard t s =
      let s₁ = if (s.frames t).floating then raise_floating t s else say (raise t ∷ []) s in
      let s₂ = record s₁ { all_toplevels = t ∷ erase t s₁.all_toplevels } in
      say (activate t ∷ keyboard_enter t ∷ warp t ∷ notify_bar t ∷ all_borders workspace_count 0)
        (record s₂ { keyboard_focus = entered s.keyboard_focus (s.frames t).surface })

  -- `ws->last_focused = ws->focused; ws->focused = toplevel`, and the active output, behind the
  -- deactivation of the previous window.
  unfoldable pub take_focus : (w t : ℕ) → Session → Session
  unfolding set_space focus_on deactivate_previous
  take_focus w t s =
      let sp = s.spaces w in
      let s' = set_space w (record (focus_on (some t) sp) { last_focused = sp.tree.focused }) s in
      record s' {
        active_output = if is_some sp.output then sp.output else s.active_output;
        events = s.events ++ deactivate_previous s.keyboard_focus;
      }

  unfoldable pub focus_toplevel : ℕ → (t : ℕ) → Session → Option Session
  unfolding take_focus activate_tab monocle_events hand_keyboard say
  focus_toplevel k t s =
      let w = (s.frames t).workspace in
      let s₁ = take_focus w t s in
      let focused =
        Option.map
          (λ r.
            let s₂ = say r.1 (record s₁ { pool = r.0 }) in
            hand_keyboard t (say (monocle_events s₂ w t) s₂))
          (activate_tab k s₁ w t) in
      if same_link s.keyboard_focus (s.frames t).surface then some s else focused
