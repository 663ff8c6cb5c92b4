-- ===== src/Windows/Tests.antt =====
-- The theorems on the session at two workspaces: window 7 alone on workspace 0, which is on output 0,
-- and window 8 alone on workspace 1; the nodes 2 and 3 are free.
use uwm.Base.{
  true, false, length, is_some, ℕ, ◌+◌, ◌≤◌, ◌<◌, ◌≡◌, refl, ◌⊎◌, Bool, false, ◌||◌, none, some, [],
  ◌∷◌, arith, ◌==◌, Link, if◌then◌else◌,
}
use uwm.Base.Counts.{count}
use uwm.Bsp.Forest.Tests.{pool, tree, trees, home, by_workspace, two_trees}
use uwm.Bsp.Forest.{shown, height}
use uwm.Outputs.{workspace_count}
use uwm.Windows.{Frame, Space, Session}
use uwm.Windows.Move.{workspace_move_toplevel}
use uwm.Windows.Fullscreen.{toggle_fullscreen}
use uwm.Windows.Fullscreen.Covered.{Toggled}
use uwm.Windows.Fullscreen.Toggled.{toggle_fullscreen-Toggled}
use uwm.Windows.Cycle.{cycle_windows, workspace_cycle_next}
use uwm.Windows.Cycle.Cycled.{Cycled, workspace_cycle_next-Cycled}
use uwm.Windows.Listed.{IsSession}
use uwm.Windows.Moved.Toplevel.{MovedFrom, workspace_move_toplevel-Moved}

abbrev space : ℕ → Space
space w = record {
  tree = tree w;
  last_focused = none;
  fullscreen_window = none;
  monocle = false;
  output = if w == 0 then some 0 else none;
}

abbrev frame : ℕ → Frame
frame u = record {
  workspace = home u;
  floating = false;
  fullscreen = false;
  saved_floating = false;
  surface = some u;
}

abbrev session : Session
session = record {
  pool = pool;
  spaces = space;
  toplevels = λ w. if w == 0 then 7 ∷ [] else if w == 1 then 8 ∷ [] else [];
  floating_windows = λ w. [];
  frames = frame;
  all_toplevels = 7 ∷ 8 ∷ [];
  active_output = some 0;
  keyboard_focus = some 7;
  events = [];
}

abbrev mapped : ℕ → Bool
mapped u = u == 7 || u == 8

session-IsSession : IsSession session trees (2 ∷ 3 ∷ []) mapped
session-IsSession = record {
  forest = two_trees;
  focused = λ w u e. ground arith;
  tiled = λ w u. ground arith;
  floating = λ w u. ground arith;
  matches =
      by_workspace (λ w. (u : ℕ) → count u (shown (trees w)) ≡ count u (session.toplevels w))
        (λ u. refl) (λ u. refl) (λ w e f u. rw (e, f) refl);
}

low : (w : ℕ) → 3 + height (trees w) < 10
low =
    by_workspace (λ w. 3 + height (trees w) < 10) (omega arith) (omega arith)
      (λ w e f. rw (e, f) (omega arith))

abbrev enter : Link → Link → Link
enter old new = new

toggle_fullscreen-Toggled_example :
    Toggled trees (2 ∷ 3 ∷ []) mapped 7 session (toggle_fullscreen enter 10 7 session)
toggle_fullscreen-Toggled_example =
    toggle_fullscreen-Toggled enter 10 mapped 7 session trees (2 ∷ 3 ∷ []) refl session-IsSession
      (omega (arith, low 0))

workspace_move_toplevel-Moved_example :
    let r = workspace_move_toplevel enter 10 7 1 session in
    (((workspace_count ≤ 1) ⊎ ◌≡◌ {A = ℕ} 1 0) × (r ≡ some session))
    ⊎ ((1 < workspace_count) × ¬ ◌≡◌ {A = ℕ} 1 0 × MovedFrom trees mapped 7 session 1 r)
workspace_move_toplevel-Moved_example =
    workspace_move_toplevel-Moved enter 10 mapped 7 session trees 2 3 [] 1 refl session-IsSession
      low

-- Window 9 floats on workspace 0.
abbrev floating_frame : ℕ → Frame
floating_frame u = record (frame u) { floating = u == 9 }

abbrev busy : Session
busy = record session {
  floating_windows = λ w. if w == 0 then 9 ∷ [] else [];
  frames = floating_frame;
  all_toplevels = 7 ∷ 8 ∷ 9 ∷ [];
}

abbrev busy_mapped : ℕ → Bool
busy_mapped u = u == 7 || u == 8 || u == 9

busy-IsSession : IsSession busy trees (2 ∷ 3 ∷ []) busy_mapped
busy-IsSession = record {
  forest = two_trees;
  focused = λ w u e. ground arith;
  tiled = λ w u. ground arith;
  floating = λ w u. ground arith;
  matches = session-IsSession.matches;
}

short : (w : ℕ) → height (trees w) < 10
short w = omega (arith, low w)

workspace_cycle_next-Cycled_example :
    let r = workspace_cycle_next enter 10 0 busy in
    (((is_some (busy.spaces 0).fullscreen_window ≡ true) ⊎ (length (cycle_windows busy 0) < 2))
      × (r ≡ some busy))
    ⊎ ((is_some (busy.spaces 0).fullscreen_window ≡ false)
        × (2 ≤ length (cycle_windows busy 0))
        × Cycled enter 10 busy_mapped busy trees (2 ∷ 3 ∷ []) 0 busy-IsSession short r)
workspace_cycle_next-Cycled_example =
    workspace_cycle_next-Cycled enter 10 busy_mapped busy trees (2 ∷ 3 ∷ []) 0 busy-IsSession short
