-- ===== src/Outputs.antt =====
-- Which output shows which workspace: output_set_workspace and find_unused_workspace of
-- src/output/output.c, the switching functions of src/wm/workspace.c and the actions of
-- src/input/actions.c that call them. An output and a workspace are named by a number. What the
-- switch does to windows, bars and layers (hide, arrange, show, focus, notify) is recorded as a list
-- of events, in order, latest first.
pub mod Switch
pub mod Back
pub mod Cycle
mod Tests
use uwm.Base.Maps.{update}
use uwm.Base.{
  ℕ, zero, suc, ◌+◌, ◌-◌, ◌%◌, Bool, true, false, not, ◌&&◌, ◌||◌, Option, none, some, List, [],
  ◌∷◌, ◌==◌, ltb, leb, Link, ◌=?◌, is_some, if◌then◌else◌,
}

-- UWM_WORKSPACE_COUNT
abbrev pub workspace_count : ℕ
workspace_count = 9

pub data Event : Type 0 where
  hide show arrange focus : (workspace output : ℕ) → Event
  notify_bar arrange_layers : (output : ℕ) → Event
  update_borders : (workspace : ℕ) → Event
  clear_focus : Event

pub record Server : Type 0 where
  pub outputs : List ℕ
  pub current_workspace : ℕ → ℕ
  pub output : ℕ → Link
  pub has_windows : ℕ → Bool
  pub tiled : ℕ → Bool
  pub active_output : Link
  pub current : ℕ
  pub last : ℕ
  pub events : List Event

-- "Swap": the output that shows the workspace so far takes the other output's number.
unfoldable pub give_up : Server → (w o : ℕ) → ℕ → ℕ
unfolding update
give_up s w o = elim (s.output w) [
  | none ↦ s.current_workspace
  | some p ↦
      if p == o then s.current_workspace else update s.current_workspace p (s.current_workspace o)
]

-- The old workspace leaves the output, if it is there.
unfoldable pub leave : Server → (old o : ℕ) → ℕ → Link
unfolding update
leave s old o = if s.output old =? some o then update s.output old none else s.output

unfoldable pub emit : Bool → Event → List Event → List Event
emit true e es = e ∷ es
emit false e es = es

-- The loop of workspace_update_borders over the workspaces, with `n` rounds left.
unfoldable pub border_events : (n i : ℕ) → List Event → List Event
border_events zero i es = es
border_events (suc n) i es = border_events n (suc i) (update_borders i ∷ es)

-- What the switch does on the screen. workspace_hide_from_output leaves alone a workspace that some
-- output still shows; bsp_arrange is called for a workspace with a tree; the keyboard focus goes to
-- a window of the workspace, or to none.
unfoldable pub switch_events : Server → (old w o : ℕ) → List Event
unfolding emit leave border_events
switch_events s old w o = emit true (arrange_layers o) (
    border_events workspace_count 0 (
      emit true (notify_bar o) (
        emit true (if s.has_windows w then focus w o else clear_focus) (
          emit true (show w o) (
            emit (s.tiled w) (arrange w o)
              (emit (not (is_some (leave s old o old))) (hide old o) s.events))))))

-- Behind the guards of output_set_workspace.
unfoldable pub switched : Server → (o w : ℕ) → Server
unfolding give_up leave update
switched s o w = record s {
  current_workspace = update (give_up s w o) o w;
  output = update (leave s (s.current_workspace o) o) w (some o);
  active_output = some o;
  current = w;
  last = s.current;
  events = switch_events s (s.current_workspace o) w o;
}

unfoldable pub output_set_workspace : Server → (o w : ℕ) → Server
output_set_workspace s o w =
    if leb workspace_count w
    then s
    else if s.current_workspace o == w && s.output w =? some o
    then s
    else switched s o w

-- output_first: the first output of the list.
unfoldable pub output_first : List ℕ → Link
output_first [] = none
output_first (o ∷ os) = some o

abbrev pub with_borders : Server → ℕ → Server
with_borders s w = record s { events = update_borders w ∷ s.events }

unfoldable pub switch_on : Server → Link → ℕ → Server
switch_on s none w = s
switch_on s (some o) w = with_borders (output_set_workspace s o w) w

-- `server->active_output`, or the first output.
unfoldable pub target_output : Server → Link
unfolding output_first
target_output s = if is_some s.active_output then s.active_output else output_first s.outputs

unfoldable pub workspace_switch : Server → ℕ → Server
unfolding switch_on target_output
workspace_switch s w = if leb workspace_count w then s else switch_on s (target_output s) w

unfoldable pub prev_id : ℕ → ℕ
prev_id current = if current == 0 then workspace_count - 1 else current - 1

unfoldable pub next_id : ℕ → ℕ
next_id current = (current + 1) % workspace_count

unfoldable pub workspace_prev : Server → Server
unfolding prev_id workspace_switch
workspace_prev s = workspace_switch s (prev_id s.current)

unfoldable pub workspace_next : Server → Server
unfolding next_id workspace_switch
workspace_next s = workspace_switch s (next_id s.current)

unfoldable pub workspace_is_active : Server → ℕ → Bool
workspace_is_active s w = is_some (s.output w) || s.has_windows w

-- `server->active_output ? its workspace : workspaces.current`
unfoldable pub current_id : Server → ℕ
current_id s = elim s.active_output [ none ↦ s.current | some o ↦ s.current_workspace o ]

-- The loops over `i`, with `n` rounds left: the first active candidate.
unfoldable pub first_active : (candidate : ℕ → ℕ) → (ℕ → Bool) → (n i : ℕ) → Link
first_active candidate active zero i = none
first_active candidate active (suc n) i =
    if active (candidate i) then some (candidate i) else first_active candidate active n (suc i)

unfoldable pub next_candidate : ℕ → ℕ → ℕ
next_candidate cur i = (cur + i) % workspace_count

unfoldable pub prev_candidate : ℕ → ℕ → ℕ
prev_candidate cur i = (cur + workspace_count - i) % workspace_count

unfoldable pub workspace_next_active : Server → Server
unfolding current_id workspace_is_active first_active next_candidate workspace_switch workspace_next
workspace_next_active s =
    elim (first_active (next_candidate (current_id s)) (workspace_is_active s) 8 1) [
      | some w ↦ workspace_switch s w
      | none ↦ workspace_next s
    ]

unfoldable pub workspace_prev_active : Server → Server
unfolding current_id workspace_is_active first_active prev_candidate workspace_switch workspace_prev
workspace_prev_active s =
    elim (first_active (prev_candidate (current_id s)) (workspace_is_active s) 8 1) [
      | some w ↦ workspace_switch s w
      | none ↦ workspace_prev s
    ]

-- The action `workspaceprev` of src/input/actions.c.
unfoldable pub workspaceprev : Server → Server
unfolding workspace_switch
workspaceprev s = if s.last == s.current then s else workspace_switch s s.last

-- The marks of find_unused_workspace: does an output of the list show workspace `w`?
unfoldable pub used : Server → List ℕ → ℕ → Bool
used s [] w = false
used s (o ∷ os) w = s.current_workspace o == w || used s os w

-- The scan, with `n` rounds left.
unfoldable pub first_unused : (ℕ → Bool) → (n i : ℕ) → ℕ
first_unused mark zero i = 0
first_unused mark (suc n) i = if mark i then first_unused mark n (suc i) else i

unfoldable pub find_unused_workspace : Server → ℕ
unfolding used first_unused
find_unused_workspace s = first_unused (used s s.outputs) workspace_count 0
