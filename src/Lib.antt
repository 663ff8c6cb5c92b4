-- ===== src/Lib.antt =====
-- A verification library for uwm, a Wayland compositor that tiles windows in a binary tree, and for
-- ulaunch, its launcher.
--
-- The program. The compositor keeps, for each of nine workspaces, a tree whose leaves are windows
-- (src/wm/bsp.c, nodes in one static pool), and shows a workspace on each output
-- (src/output/output.c, src/wm/workspace.c). A new window is matched against the rules of the
-- configuration (src/wm/rules.c). The actions of the key bindings (src/input/actions.c) switch
-- workspaces. The launcher (tools/ulaunch) scores a list of entries against the typed text.
--
-- The files.
-- - Bsp: the data of include/wm/bsp.h. A node is named by its index in the pool, a pointer that may
--   be NULL is an `Option ℕ`, and the pool is a function from indices to nodes with the head of the
--   free list. Bsp.Pool has bsp_pool_init, bsp_node_alloc, bsp_node_free and the two creations;
--   Bsp.Find has bsp_find_leaf with its cache, bsp_first_leaf, bsp_collect_leaves and
--   bsp_find_tabbed_parent; Bsp.Nav has src/wm/bsp_nav.c; Bsp.Edit has bsp_insert, cut at its early returns, and
--   Bsp.Remove has bsp_remove and bsp_destroy, and Bsp.Restore has bsp_restore. Bsp.Tree is the
--   abstract tree and `Rep`, the relation that the nodes of the pool represent it.
--   Bsp.Forest has the trees of all workspaces, which share the pool.
-- - Windows: the session, that is the windows with their flags, the lists and trees of the workspaces
--   they stand on, and the focus. A window is a number, and its link stands for both of the union's.
--   Windows.Focus has focus_toplevel of src/wm/window.c and raise_floating of src/wm/floating.c,
--   Windows.Fullscreen toggle_fullscreen of the same file; Windows.Move has workspace_move_toplevel
--   of src/wm/workspace.c on top of bsp_remove, bsp_insert, toggle_fullscreen and focus_toplevel, and
--   Windows.Cycle workspace_cycle_next and workspace_focus_previous. The calls that reach only the
--   screen (bsp_arrange, layout visibility, borders, scene nodes) are a list of events. The
--   invariant is in Windows.Listed.
-- - Arrange: src/wm/bsp_arrange.c. Arrange itself has the split of an extent, Arrange.Place
--   bsp_arrange_node over the store of nodes, Arrange.Apply bsp_node_apply_geometry and
--   toplevel_set_size, Arrange.Workspaces bsp_arrange and bsp_arrange_workspace, and Arrange.Visible
--   update_layout_visibility and set_children_visible of src/wm/layout.c.
-- - Rules: rule_matches and glob_match, on strings without the terminating zero.
-- - Outputs: output_set_workspace, find_unused_workspace and the switching functions. An output and
--   a workspace are numbers, the server is a record, and what a switch does to windows, bars and
--   layers is a list of events.
-- - Lock: the handlers of src/shell/session_lock.c, and `Run`, the runs in which wlroots calls them.
-- - Children: the table of child processes of src/core/child.c.
-- - Launcher: score_match (Launcher.Match) and filter_reserve and filter_update (Launcher.Filter) of
--   tools/ulaunch/src/filter.c. Launcher.Rescan compares the incremental scan with a full one.
--   Launcher.Feed has the input stream of tools/ulaunch/src/mode_dmenu.c. Launcher.Desktop has
--   parse_desktop_file of tools/ulaunch/src/mode_drun.c. Launcher.Keys has the key handlers of tools/ulaunch/src/input.c, with what they print, run or set
--   the timer to as a list of effects.
-- - Base: the library's names, Boolean tests, lists and integers over the native numbers.
-- In each part a module Tests applies the theorems to concrete values.
--
-- Fuel and bounds. The loops that follow pointers take fuel and answer `none` without it: the tree's
-- depth or number of nodes is enough for the search, the insertion, the removal and the
-- arrangement, and the theorems on them say
-- that a result comes. glob_match takes one step of fuel for every byte of the string at every byte
-- of the pattern. The other loops recurse on a list or on the number of rounds left.
--
-- Parameters. The floating-point arithmetic of the scores, the character functions of the C library,
-- qsort and the success of allocations are arguments of the launcher's definitions; `Lawful` names
-- what is relied on of the arithmetic. A ratio of the tree is the bit pattern of a float; the
-- float operations of bsp_nav.c, of which `IsExact` names what is relied on, and the cast product
-- of bsp_arrange_node are arguments too.
-- What the seat's keyboard focus becomes when a window is given it is an argument of focus_toplevel.
-- Sums of `int` are sums of integers, as long as C does not overflow.
--
-- Not modelled: toggle_floating and the places of floating windows, the mapping and unmapping of
-- windows, the actions of the rules, the switching of layouts, the launcher's theme and drawing,
-- ubar, and everything that is a call of wlroots, Wayland, Pango or Cairo; the generated protocol
-- code. The areas that bsp_arrange writes into the nodes are modelled in Arrange. The session does
-- not follow them: there bsp_arrange is the event `arrange`, the pool keeps the areas it had, and an
-- area read in the session is the one before that call.
pub mod Arrange
pub mod Base
pub mod Bsp
pub mod Children
pub mod Launcher
pub mod Lock
pub mod Outputs
pub mod Rules
pub mod Windows
