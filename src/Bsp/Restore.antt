-- ===== src/Bsp/Restore.antt =====
-- bsp_restore of src/wm/bsp.c. A result `none` means that a walk ran out of fuel.
pub mod Dangling
use mathlib.Core.Option
use uwm.Base.{ℕ, zero, suc, Bool, true, false, not, Option, none, some, Link, ◌=?◌, if◌then◌else◌}
use uwm.Bsp.{
  Node, Nodes, Split, vertical, horizontal, Mode, write, State, Workspace, Toplevel, set_leaf,
}
use uwm.Bsp.Pool.{node_free, node_create, internal_create}
use uwm.Bsp.Find.{find_leaf, is_monocle}
use uwm.Bsp.Edit.{set_parent, set_first, set_second, bump, insert}

-- The loop: at most `depth` steps up, and none above the root.
unfoldable pub climb : (depth : ℕ) → Nodes → (sibling : ℕ) → ℕ
climb zero h sibling = sibling
climb (suc depth) h sibling = elim (h sibling).parent [
  | none ↦ sibling
  | some parent ↦ climb depth h parent
]

unfoldable pub same_split : Split → Split → Bool
same_split vertical vertical = true
same_split vertical horizontal = false
same_split horizontal vertical = false
same_split horizontal horizontal = true

-- One level more if the parent has the saved split.
unfoldable pub above_split : Nodes → (saved_split : Split) → (sibling : ℕ) → ℕ
unfolding same_split
above_split h saved_split sibling = elim (h sibling).parent [
  | none ↦ sibling
  | some parent ↦ if same_split (h parent).split saved_split then parent else sibling
]

-- The pointer writes behind the two allocations.
unfoldable pub restore_nodes :
    Nodes → Toplevel → (internal new_leaf sibling : ℕ) → (sib_parent : Link) → Nodes
unfolding write set_parent is_monocle
restore_nodes h t internal new_leaf sibling sib_parent =
    let h₁ = write h internal (record (h internal) {
      ratio = t.bsp_saved_ratio;
      mode = t.bsp_saved_mode;
      active_child =
          if is_monocle t.bsp_saved_mode then some sibling else (h internal).active_child;
      parent = sib_parent;
    }) in
    set_parent (set_parent h₁ new_leaf (some internal)) sibling (some internal)

unfoldable pub restore_link :
    Workspace
    → (t new_leaf sibling : ℕ) → (sib_parent : Link) → (sib_is_first : Bool) → State × Link
    → State × Workspace
unfolding node_free restore_nodes set_first set_second bump
restore_link ws t new_leaf sibling sib_parent sib_is_first (s, none) =
    (node_free s (some new_leaf), ws)
restore_link ws t new_leaf sibling sib_parent sib_is_first (s, some internal) =
    let h = restore_nodes s.nodes (s.windows t) internal new_leaf sibling sib_parent in
    elim sib_parent [
      | none ↦ (record s { nodes = h }, bump (record ws { root = some internal }))
      | some p ↦ (
        record s {
          nodes =
              if sib_is_first
              then set_first h p (some internal)
              else set_second h p (some internal);
        },
        bump ws,
      )
    ]

unfoldable pub is_first : Nodes → (sib_parent : Link) → (sibling : ℕ) → Bool
is_first h none sibling = false
is_first h (some p) sibling = (h p).first =? some sibling

-- Behind bsp_node_create.
unfoldable pub restore_leaf : Workspace → (t sibling : ℕ) → State × Link → State × Workspace
unfolding restore_link is_first set_leaf internal_create
restore_leaf ws t sibling (s, none) = (s, ws)
restore_leaf ws t sibling (s, some new_leaf) =
    let w = s.windows t in
    let s' = record s { windows = set_leaf s.windows t (some new_leaf) } in
    let sib_parent = (s'.nodes sibling).parent in
    restore_link ws t new_leaf sibling sib_parent (is_first s'.nodes sib_parent sibling) (
      internal_create s' w.bsp_saved_split
        (if w.bsp_saved_is_second then some sibling else some new_leaf)
        (if w.bsp_saved_is_second then some new_leaf else some sibling))

-- Behind the search for the saved sibling's leaf.
unfoldable pub restore_at : State → Workspace → (t sibling : ℕ) → State × Workspace
unfolding climb above_split restore_leaf node_create
restore_at s ws t sibling =
    let w = s.windows t in
    let a = above_split s.nodes w.bsp_saved_split (climb w.bsp_saved_depth s.nodes sibling) in
    restore_leaf ws t a (node_create s t)

unfoldable pub insert_instead : ℕ → State → Workspace → ℕ → Option (State × Workspace)
unfolding insert
insert_instead k s ws t = Option.map (λ r. (r.0, r.1)) (insert k s ws t)

unfoldable pub restore_found :
    ℕ → Workspace → (t : ℕ) → Option (State × Link) → Option (State × Workspace)
unfolding insert_instead restore_at
restore_found k ws t none = none
restore_found k ws t (some (s, none)) = insert_instead k s ws t
restore_found k ws t (some (s, some sibling)) = some (restore_at s ws t sibling)

unfoldable pub restore : ℕ → State → Workspace → (t : ℕ) → Option (State × Workspace)
unfolding restore_found find_leaf insert_instead
restore k s ws t = elim (s.windows t).bsp_saved_sibling [
  | none ↦ insert_instead k s ws t
  | some u ↦
      if (s.windows t).bsp_saved
      then restore_found k ws t (find_leaf k s ws.root (some u))
      else insert_instead k s ws t
]
