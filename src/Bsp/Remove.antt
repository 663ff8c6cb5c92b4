-- ===== src/Bsp/Remove.antt =====
-- bsp_remove and bsp_destroy of src/wm/bsp.c. A result `none` means that a walk ran out of fuel or
-- that a NULL sibling was read.
pub mod Unlinked
pub mod Acyclic
pub mod Raised
pub mod Taken
pub mod Relinked
pub mod Outside
pub mod Removed
pub mod Undo
pub mod Destroyed
mod Tests
use uwm.Base.{
  ℕ, zero, suc, Bool, true, false, ◌&&◌, Option, none, some, ◌==◌, Link, ◌=?◌, is_some,
  if◌then◌else◌,
}
use uwm.Bsp.{Node, Nodes, Mode, write, State, Workspace, set_leaf}
use uwm.Bsp.Pool.{node_free}
use uwm.Bsp.Find.{find_leaf, is_monocle}
use uwm.Bsp.Edit.{set_parent, relink, bump}

unfoldable pub fix_active_child : Nodes → (node removed_leaf : ℕ) → (replacement : Link) → Nodes
unfolding write is_monocle
fix_active_child h a removed_leaf replacement =
    if is_monocle (h a).mode && (h a).active_child =? some removed_leaf
    then write h a (record (h a) { active_child = replacement })
    else h

-- `while (cur)`, from the grandparent up.
unfoldable pub fix_ancestors : ℕ → Nodes → (cur : Link) → (removed_leaf sibling : ℕ) → Option Nodes
unfolding fix_active_child
fix_ancestors zero h cur removed_leaf sibling = none
fix_ancestors (suc k) h none removed_leaf sibling = some h
fix_ancestors (suc k) h (some a) removed_leaf sibling =
    let h' = fix_active_child h a removed_leaf (some sibling) in
    fix_ancestors k h' (h' a).parent removed_leaf sibling

unfoldable pub sibling_of : Nodes → (parent leaf : ℕ) → Link
sibling_of h parent leaf =
    if (h parent).first =? some leaf then (h parent).second else (h parent).first

-- `if (sibling->first) sibling->split = parent->split`
unfoldable pub inherit_split : Nodes → (sibling parent : ℕ) → Nodes
unfolding write
inherit_split h sibling parent =
    if is_some (h sibling).first
    then write h sibling (record (h sibling) { split = (h parent).split })
    else h

-- Behind the loop: the sibling takes its parent's place, and two nodes are freed.
unfoldable pub replace_parent :
    State → Workspace → (leaf parent sibling : ℕ) → (grandparent : Link) → Nodes → State × Workspace
unfolding set_parent relink node_free
replace_parent s ws leaf parent sibling grandparent h =
    let s' = record s { nodes = set_parent h sibling grandparent } in
    let r = relink s' ws grandparent parent (some sibling) in
    (node_free (node_free r.0 (some parent)) (some leaf), r.1)

unfoldable pub detach :
    ℕ → State → Workspace → (leaf parent sibling : ℕ) → Option (State × Workspace)
unfolding fix_active_child inherit_split fix_ancestors replace_parent
detach k s ws leaf parent sibling =
    let grandparent = (s.nodes parent).parent in
    let h = inherit_split (fix_active_child s.nodes parent leaf (some sibling)) sibling parent in
    elim (fix_ancestors k h grandparent leaf sibling) [
      | none ↦ none
      | some h' ↦ some (replace_parent s ws leaf parent sibling grandparent h')
    ]

-- Which parent the leaf has.
unfoldable pub remove_from :
    ℕ → State → Workspace → (leaf : ℕ) → (parent : Link) → Option (State × Workspace)
unfolding sibling_of detach node_free
remove_from k s ws leaf none = some (node_free s (some leaf), record ws { root = none })
remove_from k s ws leaf (some parent) = elim (sibling_of s.nodes parent leaf) [
  | none ↦ none
  | some sibling ↦ detach k s ws leaf parent sibling
]

unfoldable pub remove_found :
    ℕ → Workspace → (t : ℕ) → Option (State × Link) → Option (State × Workspace)
unfolding remove_from set_leaf bump
remove_found k ws t none = none
remove_found k ws t (some (s, none)) = some (s, ws)
remove_found k ws t (some (s, some leaf)) =
    remove_from k (record s { windows = set_leaf s.windows t none }) (bump ws) leaf
      (s.nodes leaf).parent

unfoldable pub remove : ℕ → State → Workspace → (t : ℕ) → Option (State × Workspace)
unfolding remove_found find_leaf
remove k s ws t = elim ws.root [
  | none ↦ some (s, ws)
  | some root ↦ remove_found k ws t (find_leaf k s (some root) (some t))
]

-- bsp_destroy: the children first. A NULL node frees nothing.
unfoldable pub destroy : ℕ → State → Link → Option State
unfolding node_free
destroy zero s a = none
destroy (suc k) s none = some s
destroy (suc k) s (some a) = elim (destroy k s (s.nodes a).first) [
  | none ↦ none
  | some s' ↦ elim (destroy k s' (s'.nodes a).second) [
    | none ↦ none
    | some s'' ↦ some (node_free s'' (some a))
  ]
]
