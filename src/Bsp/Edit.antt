-- ===== src/Bsp/Edit.antt =====
-- bsp_insert of src/wm/bsp.c, and the pointer writes that the other operations on the tree share
-- with it. A result `none` means that a walk ran out of fuel.
pub mod Splice
pub mod Spliced
pub mod Inserted
pub mod Written
pub mod Total
use uwm.Base.{
  ℕ, zero, suc, ◌+◌, ◌%◌, ◌^◌, Bool, true, false, not, ◌&&◌, Option, none, some, ◌==◌, Link, ◌=?◌,
  is_some, if◌then◌else◌,
}
use uwm.Base.Int.{ltb_ℤ}
use mathlib.Core.Option
use uwm.Bsp.{
  Node, Nodes, Split, vertical, horizontal, Mode, bsp, monocle, write, State, Workspace, Toplevel,
  set_leaf,
}
use uwm.Bsp.Pool.{node_free, node_create, internal_create}
use uwm.Bsp.Find.{find_leaf, find_focused_leaf, first_leaf}

unfoldable pub choose_split : Node → Split
choose_split leaf = if ltb_ℤ leaf.width leaf.height then horizontal else vertical

-- `node->parent = p`, `node->first = c`, `node->second = c`
unfoldable pub set_parent : Nodes → ℕ → Link → Nodes
unfolding write
set_parent h a p = write h a (record (h a) { parent = p })

unfoldable pub set_first : Nodes → ℕ → Link → Nodes
unfolding write
set_first h a c = write h a (record (h a) { first = c })

unfoldable pub set_second : Nodes → ℕ → Link → Nodes
unfolding write
set_second h a c = write h a (record (h a) { second = c })

-- workspace->tree_gen++, a uint32_t
unfoldable pub bump : Workspace → Workspace
bump ws = record ws { tree_gen = (ws.tree_gen + 1) % 2 ^ 32 }

-- Which pointer leads to a node: its parent's `first` or `second`, or the root.
unfoldable pub relink :
    State → Workspace → (parent : Link) (old : ℕ) (new : Link) → State × Workspace
unfolding set_first set_second
relink s ws none old new = (s, record ws { root = new })
relink s ws (some g) old new =
    if (s.nodes g).first =? some old
    then (record s { nodes = set_first s.nodes g new }, ws)
    else (record s { nodes = set_second s.nodes g new }, ws)

-- The parent pointers that bsp_insert sets.
unfoldable pub attach : Nodes → (focused_leaf new_leaf internal : ℕ) → Nodes
unfolding set_parent
attach h focused_leaf new_leaf internal =
    let h₁ = set_parent h internal (h focused_leaf).parent in
    let h₂ = set_parent h₁ focused_leaf (some internal) in set_parent h₂ new_leaf (some internal)

-- The part of bsp_insert behind the two allocations.
unfoldable pub splice :
    State → Workspace → (t focused_leaf new_leaf internal : ℕ) → State × Workspace
unfolding set_leaf
splice s ws t focused_leaf new_leaf internal =
    let s' = record s {
      nodes = attach s.nodes focused_leaf new_leaf internal;
      windows = set_leaf s.windows t (some new_leaf);
    } in
    let (s'', ws') = relink s' ws (s'.nodes internal).parent focused_leaf (some internal) in
    (s'', bump ws')

-- The new leaf of an empty workspace: the root is what bsp_node_create returned.
unfoldable pub insert_root : Workspace → ℕ → State × Link → State × Workspace × Link
unfolding set_leaf
insert_root ws t (s, none) = (s, record ws { root = none }, none)
insert_root ws t (s, some a) = (
  record s { windows = set_leaf s.windows t (some a) },
  bump (record ws { root = some a }),
  some a,
)

unfoldable pub insert_first : State → Workspace → ℕ → State × Workspace × Link
unfolding insert_root
insert_first s ws t = insert_root ws t (node_create s t)

-- Behind bsp_internal_create: a NULL gives the new leaf back.
unfoldable pub insert_join :
    Workspace → (t focused_leaf new_leaf : ℕ) → State × Link → State × Workspace × Link
insert_join ws t focused_leaf new_leaf (s, none) = (node_free s (some new_leaf), ws, none)
insert_join ws t focused_leaf new_leaf (s, some internal) =
    let (s', ws') = splice s ws t focused_leaf new_leaf internal in (s', ws', some new_leaf)

-- Behind bsp_node_create.
unfoldable pub insert_leaf :
    Workspace → (t focused_leaf : ℕ) → Split → State × Link → State × Workspace × Link
unfolding insert_join
insert_leaf ws t focused_leaf sp (s, none) = (s, ws, none)
insert_leaf ws t focused_leaf sp (s, some new_leaf) =
    insert_join ws t focused_leaf new_leaf
      (internal_create s sp (some focused_leaf) (some new_leaf))

unfoldable pub insert_beside : State → Workspace → (t focused_leaf : ℕ) → State × Workspace × Link
unfolding insert_leaf
insert_beside s ws t focused_leaf =
    insert_leaf ws t focused_leaf (choose_split (s.nodes focused_leaf)) (node_create s t)

-- Behind bsp_find_focused_leaf: a NULL is replaced by the first leaf.
unfoldable pub insert_found :
    ℕ → Workspace → (t root : ℕ) → Option (State × Link) → Option (State × Workspace × Link)
insert_found k ws t root none = none
insert_found k ws t root (some (s, some f)) = some (insert_beside s ws t f)
insert_found k ws t root (some (s, none)) =
    Option.map (λ f. insert_beside s ws t f) (first_leaf k s.nodes root)

unfoldable pub insert : ℕ → State → Workspace → ℕ → Option (State × Workspace × Link)
insert k s ws t = elim ws.root [
  | none ↦ some (insert_first s ws t)
  | some root ↦ insert_found k ws t root (find_focused_leaf k s ws)
]
