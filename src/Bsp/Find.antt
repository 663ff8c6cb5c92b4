-- ===== src/Bsp/Find.antt =====
-- Walks over the tree: bsp_find_leaf, bsp_first_leaf, bsp_collect_leaves and
-- bsp_find_tabbed_parent of src/wm/bsp.c. Each loop and each recursion runs on fuel; `none` as a
-- result means that the fuel ran out.
pub mod Climb
pub mod Search
pub mod Tabbed
pub mod Collect
use uwm.Base.{
  ℕ, zero, suc, Bool, true, false, Option, none, some, List, [], ◌∷◌, ◌++◌, ◌==◌, leb, Link, ◌=?◌,
  length, if◌then◌else◌,
}
use uwm.Bsp.{Nodes, Mode, bsp, monocle, State, Workspace, set_leaf}

-- `while (cur && cur != node) cur = cur->parent`
unfoldable pub walk_up : ℕ → Nodes → Link → ℕ → Option Link
walk_up zero h cur node = none
walk_up (suc k) h none node = some none
walk_up (suc k) h (some c) node =
    let rest = walk_up k h (h c).parent node in if c == node then some (some c) else rest

-- The fast path of bsp_find_leaf: the cached leaf, if it still shows the window and still stands
-- under `node`.
unfoldable pub cached_leaf : ℕ → State → ℕ → ℕ → Option Link
unfolding walk_up
cached_leaf k s node t = elim (s.windows t).bsp_leaf [
  | none ↦ some none
  | some c ↦
      if (s.nodes c).toplevel =? some t
      then elim (walk_up k s.nodes (some c) node) [
        | none ↦ none
        | some cur ↦
            if cur =? some node
            then some (some c)
            else if c == node
            then some (some c)
            else some none
      ]
      else some none
]

-- `toplevel->bsp_leaf = found`, where something was found.
unfoldable pub remember : ℕ → Option (State × Link) → Option (State × Link)
remember t none = none
remember t (some (s, none)) = some (s, none)
remember t (some (s, some found)) =
    some (record s { windows = set_leaf s.windows t (some found) }, some found)

-- The search goes on behind a subtree without the window.
unfoldable pub or_else :
    Option (State × Link) → (State → Option (State × Link)) → Option (State × Link)
or_else none next = none
or_else (some (s, none)) next = next s
or_else (some (s, some found)) next = some (s, some found)

unfoldable pub find_leaf : ℕ → State → Link → Link → Option (State × Link)
find_leaf zero s r t = none
find_leaf (suc k) s none t = some (s, none)
find_leaf (suc k) s (some _) none = some (s, none)
find_leaf (suc k) s (some node) (some t) = elim (cached_leaf (suc k) s node t) [
  | none ↦ none
  | some (some c) ↦ some (s, some c)
  | some none ↦ elim ((s.nodes node).toplevel =? some t) [
    | true ↦ some (s, some node)
    | false ↦
        or_else (remember t (find_leaf k s (s.nodes node).first (some t)))
          (λ s'. remember t (find_leaf k s' (s'.nodes node).second (some t)))
  ]
]

-- bsp_find_focused_leaf: find_leaf answers NULL for a NULL root and for a NULL window itself.
unfoldable pub find_focused_leaf : ℕ → State → Workspace → Option (State × Link)
find_focused_leaf k s ws = elim ws.root [
  | none ↦ some (s, none)
  | some r ↦ elim ws.focused [ none ↦ some (s, none) | some t ↦ find_leaf k s (some r) (some t) ]
]

-- `while (node->first) node = node->first`
unfoldable pub first_leaf : ℕ → Nodes → ℕ → Option ℕ
first_leaf zero h node = none
first_leaf (suc k) h node = elim (h node).first [ none ↦ some node | some f ↦ first_leaf k h f ]

-- The leaves gathered so far are `acc`, in order; `capacity` bounds their number.
unfoldable pub collect_leaves : ℕ → Nodes → Link → List ℕ → ℕ → Option (List ℕ)
collect_leaves zero h r acc capacity = none
collect_leaves (suc k) h none acc capacity = some acc
collect_leaves (suc k) h (some node) acc capacity = elim (leb capacity (length acc)) [
  | true ↦ some acc
  | false ↦ elim (h node).first [
    | none ↦ some (acc ++ node ∷ [])
    | some f ↦ elim (collect_leaves k h (some f) acc capacity) [
      | none ↦ none
      | some acc' ↦ collect_leaves k h (h node).second acc' capacity
    ]
  ]
]

unfoldable pub is_monocle : Mode → Bool
is_monocle bsp = false
is_monocle monocle = true

unfoldable pub find_tabbed_from : ℕ → Nodes → Link → Option Link
unfolding is_monocle
find_tabbed_from zero h r = none
find_tabbed_from (suc k) h none = some none
find_tabbed_from (suc k) h (some a) = elim (is_monocle (h a).mode) [
  | true ↦ some (some a)
  | false ↦ find_tabbed_from k h (h a).parent
]

unfoldable pub find_tabbed_parent : ℕ → Nodes → Link → Option Link
unfolding find_tabbed_from
find_tabbed_parent k h none = some none
find_tabbed_parent k h (some leaf) = find_tabbed_from k h (h leaf).parent
