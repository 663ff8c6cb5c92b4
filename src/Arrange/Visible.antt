-- ===== src/Arrange/Visible.antt =====
-- update_layout_visibility and set_children_visible of src/wm/layout.c. A result `none` means that a
-- walk ran out of fuel.
use uwm.Base.{
  ℕ, zero, suc, Bool, Option, none, some, List, [], ◌∷◌, ◌++◌, if◌then◌else◌, Link, ◌=?◌,
}
use uwm.Bsp.{Nodes}
use uwm.Bsp.Find.{collect_leaves}
use uwm.Bsp.Nav.{max_windows}
use uwm.Arrange.Place.{Tiles}
use uwm.Arrange.Workspaces.{Action, enable}

-- The loop over the collected leaves.
unfoldable pub show_leaves : Tiles → Nodes → (active : Link) → List ℕ → List Action
show_leaves w h active [] = []
show_leaves w h active (a ∷ ls) =
    let rest = show_leaves w h active ls in
    elim (h a).toplevel [
      | none ↦ rest
      | some t ↦ if w.fullscreen t then rest else enable t (active =? some a) ∷ rest
    ]

-- Behind bsp_collect_leaves.
unfoldable pub show_collected :
    Tiles → Nodes → (active : Link) → Option (List ℕ) → Option (List Action)
unfolding show_leaves
show_collected w h active none = none
show_collected w h active (some ls) = some (show_leaves w h active ls)

unfoldable pub update_layout_visibility : Tiles → ℕ → Nodes → Link → Option (List Action)
unfolding show_collected collect_leaves
update_layout_visibility w k h none = some []
update_layout_visibility w k h (some node) = elim (h node).first [
  | none ↦ some []
  | some f ↦
      show_collected w h (h node).active_child (collect_leaves k h (some node) [] max_windows)
]

unfoldable pub set_children_visible : ℕ → Nodes → Link → (visible : Bool) → Option (List Action)
set_children_visible zero h l visible = none
set_children_visible (suc k) h none visible = some []
set_children_visible (suc k) h (some node) visible = elim (h node).first [
  | none ↦ elim (h node).toplevel [ none ↦ some [] | some t ↦ some (enable t visible ∷ []) ]
  | some f ↦ elim (set_children_visible k h (some f) visible) [
    | none ↦ none
    | some xs ↦ elim (set_children_visible k h (h node).second visible) [
      | none ↦ none
      | some ys ↦ some (xs ++ ys)
    ]
  ]
]
