-- ===== src/Arrange/Revealed.antt =====
-- Which windows of a container update_layout_visibility and set_children_visible (src/wm/layout.c)
-- show.
use uwm.Base.{
  ℕ, zero, suc, ◌<◌, ◌≤◌, ◌≡◌, refl, sym, ap, ◌∙◌, inl, inr, Bool, some, List, [], ◌∷◌, ◌++◌, map,
  if◌then◌else◌, Link, ◌=?◌, arith, length, take, Bool-cases,
}
use uwm.Base.Appends.{append_nil, append_assoc}
use uwm.Bsp.{Nodes, Split}
use uwm.Bsp.Tree.{Tree, leaf, branch, addr, windows, depth, Rep}
use uwm.Bsp.Find.{collect_leaves}
use uwm.Bsp.Find.Collect.{leaves, collect_leaves-leaves}
use uwm.Bsp.Nav.{max_windows}
use uwm.Arrange.Place.{Tiles}
use uwm.Arrange.Workspaces.{Action, enable}
use uwm.Arrange.Visible.{
  show_leaves, show_collected, update_layout_visibility, set_children_visible,
}

-- The windows of a tree that are not fullscreen: the active leaf's is shown, the others are hidden.
abbrev pub tree_visible : Tiles → (active : Link) → Tree → List Action
tree_visible w active (leaf a t) = if w.fullscreen t then [] else enable t (active =? some a) ∷ []
tree_visible w active (branch a sp l r) = tree_visible w active l ++ tree_visible w active r

show_leaves-append :
    (w : Tiles) (h : Nodes) (active : Link) (T : Tree) (p : Link) (ls : List ℕ)
    → Rep h p T
    → show_leaves w h active (leaves T ++ ls) ≡ tree_visible w active T ++ show_leaves w h active ls
unfolding show_leaves
show_leaves-append w h active (leaf a t) p ls v = elim (Bool-cases (w.fullscreen t)) [
  | inl e ↦ rw (v.toplevel, show_leaves) (rw e refl)
  | inr e ↦ rw (v.toplevel, show_leaves) (rw e refl)
]
show_leaves-append w h active (branch a sp l r) p ls (n, _, _, _, vl, vr) =
    ap (show_leaves w h active) (append_assoc (leaves l) (leaves r) ls)
    ∙ show_leaves-append w h active l (some a) (leaves r ++ ls) vl
    ∙ ap (λ k. tree_visible w active l ++ k) (show_leaves-append w h active r (some a) ls vr)
    ∙ sym (
        append_assoc (tree_visible w active l) (tree_visible w active r)
          (show_leaves w h active ls))

take_all : (n : ℕ) (xs : List ℕ) → length xs ≤ n → take n xs ≡ xs
take_all zero [] le = refl
take_all zero (x ∷ xs) le = absurd (omega arith)
take_all (suc n) [] le = refl
take_all (suc n) (x ∷ xs) le = ap (λ l. x ∷ l) (take_all n xs (omega arith))

visible_eq :
    (w : Tiles) (k : ℕ) (h : Nodes) (a f : ℕ)
    → (h a).first ≡ some f
    → update_layout_visibility w k h (some a)
      ≡ show_collected w h (h a).active_child (collect_leaves k h (some a) [] max_windows)
unfolding update_layout_visibility
visible_eq w k h a f e = rw (e, update_layout_visibility) refl

-- Of a container's windows that are not fullscreen, update_layout_visibility shows the one at the
-- active child and hides the others, if the container has no more leaves than the array.
pub update_layout_visibility-tree_visible :
    (w : Tiles) (k : ℕ) (h : Nodes) (a : ℕ) (sp : Split) (l r : Tree) (p : Link)
    → Rep h p (branch a sp l r)
    → depth (branch a sp l r) < k
    → length (leaves (branch a sp l r)) ≤ max_windows
    → update_layout_visibility w k h (some a)
      ≡ some (tree_visible w (h a).active_child (branch a sp l r))
unfolding show_collected
update_layout_visibility-tree_visible w k h a sp l r p v lt fits =
    visible_eq w k h a (addr l) v.0.first
    ∙ ap (show_collected w h (h a).active_child) (
        collect_leaves-leaves k h (branch a sp l r) p [] max_windows v lt
        ∙ ap some (take_all max_windows (leaves (branch a sp l r)) fits))
    ∙ ap (λ k. some (show_leaves w h (h a).active_child k))
        (sym (append_nil (leaves (branch a sp l r))))
    ∙ ap some (show_leaves-append w h (h a).active_child (branch a sp l r) p [] v)
    ∙ ap some (append_nil (tree_visible w (h a).active_child (branch a sp l r)))

append-map :
    (xs ys : List ℕ) (b : Bool)
    → map (λ t. enable t b) xs ++ map (λ t. enable t b) ys ≡ map (λ t. enable t b) (xs ++ ys)
append-map [] ys b = refl
append-map (x ∷ xs) ys b = ap (λ l. enable x b ∷ l) (append-map xs ys b)

-- With more fuel than the tree has nodes, set_children_visible returns, and shows or hides every
-- window of the tree, from left to right.
pub set_children_visible-windows :
    (k : ℕ) (h : Nodes) (T : Tree) (p : Link) (visible : Bool)
    → Rep h p T
    → depth T < k
    → set_children_visible k h (some (addr T)) visible
      ≡ some (map (λ t. enable t visible) (windows T))
unfolding set_children_visible
set_children_visible-windows zero h T p visible v lt = absurd (omega arith)
set_children_visible-windows (suc k) h (leaf a t) p visible v lt =
    rw (v.first, set_children_visible) (rw (v.toplevel, set_children_visible) refl)
set_children_visible-windows (suc k) h (branch a sp l r) p visible (n, _, _, _, vl, vr) lt =
    rw (n.first, set_children_visible)
      (rw
        (set_children_visible-windows k h l (some a) visible vl (omega arith), set_children_visible)
        (rw n.second (
          rw (set_children_visible-windows k h r (some a) visible vr (omega arith))
            (ap some (append-map (windows l) (windows r) visible)))))
