-- ===== src/Bsp/Forest.antt =====
-- The trees of all workspaces, which share one pool of nodes (src/wm/bsp.c): no two of them share a
-- node, every window stands on at most one leaf, in the tree of its own workspace, and a cached leaf
-- that still shows its window is in that tree.
pub mod Leaves
pub mod Change
pub mod Taken
pub mod Put
pub mod Tests
use uwm.Base.{ℕ, ◌≡◌, Bool, true, false, Option, none, some, List, [], ◌==◌, contains}
use uwm.Bsp.{State, Workspace}
use uwm.Bsp.Pool.Chain.{Chain}
use uwm.Bsp.Tree.{Tree, addr, has, has_leaf, windows, depth, Rep}
use uwm.Bsp.Edit.Inserted.{IsPool}
use uwm.Bsp.Find.Search.{CacheFits}

-- The tree that the workspace shows, if it has a window.
abbrev pub InTree : State → Workspace → Option Tree → Type 0
InTree s ws none = ws.root ≡ none
InTree s ws (some T) = Rep s.nodes none T × (ws.root ≡ some (addr T))

abbrev pub place : ℕ → Option Tree → Bool
place b none = false
place b (some T) = has b T

abbrev pub ends : ℕ → Option Tree → Bool
ends b none = false
ends b (some T) = has_leaf b T

abbrev pub shown : Option Tree → List ℕ
shown none = []
shown (some T) = windows T

abbrev pub height : Option Tree → ℕ
height none = 0
height (some T) = depth T

-- `home` is the workspace of each window.
pub record IsForest (s : State) (ws : ℕ → Workspace) (F : ℕ → Option Tree) (free : List ℕ)
    (home : ℕ → ℕ) : Type 0 where
  pub tree : (w : ℕ) → InTree s (ws w) (F w)
  pub chain : Chain s.nodes s.freelist free
  pub apart : (w b : ℕ) → contains b free ≡ true → place b (F w) ≡ false
  pub disjoint : (w x b : ℕ) → (x == w) ≡ false → place b (F w) ≡ true → place b (F x) ≡ false
  pub homes : (w a u : ℕ) → ends a (F w) ≡ true → (s.nodes a).toplevel ≡ some u → home u ≡ w
  pub unique :
      (w a b u : ℕ)
      → ends a (F w) ≡ true
      → ends b (F w) ≡ true
      → (s.nodes a).toplevel ≡ some u
      → (s.nodes b).toplevel ≡ some u
      → a ≡ b
  pub cached :
      (u c : ℕ)
      → (s.windows u).bsp_leaf ≡ some c
      → (s.nodes c).toplevel ≡ some u
      → ends c (F (home u)) ≡ true

-- One tree of the forest.
pub Forest-IsPool :
    (s : State) (ws : ℕ → Workspace) (F : ℕ → Option Tree) (free : List ℕ) (home : ℕ → ℕ)
    → IsForest s ws F free home
    → (w : ℕ) (T : Tree) → F w ≡ some T
    → IsPool s (ws w) T free
Forest-IsPool s ws F free home f w T e = record {
  rep = here.0;
  root = here.1;
  chain = f.chain;
  apart = λ b m. rw e at (f.apart w b m);
}
  where
    here : InTree s (ws w) (some T)
    here = rw e at (f.tree w)

pub Forest-CacheFits :
    (s : State) (ws : ℕ → Workspace) (F : ℕ → Option Tree) (free : List ℕ) (home : ℕ → ℕ)
    → IsForest s ws F free home
    → (u w : ℕ) (T : Tree) → home u ≡ w
    → F w ≡ some T
    → CacheFits s T u
Forest-CacheFits s ws F free home f u w T h e c q x = rw (h, e) at (f.cached u c q x)
