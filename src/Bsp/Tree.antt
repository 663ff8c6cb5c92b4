-- ===== src/Bsp/Tree.antt =====
-- What a node of src/wm/bsp.c and everything below it stands for: a binary tree of windows, each
-- place with the index of its node. `Rep h p T` says that the nodes `h` hold the tree `T` under the
-- parent pointer `p`: all pointers fit, in both directions, and no two places share a node.
pub mod Frame
pub mod Graft
pub mod Prune
pub mod Pruned
pub mod Gone
use uwm.Base.{
  ℕ, zero, suc, ◌+◌, ◌≡◌, Bool, true, false, ◌||◌, Option, none, some, List, [], ◌∷◌, ◌++◌, ◌==◌,
  Link,
}
use uwm.Bsp.{Nodes, Split}

pub data Tree : Type 0 where
  leaf : (a w : ℕ) → Tree
  branch : (a : ℕ) → Split → Tree → Tree → Tree

abbrev pub addr : Tree → ℕ
addr (leaf a w) = a
addr (branch a sp l r) = a

-- Does the tree have a place at node `b`?
abbrev pub has : ℕ → Tree → Bool
has b (leaf a w) = b == a
has b (branch a sp l r) = (b == a) || (has b l || has b r)

-- Is `b` the node of a leaf?
abbrev pub has_leaf : ℕ → Tree → Bool
has_leaf b (leaf a w) = b == a
has_leaf b (branch a sp l r) = has_leaf b l || has_leaf b r

abbrev pub windows : Tree → List ℕ
windows (leaf a w) = w ∷ []
windows (branch a sp l r) = windows l ++ windows r

abbrev pub depth : Tree → ℕ
depth (leaf a w) = 1
depth (branch a sp l r) = suc (depth l + depth r)

abbrev pub Disjoint : Tree → Tree → Type 0
Disjoint l r = (b : ℕ) → has b l ≡ true → has b r ≡ false

pub record IsLeaf (h : Nodes) (p : Link) (a w : ℕ) : Type 0 where
  pub parent : (h a).parent ≡ p
  pub first : (h a).first ≡ none
  pub second : (h a).second ≡ none
  pub toplevel : (h a).toplevel ≡ some w

pub record IsBranch (h : Nodes) (p : Link) (a : ℕ) (sp : Split) (l r : ℕ) : Type 0 where
  pub parent : (h a).parent ≡ p
  pub first : (h a).first ≡ some l
  pub second : (h a).second ≡ some r
  pub toplevel : (h a).toplevel ≡ none
  pub split : (h a).split ≡ sp

abbrev pub Rep : Nodes → Link → Tree → Type 0
Rep h p (leaf a w) = IsLeaf h p a w
Rep h p (branch a sp l r) =
    IsBranch h p a sp (addr l) (addr r)
    × (has a l ≡ false)
    × (has a r ≡ false)
    × Disjoint l r
    × Rep h (some a) l
    × Rep h (some a) r
