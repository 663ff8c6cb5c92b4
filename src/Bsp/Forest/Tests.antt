-- ===== src/Bsp/Forest/Tests.antt =====
-- The theorems on the forest at two workspaces: window 7 on node 0 is the tree of workspace 0, window
-- 8 on node 1 that of workspace 1, and the nodes 2 and 3 are free.
use uwm.Base.{
  ℕ, ◌≡◌, refl, sym, subst, inl, inr, false, Option, none, some, [], ◌∷◌, arith, ◌==◌, Bool-cases,
  ==_iff, if◌then◌else◌,
}
use uwm.Bsp.{Nodes, State, Workspace}
use uwm.Bsp.Tests.{blank, uncached}
use uwm.Bsp.Tree.{Tree, leaf}
use uwm.Bsp.Edit.{insert}
use uwm.Bsp.Remove.{remove}
use uwm.Bsp.Forest.{IsForest, InTree}
use uwm.Bsp.Forest.Taken.{TakenFrom, remove-IsForest}
use uwm.Bsp.Forest.Put.{PutInto, insert-IsForest}

abbrev pub nodes : Nodes
nodes b =
    if b == 0
    then record blank { toplevel = some 7 }
    else if b == 1
    then record blank { toplevel = some 8 }
    else if b == 2
    then record blank { first = some 3 }
    else blank

abbrev pub pool : State
pool = record { nodes = nodes; freelist = some 2; count = 2; windows = λ u. uncached }

abbrev pub tree : ℕ → Workspace
tree w = record {
  root = if w == 0 then some 0 else if w == 1 then some 1 else none;
  focused = if w == 0 then some 7 else if w == 1 then some 8 else none;
  tree_gen = 0;
}

abbrev pub trees : ℕ → Option Tree
trees w = if w == 0 then some (leaf 0 7) else if w == 1 then some (leaf 1 8) else none

abbrev pub home : ℕ → ℕ
home u = if u == 8 then 1 else 0

-- The three kinds of workspaces.
pub by_workspace :
    (P : ℕ → Type 0)
    → P 0
    → P 1
    → ((w : ℕ) → (w == 0) ≡ false → (w == 1) ≡ false → P w)
    → (w : ℕ) → P w
by_workspace P p q r w = elim (Bool-cases (w == 0)) [
  | inl e ↦ subst P (sym ((==_iff w 0).0 e)) p
  | inr e ↦ elim (Bool-cases (w == 1)) [
    | inl f ↦ subst P (sym ((==_iff w 1).0 f)) q
    | inr f ↦ r w e f
  ]
]

pub two_trees : IsForest pool tree trees (2 ∷ 3 ∷ []) home
two_trees = record {
  tree =
      by_workspace (λ w. InTree pool (tree w) (trees w))
        (record { parent = refl; first = refl; second = refl; toplevel = refl }, refl)
        (record { parent = refl; first = refl; second = refl; toplevel = refl }, refl)
        (λ w e f. rw (e, f) refl);
  chain = (refl, refl, (refl, refl, refl));
  apart = λ w b m. ground arith;
  disjoint = λ w x b ne m. ground arith;
  homes = λ w a u m e. ground arith;
  unique = λ w a b u m m' e e'. ground arith;
  cached = λ u c q e. cc;
}

remove-IsForest_example :
    TakenFrom pool tree trees (2 ∷ 3 ∷ []) home 1 8 (remove 10 pool (tree 1) 8)
remove-IsForest_example =
    remove-IsForest 10 pool tree trees (2 ∷ 3 ∷ []) home 8 two_trees (omega arith)

insert-IsForest_example : PutInto pool tree trees home 0 9 (insert 10 pool (tree 0) 9)
insert-IsForest_example =
    insert-IsForest 10 pool tree trees [] home 2 3 9 two_trees (λ a m e. ground arith)
      (λ u e. ground arith) (omega arith)
