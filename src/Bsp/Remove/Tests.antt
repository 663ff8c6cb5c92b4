-- ===== src/Bsp/Remove/Tests.antt =====
-- The theorems on bsp_remove and bsp_destroy at small pools: one of a window in a single leaf, and
-- one whose node 1 is a branch over the leaves 0 and 2, for the windows 7 and 8.
use uwm.Base.{zero, suc, ◌<◌, ◌≡◌, ◌⊎◌, refl, false, none, some, [], ◌∷◌, arith, contains}
use uwm.Bsp.{Nodes, State, Workspace, vertical}
use uwm.Bsp.Tests.{blank, small, ws, one, uncached, small-IsPool}
use uwm.Bsp.Tree.{Tree, leaf, branch, depth, windows}
use uwm.Bsp.Tree.Graft.{beside}
use uwm.Bsp.Find.Search.{CacheFits}
use uwm.Bsp.Edit.{insert_beside, choose_split}
use uwm.Bsp.Edit.Inserted.{IsPool}
use uwm.Bsp.Remove.{remove, destroy}
use uwm.Bsp.Remove.Removed.{Removed, remove-Removed}
use uwm.Bsp.Remove.Undo.{Undone, remove-insert_beside}
use uwm.Bsp.Remove.Destroyed.{AllTaken, Destroyed, destroy-Destroyed}

abbrev split_nodes : Nodes
split_nodes zero = record blank { parent = some 1; toplevel = some 7 }
split_nodes (suc zero) = record blank { first = some 0; second = some 2 }
split_nodes (suc (suc zero)) = record blank { parent = some 1; toplevel = some 8 }
split_nodes _ = blank

abbrev both : Tree
both = branch 1 vertical (leaf 0 7) (leaf 2 8)

abbrev two : State
two = record { nodes = split_nodes; freelist = some 3; count = 0; windows = λ u. uncached }

abbrev two_ws : Workspace
two_ws = record { root = some 1; focused = some 7; tree_gen = 0 }

two-IsPool : IsPool two two_ws both (3 ∷ [])
two-IsPool = record {
  rep = (
    record { parent = refl; first = refl; second = refl; toplevel = refl; split = refl },
    refl,
    refl,
    λ b e. ground arith,
    record { parent = refl; first = refl; second = refl; toplevel = refl },
    record { parent = refl; first = refl; second = refl; toplevel = refl },
  );
  root = refl;
  chain = (refl, refl, refl);
  apart = λ b m. ground arith;
}

two-CacheFits : CacheFits two both 8
two-CacheFits c e = cc

remove-Removed_example :
    ((contains 8 (windows both) ≡ false) × (remove 10 two two_ws 8 ≡ some (two, two_ws)))
    ⊎ Removed split_nodes both 8 (3 ∷ []) (remove 10 two two_ws 8)
remove-Removed_example =
    remove-Removed 10 two two_ws both 8 (3 ∷ []) two-IsPool two-CacheFits (omega arith)

shallow : depth (beside 0 (choose_split (small.nodes 0)) 2 1 8 one) < 10
unfolding beside choose_split
shallow = omega arith

remove-insert_beside_example :
    let r = insert_beside small ws 8 0 in Undone one 1 2 (3 ∷ []) (remove 10 r.0 r.1 8)
remove-insert_beside_example =
    remove-insert_beside 10 small ws one 0 1 2 8 (3 ∷ []) small-IsPool refl refl shallow

taken : AllTaken both (3 ∷ [])
taken b m = ground arith

destroy-Destroyed_example : Destroyed two both (3 ∷ []) (destroy 10 two (some 1))
destroy-Destroyed_example =
    destroy-Destroyed 10 two both none (3 ∷ []) two-IsPool.rep two-IsPool.chain taken (omega arith)
