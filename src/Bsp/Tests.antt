-- ===== src/Bsp/Tests.antt =====
-- The theorems on the layout tree at a small pool: node 0 shows window 7 in a workspace, and the
-- nodes 1, 2 and 3 are free.
use mathlib.Core.List.{Perm}
use uwm.Base.{ℕ, zero, suc, ◌≡◌, refl, false, none, some, [], ◌∷◌, arith}
use uwm.Base.Int.{pos}
use uwm.Bsp.{Node, Nodes, State, Workspace, Toplevel, vertical, bsp, half}
use uwm.Bsp.Tree.{Tree, leaf, windows}
use uwm.Bsp.Tree.Graft.{beside, windows-beside}
use uwm.Bsp.Find.{find_leaf}
use uwm.Bsp.Find.Search.{Outcome, CacheFits, find_leaf-Outcome}
use uwm.Bsp.Restore.{restore_at}
use uwm.Bsp.Restore.Dangling.{Dangling, restore_at-Dangling}
use uwm.Bsp.Edit.{insert_beside}
use uwm.Bsp.Edit.Inserted.{IsPool, insert_beside_one_left}
use uwm.Bsp.Edit.Total.{Inserted, insert-Inserted}

abbrev pub blank : Node
blank = record {
  parent = none;
  first = none;
  second = none;
  toplevel = none;
  split = vertical;
  ratio = half;
  x = pos 0;
  y = pos 0;
  width = pos 800;
  height = pos 600;
  mode = bsp;
  active_child = none;
}

abbrev pub nodes : Nodes
nodes zero = record blank { toplevel = some 7 }
nodes (suc zero) = record blank { first = some 2 }
nodes (suc (suc zero)) = record blank { first = some 3 }
nodes _ = blank

abbrev pub uncached : Toplevel
uncached = record {
  bsp_leaf = none;
  bsp_saved = false;
  bsp_saved_sibling = none;
  bsp_saved_split = vertical;
  bsp_saved_ratio = half;
  bsp_saved_mode = bsp;
  bsp_saved_depth = 0;
  bsp_saved_is_second = false;
}

abbrev pub small : State
small = record { nodes = nodes; freelist = some 1; count = 0; windows = λ u. uncached }

abbrev pub ws : Workspace
ws = record { root = some 0; focused = some 7; tree_gen = 0 }

abbrev pub one : Tree
one = leaf 0 7

pub small-IsPool : IsPool small ws one (1 ∷ 2 ∷ 3 ∷ [])
small-IsPool = record {
  rep = record { parent = refl; first = refl; second = refl; toplevel = refl };
  root = refl;
  chain = (refl, refl, (refl, refl, (refl, refl, refl)));
  apart = λ b m. ground arith;
}

pub small-CacheFits : (u : ℕ) → CacheFits small one u
small-CacheFits u c e = cc

insert-Inserted_example : Inserted 10 small ws one 1 2 (3 ∷ []) 8
insert-Inserted_example =
    insert-Inserted 10 small ws one 1 2 8 (3 ∷ []) small-IsPool (λ f e. small-CacheFits f)
      (omega arith)

find_leaf-Outcome_example : Outcome small one 7 (find_leaf 10 small (some 0) (some 7))
find_leaf-Outcome_example =
    find_leaf-Outcome 10 small one 7 small-IsPool.rep (small-CacheFits 7) (omega arith)

abbrev last_node : State
last_node = record small { freelist = some 3 }

last_node-IsPool : IsPool last_node ws one (3 ∷ [])
last_node-IsPool = record {
  rep = small-IsPool.rep;
  root = refl;
  chain = (refl, refl, refl);
  apart = λ b m. ground arith;
}

insert_beside_one_left_example :
    let r = insert_beside last_node ws 8 0 in
    IsPool r.0 r.1 one (3 ∷ []) × (r.1 ≡ ws) × (r.2 ≡ none)
insert_beside_one_left_example = insert_beside_one_left last_node ws one 0 3 8 last_node-IsPool refl

windows-beside_example : Perm (windows (beside 0 vertical 2 1 8 one)) (8 ∷ 7 ∷ [])
windows-beside_example = windows-beside 0 vertical 2 1 8 nodes one none small-IsPool.rep refl

restore_at-Dangling_example : Dangling ws 8 3 (restore_at last_node ws 8 0)
restore_at-Dangling_example = restore_at-Dangling last_node ws 8 0 3 (refl, refl, refl)
