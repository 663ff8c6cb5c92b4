-- ===== src/Bsp/Nav/Tests.antt =====
-- bsp_nearest_in_direction on two windows side by side: node 0 over the leaves 1 and 2.
use uwm.Base.{ℕ, zero, suc, ◌+◌, ◌≡◌, refl, none, some, [], ◌∷◌, arith, Link, not}
use uwm.Base.Int.{ℤ, pos, pos_part, neg_part, ltb_ℤ, ◌+ℤ◌, ◌-ℤ◌}
use uwm.Bsp.{Node, Nodes, Workspace, vertical, bsp, half}
use uwm.Bsp.Tree.{Tree, leaf, branch, Rep}
use uwm.Bsp.Find.{collect_leaves}
use uwm.Bsp.Find.Collect.{collect_leaves-leaves}
use uwm.Bsp.Nav.{Reals}

abbrev node : (parent first second toplevel : Link) (x : ℕ) → Node
node p f s t x = record {
  parent = p;
  first = f;
  second = s;
  toplevel = t;
  split = vertical;
  ratio = half;
  x = pos x;
  y = pos 0;
  width = pos 400;
  height = pos 600;
  mode = bsp;
  active_child = none;
}

abbrev nodes : Nodes
nodes zero = node none (some 1) (some 2) none 0
nodes (suc zero) = node (some 0) none none (some 7) 0
nodes _ = node (some 0) none none (some 8) 410

abbrev pair : Tree
pair = branch 0 vertical (leaf 1 7) (leaf 2 8)

pair-Rep : Rep nodes none pair
pair-Rep = (
  record { parent = refl; first = refl; second = refl; toplevel = refl; split = refl },
  refl,
  refl,
  (λ b m. ground arith),
  record { parent = refl; first = refl; second = refl; toplevel = refl },
  record { parent = refl; first = refl; second = refl; toplevel = refl },
)

-- Arithmetic on integers in place of floats.
abbrev whole : Reals ℤ
whole = record {
  of_int = λ a. a;
  halved = λ a. a;
  plus = ◌+ℤ◌;
  minus = ◌-ℤ◌;
  fabs = λ a. pos (pos_part a + neg_part a);
  weighed = λ a. a;
  lt = ltb_ℤ;
  le = λ a b. not (ltb_ℤ b a);
  infinity = pos 100000;
}

abbrev shown : Workspace
shown = record { root = some 0; focused = some 7; tree_gen = 0 }

collect_leaves-leaves_example : collect_leaves 9 nodes (some 0) [] 256 ≡ some (1 ∷ 2 ∷ [])
collect_leaves-leaves_example =
    collect_leaves-leaves 9 nodes pair none [] 256 pair-Rep (omega arith)
