-- ===== src/Arrange/Placed.antt =====
-- bsp_arrange_node (src/wm/bsp_arrange.c) on a tree without containers that show one child: every
-- tile stays inside the area, and no two overlap.
use uwm.Base.{
  ℕ, ◌≡◌, refl, sym, subst, ◌∙◌, ◌⊎◌, inl, inr, true, false, some, List, ◌++◌, arith, ◌==◌,
  Bool-cases, ==_iff,
}
use uwm.Base.Int.{ℤ, pos, ◌+ℤ◌, ◌≤ℤ◌}
use uwm.Bsp.{Node, Nodes, Float, vertical, horizontal, bsp, write}
use uwm.Bsp.Tree.{Tree, leaf, branch, has, has_leaf}
use uwm.Bsp.Tree.Prune.{SameShape}
use uwm.Arrange.{split_sizes}
use uwm.Arrange.Place.{Tiles, Effect, set_geometry, is_empty, leaf_effects}

-- The area of `b` is within the given one.
pub record Inside (h : Nodes) (x y width height : ℤ) (b : ℕ) : Type 0 where
  pub left : x ≤ℤ (h b).x
  pub top : y ≤ℤ (h b).y
  pub right : (h b).x +ℤ (h b).width ≤ℤ x +ℤ width
  pub bottom : (h b).y +ℤ (h b).height ≤ℤ y +ℤ height

-- Two nodes do not overlap: they are beside or above each other.
abbrev pub Apart : Nodes → (b c : ℕ) → Type 0
Apart h b c =
    (((h b).x +ℤ (h b).width ≤ℤ (h c).x) ⊎ ((h c).x +ℤ (h c).width ≤ℤ (h b).x))
    ⊎ (((h b).y +ℤ (h b).height ≤ℤ (h c).y) ⊎ ((h c).y +ℤ (h c).height ≤ℤ (h b).y))

-- What the arrangement never changes.
pub record SameNode (n n' : Node) : Type 0 where
  pub shape : SameShape n n'
  pub ratio : n'.ratio ≡ n.ratio
  pub mode : n'.mode ≡ n.mode

-- The effects of a tree's leaves, from left to right.
abbrev pub tree_effects : Tiles → Tree → List Effect
tree_effects w (leaf a t) = leaf_effects w a (some t)
tree_effects w (branch a sp l r) = tree_effects w l ++ tree_effects w r

module _ (scale : ℤ → Float → ℤ) (gap : ℕ) where
  -- Each container is laid out in both directions, and the area is large enough for its tiles and
  -- gaps.
  abbrev pub Roomy : Nodes → Tree → (width height : ℤ) → Type 0
  Roomy h (leaf a t) width height = (pos 1 ≤ℤ width) × (pos 1 ≤ℤ height)
  Roomy h (branch a vertical l r) width height =
      ((h a).mode ≡ bsp)
      × (pos gap +ℤ pos 2 ≤ℤ width)
      × (pos 1 ≤ℤ height)
      × Roomy h l (split_sizes scale width (pos gap) (h a).ratio).0 height
      × Roomy h r (split_sizes scale width (pos gap) (h a).ratio).1 height
  Roomy h (branch a horizontal l r) width height =
      ((h a).mode ≡ bsp)
      × (pos gap +ℤ pos 2 ≤ℤ height)
      × (pos 1 ≤ℤ width)
      × Roomy h l width (split_sizes scale height (pos gap) (h a).ratio).0
      × Roomy h r width (split_sizes scale height (pos gap) (h a).ratio).1

  -- The nodes `h'` after the arrangement of `T` in an area.
  pub record Arranged (h h' : Nodes) (T : Tree) (x y width height : ℤ) : Type 0 where
    pub same : (b : ℕ) → SameNode (h b) (h' b)
    pub outside : (b : ℕ) → has b T ≡ false → h' b ≡ h b
    pub inside : (b : ℕ) → has_leaf b T ≡ true → Inside h' x y width height b
    pub apart :
        (b c : ℕ) → has_leaf b T ≡ true → has_leaf c T ≡ true → (b == c) ≡ false → Apart h' b c

pub SameNode-refl : (n : Node) → SameNode n n
SameNode-refl n = record {
  shape = record { parent = refl; first = refl; second = refl; toplevel = refl; split = refl };
  ratio = refl;
  mode = refl;
}

pub SameNode-trans : (n n' n'' : Node) → SameNode n n' → SameNode n' n'' → SameNode n n''
SameNode-trans n n' n'' a b = record {
  shape = record {
    parent = b.shape.parent ∙ a.shape.parent;
    first = b.shape.first ∙ a.shape.first;
    second = b.shape.second ∙ a.shape.second;
    toplevel = b.shape.toplevel ∙ a.shape.toplevel;
    split = b.shape.split ∙ a.shape.split;
  };
  ratio = b.ratio ∙ a.ratio;
  mode = b.mode ∙ a.mode;
}

pub set_geometry-SameNode :
    (h : Nodes) (a : ℕ) (x y width height : ℤ) (b : ℕ)
    → SameNode (h b) (set_geometry h a x y width height b)
unfolding set_geometry write
set_geometry-SameNode h a x y width height b = elim (Bool-cases (b == a)) [
  | inl e ↦
      rw (e, (==_iff b a).0 e)
        (record {
          shape = record {
            parent = refl;
            first = refl;
            second = refl;
            toplevel = refl;
            split = refl;
          };
          ratio = refl;
          mode = refl;
        })
  | inr e ↦ rw e (SameNode-refl (h b))
]

pub not_empty :
    (width height : ℤ) → pos 1 ≤ℤ width → pos 1 ≤ℤ height → is_empty width height ≡ false
unfolding is_empty
not_empty width height lw lh = ground arith

pub Roomy-same :
    (scale : ℤ → Float → ℤ) (gap : ℕ) (h h' : Nodes) (T : Tree) (width height : ℤ)
    → ((b : ℕ) → SameNode (h b) (h' b))
    → Roomy scale gap h T width height
    → Roomy scale gap h' T width height
Roomy-same scale gap h h' (leaf a t) width height same v = v
Roomy-same scale gap h h' (branch a vertical l r) width height same (m, lw, lh, vl, vr) = (
  (same a).mode ∙ m,
  lw,
  lh,
  Roomy-same scale gap h h' l _ height same (
      subst (λ q. Roomy scale gap h l (split_sizes scale width (pos gap) q).0 height)
        (sym (same a).ratio) vl),
  Roomy-same scale gap h h' r _ height same (
      subst (λ q. Roomy scale gap h r (split_sizes scale width (pos gap) q).1 height)
        (sym (same a).ratio) vr),
)
Roomy-same scale gap h h' (branch a horizontal l r) width height same (m, lw, lh, vl, vr) = (
  (same a).mode ∙ m,
  lw,
  lh,
  Roomy-same scale gap h h' l width _ same (
      subst (λ q. Roomy scale gap h l width (split_sizes scale height (pos gap) q).0)
        (sym (same a).ratio) vl),
  Roomy-same scale gap h h' r width _ same (
      subst (λ q. Roomy scale gap h r width (split_sizes scale height (pos gap) q).1)
        (sym (same a).ratio) vr),
)
