-- ===== src/Arrange/Joined.antt =====
-- Two arranged subtrees, beside or above each other, make an arranged tree (bsp_arrange_node of
-- src/wm/bsp_arrange.c).
use uwm.Base.{ℕ, ◌≡◌, sym, subst, ◌∙◌, ◌⊎◌, inl, inr, true, false, arith, ◌==◌, Bool-cases}
use uwm.Base.Int.{ℤ, ◌+ℤ◌, ◌≤ℤ◌}
use uwm.Bsp.{Node, Nodes, Float, Split}
use uwm.Bsp.Tree.{Tree, branch, has, has_leaf}
use uwm.Bsp.Tree.Frame.{has_leaf-has}
use uwm.Arrange.Placed.{Inside, Apart, SameNode, Arranged, SameNode-trans}

-- One area within another.
pub record Within (x y width height x' y' width' height' : ℤ) : Type 0 where
  pub left : x ≤ℤ x'
  pub top : y ≤ℤ y'
  pub right : x' +ℤ width' ≤ℤ x +ℤ width
  pub bottom : y' +ℤ height' ≤ℤ y +ℤ height

Inside-widen :
    (h : Nodes) (x y width height x' y' width' height' : ℤ) (b : ℕ)
    → Within x y width height x' y' width' height'
    → Inside h x' y' width' height' b
    → Inside h x y width height b
Inside-widen h x y width height x' y' width' height' b v i = record {
  left = omega (arith, v.left, i.left);
  top = omega (arith, v.top, i.top);
  right = omega (arith, v.right, i.right);
  bottom = omega (arith, v.bottom, i.bottom);
}

-- The second area is to the right of the first one, or below it.
abbrev pub Beside : (x y width height x' y' : ℤ) → Type 0
Beside x y width height x' y' = (x +ℤ width ≤ℤ x') ⊎ (y +ℤ height ≤ℤ y')

cross-Apart :
    (h : Nodes) (x y width height x' y' width' height' : ℤ) (b c : ℕ)
    → Beside x y width height x' y'
    → Inside h x y width height b
    → Inside h x' y' width' height' c
    → Apart h b c
cross-Apart h x y width height x' y' width' height' b c (inl e) i j =
    inl (inl (omega (arith, e, i.right, j.left)))
cross-Apart h x y width height x' y' width' height' b c (inr e) i j =
    inr (inl (omega (arith, e, i.bottom, j.top)))

Apart-sym : (h : Nodes) (b c : ℕ) → Apart h b c → Apart h c b
Apart-sym h b c (inl (inl e)) = inl (inr e)
Apart-sym h b c (inl (inr e)) = inl (inl e)
Apart-sym h b c (inr (inl e)) = inr (inr e)
Apart-sym h b c (inr (inr e)) = inr (inl e)

-- The two children together.
module _ (scale : ℤ → Float → ℤ) (gap : ℕ) (h h₁ h₂ h₃ : Nodes) (a : ℕ) (sp : Split) (l r : Tree)
    (x y width height xl yl wl hl xr yr wr hr : ℤ) (al : has a l ≡ false) (ar : has a r ≡ false)
    (d : (b : ℕ) → has b l ≡ true → has b r ≡ false) (start : (b : ℕ) → SameNode (h b) (h₁ b))
    (elsewhere : (b : ℕ) → (b == a) ≡ false → h₁ b ≡ h b)
    (on_left : Arranged scale gap h₁ h₂ l xl yl wl hl)
    (on_right : Arranged scale gap h₂ h₃ r xr yr wr hr)
    (left_in : Within x y width height xl yl wl hl) (right_in : Within x y width height xr yr wr hr)
    (beside : Beside xl yl wl hl xr yr) where
  kept_left : (b : ℕ) → has_leaf b l ≡ true → h₂ b ≡ h₃ b
  kept_left b m = sym (on_right.outside b (d b (has_leaf-has b l m)))

  Inside-left : (b : ℕ) → has_leaf b l ≡ true → Inside h₃ xl yl wl hl b
  Inside-left b m = at (h₃ b) (kept_left b m) (on_left.inside b m)
    where
      at : (n : Node) → h₂ b ≡ n → Inside h₂ xl yl wl hl b → Inside h₃ xl yl wl hl b
      at n e i = record {
        left = subst (λ (n : Node). xl ≤ℤ n.x) (kept_left b m) i.left;
        top = subst (λ (n : Node). yl ≤ℤ n.y) (kept_left b m) i.top;
        right = subst (λ (n : Node). n.x +ℤ n.width ≤ℤ xl +ℤ wl) (kept_left b m) i.right;
        bottom = subst (λ (n : Node). n.y +ℤ n.height ≤ℤ yl +ℤ hl) (kept_left b m) i.bottom;
      }

  pub Arranged-branch : Arranged scale gap h h₃ (branch a sp l r) x y width height
  Arranged-branch = record {
    same = λ b.
        SameNode-trans (h b) (h₁ b) (h₃ b) (start b)
          (SameNode-trans (h₁ b) (h₂ b) (h₃ b) (on_left.same b) (on_right.same b));
    outside = λ b o.
        on_right.outside b (out_r b o) ∙ on_left.outside b (out_l b o) ∙ elsewhere b (out_a b o);
    inside = λ b m. elim (Bool-cases (has_leaf b l)) [
      | inl e ↦ Inside-widen h₃ x y width height xl yl wl hl b left_in (Inside-left b e)
      | inr e ↦
          Inside-widen h₃ x y width height xr yr wr hr b right_in (on_right.inside b (other b e m))
    ];
    apart = λ b c m m' ne. elim (Bool-cases (has_leaf b l)) [
      | inl e ↦ elim (Bool-cases (has_leaf c l)) [
        | inl f ↦
            subst
              (λ (n : Node).
                ((n.x +ℤ n.width ≤ℤ (h₃ c).x) ⊎ ((h₃ c).x +ℤ (h₃ c).width ≤ℤ n.x))
                ⊎ ((n.y +ℤ n.height ≤ℤ (h₃ c).y) ⊎ ((h₃ c).y +ℤ (h₃ c).height ≤ℤ n.y)))
              (kept_left b e)
              (subst
                (λ (n : Node).
                  (((h₂ b).x +ℤ (h₂ b).width ≤ℤ n.x) ⊎ (n.x +ℤ n.width ≤ℤ (h₂ b).x))
                  ⊎ (((h₂ b).y +ℤ (h₂ b).height ≤ℤ n.y) ⊎ (n.y +ℤ n.height ≤ℤ (h₂ b).y)))
                (kept_left c f) (on_left.apart b c e f ne))
        | inr f ↦
            cross-Apart h₃ xl yl wl hl xr yr wr hr b c beside (Inside-left b e)
              (on_right.inside c (other c f m'))
      ]
      | inr e ↦ elim (Bool-cases (has_leaf c l)) [
        | inl f ↦ Apart-sym h₃ c b (
            cross-Apart h₃ xl yl wl hl xr yr wr hr c b beside (Inside-left c f)
              (on_right.inside b (other b e m)))
        | inr f ↦ on_right.apart b c (other b e m) (other c f m') ne
      ]
    ];
  }
    where
      out_l : (b : ℕ) → has b (branch a sp l r) ≡ false → has b l ≡ false
      out_l b o = ground arith

      out_r : (b : ℕ) → has b (branch a sp l r) ≡ false → has b r ≡ false
      out_r b o = ground arith

      out_a : (b : ℕ) → has b (branch a sp l r) ≡ false → (b == a) ≡ false
      out_a b o = ground arith

      other :
          (b : ℕ) → has_leaf b l ≡ false → has_leaf b (branch a sp l r) ≡ true → has_leaf b r ≡ true
      other b e m = ground arith
