-- ===== src/Arrange/Tiled.antt =====
-- bsp_arrange_node (src/wm/bsp_arrange.c) as a whole, on a tree whose area is large enough.
use uwm.Base.{
  ℕ, zero, suc, ◌<◌, ◌≡◌, refl, sym, ap, subst, ◌∙◌, inl, inr, Bool, false, Option, none, some,
  List, ◌++◌, Link, arith, ◌==◌, ==_iff,
}
use uwm.Base.Int.{ℤ, pos, ◌+ℤ◌, ◌≤ℤ◌, int_laws, pos_part, neg_part}
use uwm.Bsp.{Node, Nodes, Float, vertical, horizontal, bsp}
use uwm.Bsp.Pool.Chain.{write_self, write_ne}
use uwm.Bsp.Tree.{Tree, leaf, branch, addr, depth, Rep}
use uwm.Bsp.Tree.Prune.{SameShape, Rep-shape}
use uwm.Arrange.{split_sizes}
use uwm.Arrange.Sizes.{split_sizes-Fits}
use uwm.Arrange.Place.{Tiles, Effect, set_geometry, is_empty, leaf_effects, arrange_node}
use uwm.Arrange.Placed.{
  Roomy, Roomy-same, Arranged, Inside, SameNode, SameNode-trans, set_geometry-SameNode, not_empty,
  tree_effects,
}
use uwm.Arrange.Joined.{Arranged-branch}

-- The two parts of an extent that starts at `x`.
first_part : (x f s e : ℤ) (gap : ℕ) → f +ℤ s +ℤ pos gap ≡ e → pos 1 ≤ℤ s → x +ℤ f ≤ℤ x +ℤ e
first_part x f s e gap q l = omega (int_laws, ap pos_part q, ap neg_part q, l)

second_part : (x f s e : ℤ) (gap : ℕ) → f +ℤ s +ℤ pos gap ≡ e → x +ℤ f +ℤ pos gap +ℤ s ≤ℤ x +ℤ e
second_part x f s e gap q = omega (int_laws, ap pos_part q, ap neg_part q)

second_start : (x f : ℤ) (gap : ℕ) → pos 1 ≤ℤ f → x ≤ℤ x +ℤ f +ℤ pos gap
second_start x f gap l = omega (int_laws, l)

behind : (x f : ℤ) (gap : ℕ) → x +ℤ f ≤ℤ x +ℤ f +ℤ pos gap
behind x f gap = omega int_laws

wide : (e : ℤ) (gap : ℕ) → pos gap +ℤ pos 2 ≤ℤ e → pos 1 ≤ℤ e
wide e gap l = omega (int_laws, l)

module _ (scale : ℤ → Float → ℤ) (w : Tiles) (gap : ℕ) (ws_monocle : Bool) where
  -- The sizes of the two children along one direction.
  abbrev sizes : ℤ → Float → ℤ × ℤ
  sizes extent ratio = split_sizes scale extent (pos gap) ratio

  abbrev run : ℕ → Nodes → Link → (x y width height : ℤ) → Option (Nodes × List Effect)
  run k h l x y width height = arrange_node scale w (pos gap) ws_monocle k h l x y width height

  run_leaf :
      (k : ℕ) (h : Nodes) (a t : ℕ) (x y width height : ℤ)
      → let h₁ = set_geometry h a x y width height in
        is_empty width height ≡ false
        → (h₁ a).first ≡ none
        → (h₁ a).toplevel ≡ some t
        → run (suc k) h (some a) x y width height ≡ some (h₁, leaf_effects w a (some t))
  unfolding arrange_node
  run_leaf k h a t x y width height e f g = rw (e, arrange_node) (rw (f, arrange_node) (rw g refl))

  run_vertical :
      (k : ℕ) (h h₂ h₃ : Nodes) (a l r : ℕ) (x y width height : ℤ) (q : Float)
      (es es' : List Effect)
      → let h₁ = set_geometry h a x y width height in
        is_empty width height ≡ false
        → (h₁ a).first ≡ some l
        → (h₁ a).mode ≡ bsp
        → (h₁ a).split ≡ vertical
        → (h₁ a).ratio ≡ q
        → run k h₁ (some l) x y (sizes width q).0 height ≡ some (h₂, es)
        → (h₂ a).second ≡ some r
        → run k h₂ (some r) (x +ℤ (sizes width q).0 +ℤ pos gap) y (sizes width q).1 height
          ≡ some (h₃, es')
        → run (suc k) h (some a) x y width height ≡ some (h₃, es ++ es')
  unfolding arrange_node
  run_vertical k h h₂ h₃ a l r x y width height q es es' e f m s t u v z =
      rw (e, arrange_node)
        (rw (f, arrange_node)
          (rw (m, arrange_node) (rw (s, arrange_node) (rw (t) (rw u (rw v (rw z refl)))))))

  run_horizontal :
      (k : ℕ) (h h₂ h₃ : Nodes) (a l r : ℕ) (x y width height : ℤ) (q : Float)
      (es es' : List Effect)
      → let h₁ = set_geometry h a x y width height in
        is_empty width height ≡ false
        → (h₁ a).first ≡ some l
        → (h₁ a).mode ≡ bsp
        → (h₁ a).split ≡ horizontal
        → (h₁ a).ratio ≡ q
        → run k h₁ (some l) x y width (sizes height q).0 ≡ some (h₂, es)
        → (h₂ a).second ≡ some r
        → run k h₂ (some r) x (y +ℤ (sizes height q).0 +ℤ pos gap) width (sizes height q).1
          ≡ some (h₃, es')
        → run (suc k) h (some a) x y width height ≡ some (h₃, es ++ es')
  unfolding arrange_node
  run_horizontal k h h₂ h₃ a l r x y width height q es es' e f m s t u v z =
      rw (e, arrange_node)
        (rw (f, arrange_node)
          (rw (m, arrange_node) (rw (s, arrange_node) (rw (t) (rw u (rw v (rw z refl)))))))

  -- The arrangement returns, places every tile and keeps them apart.
  abbrev pub Tiled : ℕ → Nodes → Tree → (x y width height : ℤ) → Type 0
  Tiled k h T x y width height =
      (h' : Nodes) × (run k h (some (addr T)) x y width height ≡ some (h', tree_effects w T))
      × Arranged scale gap h h' T x y width height

  elsewhere :
      (h : Nodes) (a : ℕ) (x y width height : ℤ) (b : ℕ)
      → (b == a) ≡ false
      → set_geometry h a x y width height b ≡ h b
  unfolding set_geometry
  elsewhere h a x y width height b ne = write_ne h a _ b ne

  whole_area :
      (h : Nodes) (a : ℕ) (x y width height : ℤ)
      → Inside (set_geometry h a x y width height) x y width height a
  unfolding set_geometry
  whole_area h a x y width height = record {
    left = subst (λ (n : Node). x ≤ℤ n.x) at (omega arith);
    top = subst (λ (n : Node). y ≤ℤ n.y) at (omega arith);
    right = subst (λ (n : Node). n.x +ℤ n.width ≤ℤ x +ℤ width) at (omega arith);
    bottom = subst (λ (n : Node). n.y +ℤ n.height ≤ℤ y +ℤ height) at (omega arith);
  }
    where
      at :
          record (h a) { x = x; y = y; width = width; height = height }
          ≡ set_geometry h a x y width height a
      at = sym (write_self h a (record (h a) { x = x; y = y; width = width; height = height }))

  leaf-Tiled :
      (k : ℕ) (h : Nodes) (a t : ℕ) (p : Link) (x y width height : ℤ)
      → Rep h p (leaf a t)
      → (pos 1 ≤ℤ width) × (pos 1 ≤ℤ height)
      → Tiled (suc k) h (leaf a t) x y width height
  leaf-Tiled k h a t p x y width height v (lw, lh) = (
    h₁,
    run_leaf k h a t x y width height (not_empty width height lw lh) (shape.first ∙ v.first)
        (shape.toplevel ∙ v.toplevel),
    record {
      same = set_geometry-SameNode h a x y width height;
      outside = λ b o. elsewhere h a x y width height b o;
      inside = λ b m.
          subst (Inside h₁ x y width height) (sym ((==_iff b a).0 m))
            (whole_area h a x y width height);
      apart = λ b c m m' ne. ground arith;
    },
  )
    where
      h₁ : Nodes
      h₁ = set_geometry h a x y width height

      shape : SameShape (h a) (h₁ a)
      shape = (set_geometry-SameNode h a x y width height a).shape

  -- Behind the split along the width.
  vertical-Tiled :
      (k : ℕ) (h : Nodes) (a : ℕ) (l r : Tree) (p : Link) (x y width height : ℤ)
      → Rep h p (branch a vertical l r)
      → Roomy scale gap h (branch a vertical l r) width height
      → ((h' : Nodes)
          → ((b : ℕ) → SameNode (h b) (h' b))
          → Tiled k h' l x y (sizes width (h a).ratio).0 height)
      → ((h' : Nodes)
          → ((b : ℕ) → SameNode (h b) (h' b))
          → Tiled k h' r
              (x +ℤ (sizes width (h a).ratio).0 +ℤ pos gap)
              y
              (sizes width (h a).ratio).1
              height)
      → Tiled (suc k) h (branch a vertical l r) x y width height
  vertical-Tiled k h a l r p x y width height (n, al, ar, d, vl, vr) (m, lw, lh, _, _) left right =
      joined (left h₁ start)
    where
      h₁ : Nodes
      h₁ = set_geometry h a x y width height

      start : (b : ℕ) → SameNode (h b) (h₁ b)
      start = set_geometry-SameNode h a x y width height

      fits :
          let r = sizes width (h a).ratio in
          (r.0 +ℤ r.1 +ℤ pos gap ≡ width) × (pos 1 ≤ℤ r.0) × (pos 1 ≤ℤ r.1)
      fits = split_sizes-Fits scale width (pos gap) (h a).ratio lw

      joined :
          Tiled k h₁ l x y (sizes width (h a).ratio).0 height
          → Tiled (suc k) h (branch a vertical l r) x y width height
      joined (h₂, e, on_left) = both (right h₂ same₂)
        where
          same₂ : (b : ℕ) → SameNode (h b) (h₂ b)
          same₂ b = SameNode-trans (h b) (h₁ b) (h₂ b) (start b) (on_left.same b)

          both :
              Tiled k h₂ r
                (x +ℤ (sizes width (h a).ratio).0 +ℤ pos gap)
                y
                (sizes width (h a).ratio).1
                height
              → Tiled (suc k) h (branch a vertical l r) x y width height
          both (h₃, e', on_right) = (
            h₃,
            run_vertical k h h₂ h₃ a (addr l) (addr r) x y width height (h a).ratio _ _
                (not_empty width height (wide width gap lw) lh) ((start a).shape.first ∙ n.first)
                ((start a).mode ∙ m) ((start a).shape.split ∙ n.split) (start a).ratio e
                ((same₂ a).shape.second ∙ n.second) e',
            Arranged-branch scale gap h h₁ h₂ h₃ a vertical l r x y width height x y
                (sizes width (h a).ratio).0 height (x +ℤ (sizes width (h a).ratio).0 +ℤ pos gap) y
                (sizes width (h a).ratio).1 height al ar d start (elsewhere h a x y width height)
                on_left on_right
                (record {
                  left = omega arith;
                  top = omega arith;
                  right = first_part x _ _ width gap fits.0 fits.2;
                  bottom = omega arith;
                })
                (record {
                  left = second_start x _ gap fits.1;
                  top = omega arith;
                  right = second_part x _ _ width gap fits.0;
                  bottom = omega arith;
                })
                (inl (behind x _ gap)),
          )

  -- Behind the split along the height.
  horizontal-Tiled :
      (k : ℕ) (h : Nodes) (a : ℕ) (l r : Tree) (p : Link) (x y width height : ℤ)
      → Rep h p (branch a horizontal l r)
      → Roomy scale gap h (branch a horizontal l r) width height
      → ((h' : Nodes)
          → ((b : ℕ) → SameNode (h b) (h' b))
          → Tiled k h' l x y width (sizes height (h a).ratio).0)
      → ((h' : Nodes)
          → ((b : ℕ) → SameNode (h b) (h' b))
          → Tiled k h' r x
              (y +ℤ (sizes height (h a).ratio).0 +ℤ pos gap)
              width
              (sizes height (h a).ratio).1)
      → Tiled (suc k) h (branch a horizontal l r) x y width height
  horizontal-Tiled k h a l r p x y width height (n, al, ar, d, vl, vr) (m, lw, lh, _, _) left
        right =
      joined (left h₁ start)
    where
      h₁ : Nodes
      h₁ = set_geometry h a x y width height

      start : (b : ℕ) → SameNode (h b) (h₁ b)
      start = set_geometry-SameNode h a x y width height

      fits :
          let r = sizes height (h a).ratio in
          (r.0 +ℤ r.1 +ℤ pos gap ≡ height) × (pos 1 ≤ℤ r.0) × (pos 1 ≤ℤ r.1)
      fits = split_sizes-Fits scale height (pos gap) (h a).ratio lw

      joined :
          Tiled k h₁ l x y width (sizes height (h a).ratio).0
          → Tiled (suc k) h (branch a horizontal l r) x y width height
      joined (h₂, e, on_left) = both (right h₂ same₂)
        where
          same₂ : (b : ℕ) → SameNode (h b) (h₂ b)
          same₂ b = SameNode-trans (h b) (h₁ b) (h₂ b) (start b) (on_left.same b)

          both :
              Tiled k h₂ r x
                (y +ℤ (sizes height (h a).ratio).0 +ℤ pos gap)
                width
                (sizes height (h a).ratio).1
              → Tiled (suc k) h (branch a horizontal l r) x y width height
          both (h₃, e', on_right) = (
            h₃,
            run_horizontal k h h₂ h₃ a (addr l) (addr r) x y width height (h a).ratio _ _
                (not_empty width height lh (wide height gap lw)) ((start a).shape.first ∙ n.first)
                ((start a).mode ∙ m) ((start a).shape.split ∙ n.split) (start a).ratio e
                ((same₂ a).shape.second ∙ n.second) e',
            Arranged-branch scale gap h h₁ h₂ h₃ a horizontal l r x y width height x y width
                (sizes height (h a).ratio).0 x (y +ℤ (sizes height (h a).ratio).0 +ℤ pos gap) width
                (sizes height (h a).ratio).1 al ar d start (elsewhere h a x y width height) on_left
                on_right
                (record {
                  left = omega arith;
                  top = omega arith;
                  right = omega arith;
                  bottom = first_part y _ _ height gap fits.0 fits.2;
                })
                (record {
                  left = omega arith;
                  top = second_start y _ gap fits.1;
                  right = omega arith;
                  bottom = second_part y _ _ height gap fits.0;
                })
                (inr (behind y _ gap)),
          )

  -- On a tree whose containers are all laid out in both directions, and whose area is large enough
  -- for its tiles and gaps, bsp_arrange_node returns with more fuel than the tree has nodes. It
  -- places the leaves from left to right, every one of them within the area and no two overlapping,
  -- and changes nothing of the nodes but the areas of those of the tree.
  pub arrange_node-Tiled :
      (k : ℕ) (h : Nodes) (T : Tree) (p : Link) (x y width height : ℤ)
      → Rep h p T
      → depth T < k
      → Roomy scale gap h T width height
      → Tiled k h T x y width height
  arrange_node-Tiled zero h T p x y width height v lt room = absurd (omega arith)
  arrange_node-Tiled (suc k) h (leaf a t) p x y width height v lt room =
      leaf-Tiled k h a t p x y width height v room
  arrange_node-Tiled (suc k) h (branch a vertical l r) p x y width height v lt room =
      vertical-Tiled k h a l r p x y width height v room
        (λ h' same.
          arrange_node-Tiled k h' l (some a) _ _ _ _
            (Rep-shape h h' l (some a) v.4 (λ b m. (same b).shape)) (omega arith)
            (Roomy-same scale gap h h' l _ _ same room.3))
        (λ h' same.
          arrange_node-Tiled k h' r (some a) _ _ _ _
            (Rep-shape h h' r (some a) v.5 (λ b m. (same b).shape)) (omega arith)
            (Roomy-same scale gap h h' r _ _ same room.4))
  arrange_node-Tiled (suc k) h (branch a horizontal l r) p x y width height v lt room =
      horizontal-Tiled k h a l r p x y width height v room
        (λ h' same.
          arrange_node-Tiled k h' l (some a) _ _ _ _
            (Rep-shape h h' l (some a) v.4 (λ b m. (same b).shape)) (omega arith)
            (Roomy-same scale gap h h' l _ _ same room.3))
        (λ h' same.
          arrange_node-Tiled k h' r (some a) _ _ _ _
            (Rep-shape h h' r (some a) v.5 (λ b m. (same b).shape)) (omega arith)
            (Roomy-same scale gap h h' r _ _ same room.4))
