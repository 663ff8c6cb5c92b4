-- ===== src/Arrange/Walked.antt =====
-- bsp_arrange_node (src/wm/bsp_arrange.c) of a workspace in monocle mode, on any tree and in any area:
-- it returns, and leaves the visibility of windows alone.
use uwm.Base.{
  ℕ, zero, suc, ◌+◌, ◌<◌, ◌≤◌, ◌≡◌, refl, sym, ap, subst, ◌∙◌, ◌⊎◌, inl, inr, Bool, true, false,
  not, ◌&&◌, Option, none, some, List, [], ◌∷◌, ◌++◌, Link, arith, ◌==◌, ==_iff, Bool-cases, ◌||◌,
  if◌then◌else◌, if_true,
}
use uwm.Base.Int.{ℤ, ◌+ℤ◌}
use uwm.Bsp.{Node, Nodes, Float, Split, vertical, horizontal, Mode, bsp, monocle, write}
use uwm.Bsp.Tree.{Tree, leaf, branch, addr, has, depth, Rep}
use uwm.Bsp.Tree.Prune.{SameShape, Rep-shape}
use uwm.Bsp.Remove.Unlinked.{SameShape-refl, SameShape-trans}
use uwm.Arrange.{split_sizes}
use uwm.Arrange.Place.{
  Tiles, Effect, apply_geometry, update_visibility, set_geometry, is_empty, leaf_effects, and_then,
  arrange_node_full, arrange_monocle, arrange_node,
}

-- No call of update_layout_visibility.
abbrev pub OnlyGeometry : List Effect → Type 0
OnlyGeometry [] = Unit
OnlyGeometry (apply_geometry a ∷ es) = OnlyGeometry es
OnlyGeometry (update_visibility a ∷ es) = ⊥

OnlyGeometry-append :
    (es es' : List Effect) → OnlyGeometry es → OnlyGeometry es' → OnlyGeometry (es ++ es')
OnlyGeometry-append [] es' o o' = o'
OnlyGeometry-append (apply_geometry a ∷ es) es' o o' = OnlyGeometry-append es es' o o'
OnlyGeometry-append (update_visibility a ∷ es) es' o o' = absurd o

leaf_effects-OnlyGeometry : (w : Tiles) (a : ℕ) (l : Link) → OnlyGeometry (leaf_effects w a l)
unfolding leaf_effects
leaf_effects-OnlyGeometry w a none = tt
leaf_effects-OnlyGeometry w a (some t) =
    either (not (w.floating t) && not (w.fullscreen t) && not (w.on_monocle t))
  where
    either : (c : Bool) → OnlyGeometry (if c then apply_geometry a ∷ [] else [])
    either true = tt
    either false = tt

-- The active child of every container is below it.
abbrev pub Within : Nodes → Tree → Type 0
Within h (leaf a t) = Unit
Within h (branch a sp l r) =
    ((c : ℕ) → (h a).active_child ≡ some c → (has c l ≡ true) ⊎ (has c r ≡ true))
    × Within h l
    × Within h r

-- What the walk keeps of a node.
pub record Kept (n n' : Node) : Type 0 where
  pub shape : SameShape n n'
  pub active : n'.active_child ≡ n.active_child

Kept-refl : (n : Node) → Kept n n
Kept-refl n = record { shape = SameShape-refl n; active = refl }

Kept-trans : (n n' n'' : Node) → Kept n n' → Kept n' n'' → Kept n n''
Kept-trans n n' n'' a b = record {
  shape = SameShape-trans n n' n'' a.shape b.shape;
  active = b.active ∙ a.active;
}

set_geometry-Kept :
    (h : Nodes) (a : ℕ) (x y width height : ℤ) (b : ℕ)
    → Kept (h b) (set_geometry h a x y width height b)
unfolding set_geometry write
set_geometry-Kept h a x y width height b = elim (Bool-cases (b == a)) [
  | inl e ↦
      rw (e, (==_iff b a).0 e)
        (record {
          shape = record {
            parent = refl;
            first = refl;
            second = refl;
            toplevel = refl;
            split = refl;
          };
          active = refl;
        })
  | inr e ↦ rw e (Kept-refl (h b))
]

Within-Kept : (h h' : Nodes) (T : Tree) → ((b : ℕ) → Kept (h b) (h' b)) → Within h T → Within h' T
Within-Kept h h' (leaf a t) k v = tt
Within-Kept h h' (branch a sp l r) k (c, vl, vr) =
    (λ x e. c x (sym (k a).active ∙ e), Within-Kept h h' l k vl, Within-Kept h h' r k vr)

Rep-Kept :
    (h h' : Nodes) (T : Tree) (p : Link) → ((b : ℕ) → Kept (h b) (h' b)) → Rep h p T → Rep h' p T
Rep-Kept h h' T p k v = Rep-shape h h' T p v (λ b m. (k b).shape)

-- The subtree at a node.
subtree :
    (h : Nodes) (T : Tree) (p : Link) (c : ℕ)
    → Rep h p T
    → has c T ≡ true
    → (S : Tree) × (q : Link) × (addr S ≡ c) × Rep h q S × (depth S ≤ depth T)
subtree h (leaf a t) p c v m = (leaf a t, p, sym ((==_iff c a).0 m), v, omega arith)
subtree h (branch a sp l r) p c v m = elim (Bool-cases (c == a)) [
  | inl e ↦ (branch a sp l r, p, sym ((==_iff c a).0 e), v, omega arith)
  | inr ne ↦ elim (Bool-cases (has c l)) [
    | inl ml ↦ let (S, q, e, w, d) = subtree h l (some a) c v.4 ml in (S, q, e, w, omega (arith, d))
    | inr nl ↦
        let mr : has c r ≡ true =
          sym (ap (λ b. b || (has c l || has c r)) ne ∙ ap (λ b. b || has c r) nl) ∙ m in
        let (S, q, e, w, d) = subtree h r (some a) c v.5 mr in (S, q, e, w, omega (arith, d))
  ]
]

-- The outcome of a walk over the nodes `h`.
abbrev pub Walked : Nodes → Option (Nodes × List Effect) → Type 0
Walked h r =
    (h' : Nodes) × (es : List Effect) × (r ≡ some (h', es))
    × OnlyGeometry es
    × ((b : ℕ) → Kept (h b) (h' b))

and_then-Walked :
    (h : Nodes) (r : Option (Nodes × List Effect)) (next : Nodes → Option (Nodes × List Effect))
    → Walked h r
    → ((h' : Nodes) → ((b : ℕ) → Kept (h b) (h' b)) → Walked h' (next h'))
    → Walked h (and_then r next)
unfolding and_then
and_then-Walked h r next (h', es, e, o, k) n =
    let (h'', es', e', o', k') = n h' k in
    (
      h'',
      es ++ es',
      rw (e, and_then) (rw e' refl),
      OnlyGeometry-append es es' o o',
      λ b. Kept-trans (h b) (h' b) (h'' b) (k b) (k' b),
    )

-- Behind a change of the nodes that keeps them.
Walked-Kept :
    (h h₁ : Nodes) (r : Option (Nodes × List Effect))
    → ((b : ℕ) → Kept (h b) (h₁ b))
    → Walked h₁ r
    → Walked h r
Walked-Kept h h₁ r k (h', es, e, o, k') =
    (h', es, e, o, λ b. Kept-trans (h b) (h₁ b) (h' b) (k b) (k' b))

module _ (w : Tiles) where
  abbrev full : ℕ → Nodes → Link → (x y width height : ℤ) → Option (Nodes × List Effect)
  full k h l x y width height = arrange_node_full w k h l x y width height

  full_leaf :
      (k : ℕ) (h : Nodes) (a : ℕ) (x y width height : ℤ)
      → let h₁ = set_geometry h a x y width height in
        is_empty width height ≡ false
        → (h₁ a).first ≡ none
        → full (suc k) h (some a) x y width height ≡ some (h₁, leaf_effects w a (h₁ a).toplevel)
  unfolding arrange_node_full
  full_leaf k h a x y width height e f = rw (e, arrange_node_full) (rw (f, arrange_node_full) refl)

  full_branch :
      (k : ℕ) (h : Nodes) (a l : ℕ) (x y width height : ℤ)
      → let h₁ = set_geometry h a x y width height in
        is_empty width height ≡ false
        → (h₁ a).first ≡ some l
        → full (suc k) h (some a) x y width height
          ≡ and_then
              (full k h₁ (some l) x y width height)
              (λ h''. full k h'' (h'' a).second x y width height)
  unfolding arrange_node_full
  full_branch k h a l x y width height e f =
      rw (e, arrange_node_full) (rw (f, arrange_node_full) refl)

  full_empty :
      (k : ℕ) (h : Nodes) (a : ℕ) (x y width height : ℤ)
      → is_empty width height ≡ true
      → full (suc k) h (some a) x y width height ≡ some (h, [])
  unfolding arrange_node_full
  full_empty k h a x y width height e = if_true _ _ e

  full-Walked :
      (k : ℕ) (h : Nodes) (T : Tree) (p : Link) (x y width height : ℤ)
      → Rep h p T
      → depth T < k
      → Walked h (full k h (some (addr T)) x y width height)
  full-Walked zero h T p x y width height v lt = absurd (omega arith)
  full-Walked (suc k) h (leaf a t) p x y width height v lt =
      elim (Bool-cases (is_empty width height)) [
        | inl e ↦ (h, [], full_empty k h a x y width height e, tt, λ b. Kept-refl (h b))
        | inr e ↦
            let h₁ = set_geometry h a x y width height in
            let kept = set_geometry-Kept h a x y width height in
            (
              h₁,
              leaf_effects w a (h₁ a).toplevel,
              full_leaf k h a x y width height e ((kept a).shape.first ∙ v.first),
              leaf_effects-OnlyGeometry w a (h₁ a).toplevel,
              kept,
            )
      ]
  full-Walked (suc k) h (branch a sp l r) p x y width height (n, al, ar, d, vl, vr) lt =
      elim (Bool-cases (is_empty width height)) [
        | inl e ↦ (h, [], full_empty k h a x y width height e, tt, λ b. Kept-refl (h b))
        | inr e ↦
            let h₁ = set_geometry h a x y width height in
            let kept = set_geometry-Kept h a x y width height in
            subst (Walked h)
              (sym (full_branch k h a (addr l) x y width height e ((kept a).shape.first ∙ n.first)))
              (Walked-Kept h h₁ _ kept (
                and_then-Walked h₁ _ _
                  (full-Walked k h₁ l (some a) x y width height (Rep-Kept h h₁ l (some a) kept vl)
                    (omega (arith, lt)))
                  (λ h'' kept'.
                    subst (λ c. Walked h'' (full k h'' c x y width height))
                      (sym ((kept' a).shape.second ∙ (kept a).shape.second ∙ n.second))
                      (full-Walked k h'' r (some a) x y width height
                        (Rep-Kept h₁ h'' r (some a) kept' (Rep-Kept h h₁ r (some a) kept vr))
                        (omega (arith, lt))))))
      ]

split-cases : (s : Split) → (s ≡ vertical) ⊎ (s ≡ horizontal)
split-cases vertical = inl refl
split-cases horizontal = inr refl

mode-cases : (m : Mode) → (m ≡ bsp) ⊎ (m ≡ monocle)
mode-cases bsp = inl refl
mode-cases monocle = inr refl

link-cases : (l : Link) → (l ≡ none) ⊎ ((c : ℕ) × (l ≡ some c))
link-cases none = inl refl
link-cases (some c) = inr (c, refl)

module _ (scale : ℤ → Float → ℤ) (w : Tiles) (gap : ℤ) where
  abbrev run : ℕ → Nodes → Link → (x y width height : ℤ) → Option (Nodes × List Effect)
  run k h l x y width height = arrange_node scale w gap true k h l x y width height

  abbrev sizes : ℤ → Float → ℤ × ℤ
  sizes extent ratio = split_sizes scale extent gap ratio

  run_leaf :
      (k : ℕ) (h : Nodes) (a : ℕ) (x y width height : ℤ)
      → let h₁ = set_geometry h a x y width height in
        is_empty width height ≡ false
        → (h₁ a).first ≡ none
        → run (suc k) h (some a) x y width height ≡ some (h₁, leaf_effects w a (h₁ a).toplevel)
  unfolding arrange_node
  run_leaf k h a x y width height e f = rw (e, arrange_node) (rw (f, arrange_node) refl)

  run_monocle :
      (k : ℕ) (h : Nodes) (a l : ℕ) (x y width height : ℤ)
      → let h₁ = set_geometry h a x y width height in
        is_empty width height ≡ false
        → (h₁ a).first ≡ some l
        → (h₁ a).mode ≡ monocle
        → run (suc k) h (some a) x y width height
          ≡ arrange_monocle scale w gap true k h₁ a x y width height
  unfolding arrange_node
  run_monocle k h a l x y width height e f m =
      rw (e, arrange_node) (rw (f, arrange_node) (rw (m, arrange_node) refl))

  run_vertical :
      (k : ℕ) (h : Nodes) (a l : ℕ) (x y width height : ℤ)
      → let h₁ = set_geometry h a x y width height in
        let s = sizes width (h₁ a).ratio in
        is_empty width height ≡ false
        → (h₁ a).first ≡ some l
        → (h₁ a).mode ≡ bsp
        → (h₁ a).split ≡ vertical
        → run (suc k) h (some a) x y width height
          ≡ and_then
              (run k h₁ (some l) x y s.0 height)
              (λ h''. run k h'' (h'' a).second (x +ℤ s.0 +ℤ gap) y s.1 height)
  unfolding arrange_node
  run_vertical k h a l x y width height e f m s =
      rw (e, arrange_node) (rw (f, arrange_node) (rw (m, arrange_node) (rw (s, arrange_node) refl)))

  run_horizontal :
      (k : ℕ) (h : Nodes) (a l : ℕ) (x y width height : ℤ)
      → let h₁ = set_geometry h a x y width height in
        let s = sizes height (h₁ a).ratio in
        is_empty width height ≡ false
        → (h₁ a).first ≡ some l
        → (h₁ a).mode ≡ bsp
        → (h₁ a).split ≡ horizontal
        → run (suc k) h (some a) x y width height
          ≡ and_then
              (run k h₁ (some l) x y width s.0)
              (λ h''. run k h'' (h'' a).second x (y +ℤ s.0 +ℤ gap) width s.1)
  unfolding arrange_node
  run_horizontal k h a l x y width height e f m s =
      rw (e, arrange_node) (rw (f, arrange_node) (rw (m, arrange_node) (rw (s, arrange_node) refl)))

  -- A container that shows one child.
  monocle-Walked :
      (k : ℕ) (h : Nodes) (a : ℕ) (sp : Split) (l r : Tree) (p : Link) (x y width height : ℤ)
      → Rep h p (branch a sp l r)
      → Within h (branch a sp l r)
      → depth l + depth r < k
      → Walked h (arrange_monocle scale w gap true k h a x y width height)
  unfolding arrange_monocle
  monocle-Walked k h a sp l r p x y width height (n, _, _, _, vl, vr) (below, _, _) lt =
      and_then-Walked h _ _ (child (link-cases (h a).active_child))
        (λ h' kept. (h', [], refl, tt, λ b. Kept-refl (h' b)))
    where
      found :
          (S : Tree) (q : Link) (c : ℕ)
          → addr S ≡ c
          → Rep h q S
          → depth S < k
          → Walked h (arrange_node_full w k h (some c) x y width height)
      found S q c e v d =
          subst (λ c. Walked h (arrange_node_full w k h (some c) x y width height)) e
            (full-Walked w k h S q x y width height v d)

      child :
          ((h a).active_child ≡ none) ⊎ ((c : ℕ) × ((h a).active_child ≡ some c))
          → Walked h (
              arrange_node_full w k h
                (elim (h a).active_child [ none ↦ (h a).first | some c ↦ some c ])
                x
                y
                width
                height)
      child (inl e) = rw e (rw n.first (found l (some a) (addr l) refl vl (omega (arith, lt))))
      child (inr (c, e)) = rw e (elim (below c e) [
        | inl m ↦
            let (S, q, z, v, d) = subtree h l (some a) c vl m in
            found S q c z v (omega (arith, lt, d))
        | inr m ↦
            let (S, q, z, v, d) = subtree h r (some a) c vr m in
            found S q c z v (omega (arith, lt, d))
      ])

  -- A container, with what its two children do in any areas.
  module _ (k : ℕ) (h : Nodes) (a : ℕ) (sp : Split) (l r : Tree) (p : Link) (x y width height : ℤ)
      (v : Rep h p (branch a sp l r)) (i : Within h (branch a sp l r)) (lt : depth l + depth r < k)
      (e : is_empty width height ≡ false) where
    abbrev h₁ : Nodes
    h₁ = set_geometry h a x y width height

    kept : (b : ℕ) → Kept (h b) (h₁ b)
    kept = set_geometry-Kept h a x y width height

    v₁ : Rep h₁ p (branch a sp l r)
    v₁ = Rep-Kept h h₁ (branch a sp l r) p kept v

    i₁ : Within h₁ (branch a sp l r)
    i₁ = Within-Kept h h₁ (branch a sp l r) kept i

    module _ (left : (x y width height : ℤ) → Walked h₁ (run k h₁ (some (addr l)) x y width height))
        (right : (h'' : Nodes)
          → ((b : ℕ) → Kept (h₁ b) (h'' b))
          → (x y width height : ℤ) → Walked h'' (run k h'' (some (addr r)) x y width height)) where
      children :
          (x₁ y₁ w₁ t₁ x₂ y₂ w₂ t₂ : ℤ)
          → Walked h₁ (
              and_then
                (run k h₁ (some (addr l)) x₁ y₁ w₁ t₁)
                (λ h''. run k h'' (h'' a).second x₂ y₂ w₂ t₂))
      children x₁ y₁ w₁ t₁ x₂ y₂ w₂ t₂ = and_then-Walked h₁ _ _ (left x₁ y₁ w₁ t₁) (λ h'' kept'.
          subst (λ c. Walked h'' (run k h'' c x₂ y₂ w₂ t₂))
            (sym ((kept' a).shape.second ∙ v₁.0.second)) (right h'' kept' x₂ y₂ w₂ t₂))

      by_split :
          (h₁ a).mode ≡ bsp
          → ((h₁ a).split ≡ vertical) ⊎ ((h₁ a).split ≡ horizontal)
          → Walked h₁ (run (suc k) h (some a) x y width height)
      by_split m (inl s) =
          subst (Walked h₁) (sym (run_vertical k h a (addr l) x y width height e v₁.0.first m s))
            (children _ _ _ _ _ _ _ _)
      by_split m (inr s) =
          subst (Walked h₁) (sym (run_horizontal k h a (addr l) x y width height e v₁.0.first m s))
            (children _ _ _ _ _ _ _ _)

      branch-Walked : Walked h (run (suc k) h (some a) x y width height)
      branch-Walked = Walked-Kept h h₁ _ kept (elim (mode-cases (h₁ a).mode) [
        | inl m ↦ by_split m (split-cases (h₁ a).split)
        | inr m ↦
            subst (Walked h₁) (sym (run_monocle k h a (addr l) x y width height e v₁.0.first m))
              (monocle-Walked k h₁ a sp l r p x y width height v₁ i₁ lt)
      ])

  pub arrange_node-Walked :
      (k : ℕ) (h : Nodes) (T : Tree) (p : Link) (x y width height : ℤ)
      → Rep h p T
      → Within h T
      → depth T < k
      → Walked h (run k h (some (addr T)) x y width height)
  unfolding arrange_node
  arrange_node-Walked zero h T p x y width height v i lt = absurd (omega arith)
  arrange_node-Walked (suc k) h (leaf a t) p x y width height v i lt =
      elim (Bool-cases (is_empty width height)) [
        | inl e ↦ (h, [], if_true _ _ e, tt, λ b. Kept-refl (h b))
        | inr e ↦
            let h₁ = set_geometry h a x y width height in
            let kept = set_geometry-Kept h a x y width height in
            (
              h₁,
              leaf_effects w a (h₁ a).toplevel,
              run_leaf k h a x y width height e ((kept a).shape.first ∙ v.first),
              leaf_effects-OnlyGeometry w a (h₁ a).toplevel,
              kept,
            )
      ]
  arrange_node-Walked (suc k) h (branch a sp l r) p x y width height v i lt =
      elim (Bool-cases (is_empty width height)) [
        | inl e ↦ (h, [], if_true _ _ e, tt, λ b. Kept-refl (h b))
        | inr e ↦
            let kept = set_geometry-Kept h a x y width height in
            let h₁ = set_geometry h a x y width height in
            let v₁ = Rep-Kept h h₁ (branch a sp l r) p kept v in
            let i₁ = Within-Kept h h₁ (branch a sp l r) kept i in
            branch-Walked k h a sp l r p x y width height v i (omega (arith, lt)) e
              (λ x y width height.
                arrange_node-Walked k h₁ l (some a) x y width height v₁.4 i₁.1 (omega (arith, lt)))
              (λ h'' kept' x y width height.
                arrange_node-Walked k h'' r (some a) x y width height
                  (Rep-Kept h₁ h'' r (some a) kept' v₁.5) (Within-Kept h₁ h'' r kept' i₁.2)
                  (omega (arith, lt)))
      ]
