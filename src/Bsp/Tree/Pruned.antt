-- ===== src/Bsp/Tree/Pruned.antt =====
-- When the nodes of a tree have become those of the pruned tree (bsp_remove of src/wm/bsp.c).
use uwm.Base.{
  ℕ, ◌≡◌, refl, sym, ap, subst, ◌∙◌, ◌⊎◌, inl, inr, true, false, none, some, arith, ◌==◌, ◌=?◌,
  =?_eq, Link, Bool-cases, ==_iff, if◌then◌else◌, is_some, true_ne_false,
}
use uwm.Bsp.{Nodes, Split}
use uwm.Bsp.Tree.Frame.{has-addr, has_leaf-has, Rep-parent, parent_cases}
use uwm.Bsp.Tree.Graft.{redirect}
use uwm.Bsp.Tree.Prune.{
  prune, resplit, SameShape, Rep-shape, Rep-reroot, has_first, has_second, prune_same, has-prune,
  addr-resplit,
}
use uwm.Bsp.Tree.{Tree, leaf, branch, addr, has, has_leaf, Disjoint, IsBranch, Rep}

-- The leaf `c`, its parent `g` and its sibling `s`.
pub record Family (h : Nodes) (c g s : ℕ) : Type 0 where
  pub ends : (h c).first ≡ none
  pub up : (h c).parent ≡ some g
  pub side :
      (((h g).first ≡ some c) × ((h g).second ≡ some s))
      ⊎ (((h g).first ≡ some s) × ((h g).second ≡ some c))

-- The nodes `h` after the removal are `h'`.
pub record Pruned (h h' : Nodes) (T : Tree) (c g s : ℕ) : Type 0 where
  pub parent : (h' s).parent ≡ (h g).parent
  pub first : (h' s).first ≡ (h s).first
  pub second : (h' s).second ≡ (h s).second
  pub toplevel : (h' s).toplevel ≡ (h s).toplevel
  pub split : is_some (h s).first ≡ true → (h' s).split ≡ (h g).split
  pub rest :
      (b : ℕ)
      → has b T ≡ true
      → (b == c) ≡ false
      → (b == g) ≡ false
      → (b == s) ≡ false
      → SameShape (redirect g s (h b)) (h' b)

-- Two nodes, one in a tree and one not, differ.
pub ne_of_has : (T : Tree) (a b : ℕ) → has a T ≡ true → has b T ≡ false → (a == b) ≡ false
ne_of_has T a b m out = elim (Bool-cases (a == b)) [
  | inl e ↦ absurd (true_ne_false (sym m ∙ ap (λ x. has x T) ((==_iff a b).0 e) ∙ out))
  | inr e ↦ e
]

pub some_inj : {a b : ℕ} → ◌≡◌ {A = Link} (some a) (some b) → a ≡ b
some_inj e = cc

module _ (h : Nodes) (c g s : ℕ) (f : Family h c g s) where
  -- A node that is not above `g` keeps its pointers.
  redirect_outside :
      (T : Tree) (p : Link) (b : ℕ)
      → Rep h p T
      → has b T ≡ true
      → has g T ≡ false
      → redirect g s (h b) ≡ h b
  redirect_outside T p b v m out = rw (not_first, not_second)
    where
      not_first : ((h b).first =? some g) ≡ false
      not_first = elim (Bool-cases ((h b).first =? some g)) [
        | inl e ↦ absurd (true_ne_false (sym (has_first h T p b g v m (=?_eq _ g e)) ∙ out))
        | inr e ↦ e
      ]

      not_second : ((h b).second =? some g) ≡ false
      not_second = elim (Bool-cases ((h b).second =? some g)) [
        | inl e ↦ absurd (true_ne_false (sym (has_second h T p b g v m (=?_eq _ g e)) ∙ out))
        | inr e ↦ e
      ]

  -- Where the leaf is the first child of the root, the root is `g` and the second child is `s`.
  pub at_first :
      (p : Link) (a : ℕ) (sp : Split) (l r : Tree)
      → Rep h p (branch a sp l r)
      → addr l ≡ c
      → (g ≡ a) × (s ≡ addr r)
  at_first p a sp l r (n, al, ar, d, vl, vr) e = elim f.side [
    | inl (x, y) ↦ (ga, some_inj (sym y ∙ ap (λ (x : ℕ). (h x).second) ga ∙ n.second))
    | inr (x, y) ↦ absurd (clash (some_inj (sym y ∙ ap (λ (x : ℕ). (h x).second) ga ∙ n.second)))
  ]
    where
      ga : g ≡ a
      ga = some_inj (sym f.up ∙ ap (λ (x : ℕ). (h x).parent) (sym e) ∙ Rep-parent h l (some a) vl)

      clash : c ≡ addr r → ⊥
      clash q =
          true_ne_false (sym (ap (λ x. has x r) (e ∙ q) ∙ has-addr r) ∙ d (addr l) (has-addr l))

  pub at_second :
      (p : Link) (a : ℕ) (sp : Split) (l r : Tree)
      → Rep h p (branch a sp l r)
      → addr r ≡ c
      → (g ≡ a) × (s ≡ addr l)
  at_second p a sp l r (n, al, ar, d, vl, vr) e = elim f.side [
    | inr (x, y) ↦ (ga, some_inj (sym x ∙ ap (λ (x : ℕ). (h x).first) ga ∙ n.first))
    | inl (x, y) ↦ absurd (clash (some_inj (sym x ∙ ap (λ (x : ℕ). (h x).first) ga ∙ n.first)))
  ]
    where
      ga : g ≡ a
      ga = some_inj (sym f.up ∙ ap (λ (x : ℕ). (h x).parent) (sym e) ∙ Rep-parent h r (some a) vr)

      clash : c ≡ addr l → ⊥
      clash q =
          true_ne_false (sym (has-addr r) ∙ ap (λ x. has x r) (e ∙ q) ∙ d (addr l) (has-addr l))

  -- Below the root, the leaf's parent and its sibling are in the same child.
  pub below :
      (T : Tree) (p : Link)
      → Rep h p T
      → has c T ≡ true
      → (addr T == c) ≡ false
      → (has g T ≡ true) × (has s T ≡ true)
  below T p v m ne = elim (parent_cases h T p c v m) [
    | inl e ↦ absurd (true_ne_false (sym ((==_iff (addr T) c).1 (sym e)) ∙ ne))
    | inr (a, i, q, _) ↦ inside (subst (λ x. has x T ≡ true) (some_inj (sym q ∙ f.up)) i)
  ]
    where
      inside : has g T ≡ true → (has g T ≡ true) × (has s T ≡ true)
      inside i = elim f.side [
        | inl (x, y) ↦ (i, has_second h T p g s v i y)
        | inr (x, y) ↦ (i, has_first h T p g s v i x)
      ]

  -- The root of the pruned tree: the sibling, if the leaf's parent was the root.
  pub addr-prune :
      (T : Tree) (p : Link)
      → Rep h p T
      → has_leaf c T ≡ true
      → (addr T == c) ≡ false
      → addr (prune c T) ≡ (if addr T == g then s else addr T)
  unfolding prune
  addr-prune (leaf a w) p v m ne = absurd (true_ne_false (sym m ∙ ground arith))
  addr-prune (branch a sp l r) p v m ne = elim (Bool-cases (addr l == c)) [
    | inl t ↦
        let q = at_first p a sp l r v ((==_iff (addr l) c).0 t) in
        rw t (addr-resplit sp r ∙ sym q.1 ∙ sym (top q.0))
    | inr t ↦ elim (Bool-cases (addr r == c)) [
      | inl u ↦
          let q = at_second p a sp l r v ((==_iff (addr r) c).0 u) in
          rw (t, u) (addr-resplit sp l ∙ sym q.1 ∙ sym (top q.0))
      | inr u ↦ rw (t, u) (sym (deep (Bool-cases (has_leaf c l)) t u))
    ]
  ]
    where
      top : g ≡ a → (if a == g then s else a) ≡ s
      top e = rw ((==_iff a g).1 (sym e)) refl

      kept : (a == g) ≡ false → (if a == g then s else a) ≡ a
      kept e = rw e refl

      in_right : has_leaf c l ≡ false → has_leaf c r ≡ true
      in_right o = ground arith

      flip : (g == a) ≡ false → (a == g) ≡ false
      flip e = ground arith

      deep :
          (has_leaf c l ≡ true) ⊎ (has_leaf c l ≡ false)
          → (addr l == c) ≡ false
          → (addr r == c) ≡ false
          → (if a == g then s else a) ≡ a
      deep (inl i) t u =
          kept (flip (ne_of_has l g a (below l (some a) v.4 (has_leaf-has c l i) t).0 v.1))
      deep (inr o) t u =
          kept
            (flip (ne_of_has r g a (below r (some a) v.5 (has_leaf-has c r (in_right o)) u).0 v.2))

  module _ (h' : Nodes) where
    -- A subtree away from the leaf, its parent and its sibling stays.
    kept_subtree :
        (T : Tree) (p : Link)
        → Rep h p T
        → has c T ≡ false
        → has g T ≡ false
        → has s T ≡ false
        → ((b : ℕ)
            → has b T ≡ true
            → (b == c) ≡ false
            → (b == g) ≡ false
            → (b == s) ≡ false
            → SameShape (redirect g s (h b)) (h' b))
        → Rep h' p T
    kept_subtree T p v nc ng ns rest = Rep-shape h h' T p v (λ b m.
        subst (λ x. SameShape x (h' b)) (redirect_outside T p b v m ng)
          (rest b m (ne_of_has T b c m nc) (ne_of_has T b g m ng) (ne_of_has T b s m ns)))

    -- The sibling's subtree goes up.
    raised_subtree :
        (T : Tree) (p q : Link) (sp : Split)
        → Rep h q T
        → addr T ≡ s
        → has c T ≡ false
        → has g T ≡ false
        → (h g).parent ≡ p
        → (h g).split ≡ sp
        → Pruned h h' T c g s
        → Rep h' p (resplit sp T)
    raised_subtree T p q sp v e nc ng ep es k =
        Rep-reroot h h' T q p sp v (at (λ x. (h' x).parent ≡ p) (k.parent ∙ ep))
          (at (λ x. (h' x).first ≡ (h x).first) k.first)
          (at (λ x. (h' x).second ≡ (h x).second) k.second)
          (at (λ x. (h' x).toplevel ≡ (h x).toplevel) k.toplevel)
          (at (λ x. is_some (h x).first ≡ true → (h' x).split ≡ sp) (λ i. k.split i ∙ es))
          (λ b m ne.
            subst (λ x. SameShape x (h' b)) (redirect_outside T q b v m ng)
              (k.rest b m (ne_of_has T b c m nc) (ne_of_has T b g m ng)
                (subst (λ x. (b == x) ≡ false) e ne)))
      where
        at : (P : ℕ → Type 0) → P s → P (addr T)
        at P x = subst P (sym e) x

    -- The node above the subtree in which the leaf's parent lies.
    above :
        (p : Link) (a x y x' : ℕ) (sp : Split)
        → IsBranch h p a sp x y
        → SameShape (redirect g s (h a)) (h' a)
        → x' ≡ (if x == g then s else x)
        → (y == g) ≡ false
        → IsBranch h' p a sp x' y
    above p a x y x' sp n same e ne = record {
      parent = same.parent ∙ n.parent;
      first = ground (arith, same, n);
      second = ground (arith, same, n);
      toplevel = same.toplevel ∙ n.toplevel;
      split = same.split ∙ n.split;
    }

    above_right :
        (p : Link) (a x y y' : ℕ) (sp : Split)
        → IsBranch h p a sp x y
        → SameShape (redirect g s (h a)) (h' a)
        → y' ≡ (if y == g then s else y)
        → (x == g) ≡ false
        → IsBranch h' p a sp x y'
    above_right p a x y y' sp n same e ne = record {
      parent = same.parent ∙ n.parent;
      first = ground (arith, same, n);
      second = ground (arith, same, n);
      toplevel = same.toplevel ∙ n.toplevel;
      split = same.split ∙ n.split;
    }

    absent : (l r : Tree) (x : ℕ) → Disjoint l r → has x r ≡ true → has x l ≡ false
    absent l r x d m = elim (Bool-cases (has x l)) [
      | inl e ↦ absurd (true_ne_false (sym m ∙ d x e))
      | inr e ↦ e
    ]

    -- A child pruned, the other one kept.
    Disjoint-prune : (l r : Tree) → Disjoint l r → Disjoint (prune c l) (prune c r)
    Disjoint-prune l r d b e = elim (Bool-cases (has b (prune c r))) [
      | inl q ↦ absurd (true_ne_false (sym (has-prune b c r q) ∙ d b (has-prune b c l e)))
      | inr q ↦ q
    ]

    not-has-prune : (b : ℕ) (T : Tree) → has b T ≡ false → has b (prune c T) ≡ false
    not-has-prune b T out = elim (Bool-cases (has b (prune c T))) [
      | inl q ↦ absurd (true_ne_false (sym (has-prune b c T q) ∙ out))
      | inr q ↦ q
    ]

    -- The nodes of the tree of which a subtree is a part.
    restrict :
        (T U : Tree)
        → ((b : ℕ) → has b U ≡ true → has b T ≡ true)
        → Pruned h h' T c g s
        → Pruned h h' U c g s
    restrict T U sub k = record {
      parent = k.parent;
      first = k.first;
      second = k.second;
      toplevel = k.toplevel;
      split = k.split;
      rest = λ b m. k.rest b (sub b m);
    }

    pub Rep-prune :
        (T : Tree) (p : Link)
        → Rep h p T
        → has_leaf c T ≡ true
        → (addr T == c) ≡ false
        → Pruned h h' T c g s
        → Rep h' p (prune c T)
    unfolding prune
    Rep-prune (leaf a w) p v m ne k = absurd (true_ne_false (sym m ∙ ground arith))
    Rep-prune (branch a sp l r) p (n, al, ar, d, vl, vr) m ne k = elim (Bool-cases (addr l == c)) [
      | inl t ↦
          let e : addr l ≡ c = (==_iff (addr l) c).0 t in
          let q = at_first p a sp l r v e in
          rw t (
            raised_subtree r p (some a) sp vr (sym q.1)
              (d c (subst (λ x. has x l ≡ true) e (has-addr l)))
              (subst (λ x. has x r ≡ false) (sym q.0) ar)
              (ap (λ (x : ℕ). (h x).parent) q.0 ∙ n.parent)
              (ap (λ (x : ℕ). (h x).split) q.0 ∙ n.split) (restrict (branch a sp l r) r right_in k))
      | inr t ↦ elim (Bool-cases (addr r == c)) [
        | inl u ↦
            let e : addr r ≡ c = (==_iff (addr r) c).0 u in
            let q = at_second p a sp l r v e in
            rw (t, u)
              (raised_subtree l p (some a) sp vl (sym q.1)
                (absent l r c d (subst (λ x. has x r ≡ true) e (has-addr r)))
                (subst (λ x. has x l ≡ false) (sym q.0) al)
                (ap (λ (x : ℕ). (h x).parent) q.0 ∙ n.parent)
                (ap (λ (x : ℕ). (h x).split) q.0 ∙ n.split)
                (restrict (branch a sp l r) l left_in k))
        | inr u ↦
            rw (t, u)
              (elim (Bool-cases (has_leaf c l)) [
                | inl i ↦
                    left t i (below l (some a) vl (has_leaf-has c l i) t)
                      (Rep-prune l (some a) vl i t (restrict (branch a sp l r) l left_in k))
                | inr o ↦
                    right u (in_right o) (below r (some a) vr (has_leaf-has c r (in_right o)) u) (
                      Rep-prune r (some a) vr (in_right o) u
                        (restrict (branch a sp l r) r right_in k))
              ])
      ]
    ]
      where
        v : Rep h p (branch a sp l r)
        v = (n, al, ar, d, vl, vr)

        left_in : (b : ℕ) → has b l ≡ true → has b (branch a sp l r) ≡ true
        left_in b e = ground arith

        right_in : (b : ℕ) → has b r ≡ true → has b (branch a sp l r) ≡ true
        right_in b e = ground arith

        self_in : has a (branch a sp l r) ≡ true
        self_in = ground arith

        in_right : has_leaf c l ≡ false → has_leaf c r ≡ true
        in_right o = ground arith

        flip : (x y : ℕ) → (x == y) ≡ false → (y == x) ≡ false
        flip x y e = ground arith

        root :
            (U : Tree)
            → has a U ≡ false
            → has c U ≡ true
            → (has g U ≡ true) × (has s U ≡ true)
            → SameShape (redirect g s (h a)) (h' a)
        root U out mc (mg, ms) =
            k.rest a self_in (flip c a (ne_of_has U c a mc out)) (flip g a (ne_of_has U g a mg out))
              (flip s a (ne_of_has U s a ms out))

        left :
            (addr l == c) ≡ false
            → has_leaf c l ≡ true
            → (has g l ≡ true) × (has s l ≡ true)
            → Rep h' (some a) (prune c l)
            → Rep h' p (branch a sp (prune c l) (prune c r))
        left t i b w =
            let mc = has_leaf-has c l i in
            (
              subst (λ U. IsBranch h' p a sp (addr (prune c l)) (addr U))
                  (sym (prune_same c r (d c mc)))
                  (above p a (addr l) (addr r) (addr (prune c l)) sp n (root l al mc b)
                    (addr-prune l (some a) vl i t) (ne_of_has r (addr r) g (has-addr r) (d g b.0))),
              not-has-prune a l al,
              not-has-prune a r ar,
              Disjoint-prune l r d,
              w,
              subst (Rep h' (some a)) (sym (prune_same c r (d c mc))) (
                  kept_subtree r (some a) vr (d c mc) (d g b.0) (d s b.1)
                    (λ x e. k.rest x (right_in x e))),
            )

        right :
            (addr r == c) ≡ false
            → has_leaf c r ≡ true
            → (has g r ≡ true) × (has s r ≡ true)
            → Rep h' (some a) (prune c r)
            → Rep h' p (branch a sp (prune c l) (prune c r))
        right u i b w =
            let mc = absent l r c d (has_leaf-has c r i) in
            (
              subst (λ U. IsBranch h' p a sp (addr U) (addr (prune c r))) (sym (prune_same c l mc))
                  (above_right p a (addr l) (addr r) (addr (prune c r)) sp n
                    (root r ar (has_leaf-has c r i) b) (addr-prune r (some a) vr i u)
                    (ne_of_has l (addr l) g (has-addr l) (absent l r g d b.0))),
              not-has-prune a l al,
              not-has-prune a r ar,
              Disjoint-prune l r d,
              subst (Rep h' (some a)) (sym (prune_same c l mc)) (
                  kept_subtree l (some a) vl mc (absent l r g d b.0) (absent l r s d b.1)
                    (λ x e. k.rest x (left_in x e))),
              w,
            )
