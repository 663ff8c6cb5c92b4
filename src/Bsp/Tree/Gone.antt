-- ===== src/Bsp/Tree/Gone.antt =====
-- What the pruned tree (bsp_remove of src/wm/bsp.c) no longer has: the leaf and its parent, and the
-- leaf's window.
use mathlib.Core.List.{Perm, perm_middle}
use mathlib.Core.List.Perm
use uwm.Base.{
  ℕ, ◌≡◌, refl, sym, subst, ◌∙◌, inl, inr, true, false, some, arith, ◌==◌, Link, List, [], ◌∷◌,
  ◌++◌, Bool-cases, ==_iff, true_ne_false,
}
use uwm.Base.Appends.{append_nil}
use uwm.Bsp.{Nodes}
use uwm.Bsp.Tree.Frame.{has-addr, has_leaf-has}
use uwm.Bsp.Tree.Prune.{prune, resplit, prune_same, has-prune, has-resplit, windows-resplit}
use uwm.Bsp.Tree.Pruned.{Family, ne_of_has, at_first, at_second, below}
use uwm.Bsp.Tree.{Tree, leaf, branch, addr, has, has_leaf, windows, Disjoint, Rep}

-- A leaf whose node is the root of a tree is the whole tree.
pub leaf_root :
    (h : Nodes) (T : Tree) (p : Link) (c w : ℕ)
    → Rep h p T
    → has_leaf c T ≡ true
    → addr T ≡ c
    → (h c).toplevel ≡ some w
    → T ≡ leaf c w
leaf_root h (leaf a x) p c w v m e t = ground (arith, v)
leaf_root h (branch a sp l r) p c w (n, al, ar, d, vl, vr) m e t = cc

module _ (h : Nodes) (c g s : ℕ) (f : Family h c g s) where
  -- Neither the leaf nor its parent is left.
  pub gone :
      (T : Tree) (p : Link)
      → Rep h p T
      → has_leaf c T ≡ true
      → (addr T == c) ≡ false
      → (has c (prune c T) ≡ false) × (has g (prune c T) ≡ false)
  unfolding prune
  gone (leaf a w) p v m ne = absurd (true_ne_false (sym m ∙ ground arith))
  gone (branch a sp l r) p v m ne = elim (Bool-cases (addr l == c)) [
    | inl t ↦
        let e : addr l ≡ c = (==_iff (addr l) c).0 t in
        rw t (
          has-resplit c sp r ∙ v.3 c (subst (λ x. has x l ≡ true) e (has-addr l)),
          has-resplit g sp r
              ∙ subst (λ x. has x r ≡ false) (sym (at_first h c g s f p a sp l r v e).0) v.2,
        )
    | inr t ↦ elim (Bool-cases (addr r == c)) [
      | inl u ↦
          let e : addr r ≡ c = (==_iff (addr r) c).0 u in
          rw (t, u)
            (
              has-resplit c sp l ∙ missing c v.3 (subst (λ x. has x r ≡ true) e (has-addr r)),
              has-resplit g sp l
                  ∙ subst (λ x. has x l ≡ false) (sym (at_second h c g s f p a sp l r v e).0) v.1,
            )
      | inr u ↦
          rw (t, u)
            (elim (Bool-cases (has_leaf c l)) [
              | inl i ↦
                  let mc = has_leaf-has c l i in
                  let b = below h c g s f l (some a) v.4 mc t in
                  let w = gone l (some a) v.4 i t in
                  (
                    joined c (ne_of_has l c a mc v.1) w.0 (kept c r (v.3 c mc)),
                    joined g (ne_of_has l g a b.0 v.1) w.1 (kept g r (v.3 g b.0)),
                  )
              | inr o ↦
                  let i = in_right o in
                  let mc = has_leaf-has c r i in
                  let b = below h c g s f r (some a) v.5 mc u in
                  let w = gone r (some a) v.5 i u in
                  (
                    joined c (ne_of_has r c a mc v.2) (kept c l (missing c v.3 mc)) w.0,
                    joined g (ne_of_has r g a b.0 v.2) (kept g l (missing g v.3 b.0)) w.1,
                  )
            ])
    ]
  ]
    where
      in_right : has_leaf c l ≡ false → has_leaf c r ≡ true
      in_right o = ground arith

      missing : (x : ℕ) → Disjoint l r → has x r ≡ true → has x l ≡ false
      missing x d m = elim (Bool-cases (has x l)) [
        | inl e ↦ absurd (true_ne_false (sym m ∙ d x e))
        | inr e ↦ e
      ]

      kept : (x : ℕ) (U : Tree) → has x U ≡ false → has x (prune c U) ≡ false
      kept x U out = elim (Bool-cases (has x (prune c U))) [
        | inl q ↦ absurd (true_ne_false (sym (has-prune x c U q) ∙ out))
        | inr q ↦ q
      ]

      joined :
          (x : ℕ)
          → (x == a) ≡ false
          → has x (prune c l) ≡ false
          → has x (prune c r) ≡ false
          → has x (branch a sp (prune c l) (prune c r)) ≡ false
      joined x e i j = rw (e, i, j) refl

-- Exactly the leaf's window is missing.
pub windows-prune :
    (h : Nodes) (c w : ℕ) (T : Tree) (p : Link)
    → (h c).toplevel ≡ some w
    → Rep h p T
    → has_leaf c T ≡ true
    → (addr T == c) ≡ false
    → Perm (windows T) (w ∷ windows (prune c T))
unfolding prune
windows-prune h c w (leaf a x) p t v m ne = absurd (true_ne_false (sym m ∙ ground arith))
windows-prune h c w (branch a sp l r) p t v m ne = elim (Bool-cases (addr l == c)) [
  | inl e ↦
      let q : addr l ≡ c = (==_iff (addr l) c).0 e in
      rw e (
        subst (λ U. Perm (windows U ++ windows r) (w ∷ windows (resplit sp r)))
          (sym (leaf_root h l (some a) c w v.4 (in_left q) q t))
          (subst (λ xs. Perm (w ∷ windows r) (w ∷ xs)) (sym (windows-resplit sp r))
            (Perm.refl (w ∷ windows r))))
  | inr e ↦ elim (Bool-cases (addr r == c)) [
    | inl u ↦
        let q : addr r ≡ c = (==_iff (addr r) c).0 u in
        rw (e, u)
          (subst (λ U. Perm (windows l ++ windows U) (w ∷ windows (resplit sp l)))
            (sym (leaf_root h r (some a) c w v.5 (at_right q) q t))
            (subst (λ xs. Perm (windows l ++ w ∷ []) (w ∷ xs)) (sym (windows-resplit sp l))
              (last_first (windows l))))
    | inr u ↦
        rw (e, u)
          (elim (Bool-cases (has_leaf c l)) [
            | inl i ↦
                subst (λ U. Perm (windows l ++ windows r) (w ∷ windows (prune c l) ++ windows U))
                  (sym (prune_same c r (v.3 c (has_leaf-has c l i))))
                  (Perm.append_right (windows r) (windows-prune h c w l (some a) t v.4 i e))
            | inr o ↦
                subst (λ U. Perm (windows l ++ windows r) (w ∷ windows U ++ windows (prune c r)))
                  (sym (prune_same c l (missing (has_leaf-has c r (in_right o)))))
                  (Perm.trans
                    (Perm.append_left (windows l)
                      (windows-prune h c w r (some a) t v.5 (in_right o) u))
                    (perm_middle (windows l) (windows (prune c r))))
          ])
  ]
]
  where
    in_right : has_leaf c l ≡ false → has_leaf c r ≡ true
    in_right o = ground arith

    missing : has c r ≡ true → has c l ≡ false
    missing m = elim (Bool-cases (has c l)) [
      | inl e ↦ absurd (true_ne_false (sym m ∙ v.3 c e))
      | inr e ↦ e
    ]

    in_left : addr l ≡ c → has_leaf c l ≡ true
    in_left q = elim (Bool-cases (has_leaf c l)) [
      | inl i ↦ i
      | inr o ↦ absurd (
          true_ne_false (
            sym (has_leaf-has c r (in_right o))
            ∙ v.3 c (subst (λ x. has x l ≡ true) q (has-addr l))))
    ]

    at_right : addr r ≡ c → has_leaf c r ≡ true
    at_right q = elim (Bool-cases (has_leaf c l)) [
      | inl i ↦ absurd (
          true_ne_false
            (sym (subst (λ x. has x r ≡ true) q (has-addr r)) ∙ v.3 c (has_leaf-has c l i)))
      | inr o ↦ in_right o
    ]

    last_first : (xs : List ℕ) → Perm (xs ++ w ∷ []) (w ∷ xs)
    last_first xs = subst (λ ys. Perm (xs ++ w ∷ []) (w ∷ ys)) (append_nil xs) (perm_middle xs [])
