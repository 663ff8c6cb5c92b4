-- ===== src/Bsp/Remove/Acyclic.antt =====
-- No two nodes of a tree of src/wm/bsp.c are each other's parent.
use uwm.Base.{
  ℕ, ◌≡◌, sym, ap, subst, ◌∙◌, inl, inr, true, false, some, arith, ◌==◌, Link, Bool-cases, ==_iff,
  true_ne_false,
}
use uwm.Bsp.{Nodes}
use uwm.Bsp.Tree.{Tree, leaf, branch, has, Rep}
use uwm.Bsp.Tree.Frame.{parent_cases, Rep-parent}

module _ (h : Nodes) where
  -- No two nodes of a tree are each other's parent.
  pub no_cycle :
      (T : Tree) (p : Link)
      → Rep h p T
      → ((x : ℕ) → p ≡ some x → has x T ≡ false)
      → (x y : ℕ) → has x T ≡ true
      → has y T ≡ true
      → (h x).parent ≡ some y
      → (h y).parent ≡ some x
      → ⊥
  no_cycle (leaf a w) p v out x y mx my ex ey = ground (arith, out x, out y)
  no_cycle (branch a sp l r) p (n, al, ar, d, vl, vr) out x y mx my ex ey =
      elim (Bool-cases (x == a)) [
        | inl e ↦ ground (arith, out y)
        | inr xa ↦ elim (Bool-cases (y == a)) [
          | inl e ↦ ground (arith, out x)
          | inr ya ↦ elim (Bool-cases (has x l)) [
            | inl xl ↦ elim (Bool-cases (has y l)) [
              | inl yl ↦ no_cycle l (some a) vl (λ z e. outside l z al e) x y xl yl ex ey
              | inr yl ↦ stay l vl al x y xl yl ya ex
            ]
            | inr xl ↦ elim (Bool-cases (has y r)) [
              | inl yr ↦
                  no_cycle r (some a) vr (λ z e. outside r z ar e) x y (on_right x xa xl mx) yr ex
                    ey
              | inr yr ↦ stay r vr ar x y (on_right x xa xl mx) yr ya ex
            ]
          ]
        ]
      ]
    where
      outside :
          (U : Tree) (z : ℕ) → has a U ≡ false → ◌≡◌ {A = Link} (some a) (some z) → has z U ≡ false
      outside U z o e = let q : a ≡ z = cc in subst (λ x. has x U ≡ false) q o

      on_right :
          (x : ℕ)
          → (x == a) ≡ false
          → has x l ≡ false
          → has x (branch a sp l r) ≡ true
          → has x r ≡ true
      on_right x xa xl m = ground arith

      -- The parent of a node of a child is in the child, or is `a`.
      stay :
          (U : Tree)
          → Rep h (some a) U
          → has a U ≡ false
          → (x y : ℕ) → has x U ≡ true
          → has y U ≡ false
          → (y == a) ≡ false
          → (h x).parent ≡ some y
          → ⊥
      stay U v o x y mx my ya ex = elim (parent_cases h U (some a) x v mx) [
        | inl e ↦ root (ap (λ (z : ℕ). (h z).parent) e ∙ Rep-parent h U (some a) v)
        | inr (b, i, q, _) ↦ inner b i q
      ]
        where
          root : (h x).parent ≡ some a → ⊥
          root e = let q : y ≡ a = cc in true_ne_false (sym ((==_iff y a).1 q) ∙ ya)

          inner : (b : ℕ) → has b U ≡ true → (h x).parent ≡ some b → ⊥
          inner b i e =
              let q : b ≡ y = cc in true_ne_false (sym (subst (λ z. has z U ≡ true) q i) ∙ my)
