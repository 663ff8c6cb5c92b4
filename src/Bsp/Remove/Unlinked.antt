-- ===== src/Bsp/Remove/Unlinked.antt =====
-- The pointer writes of bsp_remove (src/wm/bsp.c) turn the nodes of a tree into those of the pruned
-- tree.
use uwm.Base.{
  ℕ, zero, suc, ◌+◌, ◌<◌, ◌≤◌, ◌≡◌, refl, sym, ap, subst, ◌∙◌, ◌⊎◌, inl, inr, true, false, ◌&&◌,
  none, some, arith, ◌==◌, ◌=?◌, Link, Bool-cases, ==_iff, if◌then◌else◌,
}
use uwm.Bsp.{Node, Nodes, write}
use uwm.Bsp.Find.{is_monocle}
use uwm.Bsp.Tree.{Tree, leaf, branch, has, depth, Rep}
use uwm.Bsp.Tree.Prune.{SameShape}
use uwm.Bsp.Remove.{fix_active_child, fix_ancestors}

pub SameShape-refl : (n : Node) → SameShape n n
SameShape-refl n = record {
  parent = refl;
  first = refl;
  second = refl;
  toplevel = refl;
  split = refl;
}

pub SameShape-trans : (n n' n'' : Node) → SameShape n n' → SameShape n' n'' → SameShape n n''
SameShape-trans n n' n'' a b = record {
  parent = b.parent ∙ a.parent;
  first = b.first ∙ a.first;
  second = b.second ∙ a.second;
  toplevel = b.toplevel ∙ a.toplevel;
  split = b.split ∙ a.split;
}

-- Only the active children differ.
abbrev pub SameShapes : Nodes → Nodes → Type 0
SameShapes h h' = (b : ℕ) → SameShape (h b) (h' b)

pub fix_active_child-SameShapes :
    (h : Nodes) (a c : ℕ) (r : Link) → SameShapes h (fix_active_child h a c r)
unfolding fix_active_child write
fix_active_child-SameShapes h a c r b =
    elim (Bool-cases (is_monocle (h a).mode && (h a).active_child =? some c)) [
      | inl t ↦ rw t (written (Bool-cases (b == a)))
      | inr e ↦ rw e (SameShape-refl (h b))
    ]
  where
    written :
        ((b == a) ≡ true) ⊎ ((b == a) ≡ false)
        → SameShape (h b) (if b == a then record (h a) { active_child = r } else h b)
    written (inl t) = rw t (
        subst (λ x. SameShape (h x) (record (h a) { active_child = r })) (sym ((==_iff b a).0 t))
          (record { parent = refl; first = refl; second = refl; toplevel = refl; split = refl }))
    written (inr e) = rw e (SameShape-refl (h b))

abbrev pub SameUp : Nodes → Nodes → Type 0
SameUp h h' = (b : ℕ) → (h' b).parent ≡ (h b).parent

-- The loop changes active children only.
pub fix_ancestors-SameShapes :
    (k : ℕ) (h : Nodes) (cur : Link) (c s : ℕ) (h' : Nodes)
    → fix_ancestors k h cur c s ≡ some h'
    → SameShapes h h'
unfolding fix_ancestors
fix_ancestors-SameShapes zero h cur c s h' e b = cc
fix_ancestors-SameShapes (suc k) h none c s h' e b =
    let q : h ≡ h' = cc in subst (λ x. SameShape (h b) (x b)) q (SameShape-refl (h b))
fix_ancestors-SameShapes (suc k) h (some a) c s h' e b =
    SameShape-trans (h b) (fix_active_child h a c (some s) b) (h' b)
      (fix_active_child-SameShapes h a c (some s) b)
      (fix_ancestors-SameShapes k (fix_active_child h a c (some s))
        (fix_active_child h a c (some s) a).parent c s h' e b)

module _ (h : Nodes) (c s : ℕ) where
  -- One round of the loop over the ancestors.
  abbrev fixed : Nodes → ℕ → Nodes
  fixed h' a = fix_active_child h' a c (some s)

  fixed-SameUp : (h' : Nodes) (a : ℕ) → SameUp h h' → SameUp h (fixed h' a)
  fixed-SameUp h' a same b = (fix_active_child-SameShapes h' a c (some s) b).parent ∙ same b

  one_round :
      (k : ℕ) (h' : Nodes) (a : ℕ) (p : Link)
      → SameUp h h'
      → (h a).parent ≡ p
      → fix_ancestors (suc k) h' (some a) c s ≡ fix_ancestors k (fixed h' a) p c s
  unfolding fix_ancestors
  one_round k h' a p same e =
      ap (λ q. fix_ancestors k (fixed h' a) q c s) (fixed-SameUp h' a same a ∙ e)

  -- From a node of a tree the loop leaves the tree by its root's parent.
  abbrev Leaves : ℕ → Nodes → ℕ → (T : Tree) → Link → Type 0
  Leaves k h' a T p =
      (j : ℕ) × (h'' : Nodes) × (k ≤ j + depth T)
      × SameUp h h''
      × (fix_ancestors k h' (some a) c s ≡ fix_ancestors j h'' p c s)

  exit_at :
      (T : Tree) (a k : ℕ) (h' : Nodes) (p : Link)
      → 1 ≤ depth T
      → 1 ≤ k
      → SameUp h h'
      → (h a).parent ≡ p
      → Leaves k h' a T p
  exit_at T a zero h' p d lt same e = absurd (omega arith)
  exit_at T a (suc k) h' p d lt same e =
      (k, fixed h' a, omega arith, fixed-SameUp h' a same, one_round k h' a p same e)

  exit_above :
      (T U : Tree) (a x k : ℕ) (h' : Nodes) (p : Link)
      → suc (depth U) ≤ depth T
      → depth T ≤ k
      → (h x).parent ≡ p
      → Leaves k h' a U (some x)
      → Leaves k h' a T p
  exit_above T U a x k h' p d lt e (zero, h'', b, same, q) = absurd (omega arith)
  exit_above T U a x k h' p d lt e (suc j, h'', b, same, q) =
      (j, fixed h'' x, omega arith, fixed-SameUp h'' x same, q ∙ one_round j h'' x p same e)

  fix_ancestors-Leaves :
      (T : Tree) (p : Link) (a : ℕ)
      → Rep h p T
      → has a T ≡ true
      → (k : ℕ) (h' : Nodes) → SameUp h h'
      → depth T ≤ k
      → Leaves k h' a T p
  fix_ancestors-Leaves (leaf x w) p a v m k h' same lt =
      exit_at (leaf x w) a k h' p (omega arith) lt same (rw ((==_iff a x).0 m) v.parent)
  fix_ancestors-Leaves (branch x sp l r) p a (n, xl, xr, d, vl, vr) m k h' same lt =
      elim (Bool-cases (a == x)) [
        | inl e ↦
            exit_at (branch x sp l r) a k h' p (omega arith) (omega arith) same
              (rw ((==_iff a x).0 e) n.parent)
        | inr e ↦ elim (Bool-cases (has a l)) [
          | inl i ↦
              exit_above (branch x sp l r) l a x k h' p (omega arith) lt n.parent
                (fix_ancestors-Leaves l (some x) a vl i k h' same (omega arith))
          | inr o ↦
              exit_above (branch x sp l r) r a x k h' p (omega arith) lt n.parent
                (fix_ancestors-Leaves r (some x) a vr (right e o) k h' same (omega arith))
        ]
      ]
    where
      right : (a == x) ≡ false → has a l ≡ false → has a r ≡ true
      right e o = ground arith

-- The loop from the grandparent, which is in the tree if there is one, ends.
pub fix_ancestors_total :
    (h : Nodes) (T : Tree) (c s k : ℕ) (h' : Nodes) (cur : Link)
    → Rep h none T
    → SameUp h h'
    → depth T < k
    → ((a : ℕ) → cur ≡ some a → has a T ≡ true)
    → (h'' : Nodes) × (fix_ancestors k h' cur c s ≡ some h'') × SameUp h h''
unfolding fix_ancestors
fix_ancestors_total h T c s zero h' cur v same lt inside = absurd (omega arith)
fix_ancestors_total h T c s (suc k) h' none v same lt inside = (h', refl, same)
fix_ancestors_total h T c s (suc k) h' (some a) v same lt inside =
    ended (fix_ancestors-Leaves h c s T none a v (inside a refl) (suc k) h' same (omega arith))
  where
    ended :
        Leaves h c s (suc k) h' a T none
        → (h'' : Nodes) × (fix_ancestors (suc k) h' (some a) c s ≡ some h'') × SameUp h h''
    ended (zero, h'', b, same', q) = absurd (omega arith)
    ended (suc j, h'', b, same', q) = (h'', q, same')
