-- ===== src/Bsp/Find/Tabbed.antt =====
-- bsp_find_tabbed_parent (src/wm/bsp.c) from a leaf of a tree returns.
use uwm.Base.{
  ℕ, zero, suc, ◌+◌, ◌<◌, ◌≤◌, ◌≡◌, refl, ap, ◌∙◌, ◌⊎◌, inl, inr, true, false, none, some, arith,
  ◌==◌, Link, Bool-cases, ==_iff,
}
use uwm.Bsp.{Nodes}
use uwm.Bsp.Tree.{Tree, leaf, branch, has, depth, Rep}
use uwm.Bsp.Find.{find_tabbed_from, find_tabbed_parent, is_monocle}

module _ (h : Nodes) where
  -- From a node of a tree the walk ends at a container or leaves the tree by its root's parent.
  abbrev Ends : ℕ → ℕ → (T : Tree) → Link → Type 0
  Ends k a T p =
      ((r : Link) × (find_tabbed_from k h (some a) ≡ some r))
      ⊎ ((j : ℕ) × (k ≤ j + depth T) × (find_tabbed_from k h (some a) ≡ find_tabbed_from j h p))

  one_step :
      (k a : ℕ) (p : Link)
      → (h a).parent ≡ p
      → ((r : Link) × (find_tabbed_from (suc k) h (some a) ≡ some r))
        ⊎ (find_tabbed_from (suc k) h (some a) ≡ find_tabbed_from k h p)
  unfolding find_tabbed_from
  one_step k a p e = elim (Bool-cases (is_monocle (h a).mode)) [
    | inl m ↦ inl (some a, rw (m, find_tabbed_from) refl)
    | inr m ↦ inr (rw (m, find_tabbed_from) (ap (find_tabbed_from k h) e))
  ]

  exit_at : (T : Tree) (a k : ℕ) (p : Link) → 1 ≤ depth T → 1 ≤ k → (h a).parent ≡ p → Ends k a T p
  exit_at T a zero p d lt e = absurd (omega arith)
  exit_at T a (suc k) p d lt e = elim (one_step k a p e) [
    | inl r ↦ inl r
    | inr q ↦ inr (k, omega arith, q)
  ]

  exit_above :
      (T U : Tree) (a x k : ℕ) (p : Link)
      → suc (depth U) ≤ depth T
      → depth T ≤ k
      → (h x).parent ≡ p
      → Ends k a U (some x)
      → Ends k a T p
  exit_above T U a x k p d lt e (inl r) = inl r
  exit_above T U a x k p d lt e (inr (zero, b, q)) = absurd (omega arith)
  exit_above T U a x k p d lt e (inr (suc j, b, q)) = elim (one_step j x p e) [
    | inl (r, z) ↦ inl (r, q ∙ z)
    | inr z ↦ inr (j, omega arith, q ∙ z)
  ]

  find_tabbed-Ends :
      (T : Tree) (p : Link) (a : ℕ)
      → Rep h p T
      → has a T ≡ true
      → (k : ℕ) → depth T ≤ k
      → Ends k a T p
  find_tabbed-Ends (leaf x w) p a v m k lt =
      exit_at (leaf x w) a k p (omega arith) lt (rw ((==_iff a x).0 m) v.parent)
  find_tabbed-Ends (branch x sp l r) p a (n, xl, xr, d, vl, vr) m k lt =
      elim (Bool-cases (a == x)) [
        | inl e ↦
            exit_at (branch x sp l r) a k p (omega arith) (omega arith)
              (rw ((==_iff a x).0 e) n.parent)
        | inr e ↦ elim (Bool-cases (has a l)) [
          | inl i ↦
              exit_above (branch x sp l r) l a x k p (omega arith) lt n.parent
                (find_tabbed-Ends l (some x) a vl i k (omega arith))
          | inr o ↦
              exit_above (branch x sp l r) r a x k p (omega arith) lt n.parent
                (find_tabbed-Ends r (some x) a vr (right e o) k (omega arith))
        ]
      ]
    where
      right : (a == x) ≡ false → has a l ≡ false → has a r ≡ true
      right e o = ground arith

find_tabbed_from-total :
    (h : Nodes) (T : Tree) (k : ℕ) (p : Link)
    → Rep h none T
    → ((x : ℕ) → p ≡ some x → has x T ≡ true)
    → depth T < k
    → (r : Link) × (find_tabbed_from k h p ≡ some r)
unfolding find_tabbed_from
find_tabbed_from-total h T zero p v inside lt = absurd (omega arith)
find_tabbed_from-total h T (suc k) none v inside lt = (none, refl)
find_tabbed_from-total h T (suc k) (some x) v inside lt =
    ended (find_tabbed-Ends h T none x v (inside x refl) (suc k) (omega arith))
  where
    ended : Ends h (suc k) x T none → (r : Link) × (find_tabbed_from (suc k) h (some x) ≡ some r)
    ended (inl r) = r
    ended (inr (zero, b, q)) = absurd (omega arith)
    ended (inr (suc j, b, q)) = (none, q)

-- From a node of a tree, with more fuel than the tree has nodes.
pub find_tabbed_parent-total :
    (h : Nodes) (T : Tree) (k a : ℕ)
    → Rep h none T
    → ((x : ℕ) → (h a).parent ≡ some x → has x T ≡ true)
    → depth T < k
    → (r : Link) × (find_tabbed_parent k h (some a) ≡ some r)
unfolding find_tabbed_parent
find_tabbed_parent-total h T k a v inside lt = find_tabbed_from-total h T k (h a).parent v inside lt
