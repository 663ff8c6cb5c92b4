-- ===== src/Bsp/Tree/Graft.antt =====
-- The tree after bsp_insert (src/wm/bsp.c): the leaf at node `c` gives way to a branch at node `i`
-- over that leaf and a new one, at node `n`, for window `t`.
use mathlib.Core.List.{Perm, perm_middle}
use mathlib.Core.List.Perm
use uwm.Base.{
  ℕ, ◌≡◌, refl, ◌⊎◌, inl, inr, true, false, none, some, [], ◌∷◌, arith, ◌==◌, ◌=?◌, Link,
  Bool-cases, ==_iff, if◌then◌else◌,
}
use uwm.Bsp.{Node, Nodes, Split}
use uwm.Bsp.Tree.Frame.{has_leaf-has}
use uwm.Bsp.Tree.{Tree, leaf, branch, addr, has, has_leaf, windows, Disjoint, IsLeaf, IsBranch, Rep}

-- A node whose pointers to `c` now lead to `i`.
abbrev pub redirect : (c i : ℕ) → Node → Node
redirect c i nd = record nd {
  first = if nd.first =? some c then some i else nd.first;
  second = if nd.second =? some c then some i else nd.second;
}

module _ (c : ℕ) (sp : Split) (i n t : ℕ) where
  unfoldable pub beside : Tree → Tree
  beside (leaf a w) = if a == c then branch i sp (leaf a w) (leaf n t) else leaf a w
  beside (branch a sp' l r) = branch a sp' (beside l) (beside r)

  pub has-beside :
      (b : ℕ) (T : Tree)
      → has b (beside T) ≡ true
      → (has b T ≡ true) ⊎ ((has c T ≡ true) × ((b ≡ i) ⊎ (b ≡ n)))
  unfolding beside
  has-beside b (leaf a w) e = ground arith
  has-beside b (branch a sp' l r) e = ground (arith, has-beside b l, has-beside b r)

  not-has-beside :
      (b : ℕ) (T : Tree)
      → has b T ≡ false
      → (b == i) ≡ false
      → (b == n) ≡ false
      → has b (beside T) ≡ false
  not-has-beside b T e f g = ground (arith, has-beside b T)

  Disjoint-beside :
      (l r : Tree)
      → (has i l ≡ false) × (has n l ≡ false)
      → (has i r ≡ false) × (has n r ≡ false)
      → Disjoint l r
      → Disjoint (beside l) (beside r)
  Disjoint-beside l r (il, nl) (ir, nr) d b e = elim (Bool-cases (has b (beside r))) [
    | inr out ↦ out
    | inl also ↦ absurd (clash (has-beside b l e) (has-beside b r also))
  ]
    where
      clash :
          (has b l ≡ true) ⊎ ((has c l ≡ true) × ((b ≡ i) ⊎ (b ≡ n)))
          → (has b r ≡ true) ⊎ ((has c r ≡ true) × ((b ≡ i) ⊎ (b ≡ n)))
          → ⊥
      clash (inl x) (inl y) = cc (d b x)
      clash (inr (x, _)) (inr (y, _)) = cc (d c x)
      clash (inl x) (inr (_, inl y)) = let z : has i l ≡ true = rw (← y) x in cc
      clash (inl x) (inr (_, inr y)) = let z : has n l ≡ true = rw (← y) x in cc
      clash (inr (_, inl x)) (inl y) = let z : has i r ≡ true = rw (← x) y in cc
      clash (inr (_, inr x)) (inl y) = let z : has n r ≡ true = rw (← x) y in cc

  -- The nodes `h` after the splice are `h'`.
  pub record Spliced (h h' : Nodes) (T : Tree) : Type 0 where
    pub was_leaf : (h c).first ≡ none
    pub old : h' c ≡ record (h c) { parent = some i }
    pub rest : (b : ℕ) → has b T ≡ true → (b == c) ≡ false → h' b ≡ redirect c i (h b)
    pub inner : IsBranch h' (h c).parent i sp c n
    pub new : IsLeaf h' (some i) n t
    pub no_inner : has i T ≡ false
    pub no_new : has n T ≡ false
    pub apart : (i == n) ≡ false

  module _ (h h' : Nodes) where
    pub addr-beside :
        (T : Tree) (p : Link)
        → Rep h p T
        → (h c).first ≡ none
        → addr (beside T) ≡ (if addr T == c then i else addr T)
    unfolding beside
    addr-beside (leaf a w) p v f = ground arith
    addr-beside (branch a sp' l r) p v f = ground arith

    pub Rep-beside : (T : Tree) (p : Link) → Rep h p T → Spliced h h' T → Rep h' p (beside T)
    unfolding beside
    Rep-beside (leaf a w) p v s = elim (Bool-cases (a == c)) [
      | inl same ↦
          let e : a ≡ c = (==_iff a c).0 same in
          rw same (
            rw e (record {
              parent = ground arith;
              first = s.inner.first;
              second = s.inner.second;
              toplevel = s.inner.toplevel;
              split = s.inner.split;
            }),
            ground arith,
            ground arith,
            ground arith,
            rw e (record {
              parent = ground arith;
              first = ground arith;
              second = ground arith;
              toplevel = ground arith;
            }),
            s.new,
          )
      | inr other ↦ rw other (ground (arith, s.rest a))
    ]
    Rep-beside (branch a sp' l r) p (k, al, ar, d, vl, vr) s = (
      ground (arith, s.rest a, addr-beside l (some a) vl, addr-beside r (some a) vr),
      not-has-beside a l al (ground arith) (ground arith),
      not-has-beside a r ar (ground arith) (ground arith),
      Disjoint-beside l r (ground arith, ground arith) (ground arith, ground arith) d,
      Rep-beside l (some a) vl (record {
        was_leaf = s.was_leaf;
        old = s.old;
        rest = λ b e ne. s.rest b (ground arith) ne;
        inner = s.inner;
        new = s.new;
        no_inner = ground arith;
        no_new = ground arith;
        apart = s.apart;
      }),
      Rep-beside r (some a) vr (record {
        was_leaf = s.was_leaf;
        old = s.old;
        rest = λ b e ne. s.rest b (ground arith) ne;
        inner = s.inner;
        new = s.new;
        no_inner = ground arith;
        no_new = ground arith;
        apart = s.apart;
      }),
    )

  -- The windows of the tree with the new leaf: the old ones, and `t`.
  module _ (h : Nodes) where
    beside_same : (T : Tree) → has c T ≡ false → beside T ≡ T
    unfolding beside
    beside_same (leaf a w) out = ground arith
    beside_same (branch a sp' l r) out =
        rw (beside_same l (ground arith), beside_same r (ground arith)) refl

    pub windows-beside :
        (T : Tree) (p : Link)
        → Rep h p T
        → has_leaf c T ≡ true
        → Perm (windows (beside T)) (t ∷ windows T)
    unfolding beside
    windows-beside (leaf a w) p v m =
        let q : (a == c) ≡ true = ground arith in rw q (Perm.swap t w [])
    windows-beside (branch a sp' l r) p (k, al, ar, d, vl, vr) m =
        elim (Bool-cases (has_leaf c l)) [
          | inl left ↦
              rw (beside_same r (d c (has_leaf-has c l left)))
                (Perm.append_right (windows r) (windows-beside l (some a) vl left))
          | inr right ↦ rw (beside_same l (not_left right)) (
              Perm.trans
                (Perm.append_left (windows l) (windows-beside r (some a) vr (ground arith)))
                (perm_middle (windows l) (windows r)))
        ]
      where
        not_left : has_leaf c l ≡ false → has c l ≡ false
        not_left out = elim (Bool-cases (has c l)) [
          | inl e ↦ cc (d c e, has_leaf-has c r (ground arith))
          | inr e ↦ e
        ]
