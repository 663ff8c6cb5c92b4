-- ===== src/Bsp/Tree/Frame.antt =====
-- Facts about a represented tree: which pointers lead to a node, and which changes of the nodes
-- leave the tree as it is.
use uwm.Base.{ℕ, ◌≡◌, ◌⊎◌, inl, inr, true, some, arith, ◌==◌, Link, Bool-cases}
use uwm.Bsp.{Nodes}
use uwm.Bsp.Tree.{Tree, leaf, branch, addr, has, has_leaf, Rep}

pub has-addr : (T : Tree) → has (addr T) T ≡ true
has-addr (leaf a w) = ground arith
has-addr (branch a sp l r) = ground arith

pub has_leaf-has : (b : ℕ) (T : Tree) → has_leaf b T ≡ true → has b T ≡ true
has_leaf-has b (leaf a w) e = e
has_leaf-has b (branch a sp l r) e = ground (arith, has_leaf-has b l, has_leaf-has b r)

module _ (h : Nodes) where
  -- A change outside the tree leaves the tree.
  pub Rep-frame :
      (h' : Nodes) (T : Tree) (p : Link)
      → Rep h p T
      → ((b : ℕ) → has b T ≡ true → h' b ≡ h b)
      → Rep h' p T
  Rep-frame h' (leaf a w) p v same = ground (arith, same a)
  Rep-frame h' (branch a sp l r) p (n, al, ar, d, vl, vr) same = (
    ground (arith, same a),
    al,
    ar,
    d,
    Rep-frame h' l (some a) vl (λ b e. same b (ground arith)),
    Rep-frame h' r (some a) vr (λ b e. same b (ground arith)),
  )

  -- The root's parent pointer is the given one.
  pub Rep-parent : (T : Tree) (p : Link) → Rep h p T → (h (addr T)).parent ≡ p
  Rep-parent (leaf a w) p v = v.parent
  Rep-parent (branch a sp l r) p v = v.0.parent

  -- A child's parent pointer leads back.
  pub parent_of_first :
      (T : Tree) (p : Link) (a c : ℕ)
      → Rep h p T
      → has a T ≡ true
      → (h a).first ≡ some c
      → (h c).parent ≡ some a
  parent_of_first (leaf b w) p a c v e f = ground arith
  parent_of_first (branch b sp l r) p a c (n, bl, br, d, vl, vr) e f = ground (
    arith,
    parent_of_first l (some b) a c vl,
    parent_of_first r (some b) a c vr,
    Rep-parent l (some b) vl,
  )

  pub parent_of_second :
      (T : Tree) (p : Link) (a c : ℕ)
      → Rep h p T
      → has a T ≡ true
      → (h a).second ≡ some c
      → (h c).parent ≡ some a
  parent_of_second (leaf b w) p a c v e f = ground arith
  parent_of_second (branch b sp l r) p a c (n, bl, br, d, vl, vr) e f = ground (
    arith,
    parent_of_second l (some b) a c vl,
    parent_of_second r (some b) a c vr,
    Rep-parent r (some b) vr,
  )

  -- The two children of a node differ.
  pub first-ne-second :
      (T : Tree) (p : Link) (a c : ℕ)
      → Rep h p T
      → has a T ≡ true
      → (h a).first ≡ some c
      → (h a).second ≡ some c
      → ⊥
  first-ne-second (leaf b w) p a c v e f g = ground arith
  first-ne-second (branch b sp l r) p a c (n, bl, br, d, vl, vr) e f g = ground (
    arith,
    first-ne-second l (some b) a c vl,
    first-ne-second r (some b) a c vr,
    d c,
    has-addr l,
    has-addr r,
  )

  -- A node of the tree is its root, or a child of another node of the tree.
  abbrev pub HasParent : Tree → ℕ → Type 0
  HasParent T c =
      (a : ℕ) × (has a T ≡ true)
      × ((h c).parent ≡ some a)
      × (((h a).first ≡ some c) ⊎ ((h a).second ≡ some c))

  pub parent_cases :
      (T : Tree) (p : Link) (c : ℕ) → Rep h p T → has c T ≡ true → (c ≡ addr T) ⊎ HasParent T c
  parent_cases (leaf b w) p c v e = inl (ground arith)
  parent_cases (branch b sp l r) p c (n, bl, br, d, vl, vr) e = elim (Bool-cases (c == b)) [
    | inl here ↦ inl (ground arith)
    | inr off ↦ elim (Bool-cases (has c l)) [
      | inl left ↦ elim (parent_cases l (some b) c vl left) [
        | inl root ↦
            inr (b, ground arith, ground (arith, Rep-parent l (some b) vl), inl (ground arith))
        | inr (a, i, q, f) ↦ inr (a, ground arith, q, f)
      ]
      | inr right ↦ elim (parent_cases r (some b) c vr (ground arith)) [
        | inl root ↦
            inr (b, ground arith, ground (arith, Rep-parent r (some b) vr), inr (ground arith))
        | inr (a, i, q, f) ↦ inr (a, ground arith, q, f)
      ]
    ]
  ]
