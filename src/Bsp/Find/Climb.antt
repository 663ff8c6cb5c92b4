-- ===== src/Bsp/Find/Climb.antt =====
-- The walk up the parent pointers in bsp_find_leaf (src/wm/bsp.c) reaches the root of the tree from
-- each of its nodes.
use uwm.Base.{
  ℕ, zero, suc, ◌+◌, ◌<◌, ◌≤◌, ◌≡◌, refl, ◌∙◌, inl, inr, true, false, some, arith, ◌==◌, Link,
  Bool-cases, ==_iff,
}
use uwm.Bsp.{Nodes}
use uwm.Bsp.Tree.{Tree, leaf, branch, addr, has, depth, Rep}
use uwm.Bsp.Find.{walk_up}

-- A walk that has not met `b` yet.
data Climb (h : Nodes) (b : ℕ) : Link → Link → Type 0 where
  here : {l : Link} → Climb h b l l
  up :
      {a : ℕ} {q l : Link}
      → (a == b) ≡ false
      → (h a).parent ≡ q
      → Climb h b q l
      → Climb h b (some a) l

module _ (h : Nodes) (b : ℕ) where
  steps : {l m : Link} → Climb h b l m → ℕ
  steps here = 0
  steps (up ne e c) = suc (steps c)

  followed_by : {l m n : Link} → Climb h b l m → Climb h b m n → Climb h b l n
  followed_by here d = d
  followed_by (up ne e c) d = up ne e (followed_by c d)

  steps-followed_by :
      {l m n : Link} (c : Climb h b l m) (d : Climb h b m n)
      → steps (followed_by c d) ≡ steps c + steps d
  unfolding steps followed_by
  steps-followed_by here d = omega arith
  steps-followed_by (up ne e c) d = omega (arith, steps-followed_by c d)

  -- With more fuel than steps the walk gets past them.
  walk-Climb :
      {l m : Link} (c : Climb h b l m) (k : ℕ)
      → steps c < k
      → (j : ℕ) × (k ≡ steps c + j) × (walk_up k h l b ≡ walk_up j h m b)
  unfolding steps walk_up
  walk-Climb here k lt = (k, omega arith, refl)
  walk-Climb (up ne e c) zero lt = absurd (omega arith)
  walk-Climb (up ne e c) (suc k) lt =
      let (j, s, w) = walk-Climb c k (omega arith) in (j, omega arith, rw (ne, e) w)

  -- From a node of a tree without `b` the walk leaves the tree by its root's parent.
  climb_out :
      (T : Tree) (p : Link) (a : ℕ)
      → Rep h p T
      → has a T ≡ true
      → has b T ≡ false
      → (c : Climb h b (some a) p) × (steps c ≤ depth T)
  unfolding steps
  climb_out (leaf x w) p a v m out =
      (up (ground arith) (rw ((==_iff a x).0 m) v.parent) here, omega arith)
  climb_out (branch x sp l r) p a (k, xl, xr, d, vl, vr) m out = elim (Bool-cases (a == x)) [
    | inl e ↦ (up (ground arith) (rw ((==_iff a x).0 e) k.parent) here, omega arith)
    | inr e ↦ elim (Bool-cases (has a l)) [
      | inl left ↦ extend (climb_out l (some x) a vl left (ground arith)) (omega arith)
      | inr right ↦ extend (climb_out r (some x) a vr (ground arith) (ground arith)) (omega arith)
    ]
  ]
    where
      last : Climb h b (some x) p
      last = up (ground arith) k.parent here

      extend :
          {n : ℕ}
          → (c : Climb h b (some a) (some x)) × (steps c ≤ n)
          → n < depth (branch x sp l r)
          → (c : Climb h b (some a) p) × (steps c ≤ depth (branch x sp l r))
      extend (c, e) le = (followed_by c last, omega (arith, steps-followed_by c last))

module _ (h : Nodes) where
  stop : (k b : ℕ) → 0 < k → walk_up k h (some b) b ≡ some (some b)
  unfolding walk_up
  stop zero b lt = absurd (omega arith)
  stop (suc k) b lt = ground arith

  walk_ends :
      (b a n k : ℕ)
      → (c : Climb h b (some a) (some b)) × (steps h b c ≤ n)
      → n < k
      → walk_up k h (some a) b ≡ some (some b)
  walk_ends b a n k (c, e) lt =
      let (j, s, w) = walk-Climb h b c k (omega arith) in w ∙ stop j b (omega arith)

  -- From a node of the tree the walk up ends at the root, with more fuel than the tree has nodes.
  pub walk_up-root :
      (T : Tree) (p : Link) (a k : ℕ)
      → Rep h p T
      → has a T ≡ true
      → depth T < k
      → walk_up k h (some a) (addr T) ≡ some (some (addr T))
  walk_up-root (leaf x w) p a k v m lt = rw ((==_iff a x).0 m) (stop k x (omega arith))
  walk_up-root (branch x sp l r) p a k (_, xl, xr, d, vl, vr) m lt = elim (Bool-cases (a == x)) [
    | inl e ↦ rw ((==_iff a x).0 e) (stop k x (omega arith))
    | inr e ↦ elim (Bool-cases (has a l)) [
      | inl left ↦ walk_ends x a (depth l) k (climb_out h x l (some x) a vl left xl) (omega arith)
      | inr right ↦
          walk_ends x a (depth r) k (climb_out h x r (some x) a vr (ground arith) xr) (omega arith)
    ]
  ]
