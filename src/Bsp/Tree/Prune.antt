-- ===== src/Bsp/Tree/Prune.antt =====
-- The tree after bsp_remove (src/wm/bsp.c): the branch above the leaf at node `c` gives way to the
-- leaf's sibling, which takes the branch's split if it is a branch itself.
use uwm.Base.{ℕ, ◌≡◌, refl, ◌∙◌, true, false, some, arith, ◌==◌, Link, if◌then◌else◌, is_some}
use uwm.Bsp.{Node, Nodes, Split}
use uwm.Bsp.Tree.Frame.{has-addr}
use uwm.Bsp.Tree.{Tree, leaf, branch, addr, has, windows, Rep}

-- `if (sibling->first) sibling->split = parent->split`
abbrev pub resplit : Split → Tree → Tree
resplit sp (leaf a w) = leaf a w
resplit sp (branch a sp' l r) = branch a sp l r

unfoldable pub prune : ℕ → Tree → Tree
prune c (leaf a w) = leaf a w
prune c (branch a sp l r) =
    let inside = branch a sp (prune c l) (prune c r) in
    if addr l == c then resplit sp r else if addr r == c then resplit sp l else inside

-- What Rep sees of a node.
pub record SameShape (n n' : Node) : Type 0 where
  pub parent : n'.parent ≡ n.parent
  pub first : n'.first ≡ n.first
  pub second : n'.second ≡ n.second
  pub toplevel : n'.toplevel ≡ n.toplevel
  pub split : n'.split ≡ n.split

pub has-resplit : (b : ℕ) (sp : Split) (T : Tree) → has b (resplit sp T) ≡ has b T
has-resplit b sp (leaf a w) = refl
has-resplit b sp (branch a sp' l r) = refl

pub addr-resplit : (sp : Split) (T : Tree) → addr (resplit sp T) ≡ addr T
addr-resplit sp (leaf a w) = refl
addr-resplit sp (branch a sp' l r) = refl

pub windows-resplit : (sp : Split) (T : Tree) → windows (resplit sp T) ≡ windows T
windows-resplit sp (leaf a w) = refl
windows-resplit sp (branch a sp' l r) = refl

module _ (h : Nodes) where
  pub Rep-shape :
      (h' : Nodes) (T : Tree) (p : Link)
      → Rep h p T
      → ((b : ℕ) → has b T ≡ true → SameShape (h b) (h' b))
      → Rep h' p T
  Rep-shape h' (leaf a w) p v same = ground (arith, same a)
  Rep-shape h' (branch a sp l r) p (n, al, ar, d, vl, vr) same = (
    ground (arith, same a),
    al,
    ar,
    d,
    Rep-shape h' l (some a) vl (λ b e. same b (ground arith)),
    Rep-shape h' r (some a) vr (λ b e. same b (ground arith)),
  )

  -- A child of a node of the tree is in the tree.
  pub has_first :
      (T : Tree) (p : Link) (a c : ℕ)
      → Rep h p T
      → has a T ≡ true
      → (h a).first ≡ some c
      → has c T ≡ true
  has_first (leaf b w) p a c v e f = ground arith
  has_first (branch b sp l r) p a c (n, bl, br, d, vl, vr) e f =
      ground (arith, has_first l (some b) a c vl, has_first r (some b) a c vr, has-addr l)

  pub has_second :
      (T : Tree) (p : Link) (a c : ℕ)
      → Rep h p T
      → has a T ≡ true
      → (h a).second ≡ some c
      → has c T ≡ true
  has_second (leaf b w) p a c v e f = ground arith
  has_second (branch b sp l r) p a c (n, bl, br, d, vl, vr) e f =
      ground (arith, has_second l (some b) a c vl, has_second r (some b) a c vr, has-addr r)

  -- A tree under a new parent, with a new split at its root.
  pub Rep-reroot :
      (h' : Nodes) (T : Tree) (p q : Link) (sp : Split)
      → Rep h p T
      → (h' (addr T)).parent ≡ q
      → (h' (addr T)).first ≡ (h (addr T)).first
      → (h' (addr T)).second ≡ (h (addr T)).second
      → (h' (addr T)).toplevel ≡ (h (addr T)).toplevel
      → (is_some (h (addr T)).first ≡ true → (h' (addr T)).split ≡ sp)
      → ((b : ℕ) → has b T ≡ true → (b == addr T) ≡ false → SameShape (h b) (h' b))
      → Rep h' q (resplit sp T)
  Rep-reroot h' (leaf a w) p q sp v ep ef es et esp same = ground arith
  Rep-reroot h' (branch a sp' l r) p q sp (n, al, ar, d, vl, vr) ep ef es et esp same = (
    record {
      parent = ep;
      first = ef ∙ n.first;
      second = es ∙ n.second;
      toplevel = et ∙ n.toplevel;
      split = esp (rw n.first refl);
    },
    al,
    ar,
    d,
    Rep-shape h' l (some a) vl (λ b e. same b (ground arith) (ground arith)),
    Rep-shape h' r (some a) vr (λ b e. same b (ground arith) (ground arith)),
  )

pub prune_same : (c : ℕ) (T : Tree) → has c T ≡ false → prune c T ≡ T
unfolding prune
prune_same c (leaf a w) out = refl
prune_same c (branch a sp l r) out =
    ground (arith, prune_same c l, prune_same c r, has-addr l, has-addr r)

pub has-prune : (b c : ℕ) (T : Tree) → has b (prune c T) ≡ true → has b T ≡ true
unfolding prune
has-prune b c (leaf a w) e = e
has-prune b c (branch a sp l r) e =
    ground (arith, has-prune b c l, has-prune b c r, has-resplit b sp l, has-resplit b sp r)
