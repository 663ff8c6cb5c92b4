-- ===== src/Bsp/Remove/Taken.antt =====
-- Which nodes bsp_remove (src/wm/bsp.c) takes out of a tree: a leaf below the root has a parent and
-- a sibling; and the pool when the two nodes have been freed.
use uwm.Base.{
  ℕ, ◌≡◌, refl, sym, ◌∙◌, ◌⊎◌, inl, inr, true, false, none, some, List, ◌∷◌, arith, ◌==◌, Link,
  Bool-cases, ==_iff, true_ne_false, some_refl, contains,
}
use uwm.Bsp.{Nodes, State, Workspace}
use uwm.Bsp.Pool.{node_free}
use uwm.Bsp.Pool.Chain.{Chain, node_free-Chain, node_free_others}
use uwm.Bsp.Tree.{Tree, leaf, branch, addr, has, has_leaf, Rep}
use uwm.Bsp.Tree.Frame.{Rep-frame, has_leaf-has, parent_cases}
use uwm.Bsp.Tree.Prune.{prune, has-prune}
use uwm.Bsp.Tree.Pruned.{Family, ne_of_has}
use uwm.Bsp.Tree.Gone.{gone}
use uwm.Bsp.Edit.Inserted.{IsPool}
use uwm.Bsp.Edit.Splice.{OneChild, parent_facts, leaf_ends}
use uwm.Bsp.Remove.{sibling_of}

-- A node of a tree has both children or none.
two_children :
    (h : Nodes) (T : Tree) (p : Link) (a : ℕ)
    → Rep h p T
    → has a T ≡ true
    → (((h a).first ≡ none) × ((h a).second ≡ none))
      ⊎ ((l : ℕ) × (r : ℕ) × ((h a).first ≡ some l) × ((h a).second ≡ some r))
two_children h (leaf b w) p a v m = inl (rw ((==_iff a b).0 m) (v.first, v.second))
two_children h (branch b sp l r) p a (n, bl, br, d, vl, vr) m = elim (Bool-cases (a == b)) [
  | inl e ↦ inr (addr l, addr r, rw ((==_iff a b).0 e) n.first, rw ((==_iff a b).0 e) n.second)
  | inr e ↦ elim (Bool-cases (has a l)) [
    | inl i ↦ two_children h l (some b) a vl i
    | inr o ↦ two_children h r (some b) a vr (in_right e o)
  ]
]
  where
    in_right : (a == b) ≡ false → has a l ≡ false → has a r ≡ true
    in_right e o = ground arith

-- The parent and the sibling of a leaf below the root.
abbrev pub Parents : Nodes → Tree → ℕ → Type 0
Parents h T c = (g : ℕ) × (s : ℕ) × (has g T ≡ true) × Family h c g s × (sibling_of h g c ≡ some s)

pub parents :
    (h : Nodes) (T : Tree) (c : ℕ)
    → Rep h none T
    → has_leaf c T ≡ true
    → (addr T == c) ≡ false
    → Parents h T c
unfolding OneChild sibling_of
parents h T c v m ne = elim (parent_cases h T none c v here) [
  | inl e ↦ absurd (true_ne_false (sym ((==_iff (addr T) c).1 (sym e)) ∙ ne))
  | inr (g, i, up, _) ↦
      siblings g i up (parent_facts h T c v g here up).1 (two_children h T none g v i)
]
  where
    here : has c T ≡ true
    here = has_leaf-has c T m

    ends : (h c).first ≡ none
    ends = (leaf_ends h T none c v m).0

    siblings :
        (g : ℕ)
        → has g T ≡ true
        → (h c).parent ≡ some g
        → OneChild h T c v g
        → (((h g).first ≡ none) × ((h g).second ≡ none))
          ⊎ ((l : ℕ) × (r : ℕ) × ((h g).first ≡ some l) × ((h g).second ≡ some r))
        → Parents h T c
    siblings g i up (inl (f, _)) (inl (x, _)) = cc
    siblings g i up (inr (_, f)) (inl (_, x)) = cc
    siblings g i up (inl (f, _)) (inr (l, r, x, y)) =
        (g, r, i, record { ends = ends; up = up; side = inl (f, y) }, rw (f, some_refl c) y)
    siblings g i up (inr (o, f)) (inr (l, r, x, y)) =
        (g, l, i, record { ends = ends; up = up; side = inr (x, f) }, rw o x)

-- The leaf is not its own parent.
pub leaf-ne-parent : (h : Nodes) (c g s : ℕ) → Family h c g s → (c == g) ≡ false
leaf-ne-parent h c g s f = elim (Bool-cases (c == g)) [
  | inl e ↦ absurd (clash ((==_iff c g).0 e) f.side)
  | inr e ↦ e
]
  where
    clash :
        c ≡ g
        → (((h g).first ≡ some c) × ((h g).second ≡ some s))
          ⊎ (((h g).first ≡ some s) × ((h g).second ≡ some c))
        → ⊥
    clash e (inl (x, _)) = cc (f.ends)
    clash e (inr (x, _)) = cc (f.ends)

-- The tree has been pruned, and the two nodes wait to be freed.
pub record Detached (s : State) (ws : Workspace) (T : Tree) (c : ℕ) (free : List ℕ) : Type 0 where
  pub rep : Rep s.nodes none (prune c T)
  pub root : ws.root ≡ some (addr (prune c T))
  pub chain : Chain s.nodes s.freelist free

module _ (h : Nodes) (T : Tree) (c g x : ℕ) (free : List ℕ) (v : Rep h none T)
    (m : has_leaf c T ≡ true) (ne : (addr T == c) ≡ false) (in_g : has g T ≡ true)
    (f : Family h c g x) (apart : (b : ℕ) → contains b free ≡ true → has b T ≡ false) where
  -- A node of the tree is not free.
  not_free : (b : ℕ) → has b T ≡ true → contains b free ≡ false
  not_free b i = elim (Bool-cases (contains b free)) [
    | inl e ↦ absurd (true_ne_false (sym i ∙ apart b e))
    | inr e ↦ e
  ]

  left_out : (has c (prune c T) ≡ false) × (has g (prune c T) ≡ false)
  left_out = gone h c g x f T none v m ne

  c_free : contains c (g ∷ free) ≡ false
  c_free = rw (leaf-ne-parent h c g x f, not_free c (has_leaf-has c T m)) refl

  apart_pruned : (b : ℕ) → contains b (c ∷ g ∷ free) ≡ true → has b (prune c T) ≡ false
  apart_pruned b e = elim (Bool-cases (has b (prune c T))) [
    | inr o ↦ o
    | inl i ↦ absurd (true_ne_false (sym e ∙ inside i))
  ]
    where
      inside : has b (prune c T) ≡ true → contains b (c ∷ g ∷ free) ≡ false
      inside i =
          rw (ne_of_has (prune c T) b c i left_out.0, ne_of_has (prune c T) b g i left_out.1)
            (not_free b (has-prune b c T i))

  pub freed-IsPool :
      (s : State) (ws : Workspace)
      → Detached s ws T c free
      → IsPool (node_free (node_free s (some g)) (some c)) ws (prune c T) (c ∷ g ∷ free)
  freed-IsPool s ws d = record {
    rep =
        Rep-frame s.nodes (node_free (node_free s (some g)) (some c)).nodes (prune c T) none d.rep
          (λ b i.
            node_free_others (node_free s (some g)) c b (ne_of_has (prune c T) b c i left_out.0)
            ∙ node_free_others s g b (ne_of_has (prune c T) b g i left_out.1));
    root = d.root;
    chain =
        node_free-Chain (node_free s (some g)) c (g ∷ free)
          (node_free-Chain s g free d.chain (not_free g in_g)) c_free;
    apart = apart_pruned;
  }
