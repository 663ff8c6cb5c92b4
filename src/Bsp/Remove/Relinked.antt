-- ===== src/Bsp/Remove/Relinked.antt =====
-- The pool when bsp_remove (src/wm/bsp.c) has put the sibling into the parent's place and freed the
-- two nodes.
use uwm.Base.{
  ℕ, ◌≡◌, refl, sym, ap, subst, ◌∙◌, ◌⊎◌, inl, inr, true, false, none, some, List, ◌∷◌, ◌==◌, Link,
  Bool-cases, ==_iff, true_ne_false, contains, if◌then◌else◌,
}
use uwm.Bsp.{Node, Nodes, State, Workspace}
use uwm.Bsp.Pool.{node_free}
use uwm.Bsp.Pool.Chain.{Chain, Chain-frame}
use uwm.Bsp.Tree.{Tree, addr, has, has_leaf, Rep}
use uwm.Bsp.Tree.Frame.{parent_cases, Rep-parent, HasParent}
use uwm.Bsp.Tree.Prune.{prune}
use uwm.Bsp.Tree.Pruned.{Family, Rep-prune, addr-prune}
use uwm.Bsp.Edit.{set_parent, relink}
use uwm.Bsp.Edit.Inserted.{IsPool}
use uwm.Bsp.Edit.Spliced.{relink_child}
use uwm.Bsp.Edit.Splice.{relinked, relinked_ne}
use uwm.Bsp.Remove.{fix_active_child, inherit_split, replace_parent}
use uwm.Bsp.Remove.Unlinked.{SameShapes}
use uwm.Bsp.Remove.Raised.{Raised, raise-Raised, Pruned-root, Pruned-child, in_s, facts}
use uwm.Bsp.Remove.Taken.{Detached, freed-IsPool}

module _ (s : State) (T : Tree) (c g x : ℕ) (free : List ℕ) (v : Rep s.nodes none T)
    (m : has_leaf c T ≡ true) (ne : (addr T == c) ≡ false) (in_g : has g T ≡ true)
    (f : Family s.nodes c g x) (chain : Chain s.nodes s.freelist free)
    (apart : (b : ℕ) → contains b free ≡ true → has b T ≡ false) (h : Nodes)
    (same : SameShapes (inherit_split (fix_active_child s.nodes g c (some x)) x g) h) where
  h₅ : Nodes
  h₅ = set_parent h x (s.nodes g).parent

  up : Raised s.nodes h₅ g x
  unfolding h₅
  up = raise-Raised s.nodes h c g x same

  in_x : has x T ≡ true
  in_x = in_s s.nodes T c g x v in_g f h₅ up

  out_ne : (b a : ℕ) → has a T ≡ true → has b T ≡ false → (b == a) ≡ false
  out_ne b a i o = elim (Bool-cases (b == a)) [
    | inl e ↦ absurd (true_ne_false (sym i ∙ sym (ap (λ z. has z T) ((==_iff b a).0 e)) ∙ o))
    | inr e ↦ e
  ]

  kept : (b : ℕ) → contains b free ≡ true → (h₅ b).first ≡ (s.nodes b).first
  kept b e = (up.others b (out_ne b x in_x (apart b e))).first

  pruned_root : addr (prune c T) ≡ (if addr T == g then x else addr T)
  pruned_root = addr-prune s.nodes c g x f T none v m ne

  -- The parent was the root: the sibling is the new one.
  Detached-root :
      (ws : Workspace)
      → (s.nodes g).parent ≡ none
      → Detached (record s { nodes = h₅ }) (record ws { root = some x }) T c free
  Detached-root ws top = record {
    rep =
        Rep-prune s.nodes c g x f h₅ T none v m ne (Pruned-root s.nodes T c g x v in_g f h₅ up top);
    root = ap some (
        sym (
          pruned_root
          ∙ rw ((==_iff (addr T) g).1 (sym (is_root (parent_cases s.nodes T none g v in_g))))
              refl));
    chain = Chain-frame s.nodes h₅ _ _ free chain refl kept;
  }
    where
      is_root : (g ≡ addr T) ⊎ HasParent s.nodes T g → g ≡ addr T
      is_root (inl e) = e
      is_root (inr (a, _, q, _)) = absurd (clash a q)
        where
          clash : (a : ℕ) → (s.nodes g).parent ≡ some a → ⊥
          clash a q = cc

  -- The sibling takes the parent's place below the grandparent.
  Detached-child :
      (ws : Workspace) (y : ℕ)
      → (s.nodes g).parent ≡ some y
      → ws.root ≡ some (addr T)
      → Detached (record s { nodes = relinked h₅ y g x }) ws T c free
  Detached-child ws y above root = record {
    rep =
        Rep-prune s.nodes c g x f (relinked h₅ y g x) T none v m ne
          (Pruned-child s.nodes T c g x v in_g f h₅ up y above);
    root = root ∙ ap some (sym (pruned_root ∙ rw (not_root (Bool-cases (addr T == g))) refl));
    chain = Chain-frame s.nodes (relinked h₅ y g x) _ _ free chain refl (λ b e.
        ap (λ (n : Node). n.first)
          (relinked_ne h₅ y g x b
            (out_ne b y (facts s.nodes T c g x v in_g f h₅ up y above).0 (apart b e)))
        ∙ kept b e);
  }
    where
      not_root : ((addr T == g) ≡ true) ⊎ ((addr T == g) ≡ false) → (addr T == g) ≡ false
      not_root (inr e) = e
      not_root (inl e) = absurd (
          clash (
            ap (λ (z : ℕ). (s.nodes z).parent) (sym ((==_iff (addr T) g).0 e))
            ∙ Rep-parent s.nodes T none v))
        where
          clash : (s.nodes g).parent ≡ none → ⊥
          clash q = cc

  relinked-IsPool :
      (ws : Workspace) (p : Link)
      → ws.root ≡ some (addr T)
      → (s.nodes g).parent ≡ p
      → let r = relink (record s { nodes = h₅ }) ws p g (some x) in
        IsPool (node_free (node_free r.0 (some g)) (some c)) r.1 (prune c T) (c ∷ g ∷ free)
        × (r.0.windows ≡ s.windows)
  unfolding relink
  relinked-IsPool ws none root top =
      (freed-IsPool s.nodes T c g x free v m ne in_g f apart _ _ (Detached-root ws top), refl)
  relinked-IsPool ws (some y) root above =
      subst
        (λ r.
          IsPool (node_free (node_free r.0 (some g)) (some c)) r.1 (prune c T) (c ∷ g ∷ free)
          × (r.0.windows ≡ s.windows))
        (sym (relink_child (record s { nodes = h₅ }) ws y g x))
        (
          freed-IsPool s.nodes T c g x free v m ne in_g f apart _ _
              (Detached-child ws y above root),
          refl,
        )

  -- Behind the loop.
  pub replace_parent-IsPool :
      (ws : Workspace)
      → ws.root ≡ some (addr T)
      → let r = replace_parent s ws c g x (s.nodes g).parent h in
        IsPool r.0 r.1 (prune c T) (c ∷ g ∷ free) × (r.0.windows ≡ s.windows)
  unfolding replace_parent h₅ node_free
  replace_parent-IsPool ws root = relinked-IsPool ws (s.nodes g).parent root refl
