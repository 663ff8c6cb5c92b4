-- ===== src/Bsp/Remove/Raised.antt =====
-- bsp_remove (src/wm/bsp.c) from the split of the sibling to the pointer that leads to it: the nodes
-- of the pruned tree.
use uwm.Base.{
  ℕ, ◌≡◌, ◌≢◌, refl, sym, ap, subst, ◌∙◌, ◌⊎◌, inl, inr, true, false, none, some, arith, ◌==◌, ◌=?◌,
  Link, Bool-cases, ==_iff, if◌then◌else◌, is_some, true_ne_false, some_refl,
}
use uwm.Bsp.{Node, Nodes, write}
use uwm.Bsp.Pool.Chain.{write_self, write_ne}
use uwm.Bsp.Tree.{Tree, has, Rep}
use uwm.Bsp.Tree.Frame.{parent_of_first, parent_of_second}
use uwm.Bsp.Tree.Graft.{redirect}
use uwm.Bsp.Tree.Prune.{SameShape, has_first, has_second}
use uwm.Bsp.Tree.Pruned.{Family, Pruned}
use uwm.Bsp.Edit.{set_parent, set_first, set_second}
use uwm.Bsp.Edit.Splice.{not_first, not_second, OneChild, parent_facts, relinked, relinked_ne}
use uwm.Bsp.Remove.{fix_active_child, inherit_split}
use uwm.Bsp.Remove.Unlinked.{
  SameUp, SameShape-refl, SameShape-trans, SameShapes, fix_active_child-SameShapes,
}
use uwm.Bsp.Remove.Acyclic.{no_cycle}

-- The sibling stands under its grandparent, and all else has kept its shape.
pub record Raised (h h' : Nodes) (g s : ℕ) : Type 0 where
  pub parent : (h' s).parent ≡ (h g).parent
  pub first : (h' s).first ≡ (h s).first
  pub second : (h' s).second ≡ (h s).second
  pub toplevel : (h' s).toplevel ≡ (h s).toplevel
  pub split : is_some (h s).first ≡ true → (h' s).split ≡ (h g).split
  pub others : (b : ℕ) → (b == s) ≡ false → SameShape (h b) (h' b)

-- The nodes after the split of the sibling has been set.
record Inherited (h h' : Nodes) (g s : ℕ) : Type 0 where
  parent : (h' s).parent ≡ (h s).parent
  first : (h' s).first ≡ (h s).first
  second : (h' s).second ≡ (h s).second
  toplevel : (h' s).toplevel ≡ (h s).toplevel
  split : is_some (h s).first ≡ true → (h' s).split ≡ (h g).split
  others : (b : ℕ) → (b == s) ≡ false → SameShape (h b) (h' b)

inherit_split-Inherited : (h : Nodes) (g s : ℕ) → Inherited h (inherit_split h s g) g s
unfolding inherit_split
inherit_split-Inherited h g s = elim (Bool-cases (is_some (h s).first)) [
  | inl t ↦ rw t (record {
    parent = at (λ n. n.parent ≡ (h s).parent) refl;
    first = at (λ n. n.first ≡ (h s).first) refl;
    second = at (λ n. n.second ≡ (h s).second) refl;
    toplevel = at (λ n. n.toplevel ≡ (h s).toplevel) refl;
    split = λ i. at (λ n. n.split ≡ (h g).split) refl;
    others = λ b ne.
        subst (SameShape (h b)) (sym (write_ne h s (record (h s) { split = (h g).split }) b ne))
          (SameShape-refl (h b));
  })
  | inr e ↦ rw e (record {
    parent = refl;
    first = refl;
    second = refl;
    toplevel = refl;
    split = λ i. absurd (true_ne_false (sym i ∙ e));
    others = λ b ne. SameShape-refl (h b);
  })
]
  where
    at :
        (P : Node → Type 0)
        → P (record (h s) { split = (h g).split })
        → P (write h s (record (h s) { split = (h g).split }) s)
    at P x = subst P (sym (write_self h s (record (h s) { split = (h g).split }))) x

-- The two writes before the loop keep the parent pointers.
pub inherit_split-SameUp :
    (h : Nodes) (c g s : ℕ) → SameUp h (inherit_split (fix_active_child h g c (some s)) s g)
inherit_split-SameUp h c g s b = elim (Bool-cases (b == s)) [
  | inl e ↦
      subst (λ x. (inherit_split h₀ s g x).parent ≡ (h x).parent) (sym ((==_iff b s).0 e))
        ((inherit_split-Inherited h₀ g s).parent
          ∙ (fix_active_child-SameShapes h g c (some s) s).parent)
  | inr e ↦
      ((inherit_split-Inherited h₀ g s).others b e).parent
      ∙ (fix_active_child-SameShapes h g c (some s) b).parent
]
  where
    h₀ : Nodes
    h₀ = fix_active_child h g c (some s)

pub raise-Raised :
    (h h' : Nodes) (c g s : ℕ)
    → SameShapes (inherit_split (fix_active_child h g c (some s)) s g) h'
    → Raised h (set_parent h' s (h g).parent) g s
unfolding set_parent
raise-Raised h h' c g s same = record {
  parent = at (λ n. n.parent ≡ (h g).parent) refl;
  first = at (λ n. n.first ≡ (h s).first) ((same s).first ∙ in_h.first ∙ (start s).first);
  second = at (λ n. n.second ≡ (h s).second) ((same s).second ∙ in_h.second ∙ (start s).second);
  toplevel =
      at (λ n. n.toplevel ≡ (h s).toplevel)
        ((same s).toplevel ∙ in_h.toplevel ∙ (start s).toplevel);
  split = λ i.
      at (λ n. n.split ≡ (h g).split)
        ((same s).split
          ∙ in_h.split (subst (λ l. is_some l ≡ true) (sym (start s).first) i)
          ∙ (start g).split);
  others = λ b ne.
      subst (SameShape (h b)) (sym (write_ne h' s (record (h' s) { parent = (h g).parent }) b ne)) (
        SameShape-trans (h b) (h₀ b) (h' b) (start b)
          (SameShape-trans (h₀ b) (inherit_split h₀ s g b) (h' b) (in_h.others b ne) (same b)));
}
  where
    h₀ : Nodes
    h₀ = fix_active_child h g c (some s)

    start : SameShapes h h₀
    start = fix_active_child-SameShapes h g c (some s)

    in_h : Inherited h₀ (inherit_split h₀ s g) g s
    in_h = inherit_split-Inherited h₀ g s

    at :
        (P : Node → Type 0)
        → P (record (h' s) { parent = (h g).parent })
        → P (write h' s (record (h' s) { parent = (h g).parent }) s)
    at P x = subst P (sym (write_self h' s (record (h' s) { parent = (h g).parent }))) x

module _ (h : Nodes) (T : Tree) (c g s : ℕ) (rep : Rep h none T) (in_g : has g T ≡ true)
    (f : Family h c g s) (h' : Nodes) (up : Raised h h' g s) where
  -- A node whose child is not `g` keeps its shape.
  plain :
      (b : ℕ)
      → has b T ≡ true
      → (b == s) ≡ false
      → (h g).parent ≢ some b
      → SameShape (redirect g s (h b)) (h' b)
  plain b m bs ne =
      subst (λ n. SameShape n (h' b))
        (sym (rw (not_first h T g rep b m ne, not_second h T g rep b m ne))) (up.others b bs)

  -- The parent was the root.
  pub Pruned-root : (h g).parent ≡ none → Pruned h h' T c g s
  Pruned-root top = record {
    parent = up.parent;
    first = up.first;
    second = up.second;
    toplevel = up.toplevel;
    split = up.split;
    rest = λ b m bc bg bs. plain b m bs (λ e. clash b e);
  }
    where
      clash : (b : ℕ) → (h g).parent ≡ some b → ⊥
      clash b e = cc

  pub in_s : has s T ≡ true
  in_s = elim f.side [
    | inl (_, y) ↦ has_second h T none g s rep in_g y
    | inr (y, _) ↦ has_first h T none g s rep in_g y
  ]

  module _ (x : ℕ) (above : (h g).parent ≡ some x) where
    parent_s : (h s).parent ≡ some g
    parent_s = elim f.side [
      | inl (_, y) ↦ parent_of_second h T none g s rep in_g y
      | inr (y, _) ↦ parent_of_first h T none g s rep in_g y
    ]

    pub facts : (has x T ≡ true) × OneChild h T g rep x
    facts = parent_facts h T g rep x in_g above

    pub xs : (x == s) ≡ false
    xs = elim (Bool-cases (x == s)) [ inl e ↦ absurd (cycle ((==_iff x s).0 e)) | inr e ↦ e ]
      where
        no_root : (z : ℕ) → ◌≡◌ {A = Link} none (some z) → has z T ≡ false
        no_root z e = cc

        cycle : x ≡ s → ⊥
        cycle e = no_cycle h T none rep no_root g s in_g in_s (above ∙ ap some e) parent_s

    relinked-redirect :
        (n n' : Node)
        → SameShape n n'
        → (((n.first ≡ some g) × ((n.second =? some g) ≡ false))
            ⊎ (((n.first =? some g) ≡ false) × (n.second ≡ some g)))
        → SameShape (redirect g s n) (
            if n'.first =? some g
            then record n' { first = some s }
            else record n' { second = some s })
    relinked-redirect n n' a (inl (e, o)) =
        rw (a.first ∙ e, some_refl g)
          (record {
            parent = a.parent;
            first = ground arith;
            second = ground (arith, a.second);
            toplevel = a.toplevel;
            split = a.split;
          })
    relinked-redirect n n' a (inr (o, e)) =
        rw (a.first, o)
          (record {
            parent = a.parent;
            first = ground (arith, a.first);
            second = ground arith;
            toplevel = a.toplevel;
            split = a.split;
          })

    relinked_at : relinked h' x g s x ≡ (
        if (h' x).first =? some g
        then record (h' x) { first = some s }
        else record (h' x) { second = some s })
    unfolding relinked set_first set_second
    relinked_at = elim (Bool-cases ((h' x).first =? some g)) [
      | inl t ↦ rw t (write_self h' x (record (h' x) { first = some s }))
      | inr e ↦ rw e (write_self h' x (record (h' x) { second = some s }))
    ]

    s_kept : relinked h' x g s s ≡ h' s
    s_kept = relinked_ne h' x g s s (flip xs)
      where
        flip : (x == s) ≡ false → (s == x) ≡ false
        flip e = ground arith

    at_x : SameShape (redirect g s (h x)) (relinked h' x g s x)
    unfolding OneChild
    at_x =
        subst (SameShape (redirect g s (h x))) (sym relinked_at)
          (relinked-redirect (h x) (h' x) (up.others x xs) facts.1)

    pub Pruned-child : Pruned h (relinked h' x g s) T c g s
    Pruned-child = record {
      parent = ap (λ (n : Node). n.parent) s_kept ∙ up.parent;
      first = ap (λ (n : Node). n.first) s_kept ∙ up.first;
      second = ap (λ (n : Node). n.second) s_kept ∙ up.second;
      toplevel = ap (λ (n : Node). n.toplevel) s_kept ∙ up.toplevel;
      split = λ i. ap (λ (n : Node). n.split) s_kept ∙ up.split i;
      rest = λ b m bc bg bs. elim (Bool-cases (b == x)) [
        | inl e ↦
            subst (λ y. SameShape (redirect g s (h y)) (relinked h' x g s y))
              (sym ((==_iff b x).0 e)) at_x
        | inr e ↦
            subst (SameShape (redirect g s (h b))) (sym (relinked_ne h' x g s b e))
              (plain b m bs (not_above b e))
      ];
    }
      where
        not_above : (b : ℕ) → (b == x) ≡ false → (h g).parent ≢ some b
        not_above b ne e = let q : x ≡ b = cc in true_ne_false (sym ((==_iff b x).1 (sym q)) ∙ ne)
