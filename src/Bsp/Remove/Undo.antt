-- ===== src/Bsp/Remove/Undo.antt =====
-- bsp_remove of the window that bsp_insert has put in (src/wm/bsp.c): both together change nothing.
use uwm.Base.{
  ℕ, ◌<◌, ◌≡◌, refl, sym, ap, subst, ◌∙◌, ◌⊎◌, inl, inr, Bool, true, false, ◌&&◌, ◌||◌, Option,
  none, some, List, ◌∷◌, arith, ◌==◌, Link, Bool-cases, ==_iff, true_ne_false, contains,
}
use uwm.Bsp.{Nodes, Split, State, Workspace}
use uwm.Bsp.Tree.{Tree, leaf, branch, addr, has, has_leaf, windows, depth, Rep}
use uwm.Bsp.Tree.Prune.{prune}
use uwm.Bsp.Tree.Graft.{beside}
use uwm.Bsp.Tree.Pruned.{some_inj}
use uwm.Bsp.Find.Search.{CacheFits, contains-append}
use uwm.Bsp.Edit.{insert_beside, choose_split}
use uwm.Bsp.Edit.Inserted.{IsPool, insert_beside-IsPool, insert_beside-leaf}
use uwm.Bsp.Remove.{remove}
use uwm.Bsp.Remove.Removed.{Removed, remove-Removed}

module _ (c : ℕ) (sp : Split) (i n t : ℕ) where
  addr_apart :
      (T : Tree) → has n T ≡ false → (i == n) ≡ false → (addr (beside c sp i n t T) == n) ≡ false
  unfolding beside
  addr_apart (leaf a w) out apart = ground arith
  addr_apart (branch a sp' l r) out apart = ground arith

  -- Pruning the new leaf undoes its insertion.
  pub prune-beside :
      (T : Tree) → has n T ≡ false → (i == n) ≡ false → prune n (beside c sp i n t T) ≡ T
  unfolding beside prune
  prune-beside (leaf a w) out apart = elim (Bool-cases (a == c)) [
    | inl e ↦ rw (e, prune) (rw (flip, (==_iff n n).1 refl) refl)
    | inr e ↦ rw e refl
  ]
    where
      flip : (a == n) ≡ false
      flip = ground arith
  prune-beside (branch a sp' l r) out apart =
      rw
        (
          addr_apart l (in_l out) apart,
          addr_apart r (in_r out) apart,
          prune-beside l (in_l out) apart,
          prune-beside r (in_r out) apart,
        )
        refl
    where
      in_l : has n (branch a sp' l r) ≡ false → has n l ≡ false
      in_l o = ground arith

      in_r : has n (branch a sp' l r) ≡ false → has n r ≡ false
      in_r o = ground arith

  -- The new leaf's parent is the new branch.
  parent-beside :
      (h : Nodes) (T : Tree) (p : Link)
      → has_leaf c T ≡ true
      → Rep h p (beside c sp i n t T)
      → (h n).parent ≡ some i
  unfolding beside
  parent-beside h (leaf a w) p m v = let w = rw here at v in w.5.parent
    where
      here : (a == c) ≡ true
      here = ground arith
  parent-beside h (branch a sp' l r) p m (_, _, _, _, vl, vr) =
      ground (arith, parent-beside h l (some a), parent-beside h r (some a))

-- Does the leaf at `b` show the window `t`?
abbrev shows : (b t : ℕ) → Tree → Bool
shows b t (leaf a w) = b == a && w == t
shows b t (branch a sp l r) = shows b t l || shows b t r

pub Rep-shows :
    (h : Nodes) (b t : ℕ) (T : Tree) (p : Link)
    → Rep h p T
    → has_leaf b T ≡ true
    → (h b).toplevel ≡ some t
    → shows b t T ≡ true
Rep-shows h b t (leaf a w) p v m e = ground (arith, v)
Rep-shows h b t (branch a sp l r) p (_, _, _, _, vl, vr) m e =
    ground (arith, Rep-shows h b t l (some a) vl, Rep-shows h b t r (some a) vr)

pub shows-contains : (b t : ℕ) (T : Tree) → shows b t T ≡ true → contains t (windows T) ≡ true
shows-contains b t (leaf a w) e = ground arith
shows-contains b t (branch a sp l r) e =
    ground
      (arith, shows-contains b t l, shows-contains b t r, contains-append t (windows l) (windows r))

shows-beside :
    (b c : ℕ) (sp : Split) (i n t : ℕ) (T : Tree)
    → shows b t (beside c sp i n t T) ≡ true
    → (shows b t T ≡ true) ⊎ (b ≡ n)
unfolding beside
shows-beside b c sp i n t (leaf a w) e = ground arith
shows-beside b c sp i n t (branch a sp' l r) e =
    ground (arith, shows-beside b c sp i n t l, shows-beside b c sp i n t r)

pub has_leaf-beside :
    (c : ℕ) (sp : Split) (i n t : ℕ) (T : Tree)
    → has_leaf c T ≡ true
    → has_leaf n (beside c sp i n t T) ≡ true
unfolding beside
has_leaf-beside c sp i n t (leaf a w) m = rw here (ground arith)
  where
    here : (a == c) ≡ true
    here = ground arith
has_leaf-beside c sp i n t (branch a sp' l r) m =
    ground (arith, has_leaf-beside c sp i n t l, has_leaf-beside c sp i n t r)

shows-new :
    (c : ℕ) (sp : Split) (i n t : ℕ) (T : Tree)
    → has_leaf c T ≡ true
    → shows n t (beside c sp i n t T) ≡ true
unfolding beside
shows-new c sp i n t (leaf a w) m = rw here (ground arith)
  where
    here : (a == c) ≡ true
    here = ground arith
shows-new c sp i n t (branch a sp' l r) m =
    ground (arith, shows-new c sp i n t l, shows-new c sp i n t r)

beside-ne-leaf :
    (c : ℕ) (sp : Split) (i n t a w : ℕ) (T : Tree)
    → has_leaf c T ≡ true
    → beside c sp i n t T ≡ leaf a w
    → ⊥
unfolding beside
beside-ne-leaf c sp i n t a w (leaf b x) m e = let q = rw here at e in cc
  where
    here : (b == c) ≡ true
    here = ground arith
beside-ne-leaf c sp i n t a w (branch b sp' l r) m e = cc

-- The tree is back, and the two nodes are in front of the free list again.
abbrev pub Undone : Tree → (n i : ℕ) → List ℕ → Option (State × Workspace) → Type 0
Undone T n i free r =
    (s : State) × (ws : Workspace) × (r ≡ some (s, ws)) × IsPool s ws T (n ∷ i ∷ free)

-- bsp_insert of a window that the tree does not show, beside the leaf `c`, followed by bsp_remove of
-- that window, leaves the tree and the free list as they were.
pub remove-insert_beside :
    (k : ℕ) (s : State) (ws : Workspace) (T : Tree) (c n i t : ℕ) (free : List ℕ)
    → IsPool s ws T (n ∷ i ∷ free)
    → has_leaf c T ≡ true
    → contains t (windows T) ≡ false
    → depth (beside c (choose_split (s.nodes c)) i n t T) < k
    → let r = insert_beside s ws t c in Undone T n i free (remove k r.0 r.1 t)
remove-insert_beside k s ws T c n i t free v focused new lt =
    undo (remove-Removed k r.0 r.1 T' t free v' fits lt)
  where
    r : State × Workspace × Link
    r = insert_beside s ws t c

    sp : Split
    sp = choose_split (s.nodes c)

    T' : Tree
    T' = beside c sp i n t T

    v' : IsPool r.0 r.1 T' free
    v' = (insert_beside-IsPool s ws T c n i t free v focused).0

    fits : CacheFits r.0 T' t
    fits a e x =
        let q : n ≡ a = some_inj (sym (insert_beside-leaf s ws T c n i t free v focused) ∙ e) in
        subst (λ b. has_leaf b T' ≡ true) q (has_leaf-beside c sp i n t T focused)

    back : prune n T' ≡ T
    back = prune-beside c sp i n t T (v.apart n (ground arith)) (ground (arith, v.chain))

    is_new : (a : ℕ) → has_leaf a T' ≡ true → (r.0.nodes a).toplevel ≡ some t → a ≡ n
    is_new a m x = elim (shows-beside a c sp i n t T (Rep-shows r.0.nodes a t T' none v'.rep m x)) [
      | inl e ↦ absurd (true_ne_false (sym (shows-contains a t T e) ∙ new))
      | inr e ↦ e
    ]

    undo :
        ((contains t (windows T') ≡ false) × (remove k r.0 r.1 t ≡ some (r.0, r.1)))
          ⊎ Removed r.0.nodes T' t free (remove k r.0 r.1 t)
        → Undone T n i free (remove k r.0 r.1 t)
    undo (inl (out, _)) =
        absurd (true_ne_false (sym (shows-contains n t T' (shows-new c sp i n t T focused)) ∙ out))
    undo (inr (a, s', ws', e, _, inl (whole, _, _))) =
        absurd (beside-ne-leaf c sp i n t a t T focused whole)
    undo (inr (a, s', ws', e, _, inr (g, m, x, q, p, _))) =
        let an = is_new a m x in
        let gi : g ≡ i = some_inj (
          sym q
          ∙ ap (λ (b : ℕ). (r.0.nodes b).parent) an
          ∙ parent-beside c sp i n t r.0.nodes T none focused v'.rep) in
        (
          s',
          ws',
          e,
          subst (λ U. IsPool s' ws' U (n ∷ i ∷ free)) back
              (subst (λ b. IsPool s' ws' (prune b T') (b ∷ i ∷ free)) an
                (subst (λ b. IsPool s' ws' (prune a T') (a ∷ b ∷ free)) gi p)),
        )
