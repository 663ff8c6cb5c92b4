-- ===== src/Bsp/Remove/Removed.antt =====
-- bsp_remove (src/wm/bsp.c) as a whole: it returns, and its tree is the pruned one.
use mathlib.Core.List.{Perm}
use uwm.Base.{
  ℕ, ◌<◌, ◌≡◌, refl, sym, ap, subst, ◌∙◌, ◌⊎◌, inl, inr, true, false, Option, none, some, List, ◌∷◌,
  ◌==◌, Bool-cases, ==_iff, true_ne_false, contains,
}
use uwm.Bsp.{Nodes, State, Workspace, set_leaf}
use uwm.Bsp.Pool.{node_free}
use uwm.Bsp.Pool.Chain.{Chain, node_free-Chain}
use uwm.Bsp.Tree.{Tree, leaf, addr, has, has_leaf, windows, depth}
use uwm.Bsp.Tree.Frame.{has_leaf-has, Rep-parent}
use uwm.Bsp.Tree.Prune.{prune}
use uwm.Bsp.Tree.Gone.{leaf_root, windows-prune}
use uwm.Bsp.Find.{find_leaf}
use uwm.Bsp.Find.Search.{CacheFits, Outcome, find_leaf-Outcome}
use uwm.Bsp.Edit.{bump}
use uwm.Bsp.Edit.Inserted.{IsPool}
use uwm.Bsp.Edit.Total.{IsPool-same}
use uwm.Bsp.Edit.Splice.{parent_facts}
use uwm.Bsp.Remove.{
  fix_active_child, fix_ancestors, inherit_split, replace_parent, detach, remove_from, remove_found,
  remove, sibling_of,
}
use uwm.Bsp.Remove.Unlinked.{SameUp, fix_ancestors-SameShapes, fix_ancestors_total}
use uwm.Bsp.Remove.Raised.{inherit_split-SameUp}
use uwm.Bsp.Remove.Taken.{Parents, parents}
use uwm.Bsp.Remove.Relinked.{replace_parent-IsPool}

-- The leaf below the root goes, with its parent.
abbrev Pruning : State → Tree → ℕ → ℕ → List ℕ → Option (State × Workspace) → Type 0
Pruning s T c t free r =
    (g : ℕ) × (s' : State) × (ws' : Workspace) × (r ≡ some (s', ws'))
    × ((s.nodes c).parent ≡ some g)
    × IsPool s' ws' (prune c T) (c ∷ g ∷ free)
    × (s'.windows ≡ s.windows)

detach_eq :
    (k : ℕ) (s : State) (ws : Workspace) (c g x : ℕ) (h : Nodes)
    → (s.nodes c).parent ≡ some g
    → sibling_of s.nodes g c ≡ some x
    → fix_ancestors k
        (inherit_split (fix_active_child s.nodes g c (some x)) x g)
        (s.nodes g).parent
        c
        x
      ≡ some h
    → remove_from k s ws c (s.nodes c).parent
      ≡ some (replace_parent s ws c g x (s.nodes g).parent h)
unfolding remove_from detach
detach_eq k s ws c g x h up q e =
    ap (remove_from k s ws c) up ∙ rw (q, remove_from) (rw (e, detach) refl)

detach-IsPool :
    (k : ℕ) (s : State) (ws : Workspace) (T : Tree) (c t : ℕ) (free : List ℕ)
    → IsPool s ws T free
    → has_leaf c T ≡ true
    → (addr T == c) ≡ false
    → depth T < k
    → Pruning s T c t free (remove_from k s ws c (s.nodes c).parent)
unfolding remove_from detach
detach-IsPool k s ws T c t free v m ne lt = detached (parents s.nodes T c v.rep m ne)
  where
    detached : Parents s.nodes T c → Pruning s T c t free (remove_from k s ws c (s.nodes c).parent)
    detached (g, x, in_g, f, q) = looped (
        fix_ancestors_total s.nodes T c x k h₀ (s.nodes g).parent v.rep
          (inherit_split-SameUp s.nodes c g x) lt inside)
      where
        h₀ : Nodes
        h₀ = inherit_split (fix_active_child s.nodes g c (some x)) x g

        inside : (a : ℕ) → (s.nodes g).parent ≡ some a → has a T ≡ true
        inside a e = (parent_facts s.nodes T g v.rep a in_g e).0

        looped :
            (h : Nodes) × (fix_ancestors k h₀ (s.nodes g).parent c x ≡ some h) × SameUp s.nodes h
            → Pruning s T c t free (remove_from k s ws c (s.nodes c).parent)
        looped (h, e, _) =
            let r = replace_parent s ws c g x (s.nodes g).parent h in
            let done =
              replace_parent-IsPool s T c g x free v.rep m ne in_g f v.chain v.apart h
                (fix_ancestors-SameShapes k h₀ (s.nodes g).parent c x h e) ws v.root in
            (g, r.0, r.1, detach_eq k s ws c g x h f.up q e, f.up, done.0, done.1)

-- bsp_remove once the leaf is known.
abbrev pub Removed : Nodes → Tree → ℕ → List ℕ → Option (State × Workspace) → Type 0
Removed h T t free r =
    (c : ℕ) × (s' : State) × (ws' : Workspace) × (r ≡ some (s', ws'))
    × ((s'.windows t).bsp_leaf ≡ none)
    × (((T ≡ leaf c t) × (ws'.root ≡ none) × Chain s'.nodes s'.freelist (c ∷ free))
        ⊎ ((g : ℕ) × (has_leaf c T ≡ true)
            × ((h c).toplevel ≡ some t)
            × ((h c).parent ≡ some g)
            × IsPool s' ws' (prune c T) (c ∷ g ∷ free)
            × Perm (windows T) (t ∷ windows (prune c T))))

unlinked :
    (s s' : State) (t c : ℕ)
    → s'.windows ≡ set_leaf s.windows t none
    → (s'.windows t).bsp_leaf ≡ none
unfolding set_leaf
unlinked s s' t c e = rw e (rw ((==_iff t t).1 refl) refl)

module _ (k : ℕ) (s : State) (ws : Workspace) (T : Tree) (c t : ℕ) (free : List ℕ)
    (v : IsPool s ws T free) (m : has_leaf c T ≡ true) (shows : (s.nodes c).toplevel ≡ some t)
    (lt : depth T < k) where
  -- The state behind `toplevel->bsp_leaf = NULL` and `tree_gen++`.
  abbrev s₁ : State
  s₁ = record s { windows = set_leaf s.windows t none }

  v₁ : IsPool s₁ (bump ws) T free
  unfolding bump
  v₁ = record { rep = v.rep; root = v.root; chain = v.chain; apart = v.apart }

  last_leaf :
      addr T ≡ c → Removed s.nodes T t free (remove_from k s₁ (bump ws) c (s.nodes c).parent)
  unfolding remove_from node_free
  last_leaf e = (
    c,
    node_free s₁ (some c),
    record (bump ws) { root = none },
    top_eq (subst (λ a. (s.nodes a).parent ≡ none) e (Rep-parent s.nodes T none v.rep)),
    unlinked s (node_free s₁ (some c)) t c refl,
    inl (
      leaf_root s.nodes T none c t v.rep m e shows,
      refl,
      node_free-Chain s₁ c free v.chain kept,
    ),
  )
    where
      top_eq :
          (s.nodes c).parent ≡ none
          → remove_from k s₁ (bump ws) c (s.nodes c).parent
            ≡ some (node_free s₁ (some c), record (bump ws) { root = none })
      top_eq q = ap (remove_from k s₁ (bump ws) c) q

      kept : contains c free ≡ false
      kept = elim (Bool-cases (contains c free)) [
        | inl i ↦ absurd (true_ne_false (sym (has_leaf-has c T m) ∙ v.apart c i))
        | inr o ↦ o
      ]

  lower_leaf :
      (addr T == c) ≡ false
      → Removed s.nodes T t free (remove_from k s₁ (bump ws) c (s.nodes c).parent)
  lower_leaf ne = pruned (detach-IsPool k s₁ (bump ws) T c t free v₁ m ne lt)
    where
      pruned :
          Pruning s₁ T c t free (remove_from k s₁ (bump ws) c (s₁.nodes c).parent)
          → Removed s.nodes T t free (remove_from k s₁ (bump ws) c (s.nodes c).parent)
      pruned (g, s', ws', e, q, p, same) = (
        c,
        s',
        ws',
        e,
        unlinked s s' t c same,
        inr (g, m, shows, q, p, windows-prune s.nodes c t T none shows v.rep m ne),
      )

  pub remove_from-Removed :
      Removed s.nodes T t free (remove_from k s₁ (bump ws) c (s.nodes c).parent)
  remove_from-Removed = elim (Bool-cases (addr T == c)) [
    | inl e ↦ last_leaf ((==_iff (addr T) c).0 e)
    | inr ne ↦ lower_leaf ne
  ]

pub remove_eq :
    (k : ℕ) (s : State) (ws : Workspace) (a t : ℕ)
    → ws.root ≡ some a
    → remove k s ws t ≡ remove_found k ws t (find_leaf k s (some a) (some t))
unfolding remove
remove_eq k s ws a t e = rw e refl

-- With more fuel than the tree has nodes, bsp_remove returns. If no leaf shows the window, nothing
-- changes. If the window's leaf is the whole tree, the root becomes NULL and the leaf's node is
-- free. Otherwise the tree is the pruned one, its branch above the leaf given way to the leaf's
-- sibling, it shows all windows but this one, and the nodes of the leaf and of the branch are in
-- front of the free list. In the last two cases the window has lost its leaf.
pub remove-Removed :
    (k : ℕ) (s : State) (ws : Workspace) (T : Tree) (t : ℕ) (free : List ℕ)
    → IsPool s ws T free
    → CacheFits s T t
    → depth T < k
    → ((contains t (windows T) ≡ false) × (remove k s ws t ≡ some (s, ws)))
      ⊎ Removed s.nodes T t free (remove k s ws t)
unfolding remove_found
remove-Removed k s ws T t free v fits lt =
    subst
      (λ r. ((contains t (windows T) ≡ false) × (r ≡ some (s, ws))) ⊎ Removed s.nodes T t free r)
      (sym (remove_eq k s ws (addr T) t v.root)) (found (find_leaf-Outcome k s T t v.rep fits lt))
  where
    result : Option (State × Workspace)
    result = remove_found k ws t (find_leaf k s (some (addr T)) (some t))

    found :
        Outcome s T t (find_leaf k s (some (addr T)) (some t))
        → ((contains t (windows T) ≡ false) × (result ≡ some (s, ws)))
          ⊎ Removed s.nodes T t free result
    found (inl (out, e)) = inl (out, rw (e, remove_found) refl)
    found (inr (c, s', e, f)) = inr (
        subst (λ h. Removed h T t free result) f.nodes
          (rw (e, remove_found)
            (remove_from-Removed k s' ws T c t free
              (IsPool-same s s' ws T free f.nodes f.freelist v) f.shown (rw f.nodes f.window) lt)))
