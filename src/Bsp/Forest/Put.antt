-- ===== src/Bsp/Forest/Put.antt =====
-- bsp_insert (src/wm/bsp.c) with the trees of the other workspaces in the same pool.
use mathlib.Core.List.Perm
use mathlib.Core.List.{Perm}
use uwm.Base.{
  ℕ, ◌<◌, ◌≡◌, refl, sym, ap, subst, ◌∙◌, ◌⊎◌, inl, inr, true, false, Option, none, some, List, [],
  ◌∷◌, arith, Link, ◌==◌, Bool-cases, Option-cases, ==_iff, true_ne_false, ne_sym, contains,
}
use uwm.Base.Maps.{update, update_both}
use uwm.Bsp.{State, Workspace, Toplevel}
use uwm.Bsp.Pool.Chain.{Chain}
use uwm.Bsp.Tree.{Tree, leaf, has}
use uwm.Bsp.Tree.Graft.{beside, has-beside, windows-beside}
use uwm.Bsp.Edit.{insert, choose_split}
use uwm.Bsp.Edit.Inserted.{IsPool}
use uwm.Bsp.Edit.Written.{Written}
use uwm.Bsp.Edit.Total.{Inserted, insert-Inserted, insert_empty}
use uwm.Bsp.Remove.Undo.{has_leaf-beside}
use uwm.Bsp.Forest.{InTree, IsForest, place, ends, shown, height, Forest-IsPool, Forest-CacheFits}
use uwm.Bsp.Forest.Leaves.{leaf_stays, leaf-of_beside, new-leaf_shows}
use uwm.Bsp.Forest.Change.{Change, Change-IsForest}
use uwm.Bsp.Forest.Taken.{Absent}

-- The tree `O'` is `O` with the new leaf `n` for the window `t`.
record Grown (s s' : State) (O O' : Option Tree) (n i t : ℕ) (w' : Workspace) (free free' : List ℕ)
    : Type 0 where
  tree : InTree s' w' O'
  chain : Chain s'.nodes s'.freelist free'
  apart : (b : ℕ) → contains b free' ≡ true → place b O' ≡ false
  free_in : (b : ℕ) → contains b free' ≡ true → contains b (n ∷ i ∷ free) ≡ true
  place_in : (b : ℕ) → place b O' ≡ true → (place b O ≡ true) ⊎ (contains b (n ∷ i ∷ free) ≡ true)
  ends_in : (a : ℕ) → ends a O' ≡ true → (ends a O ≡ true) ⊎ (a ≡ n)
  keeps : (a : ℕ) → ends a O ≡ true → ends a O' ≡ true
  new : ends n O' ≡ true
  new_shows : (s'.nodes n).toplevel ≡ some t
  same : (b : ℕ) → place b O ≡ false → contains b (n ∷ i ∷ free) ≡ false → s'.nodes b ≡ s.nodes b
  shows : (b u : ℕ) → (s'.nodes b).toplevel ≡ some u → (b ≡ n) ⊎ ((s.nodes b).toplevel ≡ some u)
  windows :
      (u : ℕ)
      → (u == t) ≡ false
      → (s'.windows u ≡ s.windows u)
        ⊎ ((a : ℕ) × ((s'.windows u).bsp_leaf ≡ some a) × (ends a O' ≡ true))
  leaf : (s'.windows t).bsp_leaf ≡ some n

module _ (s : State) (ws : ℕ → Workspace) (F : ℕ → Option Tree) (free : List ℕ) (home : ℕ → ℕ)
    (n i : ℕ) (f : IsForest s ws F (n ∷ i ∷ free) home) (t : ℕ)
    (absent : Absent s (F (home t)) t) where
  module _ (s' : State) (w' : Workspace) (O : Option Tree) (free' : List ℕ)
      (g : Grown s s' (F (home t)) O n i t w' free free') where
    n_shows : (a u : ℕ) → a ≡ n → (s'.nodes a).toplevel ≡ some u → u ≡ t
    n_shows a u q e =
        let z : (s'.nodes n).toplevel ≡ some u = subst (λ x. (s'.nodes x).toplevel ≡ some u) q e in
        cc (g.new_shows)

    classify :
        (a u : ℕ)
        → ends a O ≡ true
        → (s'.nodes a).toplevel ≡ some u
        → ((a ≡ n) × (u ≡ t)) ⊎ ((ends a (F (home t)) ≡ true) × ((s.nodes a).toplevel ≡ some u))
    classify a u m e = elim (g.shows a u e) [
      | inl q ↦ inl (q, n_shows a u q e)
      | inr old ↦ elim (g.ends_in a m) [ inl m' ↦ inr (m', old) | inr q ↦ inl (q, n_shows a u q e) ]
    ]

    unique :
        (a b u : ℕ)
        → ((a ≡ n) × (u ≡ t)) ⊎ ((ends a (F (home t)) ≡ true) × ((s.nodes a).toplevel ≡ some u))
        → ((b ≡ n) × (u ≡ t)) ⊎ ((ends b (F (home t)) ≡ true) × ((s.nodes b).toplevel ≡ some u))
        → a ≡ b
    unique a b u (inl (p, _)) (inl (q, _)) = p ∙ sym q
    unique a b u (inr (m, e)) (inr (m', e')) = f.unique (home t) a b u m m' e e'
    unique a b u (inl (_, p)) (inr (m, e)) = absurd (absent b m (e ∙ ap some p))
    unique a b u (inr (m, e)) (inl (_, p)) = absurd (absent a m (e ∙ ap some p))

    cached_here :
        (u c : ℕ) → home u ≡ home t → ends c O ≡ true → ends c (update F (home t) O (home u)) ≡ true
    cached_here u c h m =
        update_both (λ x (y : Workspace) O'. x ≡ home t → ends c O' ≡ true) ws F (home t) w' O
          (λ q. m) (λ x ne q. absurd (true_ne_false (sym ((==_iff x (home t)).1 q) ∙ ne))) (home u)
          h

    cached_old :
        (u c : ℕ) → ends c (F (home u)) ≡ true → ends c (update F (home t) O (home u)) ≡ true
    cached_old u c =
        update_both (λ x (y : Workspace) O'. ends c (F x) ≡ true → ends c O' ≡ true) ws F (home t)
          w' O (g.keeps c) (λ x ne m. m) (home u)

    cached :
        (u c : ℕ)
        → (s'.windows u).bsp_leaf ≡ some c
        → (s'.nodes c).toplevel ≡ some u
        → ((u == t) ≡ true) ⊎ ((u == t) ≡ false)
        → ends c (update F (home t) O (home u)) ≡ true
    cached u c q e (inl z) =
        let ut : u ≡ t = (==_iff u t).0 z in
        let nc : n ≡ c = linked (subst (λ y. (s'.windows y).bsp_leaf ≡ some c) ut q) in
        cached_here u c (ap home ut) (subst (λ y. ends y O ≡ true) nc g.new)
      where
        linked : (s'.windows t).bsp_leaf ≡ some c → n ≡ c
        linked z = cc (g.leaf)
    cached u c q e (inr ne) = elim (g.shows c u e) [
      | inl p ↦ absurd (true_ne_false (sym ((==_iff u t).1 (n_shows c u p e)) ∙ ne))
      | inr old ↦ elim (g.windows u ne) [
        | inl w ↦ cached_old u c (f.cached u c (ap (λ (x : Toplevel). x.bsp_leaf) (sym w) ∙ q) old)
        | inr (a, l, m) ↦
            let ac : a ≡ c = link_eq a l in
            let mc : ends c O ≡ true = subst (λ y. ends y O ≡ true) ac m in
            elim (classify c u mc e) [
              | inl (_, z) ↦ absurd (true_ne_false (sym ((==_iff u t).1 z) ∙ ne))
              | inr (m', _) ↦ cached_here u c (f.homes (home t) c u m' old) mc
            ]
      ]
    ]
      where
        link_eq : (a : ℕ) → (s'.windows u).bsp_leaf ≡ some a → a ≡ c
        link_eq a l = cc

    Grown-Change : Change s s' F free' home (home t) w' O
    Grown-Change = record {
      tree = g.tree;
      chain = g.chain;
      same =
          λ x b ne m. g.same b (f.disjoint x (home t) b (ne_sym x (home t) ne) m) (not_free x b m);
      apart = g.apart;
      apart_others = λ x b ne m. f.apart x b (g.free_in b m);
      grows = λ x b ne m. elim (g.place_in b m) [
        | inl p ↦ f.disjoint (home t) x b ne p
        | inr p ↦ f.apart x b p
      ];
      homes = λ a u m e. elim (classify a u m e) [
        | inl (_, ut) ↦ ap home ut
        | inr (m', old) ↦ f.homes (home t) a u m' old
      ];
      unique = λ a b u m m' e e'. unique a b u (classify a u m e) (classify b u m' e');
      cached = λ u c q e. cached u c q e (Bool-cases (u == t));
    }
      where
        not_free : (x b : ℕ) → place b (F x) ≡ true → contains b (n ∷ i ∷ free) ≡ false
        not_free x b m = elim (Bool-cases (contains b (n ∷ i ∷ free))) [
          | inl p ↦ absurd (true_ne_false (sym m ∙ f.apart x b p))
          | inr o ↦ o
        ]

-- The tree of the workspace `w` with the window `t`.
abbrev pub PutInto :
    State
    → (ℕ → Workspace)
    → (ℕ → Option Tree)
    → (ℕ → ℕ)
    → (w t : ℕ) → Option (State × Workspace × Link)
    → Type 0
PutInto s ws F home w t r =
    (s' : State) × (w' : Workspace) × (O : Option Tree) × (free' : List ℕ) × (n : ℕ) × (r
      ≡ some (s', w', some n))
    × IsForest s' (update ws w w') (update F w O) free' home
    × (ends n O ≡ true)
    × ((s'.nodes n).toplevel ≡ some t)
    × Perm (shown O) (t ∷ shown (F w))

module _ (k : ℕ) (s : State) (ws : ℕ → Workspace) (F : ℕ → Option Tree) (free : List ℕ)
    (home : ℕ → ℕ) (n i : ℕ) (f : IsForest s ws F (n ∷ i ∷ free) home) (t : ℕ)
    (absent : Absent s (F (home t)) t) where
  put :
      (s' : State) (w' : Workspace) (O : Option Tree) (free' : List ℕ)
      → insert k s (ws (home t)) t ≡ some (s', w', some n)
      → Grown s s' (F (home t)) O n i t w' free free'
      → Perm (shown O) (t ∷ shown (F (home t)))
      → PutInto s ws F home (home t) t (insert k s (ws (home t)) t)
  put s' w' O free' e g perm = (
    s',
    w',
    O,
    free',
    n,
    e,
    Change-IsForest s s' ws F (n ∷ i ∷ free) free' home (home t) w' O f
        (Grown-Change s ws F free home n i f t absent s' w' O free' g),
    g.new,
    g.new_shows,
    perm,
  )

  -- The first window of the workspace.
  put_empty : F (home t) ≡ none → PutInto s ws F home (home t) t (insert k s (ws (home t)) t)
  put_empty e =
      first (insert_empty k s (ws (home t)) n t (i ∷ free) (rw e at (f.tree (home t))) f.chain)
    where
      first :
          (s' : State) × (w' : Workspace) × (insert k s (ws (home t)) t ≡ some (s', w', some n))
            × IsPool s' w' (leaf n t) (i ∷ free)
            × Written s s' (leaf n t) n n t
          → PutInto s ws F home (home t) t (insert k s (ws (home t)) t)
      first (s', w', q, p, wr) =
          put s' w' (some (leaf n t)) (i ∷ free) q
            (record {
              tree = (p.rep, p.root);
              chain = p.chain;
              apart = p.apart;
              free_in = λ b m. ground arith;
              place_in = λ b m. inr (ground arith);
              ends_in = λ a m. inr (ground arith);
              keeps = λ a m. cc (rw e at m);
              new = (==_iff n n).1 refl;
              new_shows = p.rep.toplevel;
              same = λ b o m. wr.elsewhere b (ground arith) (ground arith) (ground arith);
              shows = wr.shows;
              windows =
                  λ u ne. elim (wr.windows u ne) [ inl x ↦ inl x | inr (a, l, m) ↦ inr (a, l, m) ];
              leaf = wr.leaf;
            })
            (rw e (Perm.refl (t ∷ [])))

  put_beside :
      (T : Tree)
      → F (home t) ≡ some T
      → Inserted k s (ws (home t)) T n i free t
      → PutInto s ws F home (home t) t (insert k s (ws (home t)) t)
  put_beside T e (c, s', w', q, shown, target, p, wr) =
      let sp = choose_split (s.nodes c) in
      put s' w' (some (beside c sp i n t T)) free q
        (record {
          tree = (p.rep, p.root);
          chain = p.chain;
          apart = p.apart;
          free_in = λ b m. ground arith;
          place_in = λ b m. rw e (placed b (has-beside c sp i n t b T m));
          ends_in = λ a m. rw e (leaf-of_beside c sp i n t a T m);
          keeps = λ a m. leaf_stays c sp i n t a T (rw e at m);
          new = has_leaf-beside c sp i n t T shown;
          new_shows = new-leaf_shows c sp i n t s'.nodes T none shown p.rep;
          same = λ b o m. wr.elsewhere b (rw e at o) (ground arith) (ground arith);
          shows = wr.shows;
          windows = λ u ne. elim (wr.windows u ne) [
            | inl x ↦ inl x
            | inr (a, l, m) ↦ inr (a, l, leaf_stays c sp i n t a T m)
          ];
          leaf = wr.leaf;
        })
        (rw e (
          windows-beside c sp i n t s.nodes T none
            (Forest-IsPool s ws F (n ∷ i ∷ free) home f (home t) T e).rep shown))
    where
      placed :
          (b : ℕ)
          → (has b T ≡ true) ⊎ ((has c T ≡ true) × ((b ≡ i) ⊎ (b ≡ n)))
          → (has b T ≡ true) ⊎ (contains b (n ∷ i ∷ free) ≡ true)
      placed b (inl m) = inl m
      placed b (inr (_, inl m)) = inr (ground arith)
      placed b (inr (_, inr m)) = inr (ground arith)

-- bsp_insert of a window into its workspace returns, with more fuel than the tree has nodes and two
-- nodes free, if the tree does not show the window and the focused window is one of the workspace.
-- The trees of all workspaces stay a forest in the shared pool: no tree but this one changes, and
-- this one shows the window besides those it showed, on the leaf that bsp_insert returns.
pub insert-IsForest :
    (k : ℕ) (s : State) (ws : ℕ → Workspace) (F : ℕ → Option Tree) (free : List ℕ) (home : ℕ → ℕ)
    (n i t : ℕ)
    → IsForest s ws F (n ∷ i ∷ free) home
    → Absent s (F (home t)) t
    → ((u : ℕ) → (ws (home t)).focused ≡ some u → home u ≡ home t)
    → height (F (home t)) < k
    → PutInto s ws F home (home t) t (insert k s (ws (home t)) t)
insert-IsForest k s ws F free home n i t f absent focused lt = elim (Option-cases (F (home t))) [
  | inl e ↦ put_empty k s ws F free home n i f t absent e
  | inr (T, e) ↦ put_beside k s ws F free home n i f t absent T e (
      insert-Inserted k s (ws (home t)) T n i t free
        (Forest-IsPool s ws F (n ∷ i ∷ free) home f (home t) T e)
        (λ u q. Forest-CacheFits s ws F (n ∷ i ∷ free) home f u (home t) T (focused u q) e)
        (rw e at lt))
]
