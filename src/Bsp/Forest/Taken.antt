-- ===== src/Bsp/Forest/Taken.antt =====
-- bsp_remove (src/wm/bsp.c) with the trees of the other workspaces in the same pool.
use mathlib.Core.List.Perm
use mathlib.Core.List.{Perm}
use uwm.Base.{
  ℕ, ◌<◌, ◌≡◌, refl, sym, ap, subst, ◌∙◌, ◌⊎◌, inl, inr, true, false, Option, none, some, List, [],
  ◌∷◌, ◌++◌, arith, ◌==◌, Bool-cases, Option-cases, ==_iff, true_ne_false, contains,
}
use uwm.Base.Maps.{update, update_same, update_both}
use uwm.Bsp.{State, Workspace}
use uwm.Bsp.Pool.Chain.{Chain}
use uwm.Bsp.Tree.{Tree, leaf, has, has_leaf, windows, depth}
use uwm.Bsp.Tree.Frame.{has_leaf-has}
use uwm.Bsp.Tree.Prune.{prune, has-prune}
use uwm.Bsp.Edit.Inserted.{IsPool}
use uwm.Bsp.Edit.Splice.{parent_facts}
use uwm.Bsp.Remove.{remove}
use uwm.Bsp.Remove.Removed.{Removed, remove-Removed}
use uwm.Bsp.Remove.Outside.{Untouched, remove-Untouched}
use uwm.Bsp.Remove.Undo.{Rep-shows, shows-contains}
use uwm.Bsp.Forest.{InTree, IsForest, place, ends, shown, height, Forest-IsPool, Forest-CacheFits}
use uwm.Bsp.Forest.Leaves.{has_leaf-prune, other-leaf_stays}
use uwm.Bsp.Forest.Change.{Change, Change-IsForest}

-- No leaf of the tree shows the window.
abbrev pub Absent : State → Option Tree → ℕ → Type 0
Absent s O t = (a : ℕ) → ends a O ≡ true → (s.nodes a).toplevel ≡ some t → ⊥

-- What is left of the tree without the window, and the nodes that are free again.
record Rest (s s' : State) (T : Tree) (t : ℕ) (w' : Workspace) (O : Option Tree) (pre free : List ℕ)
    : Type 0 where
  tree : InTree s' w' O
  chain : Chain s'.nodes s'.freelist (pre ++ free)
  apart : (b : ℕ) → contains b (pre ++ free) ≡ true → place b O ≡ false
  pre_in : (b : ℕ) → contains b (pre ++ free) ≡ true → (has b T ≡ true) ⊎ (contains b free ≡ true)
  place_in : (b : ℕ) → place b O ≡ true → has b T ≡ true
  ends_in : (a : ℕ) → ends a O ≡ true → has_leaf a T ≡ true
  keeps :
      (a u : ℕ)
      → has_leaf a T ≡ true
      → (s.nodes a).toplevel ≡ some u
      → (u == t) ≡ false
      → ends a O ≡ true
  unlinked : (s'.windows t).bsp_leaf ≡ none
  untouched : Untouched s s' T t

module _ (s : State) (ws : ℕ → Workspace) (F : ℕ → Option Tree) (free : List ℕ) (home : ℕ → ℕ)
    (f : IsForest s ws F free home) (t : ℕ) (T : Tree) (fh : F (home t) ≡ some T) where
  in_T : (b x : ℕ) → (x == home t) ≡ false → has b T ≡ true → place b (F x) ≡ false
  in_T b x ne m = f.disjoint (home t) x b ne (rw fh m)

  out_of_T : (b x : ℕ) → (x == home t) ≡ false → place b (F x) ≡ true → has b T ≡ false
  out_of_T b x ne m = elim (Bool-cases (has b T)) [
    | inl i ↦ absurd (true_ne_false (sym m ∙ in_T b x ne i))
    | inr o ↦ o
  ]

  Rest-Change :
      (s' : State) (w' : Workspace) (O : Option Tree) (pre : List ℕ)
      → Rest s s' T t w' O pre free
      → Change s s' F (pre ++ free) home (home t) w' O
  Rest-Change s' w' O pre r = record {
    tree = r.tree;
    chain = r.chain;
    same = λ x b ne m. (r.untouched.nodes b).0 (out_of_T b x ne m);
    apart = r.apart;
    apart_others =
        λ x b ne m. elim (r.pre_in b m) [ inl i ↦ in_T b x ne i | inr i ↦ f.apart x b i ];
    grows = λ x b ne m. in_T b x ne (r.place_in b m);
    homes = λ a u m e. f.homes (home t) a u (rw fh (r.ends_in a m)) (before a u e);
    unique = λ a b u m m' e e'.
        f.unique (home t) a b u (rw fh (r.ends_in a m)) (rw fh (r.ends_in b m')) (before a u e)
          (before b u e');
    cached = cached;
  }
    where
      before : (a u : ℕ) → (s'.nodes a).toplevel ≡ some u → (s.nodes a).toplevel ≡ some u
      before a u e = sym (r.untouched.nodes a).1 ∙ e

      cached :
          (u c : ℕ)
          → (s'.windows u).bsp_leaf ≡ some c
          → (s'.nodes c).toplevel ≡ some u
          → ends c (update F (home t) O (home u)) ≡ true
      cached u c q e = elim (Bool-cases (u == t)) [
        | inl z ↦
            absurd (linked (subst (λ y. (s'.windows y).bsp_leaf ≡ some c) ((==_iff u t).0 z) q))
        | inr ne ↦
            let old : ends c (F (home u)) ≡ true =
              f.cached u c (ap (λ w. w.bsp_leaf) (sym (r.untouched.windows u ne)) ∙ q)
                (before c u e) in
            update_both (λ x (y : Workspace) O'. ends c (F x) ≡ true → ends c O' ≡ true) ws F
              (home t) w' O (λ m. r.keeps c u (rw fh at m) (before c u e) ne) (λ x n m. m) (home u)
              old
      ]
        where
          linked : (s'.windows t).bsp_leaf ≡ some c → ⊥
          linked z = cc (r.unlinked)

  Rest-Absent :
      (s' : State) (w' : Workspace) (O : Option Tree) (pre : List ℕ)
      → Rest s s' T t w' O pre free
      → ((a : ℕ) → ends a O ≡ true → (s.nodes a).toplevel ≡ some t → ⊥)
      → Absent s' O t
  Rest-Absent s' w' O pre r out a m e = out a m (sym (r.untouched.nodes a).1 ∙ e)

-- The tree of the workspace `w` without the window `t`.
abbrev pub TakenFrom :
    State
    → (ℕ → Workspace)
    → (ℕ → Option Tree)
    → List ℕ
    → (ℕ → ℕ)
    → (w t : ℕ) → Option (State × Workspace)
    → Type 0
TakenFrom s ws F free home w t r =
    (s' : State) × (w' : Workspace) × (O : Option Tree) × (pre : List ℕ) × (r ≡ some (s', w'))
    × IsForest s' (update ws w w') (update F w O) (pre ++ free) home
    × Absent s' O t
    × (((contains t (shown (F w)) ≡ false) × (O ≡ F w)) ⊎ Perm (shown (F w)) (t ∷ shown O))

module _ (k : ℕ) (s : State) (ws : ℕ → Workspace) (F : ℕ → Option Tree) (free : List ℕ)
    (home : ℕ → ℕ) (f : IsForest s ws F free home) (t : ℕ) where
  nothing :
      remove k s (ws (home t)) t ≡ some (s, ws (home t))
      → contains t (shown (F (home t))) ≡ false
      → Absent s (F (home t)) t
      → TakenFrom s ws F free home (home t) t (remove k s (ws (home t)) t)
  nothing e out absent = (
    s,
    ws (home t),
    F (home t),
    [],
    e,
    subst (λ w. IsForest s w (update F (home t) (F (home t))) free home)
        (sym (update_same ws (home t)))
        (subst (λ F'. IsForest s ws F' free home) (sym (update_same F (home t))) f),
    absent,
    inl (out, refl),
  )

  module _ (T : Tree) (fh : F (home t) ≡ some T) (lt : depth T < k) where
    pool : IsPool s (ws (home t)) T free
    pool = Forest-IsPool s ws F free home f (home t) T fh

    Absent-in : contains t (windows T) ≡ false → Absent s (some T) t
    Absent-in out a m e =
        true_ne_false (sym (shows-contains a t T (Rep-shows s.nodes a t T none pool.rep m e)) ∙ out)

    -- The leaf was the only one.
    last-Rest :
        (s' : State) (w' : Workspace) (c : ℕ)
        → Untouched s s' T t
        → (s'.windows t).bsp_leaf ≡ none
        → T ≡ leaf c t
        → w'.root ≡ none
        → Chain s'.nodes s'.freelist (c ∷ free)
        → Rest s s' T t w' none (c ∷ []) free
    last-Rest s' w' c u unl whole root chain = record {
      tree = root;
      chain = chain;
      apart = λ b m. refl;
      pre_in = λ b m.
          subst (λ U. (has b U ≡ true) ⊎ (contains b free ≡ true)) (sym whole) (ground arith);
      place_in = λ b m. cc;
      ends_in = λ a m. cc;
      keeps = λ a v m e ne. absurd (only a v m e ne);
      unlinked = unl;
      untouched = u;
    }
      where
        only :
            (a v : ℕ) → has_leaf a T ≡ true → (s.nodes a).toplevel ≡ some v → (v == t) ≡ false → ⊥
        only a v m e ne =
            let z : contains v (windows T) ≡ true =
              shows-contains a v T (Rep-shows s.nodes a v T none pool.rep m e) in
            true_ne_false (sym (subst (λ U. contains v (windows U) ≡ true) whole z) ∙ ground arith)

    -- The leaf `c` below the branch `g` was one of several.
    lower-Rest :
        (s' : State) (w' : Workspace) (c g : ℕ)
        → Untouched s s' T t
        → (s'.windows t).bsp_leaf ≡ none
        → has_leaf c T ≡ true
        → (s.nodes c).toplevel ≡ some t
        → (s.nodes c).parent ≡ some g
        → IsPool s' w' (prune c T) (c ∷ g ∷ free)
        → Rest s s' T t w' (some (prune c T)) (c ∷ g ∷ []) free
    lower-Rest s' w' c g u unl m e up p = record {
      tree = (p.rep, p.root);
      chain = p.chain;
      apart = p.apart;
      pre_in = λ b i. freed b i;
      place_in = λ b i. has-prune b c T i;
      ends_in = λ a i. has_leaf-prune a c T i;
      keeps = λ a v i q ne. other-leaf_stays s.nodes a c t T none pool.rep m e (differ a v q ne) i;
      unlinked = unl;
      untouched = u;
    }
      where
        here : has c T ≡ true
        here = has_leaf-has c T m

        above : has g T ≡ true
        above = (parent_facts s.nodes T c pool.rep g here up).0

        freed :
            (b : ℕ) → contains b (c ∷ g ∷ free) ≡ true → (has b T ≡ true) ⊎ (contains b free ≡ true)
        freed b i = elim (Bool-cases (b == c)) [
          | inl x ↦ inl (subst (λ y. has y T ≡ true) (sym ((==_iff b c).0 x)) here)
          | inr x ↦ elim (Bool-cases (b == g)) [
            | inl y ↦ inl (subst (λ z. has z T ≡ true) (sym ((==_iff b g).0 y)) above)
            | inr y ↦ inr (ground arith)
          ]
        ]

        differ : (a v : ℕ) → (s.nodes a).toplevel ≡ some v → (v == t) ≡ false → (a == c) ≡ false
        differ a v q ne = elim (Bool-cases (a == c)) [
          | inr o ↦ o
          | inl i ↦
              absurd (clash (subst (λ x. (s.nodes x).toplevel ≡ some v) ((==_iff a c).0 i) q) ne)
        ]
          where
            clash : (s.nodes c).toplevel ≡ some v → (v == t) ≡ false → ⊥
            clash x y = let z : v ≡ t = cc in true_ne_false (sym ((==_iff v t).1 z) ∙ y)

    touched :
        (s' : State) (w' : Workspace)
        → remove k s (ws (home t)) t ≡ some (s', w')
        → Untouched s s' T t
    touched s' w' e =
        remove-Untouched k s (ws (home t)) T t free s' w' pool
          (Forest-CacheFits s ws F free home f t (home t) T refl fh) lt e

    from_some :
        ((contains t (windows T) ≡ false) × (remove k s (ws (home t)) t ≡ some (s, ws (home t))))
          ⊎ Removed s.nodes T t free (remove k s (ws (home t)) t)
        → TakenFrom s ws F free home (home t) t (remove k s (ws (home t)) t)
    from_some (inl (out, e)) =
        nothing e (rw fh out) (subst (λ O. Absent s O t) (sym fh) (Absent-in out))
    from_some (inr (c, s', w', e, unl, inl (whole, root, chain))) =
        let r = last-Rest s' w' c (touched s' w' e) unl whole root chain in
        (
          s',
          w',
          none,
          c ∷ [],
          e,
          Change-IsForest s s' ws F free (c ∷ free) home (home t) w' none f
              (Rest-Change s ws F free home f t T fh s' w' none (c ∷ []) r),
          λ a m. cc,
          inr (rw (fh, whole) (Perm.refl (t ∷ []))),
        )
    from_some (inr (c, s', w', e, unl, inr (g, m, x, up, p, perm))) =
        let r = lower-Rest s' w' c g (touched s' w' e) unl m x up p in
        (
          s',
          w',
          some (prune c T),
          c ∷ g ∷ [],
          e,
          Change-IsForest s s' ws F free (c ∷ g ∷ free) home (home t) w' (some (prune c T)) f
              (Rest-Change s ws F free home f t T fh s' w' (some (prune c T)) (c ∷ g ∷ []) r),
          Rest-Absent s ws F free home f t T fh s' w' (some (prune c T)) (c ∷ g ∷ []) r
              (λ a i q. gone_leaf a i q),
          inr (rw fh perm),
        )
      where
        gone_leaf : (a : ℕ) → has_leaf a (prune c T) ≡ true → (s.nodes a).toplevel ≡ some t → ⊥
        gone_leaf a i q =
            let z : a ≡ c =
              f.unique (home t) a c t (rw fh (has_leaf-prune a c T i)) (rw fh m) q x in
            true_ne_false (
              sym (subst (λ y. has y (prune c T) ≡ true) z (has_leaf-has a (prune c T) i))
              ∙ p.apart c (ground arith))

-- bsp_remove of a window from its workspace returns, with more fuel than the tree has nodes. The
-- trees of all workspaces stay a forest in the shared pool: no tree but this one changes, no leaf of
-- this one shows the window any more, and it shows exactly its other windows.
pub remove-IsForest :
    (k : ℕ) (s : State) (ws : ℕ → Workspace) (F : ℕ → Option Tree) (free : List ℕ) (home : ℕ → ℕ)
    (t : ℕ)
    → IsForest s ws F free home
    → height (F (home t)) < k
    → TakenFrom s ws F free home (home t) t (remove k s (ws (home t)) t)
unfolding remove
remove-IsForest k s ws F free home t f lt = elim (Option-cases (F (home t))) [
  | inl e ↦
      let root : (ws (home t)).root ≡ none = rw e at (f.tree (home t)) in
      nothing k s ws F free home f t (rw root) (rw e) (rw e (λ a m. cc))
  | inr (T, e) ↦ from_some k s ws F free home f t T e (rw e at lt) (
      remove-Removed k s (ws (home t)) T t free (Forest-IsPool s ws F free home f (home t) T e)
        (Forest-CacheFits s ws F free home f t (home t) T refl e) (rw e at lt))
]
