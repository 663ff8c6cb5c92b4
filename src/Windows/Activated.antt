-- ===== src/Windows/Activated.antt =====
-- focus_toplevel (src/wm/window.c) returns and keeps the invariant of the session.
use uwm.Base.{
  ℕ, zero, suc, ◌<◌, ◌≡◌, refl, sym, ap, subst, ◌∙◌, ◌⊎◌, inl, inr, true, false, ◌&&◌, Option, none,
  some, arith, List, [], Link, ◌==◌, ◌=?◌, Bool-cases, ==_iff, true_ne_false, is_some,
}
use uwm.Bsp.{Node, State, Workspace, Toplevel, Windows, write}
use uwm.Bsp.Pool.Chain.{Chain-frame, write_self, write_ne}
use uwm.Bsp.Tree.{Tree, addr, depth, Rep}
use uwm.Bsp.Tree.Frame.{has_leaf-has}
use uwm.Bsp.Tree.Prune.{SameShape, Rep-shape}
use uwm.Bsp.Edit.Splice.{parent_facts}
use uwm.Bsp.Remove.Unlinked.{SameShapes, SameShape-refl}
use uwm.Bsp.Find.{find_leaf}
use uwm.Bsp.Find.Search.{Found, Outcome, find_leaf-Outcome}
use uwm.Bsp.Find.Tabbed.{find_tabbed_parent-total}
use uwm.Bsp.Forest.{IsForest, InTree, ends, height, Forest-CacheFits}
use uwm.Windows.{Session, ScreenCall, in_tiling}
use uwm.Windows.Focus.{set_active, activate_in, activate_leaf, activate_tab}

InTree-shape :
    (s s' : State) (ws : Workspace) (O : Option Tree)
    → InTree s ws O
    → SameShapes s.nodes s'.nodes
    → InTree s' ws O
InTree-shape s s' ws none v same = v
InTree-shape s s' ws (some T) (rep, root) same =
    (Rep-shape s.nodes s'.nodes T none rep (λ b m. same b), root)

-- The nodes keep their shapes, and every cached leaf that is new is one of its window's workspace.
Forest-shape :
    (s s' : State) (ws : ℕ → Workspace) (F : ℕ → Option Tree) (free : List ℕ) (home : ℕ → ℕ)
    → IsForest s ws F free home
    → SameShapes s.nodes s'.nodes
    → s'.freelist ≡ s.freelist
    → ((u : ℕ)
        → ((s'.windows u).bsp_leaf ≡ (s.windows u).bsp_leaf)
          ⊎ ((c : ℕ) × ((s'.windows u).bsp_leaf ≡ some c) × (ends c (F (home u)) ≡ true)))
    → IsForest s' ws F free home
Forest-shape s s' ws F free home f same fl caches = record {
  tree = λ w. InTree-shape s s' (ws w) (F w) (f.tree w) same;
  chain = Chain-frame s.nodes s'.nodes _ _ free f.chain fl (λ b m. (same b).first);
  apart = f.apart;
  disjoint = f.disjoint;
  homes = λ w a u m e. f.homes w a u m (sym (same a).toplevel ∙ e);
  unique = λ w a b u m m' e e'.
      f.unique w a b u m m' (sym (same a).toplevel ∙ e) (sym (same b).toplevel ∙ e');
  cached = λ u c q e. elim (caches u) [
    | inl z ↦ f.cached u c (sym z ∙ q) (sym (same c).toplevel ∙ e)
    | inr (c', z, m) ↦ subst (λ x. ends x (F (home u)) ≡ true) (link_eq u c c' z q) m
  ];
}
  where
    link_eq :
        (u c c' : ℕ) → (s'.windows u).bsp_leaf ≡ some c' → (s'.windows u).bsp_leaf ≡ some c → c' ≡ c
    link_eq u c c' a b = cc

set_active-SameShapes :
    (p : State) (cont leaf : ℕ) → SameShapes p.nodes (set_active p cont leaf).0.nodes
unfolding set_active
set_active-SameShapes p cont leaf b = elim (Bool-cases ((p.nodes cont).active_child =? some leaf)) [
  | inl e ↦ rw (e, set_active) (SameShape-refl (p.nodes b))
  | inr e ↦ rw (e, set_active) (written (Bool-cases (b == cont)))
]
  where
    n : Node
    n = record (p.nodes cont) { active_child = some leaf }

    written :
        ((b == cont) ≡ true) ⊎ ((b == cont) ≡ false)
        → SameShape (p.nodes b) (write p.nodes cont n b)
    written (inl q) =
        subst (λ x. SameShape (p.nodes x) (write p.nodes cont n x)) (sym ((==_iff b cont).0 q))
          (subst (SameShape (p.nodes cont)) (sym (write_self p.nodes cont n))
            (record { parent = refl; first = refl; second = refl; toplevel = refl; split = refl }))
    written (inr q) =
        subst (SameShape (p.nodes b)) (sym (write_ne p.nodes cont n b q))
          (SameShape-refl (p.nodes b))

set_active_rest :
    (p : State) (cont leaf : ℕ)
    → ((set_active p cont leaf).0.freelist ≡ p.freelist)
      × ((set_active p cont leaf).0.windows ≡ p.windows)
unfolding set_active
set_active_rest p cont leaf = elim (Bool-cases ((p.nodes cont).active_child =? some leaf)) [
  | inl e ↦ rw (e, set_active) (refl, refl)
  | inr e ↦ rw (e, set_active) (refl, refl)
]

-- The pool behind activate_tab.
abbrev pub Activated :
    (ℕ → Workspace)
    → (ℕ → Option Tree)
    → List ℕ
    → (ℕ → ℕ)
    → Option (State × List ScreenCall)
    → Type 0
Activated ws F free home r =
    (p : State) × (es : List ScreenCall) × (r ≡ some (p, es)) × IsForest p ws F free home

module _ (k : ℕ) (p : State) (ws : ℕ → Workspace) (F : ℕ → Option Tree) (free : List ℕ)
    (home : ℕ → ℕ) (f : IsForest p ws F free home) (t : ℕ) (T : Tree) (fh : F (home t) ≡ some T)
    (lt : depth T < k) where
  rep : Rep p.nodes none T
  rep = (subst (InTree p (ws (home t))) fh (f.tree (home t))).0

  module _ (p' : State) (c : ℕ) (found : Found p p' T t c) where
    found-IsForest : IsForest p' ws F free home
    found-IsForest =
        Forest-shape p p' ws F free home f
          (λ b.
            subst (λ h. SameShape (p.nodes b) (h b)) (sym found.nodes) (SameShape-refl (p.nodes b)))
          found.freelist (λ u. caches u (Bool-cases (u == t)))
      where
        caches :
            (u : ℕ)
            → ((u == t) ≡ true) ⊎ ((u == t) ≡ false)
            → ((p'.windows u).bsp_leaf ≡ (p.windows u).bsp_leaf)
              ⊎ ((a : ℕ) × ((p'.windows u).bsp_leaf ≡ some a) × (ends a (F (home u)) ≡ true))
        caches u (inr ne) = inl (ap (λ (x : Toplevel). x.bsp_leaf) (found.others u ne))
        caches u (inl e) =
            subst
              (λ u.
                ((p'.windows u).bsp_leaf ≡ (p.windows u).bsp_leaf)
                ⊎ ((a : ℕ) × ((p'.windows u).bsp_leaf ≡ some a) × (ends a (F (home u)) ≡ true)))
              (sym ((==_iff u t).0 e))
              (elim found.cache [
                | inl q ↦ inl (ap (λ (s : State). (s.windows t).bsp_leaf) q)
                | inr q ↦ inr (c, q, subst (λ O. ends c O ≡ true) (sym fh) found.shown)
              ])

    activated : (r : Link) → Activated ws F free home (activate_in p' c (some r))
    unfolding activate_in
    activated none = (p', [], refl, found-IsForest)
    activated (some cont) = (
      (set_active p' cont c).0,
      (set_active p' cont c).1,
      refl,
      Forest-shape p' (set_active p' cont c).0 ws F free home found-IsForest
          (set_active-SameShapes p' cont c) (set_active_rest p' cont c).0
          (λ u. inl (ap (λ (w : Windows). (w u).bsp_leaf) (set_active_rest p' cont c).1)),
    )

  activate_leaf-Activated :
      Activated ws F free home (activate_leaf k (find_leaf k p (some (addr T)) (some t)))
  unfolding activate_leaf
  activate_leaf-Activated =
      found (
        find_leaf-Outcome k p T t rep (Forest-CacheFits p ws F free home f t (home t) T refl fh) lt)
    where
      found :
          Outcome p T t (find_leaf k p (some (addr T)) (some t))
          → Activated ws F free home (activate_leaf k (find_leaf k p (some (addr T)) (some t)))
      found (inl (out, e)) = (p, [], rw (e, activate_leaf) refl, f)
      found (inr (c, p', e, fd)) =
          let rep' : Rep p'.nodes none T = subst (λ h. Rep h none T) (sym fd.nodes) rep in
          let tab =
            find_tabbed_parent-total p'.nodes T k c rep'
              (λ x q. (parent_facts p'.nodes T c rep' x (has_leaf-has c T fd.shown) q).0) lt in
          subst (Activated ws F free home)
            (sym (rw (e, activate_leaf) (ap (activate_in p' c) tab.1))) (activated p' c fd tab.0)

-- The pool behind the search for the leaf of a window.
abbrev pub Sought :
    (ℕ → Workspace) → (ℕ → Option Tree) → List ℕ → (ℕ → ℕ) → Option (State × Link) → Type 0
Sought ws F free home r = (p : State) × (l : Link) × (r ≡ some (p, l)) × IsForest p ws F free home

find_leaf-none :
    (k : ℕ) (p : State) (t n : ℕ) → n < k → find_leaf k p none (some t) ≡ some (p, none)
unfolding find_leaf
find_leaf-none zero p t n lt = absurd (omega arith)
find_leaf-none (suc k) p t n lt = refl

-- The search in the tree of the window's workspace.
pub find_leaf-Sought :
    (k : ℕ) (p : State) (ws : ℕ → Workspace) (F : ℕ → Option Tree) (free : List ℕ) (home : ℕ → ℕ)
    (t : ℕ)
    → IsForest p ws F free home
    → height (F (home t)) < k
    → Sought ws F free home (find_leaf k p (ws (home t)).root (some t))
find_leaf-Sought k p ws F free home t f lt = on_tree (F (home t)) refl
  where
    on_tree :
        (O : Option Tree)
        → F (home t) ≡ O
        → Sought ws F free home (find_leaf k p (ws (home t)).root (some t))
    on_tree none q =
        let root : (ws (home t)).root ≡ none = subst (InTree p (ws (home t))) q (f.tree (home t)) in
        (
          p,
          none,
          ap (λ l. find_leaf k p l (some t)) root ∙ find_leaf-none k p t (height (F (home t))) lt,
          f,
        )
    on_tree (some T) q =
        let (rep, root) = subst (InTree p (ws (home t))) q (f.tree (home t)) in
        let lt' : depth T < k = subst (λ O. height O < k) q lt in
        subst (λ l. Sought ws F free home (find_leaf k p l (some t))) (sym root)
          (elim (find_leaf-Outcome k p T t rep
            (Forest-CacheFits p ws F free home f t (home t) T refl q) lt') [
              | inl (out, e) ↦ (p, none, e, f)
              | inr (c, p', e, fd) ↦
                  (p', some c, e, found-IsForest k p ws F free home f t T q lt' p' c fd)
            ])

-- On the tree of the window's workspace, with more fuel than it has nodes.
pub activate_tab-Activated :
    (k : ℕ) (s : Session) (F : ℕ → Option Tree) (free : List ℕ) (home : ℕ → ℕ) (t : ℕ)
    → IsForest s.pool (λ w. (s.spaces w).tree) F free home
    → height (F (home t)) < k
    → Activated (λ w. (s.spaces w).tree) F free home (activate_tab k s (home t) t)
unfolding activate_tab
activate_tab-Activated k s F free home t f lt =
    elim (Bool-cases (is_some (s.spaces (home t)).tree.root && in_tiling s t)) [
      | inr e ↦ rw (e, activate_tab) (s.pool, [], refl, f)
      | inl e ↦ rw (e, activate_tab) (on_tree (F (home t)) refl e)
    ]
  where
    on_tree :
        (O : Option Tree)
        → F (home t) ≡ O
        → (is_some (s.spaces (home t)).tree.root && in_tiling s t) ≡ true
        → Activated
            (λ w. (s.spaces w).tree)
            F
            free
            home
            (activate_leaf k (find_leaf k s.pool (s.spaces (home t)).tree.root (some t)))
    on_tree none q e =
        let root : (s.spaces (home t)).tree.root ≡ none =
          subst (InTree s.pool (s.spaces (home t)).tree) q (f.tree (home t)) in
        absurd (true_ne_false (sym e ∙ ap (λ l. is_some l && in_tiling s t) root))
    on_tree (some T) q e =
        let root : (s.spaces (home t)).tree.root ≡ some (addr T) =
          (subst (InTree s.pool (s.spaces (home t)).tree) q (f.tree (home t))).1 in
        subst
          (λ l.
            Activated (λ w. (s.spaces w).tree) F free home
              (activate_leaf k (find_leaf k s.pool l (some t))))
          (sym root)
          (activate_leaf-Activated k s.pool (λ w. (s.spaces w).tree) F free home f t T q
            (subst (λ O. height O < k) q lt))
