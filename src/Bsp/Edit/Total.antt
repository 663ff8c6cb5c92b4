-- ===== src/Bsp/Edit/Total.antt =====
-- bsp_insert (src/wm/bsp.c) as a whole: it returns, and puts the new leaf beside the focused window.
use uwm.Base.{
  ℕ, zero, suc, ◌<◌, ◌≡◌, refl, sym, ap, subst, ◌∙◌, Bool-cases, ==_iff, ◌⊎◌, inl, inr, true, false,
  none, some, List, ◌∷◌, arith, Link, Option-cases, contains, ◌==◌,
}
use uwm.Bsp.{Node, Nodes, Windows, State, Workspace, Toplevel, set_leaf}
use uwm.Bsp.Pool.{node_create, fresh_node}
use uwm.Bsp.Pool.Chain.{Chain, ne_of_contains, IsAllocated, node_create-IsAllocated}
use uwm.Bsp.Tree.{Tree, leaf, branch, addr, has_leaf, windows, depth, Rep}
use uwm.Bsp.Tree.Graft.{beside}
use uwm.Bsp.Find.{find_leaf, find_focused_leaf, first_leaf}
use uwm.Bsp.Find.Search.{CacheFits, Found, find_leaf-Outcome}
use uwm.Bsp.Edit.{insert, insert_first, insert_beside, choose_split, insert_found, bump}
use uwm.Bsp.Edit.Inserted.{IsPool, pair_eq, insert_beside-IsPool}
use uwm.Bsp.Edit.Written.{Written, insert_beside-Written}

abbrev pub leftmost : Tree → ℕ
leftmost (leaf a w) = a
leftmost (branch a sp l r) = leftmost l

has_leaf-leftmost : (T : Tree) → has_leaf (leftmost T) T ≡ true
has_leaf-leftmost (leaf a w) = ground arith
has_leaf-leftmost (branch a sp l r) = ground (arith, has_leaf-leftmost l)

first_leaf-leftmost :
    (k : ℕ) (h : Nodes) (T : Tree) (p : Link)
    → Rep h p T
    → depth T < k
    → first_leaf k h (addr T) ≡ some (leftmost T)
unfolding first_leaf
first_leaf-leftmost zero h T p v lt = absurd (omega arith)
first_leaf-leftmost (suc k) h (leaf a w) p v lt = rw (v.first, first_leaf) refl
first_leaf-leftmost (suc k) h (branch a sp l r) p (n, _, _, _, vl, _) lt =
    rw (n.first, first_leaf) (first_leaf-leftmost k h l (some a) vl (omega arith))

-- Beside which leaf the new window goes: the focused window's, or the leftmost if the tree does not
-- show the focused window or none is focused.
abbrev pub Target : State → Workspace → Tree → ℕ → Type 0
Target s ws T c =
    ((f : ℕ) × (ws.focused ≡ some f) × ((s.nodes c).toplevel ≡ some f))
    ⊎ ((c ≡ leftmost T) × ((f : ℕ) → ws.focused ≡ some f → contains f (windows T) ≡ false))

pub IsPool-same :
    (s s' : State) (ws : Workspace) (T : Tree) (free : List ℕ)
    → s'.nodes ≡ s.nodes
    → s'.freelist ≡ s.freelist
    → IsPool s ws T free
    → IsPool s' ws T free
IsPool-same s s' ws T free e f v = record {
  rep = rw e v.rep;
  root = v.root;
  chain = rw (e, f) v.chain;
  apart = v.apart;
}

-- bsp_insert into a workspace with windows, while two nodes are free.
abbrev pub Inserted : ℕ → State → Workspace → Tree → (n i : ℕ) → List ℕ → ℕ → Type 0
Inserted k s ws T n i free t =
    (c : ℕ) × (s' : State) × (ws' : Workspace) × (insert k s ws t ≡ some (s', ws', some n))
    × (has_leaf c T ≡ true)
    × Target s ws T c
    × IsPool s' ws' (beside c (choose_split (s.nodes c)) i n t T) free
    × Written s s' T n i t

module _ (k : ℕ) (s : State) (ws : Workspace) (T : Tree) (t : ℕ)
    (root : ws.root ≡ some (addr T)) where
  insert_eq : insert k s ws t ≡ insert_found k ws t (addr T) (find_focused_leaf k s ws)
  unfolding insert
  insert_eq = simp (root, insert)

  focused_none : ws.focused ≡ none → find_focused_leaf k s ws ≡ some (s, none)
  unfolding find_focused_leaf
  focused_none e = rw (root, find_focused_leaf) (rw e refl)

  focused_some :
      (f : ℕ)
      → ws.focused ≡ some f
      → find_focused_leaf k s ws ≡ find_leaf k s (some (addr T)) (some f)
  unfolding find_focused_leaf
  focused_some f e = rw (root, find_focused_leaf) (rw e refl)

  insert_at_found :
      (s' : State) (c : ℕ)
      → find_focused_leaf k s ws ≡ some (s', some c)
      → insert k s ws t ≡ some (insert_beside s' ws t c)
  unfolding insert_found
  insert_at_found s' c e = insert_eq ∙ rw (e, insert_found) refl

  insert_at_leftmost :
      Rep s.nodes none T
      → depth T < k
      → find_focused_leaf k s ws ≡ some (s, none)
      → insert k s ws t ≡ some (insert_beside s ws t (leftmost T))
  unfolding insert_found
  insert_at_leftmost v lt e =
      insert_eq ∙ rw (e, insert_found) (rw (first_leaf-leftmost k s.nodes T none v lt) refl)

-- The search has left the window's cached leaf or put in one of the tree.
abbrev CachedIn : State → State → Tree → ℕ → Type 0
CachedIn s s' T u =
    (s'.windows u ≡ s.windows u)
    ⊎ ((a : ℕ) × ((s'.windows u).bsp_leaf ≡ some a) × (has_leaf a T ≡ true))

Found-CachedIn :
    (s s' : State) (T : Tree) (f c : ℕ) → Found s s' T f c → (u : ℕ) → CachedIn s s' T u
Found-CachedIn s s' T f c found u = elim (Bool-cases (u == f)) [
  | inr ne ↦ inl (found.others u ne)
  | inl e ↦ subst (CachedIn s s' T) (sym ((==_iff u f).0 e)) (here found.cache)
]
  where
    here : (s' ≡ s) ⊎ ((s'.windows f).bsp_leaf ≡ some c) → CachedIn s s' T f
    here (inl e) = inl (ap (λ (x : State). x.windows f) e)
    here (inr e) = inr (c, e, found.shown)

-- The result of insert_beside, in the form of `Inserted`.
conclude :
    (k : ℕ) (s s' : State) (ws : Workspace) (T : Tree) (n i t c : ℕ) (free : List ℕ)
    → IsPool s' ws T (n ∷ i ∷ free)
    → s'.nodes ≡ s.nodes
    → has_leaf c T ≡ true
    → Target s ws T c
    → ((u : ℕ) → CachedIn s s' T u)
    → insert k s ws t ≡ some (insert_beside s' ws t c)
    → Inserted k s ws T n i free t
conclude k s s' ws T n i t c free v same shown target cached e =
    let r = insert_beside-IsPool s' ws T c n i t free v shown in
    (
      c,
      (insert_beside s' ws t c).0,
      (insert_beside s' ws t c).1,
      e ∙ ap some (third (insert_beside s' ws t c) r.1),
      shown,
      target,
      rw (← same) r.0,
      widened (insert_beside-Written s' ws T c n i t free v shown),
    )
  where
    third : (r : State × Workspace × Link) {l : Link} → r.2 ≡ l → r ≡ (r.0, r.1, l)
    third r e = λ i. (r.0, r.1, e i)

    widened :
        Written s' (insert_beside s' ws t c).0 T n i t
        → Written s (insert_beside s' ws t c).0 T n i t
    widened w = record {
      elsewhere = λ b o bn bi. w.elsewhere b o bn bi ∙ ap (λ (h : Nodes). h b) same;
      shows =
          λ b u e. subst (λ (h : Nodes). (b ≡ n) ⊎ ((h b).toplevel ≡ some u)) same (w.shows b u e);
      windows = λ u ne. elim (w.windows u ne) [
        | inr a ↦ inr a
        | inl e ↦ elim (cached u) [
          | inl q ↦ inl (e ∙ q)
          | inr (a, q, m) ↦ inr (a, ap (λ (x : Toplevel). x.bsp_leaf) e ∙ q, m)
        ]
      ];
      leaf = w.leaf;
    }

-- bsp_insert into a workspace that shows the tree `T`, with two free nodes and more fuel than the
-- tree has nodes, returns. It finds a leaf `c` of the tree, the focused window's if the tree shows
-- that window and the leftmost one otherwise, and leaves the tree with a branch at `c` over the
-- old leaf and a new leaf for `t`; the two nodes have left the free list. No other node outside
-- the tree is written, no node but the new leaf shows another window, and a cached leaf that
-- changes is one of the tree. The cached leaf of the focused window is to be in the tree if it still shows
-- that window.
pub insert-Inserted :
    (k : ℕ) (s : State) (ws : Workspace) (T : Tree) (n i t : ℕ) (free : List ℕ)
    → IsPool s ws T (n ∷ i ∷ free)
    → ((f : ℕ) → ws.focused ≡ some f → CacheFits s T f)
    → depth T < k
    → Inserted k s ws T n i free t
insert-Inserted k s ws T n i t free v fits lt = elim (Option-cases ws.focused) [
  | inl e ↦
      conclude k s s ws T n i t (leftmost T) free v refl (has_leaf-leftmost T)
        (inr (refl, λ f q. cc)) (λ u. inl refl)
        (insert_at_leftmost k s ws T t v.root v.rep lt (focused_none k s ws T t v.root e))
  | inr (f, e) ↦ elim (find_leaf-Outcome k s T f v.rep (fits f e) lt) [
    | inl (out, q) ↦
        conclude k s s ws T n i t (leftmost T) free v refl (has_leaf-leftmost T)
          (inr (refl, other f e out)) (λ u. inl refl)
          (insert_at_leftmost k s ws T t v.root v.rep lt (focused_some k s ws T t v.root f e ∙ q))
    | inr (c, s', q, found) ↦
        conclude k s s' ws T n i t c free (IsPool-same s s' ws T _ found.nodes found.freelist v)
          found.nodes found.shown (inl (f, e, found.window)) (Found-CachedIn s s' T f c found)
          (insert_at_found k s ws T t v.root s' c (focused_some k s ws T t v.root f e ∙ q))
  ]
]
  where
    other :
        (f : ℕ)
        → ws.focused ≡ some f
        → contains f (windows T) ≡ false
        → (g : ℕ) → ws.focused ≡ some g
        → contains g (windows T) ≡ false
    other f e out g q = let z : g ≡ f = cc in rw z out

-- bsp_insert into an empty workspace makes the new leaf the root and the window's cached leaf, and
-- writes no other node.
pub insert_empty :
    (k : ℕ) (s : State) (ws : Workspace) (n t : ℕ) (free : List ℕ)
    → ws.root ≡ none
    → Chain s.nodes s.freelist (n ∷ free)
    → (s' : State) × (ws' : Workspace) × (insert k s ws t ≡ some (s', ws', some n))
      × IsPool s' ws' (leaf n t) free
      × Written s s' (leaf n t) n n t
unfolding insert insert_first bump fresh_node set_leaf
insert_empty k s ws n t free root c = (
  record s₁ { windows = set_leaf s₁.windows t (some n) },
  bump (record ws { root = some n }),
  simp (root, insert)
      (rw (pair_eq (node_create s t) (node_create-IsAllocated s t n free c).0) refl),
  record {
    rep = ground (arith, created.node);
    root = refl;
    chain = created.chain;
    apart = λ b m. ne_of_contains n b free c.1 m;
  },
  record {
    elsewhere = λ b o bn bi. created.others b bn;
    shows = λ b u e. shown b u e (Bool-cases (b == n));
    windows = λ u ne. inl (rw ne (ap (λ (w : Windows). w u) created.windows));
    leaf = rw ((==_iff t t).1 refl) refl;
  },
)
  where
    s₁ : State
    s₁ = (node_create s t).0

    created : IsAllocated s s₁ n (record (fresh_node (s.nodes n)) { toplevel = some t }) free
    created = (node_create-IsAllocated s t n free c).1

    shown :
        (b u : ℕ)
        → (s₁.nodes b).toplevel ≡ some u
        → ((b == n) ≡ true) ⊎ ((b == n) ≡ false)
        → (b ≡ n) ⊎ ((s.nodes b).toplevel ≡ some u)
    shown b u e (inl q) = inl ((==_iff b n).0 q)
    shown b u e (inr ne) = inr (sym (ap (λ (x : Node). x.toplevel) (created.others b ne)) ∙ e)
