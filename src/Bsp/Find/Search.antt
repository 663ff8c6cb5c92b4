-- ===== src/Bsp/Find/Search.antt =====
-- bsp_find_leaf (src/wm/bsp.c) finds the leaf that shows a window, by the cached leaf or by a search
-- of the tree, and answers NULL exactly if no leaf of the tree shows it.
use uwm.Base.{
  ℕ, zero, suc, ◌<◌, ◌≡◌, refl, ◌∙◌, ◌⊎◌, inl, inr, true, false, ◌||◌, Option, none, some, List, [],
  ◌∷◌, ◌++◌, arith, ◌==◌, ◌=?◌, =?_eq, Link, Bool-cases, Option-cases, ==_iff, contains,
}
use uwm.Bsp.{Split, State, set_leaf}
use uwm.Bsp.Tree.{Tree, leaf, branch, addr, has_leaf, windows, depth, Rep}
use uwm.Bsp.Tree.Frame.{has_leaf-has}
use uwm.Bsp.Find.{walk_up, cached_leaf, find_leaf, remember, or_else}
use uwm.Bsp.Find.Climb.{walk_up-root}

pub contains-append :
    (t : ℕ) (xs ys : List ℕ) → contains t (xs ++ ys) ≡ (contains t xs || contains t ys)
contains-append t [] ys = refl
contains-append t (x ∷ xs) ys = ground (arith, contains-append t xs ys)

-- The cached leaf of `t` no longer shows it.
abbrev pub Stale : State → ℕ → Type 0
Stale s t = (c : ℕ) → (s.windows t).bsp_leaf ≡ some c → ((s.nodes c).toplevel =? some t) ≡ false

Stale-cached : (k : ℕ) (s : State) (node t : ℕ) → Stale s t → cached_leaf k s node t ≡ some none
unfolding cached_leaf
Stale-cached k s node t stale = elim (Option-cases (s.windows t).bsp_leaf) [
  | inl e ↦ rw (e, cached_leaf)
  | inr (c, e) ↦ rw (e, cached_leaf) (rw (stale c e) refl)
]

-- `a` is a leaf of the tree that shows the window, and at most the window's cached leaf changed.
pub record Found (s s' : State) (T : Tree) (t a : ℕ) : Type 0 where
  pub shown : has_leaf a T ≡ true
  pub window : (s.nodes a).toplevel ≡ some t
  pub nodes : s'.nodes ≡ s.nodes
  pub freelist : s'.freelist ≡ s.freelist
  pub others : (u : ℕ) → (u == t) ≡ false → s'.windows u ≡ s.windows u
  pub cache : (s' ≡ s) ⊎ ((s'.windows t).bsp_leaf ≡ some a)

-- The two outcomes of a search.
abbrev pub Outcome : State → Tree → ℕ → Option (State × Link) → Type 0
Outcome s T t r =
    ((contains t (windows T) ≡ false) × (r ≡ some (s, none)))
    ⊎ ((a : ℕ) × (s' : State) × (r ≡ some (s', some a)) × Found s s' T t a)

remember-Outcome :
    (s : State) (T : Tree) (t : ℕ) (r : Option (State × Link))
    → Outcome s T t r
    → Outcome s T t (remember t r)
unfolding remember set_leaf
remember-Outcome s T t r (inl (out, e)) = inl (out, rw e)
remember-Outcome s T t r (inr (a, s', e, f)) = inr (
  a,
  record s' { windows = set_leaf s'.windows t (some a) },
  rw e,
  record {
    shown = f.shown;
    window = f.window;
    nodes = f.nodes;
    freelist = f.freelist;
    others = λ u ne. rw ne (f.others u ne);
    cache = inr (rw ((==_iff t t).1 refl));
  },
)

depth_pos : (T : Tree) → 0 < depth T
depth_pos (leaf a w) = omega arith
depth_pos (branch a sp l r) = omega arith

-- One round of the search, behind the fast path.
abbrev round : ℕ → State → ℕ → ℕ → Option (State × Link)
round k s node t =
    or_else (remember t (find_leaf k s (s.nodes node).first (some t)))
      (λ s'. remember t (find_leaf k s' (s'.nodes node).second (some t)))

module _ (k : ℕ) (s : State) (node t : ℕ) (stale : Stale s t) where
  find_here :
      ((s.nodes node).toplevel =? some t) ≡ true
      → find_leaf (suc k) s (some node) (some t) ≡ some (s, some node)
  unfolding find_leaf
  find_here e = rw (Stale-cached (suc k) s node t stale, find_leaf) (rw e refl)

  find_below :
      ((s.nodes node).toplevel =? some t) ≡ false
      → find_leaf (suc k) s (some node) (some t) ≡ round k s node t
  unfolding find_leaf
  find_below e = rw (Stale-cached (suc k) s node t stale, find_leaf) (rw e refl)

Found-widen :
    {s s' : State} {t a : ℕ} (T T' : Tree)
    → Found s s' T t a
    → (has_leaf a T ≡ true → has_leaf a T' ≡ true)
    → Found s s' T' t a
Found-widen T T' f up = record {
  shown = up f.shown;
  window = f.window;
  nodes = f.nodes;
  freelist = f.freelist;
  others = f.others;
  cache = f.cache;
}

branch-Outcome :
    (s : State) (a : ℕ) (sp : Split) (l r : Tree) (t : ℕ) (x : Option (State × Link))
    (next : State → Option (State × Link))
    → Outcome s l t x
    → Outcome s r t (next s)
    → Outcome s (branch a sp l r) t (or_else x next)
unfolding or_else
branch-Outcome s a sp l r t x next (inl (out, e)) (inl (out', e')) =
    inl (rw (contains-append t (windows l) (windows r), out) out', rw e e')
branch-Outcome s a sp l r t x next (inl (out, e)) (inr (b, s', e', f)) =
    inr (b, s', rw e e', Found-widen r (branch a sp l r) f (λ m. ground arith))
branch-Outcome s a sp l r t x next (inr (b, s', e, f)) _ =
    inr (b, s', rw e refl, Found-widen l (branch a sp l r) f (λ m. ground arith))

shows :
    (s : State) (a w t : ℕ)
    → (s.nodes a).toplevel ≡ some w
    → ((s.nodes a).toplevel =? some t) ≡ (w == t)
shows s a w t e = rw e refl

-- Nothing is below a leaf.
round_leaf :
    (k : ℕ) (s : State) (a t : ℕ)
    → (s.nodes a).first ≡ none
    → (s.nodes a).second ≡ none
    → round (suc k) s a t ≡ some (s, none)
unfolding find_leaf remember or_else
round_leaf k s a t e f = rw (e, f) refl

leaf-Outcome :
    (k : ℕ) (s : State) (p : Link) (a w t : ℕ)
    → Rep s.nodes p (leaf a w)
    → Stale s t
    → Outcome s (leaf a w) t (find_leaf (suc (suc k)) s (some a) (some t))
leaf-Outcome k s p a w t v stale = elim (Bool-cases (w == t)) [
  | inl e ↦ inr (
    a,
    s,
    find_here (suc k) s a t stale (shows s a w t v.toplevel ∙ e),
    record {
      shown = ground arith;
      window = rw (← (==_iff w t).0 e) v.toplevel;
      nodes = refl;
      freelist = refl;
      others = λ u ne. refl;
      cache = inl refl;
    },
  )
  | inr e ↦ inl (
    ground arith,
    find_below (suc k) s a t stale (shows s a w t v.toplevel ∙ e)
        ∙ round_leaf k s a t v.first v.second,
  )
]

-- The search below a node without a fresh cached leaf.
search-Outcome :
    (k : ℕ) (T : Tree) (p : Link) (s : State) (t : ℕ)
    → Rep s.nodes p T
    → Stale s t
    → depth T < k
    → Outcome s T t (find_leaf k s (some (addr T)) (some t))
search-Outcome zero T p s t v stale lt = absurd (omega arith)
search-Outcome (suc zero) T p s t v stale lt = absurd (omega (arith, depth_pos T))
search-Outcome (suc (suc k)) (leaf a w) p s t v stale lt = leaf-Outcome k s p a w t v stale
search-Outcome (suc (suc k)) (branch a sp l r) p s t (n, al, ar, d, vl, vr) stale lt =
    rw (find_below (suc k) s a t stale (rw n.toplevel refl)) (
      branch-Outcome s a sp l r t _ _
        (remember-Outcome s l t _
          (rw n.first (search-Outcome (suc k) l (some a) s t vl stale (omega arith))))
        (remember-Outcome s r t _
          (rw n.second (search-Outcome (suc k) r (some a) s t vr stale (omega arith)))))

cached_hit :
    (k : ℕ) (s : State) (node t c : ℕ)
    → (s.windows t).bsp_leaf ≡ some c
    → ((s.nodes c).toplevel =? some t) ≡ true
    → walk_up k s.nodes (some c) node ≡ some (some node)
    → cached_leaf k s node t ≡ some (some c)
unfolding cached_leaf
cached_hit k s node t c e hit walk =
    rw (e, cached_leaf) (rw hit (rw walk (rw ((==_iff node node).1 refl))))

find_cached :
    (k : ℕ) (s : State) (node t c : ℕ)
    → cached_leaf (suc k) s node t ≡ some (some c)
    → find_leaf (suc k) s (some node) (some t) ≡ some (s, some c)
unfolding find_leaf
find_cached k s node t c e = rw (e, find_leaf) refl

-- The cached leaf of `t`, if it still shows `t`, is a leaf of the tree.
abbrev pub CacheFits : State → Tree → ℕ → Type 0
CacheFits s T t =
    (c : ℕ) → (s.windows t).bsp_leaf ≡ some c → (s.nodes c).toplevel ≡ some t → has_leaf c T ≡ true

-- bsp_find_leaf returns, with more fuel than the tree has nodes: the cached leaf or what the search
-- finds, a leaf of the tree that shows the window; or NULL, and then no leaf of the tree shows it.
-- It changes nothing but the window's cached leaf.
pub find_leaf-Outcome :
    (k : ℕ) (s : State) (T : Tree) (t : ℕ)
    → Rep s.nodes none T
    → CacheFits s T t
    → depth T < k
    → Outcome s T t (find_leaf k s (some (addr T)) (some t))
find_leaf-Outcome zero s T t v fits lt = absurd (omega arith)
find_leaf-Outcome (suc k) s T t v fits lt = elim (Option-cases (s.windows t).bsp_leaf) [
  | inl e ↦ search-Outcome (suc k) T none s t v (λ c q. cc) lt
  | inr (c, e) ↦ elim (Bool-cases ((s.nodes c).toplevel =? some t)) [
    | inl hit ↦
        let window : (s.nodes c).toplevel ≡ some t = =?_eq _ t hit in
        let shown : has_leaf c T ≡ true = fits c e window in
        inr (
          c,
          s,
          find_cached k s (addr T) t c (
              cached_hit (suc k) s (addr T) t c e hit
                (walk_up-root s.nodes T none c (suc k) v (has_leaf-has c T shown) lt)),
          record {
            shown = shown;
            window = window;
            nodes = refl;
            freelist = refl;
            others = λ u ne. refl;
            cache = inl refl;
          },
        )
    | inr miss ↦ search-Outcome (suc k) T none s t v (missed c e miss) lt
  ]
]
  where
    missed :
        (c : ℕ)
        → (s.windows t).bsp_leaf ≡ some c
        → ((s.nodes c).toplevel =? some t) ≡ false
        → Stale s t
    missed c e miss c' q = let z : c' ≡ c = cc in rw z miss
