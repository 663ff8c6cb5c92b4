-- ===== src/Bsp/Remove/Outside.antt =====
-- What bsp_remove (src/wm/bsp.c) leaves alone: the nodes outside the workspace's tree, the windows
-- that the nodes show, and the cached leaves of the other windows.
use uwm.Base.{
  ℕ, zero, suc, ◌<◌, ◌≡◌, arith, refl, sym, ap, subst, ◌∙◌, inl, inr, true, false, ◌&&◌, Option,
  none, some, List, ◌==◌, ◌=?◌, Link, Bool-cases, ==_iff, is_some,
}
use uwm.Bsp.{Node, Nodes, State, Workspace, write, set_leaf}
use uwm.Bsp.Pool.{node_free}
use uwm.Bsp.Pool.Chain.{write_self, write_ne}
use uwm.Bsp.Tree.{Tree, addr, has, has_leaf, depth, Rep}
use uwm.Bsp.Tree.Frame.{has_leaf-has, Rep-parent}
use uwm.Bsp.Tree.Pruned.{Family, ne_of_has}
use uwm.Bsp.Find.{is_monocle}
use uwm.Bsp.Edit.{set_parent, set_first, set_second, relink, bump}
use uwm.Bsp.Edit.Inserted.{IsPool, relink-windows}
use uwm.Bsp.Find.{find_leaf}
use uwm.Bsp.Find.Search.{CacheFits, Outcome, find_leaf-Outcome}
use uwm.Bsp.Remove.Removed.{remove_eq}
use uwm.Bsp.Edit.Splice.{parent_facts}
use uwm.Bsp.Remove.{
  fix_active_child, fix_ancestors, inherit_split, replace_parent, detach, remove_from, remove_found,
  remove, sibling_of,
}
use uwm.Bsp.Remove.Raised.{inherit_split-SameUp}
use uwm.Bsp.Remove.Taken.{Parents, parents}
use uwm.Bsp.Tree.Prune.{has_first, has_second}
use uwm.Bsp.Remove.Unlinked.{SameUp, fix_active_child-SameShapes}

-- Only nodes of the tree have been written, and no node shows another window.
abbrev pub OnlyIn : Tree → Nodes → Nodes → Type 0
OnlyIn T h h' = (b : ℕ) → (has b T ≡ false → h' b ≡ h b) × ((h' b).toplevel ≡ (h b).toplevel)

pub OnlyIn-refl : (T : Tree) (h : Nodes) → OnlyIn T h h
OnlyIn-refl T h b = (λ o. refl, refl)

pub OnlyIn-trans : (T : Tree) (h h' h'' : Nodes) → OnlyIn T h h' → OnlyIn T h' h'' → OnlyIn T h h''
OnlyIn-trans T h h' h'' x y b = (λ o. (y b).0 o ∙ (x b).0 o, (y b).1 ∙ (x b).1)

pub write-OnlyIn :
    (T : Tree) (h : Nodes) (a : ℕ) (n : Node)
    → has a T ≡ true
    → n.toplevel ≡ (h a).toplevel
    → OnlyIn T h (write h a n)
write-OnlyIn T h a n m e b = (
  λ o. write_ne h a n b (apart o),
  elim (Bool-cases (b == a)) [
    | inl q ↦
        subst (λ x. (write h a n x).toplevel ≡ (h x).toplevel) (sym ((==_iff b a).0 q))
          (ap (λ (x : Node). x.toplevel) (write_self h a n) ∙ e)
    | inr ne ↦ ap (λ (x : Node). x.toplevel) (write_ne h a n b ne)
  ],
)
  where
    apart : has b T ≡ false → (b == a) ≡ false
    apart o = let z : (a == b) ≡ false = ne_of_has T a b m o in ground arith

module _ (T : Tree) where
  fix_active_child-OnlyIn :
      (h : Nodes) (a c : ℕ) (r : Link) → has a T ≡ true → OnlyIn T h (fix_active_child h a c r)
  unfolding fix_active_child
  fix_active_child-OnlyIn h a c r m =
      elim (Bool-cases (is_monocle (h a).mode && (h a).active_child =? some c)) [
        | inl t ↦ rw t (write-OnlyIn T h a _ m refl)
        | inr e ↦ rw e (OnlyIn-refl T h)
      ]

  inherit_split-OnlyIn : (h : Nodes) (x g : ℕ) → has x T ≡ true → OnlyIn T h (inherit_split h x g)
  unfolding inherit_split
  inherit_split-OnlyIn h x g m = elim (Bool-cases (is_some (h x).first)) [
    | inl t ↦ rw t (write-OnlyIn T h x _ m refl)
    | inr e ↦ rw e (OnlyIn-refl T h)
  ]

  set_parent-OnlyIn :
      (h : Nodes) (a : ℕ) (p : Link) → has a T ≡ true → OnlyIn T h (set_parent h a p)
  unfolding set_parent
  set_parent-OnlyIn h a p m = write-OnlyIn T h a _ m refl

  relink-OnlyIn :
      (s : State) (ws : Workspace) (p : Link) (old : ℕ) (new : Link)
      → ((g : ℕ) → p ≡ some g → has g T ≡ true)
      → OnlyIn T s.nodes (relink s ws p old new).0.nodes
  unfolding relink set_first set_second
  relink-OnlyIn s ws none old new inside = OnlyIn-refl T s.nodes
  relink-OnlyIn s ws (some g) old new inside = elim (Bool-cases ((s.nodes g).first =? some old)) [
    | inl t ↦ rw t (write-OnlyIn T s.nodes g _ (inside g refl) refl)
    | inr e ↦ rw e (write-OnlyIn T s.nodes g _ (inside g refl) refl)
  ]

  pub node_free-OnlyIn :
      (s : State) (a : ℕ) → has a T ≡ true → OnlyIn T s.nodes (node_free s (some a)).nodes
  unfolding node_free
  node_free-OnlyIn s a m = write-OnlyIn T s.nodes a _ m refl

  replace_parent-OnlyIn :
      (s : State) (ws : Workspace) (c g x : ℕ) (p : Link) (h : Nodes)
      → has c T ≡ true
      → has g T ≡ true
      → has x T ≡ true
      → ((y : ℕ) → p ≡ some y → has y T ≡ true)
      → OnlyIn T s.nodes h
      → OnlyIn T s.nodes (replace_parent s ws c g x p h).0.nodes
  unfolding replace_parent
  replace_parent-OnlyIn s ws c g x p h mc mg mx up same =
      let s₁ : State = record s { nodes = set_parent h x p } in
      let s₂ : State = (relink s₁ ws p g (some x)).0 in
      let s₃ : State = node_free s₂ (some g) in
      OnlyIn-trans T _ _ _ same (
        OnlyIn-trans T _ _ _ (set_parent-OnlyIn h x p mx) (
          OnlyIn-trans T _ _ _ (relink-OnlyIn s₁ ws p g (some x) up)
            (OnlyIn-trans T _ _ _ (node_free-OnlyIn s₂ g mg) (node_free-OnlyIn s₃ c mc))))

module _ (s : State) (T : Tree) (v : Rep s.nodes none T) where
  -- The loop from a node of the tree stays in the tree.
  fix_ancestors-OnlyIn :
      (k : ℕ) (h : Nodes) (cur : Link) (c x : ℕ) (h' : Nodes)
      → SameUp s.nodes h
      → ((a : ℕ) → cur ≡ some a → has a T ≡ true)
      → fix_ancestors k h cur c x ≡ some h'
      → OnlyIn T h h'
  unfolding fix_ancestors
  fix_ancestors-OnlyIn zero h cur c x h' same inside e = cc
  fix_ancestors-OnlyIn (suc k) h none c x h' same inside e =
      let q : h ≡ h' = cc in subst (OnlyIn T h) q (OnlyIn-refl T h)
  fix_ancestors-OnlyIn (suc k) h (some a) c x h' same inside e =
      OnlyIn-trans T h h₁ h' (fix_active_child-OnlyIn T h a c (some x) (inside a refl))
        (fix_ancestors-OnlyIn k h₁ (h₁ a).parent c x h' same₁ above e)
    where
      h₁ : Nodes
      h₁ = fix_active_child h a c (some x)

      same₁ : SameUp s.nodes h₁
      same₁ b = (fix_active_child-SameShapes h a c (some x) b).parent ∙ same b

      above : (y : ℕ) → (h₁ a).parent ≡ some y → has y T ≡ true
      above y q = (parent_facts s.nodes T a v y (inside a refl) (sym (same₁ a) ∙ q)).0

  detach-OnlyIn :
      (k : ℕ) (ws : Workspace) (c g x : ℕ) (s' : State) (ws' : Workspace)
      → has c T ≡ true
      → has g T ≡ true
      → has x T ≡ true
      → detach k s ws c g x ≡ some (s', ws')
      → OnlyIn T s.nodes s'.nodes
  unfolding detach
  detach-OnlyIn k ws c g x s' ws' mc mg mx e = after _ refl e
    where
      h : Nodes
      h = inherit_split (fix_active_child s.nodes g c (some x)) x g

      up : (y : ℕ) → (s.nodes g).parent ≡ some y → has y T ≡ true
      up y q = (parent_facts s.nodes T g v y mg q).0

      after :
          (r : Option Nodes)
          → fix_ancestors k h (s.nodes g).parent c x ≡ r
          → elim r [
            | none ↦ none
            | some h' ↦ some (replace_parent s ws c g x (s.nodes g).parent h')
          ]
            ≡ some (s', ws')
          → OnlyIn T s.nodes s'.nodes
      after none q z = cc
      after (some h') q z =
          let w : (replace_parent s ws c g x (s.nodes g).parent h').0 ≡ s' = cc in
          subst (λ (r : State). OnlyIn T s.nodes r.nodes) w
            (replace_parent-OnlyIn T s ws c g x (s.nodes g).parent h' mc mg mx up (
              OnlyIn-trans T _ _ _ (fix_active_child-OnlyIn T s.nodes g c (some x) mg) (
                OnlyIn-trans T _ _ _ (inherit_split-OnlyIn T _ x g mx) (
                  fix_ancestors-OnlyIn k h (s.nodes g).parent c x h'
                    (inherit_split-SameUp s.nodes c g x) up q))))

  in-Family : (c g x : ℕ) → has g T ≡ true → Family s.nodes c g x → has x T ≡ true
  in-Family c g x m f = elim f.side [
    | inl (a, b) ↦ has_second s.nodes T none g x v m b
    | inr (a, b) ↦ has_first s.nodes T none g x v m a
  ]

  remove_from-OnlyIn :
      (k : ℕ) (ws : Workspace) (c : ℕ) (s' : State) (ws' : Workspace)
      → has_leaf c T ≡ true
      → remove_from k s ws c (s.nodes c).parent ≡ some (s', ws')
      → OnlyIn T s.nodes s'.nodes
  unfolding remove_from
  remove_from-OnlyIn k ws c s' ws' m e = elim (Bool-cases (addr T == c)) [
    | inl q ↦ last ((==_iff (addr T) c).0 q)
    | inr ne ↦ lower (parents s.nodes T c v m ne)
  ]
    where
      here : has c T ≡ true
      here = has_leaf-has c T m

      last : addr T ≡ c → OnlyIn T s.nodes s'.nodes
      last q =
          let up : (s.nodes c).parent ≡ none =
            subst (λ a. (s.nodes a).parent ≡ none) q (Rep-parent s.nodes T none v) in
          let z : remove_from k s ws c none ≡ some (s', ws') =
            ap (remove_from k s ws c) (sym up) ∙ e in
          let w : node_free s (some c) ≡ s' = cc in
          subst (λ (r : State). OnlyIn T s.nodes r.nodes) w (node_free-OnlyIn T s c here)

      lower : Parents s.nodes T c → OnlyIn T s.nodes s'.nodes
      lower (g, x, in_g, f, q) =
          detach-OnlyIn k ws c g x s' ws' here in_g (in-Family c g x in_g f)
            (sym (ap (remove_from k s ws c) f.up ∙ rw (q, remove_from) refl) ∙ e)

-- What is left alone when the window `t` goes.
pub record Untouched (s s' : State) (T : Tree) (t : ℕ) : Type 0 where
  pub nodes : OnlyIn T s.nodes s'.nodes
  pub windows : (u : ℕ) → (u == t) ≡ false → s'.windows u ≡ s.windows u

replace_parent-windows :
    (s : State) (ws : Workspace) (c g x : ℕ) (p : Link) (h : Nodes)
    → (replace_parent s ws c g x p h).0.windows ≡ s.windows
unfolding replace_parent node_free
replace_parent-windows s ws c g x p h =
    relink-windows (record s { nodes = set_parent h x p }) ws p g (some x)

detach-windows :
    (k : ℕ) (s : State) (ws : Workspace) (c g x : ℕ) (s' : State) (ws' : Workspace)
    → detach k s ws c g x ≡ some (s', ws')
    → s'.windows ≡ s.windows
unfolding detach
detach-windows k s ws c g x s' ws' e =
    after
      (fix_ancestors k (inherit_split (fix_active_child s.nodes g c (some x)) x g)
        (s.nodes g).parent c x)
      e
  where
    after :
        (r : Option Nodes)
        → elim r [ none ↦ none | some h ↦ some (replace_parent s ws c g x (s.nodes g).parent h) ]
          ≡ some (s', ws')
        → s'.windows ≡ s.windows
    after none q = cc
    after (some h) q =
        let w : (replace_parent s ws c g x (s.nodes g).parent h).0 ≡ s' = cc in
        subst (λ (r : State). r.windows ≡ s.windows) w
          (replace_parent-windows s ws c g x (s.nodes g).parent h)

remove_from-windows :
    (k : ℕ) (s : State) (ws : Workspace) (c : ℕ) (p : Link) (s' : State) (ws' : Workspace)
    → remove_from k s ws c p ≡ some (s', ws')
    → s'.windows ≡ s.windows
unfolding remove_from node_free
remove_from-windows k s ws c none s' ws' e =
    let w : node_free s (some c) ≡ s' = cc in subst (λ (r : State). r.windows ≡ s.windows) w refl
remove_from-windows k s ws c (some g) s' ws' e = after (sibling_of s.nodes g c) e
  where
    after :
        (r : Link)
        → elim r [ none ↦ none | some x ↦ detach k s ws c g x ] ≡ some (s', ws')
        → s'.windows ≡ s.windows
    after none q = cc
    after (some x) q = detach-windows k s ws c g x s' ws' q

state_of :
    {s s' : State} {ws ws' : Workspace}
    → ◌≡◌ {A = Option (State × Workspace)} (some (s, ws)) (some (s', ws'))
    → s ≡ s'
state_of e = cc

pub remove-Untouched :
    (k : ℕ) (s : State) (ws : Workspace) (T : Tree) (t : ℕ) (free : List ℕ) (s' : State)
    (ws' : Workspace)
    → IsPool s ws T free
    → CacheFits s T t
    → depth T < k
    → remove k s ws t ≡ some (s', ws')
    → Untouched s s' T t
unfolding remove_found set_leaf
remove-Untouched k s ws T t free s' ws' v fits lt e =
    found (find_leaf-Outcome k s T t v.rep fits lt)
  where
    run : remove_found k ws t (find_leaf k s (some (addr T)) (some t)) ≡ some (s', ws')
    run = sym (remove_eq k s ws (addr T) t v.root) ∙ e

    found : Outcome s T t (find_leaf k s (some (addr T)) (some t)) → Untouched s s' T t
    found (inl (out, q)) =
        let z : some (s, ws) ≡ some (s', ws') = sym (rw (q, remove_found) refl) ∙ run in
        let w : s ≡ s' = state_of z in
        subst (λ r. Untouched s r T t) w
          (record { nodes = OnlyIn-refl T s.nodes; windows = λ u ne. refl })
    found (inr (c, s₁, q, f)) =
        let s₂ : State = record s₁ { windows = set_leaf s₁.windows t none } in
        let z : remove_from k s₂ (bump ws) c (s₁.nodes c).parent ≡ some (s', ws') =
          sym (rw (q, remove_found) refl) ∙ run in
        record {
          nodes =
              subst (λ h. OnlyIn T h s'.nodes) f.nodes
                (remove_from-OnlyIn s₂ T (rw f.nodes v.rep) k (bump ws) c s' ws' f.shown z);
          windows = λ u ne.
              ap (λ w. w u) (remove_from-windows k s₂ (bump ws) c _ s' ws' z)
              ∙ rw ne refl
              ∙ f.others u ne;
        }
