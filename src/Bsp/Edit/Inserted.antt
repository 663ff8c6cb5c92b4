-- ===== src/Bsp/Edit/Inserted.antt =====
-- bsp_insert (src/wm/bsp.c) with the focused leaf known: the tree it leaves, and what happens when
-- the pool is exhausted.
use uwm.Base.{
  ℕ, ◌≡◌, refl, ap, ◌∙◌, ◌⊎◌, inl, inr, true, false, none, some, List, [], ◌∷◌, arith, ◌==◌, ◌=?◌,
  Link, Bool-cases, ==_iff, contains,
}
use uwm.Bsp.{Node, Windows, set_leaf, Split, State, Workspace}
use uwm.Bsp.Pool.{node_create, internal_create, node_free, fresh_node}
use uwm.Bsp.Pool.Chain.{
  Chain, Chain-frame, IsAllocated, node_create-IsAllocated, internal_create-IsAllocated,
  node_free-Chain, node_free_others, node_create_exhausted, internal_create_exhausted,
  ne_of_contains,
}
use uwm.Bsp.Tree.{Tree, addr, has, has_leaf, Rep}
use uwm.Bsp.Tree.Frame.{Rep-frame}
use uwm.Bsp.Tree.Graft.{beside, Rep-beside, has-beside}
use uwm.Bsp.Edit.{splice, attach, relink, insert_join, insert_beside, choose_split}
use uwm.Bsp.Edit.Splice.{Ready}
use uwm.Bsp.Edit.Spliced.{SplicedState, splice-SplicedState}

-- The workspace shows the tree `T`, and the pool's free nodes are `free`, none of them in the tree.
pub record IsPool (s : State) (ws : Workspace) (T : Tree) (free : List ℕ) : Type 0 where
  pub rep : Rep s.nodes none T
  pub root : ws.root ≡ some (addr T)
  pub chain : Chain s.nodes s.freelist free
  pub apart : (b : ℕ) → contains b free ≡ true → has b T ≡ false

pub pair_eq : (r : State × Link) {l : Link} → r.1 ≡ l → r ≡ (r.0, l)
pair_eq r e = λ i. (r.0, e i)

-- The state when both nodes have been taken.
module _ (s : State) (T : Tree) (free : List ℕ) (c n i t : ℕ) (sp : Split)
    (rep : Rep s.nodes none T) (chain : Chain s.nodes s.freelist (n ∷ i ∷ free))
    (apart : (b : ℕ) → contains b (n ∷ i ∷ free) ≡ true → has b T ≡ false)
    (focused : has_leaf c T ≡ true) where
  pub s₁ : State
  s₁ = (node_create s t).0

  pub s₂ : State
  s₂ = (internal_create s₁ sp (some c) (some n)).0

  pub created :
      IsAllocated s s₁ n (record (fresh_node (s.nodes n)) { toplevel = some t }) (i ∷ free)
  unfolding s₁
  created = (node_create-IsAllocated s t n (i ∷ free) chain).1

  pub joined :
      IsAllocated s₁ s₂ i
        (record (fresh_node (s₁.nodes i)) { split = sp; first = some c; second = some n })
        free
  unfolding s₂
  joined = (internal_create-IsAllocated s₁ sp (some c) (some n) i free created.chain).1

  ni : (n == i) ≡ false
  ni = ground arith

  -- A node of the tree is none of the free ones.
  away : (b a : ℕ) → has b T ≡ true → contains a (n ∷ i ∷ free) ≡ true → (b == a) ≡ false
  away b a m out = elim (Bool-cases (b == a)) [
    | inl e ↦ absurd (clash ((==_iff b a).0 e))
    | inr e ↦ e
  ]
    where
      clash : b ≡ a → ⊥
      clash e = let z : has a T ≡ true = rw (← e) m in cc (apart a out)

  pub kept : (b : ℕ) → (b == n) ≡ false → (b == i) ≡ false → s₂.nodes b ≡ s.nodes b
  kept b bn bi = joined.others b bi ∙ created.others b bn

  n_free : contains n (n ∷ i ∷ free) ≡ true
  n_free = ground arith

  i_free : contains i (n ∷ i ∷ free) ≡ true
  i_free = ground arith

  pub allocated-Ready : Ready s₂.nodes T c n i t sp
  unfolding fresh_node
  allocated-Ready = record {
    rep =
        Rep-frame s.nodes s₂.nodes T none rep
          (λ b m. kept b (away b n m n_free) (away b i m i_free));
    focused = focused;
    no_new = apart n n_free;
    no_inner = apart i i_free;
    apart = ground arith;
    inner = ground (arith, joined.node);
    new = ground (arith, created.node, joined.others n ni);
  }

  -- The branches of insert_beside when both allocations succeed.
  pub insert_beside-some :
      (ws : Workspace)
      → sp ≡ choose_split (s.nodes c)
      → insert_beside s ws t c ≡ ((splice s₂ ws t c n i).0, (splice s₂ ws t c n i).1, some n)
  unfolding insert_beside s₁ s₂
  insert_beside-some ws e =
      rw (← e, pair_eq (node_create s t) (node_create-IsAllocated s t n (i ∷ free) chain).0)
        (ap (insert_join ws t c n) (
          pair_eq (internal_create s₁ sp (some c) (some n))
            (internal_create-IsAllocated s₁ sp (some c) (some n) i free created.chain).0))

  n_apart : (b : ℕ) → contains b free ≡ true → (b == n) ≡ false
  n_apart b m = ne_of_contains n b (i ∷ free) chain.1 (ground arith)

  i_apart : (b : ℕ) → contains b free ≡ true → (b == i) ≡ false
  i_apart b m = ne_of_contains i b free created.chain.1 m

  free_apart : (b : ℕ) → contains b free ≡ true → has b T ≡ false
  free_apart b m = apart b (ground arith)

  apart_beside : (b : ℕ) → contains b free ≡ true → has b (beside c sp i n t T) ≡ false
  apart_beside b m = elim (Bool-cases (has b (beside c sp i n t T))) [
    | inr out ↦ out
    | inl e ↦ absurd (clash (has-beside c sp i n t b T e))
  ]
    where
      clash : (has b T ≡ true) ⊎ ((has c T ≡ true) × ((b ≡ i) ⊎ (b ≡ n))) → ⊥
      clash (inl x) = cc (free_apart b m)
      clash (inr (_, inl e)) = cc (i_apart b m, (==_iff b i).1 e)
      clash (inr (_, inr e)) = cc (n_apart b m, (==_iff b n).1 e)

  beside-IsPool :
      (ws : Workspace)
      → ws.root ≡ some (addr T)
      → IsPool (splice s₂ ws t c n i).0 (splice s₂ ws t c n i).1 (beside c sp i n t T) free
  beside-IsPool ws root = record {
    rep = Rep-beside c sp i n t s₂.nodes _ T none allocated-Ready.rep done.spliced;
    root = done.root;
    chain =
        Chain-frame s₂.nodes (splice s₂ ws t c n i).0.nodes _ _ free joined.chain done.freelist
          λ b m.
            ap (λ (nd : Node). nd.first)
              (done.outside b (free_apart b m) (n_apart b m) (i_apart b m));
    apart = apart_beside;
  }
    where
      done : SplicedState s₂ (splice s₂ ws t c n i).0 (splice s₂ ws t c n i).1 T c n i t sp
      done = splice-SplicedState s₂ ws T c n i t sp allocated-Ready root

-- With two free nodes, bsp_insert beside the leaf `c` leaves the tree in which that leaf has given
-- way to a branch over it and the new window's leaf, split along the longer side of the leaf; the
-- two nodes have left the free list, and the new leaf is returned.
pub insert_beside-IsPool :
    (s : State) (ws : Workspace) (T : Tree) (c n i t : ℕ) (free : List ℕ)
    → IsPool s ws T (n ∷ i ∷ free)
    → has_leaf c T ≡ true
    → let r = insert_beside s ws t c in
      IsPool r.0 r.1 (beside c (choose_split (s.nodes c)) i n t T) free × (r.2 ≡ some n)
insert_beside-IsPool s ws T c n i t free v focused =
    rw (insert_beside-some s T free c n i t _ v.rep v.chain v.apart focused ws refl)
      (beside-IsPool s T free c n i t _ v.rep v.chain v.apart focused ws v.root, refl)

pub relink-windows :
    (s : State) (ws : Workspace) (p : Link) (old : ℕ) (new : Link)
    → (relink s ws p old new).0.windows ≡ s.windows
unfolding relink
relink-windows s ws none old new = refl
relink-windows s ws (some g) old new = elim (Bool-cases ((s.nodes g).first =? some old)) [
  | inl e ↦ rw e refl
  | inr e ↦ rw e refl
]

splice-leaf :
    (s : State) (ws : Workspace) (t c n i : ℕ)
    → ((splice s ws t c n i).0.windows t).bsp_leaf ≡ some n
unfolding splice set_leaf
splice-leaf s ws t c n i =
    ap (λ (w : Windows). (w t).bsp_leaf)
      (relink-windows
        (record s { nodes = attach s.nodes c n i; windows = set_leaf s.windows t (some n) }) ws
        (attach s.nodes c n i i).parent c (some i))
    ∙ rw ((==_iff t t).1 refl) refl

-- The new window's cached leaf is the new leaf.
pub insert_beside-leaf :
    (s : State) (ws : Workspace) (T : Tree) (c n i t : ℕ) (free : List ℕ)
    → IsPool s ws T (n ∷ i ∷ free)
    → has_leaf c T ≡ true
    → ((insert_beside s ws t c).0.windows t).bsp_leaf ≡ some n
insert_beside-leaf s ws T c n i t free v focused =
    rw (insert_beside-some s T free c n i t _ v.rep v.chain v.apart focused ws refl)
      (splice-leaf (s₂ s T free c n i t _ v.rep v.chain v.apart focused) ws t c n i)

-- With no free node bsp_insert beside a leaf answers NULL and changes nothing.
pub insert_beside_exhausted :
    (s : State) (ws : Workspace) (c t : ℕ)
    → s.freelist ≡ none
    → insert_beside s ws t c ≡ (s, ws, none)
unfolding insert_beside
insert_beside_exhausted s ws c t e = rw (node_create_exhausted s t e) refl

-- With one free node the second allocation fails: bsp_insert gives the first back, answers NULL,
-- and the workspace, its tree and the free list are as before.
pub insert_beside_one_left :
    (s : State) (ws : Workspace) (T : Tree) (c n t : ℕ)
    → IsPool s ws T (n ∷ [])
    → has_leaf c T ≡ true
    → let r = insert_beside s ws t c in IsPool r.0 r.1 T (n ∷ []) × (r.1 ≡ ws) × (r.2 ≡ none)
unfolding insert_beside
insert_beside_one_left s ws T c n t v focused =
    rw (pair_eq (node_create s t) (node_create-IsAllocated s t n [] v.chain).0) (
      rw (internal_create_exhausted s₁ _ (some c) (some n) created.chain) (
        record {
          rep = Rep-frame s.nodes (node_free s₁ (some n)).nodes T none v.rep same;
          root = v.root;
          chain = node_free-Chain s₁ n [] created.chain refl;
          apart = v.apart;
        },
        refl,
        refl,
      ))
  where
    s₁ : State
    s₁ = (node_create s t).0

    created : IsAllocated s s₁ n (record (fresh_node (s.nodes n)) { toplevel = some t }) []
    created = (node_create-IsAllocated s t n [] v.chain).1

    off : (b : ℕ) → has b T ≡ true → (b == n) ≡ false
    off b m = elim (Bool-cases (b == n)) [ inl e ↦ cc (v.apart b (rw e), m) | inr e ↦ e ]

    same : (b : ℕ) → has b T ≡ true → (node_free s₁ (some n)).nodes b ≡ s.nodes b
    same b m = node_free_others s₁ n b (off b m) ∙ created.others b (off b m)
