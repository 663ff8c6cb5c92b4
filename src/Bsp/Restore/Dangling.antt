-- ===== src/Bsp/Restore/Dangling.antt =====
-- bsp_restore (src/wm/bsp.c) when the pool has one node left.
use uwm.Base.{ℕ, ◌≡◌, refl, sym, subst, ap, some, [], ◌∷◌, ==_iff, if◌then◌else◌}
use uwm.Bsp.{State, Workspace, set_leaf}
use uwm.Bsp.Pool.{node_create, node_free}
use uwm.Bsp.Pool.Chain.{Chain, node_create-IsAllocated, internal_create_exhausted, node_free-Chain}
use uwm.Bsp.Edit.Inserted.{pair_eq}
use uwm.Bsp.Restore.{climb, above_split, restore_link, restore_leaf, restore_at}

-- The window points at the node that was its leaf, and that node is free.
abbrev pub Dangling : Workspace → (t n : ℕ) → State × Workspace → Type 0
Dangling ws t n (s, ws') =
    ((s.windows t).bsp_leaf ≡ some n) × Chain s.nodes s.freelist (n ∷ []) × (ws' ≡ ws)

module _ (ws : Workspace) (t a n : ℕ) (s : State) (chain : Chain s.nodes s.freelist []) where
  s₁ : State
  s₁ = record s { windows = set_leaf s.windows t (some n) }

  freed : Dangling ws t n (node_free s₁ (some n), ws)
  unfolding s₁ set_leaf node_free
  freed = (
    ap (λ c. (if c then record (s.windows t) { bsp_leaf = some n } else s.windows t).bsp_leaf)
        ((==_iff t t).1 refl),
    node_free-Chain s n [] chain refl,
    refl,
  )

  leaf-Dangling : Dangling ws t n (restore_leaf ws t a (s, some n))
  unfolding restore_leaf restore_link s₁
  leaf-Dangling = rw (internal_create_exhausted s₁ _ _ _ chain) freed

-- With one free node the second allocation of bsp_restore fails. The first node is given back, but
-- the window keeps pointing at it; the workspace is as before.
pub restore_at-Dangling :
    (s : State) (ws : Workspace) (t sibling n : ℕ)
    → Chain s.nodes s.freelist (n ∷ [])
    → Dangling ws t n (restore_at s ws t sibling)
unfolding restore_at
restore_at-Dangling s ws t sibling n chain =
    let c = node_create-IsAllocated s t n [] chain in
    let w = s.windows t in
    let a = above_split s.nodes w.bsp_saved_split (climb w.bsp_saved_depth s.nodes sibling) in
    subst (λ r. Dangling ws t n (restore_leaf ws t a r)) (sym (pair_eq (node_create s t) c.0))
      (leaf-Dangling ws t a n (node_create s t).0 c.1.chain)
