-- ===== src/Bsp/Edit/Spliced.antt =====
-- The state that bsp_insert (src/wm/bsp.c) leaves when both its nodes have been taken.
use uwm.Base.{
  ℕ, ◌≡◌, refl, sym, ap, ◌∙◌, inl, inr, false, none, some, ◌==◌, ◌=?◌, Bool-cases, Option-cases,
  ==_iff, if◌then◌else◌,
}
use uwm.Bsp.{Node, Nodes, Split, State, Workspace, set_leaf}
use uwm.Bsp.Tree.{Tree, addr, has}
use uwm.Bsp.Tree.Graft.{Spliced, beside, addr-beside}
use uwm.Bsp.Edit.{attach, relink, splice, bump}
use uwm.Bsp.Edit.Splice.{
  leaf_ends, relinked, Ready, attached, Spliced-root, Spliced-child, outside_child, outside_root,
  root_moves, root_stays,
}

pub relink_child :
    (s : State) (ws : Workspace) (g c i : ℕ)
    → relink s ws (some g) c (some i) ≡ (record s { nodes = relinked s.nodes g c i }, ws)
unfolding relink relinked
relink_child s ws g c i = elim (Bool-cases ((s.nodes g).first =? some c)) [
  | inl e ↦ rw e
  | inr e ↦ rw e
]

if_eq : (i : ℕ) {c a : ℕ} → c ≡ a → (if a == c then i else a) ≡ i
if_eq i {c} {a} e = rw ((==_iff a c).1 (sym e))

with_leaf : State → (t n : ℕ) → Nodes → State
with_leaf s t n h = record s { nodes = h; windows = set_leaf s.windows t (some n) }

module _ (s : State) (ws : Workspace) (t c n i : ℕ) where
  splice_root :
      (attach s.nodes c n i i).parent ≡ none
      → splice s ws t c n i
        ≡ (with_leaf s t n (attach s.nodes c n i), bump (record ws { root = some i }))
  unfolding splice with_leaf relink
  splice_root e = rw (e, relink)

  splice_child :
      (g : ℕ)
      → (attach s.nodes c n i i).parent ≡ some g
      → splice s ws t c n i ≡ (with_leaf s t n (relinked (attach s.nodes c n i) g c i), bump ws)
  unfolding splice with_leaf
  splice_child g e = rw (e, relink_child _ ws g c i)

-- What splice leaves: the nodes of the larger tree, the root pointer at its root, the free list
-- and the nodes elsewhere as they were.
pub record SplicedState (s s' : State) (ws' : Workspace) (T : Tree) (c n i t : ℕ) (sp : Split)
    : Type 0 where
  pub spliced : Spliced c sp i n t s.nodes s'.nodes T
  pub root : ws'.root ≡ some (addr (beside c sp i n t T))
  pub freelist : s'.freelist ≡ s.freelist
  pub outside :
      (b : ℕ) → has b T ≡ false → (b == n) ≡ false → (b == i) ≡ false → s'.nodes b ≡ s.nodes b

pub splice-SplicedState :
    (s : State) (ws : Workspace) (T : Tree) (c n i t : ℕ) (sp : Split)
    → Ready s.nodes T c n i t sp
    → ws.root ≡ some (addr T)
    → SplicedState s (splice s ws t c n i).0 (splice s ws t c n i).1 T c n i t sp
unfolding with_leaf bump
splice-SplicedState s ws T c n i t sp r root = elim (Option-cases (s.nodes c).parent) [
  | inl up ↦ rw (splice_root s ws t c n i (inner_parent ∙ up)) (record {
    spliced = Spliced-root s.nodes T c n i t sp r up;
    root = ap some (
        sym (
          addr-beside c sp i n t s.nodes s.nodes T none r.rep childless
          ∙ if_true (root_moves s.nodes T c n i t sp r up)));
    freelist = refl;
    outside = outside_root s.nodes T c n i t sp r;
  })
  | inr (g, up) ↦ rw (splice_child s ws t c n i g (inner_parent ∙ up)) (record {
    spliced = Spliced-child s.nodes T c n i t sp r g up;
    root =
        root
        ∙ ap some (
            sym (
              addr-beside c sp i n t s.nodes s.nodes T none r.rep childless
              ∙ if_false (root_stays s.nodes T c n i t sp r g up)));
    freelist = refl;
    outside = outside_child s.nodes T c n i t sp r g up;
  })
]
  where
    inner_parent : (attach s.nodes c n i i).parent ≡ (s.nodes c).parent
    inner_parent = ap (λ (nd : Node). nd.parent) (attached s.nodes T c n i t sp r).inner

    childless : (s.nodes c).first ≡ none
    childless = (leaf_ends s.nodes T none c r.rep r.focused).0

    if_true : c ≡ addr T → (if addr T == c then i else addr T) ≡ i
    if_true e = if_eq i e

    if_false : (addr T == c) ≡ false → (if addr T == c then i else addr T) ≡ addr T
    if_false e = rw e
