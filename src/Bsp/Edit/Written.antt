-- ===== src/Bsp/Edit/Written.antt =====
-- What bsp_insert (src/wm/bsp.c) writes besides the tree: the nodes outside it stay, no node but the
-- new leaf shows another window, and no cached leaf leads out of the tree.
use uwm.Base.{
  ℕ, ◌≡◌, refl, sym, ap, subst, ◌∙◌, ◌⊎◌, inl, inr, true, false, some, List, ◌∷◌, ◌==◌, Bool-cases,
  ==_iff,
}
use uwm.Bsp.{Node, Windows, State, Workspace, set_leaf}
use uwm.Bsp.Tree.{Tree, has, has_leaf}
use uwm.Bsp.Edit.{splice, attach, insert_beside, choose_split}
use uwm.Bsp.Edit.Inserted.{
  IsPool, s₂, created, joined, kept, allocated-Ready, insert_beside-some, insert_beside-leaf,
  relink-windows,
}
use uwm.Bsp.Edit.Spliced.{SplicedState, splice-SplicedState}

-- `n` is the new leaf, for the window `t`, and `i` the new branch.
pub record Written (s s' : State) (T : Tree) (n i t : ℕ) : Type 0 where
  pub elsewhere :
      (b : ℕ) → has b T ≡ false → (b == n) ≡ false → (b == i) ≡ false → s'.nodes b ≡ s.nodes b
  pub shows : (b u : ℕ) → (s'.nodes b).toplevel ≡ some u → (b ≡ n) ⊎ ((s.nodes b).toplevel ≡ some u)
  pub windows :
      (u : ℕ)
      → (u == t) ≡ false
      → (s'.windows u ≡ s.windows u)
        ⊎ ((a : ℕ) × ((s'.windows u).bsp_leaf ≡ some a) × (has_leaf a T ≡ true))
  pub leaf : (s'.windows t).bsp_leaf ≡ some n

splice-windows :
    (s : State) (ws : Workspace) (t c n i u : ℕ)
    → (u == t) ≡ false
    → (splice s ws t c n i).0.windows u ≡ s.windows u
unfolding splice set_leaf
splice-windows s ws t c n i u ne =
    ap (λ (w : Windows). w u)
      (relink-windows
        (record s { nodes = attach s.nodes c n i; windows = set_leaf s.windows t (some n) }) ws
        (attach s.nodes c n i i).parent c (some i))
    ∙ rw ne refl

module _ (s : State) (ws : Workspace) (T : Tree) (c n i t : ℕ) (free : List ℕ)
    (v : IsPool s ws T (n ∷ i ∷ free)) (focused : has_leaf c T ≡ true) where
  -- Both nodes taken.
  s₃ : State
  s₃ = s₂ s T free c n i t (choose_split (s.nodes c)) v.rep v.chain v.apart focused

  done :
      SplicedState s₃
        (splice s₃ ws t c n i).0
        (splice s₃ ws t c n i).1
        T
        c
        n
        i
        t
        (choose_split (s.nodes c))
  unfolding s₃
  done =
      splice-SplicedState s₃ ws T c n i t (choose_split (s.nodes c))
        (allocated-Ready s T free c n i t _ v.rep v.chain v.apart focused) v.root

  insert_beside_eq :
      insert_beside s ws t c ≡ ((splice s₃ ws t c n i).0, (splice s₃ ws t c n i).1, some n)
  unfolding s₃
  insert_beside_eq = insert_beside-some s T free c n i t _ v.rep v.chain v.apart focused ws refl

  before : (b : ℕ) → (b == n) ≡ false → (b == i) ≡ false → s₃.nodes b ≡ s.nodes b
  unfolding s₃
  before b bn bi = kept s T free c n i t _ v.rep v.chain v.apart focused b bn bi

  taken-windows : s₃.windows ≡ s.windows
  unfolding s₃
  taken-windows =
      (joined s T free c n i t _ v.rep v.chain v.apart focused).windows
      ∙ (created s T free c n i t _ v.rep v.chain v.apart focused).windows

  shown :
      (b u : ℕ)
      → ((splice s₃ ws t c n i).0.nodes b).toplevel ≡ some u
      → (b ≡ n) ⊎ ((s.nodes b).toplevel ≡ some u)
  shown b u e = elim (Bool-cases (b == n)) [
    | inl q ↦ inl ((==_iff b n).0 q)
    | inr bn ↦ elim (Bool-cases (b == i)) [
      | inl q ↦ absurd (
          branch_shows (
            subst (λ x. ((splice s₃ ws t c n i).0.nodes x).toplevel ≡ some u) ((==_iff b i).0 q) e))
      | inr bi ↦ inr (ap (λ (x : Node). x.toplevel) (sym (before b bn bi)) ∙ old b bn bi ∙ e)
    ]
  ]
    where
      branch_shows : ((splice s₃ ws t c n i).0.nodes i).toplevel ≡ some u → ⊥
      branch_shows q = cc (done.spliced.inner.toplevel)

      old :
          (b : ℕ)
          → (b == n) ≡ false
          → (b == i) ≡ false
          → (s₃.nodes b).toplevel ≡ ((splice s₃ ws t c n i).0.nodes b).toplevel
      old b bn bi = elim (Bool-cases (has b T)) [
        | inr o ↦ sym (ap (λ (x : Node). x.toplevel) (done.outside b o bn bi))
        | inl m ↦ elim (Bool-cases (b == c)) [
          | inl q ↦
              subst (λ x. (s₃.nodes x).toplevel ≡ ((splice s₃ ws t c n i).0.nodes x).toplevel)
                (sym ((==_iff b c).0 q)) (sym (ap (λ (x : Node). x.toplevel) done.spliced.old))
          | inr bc ↦ sym (ap (λ (x : Node). x.toplevel) (done.spliced.rest b m bc))
        ]
      ]

  pub insert_beside-Written : Written s (insert_beside s ws t c).0 T n i t
  insert_beside-Written = record {
    elsewhere = λ b o bn bi. rw insert_beside_eq (done.outside b o bn bi ∙ before b bn bi);
    shows = λ b u e. shown b u (rw insert_beside_eq at e);
    windows = λ u ne. inl (
        rw insert_beside_eq
          (splice-windows s₃ ws t c n i u ne ∙ ap (λ (w : Windows). w u) taken-windows));
    leaf = insert_beside-leaf s ws T c n i t free v focused;
  }
