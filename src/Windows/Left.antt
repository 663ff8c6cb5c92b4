-- ===== src/Windows/Left.antt =====
-- A window leaves the tree and the list of its workspace (workspace_move_toplevel of
-- src/wm/workspace.c).
use mathlib.Core.List.{Perm}
use uwm.Base.{
  ℕ, ◌+◌, ◌<◌, ◌≡◌, refl, sym, ap, subst, ◌∙◌, inl, inr, Bool, true, false, ◌&&◌, Option, none,
  some, List, [], ◌∷◌, ◌++◌, arith, ◌==◌, Bool-cases, ==_iff, true_ne_false, contains, is_some,
  if◌then◌else◌,
}
use uwm.Base.Maps.{update, update_same, update_self, update_ne, update_both, update_one}
use uwm.Base.Counts.{
  one, count, erase, count-erase, count-Perm, count-erase_absent, count-contains, contains-count,
}
use uwm.Bsp.{State, Workspace}
use uwm.Bsp.Tree.{Tree}
use uwm.Bsp.Remove.{remove}
use uwm.Bsp.Remove.Undo.{Rep-shows, shows-contains}
use uwm.Bsp.Forest.{IsForest, InTree, ends, shown, height}
use uwm.Bsp.Forest.Taken.{Absent, TakenFrom, remove-IsForest}
use uwm.Windows.{Space, Session, say, arrange, show_children, unlink, set_space}
use uwm.Windows.Move.{
  with_tree, remove_from_tree, exit_monocle, leave_workspace, tiled_count, arrange_on_output,
}
use uwm.Windows.Listed.{
  on_tiled, IsSession, Forest-view, Quiet, Quiet-refl, Quiet-trans, say-Quiet, set_space-Quiet,
  if_Quiet, IsSession-Quiet,
}

pub with_tree-IsForest :
    (s : Session) (w : ℕ) (p : State) (ws : Workspace) (F : ℕ → Option Tree) (free : List ℕ)
    (home : ℕ → ℕ)
    → IsForest p (update (λ x. (s.spaces x).tree) w ws) F free home
    → IsForest p (λ x. ((with_tree s w p ws).spaces x).tree) F free home
unfolding with_tree set_space
with_tree-IsForest s w p ws F free home f =
    Forest-view p _ _ F free home home f
      (update_both (λ x (a : Space) (b : Workspace). a.tree.root ≡ b.root) s.spaces
        (λ x. (s.spaces x).tree) w
        (record (s.spaces w) {
          tree = record (s.spaces w).tree { root = ws.root; tree_gen = ws.tree_gen };
        })
        ws refl (λ x ne. refl))
      (λ x a u m e. refl)

pub with_tree-focused :
    (s : Session) (w : ℕ) (p : State) (ws : Workspace) (x : ℕ)
    → ((with_tree s w p ws).spaces x).tree.focused ≡ (s.spaces x).tree.focused
unfolding with_tree set_space
with_tree-focused s w p ws =
    update_one (λ x (a : Space). a.tree.focused ≡ (s.spaces x).tree.focused) s.spaces w
      (record (s.spaces w) {
        tree = record (s.spaces w).tree { root = ws.root; tree_gen = ws.tree_gen };
      })
      refl (λ x ne. refl)

-- The window is in no tree.
abbrev pub Nowhere : State → (ℕ → Option Tree) → ℕ → Type 0
Nowhere p F t = (x a : ℕ) → ends a (F x) ≡ true → (p.nodes a).toplevel ≡ some t → ⊥

abbrev pub unmap : ℕ → (ℕ → Bool) → ℕ → Bool
unmap t mapped = update mapped t false

-- The session behind leave_workspace: the window is as if it were not mapped.
abbrev pub Left : Session → (ℕ → Option Tree) → List ℕ → (ℕ → Bool) → ℕ → Option Session → Type 0
Left s F free mapped t r =
    (s' : Session) × (O : Option Tree) × (pre : List ℕ) × (r ≡ some s')
    × IsSession s' (update F (s.frames t).workspace O) (pre ++ free) (unmap t mapped)
    × Nowhere s'.pool (update F (s.frames t).workspace O) t
    × (s'.frames ≡ s.frames)
    × ((x : ℕ) → (s'.spaces x).tree.focused ≡ (s.spaces x).tree.focused)

module _ (s : Session) (F : ℕ → Option Tree) (free : List ℕ) (mapped : ℕ → Bool)
    (v : IsSession s F free mapped) (t : ℕ) where
  abbrev w : ℕ
  w = (s.frames t).workspace

  off_tiled :
      (x u : ℕ)
      → count u (erase t (s.toplevels x))
        ≡ one (unmap t mapped u && (on_tiled (s.frames u) && x == (s.frames u).workspace))
  off_tiled x u = elim (Bool-cases (u == t)) [
    | inl e ↦
        count-erase u t (s.toplevels x)
        ∙ rw e (
            subst
              (λ y.
                0
                ≡ one (unmap t mapped y && (on_tiled (s.frames y) && x == (s.frames y).workspace)))
              (sym ((==_iff u t).0 e)) (rw (update_self mapped t false) refl))
    | inr ne ↦
        count-erase u t (s.toplevels x) ∙ rw (ne, update_ne mapped t false u ne) (v.tiled x u)
  ]

  off_floating :
      (x u : ℕ)
      → count u (erase t (s.floating_windows x))
        ≡ one (unmap t mapped u && ((s.frames u).floating && x == (s.frames u).workspace))
  off_floating x u = elim (Bool-cases (u == t)) [
    | inl e ↦
        count-erase u t (s.floating_windows x)
        ∙ rw e (
            subst
              (λ y.
                0
                ≡ one (unmap t mapped y && ((s.frames y).floating && x == (s.frames y).workspace)))
              (sym ((==_iff u t).0 e)) (rw (update_self mapped t false) refl))
    | inr ne ↦
        count-erase u t (s.floating_windows x)
        ∙ rw (ne, update_ne mapped t false u ne) (v.floating x u)
  ]

  module _ (m : mapped t ≡ true) (tiled : on_tiled (s.frames t) ≡ true) where
    here : count t (s.toplevels w) ≡ 1
    here = v.tiled w t ∙ rw (m, tiled) (rw ((==_iff w w).1 refl) refl)

    elsewhere : (x : ℕ) → (x == w) ≡ false → count t (s.toplevels x) ≡ 0
    elsewhere x ne = v.tiled x t ∙ rw (m, tiled) (rw ne refl)

    off_matches :
        (O : Option Tree)
        → Perm (shown (F w)) (t ∷ shown O)
        → (x u : ℕ) → count u (shown (update F w O x)) ≡ count u (erase t (s.toplevels x))
    off_matches O perm x u =
        update_one (λ x O. count u (shown O) ≡ count u (erase t (s.toplevels x))) F w O at_home
          (λ x ne. v.matches x u ∙ sym (count-erase_absent u t (s.toplevels x) (elsewhere x ne))) x
      where
        split : count u (shown (F w)) ≡ one (u == t) + count u (shown O)
        split = count-Perm u perm

        split_self : count t (shown (F w)) ≡ one (t == t) + count t (shown O)
        split_self = count-Perm t perm

        none_left : count t (shown O) ≡ 0
        none_left =
            let a : count t (shown (F w)) ≡ 1 = v.matches w t ∙ here in
            let b : one (t == t) ≡ 1 = ap one ((==_iff t t).1 refl) in
            omega (arith, a, b, split_self)

        at_home : count u (shown O) ≡ count u (erase t (s.toplevels w))
        at_home = elim (Bool-cases (u == t)) [
          | inl e ↦
              subst (λ y. count y (shown O) ≡ 0) (sym ((==_iff u t).0 e)) none_left
              ∙ sym (count-erase u t (s.toplevels w) ∙ rw e refl)
          | inr ne ↦
              let a : one (u == t) ≡ 0 = ap one ne in
              let b : count u (shown (F w)) ≡ count u (s.toplevels w) = v.matches w u in
              sym (count-erase u t (s.toplevels w) ∙ rw ne (omega (arith, a, b, split)))
        ]

pub arrange_on_output-Quiet : (w : ℕ) (s : Session) → Quiet s (arrange_on_output w s)
unfolding arrange_on_output
arrange_on_output-Quiet w s =
    if_Quiet s (say (arrange w ∷ []) s) s
      (is_some (s.spaces w).output && is_some (s.spaces w).tree.root) (say-Quiet _ s) (Quiet-refl s)

pub exit_monocle-Quiet : (w : ℕ) (s : Session) → Quiet s (exit_monocle w s)
unfolding exit_monocle
exit_monocle-Quiet w s =
    if_Quiet s
      (if is_some (s.spaces w).tree.root
        then say (show_children w ∷ []) (arrange_on_output w s')
        else s')
      s ((s.spaces w).monocle && tiled_count s (s.toplevels w) == 0)
      (if_Quiet s (say (show_children w ∷ []) (arrange_on_output w s')) s'
        (is_some (s.spaces w).tree.root)
        (Quiet-trans s s' _ out (
          Quiet-trans s' _ _ (arrange_on_output-Quiet w s')
            (say-Quiet (show_children w ∷ []) (arrange_on_output w s'))))
        out)
      (Quiet-refl s)
  where
    s' : Session
    s' = set_space w (record (s.spaces w) { monocle = false }) s

    out : Quiet s s'
    out = set_space-Quiet w (record (s.spaces w) { monocle = false }) s refl refl

ends-contains :
    (p : State) (ws : Workspace) (O : Option Tree) (a t : ℕ)
    → InTree p ws O
    → ends a O ≡ true
    → (p.nodes a).toplevel ≡ some t
    → contains t (shown O) ≡ true
ends-contains p ws none a t v m e = cc
ends-contains p ws (some T) a t (rep, _) m e =
    shows-contains a t T (Rep-shows p.nodes a t T none rep m e)

-- In front of exit_monocle.
module _ (s : Session) (F : ℕ → Option Tree) (free : List ℕ) (mapped : ℕ → Bool)
    (v : IsSession s F free mapped) (t : ℕ) (m : mapped t ≡ true) where
  abbrev home : ℕ
  home = (s.frames t).workspace

  taken-IsSession :
      (p : State) (ws : Workspace) (O : Option Tree) (pre : List ℕ)
      → on_tiled (s.frames t) ≡ true
      → IsForest p
          (update (λ x. (s.spaces x).tree) home ws)
          (update F home O)
          (pre ++ free)
          (λ u. (s.frames u).workspace)
      → Perm (shown (F home)) (t ∷ shown O)
      → IsSession
          (unlink t (with_tree s home p ws))
          (update F home O)
          (pre ++ free)
          (unmap t mapped)
  unfolding unlink with_tree set_space
  taken-IsSession p ws O pre tiled f perm = record {
    forest = with_tree-IsForest s home p ws (update F home O) (pre ++ free) _ f;
    focused = λ x u e. v.focused x u (sym (with_tree-focused s home p ws x) ∙ e);
    tiled = off_tiled s F free mapped v t;
    floating = off_floating s F free mapped v t;
    matches = off_matches s F free mapped v t m tiled O perm;
  }

  taken-Nowhere :
      (p : State) (ws : ℕ → Workspace) (O : Option Tree) (free' : List ℕ)
      → IsForest p ws (update F home O) free' (λ u. (s.frames u).workspace)
      → Absent p O t
      → Nowhere p (update F home O) t
  taken-Nowhere p ws O free' f absent x a i e =
      update_one (λ x O. home ≡ x → ends a O ≡ true → ⊥) F home O (λ q i. absent a i e)
        (λ x ne q i. true_ne_false (sym ((==_iff x home).1 (sym q)) ∙ ne)) x (f.homes x a t i e) i

  leave_tiled :
      (k : ℕ)
      → on_tiled (s.frames t) ≡ true
      → (s.frames t).floating ≡ false
      → height (F home) < k
      → Left s F free mapped t (leave_workspace k home t s)
  unfolding leave_workspace remove_from_tree unlink with_tree set_space
  leave_tiled k tiled fl lt =
      taken (remove-IsForest k s.pool (λ x. (s.spaces x).tree) F free _ t v.forest lt)
    where
      taken :
          TakenFrom s.pool
            (λ x. (s.spaces x).tree)
            F
            free
            (λ u. (s.frames u).workspace)
            home
            t
            (remove k s.pool (s.spaces home).tree t)
          → Left s F free mapped t (leave_workspace k home t s)
      taken (p, ws, O, pre, e, f, absent, inl (out, _)) = absurd (clash out)
        where
          clash : contains t (shown (F home)) ≡ false → ⊥
          clash out =
              let a = count-contains t (shown (F home)) out in
              let b = v.matches home t ∙ here s F free mapped v t m tiled in omega (arith, a, b)
      taken (p, ws, O, pre, e, f, absent, inr perm) =
          let s₁ : Session = unlink t (with_tree s home p ws) in
          let q = exit_monocle-Quiet home s₁ in
          (
            exit_monocle home s₁,
            O,
            pre,
            rw (fl, leave_workspace) (rw (e, remove_from_tree) refl),
            IsSession-Quiet s₁ (exit_monocle home s₁) (update F home O) (pre ++ free)
                (unmap t mapped) q (taken-IsSession p ws O pre tiled f perm),
            rw q.pool (taken-Nowhere p _ O (pre ++ free) f absent),
            q.frames,
            λ x. q.focused x ∙ with_tree-focused s home p ws x,
          )

  -- A window that is not on a tiled list is in no tree.
  pub unlisted-Nowhere : ((x : ℕ) → count t (s.toplevels x) ≡ 0) → Nowhere s.pool F t
  unlisted-Nowhere out x a i e = true_ne_false (
      sym (ends-contains s.pool (s.spaces x).tree (F x) a t (v.forest.tree x) i e)
      ∙ contains-count t (shown (F x)) (v.matches x t ∙ out x))

  pub not_tiled : on_tiled (s.frames t) ≡ false → (x : ℕ) → count t (s.toplevels x) ≡ 0
  not_tiled off x = v.tiled x t ∙ rw (m, off) refl

  -- A window that is not on a tiled list leaves its list.
  pub unlink-IsSession :
      on_tiled (s.frames t) ≡ false → IsSession (unlink t s) F free (unmap t mapped)
  unfolding unlink
  unlink-IsSession off = record {
    forest = v.forest;
    focused = v.focused;
    tiled = off_tiled s F free mapped v t;
    floating = off_floating s F free mapped v t;
    matches = λ x u. v.matches x u ∙ sym (count-erase_absent u t (s.toplevels x) (not_tiled off x));
  }

  leave_floating :
      (k : ℕ) → (s.frames t).floating ≡ true → Left s F free mapped t (leave_workspace k home t s)
  unfolding leave_workspace unlink
  leave_floating k fl = (
    unlink t s,
    F home,
    [],
    rw (fl, leave_workspace) refl,
    subst (λ F'. IsSession (unlink t s) F' free (unmap t mapped)) (sym (update_same F home))
        (unlink-IsSession (rw fl refl)),
    subst (λ F'. Nowhere s.pool F' t) (sym (update_same F home))
        (unlisted-Nowhere (not_tiled (rw fl refl))),
    refl,
    λ x. refl,
  )

  -- A window that is not fullscreen leaves its workspace.
  pub leave_workspace-Left :
      (k : ℕ)
      → (s.frames t).fullscreen ≡ false
      → height (F home) < k
      → Left s F free mapped t (leave_workspace k home t s)
  leave_workspace-Left k fs lt = elim (Bool-cases (s.frames t).floating) [
    | inl e ↦ leave_floating k e
    | inr e ↦ leave_tiled k (rw (e, fs) refl) e lt
  ]
