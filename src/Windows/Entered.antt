-- ===== src/Windows/Entered.antt =====
-- A window enters the list and the tree of its workspace (workspace_move_toplevel of
-- src/wm/workspace.c).
use mathlib.Core.List.{Perm}
use uwm.Base.{
  ℕ, ◌+◌, ◌*◌, ◌≤◌, ◌<◌, ◌≡◌, length, refl, sym, ap, subst, ◌∙◌, inl, inr, Bool, true, false, ◌&&◌,
  Option, none, some, List, ◌∷◌, arith, ◌==◌, Bool-cases, ==_iff, true_ne_false,
}
use uwm.Base.Maps.{update, update_self, update_ne, update_same, update_both, update_one}
use uwm.Base.Counts.{one, count, count-Perm, length-Perm}
use uwm.Bsp.{State, Workspace}
use uwm.Bsp.Tree.{Tree}
use uwm.Bsp.Edit.{insert}
use uwm.Bsp.Forest.{IsForest, shown, height}
use uwm.Bsp.Forest.Leaves.{depth-windows}
use uwm.Bsp.Forest.Put.{PutInto, insert-IsForest}
use uwm.Windows.{Frame, Session, link_tiled, link_floating, set_space}
use uwm.Windows.Move.{with_tree, insert_into_tree, enter_workspace}
use uwm.Windows.Listed.{on_tiled, IsSession}
use uwm.Windows.Left.{Nowhere, with_tree-IsForest, with_tree-focused}

abbrev pub remap : ℕ → (ℕ → Bool) → ℕ → Bool
remap t mapped = update mapped t true

-- The session behind enter_workspace: the window is mapped.
abbrev pub Entered : Session → (ℕ → Option Tree) → (ℕ → Bool) → (t w : ℕ) → Option Session → Type 0
Entered s F mapped t w r =
    (s' : Session) × (O : Option Tree) × (free : List ℕ) × (r ≡ some s')
    × IsSession s' (update F w O) free (remap t mapped)
    × (s'.frames ≡ s.frames)
    × ((x : ℕ) → (s'.spaces x).tree.focused ≡ (s.spaces x).tree.focused)
    × (height O ≤ 3 + height (F w))

height-shown :
    (O : Option Tree) → (height O ≤ 2 * length (shown O)) × (2 * length (shown O) ≤ 1 + height O)
height-shown none = (omega arith, omega arith)
height-shown (some T) = (omega (arith, depth-windows T), omega (arith, depth-windows T))

-- One window more.
height-grown :
    (O O' : Option Tree) (t : ℕ) → Perm (shown O') (t ∷ shown O) → height O' ≤ 3 + height O
height-grown O O' t perm = omega (arith, height-shown O, height-shown O', length-Perm perm)

module _ (s : Session) (F : ℕ → Option Tree) (free : List ℕ) (mapped : ℕ → Bool)
    (v : IsSession s F free mapped) (t : ℕ) (m : mapped t ≡ false) (out : Nowhere s.pool F t) where
  abbrev w : ℕ
  w = (s.frames t).workspace

  -- A list that gets the window in front, or stays, counts it as it should.
  put_on :
      (f : Frame → Bool) (lists : ℕ → List ℕ)
      → f (s.frames t) ≡ true
      → ((x u : ℕ)
          → count u (lists x) ≡ one (mapped u && (f (s.frames u) && x == (s.frames u).workspace)))
      → (x u : ℕ)
      → count u (update lists w (t ∷ lists w) x)
        ≡ one (remap t mapped u && (f (s.frames u) && x == (s.frames u).workspace))
  put_on f lists ft counts x u = put_count x u ∙ elim (Bool-cases (u == t)) [
    | inr ne ↦
        nothing (u == t) (x == w) (count u (lists x)) ne
        ∙ counts x u
        ∙ rw (update_ne mapped t true u ne) refl
    | inl e ↦
        subst
          (λ y.
            one (y == t && x == w) + count y (lists x)
            ≡ one (remap t mapped y && (f (s.frames y) && x == (s.frames y).workspace)))
          (sym ((==_iff u t).0 e)) at_t
  ]
    where
      nothing : (b c : Bool) (n : ℕ) → b ≡ false → one (b && c) + n ≡ n
      nothing true c n e = absurd (true_ne_false e)
      nothing false c n e = omega arith

      put_count :
          (x u : ℕ)
          → count u (update lists w (t ∷ lists w) x) ≡ one (u == t && x == w) + count u (lists x)
      put_count x u =
          update_one (λ x L. count u L ≡ one (u == t && x == w) + count u (lists x)) lists w
            (t ∷ lists w) (ap (λ n. n + count u (lists w)) (here (u == t)))
            (λ x ne. omega (arith, there (u == t) (x == w) ne)) x
        where
          here : (b : Bool) → one b ≡ one (b && w == w)
          here true = sym (ap one ((==_iff w w).1 refl))
          here false = refl

          there : (b c : Bool) → c ≡ false → one (b && c) ≡ 0
          there b true e = absurd (true_ne_false e)
          there true false e = refl
          there false false e = refl

      at_t :
          one (t == t && x == w) + count t (lists x)
          ≡ one (remap t mapped t && (f (s.frames t) && x == w))
      at_t =
          let z : count t (lists x) ≡ 0 = counts x t ∙ rw m refl in
          ap (λ b. one (b && x == w) + count t (lists x)) ((==_iff t t).1 refl)
          ∙ ap (λ n. one (x == w) + n) z
          ∙ sym (rw (update_self mapped t true, ft) (omega arith))

  left_off :
      (f : Frame → Bool) (lists : ℕ → List ℕ)
      → f (s.frames t) ≡ false
      → ((x u : ℕ)
          → count u (lists x) ≡ one (mapped u && (f (s.frames u) && x == (s.frames u).workspace)))
      → (x u : ℕ)
      → count u (lists x)
        ≡ one (remap t mapped u && (f (s.frames u) && x == (s.frames u).workspace))
  left_off f lists ft counts x u = elim (Bool-cases (u == t)) [
    | inr ne ↦ counts x u ∙ rw (update_ne mapped t true u ne) refl
    | inl e ↦
        subst
          (λ y.
            count y (lists x)
            ≡ one (remap t mapped y && (f (s.frames y) && x == (s.frames y).workspace)))
          (sym ((==_iff u t).0 e)) (counts x t ∙ rw (m, ft, update_self mapped t true) refl)
  ]

  -- A floating window enters the list of its workspace.
  pub link_floating-IsSession :
      (s.frames t).floating ≡ true → IsSession (link_floating w t s) F free (remap t mapped)
  unfolding link_floating
  link_floating-IsSession fl = record {
    forest = v.forest;
    focused = v.focused;
    tiled = left_off on_tiled s.toplevels (rw fl refl) v.tiled;
    floating = put_on (λ fr. fr.floating) s.floating_windows fl v.floating;
    matches = v.matches;
  }

  enter_floating :
      (k : ℕ) → (s.frames t).floating ≡ true → Entered s F mapped t w (enter_workspace k w t s)
  unfolding enter_workspace link_floating
  enter_floating k fl = (
    link_floating w t s,
    F w,
    free,
    rw (fl, enter_workspace) refl,
    subst (λ F'. IsSession (link_floating w t s) F' free (remap t mapped)) (sym (update_same F w))
        (link_floating-IsSession fl),
    refl,
    λ x. refl,
    omega arith,
  )

  inserted-IsSession :
      (p : State) (ws : Workspace) (O : Option Tree) (free' : List ℕ)
      → (s.frames t).floating ≡ false
      → on_tiled (s.frames t) ≡ true
      → IsForest p
          (update (λ x. (s.spaces x).tree) w ws)
          (update F w O)
          free'
          (λ u. (s.frames u).workspace)
      → Perm (shown O) (t ∷ shown (F w))
      → IsSession (with_tree (link_tiled w t s) w p ws) (update F w O) free' (remap t mapped)
  unfolding with_tree link_tiled set_space
  inserted-IsSession p ws O free' fl tiled f perm = record {
    forest = with_tree-IsForest s w p ws (update F w O) free' _ f;
    focused = λ x u e. v.focused x u (sym (with_tree-focused s w p ws x) ∙ e);
    tiled = put_on on_tiled s.toplevels tiled v.tiled;
    floating = left_off (λ fr. fr.floating) s.floating_windows fl v.floating;
    matches = λ x u.
        update_both (λ x O L. count u (shown O) ≡ count u L) F s.toplevels w O (t ∷ s.toplevels w)
          (count-Perm u perm ∙ ap (λ n. one (u == t) + n) (v.matches w u)) (λ x ne. v.matches x u)
          x;
  }

module _ (s : Session) (F : ℕ → Option Tree) (n i : ℕ) (free : List ℕ) (mapped : ℕ → Bool)
    (v : IsSession s F (n ∷ i ∷ free) mapped) (t : ℕ) (m : mapped t ≡ false)
    (out : Nowhere s.pool F t) where
  enter_tiled :
      (k : ℕ)
      → (s.frames t).floating ≡ false
      → on_tiled (s.frames t) ≡ true
      → height (F (s.frames t).workspace) < k
      → Entered s F mapped t (s.frames t).workspace (enter_workspace k (s.frames t).workspace t s)
  unfolding enter_workspace insert_into_tree link_tiled with_tree set_space
  enter_tiled k fl tiled lt = entered (
      insert-IsForest k s.pool (λ x. (s.spaces x).tree) F free (λ u. (s.frames u).workspace) n i t
        v.forest (out (s.frames t).workspace) (λ u e. v.focused (s.frames t).workspace u e) lt)
    where
      entered :
          PutInto s.pool
            (λ x. (s.spaces x).tree)
            F
            (λ u. (s.frames u).workspace)
            (s.frames t).workspace
            t
            (insert k s.pool (s.spaces (s.frames t).workspace).tree t)
          → Entered s F mapped t
              (s.frames t).workspace
              (enter_workspace k (s.frames t).workspace t s)
      entered (p, ws, O, free', c, e, f, _, _, perm) = (
        with_tree (link_tiled (s.frames t).workspace t s) (s.frames t).workspace p ws,
        O,
        free',
        rw (fl, enter_workspace) (rw (e, insert_into_tree) refl),
        inserted-IsSession s F (n ∷ i ∷ free) mapped v t m out p ws O free' fl tiled f perm,
        refl,
        with_tree-focused s (s.frames t).workspace p ws,
        height-grown (F (s.frames t).workspace) O t perm,
      )

  -- A window that is not fullscreen enters its workspace.
  pub enter_workspace-Entered :
      (k : ℕ)
      → (s.frames t).fullscreen ≡ false
      → height (F (s.frames t).workspace) < k
      → Entered s F mapped t (s.frames t).workspace (enter_workspace k (s.frames t).workspace t s)
  enter_workspace-Entered k fs lt = elim (Bool-cases (s.frames t).floating) [
    | inl e ↦ enter_floating s F (n ∷ i ∷ free) mapped v t m out k e
    | inr e ↦ enter_tiled k e (rw (e, fs) refl) lt
  ]
