-- ===== src/Windows/Settled.antt =====
-- A window that stands on no list takes another workspace, and the focus of the one it left is handed
-- over (workspace_move_toplevel of src/wm/workspace.c).
use uwm.Base.{
  ℕ, ◌<◌, ◌≡◌, refl, sym, ap, subst, ◌∙◌, ◌⊎◌, inl, inr, Bool, true, false, ◌&&◌, Option, some,
  List, [], ◌∷◌, arith, ◌==◌, ◌=?◌, Bool-cases, ==_iff, true_ne_false, some_refl,
}
use uwm.Base.Maps.{update_ne, update_one}
use uwm.Base.Counts.{one, count}
use uwm.Bsp.Tree.{Tree}
use uwm.Bsp.Forest.{ends}
use uwm.Windows.{Frame, Space, Session, set_space, set_frame, focus_on}
use uwm.Windows.Move.{hand_over, next_window, set_workspace}
use uwm.Windows.Listed.{on_tiled, IsSession, Forest-view}
use uwm.Windows.Left.{Nowhere}

next-in_lists :
    (ts fs : List ℕ) (u : ℕ) → next_window ts fs ≡ some u → (0 < count u ts) ⊎ (0 < count u fs)
unfolding next_window
next-in_lists (t ∷ ts) fs u e =
    let z : t ≡ u = cc in inl (rw z (rw ((==_iff u u).1 refl) (omega arith)))
next-in_lists [] (f ∷ fs) u e =
    let z : f ≡ u = cc in inr (rw z (rw ((==_iff u u).1 refl) (omega arith)))
next-in_lists [] [] u e = cc

-- A window on one of a workspace's lists is mapped and of that workspace.
pub listed_facts :
    (m a : Bool) (x y n : ℕ) → n ≡ one (m && (a && x == y)) → 0 < n → (m ≡ true) × (y ≡ x)
listed_facts true true x y n e lt = (refl, sym ((==_iff x y).0 (ground arith)))
listed_facts true false x y n e lt = absurd (omega arith)
listed_facts false a x y n e lt = absurd (omega arith)

module _ (s : Session) (F : ℕ → Option Tree) (free : List ℕ) (mapped : ℕ → Bool)
    (v : IsSession s F free mapped) (t : ℕ) (m : mapped t ≡ false) (out : Nowhere s.pool F t) where
  module _ (new : ℕ) where
    abbrev old : ℕ
    old = (s.frames t).workspace

    abbrev s₁ : Session
    s₁ = set_workspace new t s

    ne_t : (u : ℕ) → mapped u ≡ true → (u == t) ≡ false
    ne_t u e = elim (Bool-cases (u == t)) [
      | inl q ↦ absurd (true_ne_false (sym e ∙ ap mapped ((==_iff u t).0 q) ∙ m))
      | inr q ↦ q
    ]

    frame_of : (u : ℕ) → (u == t) ≡ false → s₁.frames u ≡ s.frames u
    unfolding set_workspace set_frame
    frame_of u ne = update_ne s.frames t _ u ne

    -- A count that speaks of mapped windows only does not see the move.
    counted :
        (f : Frame → Bool) (x u n : ℕ)
        → n ≡ one (mapped u && (f (s.frames u) && x == (s.frames u).workspace))
        → n ≡ one (mapped u && (f (s₁.frames u) && x == (s₁.frames u).workspace))
    counted f x u n e = elim (Bool-cases (mapped u)) [
      | inl q ↦
          subst (λ fr. n ≡ one (mapped u && (f fr && x == fr.workspace)))
            (sym (frame_of u (ne_t u q))) e
      | inr q ↦
          e
          ∙ ap (λ b. one (b && (f (s.frames u) && x == (s.frames u).workspace))) q
          ∙ sym (ap (λ b. one (b && (f (s₁.frames u) && x == (s₁.frames u).workspace))) q)
    ]

    stays :
        (x u : ℕ)
        → (s.spaces x).tree.focused ≡ some u
        → (u == t) ≡ false
        → (s₁.frames u).workspace ≡ x
    stays x u e ne = ap (λ (fr : Frame). fr.workspace) (frame_of u ne) ∙ v.focused x u e

    -- Away from the workspace that the window has left.
    apart : (x u : ℕ) → (x == old) ≡ false → (s.spaces x).tree.focused ≡ some u → (u == t) ≡ false
    apart x u nx e = elim (Bool-cases (u == t)) [
      | inr q ↦ q
      | inl q ↦
          let z : old ≡ x =
            ap (λ y. (s.frames y).workspace) (sym ((==_iff u t).0 q)) ∙ v.focused x u e in
          absurd (true_ne_false (sym ((==_iff x old).1 (sym z)) ∙ nx))
    ]

    listed :
        (u : ℕ)
        → (0 < count u (s.toplevels old)) ⊎ (0 < count u (s.floating_windows old))
        → (s₁.frames u).workspace ≡ old
    listed u (inl lt) =
        let (q, e) = listed_facts _ _ old _ _ (v.tiled old u) lt in
        ap (λ (fr : Frame). fr.workspace) (frame_of u (ne_t u q)) ∙ e
    listed u (inr lt) =
        let (q, e) = listed_facts _ _ old _ _ (v.floating old u) lt in
        ap (λ (fr : Frame). fr.workspace) (frame_of u (ne_t u q)) ∙ e

    rehomed :
        (s' : Session)
        → s'.pool ≡ s.pool
        → s'.frames ≡ s₁.frames
        → s'.toplevels ≡ s.toplevels
        → s'.floating_windows ≡ s.floating_windows
        → ((x : ℕ) → (s'.spaces x).tree.root ≡ (s.spaces x).tree.root)
        → ((x u : ℕ) → (s'.spaces x).tree.focused ≡ some u → (s₁.frames u).workspace ≡ x)
        → IsSession s' F free mapped
    rehomed s' p fr tl fl roots focused = record {
      forest =
          rw (p, fr)
            (Forest-view s.pool (λ x. (s.spaces x).tree) (λ x. (s'.spaces x).tree) F free
              (λ u. (s.frames u).workspace) (λ u. (s₁.frames u).workspace) v.forest roots
              home_stays);
      focused = λ x u e. rw fr (focused x u e);
      tiled = λ x u. rw (fr, tl) (counted on_tiled x u _ (v.tiled x u));
      floating = λ x u. rw (fr, fl) (counted (λ f. f.floating) x u _ (v.floating x u));
      matches = λ x u. rw tl (v.matches x u);
    }
      where
        home_stays :
            (x a u : ℕ)
            → ends a (F x) ≡ true
            → (s.pool.nodes a).toplevel ≡ some u
            → (s₁.frames u).workspace ≡ (s.frames u).workspace
        home_stays x a u i e = elim (Bool-cases (u == t)) [
          | inl q ↦ absurd (out x a i (e ∙ ap some ((==_iff u t).0 q)))
          | inr ne ↦ ap (λ (fr : Frame). fr.workspace) (frame_of u ne)
        ]

    -- The window has its new workspace, and the old one a new focus if it had this one's.
    pub settled :
        (b : Bool)
        → b ≡ ((s.spaces old).tree.focused =? some t)
        → IsSession (hand_over b old s₁) F free mapped
    unfolding hand_over set_space focus_on set_workspace set_frame
    settled true e =
        rehomed (hand_over true old s₁) refl refl refl refl
          (update_one (λ x (a : Space). a.tree.root ≡ (s.spaces x).tree.root) s.spaces old _ refl
            (λ x ne. refl))
          (update_one
            (λ x (a : Space). (u : ℕ) → a.tree.focused ≡ some u → (s₁.frames u).workspace ≡ x)
            s.spaces old _
            (λ u q. listed u (next-in_lists (s.toplevels old) (s.floating_windows old) u q))
            (λ x ne u q. stays x u q (apart x u ne q)))
    settled false e =
        rehomed s₁ refl refl refl refl (λ x. refl) (λ x u q. stays x u q (other x u q))
      where
        other : (x u : ℕ) → (s.spaces x).tree.focused ≡ some u → (u == t) ≡ false
        other x u q = elim (Bool-cases (x == old)) [
          | inr ne ↦ apart x u ne q
          | inl xo ↦ elim (Bool-cases (u == t)) [
            | inr ne ↦ ne
            | inl ut ↦ absurd (
                clash (subst (λ y. (s.spaces y).tree.focused ≡ some u) ((==_iff x old).0 xo) q)
                  ((==_iff u t).0 ut))
          ]
        ]
          where
            clash : (s.spaces old).tree.focused ≡ some u → u ≡ t → ⊥
            clash a z =
                true_ne_false (sym (ap (λ l. l =? some t) (a ∙ ap some z) ∙ some_refl t) ∙ sym e)
