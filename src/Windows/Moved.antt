-- ===== src/Windows/Moved.antt =====
-- workspace_move_toplevel (src/wm/workspace.c) behind its guards, for a window that is not
-- fullscreen.
pub mod Toplevel
use mathlib.Core.Option
use uwm.Base.{
  ℕ, ◌+◌, ◌≤◌, ◌<◌, ◌≡◌, refl, sym, ap, subst, ◌∙◌, ◌⊎◌, inl, inr, Bool, true, false, Option, some,
  List, [], ◌∷◌, ◌++◌, arith, Link, ◌==◌, leb, ◌=?◌, Bool-cases, ==_iff, ne_sym, leb→le,
  true_ne_false, is_some, if◌then◌else◌, if_true, if_false, ◌||◌,
}
use uwm.Base.Maps.{update, update_self, update_ne, update_one, update_twice}
use uwm.Bsp.Tree.{Tree}
use uwm.Bsp.Forest.{height}
use uwm.Outputs.{workspace_count}
use uwm.Windows.{Frame, Space, Session, enable, borders, say, set_space, set_frame, focus_on}
use uwm.Windows.Focus.{focus_toplevel}
use uwm.Windows.Move.{
  forget_last, leave_workspace, set_workspace, hand_over, enter_workspace, show_moved, arrange_both,
  arrange_on_output, move_between, workspace_move_toplevel,
}
use uwm.Windows.Listed.{
  IsSession, IsSession-spaces, Quiet, Quiet-trans, say-Quiet, set_space-Quiet, IsSession-Quiet,
}
use uwm.Windows.Left.{unmap, Nowhere, Left, leave_workspace-Left, arrange_on_output-Quiet}
use uwm.Windows.Settled.{settled}
use uwm.Windows.Entered.{remap, Entered, enter_workspace-Entered}
use uwm.Windows.Focused.{IsSession-mapped, remap-unmap, Focused, focus_toplevel-IsSession}

forget_last-Quiet : (w t : ℕ) (s : Session) → Quiet s (forget_last w t s)
unfolding forget_last
forget_last-Quiet w t s = set_space-Quiet w _ s refl refl

arrange_both-Quiet : (old new : ℕ) (s : Session) → Quiet s (arrange_both old new s)
unfolding arrange_both
arrange_both-Quiet old new s = Quiet-trans s _ _ (arrange_on_output-Quiet old s) (
    Quiet-trans _ _ _ (arrange_on_output-Quiet new (arrange_on_output old s)) (
      say-Quiet (borders old ∷ borders new ∷ []) (arrange_on_output new (arrange_on_output old s))))

hand_over-frames : (b : Bool) (w : ℕ) (s : Session) → (hand_over b w s).frames ≡ s.frames
unfolding hand_over set_space
hand_over-frames true w s = refl
hand_over-frames false w s = refl

hand_over-pool : (b : Bool) (w : ℕ) (s : Session) → (hand_over b w s).pool ≡ s.pool
unfolding hand_over set_space
hand_over-pool true w s = refl
hand_over-pool false w s = refl

-- The nodes that are free after a removal are two at least if they were two before.
two_free :
    (pre free : List ℕ) (n i : ℕ)
    → (a : ℕ) × (b : ℕ) × (rest : List ℕ) × (pre ++ n ∷ i ∷ free ≡ a ∷ b ∷ rest)
two_free [] free n i = (n, i, free, refl)
two_free (a ∷ []) free n i = (a, n, i ∷ free, refl)
two_free (a ∷ b ∷ pre) free n i = (a, b, pre ++ n ∷ i ∷ free, refl)

module _ (entered : Link → Link → Link) (k : ℕ) (mapped : ℕ → Bool) (t : ℕ)
    (m : mapped t ≡ true) where
  abbrev Shown : Session → (ℕ → Option Tree) → List ℕ → (w : ℕ) → Option Session → Type 0
  Shown s F free w r =
      (s' : Session) × (r ≡ some s')
      × IsSession s' F free mapped
      × (s'.frames ≡ s.frames)
      × ((s'.spaces w).tree.focused ≡ some t)

  -- The window is shown and focused, or hidden.
  show_moved-Focused :
      (s : Session) (F : ℕ → Option Tree) (free : List ℕ)
      → IsSession s F free mapped
      → height (F (s.frames t).workspace) < k
      → Shown s F free (s.frames t).workspace (show_moved entered k (s.frames t).workspace t s)
  unfolding show_moved say set_space focus_on
  show_moved-Focused s F free v lt =
      chosen (is_some (s.spaces w).output)
        (focus_toplevel-IsSession F free mapped t m entered k s₁ v₁ lt)
    where
      w : ℕ
      w = (s.frames t).workspace

      s₁ : Session
      s₁ =
          set_space w (focus_on (some t) (s.spaces w))
            (say (enable t (is_some (s.spaces w).output) ∷ []) s)

      here : (u : ℕ) → ◌≡◌ {A = Link} (some t) (some u) → (s.frames u).workspace ≡ w
      here u e = let z : t ≡ u = cc in ap (λ y. (s.frames y).workspace) (sym z)

      v₁ : IsSession s₁ F free mapped
      v₁ =
          IsSession-spaces s s₁ F free mapped v refl refl refl refl
            (update_one (λ x (a : Space). a.tree.root ≡ (s.spaces x).tree.root) s.spaces w _ refl
              (λ x ne. refl))
            (update_one
              (λ x (a : Space). (u : ℕ) → a.tree.focused ≡ some u → (s.frames u).workspace ≡ x)
              s.spaces w _ here (λ x ne. v.focused x))

      focused₁ : (s₁.spaces w).tree.focused ≡ some t
      focused₁ = ap (λ (sp : Space). sp.tree.focused) (update_self s.spaces w _)

      chosen :
          (b : Bool)
          → Focused F free mapped t m entered s₁ (focus_toplevel entered k t s₁)
          → Shown s F free w (if b then focus_toplevel entered k t s₁ else some s₁)
      chosen true (s', e, v', fr, fo, _, _) = (s', e, v', fr, fo focused₁)
      chosen false _ = (s₁, refl, v₁, refl, focused₁)

  -- The session behind the move: the invariant holds, only this window has changed, by its
  -- workspace, where it has the focus, and only two trees have changed.
  abbrev pub Moved : Session → (ℕ → Option Tree) → (new : ℕ) → Option Session → Type 0
  Moved s F new r =
      (s' : Session) × (F' : ℕ → Option Tree) × (free : List ℕ) × (r ≡ some s')
      × IsSession s' F' free mapped
      × (s'.frames ≡ update s.frames t (record (s.frames t) { workspace = new }))
      × ((s'.spaces new).tree.focused ≡ some t)
      × ((x : ℕ) → (x == (s.frames t).workspace) ≡ false → (x == new) ≡ false → F' x ≡ F x)

  module _ (s : Session) (F : ℕ → Option Tree) (n i : ℕ) (free : List ℕ)
      (v : IsSession s F (n ∷ i ∷ free) mapped) (new : ℕ)
      (ne : (new == (s.frames t).workspace) ≡ false) (fs : (s.frames t).fullscreen ≡ false)
      (low : (x : ℕ) → 3 + height (F x) < k) where
    abbrev old : ℕ
    old = (s.frames t).workspace

    abbrev was : Bool
    was = (s.spaces old).tree.focused =? some t

    abbrev fr : Frame
    fr = record (s.frames t) { workspace = new }

    -- Behind enter_workspace.
    last_part :
        (s₂ s₃ : Session) (O O' : Option Tree) (free' : List ℕ)
        → s₂.frames ≡ update s.frames t fr
        → IsSession s₃ (update (update F old O) new O') free' (remap t (unmap t mapped))
        → s₃.frames ≡ s₂.frames
        → height O' ≤ 3 + height (F new)
        → Moved s F new (Option.map (arrange_both old new) (show_moved entered k new t s₃))
    last_part s₂ s₃ O O' free' e₂ v₃ e₃ h = arranged (
        subst (λ w. Shown s₃ F' free' w (show_moved entered k w t s₃)) home
          (show_moved-Focused s₃ F' free'
            (IsSession-mapped s₃ F' free' (remap t (unmap t mapped)) mapped (remap-unmap t mapped m)
              v₃)
            (subst (λ w. height (F' w) < k) (sym home) here)))
      where
        F' : ℕ → Option Tree
        F' = update (update F old O) new O'

        home : (s₃.frames t).workspace ≡ new
        home =
            ap (λ (f : ℕ → Frame). (f t).workspace) (e₃ ∙ e₂)
            ∙ ap (λ (f : Frame). f.workspace) (update_self s.frames t fr)

        here : height (F' new) < k
        here =
            subst (λ O. height O < k) (sym (update_self (update F old O) new O'))
              (omega (arith, h, low new))

        arranged :
            Shown s₃ F' free' new (show_moved entered k new t s₃)
            → Moved s F new (Option.map (arrange_both old new) (show_moved entered k new t s₃))
        arranged (s₄, e, v₄, f₄, fo) =
            let q = arrange_both-Quiet old new s₄ in
            (
              arrange_both old new s₄,
              F',
              free',
              ap (Option.map (arrange_both old new)) e,
              IsSession-Quiet s₄ (arrange_both old new s₄) F' free' mapped q v₄,
              q.frames ∙ f₄ ∙ e₃ ∙ e₂,
              q.focused new ∙ fo,
              λ x no nn. update_ne (update F old O) new O' x nn ∙ update_ne F old O x no,
            )

    -- Behind leave_workspace.
    middle_part :
        (s₁ : Session) (O : Option Tree) (pre : List ℕ)
        → IsSession s₁ (update F old O) (pre ++ n ∷ i ∷ free) (unmap t mapped)
        → Nowhere s₁.pool (update F old O) t
        → s₁.frames ≡ s.frames
        → ((x : ℕ) → (s₁.spaces x).tree.focused ≡ (s.spaces x).tree.focused)
        → Moved s F new (
            Option.bind
              (enter_workspace k new t (hand_over was old (set_workspace new t s₁)))
              (λ s₃. Option.map (arrange_both old new) (show_moved entered k new t s₃)))
    unfolding set_workspace set_frame Option.bind
    middle_part s₁ O pre v₁ out₁ e₁ fo₁ = entered_at (two_free pre free n i)
      where
        s₂ : Session
        s₂ = hand_over was old (set_workspace new t s₁)

        home₁ : (s₁.frames t).workspace ≡ old
        home₁ = ap (λ (f : ℕ → Frame). (f t).workspace) e₁

        e₂ : s₂.frames ≡ update s.frames t fr
        e₂ =
            hand_over-frames was old (set_workspace new t s₁)
            ∙ ap (λ (f : ℕ → Frame). update f t (record (f t) { workspace = new })) e₁

        home₂ : (s₂.frames t).workspace ≡ new
        home₂ =
            ap (λ (f : ℕ → Frame). (f t).workspace) e₂
            ∙ ap (λ (f : Frame). f.workspace) (update_self s.frames t fr)

        v₂ : IsSession s₂ (update F old O) (pre ++ n ∷ i ∷ free) (unmap t mapped)
        v₂ =
            subst
              (λ w.
                was ≡ ((s₁.spaces w).tree.focused =? some t)
                → IsSession (hand_over was w (set_workspace new t s₁)) (update F old O)
                    (pre ++ n ∷ i ∷ free) (unmap t mapped))
              home₁
              (settled s₁ (update F old O) (pre ++ n ∷ i ∷ free) (unmap t mapped) v₁ t
                (update_self mapped t false) out₁ new was)
              (ap (λ l. l =? some t) (sym (fo₁ old)))

        out₂ : Nowhere s₂.pool (update F old O) t
        out₂ =
            subst (λ p. Nowhere p (update F old O) t)
              (sym (hand_over-pool was old (set_workspace new t s₁))) out₁

        entered_at :
            (a : ℕ) × (b : ℕ) × (rest : List ℕ) × (pre ++ n ∷ i ∷ free ≡ a ∷ b ∷ rest)
            → Moved s F new (
                Option.bind
                  (enter_workspace k new t s₂)
                  (λ s₃. Option.map (arrange_both old new) (show_moved entered k new t s₃)))
        entered_at (a, b, rest, e) = after (
            subst (λ w. Entered s₂ (update F old O) (unmap t mapped) t w (enter_workspace k w t s₂))
              home₂
              (enter_workspace-Entered s₂ (update F old O) a b rest (unmap t mapped)
                (subst (λ l. IsSession s₂ (update F old O) l (unmap t mapped)) e v₂) t
                (update_self mapped t false) out₂ k
                (ap (λ (f : ℕ → Frame). (f t).fullscreen) e₂
                  ∙ ap (λ (f : Frame). f.fullscreen) (update_self s.frames t fr)
                  ∙ fs)
                (subst (λ w. height (update F old O w) < k) (sym home₂)
                  (subst (λ O. height O < k) (sym (update_ne F old O new ne))
                    (omega (arith, low new))))))
          where
            after :
                Entered s₂ (update F old O) (unmap t mapped) t new (enter_workspace k new t s₂)
                → Moved s F new (
                    Option.bind
                      (enter_workspace k new t s₂)
                      (λ s₃. Option.map (arrange_both old new) (show_moved entered k new t s₃)))
            after (s₃, O', free', q, v₃, e₃, _, h) =
                subst
                  (λ r. Moved s F new (
                    Option.bind r
                      (λ s₃. Option.map (arrange_both old new) (show_moved entered k new t s₃))))
                  (sym q)
                  (last_part s₂ s₃ O O' free' e₂ v₃ e₃
                    (subst (λ O. height O' ≤ 3 + height O) (update_ne F old O new ne) h))

    pub move_between-Moved : Moved s F new (move_between entered k old new t s)
    unfolding move_between forget_last set_space Option.bind
    move_between-Moved = left (
        leave_workspace-Left s₀ F (n ∷ i ∷ free) mapped
          (IsSession-Quiet s s₀ F (n ∷ i ∷ free) mapped (forget_last-Quiet old t s) v) t m k fs
          (omega (arith, low old)))
      where
        s₀ : Session
        s₀ = forget_last old t s

        left :
            Left s₀ F (n ∷ i ∷ free) mapped t (leave_workspace k old t s₀)
            → Moved s F new (move_between entered k old new t s)
        left (s₁, O, pre, q, v₁, out, e₁, fo) =
            subst
              (λ r. Moved s F new (
                Option.bind r (λ s₁.
                  Option.bind (enter_workspace k new t (hand_over was old (set_workspace new t s₁)))
                    (λ s₂. Option.map (arrange_both old new) (show_moved entered k new t s₂)))))
              (sym q)
              (middle_part s₁ O pre v₁ out e₁ (λ x. fo x ∙ (forget_last-Quiet old t s).focused x))
