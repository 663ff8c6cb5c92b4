-- ===== src/Windows/Focused.antt =====
-- focus_toplevel (src/wm/window.c) and raise_floating (src/wm/floating.c) keep the invariant of the
-- session.
use uwm.Base.{
  ℕ, ◌<◌, ◌≡◌, refl, sym, ap, ◌∙◌, inl, inr, Bool, true, false, Option, some, List, [], ◌∷◌, Link,
  Bool-cases, true_ne_false, if◌then◌else◌,
}
use uwm.Base.Maps.{update_self, update_ne, update_one}
use uwm.Bsp.Tree.{Tree}
use uwm.Bsp.Forest.{height}
use uwm.Windows.{Space, Session, raise, say, unlink, link_floating, set_space, focus_on}
use uwm.Windows.Focus.{
  same_link, raise_floating, hand_keyboard, take_focus, focus_toplevel, activate_tab,
  monocle_events,
}
use uwm.Windows.Listed.{IsSession, IsSession-spaces, say-Quiet, IsSession-Quiet}
use uwm.Windows.Left.{unmap, unlink-IsSession, unlisted-Nowhere, not_tiled}
use uwm.Windows.Entered.{remap, link_floating-IsSession}
use uwm.Windows.Activated.{Activated, activate_tab-Activated}

-- The invariant sees `mapped` value by value.
pub IsSession-mapped :
    (s : Session) (F : ℕ → Option Tree) (free : List ℕ) (mapped mapped' : ℕ → Bool)
    → ((u : ℕ) → mapped' u ≡ mapped u)
    → IsSession s F free mapped
    → IsSession s F free mapped'
IsSession-mapped s F free mapped mapped' same v = record {
  forest = v.forest;
  focused = v.focused;
  tiled = λ w u. rw (same u) (v.tiled w u);
  floating = λ w u. rw (same u) (v.floating w u);
  matches = v.matches;
}

pub remap-unmap :
    (t : ℕ) (mapped : ℕ → Bool) → mapped t ≡ true → (u : ℕ) → mapped u ≡ remap t (unmap t mapped) u
remap-unmap t mapped m u = sym (
    update_one (λ u b. b ≡ mapped u) (unmap t mapped) t true (sym m)
      (λ u ne. update_ne mapped t false u ne) u)

module _ (F : ℕ → Option Tree) (free : List ℕ) (mapped : ℕ → Bool) (t : ℕ)
    (m : mapped t ≡ true) where
  pub raise_floating-IsSession :
      (s : Session) → IsSession s F free mapped → IsSession (raise_floating t s) F free mapped
  unfolding raise_floating unlink
  raise_floating-IsSession s v = elim (Bool-cases (s.frames t).floating) [
    | inr fl ↦ rw (fl, raise_floating) v
    | inl fl ↦
        let s₁ = unlink t s in
        rw (fl, raise_floating)
          (IsSession-Quiet _ _ F free mapped (say-Quiet (raise t ∷ []) _) (
            IsSession-mapped _ F free (remap t (unmap t mapped)) mapped (remap-unmap t mapped m) (
              link_floating-IsSession s₁ F free (unmap t mapped)
                (unlink-IsSession s F free mapped v t m (rw fl refl)) t (update_self mapped t false)
                (unlisted-Nowhere s F free mapped v t m
                  (not_tiled s F free mapped v t m (rw fl refl)))
                fl)))
  ]

  module _ (entered : Link → Link → Link) where
    hand_keyboard-IsSession :
        (s : Session)
        → IsSession s F free mapped
        → IsSession (hand_keyboard entered t s) F free mapped
    unfolding hand_keyboard say
    hand_keyboard-IsSession s v =
        let s₁ = if (s.frames t).floating then raise_floating t s else say (raise t ∷ []) s in
        IsSession-spaces s₁ _ F free mapped (raised (s.frames t).floating) refl refl refl refl
          (λ w. refl) (raised (s.frames t).floating).focused
      where
        raised :
            (b : Bool)
            → IsSession (if b then raise_floating t s else say (raise t ∷ []) s) F free mapped
        raised true = raise_floating-IsSession s v
        raised false = IsSession-Quiet s _ F free mapped (say-Quiet (raise t ∷ []) s) v

    take_focus-IsSession :
        (s : Session)
        → IsSession s F free mapped
        → IsSession (take_focus entered (s.frames t).workspace t s) F free mapped
    unfolding take_focus set_space focus_on
    take_focus-IsSession s v =
        IsSession-spaces s _ F free mapped v refl refl refl refl
          (update_one (λ x (a : Space). a.tree.root ≡ (s.spaces x).tree.root) s.spaces w _ refl
            (λ x ne. refl))
          (update_one
            (λ x (a : Space). (u : ℕ) → a.tree.focused ≡ some u → (s.frames u).workspace ≡ x)
            s.spaces w _ (λ u e. here u e) (λ x ne. v.focused x))
      where
        w : ℕ
        w = (s.frames t).workspace

        here : (u : ℕ) → ◌≡◌ {A = Link} (some t) (some u) → (s.frames u).workspace ≡ w
        here u e = let z : t ≡ u = cc in ap (λ y. (s.frames y).workspace) (sym z)

    pub raise_floating-rest :
        (s : Session)
        → ((raise_floating t s).frames ≡ s.frames) × ((raise_floating t s).spaces ≡ s.spaces)
    unfolding raise_floating say unlink link_floating
    raise_floating-rest s = elim (Bool-cases (s.frames t).floating) [
      | inl e ↦ rw (e, raise_floating) (refl, refl)
      | inr e ↦ rw (e, raise_floating) (refl, refl)
    ]

    hand_keyboard-rest :
        (s : Session)
        → ((hand_keyboard entered t s).frames ≡ s.frames)
          × ((hand_keyboard entered t s).spaces ≡ s.spaces)
    unfolding hand_keyboard say
    hand_keyboard-rest s = raised (s.frames t).floating
      where
        raised :
            (b : Bool)
            → let r = if b then raise_floating t s else say (raise t ∷ []) s in
              (r.frames ≡ s.frames) × (r.spaces ≡ s.spaces)
        raised true = raise_floating-rest s
        raised false = (refl, refl)

    take_focus-fullscreen_window :
        (s : Session) (w x : ℕ)
        → ((take_focus entered w t s).spaces x).fullscreen_window ≡ (s.spaces x).fullscreen_window
    unfolding take_focus set_space focus_on
    take_focus-fullscreen_window s w =
        update_one (λ x (a : Space). a.fullscreen_window ≡ (s.spaces x).fullscreen_window) s.spaces
          w _ refl (λ x ne. refl)

    take_focus-focused :
        (s : Session)
        → let w = (s.frames t).workspace in
          ((take_focus entered w t s).spaces w).tree.focused ≡ some t
    unfolding take_focus set_space focus_on
    take_focus-focused s =
        ap (λ (sp : Space). sp.tree.focused) (update_self s.spaces (s.frames t).workspace _)

    -- The session behind focus_toplevel. A workspace that had the window focused still has, and one
    -- that had a fullscreen window still has it. The window has its workspace's focus unless its
    -- surface had the keyboard's.
    abbrev pub Focused : Session → Option Session → Type 0
    Focused s r =
        (s' : Session) × (r ≡ some s')
        × IsSession s' F free mapped
        × (s'.frames ≡ s.frames)
        × ((s.spaces (s.frames t).workspace).tree.focused ≡ some t
            → (s'.spaces (s.frames t).workspace).tree.focused ≡ some t)
        × ((x : ℕ) → (s'.spaces x).fullscreen_window ≡ (s.spaces x).fullscreen_window)
        × (same_link s.keyboard_focus (s.frames t).surface ≡ false
            → (s'.spaces (s.frames t).workspace).tree.focused ≡ some t)

    -- focus_toplevel returns.
    pub focus_toplevel-IsSession :
        (k : ℕ) (s : Session)
        → IsSession s F free mapped
        → height (F (s.frames t).workspace) < k
        → Focused s (focus_toplevel entered k t s)
    unfolding focus_toplevel say take_focus
    focus_toplevel-IsSession k s v lt =
        elim (Bool-cases (same_link s.keyboard_focus (s.frames t).surface)) [
          | inl e ↦ (
            s,
            rw (e, focus_toplevel) refl,
            v,
            refl,
            λ x. x,
            λ x. refl,
            λ q. absurd (true_ne_false (sym e ∙ q)),
          )
          | inr e ↦
              focused
                (activate_tab-Activated k s₁ F free (λ u. (s.frames u).workspace) t v₁.forest lt) e
        ]
      where
        s₁ : Session
        s₁ = take_focus entered (s.frames t).workspace t s

        v₁ : IsSession s₁ F free mapped
        v₁ = take_focus-IsSession s v

        focused :
            Activated
              (λ w. (s₁.spaces w).tree)
              F
              free
              (λ u. (s.frames u).workspace)
              (activate_tab k s₁ (s.frames t).workspace t)
            → same_link s.keyboard_focus (s.frames t).surface ≡ false
            → Focused s (focus_toplevel entered k t s)
        focused (p, es, e, f) q = (
          hand_keyboard entered t s₃,
          rw (q, focus_toplevel) (rw (e, focus_toplevel) refl),
          hand_keyboard-IsSession s₃
              (IsSession-Quiet s₂ s₃ F free mapped (say-Quiet (monocle_events s₂ w t) s₂) v₂),
          (hand_keyboard-rest s₃).0,
          λ x.
              ap (λ (sp : ℕ → Space). (sp w).tree.focused) (hand_keyboard-rest s₃).1
              ∙ take_focus-focused s,
          λ x.
              ap (λ (sp : ℕ → Space). (sp x).fullscreen_window) (hand_keyboard-rest s₃).1
              ∙ take_focus-fullscreen_window s w x,
          λ x. has_focus,
        )
          where
            w : ℕ
            w = (s.frames t).workspace

            s₂ : Session
            s₂ = say es (record s₁ { pool = p })

            s₃ : Session
            s₃ = say (monocle_events s₂ w t) s₂

            has_focus : ((hand_keyboard entered t s₃).spaces w).tree.focused ≡ some t
            has_focus =
                ap (λ (sp : ℕ → Space). (sp w).tree.focused) (hand_keyboard-rest s₃).1
                ∙ take_focus-focused s

            v₂ : IsSession s₂ F free mapped
            v₂ = record {
              forest = f;
              focused = v₁.focused;
              tiled = v₁.tiled;
              floating = v₁.floating;
              matches = v₁.matches;
            }
