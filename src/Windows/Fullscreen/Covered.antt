-- ===== src/Windows/Fullscreen/Covered.antt =====
-- A window becomes fullscreen (toggle_fullscreen of src/wm/floating.c).
use mathlib.Core.Option
use uwm.Base.{
  ℕ, ◌<◌, ◌≡◌, refl, sym, ap, ◌∙◌, inl, inr, Bool, true, false, ◌&&◌, ◌||◌, Option, none, some,
  List, [], ◌∷◌, ◌++◌, Bool-cases, if◌then◌else◌, if_true, if_false,
}
use uwm.Base.Maps.{update, update_self}
use uwm.Bsp.Tree.{Tree}
use uwm.Bsp.Find.{find_leaf}
use uwm.Bsp.Forest.{height}
use uwm.Windows.{
  Frame, Space, Session, ScreenCall, to_floating_layer, set_position, set_size, set_fullscreen,
  raise, say, unlink, set_space, set_frame,
}
use uwm.Windows.Fullscreen.{hide_others, bar_layers, leave_floating_list, enter_fullscreen}
use uwm.Windows.Fullscreen.Frames.{
  set_frame-IsSession, set_frame_twice, set_frame-at, unmapped_flag, off_lists-IsSession,
}
use uwm.Windows.Listed.{on_tiled, IsSession, say-Quiet, set_space-Quiet, IsSession-Quiet}
use uwm.Windows.Left.{unmap, unlink-IsSession}
use uwm.Windows.Activated.{Sought, find_leaf-Sought}

-- The flags behind the toggle.
abbrev pub toggled : Frame → Frame
toggled fr =
    if fr.fullscreen
    then record fr { fullscreen = false; floating = fr.saved_floating || fr.floating }
    else record fr { fullscreen = true; floating = false; saved_floating = fr.floating }

-- The session behind the toggle, with its trees.
abbrev pub Toggled : (ℕ → Option Tree) → List ℕ → (ℕ → Bool) → ℕ → Session → Option Session → Type 0
Toggled F free mapped t s r =
    (s' : Session) × (r ≡ some s')
    × IsSession s' F free mapped
    × (s'.frames ≡ update s.frames t (toggled (s.frames t)))
    × ((s'.spaces (s.frames t).workspace).fullscreen_window
        ≡ (if (s.frames t).fullscreen then none else some t))

enters :
    (fr : Frame) (b : Bool)
    → fr.fullscreen ≡ false
    → fr.floating ≡ b
    → record fr { fullscreen = true; floating = false; saved_floating = b } ≡ toggled fr
enters fr b fs fl =
    ap (λ b. record fr { fullscreen = true; floating = false; saved_floating = b }) (sym fl)
    ∙ sym (if_false _ _ fs)

module _ (F : ℕ → Option Tree) (free : List ℕ) (mapped : ℕ → Bool) (t : ℕ) (m : mapped t ≡ true)
    (k : ℕ) (s : Session) (v : IsSession s F free mapped)
    (lt : height (F (s.frames t).workspace) < k) where
  abbrev w : ℕ
  w = (s.frames t).workspace

  module _ (fs : (s.frames t).fullscreen ≡ false) where
    abbrev shut : List ScreenCall
    shut =
        hide_others t (s.toplevels w)
        ++ (hide_others t (s.floating_windows w) ++ bar_layers (s.spaces w).output false)

    abbrev covered : List ScreenCall
    covered =
        to_floating_layer t ∷ set_position t ∷ set_fullscreen t true ∷ set_size t ∷ raise t ∷ []

    -- The last writes.
    abbrev covers : Session → Session
    covers s' = say covered (
        set_frame t (record (s'.frames t) { fullscreen = true })
          (set_space w (record (s'.spaces w) { fullscreen_window = some t }) s'))

    abbrev flat : Session → Frame → Session
    flat s' fr =
        say covered
          (set_frame t fr (set_space w (record (s'.spaces w) { fullscreen_window = some t }) s'))

    covers-flat :
        (s' : Session) (fr : Frame)
        → covers (set_frame t fr s') ≡ flat s' (record fr { fullscreen = true })
    unfolding set_space set_frame
    covers-flat s' fr = ap (say covered) (
        set_frame_twice (set_space w (record (s'.spaces w) { fullscreen_window = some t }) s') t fr
          (λ fr. record fr { fullscreen = true }))

    flat-IsSession :
        (s' : Session) (fr : Frame) (mapped' : ℕ → Bool)
        → IsSession s' F free mapped'
        → fr.workspace ≡ (s'.frames t).workspace
        → (mapped' t && on_tiled (s'.frames t)) ≡ (mapped' t && on_tiled fr)
        → (mapped' t && (s'.frames t).floating) ≡ (mapped' t && fr.floating)
        → IsSession (flat s' fr) F free mapped'
    unfolding set_space
    flat-IsSession s' fr mapped' v' home tiled floating =
        let s'' = set_space w (record (s'.spaces w) { fullscreen_window = some t }) s' in
        IsSession-Quiet (set_frame t fr s'') (flat s' fr) F free mapped' (say-Quiet covered _) (
          set_frame-IsSession s'' F free mapped' t fr
            (IsSession-Quiet s' s'' F free mapped' (set_space-Quiet w _ s' refl refl) v') home tiled
            floating)

    finish :
        (s' : Session) (fr : Frame)
        → enter_fullscreen k t s ≡ some (covers (set_frame t fr s'))
        → s'.frames ≡ s.frames
        → record fr { fullscreen = true } ≡ toggled (s.frames t)
        → IsSession (flat s' (record fr { fullscreen = true })) F free mapped
        → Toggled F free mapped t s (enter_fullscreen k t s)
    unfolding say set_frame set_space
    finish s' fr e frames flags v' = (
      flat s' (record fr { fullscreen = true }),
      e ∙ ap some (covers-flat s' fr),
      v',
      ap (λ f. update f t (record fr { fullscreen = true })) frames ∙ ap (update s.frames t) flags,
      ap (λ (sp : Space). sp.fullscreen_window) (update_self s'.spaces w _) ∙ sym (rw fs refl),
    )

    enter_floating :
        (s.frames t).floating ≡ true → Toggled F free mapped t s (enter_fullscreen k t s)
    unfolding enter_fullscreen leave_floating_list say unlink
    enter_floating fl =
        finish s₁ fr (ap (Option.map covers) (if_true _ _ fl)) refl (enters (s.frames t) true fs fl)
          (off_lists-IsSession (flat s₁ fr') F free mapped t
            (flat-IsSession s₁ fr' (unmap t mapped)
              (unlink-IsSession s₀ F free mapped v₀ t m (rw fl refl)) refl
              (unmapped_flag _ _ _ (update_self mapped t false))
              (unmapped_flag _ _ _ (update_self mapped t false)))
            (ap on_tiled (set_frame-at s₂ t fr'))
            (ap (λ (f : Frame). f.floating) (set_frame-at s₂ t fr')))
      where
        s₀ : Session
        s₀ = say shut s

        s₁ : Session
        s₁ = unlink t s₀

        s₂ : Session
        s₂ = set_space w (record (s₁.spaces w) { fullscreen_window = some t }) s₁

        v₀ : IsSession s₀ F free mapped
        v₀ = IsSession-Quiet s s₀ F free mapped (say-Quiet shut s) v

        fr : Frame
        fr = record (s.frames t) { saved_floating = true; floating = false }

        fr' : Frame
        fr' = record fr { fullscreen = true }

    enter_tiled : (s.frames t).floating ≡ false → Toggled F free mapped t s (enter_fullscreen k t s)
    unfolding enter_fullscreen leave_floating_list say set_frame
    enter_tiled fl = sought (
        find_leaf-Sought k s.pool (λ x. (s.spaces x).tree) F free (λ u. (s.frames u).workspace) t
          v.forest lt)
      where
        fr : Frame
        fr = record (s.frames t) { saved_floating = false }

        sought :
            Sought
              (λ x. (s.spaces x).tree)
              F
              free
              (λ u. (s.frames u).workspace)
              (find_leaf k s.pool (s.spaces w).tree.root (some t))
            → Toggled F free mapped t s (enter_fullscreen k t s)
        sought (p, l, e, f) =
            finish s₁ fr
              (ap (Option.map covers) (
                if_false _ _ fl
                ∙ ap (Option.map (λ r. record (set_frame t fr (say shut s)) { pool = r.0 })) e))
              refl
              (ap (λ b. record fr { floating = b; fullscreen = true }) fl
                ∙ enters (s.frames t) false fs fl)
              (flat-IsSession s₁ (record fr { fullscreen = true }) mapped v₁ refl (rw (fl, fs) refl)
                refl)
          where
            s₁ : Session
            s₁ = say shut (record s { pool = p })

            v₁ : IsSession s₁ F free mapped
            v₁ = record {
              forest = f;
              focused = v.focused;
              tiled = v.tiled;
              floating = v.floating;
              matches = v.matches;
            }

    pub enter_fullscreen-Toggled : Toggled F free mapped t s (enter_fullscreen k t s)
    enter_fullscreen-Toggled = elim (Bool-cases (s.frames t).floating) [
      | inl e ↦ enter_floating e
      | inr e ↦ enter_tiled e
    ]
