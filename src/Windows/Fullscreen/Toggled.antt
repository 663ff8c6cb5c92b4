-- ===== src/Windows/Fullscreen/Toggled.antt =====
-- A window is fullscreen no longer, and toggle_fullscreen (src/wm/floating.c) as a whole.
use mathlib.Core.Option
use uwm.Base.{
  ℕ, ◌<◌, ◌≡◌, refl, sym, ap, subst, ◌∙◌, inl, inr, Bool, true, false, not, ◌&&◌, ◌||◌, Option,
  none, some, List, [], ◌∷◌, Link, ◌=?◌, Bool-cases, if◌then◌else◌, if_true, if_false,
}
use uwm.Base.Maps.{update, update_self}
use uwm.Bsp.Tree.{Tree}
use uwm.Bsp.Forest.{height}
use uwm.Windows.{
  Frame, Space, Session, ScreenCall, to_floating_layer, set_position, set_size, set_fullscreen,
  borders, say, unlink, link_floating, set_space, set_frame,
}
use uwm.Windows.Focus.{raise_floating, focus_toplevel}
use uwm.Windows.Fullscreen.{
  restore_floating, clear_fullscreen, show_workspace, leave_fullscreen, toggle_fullscreen,
}
use uwm.Windows.Fullscreen.Frames.{
  set_frame-IsSession, set_frame_twice, set_frame-at, unmapped_flag,
}
use uwm.Windows.Listed.{on_tiled, IsSession, say-Quiet, set_space-Quiet, IsSession-Quiet}
use uwm.Windows.Left.{unmap, unlink-IsSession, unlisted-Nowhere, not_tiled}
use uwm.Windows.Entered.{remap, link_floating-IsSession}
use uwm.Windows.Focused.{
  IsSession-mapped, remap-unmap, Focused, raise_floating-IsSession, raise_floating-rest,
  focus_toplevel-IsSession,
}
use uwm.Windows.Fullscreen.Covered.{toggled, Toggled, enter_fullscreen-Toggled}

leaves :
    (fr : Frame)
    → fr.fullscreen ≡ true
    → record fr { fullscreen = false; floating = fr.saved_floating || fr.floating } ≡ toggled fr
leaves fr fs = sym (if_true _ _ fs)

module _ (F : ℕ → Option Tree) (free : List ℕ) (mapped : ℕ → Bool) (t : ℕ) (m : mapped t ≡ true)
    (k : ℕ) (s : Session) (v : IsSession s F free mapped)
    (lt : height (F (s.frames t).workspace) < k) where
  abbrev w : ℕ
  w = (s.frames t).workspace

  off_tiled : (a b c : Bool) → b ≡ true → c ≡ true → (not a && not (b && c)) ≡ false
  off_tiled true b c e f = refl
  off_tiled false b c e f = rw (e, f) refl

  module _ (fs : (s.frames t).fullscreen ≡ true) where
    abbrev cleared : Frame
    cleared = record (s.frames t) { fullscreen = false }

    -- The session behind restore_floating.
    abbrev Restored : Session → Type 0
    Restored s' =
        IsSession s' F free mapped
        × (s'.frames ≡ update s.frames t (toggled (s.frames t)))
        × ((s'.spaces w).fullscreen_window ≡ none)

    abbrev opened : Session
    opened =
        say (set_fullscreen t false ∷ [])
          (set_space w (record (s.spaces w) { fullscreen_window = none }) s)

    opened-IsSession : IsSession opened F free mapped
    unfolding set_space
    opened-IsSession =
        let s' = set_space w (record (s.spaces w) { fullscreen_window = none }) s in
        IsSession-Quiet s' opened F free mapped (say-Quiet _ s')
          (IsSession-Quiet s s' F free mapped (set_space-Quiet w _ s refl refl) v)

    opened-fullscreen_window : (opened.spaces w).fullscreen_window ≡ none
    unfolding say set_space
    opened-fullscreen_window = ap (λ (sp : Space). sp.fullscreen_window) (update_self s.spaces w _)

    saved :
        (b : Bool)
        → (s.frames t).saved_floating ≡ b
        → record cleared { floating = b || (s.frames t).floating } ≡ toggled (s.frames t)
    saved b e =
        ap (λ b. record cleared { floating = b || (s.frames t).floating }) (sym e)
        ∙ leaves (s.frames t) fs

    tiled_again :
        (s.frames t).saved_floating ≡ false
        → Restored (restore_floating w t (clear_fullscreen w t s))
    unfolding clear_fullscreen restore_floating say set_space set_frame
    tiled_again sv =
        subst Restored
          (sym
            (if_false _ _ (ap (λ (f : Frame). f.saved_floating) (set_frame-at s t cleared) ∙ sv)))
          (
            IsSession-Quiet (set_frame t cleared opened) _ F free mapped (say-Quiet _ _) (
                set_frame-IsSession opened F free mapped t cleared opened-IsSession refl
                  (rw (sv, fs) refl) refl),
            ap (update s.frames t) (saved false sv),
            opened-fullscreen_window,
          )

    floats_again :
        (s.frames t).saved_floating ≡ true
        → Restored (restore_floating w t (clear_fullscreen w t s))
    unfolding clear_fullscreen restore_floating say set_space set_frame unlink
    floats_again sv =
        subst Restored
          (sym (
            if_true _ _ (ap (λ (f : Frame). f.saved_floating) (set_frame-at s t cleared) ∙ sv)
            ∙ ap (λ x. say es (link_floating w t (unlink t x)))
                (set_frame_twice opened t cleared (λ fr. record fr { floating = true }))))
          (
            IsSession-Quiet (link_floating w t s₃) _ F free mapped (say-Quiet es _) (
                IsSession-mapped (link_floating w t s₃) F free (remap t (unmap t mapped)) mapped
                  (remap-unmap t mapped m)
                  (subst (λ x. IsSession (link_floating x t s₃) F free (remap t (unmap t mapped)))
                    (ap (λ (f : Frame). f.workspace) at)
                    (link_floating-IsSession s₃ F free (unmap t mapped) v₃ t
                      (update_self mapped t false)
                      (unlisted-Nowhere opened F free mapped opened-IsSession t m
                        (not_tiled opened F free mapped opened-IsSession t m off))
                      (ap (λ (f : Frame). f.floating) at)))),
            ap (update s.frames t) (saved true sv),
            opened-fullscreen_window,
          )
      where
        es : List ScreenCall
        es = to_floating_layer t ∷ set_position t ∷ set_size t ∷ []

        fr : Frame
        fr = record cleared { floating = true }

        s₃ : Session
        s₃ = unlink t (set_frame t fr opened)

        at : s₃.frames t ≡ fr
        at = set_frame-at opened t fr

        off : on_tiled (opened.frames t) ≡ false
        off =
            off_tiled (s.frames t).floating (s.frames t).fullscreen (s.frames t).saved_floating fs
              sv

        v₃ : IsSession s₃ F free (unmap t mapped)
        v₃ =
            set_frame-IsSession (unlink t opened) F free (unmap t mapped) t fr
              (unlink-IsSession opened F free mapped opened-IsSession t m off) refl
              (unmapped_flag _ _ _ (update_self mapped t false))
              (unmapped_flag _ _ _ (update_self mapped t false))

    restore_floating-Restored : Restored (restore_floating w t (clear_fullscreen w t s))
    restore_floating-Restored = elim (Bool-cases (s.frames t).saved_floating) [
      | inl e ↦ floats_again e
      | inr e ↦ tiled_again e
    ]

    say-Restored : (es : List ScreenCall) (s' : Session) → Restored s' → Restored (say es s')
    unfolding say
    say-Restored es s' (v', e, f) =
        (IsSession-Quiet s' (say es s') F free mapped (say-Quiet es s') v', e, f)

    module _ (entered : Link → Link → Link) where
      raised-Restored :
          (b : Bool) (s' : Session) → Restored s' → Restored (if b then raise_floating t s' else s')
      raised-Restored false s' r = r
      raised-Restored true s' (v', e, f) = (
        raise_floating-IsSession F free mapped t m s' v',
        (raise_floating-rest F free mapped t m entered s').0 ∙ e,
        ap (λ (sp : ℕ → Space). (sp w).fullscreen_window)
              (raise_floating-rest F free mapped t m entered s').1
            ∙ f,
      )

      show_workspace-Restored : (s' : Session) → Restored s' → Restored (show_workspace w t s')
      unfolding show_workspace
      show_workspace-Restored s' r =
          say-Restored _ _ (raised-Restored (s'.frames t).saved_floating _ (say-Restored _ s' r))

      leave_fullscreen-Toggled : Toggled F free mapped t s (leave_fullscreen entered k t s)
      unfolding leave_fullscreen
      leave_fullscreen-Toggled = focused ((s'.spaces w).tree.focused =? some t)
        where
          s' : Session
          s' = show_workspace w t (restore_floating w t (clear_fullscreen w t s))

          r : Restored s'
          r = show_workspace-Restored _ restore_floating-Restored

          home : (s'.frames t).workspace ≡ w
          home =
              ap (λ (f : ℕ → Frame). (f t).workspace) r.1
              ∙ ap (λ (f : Frame). f.workspace) (update_self s.frames t _)
              ∙ ap (λ (f : Frame). f.workspace) (sym (leaves (s.frames t) fs))

          done :
              (s'' : Session)
              → Restored s''
              → (r : Option Session) → r ≡ some s''
              → Toggled F free mapped t s (Option.map (say (borders w ∷ [])) r)
          done s'' q r e =
              let (v', f, g) = say-Restored (borders w ∷ []) s'' q in
              (say (borders w ∷ []) s'', ap (Option.map _) e, v', f, g ∙ sym (if_true _ _ fs))

          focused :
              (b : Bool)
              → Toggled F free mapped t s (
                  Option.map
                    (say (borders w ∷ []))
                    (if b then focus_toplevel entered k t s' else some s'))
          focused false = done s' r (some s') refl
          focused true = given (
              focus_toplevel-IsSession F free mapped t m entered k s' r.0
                (subst (λ x. height (F x) < k) (sym home) lt))
            where
              given :
                  Focused F free mapped t m entered s' (focus_toplevel entered k t s')
                  → Toggled F free mapped t s
                      (Option.map (say (borders w ∷ [])) (focus_toplevel entered k t s'))
              given (s'', e, v', f, _, g, _) =
                  done s'' (v', f ∙ r.1, g w ∙ r.2) (focus_toplevel entered k t s') e

-- toggle_fullscreen of a mapped window, in a session whose windows stand where they should and with
-- enough fuel, returns and keeps the invariant with the same trees. Of all windows only this one
-- has changed its flags: it is fullscreen now and on the tiled list only if it was not floating, or
-- it is no longer fullscreen and floats again if it did. It is the fullscreen window of its
-- workspace, or the workspace has none any more.
pub toggle_fullscreen-Toggled :
    (entered : Link → Link → Link) (k : ℕ) (mapped : ℕ → Bool) (t : ℕ) (s : Session)
    (F : ℕ → Option Tree) (free : List ℕ)
    → mapped t ≡ true
    → IsSession s F free mapped
    → height (F (s.frames t).workspace) < k
    → Toggled F free mapped t s (toggle_fullscreen entered k t s)
unfolding toggle_fullscreen
toggle_fullscreen-Toggled entered k mapped t s F free m v lt =
    elim (Bool-cases (s.frames t).fullscreen) [
      | inl e ↦
          subst (Toggled F free mapped t s) (sym (if_true _ _ e))
            (leave_fullscreen-Toggled F free mapped t m k s v lt e entered)
      | inr e ↦
          subst (Toggled F free mapped t s) (sym (if_false _ _ e))
            (enter_fullscreen-Toggled F free mapped t m k s v lt e)
    ]
