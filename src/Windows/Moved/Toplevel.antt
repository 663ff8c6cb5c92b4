-- ===== src/Windows/Moved/Toplevel.antt =====
-- workspace_move_toplevel (src/wm/workspace.c) as a whole.
use mathlib.Core.Option
use uwm.Base.{
  ℕ, ◌+◌, ◌≤◌, ◌<◌, ◌≡◌, sym, ap, subst, ◌∙◌, ◌⊎◌, inl, inr, Bool, true, false, Option, some, List,
  ◌∷◌, arith, Link, ◌==◌, leb, Bool-cases, ==_iff, ne_sym, leb→le, true_ne_false, if◌then◌else◌,
  if_true, if_false, ◌||◌,
}
use uwm.Base.Maps.{update, update_self, update_twice}
use uwm.Bsp.Tree.{Tree}
use uwm.Bsp.Forest.{height}
use uwm.Outputs.{workspace_count}
use uwm.Windows.{Frame, Session}
use uwm.Windows.Move.{move_between, workspace_move_toplevel}
use uwm.Windows.Listed.{IsSession}
use uwm.Windows.Fullscreen.{toggle_fullscreen}
use uwm.Windows.Fullscreen.Covered.{Toggled}
use uwm.Windows.Fullscreen.Toggled.{toggle_fullscreen-Toggled}
use uwm.Windows.Moved.{Moved, move_between-Moved}

-- The flags behind toggle_fullscreen of a fullscreen window.
abbrev pub restored : Frame → Frame
restored fr =
    if fr.fullscreen
    then record fr { fullscreen = false; floating = fr.saved_floating || fr.floating }
    else fr

-- The session behind the move, for a window that may have been fullscreen.
abbrev pub MovedFrom :
    (ℕ → Option Tree) → (ℕ → Bool) → ℕ → Session → (new : ℕ) → Option Session → Type 0
MovedFrom F mapped t s new r =
    (s' : Session) × (F' : ℕ → Option Tree) × (free : List ℕ) × (r ≡ some s')
    × IsSession s' F' free mapped
    × (s'.frames ≡ update s.frames t (record (restored (s.frames t)) { workspace = new }))
    × ((s'.spaces new).tree.focused ≡ some t)
    × ((x : ℕ) → (x == (s.frames t).workspace) ≡ false → (x == new) ≡ false → F' x ≡ F x)

module _ (entered : Link → Link → Link) (k : ℕ) (mapped : ℕ → Bool) (t : ℕ) (m : mapped t ≡ true)
    (s : Session) (F : ℕ → Option Tree) (n i : ℕ) (free : List ℕ)
    (v : IsSession s F (n ∷ i ∷ free) mapped) (new : ℕ)
    (ne : (new == (s.frames t).workspace) ≡ false) (low : (x : ℕ) → 3 + height (F x) < k) where
  -- Behind toggle_fullscreen.
  toggled_part :
      (s.frames t).fullscreen ≡ true
      → Toggled F (n ∷ i ∷ free) mapped t s (toggle_fullscreen entered k t s)
      → MovedFrom F mapped t s new (
          Option.bind
            (toggle_fullscreen entered k t s)
            (move_between entered k (s.frames t).workspace new t))
  unfolding Option.bind
  toggled_part fs (s₁, e, v₁, frames, _) =
      subst
        (λ r.
          MovedFrom F mapped t s new
            (Option.bind r (move_between entered k (s.frames t).workspace new t)))
        (sym e)
        (moved (
          subst (λ w. Moved entered k mapped t m s₁ F new (move_between entered k w new t s₁)) home
            (move_between-Moved entered k mapped t m s₁ F n i free v₁ new
              (ap (λ x. new == x) home ∙ ne)
              (ap (λ (f : Frame). f.fullscreen) (at ∙ if_true _ _ fs)) low)))
    where
      at : s₁.frames t ≡ restored (s.frames t)
      at =
          ap (λ (f : ℕ → Frame). f t) frames
          ∙ update_self s.frames t _
          ∙ if_true _ _ fs
          ∙ sym (if_true _ _ fs)

      home : (s₁.frames t).workspace ≡ (s.frames t).workspace
      home = ap (λ (f : Frame). f.workspace) (at ∙ if_true _ _ fs)

      moved :
          Moved entered k mapped t m s₁ F new
            (move_between entered k (s.frames t).workspace new t s₁)
          → MovedFrom F mapped t s new (move_between entered k (s.frames t).workspace new t s₁)
      moved (s', F', free', e, v', fr, fo, trees) = (
        s',
        F',
        free',
        e,
        v',
        fr
            ∙ ap (λ f. update s₁.frames t (record f { workspace = new })) at
            ∙ ap (λ f. update f t (record (restored (s.frames t)) { workspace = new })) frames
            ∙ update_twice s.frames t _ _,
        fo,
        λ x no. trees x (ap (λ y. x == y) home ∙ no),
      )

  all_parts : MovedFrom F mapped t s new (
      Option.bind
        (if (s.frames t).fullscreen then toggle_fullscreen entered k t s else some s)
        (move_between entered k (s.frames t).workspace new t))
  unfolding Option.bind
  all_parts = elim (Bool-cases (s.frames t).fullscreen) [
    | inl e ↦
        subst (λ r. MovedFrom F mapped t s new (Option.bind r between)) (sym (if_true _ _ e))
          (toggled_part e (
            toggle_fullscreen-Toggled entered k mapped t s F (n ∷ i ∷ free) m v
              (omega (arith, low (s.frames t).workspace))))
    | inr e ↦
        let (s', F', free', q, v', fr, fo, trees) =
          move_between-Moved entered k mapped t m s F n i free v new ne e low in
        subst (λ r. MovedFrom F mapped t s new (Option.bind r between)) (sym (if_false _ _ e))
          (
            s',
            F',
            free',
            q,
            v',
            fr ∙ ap (λ f. update s.frames t (record f { workspace = new })) (sym (if_false _ _ e)),
            fo,
            trees,
          )
  ]
    where
      between : Session → Option Session
      between = move_between entered k (s.frames t).workspace new t

-- workspace_move_toplevel of a mapped window, in a session whose windows stand where they should,
-- with two nodes free in the pool and enough fuel, returns. The session is as it was if the number
-- is out of range or the window's own workspace. Otherwise the invariant holds of it; the window has
-- the new workspace, where it is the focused window and stands on its list, it is not fullscreen and
-- floats if it did or if it did before it was fullscreen; no other window has changed its workspace
-- or its flags, and the trees of all other workspaces are the same.
pub workspace_move_toplevel-Moved :
    (entered : Link → Link → Link) (k : ℕ) (mapped : ℕ → Bool) (t : ℕ) (s : Session)
    (F : ℕ → Option Tree) (n i : ℕ) (free : List ℕ) (new : ℕ)
    → mapped t ≡ true
    → IsSession s F (n ∷ i ∷ free) mapped
    → ((x : ℕ) → 3 + height (F x) < k)
    → let r = workspace_move_toplevel entered k t new s in
      (((workspace_count ≤ new) ⊎ (new ≡ (s.frames t).workspace)) × (r ≡ some s))
      ⊎ ((new < workspace_count) × ¬ (new ≡ (s.frames t).workspace) × MovedFrom F mapped t s new r)
unfolding workspace_move_toplevel
workspace_move_toplevel-Moved entered k mapped t s F n i free new m v low =
    elim (Bool-cases (leb workspace_count new)) [
      | inl big ↦ inl (inl (leb→le workspace_count new big), if_true _ _ big)
      | inr small ↦ elim (Bool-cases ((s.frames t).workspace == new)) [
        | inl same ↦ inl (
          inr (sym ((==_iff (s.frames t).workspace new).0 same)),
          if_false _ _ small ∙ if_true _ _ same,
        )
        | inr ne ↦ inr (
          below new small,
          λ q. true_ne_false (sym ((==_iff (s.frames t).workspace new).1 (sym q)) ∙ ne),
          subst (MovedFrom F mapped t s new) (sym (if_false _ _ small ∙ if_false _ _ ne)) (
              all_parts entered k mapped t m s F n i free v new
                (ne_sym (s.frames t).workspace new ne) low),
        )
      ]
    ]
  where
    below : (n : ℕ) → leb workspace_count n ≡ false → n < workspace_count
    below n e = ground arith
