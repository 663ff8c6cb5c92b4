-- ===== src/Windows/Fullscreen/Frames.antt =====
-- The flags of a window change (toggle_fullscreen of src/wm/floating.c) and the invariant of the
-- session.
use uwm.Base.{
  ℕ, ◌≡◌, refl, sym, ap, ◌∙◌, Bool, true, false, ◌&&◌, Option, List, ◌==◌, true_ne_false,
}
use uwm.Base.Maps.{update, update_one, update_self, update_twice}
use uwm.Base.Counts.{one}
use uwm.Bsp.Tree.{Tree}
use uwm.Windows.{Frame, Session, set_frame}
use uwm.Windows.Listed.{on_tiled, IsSession, Forest-view}

-- A count that reads a flag sees only the flag of a mapped window.
one_same : (m a b c : Bool) → (m && a) ≡ (m && b) → one (m && (b && c)) ≡ one (m && (a && c))
one_same true true true c e = refl
one_same true true false c e = absurd (true_ne_false e)
one_same true false true c e = absurd (true_ne_false (sym e))
one_same true false false c e = refl
one_same false a b c e = refl

-- New flags that put a mapped window on the same list keep the invariant, and so do any flags of a
-- window that is not mapped.
pub set_frame-IsSession :
    (s : Session) (F : ℕ → Option Tree) (free : List ℕ) (mapped : ℕ → Bool) (t : ℕ) (fr : Frame)
    → IsSession s F free mapped
    → fr.workspace ≡ (s.frames t).workspace
    → (mapped t && on_tiled (s.frames t)) ≡ (mapped t && on_tiled fr)
    → (mapped t && (s.frames t).floating) ≡ (mapped t && fr.floating)
    → IsSession (set_frame t fr s) F free mapped
unfolding set_frame
set_frame-IsSession s F free mapped t fr v home tiled floating = record {
  forest =
      Forest-view s.pool (λ w. (s.spaces w).tree) (λ w. (s.spaces w).tree) F free
        (λ u. (s.frames u).workspace) (λ u. (update s.frames t fr u).workspace) v.forest (λ w. refl)
        (λ w a u m e. stays u);
  focused = λ w u e. stays u ∙ v.focused w u e;
  tiled = λ w u. v.tiled w u ∙ counted on_tiled tiled w u;
  floating = λ w u. v.floating w u ∙ counted (λ f. f.floating) floating w u;
  matches = v.matches;
}
  where
    stays : (u : ℕ) → (update s.frames t fr u).workspace ≡ (s.frames u).workspace
    stays =
        update_one (λ u (f : Frame). f.workspace ≡ (s.frames u).workspace) s.frames t fr home
          (λ u ne. refl)

    counted :
        (f : Frame → Bool)
        → (mapped t && f (s.frames t)) ≡ (mapped t && f fr)
        → (w u : ℕ)
        → one (mapped u && (f (s.frames u) && w == (s.frames u).workspace))
          ≡ one
              (mapped u && (f (update s.frames t fr u) && w == (update s.frames t fr u).workspace))
    counted f e w =
        update_one
          (λ u (x : Frame).
            one (mapped u && (f (s.frames u) && w == (s.frames u).workspace))
            ≡ one (mapped u && (f x && w == x.workspace)))
          s.frames t fr
          (sym (one_same (mapped t) (f (s.frames t)) (f fr) (w == (s.frames t).workspace) e)
            ∙ ap (λ x. one (mapped t && (f fr && w == x))) (sym home))
          (λ u ne. refl)

-- Two writes of the flags, the second one on top of the first.
pub set_frame_twice :
    (s : Session) (t : ℕ) (fr : Frame) (f : Frame → Frame)
    → set_frame t (f ((set_frame t fr s).frames t)) (set_frame t fr s) ≡ set_frame t (f fr) s
unfolding set_frame
set_frame_twice s t fr f =
    ap (λ x. record s { frames = update (update s.frames t fr) t (f x) })
      (update_self s.frames t fr)
    ∙ ap (λ g. record s { frames = g }) (update_twice s.frames t fr (f fr))

pub set_frame-at : (s : Session) (t : ℕ) (fr : Frame) → (set_frame t fr s).frames t ≡ fr
unfolding set_frame
set_frame-at s t fr = update_self s.frames t fr

-- Of a window that is not mapped the flags do not matter.
pub unmapped_flag : (m a b : Bool) → m ≡ false → (m && a) ≡ (m && b)
unmapped_flag true a b e = absurd (true_ne_false e)
unmapped_flag false a b e = refl

-- A window that stands on no list may count as mapped if its flags put it on none.
pub off_lists-IsSession :
    (s : Session) (F : ℕ → Option Tree) (free : List ℕ) (mapped : ℕ → Bool) (t : ℕ)
    → IsSession s F free (update mapped t false)
    → on_tiled (s.frames t) ≡ false
    → (s.frames t).floating ≡ false
    → IsSession s F free mapped
off_lists-IsSession s F free mapped t v tiled floating = record {
  forest = v.forest;
  focused = v.focused;
  tiled = λ w u. v.tiled w u ∙ counted on_tiled tiled w u;
  floating = λ w u. v.floating w u ∙ counted (λ f. f.floating) floating w u;
  matches = v.matches;
}
  where
    none_there : (m a c : Bool) → a ≡ false → 0 ≡ one (m && (a && c))
    none_there m true c e = absurd (true_ne_false e)
    none_there true false c e = refl
    none_there false false c e = refl

    counted :
        (f : Frame → Bool)
        → f (s.frames t) ≡ false
        → (w u : ℕ)
        → one (update mapped t false u && (f (s.frames u) && w == (s.frames u).workspace))
          ≡ one (mapped u && (f (s.frames u) && w == (s.frames u).workspace))
    counted f e w =
        update_one
          (λ u (b : Bool).
            one (b && (f (s.frames u) && w == (s.frames u).workspace))
            ≡ one (mapped u && (f (s.frames u) && w == (s.frames u).workspace)))
          mapped t false (none_there (mapped t) _ _ e) (λ u ne. refl)
