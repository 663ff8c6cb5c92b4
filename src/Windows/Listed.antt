-- ===== src/Windows/Listed.antt =====
-- The invariant of the session: on which list and in which tree each window stands (src/wm/window.c,
-- src/wm/workspace.c, src/wm/floating.c), and what does not touch it.
use uwm.Base.{
  ℕ, ◌≡◌, refl, sym, subst, ◌∙◌, Bool, true, false, not, ◌&&◌, Option, none, some, List, ◌==◌,
  if◌then◌else◌,
}
use uwm.Base.Maps.{update_one}
use uwm.Base.Counts.{one, count}
use uwm.Bsp.{State, Workspace}
use uwm.Bsp.Tree.{Tree}
use uwm.Bsp.Forest.{IsForest, InTree, ends, shown}
use uwm.Windows.{Frame, Space, Session, ScreenCall, say, set_space}

-- On the tiled list: neither floating nor fullscreen behind a floating life.
abbrev pub on_tiled : Frame → Bool
on_tiled fr = not fr.floating && not (fr.fullscreen && fr.saved_floating)

-- Every mapped window stands once on one list, that of the tiled or of the floating windows of its
-- own workspace, but for a fullscreen window that was floating, which stands on none; windows that
-- are not mapped stand on none. The tree of a workspace shows exactly the windows of its tiled list,
-- and a workspace's focused window is one of its own.
pub record IsSession (s : Session) (F : ℕ → Option Tree) (free : List ℕ) (mapped : ℕ → Bool)
    : Type 0 where
  pub forest : IsForest s.pool (λ w. (s.spaces w).tree) F free (λ t. (s.frames t).workspace)
  pub focused : (w u : ℕ) → (s.spaces w).tree.focused ≡ some u → (s.frames u).workspace ≡ w
  pub tiled :
      (w u : ℕ)
      → count u (s.toplevels w)
        ≡ one (mapped u && (on_tiled (s.frames u) && w == (s.frames u).workspace))
  pub floating :
      (w u : ℕ)
      → count u (s.floating_windows w)
        ≡ one (mapped u && ((s.frames u).floating && w == (s.frames u).workspace))
  pub matches : (w u : ℕ) → count u (shown (F w)) ≡ count u (s.toplevels w)

InTree-root :
    (p : State) (ws ws' : Workspace) (O : Option Tree)
    → ws'.root ≡ ws.root
    → InTree p ws O
    → InTree p ws' O
InTree-root p ws ws' none e v = e ∙ v
InTree-root p ws ws' (some T) e (rep, root) = (rep, e ∙ root)

-- The forest depends on the workspaces by their roots, and on the home of a window only if a leaf
-- shows it.
pub Forest-view :
    (p : State) (ws ws' : ℕ → Workspace) (F : ℕ → Option Tree) (free : List ℕ) (home home' : ℕ → ℕ)
    → IsForest p ws F free home
    → ((w : ℕ) → (ws' w).root ≡ (ws w).root)
    → ((w a u : ℕ) → ends a (F w) ≡ true → (p.nodes a).toplevel ≡ some u → home' u ≡ home u)
    → IsForest p ws' F free home'
Forest-view p ws ws' F free home home' f roots same = record {
  tree = λ w. InTree-root p (ws w) (ws' w) (F w) (roots w) (f.tree w);
  chain = f.chain;
  apart = f.apart;
  disjoint = f.disjoint;
  homes = λ w a u m e. same w a u m e ∙ f.homes w a u m e;
  unique = f.unique;
  cached = λ u c q e.
      let m : ends c (F (home u)) ≡ true = f.cached u c q e in
      subst (λ x. ends c (F x) ≡ true) (sym (same (home u) c u m e)) m;
}

-- What only the screen sees has changed: no list, no window, no tree and no focus.
pub record Quiet (s s' : Session) : Type 0 where
  pub pool : s'.pool ≡ s.pool
  pub frames : s'.frames ≡ s.frames
  pub toplevels : s'.toplevels ≡ s.toplevels
  pub floating_windows : s'.floating_windows ≡ s.floating_windows
  pub root : (w : ℕ) → (s'.spaces w).tree.root ≡ (s.spaces w).tree.root
  pub focused : (w : ℕ) → (s'.spaces w).tree.focused ≡ (s.spaces w).tree.focused

pub Quiet-refl : (s : Session) → Quiet s s
Quiet-refl s = record {
  pool = refl;
  frames = refl;
  toplevels = refl;
  floating_windows = refl;
  root = λ w. refl;
  focused = λ w. refl;
}

pub Quiet-trans : (s s' s'' : Session) → Quiet s s' → Quiet s' s'' → Quiet s s''
Quiet-trans s s' s'' a b = record {
  pool = b.pool ∙ a.pool;
  frames = b.frames ∙ a.frames;
  toplevels = b.toplevels ∙ a.toplevels;
  floating_windows = b.floating_windows ∙ a.floating_windows;
  root = λ w. b.root w ∙ a.root w;
  focused = λ w. b.focused w ∙ a.focused w;
}

pub say-Quiet : (es : List ScreenCall) (s : Session) → Quiet s (say es s)
unfolding say
say-Quiet es s = record {
  pool = refl;
  frames = refl;
  toplevels = refl;
  floating_windows = refl;
  root = λ w. refl;
  focused = λ w. refl;
}

pub set_space-Quiet :
    (w : ℕ) (sp : Space) (s : Session)
    → sp.tree.root ≡ (s.spaces w).tree.root
    → sp.tree.focused ≡ (s.spaces w).tree.focused
    → Quiet s (set_space w sp s)
unfolding set_space
set_space-Quiet w sp s e e' = record {
  pool = refl;
  frames = refl;
  toplevels = refl;
  floating_windows = refl;
  root =
      update_one (λ x (a : Space). a.tree.root ≡ (s.spaces x).tree.root) s.spaces w sp e
        (λ x ne. refl);
  focused =
      update_one (λ x (a : Space). a.tree.focused ≡ (s.spaces x).tree.focused) s.spaces w sp e'
        (λ x ne. refl);
}

pub if_Quiet : (s a b : Session) (c : Bool) → Quiet s a → Quiet s b → Quiet s (if c then a else b)
if_Quiet s a b true x y = x
if_Quiet s a b false x y = y

-- Only the workspaces have changed, none its root.
pub IsSession-spaces :
    (s s' : Session) (F : ℕ → Option Tree) (free : List ℕ) (mapped : ℕ → Bool)
    → IsSession s F free mapped
    → s'.pool ≡ s.pool
    → s'.frames ≡ s.frames
    → s'.toplevels ≡ s.toplevels
    → s'.floating_windows ≡ s.floating_windows
    → ((w : ℕ) → (s'.spaces w).tree.root ≡ (s.spaces w).tree.root)
    → ((w u : ℕ) → (s'.spaces w).tree.focused ≡ some u → (s.frames u).workspace ≡ w)
    → IsSession s' F free mapped
IsSession-spaces s s' F free mapped v p fr tl fl roots focused = record {
  forest =
      rw (p, fr)
        (Forest-view s.pool (λ w. (s.spaces w).tree) (λ w. (s'.spaces w).tree) F free
          (λ t. (s.frames t).workspace) (λ t. (s.frames t).workspace) v.forest roots
          (λ w a u m e. refl));
  focused = λ w u e. rw fr (focused w u e);
  tiled = λ w u. rw (fr, tl) (v.tiled w u);
  floating = λ w u. rw (fr, fl) (v.floating w u);
  matches = λ w u. rw tl (v.matches w u);
}

pub IsSession-Quiet :
    (s s' : Session) (F : ℕ → Option Tree) (free : List ℕ) (mapped : ℕ → Bool)
    → Quiet s s'
    → IsSession s F free mapped
    → IsSession s' F free mapped
IsSession-Quiet s s' F free mapped q v =
    IsSession-spaces s s' F free mapped v q.pool q.frames q.toplevels q.floating_windows q.root
      (λ w u e. v.focused w u (sym (q.focused w) ∙ e))
