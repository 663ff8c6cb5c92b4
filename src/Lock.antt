-- ===== src/Lock.antt =====
-- The session lock, src/shell/session_lock.c, as a state machine: its handlers, and the runs in which
-- wlroots calls them. Calls of wlroots are recorded as effects, latest first. A lock, an output and
-- a window are numbers.
pub mod Locked
mod Tests
use uwm.Base.{
  ℕ, ◌≡◌, Bool, true, false, Option, none, some, List, [], ◌∷◌, ◌==◌, Link, if◌then◌else◌,
}

pub data Effect : Type 0 where
  clear_focus send_locked : Effect
  focus_toplevel : ℕ → Effect
  configure : (output : ℕ) → Effect
  notify_enter : (output : ℕ) → Effect
  destroy_lock : ℕ → Effect

-- `listening` says that the handlers of the lock's own events are attached, `lock_surface` which
-- outputs have a lock surface, `focused` is the focused window of the current workspace.
pub record State : Type 0 where
  pub lock : Link
  pub locked : Bool
  pub listening : Bool
  pub lock_surface : ℕ → Bool
  pub focused : Link
  pub effects : List Effect

abbrev pub set_surface : (ℕ → Bool) → ℕ → Bool → ℕ → Bool
set_surface f o v p = if p == o then v else f p

-- A second lock is destroyed while one is held.
unfoldable pub handle_new_lock : State → ℕ → State
handle_new_lock s l = elim s.lock [
  | some held ↦ record s { effects = destroy_lock l ∷ s.effects }
  | none ↦ record s {
    lock = some l;
    locked = true;
    listening = true;
    effects = send_locked ∷ clear_focus ∷ s.effects;
  }
]

-- `created` says whether the scene tree of the surface could be created, `keyboard` whether the seat
-- has a keyboard.
unfoldable pub handle_new_lock_surface : (created keyboard : Bool) → State → (output : ℕ) → State
handle_new_lock_surface false keyboard s o = s
handle_new_lock_surface true false s o = record s {
  lock_surface = set_surface s.lock_surface o true;
  effects = configure o ∷ s.effects;
}
handle_new_lock_surface true true s o = record s {
  lock_surface = set_surface s.lock_surface o true;
  effects = notify_enter o ∷ configure o ∷ s.effects;
}

unfoldable pub handle_lock_surface_destroy : State → (output : ℕ) → State
handle_lock_surface_destroy s o = record s { lock_surface = set_surface s.lock_surface o false }

abbrev pub focus_if : Link → List Effect → List Effect
focus_if none es = es
focus_if (some t) es = focus_toplevel t ∷ es

unfoldable pub handle_lock_unlock : State → State
handle_lock_unlock s = record s {
  lock = none;
  locked = false;
  listening = false;
  effects = focus_if s.focused (clear_focus ∷ s.effects);
}

-- The lock's client is gone; the screen stays locked.
unfoldable pub handle_lock_destroy : State → State
handle_lock_destroy s = record s {
  lock = none;
  listening = false;
  effects = clear_focus ∷ s.effects;
}

-- What session_lock_create leaves, where the manager could be created.
abbrev pub session_lock_create : Link → State
session_lock_create focused = record {
  lock = none;
  locked = false;
  listening = false;
  lock_surface = λ o. false;
  focused = focused;
  effects = [];
}

-- One event. The events of a lock reach the handlers only while they are attached. In between the
-- focus of the workspace may change.
pub data Step : Bool → State → State → Type 0 where
  new_lock : (s : State) (l : ℕ) → Step false s (handle_new_lock s l)
  new_surface :
      (s : State) (created keyboard : Bool) (o : ℕ)
      → s.listening ≡ true
      → Step false s (handle_new_lock_surface created keyboard s o)
  surface_destroy : (s : State) (o : ℕ) → Step false s (handle_lock_surface_destroy s o)
  unlock : (s : State) → s.listening ≡ true → Step true s (handle_lock_unlock s)
  lock_destroy : (s : State) → s.listening ≡ true → Step false s (handle_lock_destroy s)
  refocus : (s : State) (t : Link) → Step false s (record s { focused = t })

-- A run, and whether a client unlocked the session in it.
pub data Run : Bool → State → State → Type 0 where
  idle : (s : State) → Run false s s
  unlocked : {s t u : State} → (b : Bool) → Run b s t → Step true t u → Run true s u
  further : {s t u : State} → (b : Bool) → Run b s t → Step false t u → Run b s u
