-- ===== src/Lock/Locked.antt =====
-- When the session is locked (src/shell/session_lock.c).
use uwm.Base.{
  ℕ, ◌≡◌, refl, sym, inl, inr, Bool, true, false, Option, Option-cases, true_ne_false, is_some,
}
use uwm.Lock.{
  State, Step, Run, idle, unlocked, further, new_lock, new_surface, surface_destroy, unlock,
  lock_destroy, refocus, handle_new_lock, handle_new_lock_surface, handle_lock_surface_destroy,
  handle_lock_unlock, handle_lock_destroy, session_lock_create,
}

-- The handlers are attached exactly while a lock is held, and then the session is locked.
pub record IsValid (s : State) : Type 0 where
  pub listening : s.listening ≡ is_some s.lock
  pub locked : is_some s.lock ≡ true → s.locked ≡ true

new_lock-IsValid : (s : State) (l : ℕ) → IsValid s → IsValid (handle_new_lock s l)
unfolding handle_new_lock
new_lock-IsValid s l v = elim (Option-cases s.lock) [
  | inl e ↦ rw (e, handle_new_lock) (record { listening = refl; locked = λ q. refl })
  | inr (h, e) ↦ rw (e, handle_new_lock) (record { listening = v.listening; locked = v.locked })
]

surface-IsValid :
    (created keyboard : Bool) (s : State) (o : ℕ)
    → IsValid s
    → IsValid (handle_new_lock_surface created keyboard s o)
unfolding handle_new_lock_surface
surface-IsValid false keyboard s o v = v
surface-IsValid true false s o v = record { listening = v.listening; locked = v.locked }
surface-IsValid true true s o v = record { listening = v.listening; locked = v.locked }

Step-IsValid : (b : Bool) (s t : State) → Step b s t → IsValid s → IsValid t
unfolding handle_lock_surface_destroy handle_lock_unlock handle_lock_destroy
Step-IsValid b s t (new_lock _ l) v = new_lock-IsValid s l v
Step-IsValid b s t (new_surface _ created keyboard o e) v = surface-IsValid created keyboard s o v
Step-IsValid b s t (surface_destroy _ o) v = record { listening = v.listening; locked = v.locked }
Step-IsValid b s t (unlock _ e) v = record {
  listening = refl;
  locked = λ q. absurd (true_ne_false (sym q));
}
Step-IsValid b s t (lock_destroy _ e) v = record {
  listening = refl;
  locked = λ q. absurd (true_ne_false (sym q));
}
Step-IsValid b s t (refocus _ w) v = record { listening = v.listening; locked = v.locked }

Run-IsValid : (b : Bool) (s t : State) → Run b s t → IsValid s → IsValid t
Run-IsValid b s t (idle _) v = v
Run-IsValid b s t (unlocked {t = m} b' r e) v = Step-IsValid true m t e (Run-IsValid b' s m r v)
Run-IsValid b s t (further {t = m} _ r e) v = Step-IsValid false m t e (Run-IsValid b s m r v)

new_lock-locked : (s : State) (l : ℕ) → s.locked ≡ true → (handle_new_lock s l).locked ≡ true
unfolding handle_new_lock
new_lock-locked s l h = elim (Option-cases s.lock) [
  | inl e ↦ rw (e, handle_new_lock) refl
  | inr (o, e) ↦ rw (e, handle_new_lock) h
]

surface-locked :
    (created keyboard : Bool) (s : State) (o : ℕ)
    → s.locked ≡ true
    → (handle_new_lock_surface created keyboard s o).locked ≡ true
unfolding handle_new_lock_surface
surface-locked false keyboard s o h = h
surface-locked true false s o h = h
surface-locked true true s o h = h

Step-locked : (b : Bool) (s t : State) → b ≡ false → Step b s t → s.locked ≡ true → t.locked ≡ true
unfolding handle_lock_surface_destroy handle_lock_destroy
Step-locked b s t n (new_lock _ l) h = new_lock-locked s l h
Step-locked b s t n (new_surface _ created keyboard o e) h = surface-locked created keyboard s o h
Step-locked b s t n (surface_destroy _ o) h = h
Step-locked b s t n (unlock _ e) h = absurd (true_ne_false n)
Step-locked b s t n (lock_destroy _ e) h = h
Step-locked b s t n (refocus _ w) h = h

Run-locked : (b : Bool) (s t : State) → b ≡ false → Run b s t → s.locked ≡ true → t.locked ≡ true
Run-locked b s t n (idle _) h = h
Run-locked b s t n (unlocked b' r e) h = absurd (true_ne_false n)
Run-locked b s t n (further {t = m} _ r e) h = Step-locked false m t refl e (Run-locked b s m n r h)

-- Once a lock is held, in any run from the start, the session stays locked in every run in which no
-- client unlocks it, whatever happens in between: other locks, surfaces, and the end of the lock's
-- client. Throughout, the handlers of a lock are attached exactly while one is held.
pub locked_until_unlock :
    (b : Bool) (focused : Option ℕ) (s t : State)
    → Run b (session_lock_create focused) s
    → is_some s.lock ≡ true
    → Run false s t
    → (t.locked ≡ true) × (t.listening ≡ is_some t.lock)
locked_until_unlock b focused s t r held q =
    let v = Run-IsValid b (session_lock_create focused) s r start in
    (Run-locked false s t refl q (v.locked held), (Run-IsValid false s t q v).listening)
  where
    start : IsValid (session_lock_create focused)
    start = record { listening = refl; locked = λ q. absurd (true_ne_false (sym q)) }
