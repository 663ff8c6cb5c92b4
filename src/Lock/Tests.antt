-- ===== src/Lock/Tests.antt =====
-- A client locks the session and is gone without an unlock.
use uwm.Base.{◌≡◌, refl, true, false, some, is_some}
use uwm.Lock.{
  State, idle, further, new_lock, lock_destroy, handle_new_lock, handle_lock_destroy,
  session_lock_create,
}
use uwm.Lock.Locked.{locked_until_unlock}

abbrev start : State
start = session_lock_create (some 7)

locked_until_unlock_example :
    let t = handle_lock_destroy (handle_new_lock start 1) in
    (t.locked ≡ true) × (t.listening ≡ is_some t.lock)
unfolding handle_new_lock handle_lock_destroy
locked_until_unlock_example =
    locked_until_unlock false (some 7) (handle_new_lock start 1)
      (handle_lock_destroy (handle_new_lock start 1))
      (further false (idle start) (new_lock start 1)) refl
      (further false (idle (handle_new_lock start 1)) (lock_destroy (handle_new_lock start 1) refl))
