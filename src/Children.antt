-- ===== src/Children.antt =====
-- The table of child processes, src/core/child.c. A slot holds a process id or 0; waitpid and kill
-- answer through arguments, and the signals sent are results.
pub mod Table
mod Tests
use uwm.Base.{
  ℕ, zero, suc, Bool, true, false, Option, none, some, List, [], ◌∷◌, map, ◌==◌, if◌then◌else◌,
  ◌||◌,
}
use uwm.Base.Int.{ℤ, pos, negsuc}

-- UWM_CHILD_GRACE_TRIES
abbrev pub grace_tries : ℕ
grace_tries = 50

-- The loop of uwm_child_register: `entry` goes to the first free slot, if there is any.
unfoldable pub place : List ℕ → (entry : ℕ) → List ℕ
place [] entry = []
place (q ∷ qs) entry = let rest = place qs entry in if q == 0 then entry ∷ qs else q ∷ rest

-- `gone` says whether waitpid finds that the child has ended already.
unfoldable pub uwm_child_register : (gone : Bool) → List ℕ → ℤ → List ℕ
unfolding place
uwm_child_register gone table (negsuc n) = table
uwm_child_register gone table (pos zero) = table
uwm_child_register gone table (pos (suc n)) = place table (if gone then 0 else suc n)

unfoldable pub uwm_child_reaped : List ℕ → ℕ → List ℕ
uwm_child_reaped table pid = map (λ q. if q == pid then 0 else q) table

-- The processes of the table.
unfoldable pub live : List ℕ → List ℕ
live [] = []
live (q ∷ qs) = let rest = live qs in if q == 0 then rest else q ∷ rest

abbrev pub any_alive : (ℕ → Bool) → List ℕ → Bool
any_alive alive [] = false
any_alive alive (q ∷ qs) = alive q || any_alive alive qs

-- The tries that are left, from try `i` on: the processes that get SIGKILL. `alive i q` says whether
-- the group of `q` answers at try `i`.
unfoldable pub wait_or_kill : (alive : ℕ → ℕ → Bool) → List ℕ → (tries i : ℕ) → List ℕ
wait_or_kill alive qs zero i = qs
wait_or_kill alive qs (suc n) i =
    let rest = wait_or_kill alive qs n (suc i) in if any_alive (alive i) qs then rest else []

abbrev pub kill_after : (alive : ℕ → ℕ → Bool) → List ℕ → List ℕ
kill_after alive [] = []
kill_after alive (q ∷ qs) = wait_or_kill alive (q ∷ qs) grace_tries 0

-- The table that is left, the processes that get SIGTERM and those that get SIGKILL.
unfoldable pub uwm_children_terminate : (alive : ℕ → ℕ → Bool) → List ℕ → List ℕ × List ℕ × List ℕ
unfolding live wait_or_kill
uwm_children_terminate alive table = (map (λ q. 0) table, live table, kill_after alive (live table))
