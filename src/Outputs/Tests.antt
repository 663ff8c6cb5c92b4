-- ===== src/Outputs/Tests.antt =====
-- The theorems on outputs and workspaces at two outputs: output 0 shows workspace 0 and output 1
-- shows workspace 1.
use uwm.Base.{
  ℕ, zero, suc, ◌<◌, ◌≡◌, refl, ◌⊎◌, inl, true, false, Option, none, some, [], ◌∷◌, arith, ◌==◌,
  ◌+◌, ◌%◌, ◌≤◌, contains,
}
use uwm.Outputs.{
  Server, workspace_switch, workspaceprev, output_set_workspace, find_unused_workspace,
  workspace_count, workspace_next_active, workspace_next, workspace_is_active, current_id,
}
use uwm.Outputs.Switch.{
  IsConsistent, output_set_workspace_shows, IsMatched, output_set_workspace-IsMatched,
  output_set_workspace_swap,
}
use uwm.Outputs.Back.{workspaceprev-workspace_switch}
use uwm.Outputs.Cycle.{IsShown, workspace_next_active_nearest, find_unused_workspace_least}

abbrev shows : ℕ → ℕ
shows zero = 0
shows _ = 1

abbrev on : ℕ → Option ℕ
on zero = some 0
on (suc zero) = some 1
on _ = none

abbrev two : Server
two = record {
  outputs = 0 ∷ 1 ∷ [];
  current_workspace = shows;
  output = on;
  has_windows = λ w. w == 4;
  tiled = λ w. w == 4;
  active_output = some 0;
  current = 0;
  last = 0;
  events = [];
}

two-IsConsistent : IsConsistent two
two-IsConsistent zero m = refl
two-IsConsistent (suc zero) m = refl
two-IsConsistent (suc (suc p)) m = absurd (ground arith)

two-IsMatched : IsMatched two
two-IsMatched = record { shown = two-IsConsistent; known = known }
  where
    known : (w p : ℕ) → on w ≡ some p → (contains p (0 ∷ 1 ∷ []) ≡ true) × (shows p ≡ w)
    known zero p e = let z : 0 ≡ p = cc in rw (← z) (refl, refl)
    known (suc zero) p e = let z : 1 ≡ p = cc in rw (← z) (refl, refl)
    known (suc (suc w)) p e = cc

output_set_workspace_shows_example :
    let s' = output_set_workspace two 0 4 in
    (s'.current_workspace 0 ≡ 4)
    × (s'.output 4 ≡ some 0)
    × ((◌≡◌ {A = ℕ} 0 4 × ◌≡◌ {A = Option ℕ} none (some 0) × (s' ≡ two))
        ⊎ ((¬ (◌≡◌ {A = ℕ} 0 4 × ◌≡◌ {A = Option ℕ} none (some 0)))
            × (s'.active_output ≡ some 0)
            × (s'.current ≡ 4)
            × (s'.last ≡ 0)
            × (◌≡◌ {A = ℕ} 0 4 ⊎ (¬ (s'.output 0 ≡ some 0)))))
output_set_workspace_shows_example = output_set_workspace_shows two 0 4 (omega arith)

output_set_workspace-IsMatched_example : IsMatched (output_set_workspace two 0 4)
output_set_workspace-IsMatched_example =
    output_set_workspace-IsMatched two 0 4 (omega arith) two-IsMatched refl (inl refl)

output_set_workspace_swap_example :
    let s' = output_set_workspace two 0 1 in
    (s'.current_workspace 1 ≡ 0) × (s'.output (s'.current_workspace 1) ≡ none) × (¬ IsConsistent s')
output_set_workspace_swap_example =
    output_set_workspace_swap two 0 1 1 two-IsConsistent refl refl refl refl (omega arith)

workspaceprev-workspace_switch_example :
    let s' = workspaceprev (workspace_switch two 4) in
    (s'.current_workspace 0 ≡ 0)
    × (s'.output 0 ≡ some 0)
    × (s'.output 4 ≡ none)
    × (s'.current ≡ 0)
    × (s'.last ≡ 4)
workspaceprev-workspace_switch_example =
    workspaceprev-workspace_switch two 0 4 refl refl refl refl (omega arith) (omega arith)

workspace_next_active_nearest_example :
    ((k : ℕ) × (1 ≤ k)
      × (k < workspace_count)
      × (workspace_is_active two ((0 + k) % workspace_count) ≡ true)
      × ((j : ℕ) → 1 ≤ j → j < k → workspace_is_active two ((0 + j) % workspace_count) ≡ false)
      × (workspace_next_active two ≡ workspace_switch two ((0 + k) % workspace_count)))
    ⊎ (((j : ℕ)
          → 1 ≤ j
          → j < workspace_count
          → workspace_is_active two ((0 + j) % workspace_count) ≡ false)
        × (workspace_next_active two ≡ workspace_next two))
unfolding current_id
workspace_next_active_nearest_example = workspace_next_active_nearest two

find_unused_workspace_least_example :
    let r = find_unused_workspace two in
    (r < workspace_count)
    × (((¬ IsShown two r) × ((j : ℕ) → j < r → IsShown two j))
        ⊎ ((r ≡ 0) × ((j : ℕ) → j < workspace_count → IsShown two j)))
find_unused_workspace_least_example = find_unused_workspace_least two
