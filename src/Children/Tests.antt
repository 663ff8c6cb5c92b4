-- ===== src/Children/Tests.antt =====
-- A table of three slots with one child, and one that stays alive.
use uwm.Base.{
  ℕ, ◌<◌, ◌≡◌, ◌≢◌, Bool, true, false, List, [], ◌∷◌, contains, ◌==◌, if◌then◌else◌, ◌⊎◌,
}
use uwm.Base.Counts.{count}
use uwm.Base.Int.{pos}
use uwm.Children.{uwm_child_register, uwm_children_terminate, grace_tries}
use uwm.Children.Table.{uwm_child_register-contains, uwm_children_terminate-signals}

abbrev slots : List ℕ
slots = 9 ∷ 0 ∷ 0 ∷ []

uwm_child_register-contains_example :
    (contains 0 slots ≡ true → contains 12 (uwm_child_register false slots (pos 12)) ≡ true)
    × ((gone : Bool) (r : ℕ)
        → r ≢ 0
        → contains r slots ≡ true
        → contains r (uwm_child_register gone slots (pos 12)) ≡ true)
uwm_child_register-contains_example = uwm_child_register-contains slots 11

uwm_children_terminate-signals_example :
    let r = uwm_children_terminate (λ i q. true) slots in
    (r.0 ≡ 0 ∷ 0 ∷ 0 ∷ [])
    × ((q : ℕ) → count q r.1 ≡ (if q == 0 then 0 else count q slots))
    × ((((i : ℕ) → i < grace_tries → (q : ℕ) × (q ≢ 0) × (contains q slots ≡ true) × (true ≡ true))
          × (r.2 ≡ r.1))
        ⊎ ((i : ℕ) × (i < grace_tries)
            × ((q : ℕ) → q ≢ 0 → contains q slots ≡ true → true ≡ false)
            × (r.2 ≡ [])))
uwm_children_terminate-signals_example = uwm_children_terminate-signals (λ i q. true) slots
