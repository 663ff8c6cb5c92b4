-- ===== src/Base/Members.antt =====
-- Membership of a number in a list, as a Boolean test.
use uwm.Base.{
  ℕ, ◌≡◌, refl, subst, ◌⊎◌, inl, inr, true, ◌||◌, List, ◌∷◌, ◌==◌, contains, Bool-cases, ==_iff,
}

pub in_cons :
    (x a : ℕ) (xs : List ℕ) → contains x (a ∷ xs) ≡ true → (x ≡ a) ⊎ (contains x xs ≡ true)
in_cons x a xs e = elim (Bool-cases (x == a)) [
  | inl t ↦ inl ((==_iff x a).0 t)
  | inr q ↦ inr (subst (λ b. b || contains x xs ≡ true) q e)
]

pub in_tail : (x a : ℕ) (xs : List ℕ) → contains x xs ≡ true → contains x (a ∷ xs) ≡ true
in_tail x a xs e = elim (Bool-cases (x == a)) [ inl t ↦ rw t refl | inr q ↦ rw q e ]

pub in_head : (a : ℕ) (xs : List ℕ) → contains a (a ∷ xs) ≡ true
in_head a xs = rw ((==_iff a a).1 refl) refl
