-- ===== src/Launcher/Skim.antt =====
-- Lists that are scanned twice, for the filter of tools/ulaunch/src/filter.c.
use mathlib.Core.List.{filter_map}
use uwm.Base.{
  ℕ, ◌≡◌, refl, sym, ap, subst, ◌∙◌, inl, inr, true, ◌&&◌, Option, none, some, List, [], ◌∷◌, ◌++◌,
  map, ◌==◌, length, drop, arith, Bool-cases, Option-cases, ==_iff, true_ne_false,
}
use uwm.Launcher.Filter.{prefix_eq}

pub prefix_eq_lem : (xs ys : List ℕ) → prefix_eq xs ys ≡ true → ys ≡ xs ++ drop (length xs) ys
prefix_eq_lem [] ys e = refl
prefix_eq_lem (x ∷ xs) [] e = absurd (true_ne_false (sym e))
prefix_eq_lem (x ∷ xs) (y ∷ ys) e = elim (Bool-cases (x == y)) [
  | inl t ↦
      ap2 (sym ((==_iff x y).0 t))
        (prefix_eq_lem xs ys (subst (λ b. b && prefix_eq xs ys ≡ true) t e))
  | inr q ↦ absurd (true_ne_false (sym (subst (λ b. b && prefix_eq xs ys ≡ true) q e)))
]
  where
    ap2 : {a b : ℕ} {as' bs : List ℕ} → a ≡ b → as' ≡ bs → a ∷ as' ≡ b ∷ bs
    ap2 p q = cc

module _ {A : Type 0} {B : Type 0} (g : A → Option B) where
  drop_none : (x : A) (xs : List A) → g x ≡ none → filter_map g (x ∷ xs) ≡ filter_map g xs
  unfolding filter_map
  drop_none x xs e = rw (e, filter_map) refl

  keep_some :
      (x : A) (xs : List A) (b : B) → g x ≡ some b → filter_map g (x ∷ xs) ≡ b ∷ filter_map g xs
  unfolding filter_map
  keep_some x xs b e = rw (e, filter_map) refl

  pub same_head :
      (x : A) (xs ys : List A)
      → filter_map g xs ≡ filter_map g ys
      → filter_map g (x ∷ xs) ≡ filter_map g (x ∷ ys)
  same_head x xs ys e = elim (Option-cases (g x)) [
    | inl q ↦ drop_none x xs q ∙ e ∙ sym (drop_none x ys q)
    | inr (b, q) ↦ keep_some x xs b q ∙ ap (λ l. b ∷ l) e ∙ sym (keep_some x ys b q)
  ]

abbrev pub numbers : {F : Type 0} → List (ℕ × F) → List ℕ
numbers xs = map (λ p. p.0) xs

pub length_zero : (xs : List ℕ) → length xs ≡ 0 → xs ≡ []
length_zero [] e = refl
length_zero (x ∷ xs) e = absurd (ground arith)

-- A second scan that keeps no more than the first can start from what the first kept.
pub skim :
    {F : Type 0} (g g' : ℕ → Option (ℕ × F))
    → ((i : ℕ) → g' i ≡ none → g i ≡ none)
    → ((i : ℕ) (p : ℕ × F) → g' i ≡ some p → p.0 ≡ i)
    → (xs : List ℕ) → filter_map g (numbers (filter_map g' xs)) ≡ filter_map g xs
unfolding filter_map
skim g g' n k [] = refl
skim g g' n k (x ∷ xs) = elim (Option-cases (g' x)) [
  | inl e ↦ rw (drop_none g' x xs e) (skim g g' n k xs ∙ sym (drop_none g x xs (n x e)))
  | inr (p, e) ↦ rw (keep_some g' x xs p e) (rw (k x p e) (same_head g x _ _ (skim g g' n k xs)))
]

-- A scan that keeps every entry.
pub keep_all :
    {F : Type 0} (g : ℕ → Option (ℕ × F)) (z : F)
    → ((i : ℕ) → (x : F) × (g i ≡ some (i, x)))
    → (xs : List ℕ) → numbers (filter_map g xs) ≡ numbers (map (λ i. (i, z)) xs)
unfolding filter_map
keep_all g z h [] = refl
keep_all g z h (x ∷ xs) = rw (keep_some g x xs _ (h x).1) (ap (λ l. x ∷ l) (keep_all g z h xs))
