-- ===== src/Bsp/Nav/Nearest.antt =====
-- What the loop of bsp_nearest_in_direction (src/wm/bsp_nav.c) finds.
use uwm.Base.{
  ℕ, zero, suc, ◌<◌, ◌≤◌, arith, length, take, ◌≡◌, refl, sym, subst, ◌∙◌, inl, inr, Bool, true,
  false, none, some, List, [], ◌∷◌, Link, Bool-cases, true_ne_false, contains, ap,
}
use uwm.Base.Members.{in_cons, in_tail, in_head}
use uwm.Bsp.{Nodes, Workspace}
use uwm.Bsp.Find.{collect_leaves}
use uwm.Bsp.Find.Collect.{leaves, collect_leaves-leaves}
use uwm.Bsp.Tree.{Tree, addr, depth, Rep}
use uwm.Bsp.Nav.{Reals, nearest_loop, nearest_in_direction, is_candidate, dist, max_windows}

-- A strict order, as `<` on floats is, NaN included.
pub record IsOrder {F : Type 0} (lt : F → F → Bool) : Type 0 where
  pub irrefl : (x : F) → lt x x ≡ false
  pub trans : (x y z : F) → lt x y ≡ true → lt y z ≡ true → lt x z ≡ true

module _ {F : Type 0} (lt : F → F → Bool) (order : IsOrder lt) (cand : ℕ → Bool)
    (distance : ℕ → F) where
  -- No candidate of the list is nearer than `d`.
  abbrev pub NoneNearer : List ℕ → F → Type 0
  NoneNearer xs d = (x : ℕ) → contains x xs ≡ true → cand x ≡ true → lt (distance x) d ≡ false

  pub data Found (xs : List ℕ) (best : Link) (d : F) (r : Link) : Type 0 where
    as_before : r ≡ best → NoneNearer xs d → Found xs best d r
    nearest :
        (a : ℕ)
        → r ≡ some a
        → contains a xs ≡ true
        → cand a ≡ true
        → lt (distance a) d ≡ true
        → NoneNearer xs (distance a)
        → Found xs best d r

  NoneNearer-cons :
      (a : ℕ) (xs : List ℕ) (d : F)
      → (cand a ≡ true → lt (distance a) d ≡ false)
      → NoneNearer xs d
      → NoneNearer (a ∷ xs) d
  NoneNearer-cons a xs d h n x m e = elim (in_cons x a xs m) [
    | inl q ↦ subst (λ y. lt (distance y) d ≡ false) (sym q) (h (subst (λ y. cand y ≡ true) q e))
    | inr m ↦ n x m e
  ]

  -- An entry that is no candidate, or not nearer than the best one.
  passed :
      (a : ℕ) (xs : List ℕ) (best : Link) (d : F) (r : Link)
      → (cand a ≡ true → lt (distance a) d ≡ false)
      → Found xs best d r
      → Found (a ∷ xs) best d r
  passed a xs best d r h (as_before e n) = as_before e (NoneNearer-cons a xs d h n)
  passed a xs best d r h (nearest b e m c l n) =
      nearest b e (in_tail b a xs m) c l (NoneNearer-cons a xs (distance b) (λ q. later (h q)) n)
    where
      later : lt (distance a) d ≡ false → lt (distance a) (distance b) ≡ false
      later f = elim (Bool-cases (lt (distance a) (distance b))) [
        | inl t ↦ absurd (true_ne_false (sym (order.trans (distance a) (distance b) d t l) ∙ f))
        | inr q ↦ q
      ]

  taken :
      (a : ℕ) (xs : List ℕ) (best : Link) (d : F) (r : Link)
      → cand a ≡ true
      → lt (distance a) d ≡ true
      → Found xs (some a) (distance a) r
      → Found (a ∷ xs) best d r
  taken a xs best d r c l (as_before e n) =
      nearest a e (in_head a xs) c l
        (NoneNearer-cons a xs (distance a) (λ q. order.irrefl (distance a)) n)
  taken a xs best d r c l (nearest b e m c' l' n) =
      nearest b e (in_tail b a xs m) c' (order.trans (distance b) (distance a) d l' l)
        (NoneNearer-cons a xs (distance b) (λ q. later) n)
    where
      later : lt (distance a) (distance b) ≡ false
      later = elim (Bool-cases (lt (distance a) (distance b))) [
        | inl t ↦ absurd (
            true_ne_false (
              sym (order.trans (distance a) (distance b) (distance a) t l')
              ∙ order.irrefl (distance a)))
        | inr q ↦ q
      ]

module _ {F : Type 0} (R : Reals F) (order : IsOrder R.lt) (cand : ℕ → Bool)
    (distance : ℕ → F) where
  pub nearest_loop-Found :
      (xs : List ℕ) (best : Link) (d : F)
      → Found R.lt order cand distance xs best d (nearest_loop R cand distance xs best d)
  unfolding nearest_loop
  nearest_loop-Found [] best d = as_before refl (λ x m. absurd (true_ne_false (sym m)))
  nearest_loop-Found (a ∷ xs) best d = elim (Bool-cases (cand a)) [
    | inl t ↦ rw t (elim (Bool-cases (R.lt (distance a) d)) [
      | inl l ↦ rw l (
          taken R.lt order cand distance a xs best d _ t l
            (nearest_loop-Found xs (some a) (distance a)))
      | inr f ↦
          rw f
            (passed R.lt order cand distance a xs best d _ (λ q. f) (nearest_loop-Found xs best d))
    ])
    | inr f ↦ rw f (
        passed R.lt order cand distance a xs best d _ (λ q. absurd (true_ne_false (sym q ∙ f)))
          (nearest_loop-Found xs best d))
  ]

take_all : (n : ℕ) (xs : List ℕ) → length xs ≤ n → take n xs ≡ xs
take_all zero [] le = refl
take_all zero (x ∷ xs) le = absurd (omega arith)
take_all (suc n) [] le = refl
take_all (suc n) (x ∷ xs) le = ap (λ l. x ∷ l) (take_all n xs (omega arith))

-- The loop over the leaves of a tree.
pub nearest_in_direction-Found :
    {F : Type 0} (R : Reals F)
    → (order : IsOrder R.lt)
    → (k : ℕ) (h : Nodes) (ws : Workspace) (T : Tree) (focused_leaf dir : ℕ) → Rep h none T
    → ws.root ≡ some (addr T)
    → depth T < k
    → length (leaves T) ≤ max_windows
    → (r : Link) × (nearest_in_direction R k h ws focused_leaf dir ≡ some r)
      × Found R.lt order
          (is_candidate R h focused_leaf dir)
          (λ a. dist R (h focused_leaf) (h a) dir)
          (leaves T)
          none
          R.infinity
          r
unfolding nearest_in_direction
nearest_in_direction-Found R order k h ws T focused_leaf dir v e lt le = (
  nearest_loop R (is_candidate R h focused_leaf dir) (λ a. dist R (h focused_leaf) (h a) dir)
      (leaves T) none R.infinity,
  rw (collected, nearest_in_direction) refl,
  nearest_loop-Found R order (is_candidate R h focused_leaf dir)
      (λ a. dist R (h focused_leaf) (h a) dir) (leaves T) none R.infinity,
)
  where
    collected : collect_leaves k h ws.root [] max_windows ≡ some (leaves T)
    collected =
        ap (λ t. collect_leaves k h t [] max_windows) e
        ∙ collect_leaves-leaves k h T none [] max_windows v lt
        ∙ ap some (take_all max_windows (leaves T) le)
