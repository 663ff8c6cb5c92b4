-- ===== src/Bsp/Forest/Change.antt =====
-- The forest when one of its trees has changed.
use uwm.Base.{
  ℕ, ◌≡◌, sym, ap, ◌∙◌, inl, inr, true, false, Option, none, some, List, arith, ◌==◌, Bool-cases,
  true_ne_false, contains,
}
use uwm.Base.Maps.{update, update_both}
use uwm.Bsp.{Node, State, Workspace}
use uwm.Bsp.Pool.Chain.{Chain}
use uwm.Bsp.Tree.{Tree}
use uwm.Bsp.Tree.Frame.{Rep-frame, has_leaf-has}
use uwm.Bsp.Forest.{InTree, IsForest, place, ends}

pub ends-place : (b : ℕ) (O : Option Tree) → ends b O ≡ true → place b O ≡ true
ends-place b none m = m
ends-place b (some T) m = has_leaf-has b T m

InTree-frame :
    (s s' : State) (ws : Workspace) (O : Option Tree)
    → InTree s ws O
    → ((b : ℕ) → place b O ≡ true → s'.nodes b ≡ s.nodes b)
    → InTree s' ws O
InTree-frame s s' ws none v same = v
InTree-frame s s' ws (some T) (rep, root) same = (Rep-frame s.nodes s'.nodes T none rep same, root)

-- The workspace `w` shows the tree `O` now, in the state `s'`.
pub record Change (s s' : State) (F : ℕ → Option Tree) (free : List ℕ) (home : ℕ → ℕ) (w : ℕ)
    (ws' : Workspace) (O : Option Tree) : Type 0 where
  pub tree : InTree s' ws' O
  pub chain : Chain s'.nodes s'.freelist free
  pub same : (x b : ℕ) → (x == w) ≡ false → place b (F x) ≡ true → s'.nodes b ≡ s.nodes b
  pub apart : (b : ℕ) → contains b free ≡ true → place b O ≡ false
  pub apart_others : (x b : ℕ) → (x == w) ≡ false → contains b free ≡ true → place b (F x) ≡ false
  pub grows : (x b : ℕ) → (x == w) ≡ false → place b O ≡ true → place b (F x) ≡ false
  pub homes : (a u : ℕ) → ends a O ≡ true → (s'.nodes a).toplevel ≡ some u → home u ≡ w
  pub unique :
      (a b u : ℕ)
      → ends a O ≡ true
      → ends b O ≡ true
      → (s'.nodes a).toplevel ≡ some u
      → (s'.nodes b).toplevel ≡ some u
      → a ≡ b
  pub cached :
      (u c : ℕ)
      → (s'.windows u).bsp_leaf ≡ some c
      → (s'.nodes c).toplevel ≡ some u
      → ends c (update F w O (home u)) ≡ true

module _ (s s' : State) (ws : ℕ → Workspace) (F : ℕ → Option Tree) (free free' : List ℕ)
    (home : ℕ → ℕ) (w : ℕ) (ws' : Workspace) (O : Option Tree) (f : IsForest s ws F free home)
    (c : Change s s' F free' home w ws' O) where
  -- Leaves of the other trees show the windows they showed.
  old_shows :
      (x a u : ℕ)
      → (x == w) ≡ false
      → ends a (F x) ≡ true
      → (s'.nodes a).toplevel ≡ some u
      → (s.nodes a).toplevel ≡ some u
  old_shows x a u ne m e =
      sym (ap (λ (n : Node). n.toplevel) (c.same x a ne (ends-place a (F x) m))) ∙ e

  apart_here : (b x : ℕ) → (x == w) ≡ false → place b (F x) ≡ true → place b O ≡ false
  apart_here b x ne m = elim (Bool-cases (place b O)) [
    | inl i ↦ absurd (true_ne_false (sym m ∙ c.grows x b ne i))
    | inr o ↦ o
  ]

  disjoint' :
      (x y b : ℕ)
      → (y == x) ≡ false
      → place b (update F w O x) ≡ true
      → place b (update F w O y) ≡ false
  unfolding update
  disjoint' x y b ne m = elim (Bool-cases (x == w)) [
    | inl e ↦ elim (Bool-cases (y == w)) [
      | inl e' ↦ absurd (true_ne_false (sym (same e e') ∙ ne))
      | inr n' ↦ rw n' (c.grows y b n' (rw e at m))
    ]
    | inr n ↦ elim (Bool-cases (y == w)) [
      | inl e' ↦ rw e' (apart_here b x n (rw n at m))
      | inr n' ↦ rw n' (f.disjoint x y b ne (rw n at m))
    ]
  ]
    where
      same : (x == w) ≡ true → (y == w) ≡ true → (y == x) ≡ true
      same e e' = ground arith

  pub Change-IsForest : IsForest s' (update ws w ws') (update F w O) free' home
  Change-IsForest = record {
    tree =
        update_both (λ x v O. InTree s' v O) ws F w ws' O c.tree
          (λ x ne. InTree-frame s s' (ws x) (F x) (f.tree x) (λ b m. c.same x b ne m));
    chain = c.chain;
    apart = λ x b m.
        update_both (λ x v O. place b O ≡ false) ws F w ws' O (c.apart b m)
          (λ x ne. c.apart_others x b ne m) x;
    disjoint = disjoint';
    homes =
        update_both
          (λ x v O. (a u : ℕ) → ends a O ≡ true → (s'.nodes a).toplevel ≡ some u → home u ≡ x) ws F
          w ws' O c.homes (λ x ne a u m e. f.homes x a u m (old_shows x a u ne m e));
    unique =
        update_both
          (λ x v O.
            (a b u : ℕ)
            → ends a O ≡ true
            → ends b O ≡ true
            → (s'.nodes a).toplevel ≡ some u
            → (s'.nodes b).toplevel ≡ some u
            → a ≡ b)
          ws F w ws' O c.unique
          (λ x ne a b u m m' e e'.
            f.unique x a b u m m' (old_shows x a u ne m e) (old_shows x b u ne m' e'));
    cached = c.cached;
  }
