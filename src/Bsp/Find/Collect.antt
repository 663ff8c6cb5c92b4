-- ===== src/Bsp/Find/Collect.antt =====
-- What bsp_collect_leaves (src/wm/bsp.c) gathers of a tree.
use uwm.Base.{
  ℕ, zero, suc, ◌-◌, ◌<◌, ◌≡◌, refl, sym, ap, ◌∙◌, inl, inr, true, some, List, [], ◌∷◌, ◌++◌, arith,
  leb, Link, length, take, length-append, length-take, Bool-cases,
}
use uwm.Base.Appends.{append_nil, append_assoc}
use uwm.Bsp.{Nodes}
use uwm.Bsp.Find.{collect_leaves}
use uwm.Bsp.Tree.{Tree, leaf, branch, addr, depth, Rep}

-- The leaves of a tree from left to right.
abbrev pub leaves : Tree → List ℕ
leaves (leaf a w) = a ∷ []
leaves (branch a sp l r) = leaves l ++ leaves r

take-append : (n : ℕ) (xs ys : List ℕ) → take n (xs ++ ys) ≡ take n xs ++ take (n - length xs) ys
take-append n [] ys = rw (minus_zero n) (take_zero n)
  where
    minus_zero : (n : ℕ) → n - 0 ≡ n
    minus_zero n = omega arith

    take_zero : (n : ℕ) → take n ys ≡ take n [] ++ take n ys
    take_zero zero = refl
    take_zero (suc n) = refl
take-append zero (x ∷ xs) ys = rw (nothing (length xs)) refl
  where
    nothing : (m : ℕ) → 0 - suc m ≡ 0
    nothing m = omega arith
take-append (suc n) (x ∷ xs) ys = rw (less n (length xs)) (ap (λ l. x ∷ l) (take-append n xs ys))
  where
    less : (n m : ℕ) → suc n - suc m ≡ n - m
    less n m = omega arith

-- The room that is left behind the first part.
room_behind :
    (capacity : ℕ) (acc xs : List ℕ)
    → length acc < capacity
    → (ys : List ℕ)
    → take (capacity - length (acc ++ take (capacity - length acc) xs)) ys
      ≡ take (capacity - length acc - length xs) ys
room_behind capacity acc xs lt ys =
    ap (λ n. take n ys)
      (omega (
        arith,
        length-append acc (take (capacity - length acc) xs),
        length-take (capacity - length acc) xs,
      ))

collect_full :
    (k : ℕ) (h : Nodes) (a : ℕ) (acc : List ℕ) (capacity : ℕ) (xs : List ℕ)
    → leb capacity (length acc) ≡ true
    → collect_leaves (suc k) h (some a) acc capacity ≡ some (acc ++ take (capacity - length acc) xs)
unfolding collect_leaves
collect_full k h a acc capacity xs t =
    rw (t, collect_leaves) (ap some (sym (ap (λ n. acc ++ take n xs) none_left ∙ append_nil acc)))
  where
    none_left : capacity - length acc ≡ 0
    none_left = ground arith

-- On a tree, with more fuel than its depth, bsp_collect_leaves returns, and appends its leaves from
-- left to right to those that are gathered already, as far as the capacity goes.
pub collect_leaves-leaves :
    (k : ℕ) (h : Nodes) (T : Tree) (p : Link) (acc : List ℕ) (capacity : ℕ)
    → Rep h p T
    → depth T < k
    → collect_leaves k h (some (addr T)) acc capacity
      ≡ some (acc ++ take (capacity - length acc) (leaves T))
unfolding collect_leaves
collect_leaves-leaves zero h T p acc capacity v lt = absurd (omega arith)
collect_leaves-leaves (suc k) h (leaf a w) p acc capacity v lt =
    elim (Bool-cases (leb capacity (length acc))) [
      | inl t ↦ collect_full k h a acc capacity (a ∷ []) t
      | inr e ↦
          rw (e, collect_leaves)
            (rw (v.first, collect_leaves) (ap some (one (capacity - length acc) (ground arith))))
    ]
  where
    one : (n : ℕ) → 0 < n → acc ++ a ∷ [] ≡ acc ++ take n (a ∷ [])
    one zero lt = absurd (omega arith)
    one (suc zero) lt = refl
    one (suc (suc n)) lt = refl
collect_leaves-leaves (suc k) h (branch a sp l r) p acc capacity (n, _, _, _, vl, vr) lt =
    elim (Bool-cases (leb capacity (length acc))) [
      | inl t ↦ collect_full k h a acc capacity (leaves l ++ leaves r) t
      | inr e ↦
          rw (e, collect_leaves)
            (rw (n.first, collect_leaves)
              (rw
                (collect_leaves-leaves k h l (some a) acc capacity vl (omega arith), collect_leaves)
                (rw n.second (
                  collect_leaves-leaves k h r (some a)
                    (acc ++ take (capacity - length acc) (leaves l)) capacity vr (omega arith)
                  ∙ ap some (
                      append_assoc acc (take (capacity - length acc) (leaves l)) _
                      ∙ ap (λ z. acc ++ z)
                          (ap (λ z. take (capacity - length acc) (leaves l) ++ z)
                              (room_behind capacity acc (leaves l) (ground arith) (leaves r))
                            ∙ sym (take-append (capacity - length acc) (leaves l) (leaves r))))))))
    ]
