-- ===== src/Base/Counts.antt =====
-- How often a number stands in a list.
use mathlib.Core.List.{Perm}
use mathlib.Core.List.{Permᴰ}
use mathlib.Core.Logic.{∥∥₁_elim}
use native.Mathlib.Nat.{ℕ_set}
use Prim.Native.Nat.{ℕ, suc, ◌+◌}
use mathlib.Core.Path.{◌≡◌, refl, ap, ◌∙◌}
use mathlib.Core.Bool.{Bool, false}
use mathlib.Core.List.{List, [], ◌∷◌}
use native.Mathlib.Omega.{arith}
use uwm.Base.Tests.{◌==◌, if◌then◌else◌}
use uwm.Base.Lists.{contains, length}

abbrev pub one : Bool → ℕ
one b = if b then 1 else 0

abbrev pub count : ℕ → List ℕ → ℕ
count u [] = 0
count u (x ∷ xs) = one (u == x) + count u xs

abbrev pub erase : ℕ → List ℕ → List ℕ
erase t [] = []
erase t (x ∷ xs) = let rest = erase t xs in if t == x then rest else x ∷ rest

pub count-erase :
    (u t : ℕ) (xs : List ℕ) → count u (erase t xs) ≡ (if u == t then 0 else count u xs)
count-erase u t [] = ground arith
count-erase u t (x ∷ xs) = ground (arith, count-erase u t xs)

pub count-erase_absent :
    (u t : ℕ) (xs : List ℕ) → count t xs ≡ 0 → count u (erase t xs) ≡ count u xs
count-erase_absent u t [] e = refl
count-erase_absent u t (x ∷ xs) e = ground (arith, count-erase_absent u t xs)

count-Permᴰ : {xs ys : List ℕ} (u : ℕ) → Permᴰ xs ys → count u xs ≡ count u ys
count-Permᴰ u Permᴰ.nil = refl
count-Permᴰ u (Permᴰ.cons {a} {b} e p) = rw e (ap (λ n. one (u == b) + n) (count-Permᴰ u p))
count-Permᴰ u (Permᴰ.swap {a} {b} {a'} {b'} {l} e f) = rw (e, f) (omega arith)
count-Permᴰ u (Permᴰ.trans p q) = count-Permᴰ u p ∙ count-Permᴰ u q

-- Permuted lists hold every number equally often.
pub count-Perm : {xs ys : List ℕ} (u : ℕ) → Perm xs ys → count u xs ≡ count u ys
count-Perm {xs} {ys} u p = ∥∥₁_elim p (ℕ_set (count u xs) (count u ys)) (count-Permᴰ u)

pub count-contains : (u : ℕ) (xs : List ℕ) → contains u xs ≡ false → count u xs ≡ 0
count-contains u [] e = refl
count-contains u (x ∷ xs) e = ground (arith, count-contains u xs)

pub contains-count : (u : ℕ) (xs : List ℕ) → count u xs ≡ 0 → contains u xs ≡ false
contains-count u [] e = refl
contains-count u (x ∷ xs) e = ground (arith, contains-count u xs)

length-Permᴰ : {xs ys : List ℕ} → Permᴰ xs ys → length xs ≡ length ys
length-Permᴰ Permᴰ.nil = refl
length-Permᴰ (Permᴰ.cons e p) = ap suc (length-Permᴰ p)
length-Permᴰ (Permᴰ.swap e f) = refl
length-Permᴰ (Permᴰ.trans p q) = length-Permᴰ p ∙ length-Permᴰ q

pub length-Perm : {xs ys : List ℕ} → Perm xs ys → length xs ≡ length ys
length-Perm {xs} {ys} p = ∥∥₁_elim p (ℕ_set (length xs) (length ys)) length-Permᴰ
