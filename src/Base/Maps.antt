-- ===== src/Base/Maps.antt =====
-- Functions on numbers with one value changed.
use uwm.Base.Tests.{◌==◌, Bool-cases, ==_iff, if◌then◌else◌}
use Prim.Native.Nat.{ℕ}
use mathlib.Core.Path.{◌≡◌, refl, sym, subst}
use mathlib.Core.Logic.{◌⊎◌, inl, inr}
use mathlib.Core.Bool.{true, false}

unfoldable pub update {ℓ} : {A : Type ℓ} → (ℕ → A) → ℕ → A → ℕ → A
update f a v b = if b == a then v else f b

pub update_self {ℓ} : {A : Type ℓ} (f : ℕ → A) (a : ℕ) (v : A) → update f a v a ≡ v
unfolding update
update_self f a v = rw ((==_iff a a).1 refl) refl

pub update_ne {ℓ} :
    {A : Type ℓ} (f : ℕ → A) (a : ℕ) (v : A) (b : ℕ) → (b == a) ≡ false → update f a v b ≡ f b
unfolding update
update_ne f a v b ne = rw ne refl

-- What holds of the new value and of the others holds of every value.
pub update_both {ℓ κ μ} :
    {A : Type ℓ} {B : Type κ} (P : ℕ → A → B → Type μ) (f : ℕ → A) (g : ℕ → B) (a : ℕ) (v : A)
    (w : B)
    → P a v w
    → ((b : ℕ) → (b == a) ≡ false → P b (f b) (g b))
    → (b : ℕ) → P b (update f a v b) (update g a w b)
unfolding update
update_both P f g a v w here there b = elim (Bool-cases (b == a)) [
  | inl e ↦ rw e (subst (λ x. P x v w) (sym ((==_iff b a).0 e)) here)
  | inr ne ↦ rw ne (there b ne)
]

pub update_same {ℓ} : {A : Type ℓ} (f : ℕ → A) (a : ℕ) → update f a (f a) ≡ f
unfolding update
update_same f a = λ i b. at b (Bool-cases (b == a)) i
  where
    at : (b : ℕ) → ((b == a) ≡ true) ⊎ ((b == a) ≡ false) → (if b == a then f a else f b) ≡ f b
    at b (inl e) = rw e (subst (λ x. f x ≡ f b) ((==_iff b a).0 e) refl)
    at b (inr ne) = rw ne refl

pub update_one {ℓ κ} :
    {A : Type ℓ} (P : ℕ → A → Type κ) (f : ℕ → A) (a : ℕ) (v : A)
    → P a v
    → ((b : ℕ) → (b == a) ≡ false → P b (f b))
    → (b : ℕ) → P b (update f a v b)
update_one P f a v here there = update_both (λ b x (y : ℕ). P b x) f (λ b. b) a v a here there

pub update_twice {ℓ} :
    {A : Type ℓ} (f : ℕ → A) (a : ℕ) (v w : A) → update (update f a v) a w ≡ update f a w
update_twice f a v w = λ i b. at b i
  where
    at : (b : ℕ) → update (update f a v) a w b ≡ update f a w b
    at = update_both (λ b x y. x ≡ y) (update f a v) f a w w refl (update_ne f a v)
