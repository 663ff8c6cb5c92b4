-- ===== src/Rules/Glob.antt =====
-- glob_match of src/wm/rules.c. The loop keeps the rest of the pattern, the rest of the string, the
-- pattern behind the last star and the string at which that star was last tried. It runs on fuel.
use uwm.Base.{
  ℕ, zero, suc, ◌+◌, ◌*◌, ◌<◌, ◌≤◌, ◌≡◌, refl, ◌∙◌, inl, inr, Bool, true, false, ◌||◌, Option, none,
  some, List, [], ◌∷◌, arith, ◌==◌, length, Bool-cases, ==_iff, ap, Option-cases, if◌then◌else◌,
}

-- `while (*p == '*') p++; return *p == '\0';`
unfoldable pub only_stars : List ℕ → Bool
only_stars [] = true
only_stars (q ∷ p) = if q == b'*' then only_stars p else false

-- `*p == '?' || *p == *s`, at a byte of the string; false at the end of the pattern.
unfoldable pub head_fits : List ℕ → ℕ → Bool
head_fits [] c = false
head_fits (q ∷ p) c = q == b'?' || q == c

unfoldable pub head_star : List ℕ → Bool
head_star [] = false
head_star (q ∷ p) = q == b'*'

unfoldable pub advance : List ℕ → List ℕ
advance [] = []
advance (q ∷ p) = p

unfoldable pub glob_loop : ℕ → (p s : List ℕ) (star : Option (List ℕ)) (ss : List ℕ) → Option Bool
glob_loop zero p s star ss = none
glob_loop (suc k) p [] star ss = some (only_stars p)
glob_loop (suc k) p (c ∷ s) star ss = elim (head_fits p c) [
  | true ↦ glob_loop k (advance p) s star ss
  | false ↦ elim (head_star p) [
    | true ↦ glob_loop k (advance p) (c ∷ s) (some (advance p)) (c ∷ s)
    | false ↦ elim star [
      | none ↦ some false
      | some behind ↦ glob_loop k behind (advance ss) (some behind) (advance ss)
    ]
  ]
]

unfoldable pub glob_match : ℕ → Option (List ℕ) → Option (List ℕ) → Option Bool
unfolding glob_loop only_stars head_fits head_star advance
glob_match k none string = some true
glob_match k (some []) string = some true
glob_match k (some (q ∷ p)) none = some false
glob_match k (some (q ∷ p)) (some s) = glob_loop k (q ∷ p) s none s

-- The lengths that the loop keeps: `m` bounds the pattern, and each round makes the measure smaller.
record Bounded (m : ℕ) (p s : List ℕ) (star : Option (List ℕ)) (ss : List ℕ) : Type 0 where
  pattern : length p ≤ m
  rest : length s ≤ length ss
  behind : (q : List ℕ) → star ≡ some q → length q ≤ m

measure : ℕ → List ℕ → List ℕ → ℕ
measure m p ss = length ss * suc m + length p

-- The loop's rounds, by the branch taken.
module _ (k : ℕ) (p : List ℕ) (c : ℕ) (s : List ℕ) (star : Option (List ℕ)) (ss : List ℕ) where
  round_fits :
      head_fits p c ≡ true → glob_loop (suc k) p (c ∷ s) star ss ≡ glob_loop k (advance p) s star ss
  unfolding glob_loop
  round_fits e = rw (e, glob_loop) refl

  round_star :
      head_fits p c ≡ false
      → head_star p ≡ true
      → glob_loop (suc k) p (c ∷ s) star ss
        ≡ glob_loop k (advance p) (c ∷ s) (some (advance p)) (c ∷ s)
  unfolding glob_loop
  round_star e f = rw (e, glob_loop) (rw f refl)

  round_fails :
      head_fits p c ≡ false
      → head_star p ≡ false
      → star ≡ none
      → glob_loop (suc k) p (c ∷ s) star ss ≡ some false
  unfolding glob_loop
  round_fails e f g = rw (e, glob_loop) (rw f (rw g refl))

  round_back :
      (behind : List ℕ)
      → head_fits p c ≡ false
      → head_star p ≡ false
      → star ≡ some behind
      → glob_loop (suc k) p (c ∷ s) star ss
        ≡ glob_loop k behind (advance ss) (some behind) (advance ss)
  unfolding glob_loop
  round_back behind e f g = rw (e, glob_loop) (rw f (rw g refl))

length-advance_fits :
    (p : List ℕ) (c : ℕ) → head_fits p c ≡ true → suc (length (advance p)) ≡ length p
unfolding head_fits advance
length-advance_fits [] c e = cc
length-advance_fits (q ∷ p) c e = refl

length-advance_star : (p : List ℕ) → head_star p ≡ true → suc (length (advance p)) ≡ length p
unfolding head_star advance
length-advance_star [] e = cc
length-advance_star (q ∷ p) e = refl

-- A retry one byte further on.
back_bound :
    (m : ℕ) (p q s ss : List ℕ) (c : ℕ)
    → length (c ∷ s) ≤ length ss
    → length q ≤ m
    → measure m q (advance ss) < measure m p ss
unfolding measure advance
back_bound m p q s [] c le lq = absurd (omega arith)
back_bound m p q s (d ∷ ss) c le lq = grind arith

fits_bound :
    (m : ℕ) (p p' ss : List ℕ) → suc (length p') ≡ length p → measure m p' ss < measure m p ss
unfolding measure
fits_bound m p p' ss e = omega arith

star_bound :
    (m : ℕ) (p p' s ss : List ℕ)
    → suc (length p') ≡ length p
    → length s ≤ length ss
    → measure m p' s < measure m p ss
unfolding measure
star_bound m p p' s ss e le = grind arith

glob_loop_total :
    (k m : ℕ) (p s : List ℕ) (star : Option (List ℕ)) (ss : List ℕ)
    → Bounded m p s star ss
    → measure m p ss < k
    → (b : Bool) × (glob_loop k p s star ss ≡ some b)
unfolding glob_loop
glob_loop_total zero m p s star ss v lt = absurd (omega arith)
glob_loop_total (suc k) m p [] star ss v lt = (only_stars p, refl)
glob_loop_total (suc k) m p (c ∷ s) star ss v lt = elim (Bool-cases (head_fits p c)) [
  | inl fits ↦
      let less = length-advance_fits p c fits in
      rw (round_fits k p c s star ss fits) (
        glob_loop_total k m (advance p) s star ss
          (record {
            pattern = omega (arith, v.pattern, less);
            rest = omega (arith, v.rest);
            behind = v.behind;
          })
          (omega (arith, fits_bound m p (advance p) ss less)))
  | inr apart ↦ elim (Bool-cases (head_star p)) [
    | inl is_star ↦
        let less = length-advance_star p is_star in
        rw (round_star k p c s star ss apart is_star) (
          glob_loop_total k m (advance p) (c ∷ s) (some (advance p)) (c ∷ s)
            (record {
              pattern = omega (arith, v.pattern, less);
              rest = omega arith;
              behind =
                  λ r e. let z : advance p ≡ r = cc in rw (← z) (omega (arith, v.pattern, less));
            })
            (omega (arith, star_bound m p (advance p) (c ∷ s) ss less v.rest)))
    | inr no_star ↦ elim (Option-cases star) [
      | inl e ↦ (false, round_fails k p c s star ss apart no_star e)
      | inr (behind, e) ↦ rw (round_back k p c s star ss behind apart no_star e) (
          glob_loop_total k m behind (advance ss) (some behind) (advance ss)
            (record {
              pattern = v.behind behind e;
              rest = omega arith;
              behind = λ r q. let z : behind ≡ r = cc in rw (← z) (v.behind behind e);
            })
            (omega (arith, back_bound m p behind s ss c v.rest (v.behind behind e))))
    ]
  ]
]

-- glob_match returns, with fuel for every byte of the string at every byte of the pattern.
pub glob_match_total :
    (k : ℕ) (p s : List ℕ)
    → length s * suc (length p) + length p < k
    → (b : Bool) × (glob_match k (some p) (some s) ≡ some b)
unfolding glob_match measure
glob_match_total k [] s lt = (true, refl)
glob_match_total k (q ∷ p) s lt =
    glob_loop_total k (length (q ∷ p)) (q ∷ p) s none s
      (record { pattern = omega arith; rest = omega arith; behind = λ r e. cc }) lt

-- A star in the string itself uses the pattern's star up: the pattern "*" rejects every string of
-- two bytes or more that begins with a star, though a star stands for any string.
pub star_rejects_star :
    (k c : ℕ) (s : List ℕ)
    → glob_match (suc (suc k)) (some (b'*' ∷ [])) (some (b'*' ∷ c ∷ s)) ≡ some false
unfolding glob_match
star_rejects_star k c s = refl

-- Behind a star at the end of the pattern the loop sweeps over the string.
sweep : (k : ℕ) (s : List ℕ) → length s < k → glob_loop k [] s (some []) s ≡ some true
unfolding glob_loop head_fits head_star advance only_stars
sweep zero s lt = absurd (omega arith)
sweep (suc k) [] lt = refl
sweep (suc k) (c ∷ s) lt = sweep k s (omega arith)

-- Every other string matches "*": the empty one, a single byte, and any that begins with another
-- byte than a star.
pub star_accepts :
    (k : ℕ) (s : List ℕ)
    → ((c : ℕ) (t : List ℕ) → s ≡ b'*' ∷ c ∷ t → ⊥)
    → length s < k
    → glob_match (suc k) (some (b'*' ∷ [])) (some s) ≡ some true
unfolding glob_match glob_loop head_fits head_star advance only_stars
star_accepts k [] other lt = refl
star_accepts k (c ∷ s) other lt = elim (Bool-cases (c == b'*')) [
  | inr ne ↦ round_star k (b'*' ∷ []) c s none (c ∷ s) (ground arith) refl ∙ sweep k (c ∷ s) lt
  | inl e ↦ single k s ((==_iff c b'*').0 e) lt other
]
  where
    single :
        (k : ℕ) (s : List ℕ)
        → c ≡ b'*'
        → length (c ∷ s) < k
        → ((d : ℕ) (t : List ℕ) → c ∷ s ≡ b'*' ∷ d ∷ t → ⊥)
        → glob_match (suc k) (some (b'*' ∷ [])) (some (c ∷ s)) ≡ some true
    single zero s e lt other = absurd (omega arith)
    single (suc k) [] e lt other = rw e refl
    single (suc k) (d ∷ t) e lt other = absurd (other d t (ap (λ x. x ∷ d ∷ t) e))
