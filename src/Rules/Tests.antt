-- ===== src/Rules/Tests.antt =====
-- The glob matcher at small patterns.
use uwm.Base.{◌≡◌, refl, Bool, true, false, some, [], ◌∷◌, arith}
use uwm.Rules.Glob.{glob_match, glob_match_total, star_rejects_star, star_accepts}

glob_match_total_example :
    (b : Bool) × (glob_match 40 (some (b'a' ∷ b'*' ∷ [])) (some (b'a' ∷ b'b' ∷ [])) ≡ some b)
glob_match_total_example = glob_match_total 40 (b'a' ∷ b'*' ∷ []) (b'a' ∷ b'b' ∷ []) (omega arith)

star_rejects_star_example : glob_match 9 (some (b'*' ∷ [])) (some (b'*' ∷ b'a' ∷ [])) ≡ some false
star_rejects_star_example = star_rejects_star 7 b'a' []

star_accepts_example : glob_match 9 (some (b'*' ∷ [])) (some (b'a' ∷ b'b' ∷ [])) ≡ some true
star_accepts_example = star_accepts 8 (b'a' ∷ b'b' ∷ []) (λ c t e. cc) (omega arith)

-- "f?o*" against "fooba".
wildcards :
    glob_match 60
      (some (b'f' ∷ b'?' ∷ b'o' ∷ b'*' ∷ b'a' ∷ []))
      (some (b'f' ∷ b'o' ∷ b'o' ∷ b'b' ∷ b'a' ∷ []))
    ≡ some true
unfolding glob_match
wildcards = refl
