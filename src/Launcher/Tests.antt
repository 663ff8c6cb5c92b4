-- ===== src/Launcher/Tests.antt =====
-- The theorems on the launcher at small lists of entries, with arithmetic on numbers in place of
-- floating point and a sort that leaves the candidates where they are.
use mathlib.Core.List.{filter_map}
use mathlib.Core.Option.{Option-elim}
use mathlib.Core.List.Perm
use uwm.Base.{
  ℕ, ◌+◌, ◌≤◌, ◌≡◌, refl, true, none, [], ◌∷◌, ◌*◌, arith, ltb, ◌&&◌, leb, if◌then◌else◌, ◌↔◌,
}
use uwm.Base.Int.{pos}
use uwm.Launcher.{Chars, Floats, Lawful}
use uwm.Launcher.Match.{Embeds, score_match, score_loop, hit, place_bonus, finish}
use uwm.Launcher.Scored.{score_match-Embeds}
use uwm.Launcher.Filter.{Filter, filter_update, rescore, indices}
use uwm.Launcher.Rescan.{IsFresh, Updated, filter_update-Updated}

abbrev pub ascii : Chars
ascii = record {
  tolower = λ b. if leb 65 b && leb b 90 then b + 32 else b;
  isupper = λ b. leb 65 b && leb b 90;
  islower = λ b. leb 97 b && leb b 122;
}

-- Tenths, with no rounding down to zero.
abbrev pub tenths : Floats ℕ
tenths = record {
  zero_f = 0;
  one_f = 10;
  half_f = 5;
  eight_tenths = 8;
  six_tenths = 6;
  add = λ x y. x + y;
  over = λ x n. x;
  mul = λ x y. x * y;
  gt = λ x y. ltb y x;
  boost = λ n. 1;
}

abbrev AtLeastTen : ℕ → Type 0
AtLeastTen x = 10 ≤ x

tenths-Lawful : Lawful tenths AtLeastTen
tenths-Lawful = record {
  not_gt_zero = refl;
  one_gt_zero = refl;
  add_zero = omega arith;
  add_one = λ x a. omega arith;
  add_half = λ x a. omega arith;
  add_eight_tenths = λ x a. omega arith;
  add_six_tenths = λ x a. omega arith;
  over_gt_zero = λ x n a. ground arith;
  mul_gt_zero = λ x h e. ground arith;
}

score_match-Embeds_example :
    (ltb 0 (score_match ascii tenths (b'f' ∷ b'x' ∷ []) (b'F' ∷ b'o' ∷ b'x' ∷ []) 2) ≡ true)
    ↔ Embeds ascii (b'f' ∷ b'x' ∷ []) (b'F' ∷ b'o' ∷ b'x' ∷ [])
score_match-Embeds_example =
    score_match-Embeds ascii tenths AtLeastTen tenths-Lawful (b'f' ∷ b'x' ∷ [])
      (b'F' ∷ b'o' ∷ b'x' ∷ []) 2

-- "f" has been typed and found in the first entry; now "x" has been typed behind it.
abbrev pub typed : Filter ℕ
typed = record {
  entries = (b'F' ∷ b'x' ∷ []) ∷ (b'g' ∷ []) ∷ [];
  hits = none;
  input = b'f' ∷ b'x' ∷ [];
  prev_input = b'f' ∷ [];
  cand = (0, 15) ∷ [];
  filtered = (0, 15) ∷ [];
  cursor = pos 0;
  filter_cap = 4096;
}

typed-IsFresh : IsFresh ascii tenths typed
unfolding filter_map rescore indices score_match score_loop hit place_bonus finish Option-elim
typed-IsFresh = Perm.refl (0 ∷ [])

filter_update-Updated_example :
    let s' = filter_update ascii tenths (λ xs. xs) true (λ n. true) typed in
    Updated ascii tenths typed s' × IsFresh ascii tenths s'
filter_update-Updated_example =
    filter_update-Updated ascii tenths AtLeastTen tenths-Lawful (λ xs. xs) true (λ n. true)
      (λ xs. Perm.refl xs) (λ n. refl) typed typed-IsFresh
