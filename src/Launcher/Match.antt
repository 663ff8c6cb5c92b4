-- ===== src/Launcher/Match.antt =====
-- The score of an entry, score_match of tools/ulaunch/src/filter.c, and which entries have one.
use uwm.Base.{
  ℕ, ◌+◌, ◌≤◌, ◌≡◌, Bool, false, ◌&&◌, ◌||◌, Option, none, some, List, [], ◌∷◌, ◌++◌, arith, ◌==◌,
  ltb, if◌then◌else◌, length, Link, ◌=?◌, is_some,
}
use uwm.Launcher.{Chars, Floats}

-- A character after which a word begins.
unfoldable pub is_separator : ℕ → Bool
is_separator p = p == b'-' || p == b'_' || p == b'.' || p == b' ' || p == b'/' || p == b'\\'

module _ {F : Type 0} (c : Chars) (f : Floats F) where
  -- The bonus for the place of a hit `h`, behind the character `p` if there is one.
  unfoldable pub place_bonus : Option ℕ → ℕ → F → F
  unfolding is_separator
  place_bonus none h score = score
  place_bonus (some p) h score =
      if is_separator p
      then f.add score f.eight_tenths
      else if c.isupper h && c.islower p
      then f.add score f.six_tenths
      else score

  -- One hit at index `hi`, where `prev` is the index of the hit before it.
  unfoldable pub hit : (p : Option ℕ) (h hi : ℕ) (prev : Link) → F → F
  unfolding place_bonus
  hit p h hi prev score = place_bonus p h (
      let one = f.add score f.one_f in
      if (elim prev [ none ↦ false | some i ↦ hi == i + 1 ]) then f.add one f.half_f else one)

  -- The loop over the haystack: `p` is the character behind the rest of it, at index `hi`. The result
  -- is the score and the first hit, or `none` if some of the needle is left.
  unfoldable pub score_loop :
      (needle haystack : List ℕ) (p : Option ℕ) (hi : ℕ) (prev first : Link) → F → Option (F × Link)
  unfolding hit
  score_loop [] hs p hi prev first score = some (score, first)
  score_loop (n ∷ ns) [] p hi prev first score = none
  score_loop (n ∷ ns) (h ∷ hs) p hi prev first score =
      if c.tolower n == c.tolower h
      then score_loop ns hs (some h) (hi + 1) (some hi) (if is_some first then first else some hi)
          (hit p h hi prev score)
      else score_loop (n ∷ ns) hs (some h) (hi + 1) prev first score

  -- What is done to the score behind the loop.
  unfoldable pub finish : (nlen nhits : ℕ) → Option (F × Link) → F
  finish nlen nhits none = f.zero_f
  finish nlen nhits (some (score, first)) =
      let s = f.over (if first =? some 0 then f.add score f.half_f else score) (nlen + 1) in
      if ltb 0 nhits then f.mul s (f.boost nhits) else s

  unfoldable pub score_match : (needle haystack : List ℕ) (nhits : ℕ) → F
  unfolding score_loop finish
  score_match needle haystack nhits =
      if length needle == 0
      then f.one_f
      else if ltb (length haystack) (length needle)
      then f.zero_f
      else finish (length needle) nhits (score_loop needle haystack none 0 none none f.zero_f)

-- The characters of the needle occur in the haystack, in order and up to case.
pub data Embeds (c : Chars) : (needle haystack : List ℕ) → Type 0 where
  done : (hs : List ℕ) → Embeds c [] hs
  here :
      (n h : ℕ) (ns hs : List ℕ)
      → c.tolower n ≡ c.tolower h
      → Embeds c ns hs
      → Embeds c (n ∷ ns) (h ∷ hs)
  skip : (h : ℕ) (ns hs : List ℕ) → Embeds c ns hs → Embeds c ns (h ∷ hs)

module _ (c : Chars) where
  pub Embeds-tail : {n : ℕ} {ns hs : List ℕ} → Embeds c (n ∷ ns) hs → Embeds c ns hs
  Embeds-tail (here n h ns hs e r) = skip h ns hs r
  Embeds-tail (skip h _ hs r) = skip h _ hs (Embeds-tail r)

  -- A needle that occurs still does without its end.
  pub Embeds-prefix : (ns ms hs : List ℕ) → Embeds c (ns ++ ms) hs → Embeds c ns hs
  Embeds-prefix [] ms hs r = done hs
  Embeds-prefix (n ∷ ns) ms [] r = elim r [ ]
  Embeds-prefix (n ∷ ns) ms (h ∷ hs) (here _ _ _ _ e r) =
      here n h ns hs e (Embeds-prefix ns ms hs r)
  Embeds-prefix (n ∷ ns) ms (h ∷ hs) (skip _ _ _ r) =
      skip h (n ∷ ns) hs (Embeds-prefix (n ∷ ns) ms hs r)

  pub Embeds-length : {ns hs : List ℕ} → Embeds c ns hs → length ns ≤ length hs
  Embeds-length (done hs) = omega arith
  Embeds-length (here n h ns hs e r) = omega (arith, Embeds-length r)
  Embeds-length (skip h ns hs r) = omega (arith, Embeds-length r)
