-- ===== src/Launcher/Filter.antt =====
-- The candidates and the shown list, filter_reserve and filter_update of tools/ulaunch/src/filter.c.
-- The arrays `cand` and `cand_score` are one list of pairs.
use mathlib.Core.List.{filter_map}
use uwm.Base.{
  ℕ, zero, suc, ◌+◌, ◌-◌, ◌*◌, Bool, true, false, ◌&&◌, Option, none, some, List, [], ◌∷◌, map,
  ◌==◌, ltb, leb, if◌then◌else◌, length, take, get_or,
}
use uwm.Base.Int.{ℤ, pos, ltb_ℤ}
use uwm.Launcher.{Chars, Floats}
use uwm.Launcher.Match.{score_match}

-- MAX_SCORE_RESULTS
abbrev pub max_score_results : ℕ
max_score_results = 4096

-- The fields of the launcher's state that the filter reads or writes, and its own arrays; `hits` is
-- `none` for a NULL.
pub record Filter (F : Type 0) : Type 0 where
  pub entries : List (List ℕ)
  pub hits : Option (List ℕ)
  pub input : List ℕ
  pub prev_input : List ℕ
  pub cand : List (ℕ × F)
  pub filtered : List (ℕ × F)
  pub cursor : ℤ
  pub filter_cap : ℕ

-- The capacity that filter_reserve asks for, and whether its five calls of realloc, which `alloc`
-- answers, succeed.
unfoldable pub want : (cap need : ℕ) → ℕ
want cap need =
    let w = if ltb max_score_results need then need else max_score_results in
    if ltb 0 cap && ltb w (cap * 2) then cap * 2 else w

unfoldable pub filter_reserve : (alloc : ℕ → Bool) (cap need : ℕ) → ℕ × Bool
unfolding want
filter_reserve alloc cap need =
    if leb (if ltb max_score_results need then need else max_score_results) cap
    then (cap, true)
    else if alloc (want cap need)
    then (want cap need, true)
    else (cap, false)

-- The numbers i, ..., i + n - 1, in the order of the loops.
unfoldable pub indices : (n i : ℕ) → List ℕ
indices zero i = []
indices (suc n) i = i ∷ indices n (suc i)

unfoldable pub hits_of : Option (List ℕ) → ℕ → ℕ
hits_of none i = 0
hits_of (some hs) i = get_or hs i 0

-- `n`, the number of entries that a scan goes through.
unfoldable pub scan_length : {F : Type 0} → Filter F → ℕ
scan_length s = if ltb (length s.entries) s.filter_cap then length s.entries else s.filter_cap

-- memcmp on the first `length xs` bytes.
abbrev pub prefix_eq : (xs ys : List ℕ) → Bool
prefix_eq [] ys = true
prefix_eq (x ∷ xs) [] = false
prefix_eq (x ∷ xs) (y ∷ ys) = x == y && prefix_eq xs ys

-- The previous text and one more character, with candidates to score again.
unfoldable pub appended : {F : Type 0} → Filter F → Bool
appended s =
    length s.prev_input + 1 == length s.input
    && prefix_eq s.prev_input s.input
    && ltb 0 (length s.cand)

module _ {F : Type 0} (c : Chars) (f : Floats F) where
  -- An index with its score, if that is positive: the body of both scoring loops.
  unfoldable pub rescore :
      (entries : List (List ℕ)) (hits : Option (List ℕ)) (input : List ℕ) → ℕ → Option (ℕ × F)
  unfolding hits_of
  rescore entries hits input i =
      let s = score_match c f input (get_or entries i []) (hits_of hits i) in
      if f.gt s f.zero_f then some (i, s) else none

  unfoldable pub all_entries : Filter F → List (ℕ × F)
  unfolding indices scan_length
  all_entries s = map (λ i. (i, f.zero_f)) (indices (scan_length s) 0)

  unfoldable pub survivors : Filter F → List (ℕ × F)
  unfolding rescore
  survivors s = filter_map (rescore s.entries s.hits s.input) (map (λ p. p.0) s.cand)

  unfoldable pub rescan : Filter F → List (ℕ × F)
  unfolding rescore indices scan_length
  rescan s = filter_map (rescore s.entries s.hits s.input) (indices (scan_length s) 0)

  -- From the sort on. `sorted` stands for qsort with cmp_score, `temporaries` says whether its two
  -- copies could be allocated.
  unfoldable pub publish :
      (sorted : List (ℕ × F) → List (ℕ × F)) (temporaries : Bool)
      → Filter F
      → List (ℕ × F)
      → Filter F
  publish sorted temporaries s found =
      let cand = if ltb 1 (length found) && temporaries then sorted found else found in
      let filtered = take max_score_results cand in
      record s {
        cand = cand;
        filtered = filtered;
        prev_input = s.input;
        cursor =
            if ltb_ℤ s.cursor (pos (length filtered)) then s.cursor else pos (length filtered - 1);
      }

  -- A scan over all entries, behind the check of the capacity; `scan` is one of the two loops.
  unfoldable pub with_room : (alloc : ℕ → Bool) → Filter F → (Filter F → Filter F) → Filter F
  unfolding filter_reserve
  with_room alloc s k =
      if ltb s.filter_cap (length s.entries)
      then (let r = filter_reserve alloc s.filter_cap (length s.entries) in
          if r.1 then k (record s { filter_cap = r.0 }) else record s { filter_cap = r.0 })
      else k s

  unfoldable pub filter_update :
      (sorted : List (ℕ × F) → List (ℕ × F)) (temporaries : Bool) (alloc : ℕ → Bool)
      → Filter F
      → Filter F
  unfolding publish with_room survivors rescan all_entries appended
  filter_update sorted temporaries alloc s =
      if length s.input == 0
      then with_room alloc s (λ t. publish sorted temporaries t (all_entries t))
      else if appended s
      then publish sorted temporaries s (survivors s)
      else with_room alloc s (λ t. publish sorted temporaries t (rescan t))
