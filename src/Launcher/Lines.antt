-- ===== src/Launcher/Lines.antt =====
-- The lines of a text as the entries of tools/ulaunch/src/mode_dmenu.c: the reference for its loop
-- over the bytes.
use uwm.Base.{
  ℕ, zero, suc, ◌<◌, ◌≤◌, ◌≡◌, refl, sym, ap, ◌∙◌, inl, inr, true, false, List, [], ◌∷◌, ◌++◌,
  arith, ◌==◌, ltb, if◌then◌else◌, length, take, Bool-cases,
}
use uwm.Base.Appends.{append_assoc}
use uwm.Launcher.Feed.{line_max, newline, c_string}

-- The lines of a text, the one behind the last newline included.
unfoldable pub with_head : ℕ → List (List ℕ) → List (List ℕ)
with_head x [] = (x ∷ []) ∷ []
with_head x (l ∷ ls) = (x ∷ l) ∷ ls

unfoldable pub lines : List ℕ → List (List ℕ)
unfolding with_head
lines [] = [] ∷ []
lines (x ∷ xs) = let rest = lines xs in if x == newline then [] ∷ rest else with_head x rest

-- The entries for lines: none for an empty one, and otherwise what fits the buffer, up to a zero.
unfoldable pub line_entries : List (List ℕ) → List (List ℕ)
line_entries [] = []
line_entries (l ∷ ls) =
    let rest = line_entries ls in
    if ltb 0 (length l) then c_string (take line_max l) ∷ rest else rest

-- A line in front of the first one.
abbrev pub join_first : List ℕ → List (List ℕ) → List (List ℕ)
join_first raw [] = raw ∷ []
join_first raw (l ∷ ls) = (raw ++ l) ∷ ls

take_nil : (n : ℕ) → ◌≡◌ {A = List ℕ} (take n []) []
take_nil zero = refl
take_nil (suc n) = refl

pub take_snoc_room :
    (n : ℕ) (xs : List ℕ) (x : ℕ)
    → length (take n xs) < n
    → take n xs ++ x ∷ [] ≡ take n (xs ++ x ∷ [])
take_snoc_room zero xs x lt = absurd (omega arith)
take_snoc_room (suc n) [] x lt = ap (λ l. x ∷ l) (sym (take_nil n))
take_snoc_room (suc n) (y ∷ xs) x lt = ap (λ l. y ∷ l) (take_snoc_room n xs x (omega arith))

pub take_snoc_full :
    (n : ℕ) (xs : List ℕ) (x : ℕ) → n ≤ length (take n xs) → take n xs ≡ take n (xs ++ x ∷ [])
take_snoc_full zero xs x le = refl
take_snoc_full (suc n) [] x le = absurd (omega arith)
take_snoc_full (suc n) (y ∷ xs) x le = ap (λ l. y ∷ l) (take_snoc_full n xs x (omega arith))

join_first_nil : (x : ℕ) (ls : List (List ℕ)) → join_first [] (with_head x ls) ≡ with_head x ls
unfolding with_head
join_first_nil x [] = refl
join_first_nil x (l ∷ ls) = refl

pub lines-join : (xs : List ℕ) → join_first [] (lines xs) ≡ lines xs
unfolding lines with_head
lines-join [] = refl
lines-join (x ∷ xs) = elim (Bool-cases (x == newline)) [
  | inl e ↦ rw e refl
  | inr e ↦ rw e (join_first_nil x (lines xs))
]

pub join_first-with_head :
    (raw : List ℕ) (x : ℕ) (ls : List (List ℕ))
    → join_first raw (with_head x ls) ≡ join_first (raw ++ x ∷ []) ls
unfolding with_head
join_first-with_head raw x [] = refl
join_first-with_head raw x (l ∷ ls) = ap (λ k. k ∷ ls) (sym (append_assoc raw (x ∷ []) l))

pub pos_length : (x : ℕ) (xs : List ℕ) → ltb 0 (length (x ∷ xs)) ≡ true
pos_length x xs = ground arith

pub line_entries-cons :
    (x : ℕ) (l : List ℕ) (ls : List (List ℕ))
    → line_entries ((x ∷ l) ∷ ls) ≡ c_string (take line_max (x ∷ l)) ∷ line_entries ls
unfolding line_entries
line_entries-cons x l ls =
    ap (λ c. if c then c_string (take line_max (x ∷ l)) ∷ line_entries ls else line_entries ls)
      (pos_length x l)

pub line_entries-first :
    (l : List ℕ) (ls : List (List ℕ))
    → line_entries (l ∷ []) ++ line_entries ls ≡ line_entries (l ∷ ls)
unfolding line_entries
line_entries-first [] ls = refl
line_entries-first (x ∷ l) ls =
    ap (λ k. k ++ line_entries ls) (line_entries-cons x l []) ∙ sym (line_entries-cons x l ls)

pub not_ltb : (a b : ℕ) → ltb a b ≡ false → b ≤ a
not_ltb a b e = ground arith
