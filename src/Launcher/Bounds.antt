-- ===== src/Launcher/Bounds.antt =====
-- The keys of the launcher (tools/ulaunch/src/input.c) keep the text within its buffer and the cursor
-- within the shown list.
use uwm.Base.{
  subst, ℕ, zero, suc, ◌+◌, ◌-◌, ◌<◌, ◌≤◌, ◌≡◌, Bool, true, false, List, [], ◌∷◌, if◌then◌else◌,
  length, arith,
}
use uwm.Base.Int.{ℤ, pos, negsuc, ltb_ℤ, ◌+ℤ◌, ◌-ℤ◌, pos_part, neg_part}
use uwm.Launcher.Filter.{Filter}
use uwm.Launcher.Keys.{Launcher, input_buf_max, remainder, drop_last, keep_front, trim_end}

-- The cursor is -1 (no entry), 0, or a place in the shown list.
abbrev pub CursorFits : ℤ → ℕ → Type 0
CursorFits cursor shown = (neg_part cursor ≤ 1) × (pos_part cursor ≤ shown - 1)

-- There is room for the text and its terminating zero, with one byte to spare.
abbrev pub TextFits : ℕ → Type 0
TextFits n = n + 2 ≤ input_buf_max

abbrev pub FilterFits : {F : Type 0} → Filter F → Type 0
FilterFits s = TextFits (length s.input) × CursorFits s.cursor (length s.filtered)

abbrev pub IsBounded : {F : Type 0} → Launcher F → Type 0
IsBounded s = FilterFits s.filter

pub length-drop_last : (xs : List ℕ) → length (drop_last xs) ≤ length xs
length-drop_last [] = omega arith
length-drop_last (x ∷ []) = omega arith
length-drop_last (x ∷ y ∷ xs) = omega (arith, length-drop_last (y ∷ xs))

length-keep_front : (b : Bool) (x : ℕ) (xs : List ℕ) → length (keep_front b x xs) ≤ suc (length xs)
length-keep_front true x [] = omega arith
length-keep_front true x (y ∷ xs) = omega arith
length-keep_front false x xs = omega arith

pub length-trim_end : (fits : ℕ → Bool) (xs : List ℕ) → length (trim_end fits xs) ≤ length xs
length-trim_end fits [] = omega arith
length-trim_end fits (x ∷ xs) =
    omega (arith, length-keep_front (fits x) x (trim_end fits xs), length-trim_end fits xs)

pub up_fits :
    (a : ℤ) (n : ℕ) → CursorFits a n → CursorFits (if ltb_ℤ (pos 0) a then a -ℤ pos 1 else a) n
unfolding ◌-ℤ◌
up_fits (pos a) n (l, m) = ground arith
up_fits (negsuc a) n (l, m) = ground arith

pub down_fits :
    (a : ℤ) (n : ℕ)
    → CursorFits a n
    → CursorFits (if ltb_ℤ a (pos n -ℤ pos 1) then a +ℤ pos 1 else a) n
unfolding ◌-ℤ◌ ◌+ℤ◌
down_fits (pos a) n (l, m) = ground arith
down_fits (negsuc a) n (l, m) = ground arith

pub page_up_fits :
    (a m : ℤ) (n : ℕ)
    → neg_part m ≡ 0
    → CursorFits a n
    → CursorFits (if ltb_ℤ (a -ℤ m) (pos 0) then pos 0 else a -ℤ m) n
unfolding ◌-ℤ◌
page_up_fits (pos a) (pos m) n z (l, k) = ground arith
page_up_fits (negsuc a) (pos m) n z (l, k) = ground arith
page_up_fits a (negsuc m) n z (l, k) = absurd (omega arith)

pub page_down_fits :
    (a m : ℤ) (n : ℕ)
    → neg_part m ≡ 0
    → CursorFits a n
    → CursorFits (if ltb_ℤ (a +ℤ m) (pos n) then a +ℤ m else pos n -ℤ pos 1) n
unfolding ◌-ℤ◌ ◌+ℤ◌
page_down_fits (pos a) (pos m) n z (l, k) = ground arith
page_down_fits (negsuc a) (pos m) n z (l, k) = ground arith
page_down_fits a (negsuc m) n z (l, k) = absurd (omega arith)

pub end_fits : (n : ℕ) → CursorFits (pos n -ℤ pos 1) n
unfolding ◌-ℤ◌
end_fits n = ground arith

remainder_fits : (b n : ℕ) → 0 < n → CursorFits (remainder (pos b) n) n
unfolding remainder
remainder_fits b zero lt = absurd (omega arith)
remainder_fits b (suc n) lt = (omega arith, omega arith)

-- The cursor behind the one given, which is -1 at least.
after_cursor : (a : ℤ) → neg_part a ≤ 1 → (b : ℕ) × (pos b ≡ a +ℤ pos 1)
unfolding ◌+ℤ◌
after_cursor (pos a) l = (a + 1, ground arith)
after_cursor (negsuc a) l = (0, ground arith)

pub tab_fits : (a : ℤ) (n : ℕ) → 0 < n → CursorFits a n → CursorFits (remainder (a +ℤ pos 1) n) n
tab_fits a n lt (l, _) =
    let (b, e) = after_cursor a l in
    subst (λ c. CursorFits (remainder c n) n) e (remainder_fits b n lt)

pub clamp_fits :
    (a : ℤ) (n m : ℕ) → CursorFits a m → CursorFits (if ltb_ℤ a (pos n) then a else pos (n - 1)) n
clamp_fits (pos a) n m (l, k) = ground arith
clamp_fits (negsuc a) n m (l, k) = ground arith
