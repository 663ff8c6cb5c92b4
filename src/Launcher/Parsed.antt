-- ===== src/Launcher/Parsed.antt =====
-- What parse_desktop_file of tools/ulaunch/src/mode_drun.c reads from a file.
use uwm.Base.{
  ℕ, zero, suc, ◌-◌, ◌<◌, ◌≤◌, ◌≡◌, refl, sym, ap, ◌∙◌, inl, inr, Bool, true, false, ◌&&◌, ◌||◌,
  not, none, some, List, [], ◌∷◌, ◌++◌, arith, ◌==◌, if◌then◌else◌, length, take, Bool-cases,
  ==_iff,
}
use uwm.Launcher.Feed.{c_string}
use uwm.Launcher.Desktop.{
  buf_len, chunks, onto_first, drop_while_end, is_eol, is_blank, desktop_entry, name_key, exec_key,
  unread, set_keys, read_line, read_lines, field_at, field_of, expand, strip_lines, entry_of,
  parse_desktop_file,
}

-- A command whose text expands to the given one.
unfoldable pub escape : List ℕ → List ℕ
escape [] = []
escape (x ∷ xs) = let rest = escape xs in if x == 37 then 37 ∷ 37 ∷ rest else x ∷ rest

-- No zero, newline or carriage return.
abbrev pub clean : List ℕ → Bool
clean [] = true
clean (x ∷ xs) = not (x == 0 || x == 10 || x == 13) && clean xs

expand_nil : (room : ℕ) → expand room [] ≡ []
unfolding expand
expand_nil zero = refl
expand_nil (suc room) = refl

expand_plain :
    (room x : ℕ) (src : List ℕ)
    → (x == 37) ≡ false
    → expand (suc room) (x ∷ src) ≡ x ∷ expand room src
unfolding expand field_at
expand_plain room x [] e = ap (λ l. x ∷ l) (sym (expand_nil room))
expand_plain room x (y ∷ src) e = rw (e, expand) refl

expand_percent :
    (room : ℕ) (src : List ℕ) → expand (suc room) (37 ∷ 37 ∷ src) ≡ 37 ∷ expand room src
unfolding expand field_at field_of
expand_percent room src = refl

-- An escaped command expands to the command, as far as the buffer has room.
pub expand-escape : (room : ℕ) (xs : List ℕ) → expand room (escape xs) ≡ take room xs
unfolding escape expand
expand-escape zero xs = refl
expand-escape (suc room) [] = expand_nil (suc room)
expand-escape (suc room) (x ∷ xs) = elim (Bool-cases (x == 37)) [
  | inl e ↦ rw e (
      expand_percent room (escape xs)
      ∙ ap (λ l. 37 ∷ l) (expand-escape room xs)
      ∙ ap (λ y. y ∷ take room xs) (sym ((==_iff x 37).0 e)))
  | inr e ↦ rw e (expand_plain room x (escape xs) e ∙ ap (λ l. x ∷ l) (expand-escape room xs))
]

clean-escape : (xs : List ℕ) → clean xs ≡ true → clean (escape xs) ≡ true
unfolding escape
clean-escape [] c = refl
clean-escape (x ∷ xs) c = ground (arith, clean-escape xs)

-- A clean line that fits the buffer is one piece.
chunks_line :
    (room : ℕ) (l rest : List ℕ)
    → clean l ≡ true
    → length l < room
    → chunks room (l ++ 10 ∷ rest) ≡ (l ++ 10 ∷ []) ∷ chunks 1023 rest
unfolding chunks onto_first
chunks_line zero l rest c lt = absurd (omega arith)
chunks_line (suc room) [] rest c lt = refl
chunks_line (suc room) (x ∷ l) rest c lt =
    rw (inner, chunks) (ap (onto_first x) (chunks_line room l rest tail (omega arith)))
  where
    inner : (x == 10 || room == 0) ≡ false
    inner = ground arith

    tail : clean l ≡ true
    tail = ground arith

c_string-clean : (l : List ℕ) → clean l ≡ true → c_string (l ++ 10 ∷ []) ≡ l ++ 10 ∷ []
unfolding c_string
c_string-clean [] c = refl
c_string-clean (x ∷ l) c = ground (arith, c_string-clean l)

trim_line : (l : List ℕ) → clean l ≡ true → drop_while_end is_eol (l ++ 10 ∷ []) ≡ l
unfolding drop_while_end is_eol
trim_line [] c = refl
trim_line (x ∷ l) c = ground (arith, trim_line l)

-- A clean line that fits the buffer is read as it is.
stripped_line :
    (l rest : List ℕ)
    → clean l ≡ true
    → length l < 1023
    → strip_lines (chunks 1023 (l ++ 10 ∷ rest)) ≡ l ∷ strip_lines (chunks 1023 rest)
unfolding strip_lines
stripped_line l rest c lt =
    ap strip_lines (chunks_line 1023 l rest c lt)
    ∙ ap (λ k. drop_while_end is_eol k ∷ strip_lines (chunks 1023 rest)) (c_string-clean l c)
    ∙ ap (λ k. k ∷ strip_lines (chunks 1023 rest)) (trim_line l c)

-- A desktop file with one entry.
unfoldable pub render : (name command : List ℕ) → List ℕ
render name command =
    desktop_entry ++ 10 ∷ ((name_key ++ name) ++ 10 ∷ ((exec_key ++ escape command) ++ 10 ∷ []))

rendered_lines :
    (name command : List ℕ)
    → clean name ≡ true
    → clean command ≡ true
    → length name < 1000
    → length (escape command) < 1000
    → strip_lines (chunks 1023 (render name command))
      ≡ desktop_entry ∷ (name_key ++ name) ∷ (exec_key ++ escape command) ∷ []
unfolding render strip_lines chunks
rendered_lines name command cn cc ln lc =
    stripped_line desktop_entry
      ((name_key ++ name) ++ 10 ∷ ((exec_key ++ escape command) ++ 10 ∷ [])) refl (omega arith)
    ∙ ap (λ k. desktop_entry ∷ k)
        (stripped_line (name_key ++ name) ((exec_key ++ escape command) ++ 10 ∷ []) cn
          (omega (arith, ln)))
    ∙ ap (λ k. desktop_entry ∷ (name_key ++ name) ∷ k)
        (stripped_line (exec_key ++ escape command) [] (clean-escape command cc)
          (omega (arith, lc)))

take_all : (n : ℕ) (xs : List ℕ) → length xs < n → take n xs ≡ xs
take_all zero xs lt = absurd (omega arith)
take_all (suc n) [] lt = refl
take_all (suc n) (x ∷ xs) lt = ap (λ l. x ∷ l) (take_all n xs (omega arith))

read_rendered :
    (name exec : List ℕ)
    → read_lines (desktop_entry ∷ (name_key ++ name) ∷ (exec_key ++ exec) ∷ []) unread ≡ record {
      name = take 1023 name;
      exec_raw = take 1023 exec;
      nodisplay = false;
      in_desktop_entry = true;
    }
unfolding read_lines read_line set_keys
read_rendered name exec = refl

both_positive : (n k : ℕ) → 0 < n → 0 < k → (n == 0 || k == 0) ≡ false
both_positive n k ln lk = ground arith

entry_of_eq :
    (name exec : List ℕ)
    → 0 < length name
    → 0 < length exec
    → entry_of (record { name = name; exec_raw = exec; nodisplay = false; in_desktop_entry = true })
      ≡ some (name, drop_while_end is_blank (expand 1023 exec))
unfolding entry_of
entry_of_eq name exec ln le =
    ap (λ c. if c then none else some (name, drop_while_end is_blank (expand (buf_len - 1) exec)))
      (both_positive (length name) (length exec) ln le)

length-escape : (xs : List ℕ) → length xs ≤ length (escape xs)
unfolding escape
length-escape [] = omega arith
length-escape (x ∷ xs) = ground (arith, length-escape xs)

-- The entry that a file with a name and a command gives, if both are on one line, not empty and
-- short enough for the line buffer, and the command does not end in a blank: the name, and the
-- command with its escaped '%' restored.
pub parse_desktop_file-render :
    (name command : List ℕ)
    → clean name ≡ true
    → clean command ≡ true
    → 0 < length name
    → 0 < length command
    → length name < 1000
    → length (escape command) < 1000
    → drop_while_end is_blank command ≡ command
    → parse_desktop_file (render name command) ≡ some (name, command)
unfolding parse_desktop_file
parse_desktop_file-render name command cn cc pn pc ln lc ends =
    ap (λ l. entry_of (read_lines l unread)) (rendered_lines name command cn cc ln lc)
    ∙ ap entry_of (read_rendered name (escape command))
    ∙ ap
        (λ n. entry_of (record {
          name = n;
          exec_raw = take 1023 (escape command);
          nodisplay = false;
          in_desktop_entry = true;
        }))
        (take_all 1023 name (omega (arith, ln)))
    ∙ ap
        (λ x.
          entry_of
            (record { name = name; exec_raw = x; nodisplay = false; in_desktop_entry = true }))
        (take_all 1023 (escape command) (omega (arith, lc)))
    ∙ entry_of_eq name (escape command) pn (omega (arith, pc, length-escape command))
    ∙ ap (λ x. some (name, drop_while_end is_blank x)) (expand-escape 1023 command)
    ∙ ap (λ x. some (name, drop_while_end is_blank x))
        (take_all 1023 command (omega (arith, lc, length-escape command)))
    ∙ ap (λ x. some (name, x)) ends
