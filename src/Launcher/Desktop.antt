-- ===== src/Launcher/Desktop.antt =====
-- parse_desktop_file of tools/ulaunch/src/mode_drun.c, on the bytes of the file. The arrays that it
-- appends to are one list of pairs.
use uwm.Base.{
  ℕ, zero, suc, ◌-◌, Bool, true, false, ◌&&◌, ◌||◌, Option, none, some, List, [], ◌∷◌, ◌==◌,
  if◌then◌else◌, length, take, drop,
}
use uwm.Launcher.Feed.{c_string}

-- BUF_LEN
abbrev pub buf_len : ℕ
buf_len = 1024

-- A byte in front of the first chunk.
unfoldable pub onto_first : ℕ → List (List ℕ) → List (List ℕ)
onto_first x [] = (x ∷ []) ∷ []
onto_first x (l ∷ ls) = (x ∷ l) ∷ ls

-- What the calls of `fgets` deliver: pieces that end behind a newline or when the buffer has no room
-- but for the terminating zero. `room` is what is left of it.
unfoldable pub chunks : (room : ℕ) → List ℕ → List (List ℕ)
unfolding onto_first
chunks room [] = []
chunks zero (x ∷ xs) = []
chunks (suc room) (x ∷ xs) = elim (x == 10 || room == 0) [
  | true ↦ (x ∷ []) ∷ chunks (buf_len - 1) xs
  | false ↦ onto_first x (chunks room xs)
]

-- Drop the last characters as long as they pass the test.
unfoldable pub drop_while_end : (ℕ → Bool) → List ℕ → List ℕ
drop_while_end p [] = []
drop_while_end p (x ∷ xs) =
    let rest = drop_while_end p xs in if p x && length rest == 0 then [] else x ∷ rest

unfoldable pub is_eol : ℕ → Bool
is_eol x = x == 10 || x == 13

unfoldable pub is_blank : ℕ → Bool
is_blank x = x == 32 || x == 9

-- strcmp(xs, ys) == 0
abbrev pub eq_string : (xs ys : List ℕ) → Bool
eq_string [] [] = true
eq_string [] (y ∷ ys) = false
eq_string (x ∷ xs) [] = false
eq_string (x ∷ xs) (y ∷ ys) = x == y && eq_string xs ys

-- strncmp(line, key, strlen(key)) == 0
abbrev pub starts_with : (key line : List ℕ) → Bool
starts_with [] line = true
starts_with (k ∷ ks) [] = false
starts_with (k ∷ ks) (x ∷ xs) = k == x && starts_with ks xs

-- "[Desktop Entry]", "NoDisplay=", "true", "Name=", "Exec="
abbrev pub desktop_entry : List ℕ
desktop_entry =
    91 ∷ 68 ∷ 101 ∷ 115 ∷ 107 ∷ 116 ∷ 111 ∷ 112 ∷ 32 ∷ 69 ∷ 110 ∷ 116 ∷ 114 ∷ 121 ∷ 93 ∷ []

abbrev pub no_display : List ℕ
no_display = 78 ∷ 111 ∷ 68 ∷ 105 ∷ 115 ∷ 112 ∷ 108 ∷ 97 ∷ 121 ∷ 61 ∷ []

abbrev pub true_word : List ℕ
true_word = 116 ∷ 114 ∷ 117 ∷ 101 ∷ []

abbrev pub name_key : List ℕ
name_key = 78 ∷ 97 ∷ 109 ∷ 101 ∷ 61 ∷ []

abbrev pub exec_key : List ℕ
exec_key = 69 ∷ 120 ∷ 101 ∷ 99 ∷ 61 ∷ []

pub record Desktop : Type 0 where
  pub name : List ℕ
  pub exec_raw : List ℕ
  pub nodisplay : Bool
  pub in_desktop_entry : Bool

-- Before the first line.
abbrev pub unread : Desktop
unread = record { name = []; exec_raw = []; nodisplay = false; in_desktop_entry = false }

-- The three tests on a line of the section, in their order. A copy leaves room for a zero.
unfoldable pub set_keys : List ℕ → Desktop → Desktop
set_keys line d =
    let hidden = starts_with no_display line && eq_string (drop 10 line) true_word in
    record d {
      nodisplay = if hidden then true else d.nodisplay;
      name = if starts_with name_key line then take (buf_len - 1) (drop 5 line) else d.name;
      exec_raw = if starts_with exec_key line then take (buf_len - 1) (drop 5 line) else d.exec_raw;
    }

-- A line without its line end.
unfoldable pub read_line : List ℕ → Desktop → Desktop
unfolding set_keys
read_line [] d = d
read_line (x ∷ xs) d =
    if x == 91
    then record d { in_desktop_entry = eq_string (x ∷ xs) desktop_entry }
    else if d.in_desktop_entry
    then set_keys (x ∷ xs) d
    else d

unfoldable pub read_lines : List (List ℕ) → Desktop → Desktop
unfolding read_line
read_lines [] d = d
read_lines (l ∷ ls) d = read_lines ls (read_line l d)

-- What stands behind a '%'.
pub data Field : Type 0 where
  percent dropped plain : Field

unfoldable pub field_of : (next : ℕ) → Field
field_of c =
    if c == 37
    then percent
    else if c == 102 || c == 70 || c == 117 || c == 85 || c == 105 || c == 99 || c == 107
    then dropped
    else plain

-- What the loop does at `src[0]` and `src[1]`.
unfoldable pub field_at : (c next : ℕ) → Field
unfolding field_of
field_at c next = if c == 37 then field_of next else plain

-- The loop that expands the fields of the command; `room` is what is left of the buffer.
unfoldable pub expand : (room : ℕ) → List ℕ → List ℕ
unfolding field_at
expand zero src = []
expand (suc room) [] = []
expand (suc room) (c ∷ []) = c ∷ []
expand (suc room) (c ∷ next ∷ src) = elim (field_at c next) [
  | percent ↦ 37 ∷ expand room src
  | dropped ↦ expand (suc room) src
  | plain ↦ c ∷ expand room (next ∷ src)
]

-- The pieces without their line ends: `strlen` stops at a zero.
unfoldable pub strip_lines : List (List ℕ) → List (List ℕ)
unfolding drop_while_end is_eol c_string
strip_lines [] = []
strip_lines (l ∷ ls) = drop_while_end is_eol (c_string l) ∷ strip_lines ls

-- The entry's name and command, if it is shown.
unfoldable pub entry_of : Desktop → Option (List ℕ × List ℕ)
unfolding expand drop_while_end is_blank
entry_of d =
    if d.nodisplay || length d.name == 0 || length d.exec_raw == 0
    then none
    else some (d.name, drop_while_end is_blank (expand (buf_len - 1) d.exec_raw))

unfoldable pub parse_desktop_file : (file : List ℕ) → Option (List ℕ × List ℕ)
unfolding chunks strip_lines read_lines entry_of
parse_desktop_file file = entry_of (read_lines (strip_lines (chunks (buf_len - 1) file)) unread)
