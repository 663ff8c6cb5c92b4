-- ===== src/Launcher/DesktopTests.antt =====
-- The theorems on desktop files, at an entry "Ab" with the command "x %u".
use uwm.Base.{ℕ, ◌<◌, ◌≡◌, refl, some, List, [], ◌∷◌, arith, length}
use uwm.Launcher.Desktop.{drop_while_end, is_blank, parse_desktop_file}
use uwm.Launcher.Parsed.{escape, render, parse_desktop_file-render}

abbrev name : List ℕ
name = 65 ∷ 98 ∷ []

abbrev command : List ℕ
command = 120 ∷ 32 ∷ 37 ∷ 117 ∷ []

short : length (escape command) < 1000
unfolding escape
short = omega arith

no_blank : drop_while_end is_blank command ≡ command
unfolding drop_while_end is_blank
no_blank = refl

parse_desktop_file-render_example : parse_desktop_file (render name command) ≡ some (name, command)
parse_desktop_file-render_example =
    parse_desktop_file-render name command refl refl (omega arith) (omega arith) (omega arith) short
      no_blank
