-- ===== src/Launcher/FeedTests.antt =====
-- The theorems on the input stream of the launcher, at the lines "ab" and "c" in three reads.
use uwm.Base.{◌+◌, ◌≡◌, refl, true, false, List, [], ◌∷◌, ◌++◌, arith, length}
use uwm.Launcher.Feed.{c_string, Stream, Memory, Read, again, bytes, dmenu_pump, pump_all}
use uwm.Launcher.Fed.{Plenty, content, pump_all-lines}
use uwm.Launcher.Lines.{lines, line_entries}
use uwm.Launcher.Room.{Room, dmenu_pump-Room}

abbrev ample : Memory
ample = record { entries = λ n. true; filter = λ n. true; copy = λ l. true }

ample-Plenty : Plenty ample
ample-Plenty = record { entries = λ n. refl; filter = λ n. refl; copy = λ l. refl }

abbrev scarce : Memory
scarce = record { entries = λ n. false; filter = λ n. false; copy = λ l. true }

abbrev empty : Stream
empty = record { entries = []; cap_entries = 256; filter_cap = 4096; buf = []; stdin_done = false }

abbrev reads : List Read
reads = bytes (97 ∷ []) ∷ again ∷ bytes (98 ∷ 10 ∷ 99 ∷ []) ∷ []

abbrev stopped : Stream
stopped = pump_all ample (reads ++ bytes [] ∷ []) empty

pump_all-lines_example :
    (stopped.entries ≡ [] ++ line_entries (lines (content reads))) × (stopped.stdin_done ≡ true)
pump_all-lines_example = pump_all-lines ample reads empty ample-Plenty refl refl refl

lines_of_reads : line_entries (lines (content reads)) ≡ (97 ∷ 98 ∷ []) ∷ (99 ∷ []) ∷ []
unfolding line_entries lines c_string
lines_of_reads = refl

empty-Room : Room empty
empty-Room = record { buf = omega arith; entries = omega arith; cap = omega arith }

dmenu_pump-Room_example :
    let (s', n) = dmenu_pump scarce (bytes (97 ∷ 10 ∷ [])) empty in
    Room s' × (length s'.entries ≡ 0 + n)
dmenu_pump-Room_example = dmenu_pump-Room scarce (bytes (97 ∷ 10 ∷ [])) empty empty-Room
