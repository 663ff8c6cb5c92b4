-- ===== src/Launcher/Feed.antt =====
-- The entries that arrive on the standard input: tools/ulaunch/src/mode_dmenu.c. Whether an
-- allocation succeeds and what `read` returns are parameters; capacities stay below 2^31.
use uwm.Base.{
  ℕ, ◌-◌, ◌*◌, Bool, true, false, ◌&&◌, not, Option, none, some, List, [], ◌∷◌, ◌++◌, ◌==◌, ltb,
  leb, if◌then◌else◌, length,
}
use uwm.Launcher.Filter.{filter_reserve}

-- `buf` is the first `dmenu_buf_len` bytes of `dmenu_buf`.
pub record Stream : Type 0 where
  pub entries : List (List ℕ)
  pub cap_entries : ℕ
  pub filter_cap : ℕ
  pub buf : List ℕ
  pub stdin_done : Bool

-- Which allocations succeed: of the array of entries, of the filter's arrays and of a copied line.
pub record Memory : Type 0 where
  pub entries : ℕ → Bool
  pub filter : ℕ → Bool
  pub copy : List ℕ → Bool

-- What `read` returns: -1 with EAGAIN or EWOULDBLOCK, -1 with another error, or bytes. No bytes are
-- the end of the input.
pub data Read : Type 0 where
  again failed : Read
  bytes : List ℕ → Read

-- ENTRIES_INIT
abbrev pub entries_init : ℕ
entries_init = 256

-- sizeof(state.dmenu_buf) - 1
abbrev pub line_max : ℕ
line_max = 4095

-- '\n'
abbrev pub newline : ℕ
newline = 10

-- What `strdup` copies: the bytes in front of the first zero.
unfoldable pub c_string : List ℕ → List ℕ
c_string [] = []
c_string (x ∷ xs) = let rest = c_string xs in if x == 0 then [] else x ∷ rest

unfoldable pub grow_arrays : Memory → Stream → Stream × Bool
unfolding filter_reserve
grow_arrays m s =
    let new_cap = s.cap_entries * 2 in
    let (cap, ok) = filter_reserve m.filter s.filter_cap new_cap in
    if not (m.entries new_cap)
    then (s, false)
    else if ok
    then (record s { cap_entries = new_cap; filter_cap = cap }, true)
    else (record s { filter_cap = cap }, false)

-- push_entry behind its test of the capacity.
unfoldable pub append_entry : Memory → List ℕ → Stream → Stream × Bool
unfolding c_string filter_reserve
append_entry m line s =
    let entries = s.entries ++ c_string line ∷ [] in
    let (cap, ok) = filter_reserve m.filter s.filter_cap (length entries) in
    if m.copy (c_string line)
    then (record s { entries = entries; filter_cap = cap }, ok)
    else (s, false)

unfoldable pub push_entry : Memory → List ℕ → Stream → Stream × Bool
unfolding grow_arrays append_entry
push_entry m line s =
    let (s', grown) = grow_arrays m s in
    if leb s.cap_entries (length s.entries)
    then if grown then append_entry m line s' else (s', false)
    else append_entry m line s

-- `if (state.dmenu_buf_len > 0) { ... }`
unfoldable pub flush : Memory → Stream → Stream
unfolding push_entry
flush m s = if ltb 0 (length s.buf) then (push_entry m s.buf (record s { buf = [] })).0 else s

unfoldable pub feed_byte : Memory → ℕ → Stream → Stream
unfolding flush
feed_byte m b s =
    if b == newline
    then flush m s
    else if ltb (length s.buf) line_max
    then record s { buf = s.buf ++ b ∷ [] }
    else s

-- The loop over the bytes of one read.
unfoldable pub feed : Memory → List ℕ → Stream → Stream
unfolding feed_byte
feed m [] s = s
feed m (b ∷ bs) s = feed m bs (feed_byte m b s)

-- The state after the read, and how many entries it brought.
unfoldable pub dmenu_pump : Memory → Read → Stream → Stream × ℕ
unfolding feed flush
dmenu_pump m again s = (s, 0)
dmenu_pump m failed s = (record s { stdin_done = true }, 0)
dmenu_pump m (bytes []) s =
    let s' = record (flush m s) { stdin_done = true } in (s', length s'.entries - length s.entries)
dmenu_pump m (bytes (b ∷ bs)) s =
    let s' = feed m (b ∷ bs) s in (s', length s'.entries - length s.entries)

-- The reads of the main loop, which polls the input until it is done.
unfoldable pub pump_all : Memory → List Read → Stream → Stream
unfolding dmenu_pump
pump_all m [] s = s
pump_all m (r ∷ rs) s =
    let rest = pump_all m rs (dmenu_pump m r s).0 in if s.stdin_done then s else rest

-- `none` if mode_dmenu returns 1: a failed `fcntl` or allocation.
unfoldable pub mode_dmenu : (nonblocking : Bool) → Memory → Read → (filter_cap : ℕ) → Option Stream
unfolding dmenu_pump filter_reserve
mode_dmenu nonblocking m r filter_cap =
    let (cap, ok) = filter_reserve m.filter filter_cap entries_init in
    let s : Stream = record {
      entries = [];
      cap_entries = entries_init;
      filter_cap = cap;
      buf = [];
      stdin_done = false;
    } in
    if nonblocking && (m.entries entries_init && ok) then some (dmenu_pump m r s).0 else none
