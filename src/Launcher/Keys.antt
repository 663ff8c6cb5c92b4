-- ===== src/Launcher/Keys.antt =====
-- The keys of the launcher: emit, the key repeat and handle_press of tools/ulaunch/src/input.c. What
-- goes to the outside, a line on the standard output, a command for the shell or a setting of the
-- timer, is recorded as an effect, latest first. `text` is `input` up to `input_len`; the key
-- number UINT32_MAX, which says that no key repeats, is `none`.
use uwm.Base.{
  ℕ, ◌+◌, ◌-◌, ◌%◌, suc, take, Bool, true, false, not, ◌&&◌, Option, none, some, List, [], ◌∷◌,
  ◌++◌, set, ◌==◌, ltb, if◌then◌else◌, length, get_or, get_elem?, Link, ◌=?◌, is_some,
}
use uwm.Base.Int.{ℤ, pos, negsuc, ltb_ℤ, ◌+ℤ◌, ◌-ℤ◌}
use uwm.Launcher.{Chars, Floats}
use uwm.Launcher.Filter.{Filter, filter_update}

-- INPUT_BUF_MAX
abbrev pub input_buf_max : ℕ
input_buf_max = 512

-- The key symbols that the handlers name; `other` is any other one.
pub data Sym : Type 0 where
  escape enter kp_enter up kp_up down kp_down page_up page_down home end_key backspace tab : Sym
  letter_w letter_u letter_a letter_e letter_c letter_i other : Sym

pub data Mode : Type 0 where
  dmenu drun : Mode

pub data Effect : Type 0 where
  print : List ℕ → Effect
  run : List ℕ → Effect
  arm : (delay rate : ℤ) → Effect
  disarm : Effect

pub record Launcher (F : Type 0) : Type 0 where
  pub filter : Filter F
  pub running : Bool
  pub need_redraw : Bool
  pub mode : Mode
  pub exec_cmds : Option (List (Option (List ℕ)))
  pub max_items : ℤ
  pub input_cursor : ℕ
  pub repeat_key : Link
  pub repeat_sym : Sym
  pub repeat_ctrl : Bool
  pub repeat_utf8 : List ℕ
  pub repeat_delay_ms : ℤ
  pub repeat_rate_ms : ℤ
  pub effects : List Effect

-- `state.input[--state.input_len] = '\0'`
abbrev pub drop_last : List ℕ → List ℕ
drop_last [] = []
drop_last (x ∷ []) = []
drop_last (x ∷ y ∷ xs) = x ∷ drop_last (y ∷ xs)

-- The loops of ctrl+w: characters that fit are dropped at the end.
abbrev pub keep_front : Bool → ℕ → List ℕ → List ℕ
keep_front true x [] = []
keep_front fits x rest = x ∷ rest

abbrev pub trim_end : (ℕ → Bool) → List ℕ → List ℕ
trim_end fits [] = []
trim_end fits (x ∷ xs) = keep_front (fits x) x (trim_end fits xs)

-- `%` of C, which has the sign of the first operand.
unfoldable pub remainder : ℤ → ℕ → ℤ
remainder (pos a) n = pos (a % n)
remainder (negsuc a) n = pos 0 -ℤ pos (suc a % n)

-- The size of `buf` in handle_press and of `repeat_utf8`.
abbrev pub utf8_size : ℕ
utf8_size = 8

-- `state.hits[entry_idx]++`, where there are counts.
unfoldable pub count_hit : Option (List ℕ) → ℕ → Option (List ℕ)
count_hit none i = none
count_hit (some hs) i = some (set hs i (get_or hs i 0 + 1))

module _ {F : Type 0} where
  abbrev pub n_filtered : Launcher F → ℤ
  n_filtered s = pos (length s.filter.filtered)

  abbrev pub with_cursor : Launcher F → ℤ → Launcher F
  with_cursor s cursor = record s { filter = record s.filter { cursor = cursor } }

  abbrev pub with_text : Launcher F → List ℕ → Launcher F
  with_text s text = record s { filter = record s.filter { input = text } }

  abbrev pub redraw : Launcher F → Launcher F
  redraw s = record s { need_redraw = true }

  abbrev pub stop : Launcher F → Launcher F
  stop s = record s { running = false }

  abbrev pub effect : Launcher F → Effect → Launcher F
  effect s e = record s { effects = e ∷ s.effects }

  unfoldable pub repeat_stop : Launcher F → Launcher F
  repeat_stop s = record s { repeat_key = none; effects = disarm ∷ s.effects }

  unfoldable pub repeat_start : Launcher F → Sym → ℕ → Bool → Launcher F
  repeat_start s sym raw_key ctrl = record s {
    repeat_key = some raw_key;
    repeat_sym = sym;
    repeat_ctrl = ctrl;
    repeat_utf8 = [];
    effects =
        arm (if ltb_ℤ (pos 0) s.repeat_delay_ms then s.repeat_delay_ms else pos 300)
          (if ltb_ℤ (pos 0) s.repeat_rate_ms then s.repeat_rate_ms else pos 20)
        ∷ s.effects;
  }

  -- The command of an entry, or none: NULL for the array or for the entry.
  unfoldable pub command : Launcher F → ℕ → Option (List ℕ)
  command s i = elim s.exec_cmds [ none ↦ none | some cs ↦ get_or cs i none ]

  unfoldable pub emit_line : Launcher F → Mode → List ℕ → Launcher F
  emit_line s dmenu line = stop (effect s (print line))
  emit_line s drun line = stop (effect s (run line))

  -- Without an entry, the text itself is emitted, if there is any.
  unfoldable pub emit_raw : Launcher F → (text : List ℕ) → Launcher F
  unfolding emit_line
  emit_raw s [] = stop s
  emit_raw s (x ∷ xs) = emit_line s s.mode s.filter.input

  unfoldable pub launch : Launcher F → ℕ → Option (List ℕ) → Launcher F
  unfolding count_hit
  launch s i none = stop (effect s (print (get_or s.filter.entries i [])))
  launch s i (some cmd) = stop (
      effect (record s { filter = record s.filter { hits = count_hit s.filter.hits i } }) (run cmd))

  -- Only MODE_DRUN looks for a command.
  unfoldable pub mode_command : Launcher F → Mode → ℕ → Option (List ℕ)
  unfolding command
  mode_command s dmenu i = none
  mode_command s drun i = command s i

  unfoldable pub emit_at : Launcher F → Option (ℕ × F) → Launcher F
  unfolding emit_raw launch mode_command
  emit_at s none = emit_raw s s.filter.input
  emit_at s (some p) = launch s p.0 (mode_command s s.mode p.0)

  unfoldable pub emit : Launcher F → ℤ → Launcher F
  unfolding emit_at emit_raw
  emit s (negsuc n) = emit_raw s s.filter.input
  emit s (pos idx) = emit_at s (get_elem? s.filter.filtered idx)

  unfoldable pub cursor_up : Launcher F → Launcher F
  cursor_up s = redraw (
      with_cursor s
        (if ltb_ℤ (pos 0) s.filter.cursor then s.filter.cursor -ℤ pos 1 else s.filter.cursor))

  unfoldable pub cursor_down : Launcher F → Launcher F
  cursor_down s = redraw (
      with_cursor s (
        if ltb_ℤ s.filter.cursor (n_filtered s -ℤ pos 1)
        then s.filter.cursor +ℤ pos 1
        else s.filter.cursor))

  unfoldable pub cursor_page_up : Launcher F → Launcher F
  cursor_page_up s = redraw (
      with_cursor s (
        if ltb_ℤ (s.filter.cursor -ℤ s.max_items) (pos 0)
        then pos 0
        else s.filter.cursor -ℤ s.max_items))

  unfoldable pub cursor_page_down : Launcher F → Launcher F
  cursor_page_down s = redraw (
      with_cursor s (
        if ltb_ℤ (s.filter.cursor +ℤ s.max_items) (n_filtered s)
        then s.filter.cursor +ℤ s.max_items
        else n_filtered s -ℤ pos 1))

  unfoldable pub cursor_end : Launcher F → Launcher F
  cursor_end s = redraw (with_cursor s (n_filtered s -ℤ pos 1))

  unfoldable pub cursor_tab : Launcher F → Launcher F
  unfolding remainder
  cursor_tab s =
      if ltb_ℤ (pos 0) (n_filtered s)
      then redraw (with_cursor s (remainder (s.filter.cursor +ℤ pos 1) (length s.filter.filtered)))
      else s

module _ {F : Type 0} (c : Chars) (f : Floats F) (sorted : List (ℕ × F) → List (ℕ × F))
    (temporaries : Bool) (alloc : ℕ → Bool) where
  abbrev pub refilter : Launcher F → Launcher F
  refilter s = redraw (record s { filter = filter_update c f sorted temporaries alloc s.filter })

  unfoldable pub erase_from : Launcher F → (text : List ℕ) → Launcher F
  erase_from s [] = s
  erase_from s (x ∷ xs) =
      let text = drop_last (x ∷ xs) in
      refilter (record (with_text s text) {
        input_cursor = if ltb (length text) s.input_cursor then length text else s.input_cursor;
      })

  unfoldable pub erase : Launcher F → Launcher F
  unfolding erase_from
  erase s = erase_from s s.filter.input

  unfoldable pub erase_word : Launcher F → Launcher F
  erase_word s =
      refilter
        (with_text s (trim_end (λ b. not (b == b' ')) (trim_end (λ b. b == b' ') s.filter.input)))

  unfoldable pub ctrl_press : Launcher F → Sym → Launcher F
  unfolding erase_word cursor_end
  ctrl_press s letter_w = erase_word s
  ctrl_press s letter_u = refilter (with_text s [])
  ctrl_press s letter_a = redraw (with_cursor s (pos 0))
  ctrl_press s letter_e = cursor_end s
  ctrl_press s letter_c = stop s
  ctrl_press s _ = s

  -- Is there room for `n` more bytes?
  abbrev pub has_room : Launcher F → ℕ → Bool
  has_room s n = ltb (length s.filter.input + n) (input_buf_max - 1)

  -- `buf` holds the bytes of the key.
  unfoldable pub insert_buf : Launcher F → Sym → ℕ → Bool → (buf : List ℕ) → Launcher F
  unfolding repeat_start
  insert_buf s sym raw_key ctrl buf =
      if ltb 0 (length buf) && has_room s (length buf)
      then (record (repeat_start (refilter (with_text s (s.filter.input ++ buf))) sym raw_key
          ctrl) { repeat_utf8 = buf })
      else s

  -- `utf8` is what xkb_state_key_get_utf8 has for the key. Of a text that is longer than `buf`, only
  -- the bytes that fit are there; the code does not test for that.
  unfoldable pub insert_text : Launcher F → Sym → ℕ → Bool → (utf8 : List ℕ) → Launcher F
  unfolding insert_buf
  insert_text s sym raw_key ctrl utf8 = insert_buf s sym raw_key ctrl (take utf8_size utf8)

  unfoldable pub handle_press : Launcher F → Sym → ℕ → Bool → (utf8 : List ℕ) → Launcher F
  unfolding repeat_start repeat_stop emit cursor_up cursor_down cursor_page_up cursor_page_down
      cursor_end cursor_tab erase ctrl_press insert_text
  handle_press s escape raw ctrl utf8 = stop (repeat_stop s)
  handle_press s enter raw ctrl utf8 = emit (repeat_stop s) s.filter.cursor
  handle_press s kp_enter raw ctrl utf8 = emit (repeat_stop s) s.filter.cursor
  handle_press s up raw ctrl utf8 = repeat_start (cursor_up s) up raw ctrl
  handle_press s kp_up raw ctrl utf8 = repeat_start (cursor_up s) kp_up raw ctrl
  handle_press s down raw ctrl utf8 = repeat_start (cursor_down s) down raw ctrl
  handle_press s kp_down raw ctrl utf8 = repeat_start (cursor_down s) kp_down raw ctrl
  handle_press s page_up raw ctrl utf8 = repeat_start (cursor_page_up s) page_up raw ctrl
  handle_press s page_down raw ctrl utf8 = repeat_start (cursor_page_down s) page_down raw ctrl
  handle_press s home raw ctrl utf8 = if ctrl then redraw (with_cursor s (pos 0)) else s
  handle_press s end_key raw ctrl utf8 = if ctrl then cursor_end s else s
  handle_press s backspace raw ctrl utf8 = repeat_start (erase s) backspace raw ctrl
  handle_press s tab raw ctrl utf8 = repeat_start (cursor_tab s) tab raw ctrl
  handle_press s sym raw ctrl utf8 =
      if ctrl then ctrl_press s sym else insert_text s sym raw ctrl utf8

  -- The repetition of a key that has no text.
  unfoldable pub repeat_sym_fire : Launcher F → Sym → Launcher F
  unfolding cursor_up cursor_down cursor_page_up cursor_page_down cursor_tab erase
  repeat_sym_fire s up = cursor_up s
  repeat_sym_fire s kp_up = cursor_up s
  repeat_sym_fire s down = cursor_down s
  repeat_sym_fire s kp_down = cursor_down s
  repeat_sym_fire s page_up = cursor_page_up s
  repeat_sym_fire s page_down = cursor_page_down s
  repeat_sym_fire s backspace = erase s
  repeat_sym_fire s tab = cursor_tab s
  repeat_sym_fire s _ = s

  unfoldable pub input_repeat_fire : Launcher F → Launcher F
  unfolding repeat_sym_fire
  input_repeat_fire s =
      if not (is_some s.repeat_key)
      then s
      else if ltb 0 (length s.repeat_utf8)
      then (if has_room s (length s.repeat_utf8)
          then refilter (with_text s (s.filter.input ++ s.repeat_utf8))
          else s)
      else repeat_sym_fire s s.repeat_sym

  -- keyboard_key, behind the check that there is a keymap: `sym`, `ctrl` and `utf8` are what the
  -- keyboard library answers for the key.
  unfoldable pub keyboard_key :
      Launcher F → (key : ℕ) (released : Bool) → Sym → Bool → (utf8 : List ℕ) → Launcher F
  unfolding repeat_stop handle_press
  keyboard_key s key released sym ctrl utf8 =
      if released
      then (if s.repeat_key =? some key then repeat_stop s else s)
      else handle_press s sym key ctrl utf8
