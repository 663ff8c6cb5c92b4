-- ===== src/Launcher/KeyTests.antt =====
-- The theorems on the launcher's keys: two entries, one of them shown, and "f" typed.
use uwm.Base.{ℕ, refl, true, false, none, some, [], arith}
use uwm.Base.Int.{pos}
use uwm.Launcher.Keys.{Launcher, drun, page_down, input_repeat_fire}
use uwm.Launcher.Bounds.{IsBounded}
use uwm.Launcher.Pressed.{input_repeat_fire-IsBounded}
use uwm.Launcher.Tests.{ascii, tenths, typed}

abbrev open_launcher : Launcher ℕ
open_launcher = record {
  filter = typed;
  running = true;
  need_redraw = false;
  mode = drun;
  exec_cmds = none;
  max_items = pos 10;
  input_cursor = 0;
  repeat_key = some 104;
  repeat_sym = page_down;
  repeat_ctrl = false;
  repeat_utf8 = [];
  repeat_delay_ms = pos 300;
  repeat_rate_ms = pos 20;
  effects = [];
}

open_launcher-IsBounded : IsBounded open_launcher
open_launcher-IsBounded = (omega arith, (omega arith, omega arith))

input_repeat_fire-IsBounded_example :
    IsBounded (input_repeat_fire ascii tenths (λ xs. xs) true (λ n. true) open_launcher)
input_repeat_fire-IsBounded_example =
    input_repeat_fire-IsBounded ascii tenths (λ xs. xs) true (λ n. true) open_launcher refl
      open_launcher-IsBounded
