-- ===== src/Launcher.antt =====
-- The launcher of tools/ulaunch: where the entries come from, what they score against the typed text, which of them are
-- shown, and what the keys do. Strings are lists of bytes without the terminating zero.
pub mod Match
pub mod Scored
pub mod Filter
pub mod Skim
pub mod Rescan
pub mod Feed
pub mod Room
pub mod Lines
pub mod Fed
pub mod Desktop
pub mod Parsed
pub mod Keys
pub mod Bounds
pub mod Pressed
mod Tests
mod KeyTests
mod FeedTests
mod DesktopTests
use uwm.Base.{ℕ, Bool, true, false, ◌≡◌}

-- The functions of the C library on characters.
pub record Chars : Type 0 where
  pub tolower : ℕ → ℕ
  pub isupper : ℕ → Bool
  pub islower : ℕ → Bool

-- The floating-point arithmetic that the scores use: the constants 0.0, 1.0, 0.5, 0.8 and 0.6, an
-- assignment `x += c`, the quotient by an integer, the product, the comparison `>` and
-- `1.0 + 0.3 * log10f(n + 1)`.
pub record Floats (F : Type 0) : Type 0 where
  pub zero_f : F
  pub one_f : F
  pub half_f : F
  pub eight_tenths : F
  pub six_tenths : F
  pub add : F → F → F
  pub over : F → ℕ → F
  pub mul : F → F → F
  pub gt : F → F → Bool
  pub boost : ℕ → F

-- What the launcher relies on: a sum of scores, all at least 1.0, stays so when a constant is added;
-- its quotient by a length, and the product of that with a boost, are still positive.
pub record Lawful {F : Type 0} (f : Floats F) (AtLeastOne : F → Type 0) : Type 0 where
  pub not_gt_zero : f.gt f.zero_f f.zero_f ≡ false
  pub one_gt_zero : f.gt f.one_f f.zero_f ≡ true
  pub add_zero : AtLeastOne (f.add f.zero_f f.one_f)
  pub add_one : (x : F) → AtLeastOne x → AtLeastOne (f.add x f.one_f)
  pub add_half : (x : F) → AtLeastOne x → AtLeastOne (f.add x f.half_f)
  pub add_eight_tenths : (x : F) → AtLeastOne x → AtLeastOne (f.add x f.eight_tenths)
  pub add_six_tenths : (x : F) → AtLeastOne x → AtLeastOne (f.add x f.six_tenths)
  pub over_gt_zero : (x : F) (n : ℕ) → AtLeastOne x → f.gt (f.over x n) f.zero_f ≡ true
  pub mul_gt_zero :
      (x : F) (h : ℕ) → f.gt x f.zero_f ≡ true → f.gt (f.mul x (f.boost h)) f.zero_f ≡ true
