-- ===== src/Bsp.antt =====
-- The layout tree of include/wm/bsp.h and src/wm/bsp.c: nodes in a static pool, linked by parent
-- and child pointers. A node is named by its index in the pool, a window by its index in the pool
-- of toplevels; a pointer that may be NULL is a `Link`.
pub mod Pool
pub mod Find
pub mod Edit
pub mod Remove
pub mod Restore
pub mod Forest
pub mod Nav
pub mod Tree
mod Tests
use uwm.Base.{ℕ, Bool, ◌==◌, Link, if◌then◌else◌}
use uwm.Base.Int.{ℤ}

pub data Split : Type 0 where
  vertical horizontal : Split

pub data Mode : Type 0 where
  bsp monocle : Mode

-- A float is the bit pattern of an IEEE binary32 number; the tree code only copies ratios.
abbrev pub Float : Type 0
Float = ℕ

-- 0.5f
abbrev pub half : Float
half = 0x3f000000

pub record Node : Type 0 where
  pub parent : Link
  pub first : Link
  pub second : Link
  pub toplevel : Link
  pub split : Split
  pub ratio : Float
  pub x : ℤ
  pub y : ℤ
  pub width : ℤ
  pub height : ℤ
  pub mode : Mode
  pub active_child : Link

abbrev pub Nodes : Type 0
Nodes = ℕ → Node

unfoldable pub write : Nodes → ℕ → Node → Nodes
write h a n b = if b == a then n else h b

-- The fields of `struct uwm_toplevel` that the tree code reads or writes.
pub record Toplevel : Type 0 where
  pub bsp_leaf : Link
  pub bsp_saved : Bool
  pub bsp_saved_sibling : Link
  pub bsp_saved_split : Split
  pub bsp_saved_ratio : Float
  pub bsp_saved_mode : Mode
  pub bsp_saved_depth : ℕ
  pub bsp_saved_is_second : Bool

abbrev pub Windows : Type 0
Windows = ℕ → Toplevel

-- The pool (`nodes`, `freelist`, `count`) and the windows' back pointers.
pub record State : Type 0 where
  pub nodes : Nodes
  pub freelist : Link
  pub count : ℕ
  pub windows : Windows

pub record Workspace : Type 0 where
  pub root : Link
  pub focused : Link
  pub tree_gen : ℕ

-- `toplevel->bsp_leaf = leaf`
unfoldable pub set_leaf : Windows → ℕ → Link → Windows
set_leaf ws t leaf u = if u == t then record (ws t) { bsp_leaf = leaf } else ws u
