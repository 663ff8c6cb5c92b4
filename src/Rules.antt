-- ===== src/Rules.antt =====
-- Window rules, src/wm/rules.c: the glob matcher and the test of a rule against a window. A C string
-- is the list of its bytes, without the final NUL; a pointer to one that may be NULL is an Option.
pub mod Glob
mod Tests
use uwm.Base.{ℕ, Bool, true, false, Option, none, some, List}
use Glob.{glob_match}

pub record Rule : Type 0 where
  pub app_id : Option (List ℕ)
  pub title : Option (List ℕ)
  pub workspace : ℕ
  pub set_floating : Bool
  pub set_fullscreen : Bool

-- One line of rule_matches: a rule without the field accepts every window.
unfoldable pub field_matches : ℕ → Option (List ℕ) → Option (List ℕ) → Option Bool
field_matches k none string = some true
field_matches k (some pattern) string = glob_match k (some pattern) string

unfoldable pub rule_matches : ℕ → Rule → Option (List ℕ) → Option (List ℕ) → Option Bool
unfolding field_matches
rule_matches k rule app_id title = elim (field_matches k rule.app_id app_id) [
  | none ↦ none
  | some false ↦ some false
  | some true ↦ field_matches k rule.title title
]
