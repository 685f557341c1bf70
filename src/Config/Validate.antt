-- ===== src/Config/Validate.antt =====
-- The checks of `Config.Validate` (internal/bitci/config.go), in the order of the source. A loop
-- over a map visits the entries in the list's order; Go's own order is not fixed.
pub mod Sound
pub mod Orders
use bitci.Prelude.{
  ℕ, Bool, true, false, not, ◌&&◌, ◌||◌, List, [], ◌∷◌, leb, ltb, contains, ◌==◌, if◌then◌else◌,
  list_eq, nat_eq,
}
use bitci.Prelude.Text.{Text}
use bitci.Prelude.Strings.{is_empty}
use bitci.Prelude.Int.{ℤ, pos, ltℤ, int_eq}
use bitci.Prelude.Dict.{Dict, lookup, is_some}
use bitci.Prelude.Result.{Result, ok, err, guard, each, ◌>>=◌, ◌>>◌}
use bitci.Config.{
  Config, Task, ConfigError, bad_version, no_tasks, empty_prepare, negative_log_retention,
  empty_redact, redact_line_break, bad_limit, no_argv, negative_timeout, negative_max_retries,
  bad_variable, nul_in_value, unknown_need, unknown_resource, repeated_resource,
}
use bitci.Config.Order.{ordered, task_names}

abbrev pub Checked : Type 0
Checked = Result ConfigError (Unit {0})

-- The argv's first word is present and not empty.
abbrev pub names_command : List Text → Bool
names_command [] = false
names_command (c ∷ cs) = not (is_empty c)

unfoldable pub is_name_byte : Bool → ℕ → Bool
is_name_byte first c =
    c == b'_'
    || (leb b'A' c && leb c b'Z')
    || (leb b'a' c && leb c b'z')
    || (not first && (leb b'0' c && leb c b'9'))

unfoldable pub valid_name_from : Bool → Text → Bool
unfolding is_name_byte
valid_name_from first [] = true
valid_name_from first (c ∷ cs) = is_name_byte first c && valid_name_from false cs

unfoldable pub valid_environment_name : Text → Bool
unfolding valid_name_from
valid_environment_name value = not (is_empty value) && valid_name_from true value

unfoldable pub check_redact : Text → Checked
check_redact value = do
  guard (not (is_empty value)) empty_redact
  guard (not (contains value b'\r' || contains value b'\n')) redact_line_break

unfoldable pub check_limit : Text × ℤ → Checked
check_limit (name, limit) = guard (not (is_empty name || ltℤ limit (pos 1))) (bad_limit name)

unfoldable pub check_variable : Text → Text × Text → Checked
unfolding valid_environment_name
check_variable name (variable, value) = do
  guard (valid_environment_name variable) (bad_variable name variable)
  guard (not (contains value 0)) (nul_in_value name variable)

unfoldable pub check_need : Config → Text → Text → Checked
check_need config name need = guard (is_some (lookup need config.tasks)) (unknown_need name need)

-- `used` is the source's map of the resources met so far.
unfoldable pub check_resources : Config → Text → List Text → List Text → Checked
check_resources config name used [] = ok tt
check_resources config name used (r ∷ rs) =
    guard (is_some (lookup r config.resources)) (unknown_resource name r)
    >> guard (not (contains used r)) (repeated_resource name r)
    >>= λ _. check_resources config name (r ∷ used) rs

unfoldable pub check_task : Config → Text × Task → Checked
check_task config (name, task) = do
  guard (not (is_empty name) && names_command task.run) (no_argv name)
  guard (not (ltℤ task.timeout (pos 0))) (negative_timeout name)
  guard (not (ltℤ task.max_retries (pos 0))) (negative_max_retries name)
  each (check_variable name) task.env
  each (check_need config name) task.needs
  check_resources config name [] task.resources

unfoldable pub check_order : Config → Checked
check_order config = ordered config (task_names config) >>= λ _. ok tt

unfoldable pub validate : Config → Checked
validate config = do
  guard (config.version == pos 1) bad_version
  guard (not (is_empty config.tasks)) no_tasks
  guard (is_empty config.prepare || names_command config.prepare) empty_prepare
  guard (not (ltℤ config.log_retention (pos 0))) negative_log_retention
  each check_redact config.redact
  each check_limit config.resources
  each (check_task config) config.tasks
  check_order config
