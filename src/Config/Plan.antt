-- ===== src/Config/Plan.antt =====
-- `Config.Plan` and `matchesAny` of internal/bitci/config.go: the tasks that changed paths call for.
-- `filepath.Match` is a parameter, true where the pattern matches; paths are those of Unix.
use bitci.Prelude.{
  Bool, false, ◌&&◌, ◌||◌, List, [], ◌∷◌, ◌==◌, if◌then◌else◌, nat_eq, list_eq, none, some,
}
use bitci.Prelude.Text.{Text, codes}
use bitci.Prelude.Strings.{is_empty, has_prefix, has_suffix, trim_suffix}
use bitci.Prelude.Dict.{lookup}
use bitci.Prelude.Result.{Result}
use bitci.Config.{Config, Task, ConfigError}
use bitci.Config.Order.{ordered, task_names}

module _ (match : Text → Text → Bool) where
  unfoldable pub matches_path : Text → Text → Bool
  matches_path pattern path =
      pattern == codes "**"
      || pattern == codes "*"
      || pattern == path
      || (has_suffix pattern (codes "/**") && has_prefix path (trim_suffix pattern (codes "**")))
      || match pattern path

  unfoldable pub matches_one : Text → List Text → Bool
  matches_one pattern [] = false
  matches_one pattern (path ∷ paths) = matches_path pattern path || matches_one pattern paths

  unfoldable pub matches_any : List Text → List Text → Bool
  matches_any [] paths = false
  matches_any (pattern ∷ patterns) paths = matches_one pattern paths || matches_any patterns paths

  -- A task without paths runs at every change.
  abbrev pub is_called_for : List Text → Task → Bool
  is_called_for changed task = is_empty task.paths || matches_any task.paths changed

  unfoldable pub select_tasks : Config → List Text → List Text → List Text
  select_tasks config changed [] = []
  select_tasks config changed (name ∷ names) =
      let rest = select_tasks config changed names in
      elim (lookup name config.tasks) [
        | none ↦ name ∷ rest
        | some task ↦ if is_called_for changed task then name ∷ rest else rest
      ]

  unfoldable pub plan : Config → List Text → Result ConfigError (List Text)
  plan config [] = ordered config (task_names config)
  plan config (path ∷ paths) =
      ordered config (select_tasks config (path ∷ paths) (task_names config))
