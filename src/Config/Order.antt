-- ===== src/Config/Order.antt =====
-- The order in which tasks run: `TaskNames`, `Ordered` and `ordered` of
-- internal/bitci/config.go. The depth-first `visit` takes fuel for its nested calls, one more
-- than there are tasks; the maps `seen` and `visiting` are lists of the names that they hold.
pub mod Names
pub mod Relations
pub mod Visit
pub mod Closure
pub mod Correct
use bitci.Prelude.{
  ℕ, zero, suc, Bool, true, false, Option, none, some, List, [], ◌∷◌, ◌++◌, length, ltb, contains,
  ◌==◌, if◌then◌else◌, list_eq, nat_eq,
}
use bitci.Prelude.Text.{Text}
use bitci.Prelude.Dict.{Dict, keys, lookup}
use bitci.Prelude.Result.{Result, ok, err, ◌>>=◌}
use bitci.Config.{Config, Task, ConfigError, dependency_cycle, unknown_task, out_of_fuel}

-- Go compares strings byte by byte.
unfoldable pub text_leb : Text → Text → Bool
text_leb [] t = true
text_leb (a ∷ s) [] = false
text_leb (a ∷ s) (b ∷ t) =
    let rest = text_leb s t in if ltb a b then true else if ltb b a then false else rest

unfoldable pub insert_name : Text → List Text → List Text
insert_name n [] = n ∷ []
insert_name n (m ∷ ms) = if text_leb n m then n ∷ m ∷ ms else m ∷ insert_name n ms

-- `sort.Strings`.
unfoldable pub sort_strings : List Text → List Text
sort_strings [] = []
sort_strings (n ∷ ns) = insert_name n (sort_strings ns)

unfoldable pub task_names : Config → List Text
task_names config = sort_strings (keys config.tasks)

pub record Search : Type 0 where
  pub seen : List Text
  pub visiting : List Text
  pub ordered : List Text

-- `visiting[name] = false`.
unfoldable pub unmark : Text → List Text → List Text
unmark n [] = []
unmark n (m ∷ ms) = let rest = unmark n ms in if n == m then rest else m ∷ rest

-- The loop over the names, which stops at the first error.
unfoldable pub visit_all :
    (Text → Search → Result ConfigError Search) → List Text → Search → Result ConfigError Search
visit_all visit [] s = ok s
visit_all visit (n ∷ ns) s = visit n s >>= λ s'. visit_all visit ns s'

abbrev pub enter : Text → Search → Search
enter name s = record s { visiting = name ∷ s.visiting }

unfoldable pub leave : Text → Search → Search
unfolding unmark
leave name s = record s {
  visiting = unmark name s.visiting;
  seen = name ∷ s.seen;
  ordered = s.ordered ++ name ∷ [];
}

unfoldable pub visit_task :
    (Text → Search → Result ConfigError Search)
    → Text
    → Search
    → Option Task
    → Result ConfigError Search
unfolding visit_all leave
visit_task visit name s none = err (unknown_task name)
visit_task visit name s (some task) =
    visit_all visit task.needs (enter name s) >>= λ s'. ok (leave name s')

unfoldable pub visit : Dict Text Task → ℕ → Text → Search → Result ConfigError Search
unfolding visit_task
visit tasks zero name s = err out_of_fuel
visit tasks (suc fuel) name s =
    if contains s.seen name
    then ok s
    else if contains s.visiting name
    then err (dependency_cycle name)
    else visit_task (visit tasks fuel) name s (lookup name tasks)

abbrev pub start : Search
start = record { seen = []; visiting = []; ordered = [] }

unfoldable pub ordered : Config → List Text → Result ConfigError (List Text)
ordered config names =
    visit_all (visit config.tasks (suc (length config.tasks))) names start >>= λ s. ok s.ordered
