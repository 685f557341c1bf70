-- ===== src/Tests/Tasks.antt =====
-- Tests of the configuration and the order of tasks.
use bitci.Prelude.{true, List, [], ◌∷◌, ◌≡◌, refl, arith, contains, nat_eq, list_eq}
use bitci.Prelude.Text.{Text, codes}
use bitci.Prelude.Int.{int_eq}
use bitci.Prelude.Dict.{lookup, is_some}
use bitci.Prelude.Result.{ok, err}
use bitci.Config.{unknown_task}
use bitci.Config.Order.{ordered, visit, visit_task, visit_all, leave, unmark, task_names}
use bitci.Config.Order.Visit.{Explains}
use bitci.Config.Order.Correct.{IsRunOrder, ordered-IsRunOrder, ordered-Explains}
use bitci.Config.Order.Names.{IsSorted, task_names-lists}
use bitci.Config.Validate.Sound.{IsAccepted, validate-IsAccepted}
use bitci.Config.Validate.Orders.{validate-ordered}
use bitci.Prelude.Dict.{keys}
use bitci.Tests.Sample.{build, test, config, config_valid}

test_order : ordered config (test ∷ []) ≡ ok (build ∷ test ∷ [])
unfolding ordered visit visit_task visit_all leave unmark nat_eq list_eq
test_order = refl

unknown_order : ordered config (codes "u" ∷ []) ≡ err (unknown_task (codes "u"))
unfolding ordered visit visit_task visit_all leave unmark nat_eq list_eq
unknown_order = refl

ordered-IsRunOrder_example : IsRunOrder config.tasks (test ∷ []) (build ∷ test ∷ [])
ordered-IsRunOrder_example = ordered-IsRunOrder config (test ∷ []) (build ∷ test ∷ []) test_order

ordered-Explains_example : Explains config.tasks (codes "u" ∷ []) (unknown_task (codes "u"))
ordered-Explains_example =
    ordered-Explains config (codes "u" ∷ []) (unknown_task (codes "u")) unknown_order

validate-IsAccepted_example : IsAccepted config
validate-IsAccepted_example = validate-IsAccepted config config_valid

test_known : (n : Text) → contains (test ∷ []) n ≡ true → is_some (lookup n config.tasks) ≡ true
test_known n m = ground arith

validate-ordered_example :
    (xs : List Text) × (ordered config (test ∷ []) ≡ ok xs) × IsRunOrder config.tasks (test ∷ []) xs
validate-ordered_example = validate-ordered config (test ∷ []) config_valid test_known

task_names-lists_example :
    IsSorted (task_names config)
    × ((x : Text) → contains (task_names config) x ≡ contains (keys config.tasks) x)
task_names-lists_example = task_names-lists config
