-- ===== src/Config/Validate/Sound.antt =====
-- What a configuration that passes `Validate` (internal/bitci/config.go) promises to the code that
-- runs its tasks.
use bitci.Prelude.{
  true, false, not, ◌&&◌, ◌||◌, some, List, [], ◌∷◌, ◌≡◌, inl, inr, arith, contains, ◌==◌, list_eq,
  nat_eq, Bool-cases,
}
use bitci.Prelude.Text.{Text}
use bitci.Prelude.Int.{ℤ, pos, ltℤ, int_eq}
use bitci.Prelude.Dict.{Dict, lookup, is_some}
use bitci.Prelude.Result.{ok, guard, each, >>=-eq-ok}
use bitci.Config.{Config, Task}
use bitci.Config.Order.{ordered, task_names}
use bitci.Config.Order.Relations.{Distinct}
use bitci.Config.Validate.{
  Checked, names_command, valid_environment_name, check_redact, check_limit, check_variable,
  check_need, check_resources, check_task, check_order, validate,
}
use bitci.Prelude.Strings.{is_empty}

-- What a task of a valid configuration looks like.
pub record IsSound (config : Config) (name : Text) (task : Task) : Type 0 where
  pub named : is_empty name ≡ false
  pub command : names_command task.run ≡ true
  pub timeout : ltℤ task.timeout (pos 0) ≡ false
  pub max_retries : ltℤ task.max_retries (pos 0) ≡ false
  pub needs : (n : Text) → contains task.needs n ≡ true → is_some (lookup n config.tasks) ≡ true
  pub resources :
      (r : Text) → contains task.resources r ≡ true → is_some (lookup r config.resources) ≡ true
  pub distinct : Distinct task.resources
  pub variables :
      (variable value : Text)
      → lookup variable task.env ≡ some value
      → (valid_environment_name variable ≡ true) × (contains value 0 ≡ false)

each-contains :
    (f : Text → Checked) (xs : List Text)
    → each f xs ≡ ok tt
    → (x : Text) → contains xs x ≡ true
    → f x ≡ ok tt
each-contains f [] h x m = absurd (ground arith)
each-contains f (y ∷ xs) h x m =
    let (u, first, rest) = >>=-eq-ok (f y) (λ _. each f xs) h in
    elim (list_eq.dec x y) [ yes p ↦ rw p first | no n ↦ each-contains f xs rest x (ground arith) ]

each-lookup {ℓ} :
    {V : Type ℓ} (f : Text × V → Checked) (d : Dict Text V)
    → each f d ≡ ok tt
    → (k : Text) (v : V) → lookup k d ≡ some v
    → f (k, v) ≡ ok tt
each-lookup f [] h k v m = absurd (ground arith)
each-lookup f ((j, w) ∷ d) h k v m =
    let (u, first, rest) = >>=-eq-ok (f (j, w)) (λ _. each f d) h in
    elim (list_eq.dec k j) [
      | yes p ↦ cc (first, same p)
      | no n ↦ each-lookup f d rest k v (ground arith)
    ]
  where
    same : k ≡ j → w ≡ v
    same p = ground arith

check_resources-eq-ok :
    (config : Config) (name : Text) (used rs : List Text)
    → check_resources config name used rs ≡ ok tt
    → ((r : Text)
        → contains rs r ≡ true
        → (is_some (lookup r config.resources) ≡ true) × (contains used r ≡ false))
      × Distinct rs
unfolding check_resources
check_resources-eq-ok config name used [] h = (λ r m. absurd (ground arith), tt)
check_resources-eq-ok config name used (r ∷ rs) h = (
  λ x m. ground (arith, (check_resources-eq-ok config name (r ∷ used) rs (ground arith)).0 x),
  (
    elim (Bool-cases (contains rs r)) [
      | inl m ↦
          absurd
            (ground (arith, (check_resources-eq-ok config name (r ∷ used) rs (ground arith)).0 r m))
      | inr n ↦ n
    ],
    (check_resources-eq-ok config name (r ∷ used) rs (ground arith)).1,
  ),
)

check_variable-eq-ok :
    (name variable value : Text)
    → check_variable name (variable, value) ≡ ok tt
    → (valid_environment_name variable ≡ true) × (contains value 0 ≡ false)
unfolding check_variable
check_variable-eq-ok name variable value h = ground arith

check_task-IsSound :
    (config : Config) (name : Text) (task : Task)
    → check_task config (name, task) ≡ ok tt
    → IsSound config name task
unfolding check_task check_need
check_task-IsSound config name task h =
    let (_, argv, h₁) = >>=-eq-ok (guard (not (is_empty name) && names_command task.run) _) _ h in
    let (_, timed, h₂) = >>=-eq-ok (guard (not (ltℤ task.timeout (pos 0))) _) _ h₁ in
    let (_, retried, h₃) = >>=-eq-ok (guard (not (ltℤ task.max_retries (pos 0))) _) _ h₂ in
    let (_, variables, h₄) = >>=-eq-ok (each (check_variable name) task.env) _ h₃ in
    let (_, known, h₅) = >>=-eq-ok (each (check_need config name) task.needs) _ h₄ in
    let used = check_resources-eq-ok config name [] task.resources h₅ in
    record {
      named = ground arith;
      command = ground arith;
      timeout = ground arith;
      max_retries = ground arith;
      needs = λ n m. ground (arith, each-contains (check_need config name) task.needs known n m);
      resources = λ r m. (used.0 r m).0;
      distinct = used.1;
      variables = λ variable value m.
          check_variable-eq-ok name variable value
            (each-lookup (check_variable name) task.env variables variable value m);
    }

-- What `Validate` promises of a configuration as a whole.
pub record IsAccepted (config : Config) : Type 0 where
  pub version : config.version ≡ pos 1
  pub has_tasks : is_empty config.tasks ≡ false
  -- Without a command to prepare the argv is empty.
  pub prepare : (is_empty config.prepare || names_command config.prepare) ≡ true
  pub log_retention : ltℤ config.log_retention (pos 0) ≡ false
  pub redact :
      (value : Text)
      → contains config.redact value ≡ true
      → (is_empty value ≡ false) × (contains value b'\r' ≡ false) × (contains value b'\n' ≡ false)
  pub limits :
      (r : Text) (limit : ℤ)
      → lookup r config.resources ≡ some limit
      → (is_empty r ≡ false) × (ltℤ limit (pos 1) ≡ false)
  pub sound :
      (name : Text) (task : Task) → lookup name config.tasks ≡ some task → IsSound config name task
  pub order : List Text
  pub ordered_all : ordered config (task_names config) ≡ ok order

check_limit-eq-ok :
    (name : Text) (limit : ℤ)
    → check_limit (name, limit) ≡ ok tt
    → (is_empty name ≡ false) × (ltℤ limit (pos 1) ≡ false)
unfolding check_limit
check_limit-eq-ok name limit h = ground arith

check_redact-eq-ok :
    (value : Text)
    → check_redact value ≡ ok tt
    → (is_empty value ≡ false) × (contains value b'\r' ≡ false) × (contains value b'\n' ≡ false)
unfolding check_redact
check_redact-eq-ok value h = ground arith

-- A configuration that `Validate` accepts has version 1 and at least one task, no command to prepare
-- or one with a name, no negative log retention, values to redact that are not empty and have no line
-- break, and named resources with positive limits. Each task has a name and a command, no negative
-- timeout or retry cap, known needs, distinct known resources, and environment variables with valid
-- names and no NUL in their values. All tasks together can be ordered.
pub validate-IsAccepted : (config : Config) → validate config ≡ ok tt → IsAccepted config
unfolding validate check_order
validate-IsAccepted config h =
    let (_, versioned, h₁) = >>=-eq-ok (guard (config.version == pos 1) _) _ h in
    let (_, filled, h₂) = >>=-eq-ok (guard (not (is_empty config.tasks)) _) _ h₁ in
    let (_, prepared, h₃) =
      >>=-eq-ok (guard (is_empty config.prepare || names_command config.prepare) _) _ h₂ in
    let (_, kept, h₄) = >>=-eq-ok (guard (not (ltℤ config.log_retention (pos 0))) _) _ h₃ in
    let (_, redacted, h₅) = >>=-eq-ok (each check_redact config.redact) _ h₄ in
    let (_, limited, h₆) = >>=-eq-ok (each check_limit config.resources) _ h₅ in
    let (_, tasks, h₇) = >>=-eq-ok (each (check_task config) config.tasks) _ h₆ in
    let (order, found, _) = >>=-eq-ok (ordered config (task_names config)) (λ _. ok tt) h₇ in
    record {
      version = ground arith;
      has_tasks = ground arith;
      prepare = ground arith;
      log_retention = ground arith;
      redact = λ value m.
          check_redact-eq-ok value (each-contains check_redact config.redact redacted value m);
      limits = λ r limit m.
          check_limit-eq-ok r limit (each-lookup check_limit config.resources limited r limit m);
      sound = λ name task m.
          check_task-IsSound config name task
            (each-lookup (check_task config) config.tasks tasks name task m);
      order = order;
      ordered_all = found;
    }
