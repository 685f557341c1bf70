-- ===== src/Queue/Retry.antt =====
-- Running a finished job once more: `RetryContext` of internal/bitci/controller.go.
pub mod Effects
pub mod Attempts
use bitci.Prelude.{
  ℕ, zero, suc, ◌+◌, Bool, true, false, not, ◌&&◌, ◌||◌, Option, none, some, List, [], ◌∷◌, ◌++◌,
  ◌==◌, if◌then◌else◌, ltb, nat_eq, list_eq,
}
use bitci.Prelude.Text.{Text}
use bitci.Prelude.Int.{ℤ, pos, ltℤ}
use bitci.Prelude.Strings.{is_empty}
use bitci.Prelude.Dict.{Dict, lookup}
use bitci.Prelude.Result.{Result, ok, err, ◌>>=◌}
use bitci.Config.{Config, Task, ConfigError}
use bitci.Config.Order.{ordered}
use bitci.Sha.{is_checkout_sha}
use bitci.Queue.{
  State, Job, Store, Git, Host, QueueError, location_unknown, no_rows, config_error, not_finished,
  history_missing, retry_pending, retries_exhausted, directory_missing, World,
}
use bitci.Queue.Table.{select, find, is_active, has_id, in_batch}
use bitci.Queue.JobConfig.{snapshot_config}
use bitci.Queue.Submit.{RetryInfo, submit}

-- `COALESCE(retry_root, id)`.
abbrev pub root_of_row : Job → ℕ
root_of_row job = elim job.retry_root [ none ↦ job.id | some r ↦ r ]

-- The last row of a task in the batch: later rows overwrite the map's entry.
unfoldable pub find_last : (Job → Bool) → List Job → Option Job
find_last p [] = none
find_last p (j ∷ js) = elim (find_last p js) [
  | none ↦ if p j then some j else none
  | some k ↦ some k
]

-- `ORDER BY attempt DESC, id DESC LIMIT 1`.
abbrev pub later_attempt : Job → Job → Bool
later_attempt a b = ltb b.attempt a.attempt || (a.attempt == b.attempt && ltb b.id a.id)

unfoldable pub latest : List Job → Option Job
latest [] = none
latest (j ∷ js) = elim (latest js) [
  | none ↦ some j
  | some k ↦ if later_attempt k j then some k else some j
]

abbrev pub max_retries_of : Config → Text → ℤ
max_retries_of config name = elim (lookup name config.tasks) [
  | none ↦ pos 0
  | some t ↦ t.max_retries
]

-- The cap counts reruns; a cap of 0 is none.
unfoldable pub next_attempt : Config → Text → Job → Job → Result QueueError RetryInfo
next_attempt config name item last =
    if is_active last.state
    then err retry_pending
    else if ltℤ (pos 0) (max_retries_of config name)
        && ltℤ (max_retries_of config name) (pos last.attempt)
    then err retries_exhausted
    else ok (record {
      attempt = suc last.attempt;
      retry_of = last.id;
      retry_root = root_of_row item;
      prior_exit_code = last.exit_code;
    })

unfoldable pub retry_task : Config → List Job → Text → Text → Result QueueError RetryInfo
retry_task config jobs batch name =
    elim (find_last (λ job. in_batch batch job && job.task == name) jobs) [
      | none ↦ err history_missing
      | some item ↦ elim (latest (select (λ job. root_of_row job == root_of_row item) jobs)) [
        | none ↦ err no_rows
        | some last ↦ next_attempt config name item last
      ]
    ]

unfoldable pub retry_tasks :
    Config → List Job → Text → List Text → Result QueueError (Dict Text RetryInfo)
retry_tasks config jobs batch [] = ok []
retry_tasks config jobs batch (name ∷ names) = do
  info ← retry_task config jobs batch name
  rest ← retry_tasks config jobs batch names
  ok ((name, info) ∷ rest)

-- The checkout to run in; `exists` answers `recordedDirectoryExists`.
unfoldable pub retry_location :
    Host → (Text → Text → Text → Bool) → Job → Result QueueError (Text × Text)
retry_location host exists job =
    if is_checkout_sha job.ref && is_empty job.checkout_root
    then elim host.location [
      | none ↦ err location_unknown
      | some (root, relative) ↦
          if exists root job.ref relative then ok (root, relative) else err directory_missing
    ]
    else ok (job.checkout_root, job.config_relative)

abbrev pub wrap_config {ℓ} : {A : Type ℓ} → Result ConfigError A → Result QueueError A
wrap_config (ok a) = ok a
wrap_config (err e) = err (config_error e)

abbrev pub submitted_of : Job → Text
submitted_of job = if is_empty job.submitted_ref then job.ref else job.submitted_ref

-- What a retry submits: the configuration, the checkout, and each task's history.
unfoldable pub plan_retry :
    Host
    → (Text → Text → Text → Bool)
    → Config
    → List Job
    → Job
    → Result QueueError (Config × (Text × Text) × Dict Text RetryInfo)
plan_retry host exists own jobs job = if is_active job.state then err not_finished else do
  config ← snapshot_config own job.config_json
  location ← retry_location host exists job
  names ← wrap_config (ordered config (job.task ∷ []))
  retries ← retry_tasks config jobs job.batch names
  ok (config, location, retries)

module _ {Repo : Type 0} (git : Git Repo) (host : Host) (exists : Text → Text → Text → Bool)
    (own : Config) where
  unfoldable pub retry_planned :
      World Repo
      → Job
      → Option Text
      → Result QueueError (Config × (Text × Text) × Dict Text RetryInfo)
      → World Repo × Result QueueError (List Job)
  retry_planned w job batch (err e) = (w, err e)
  retry_planned w job batch (ok (config, (root, relative), retries)) =
      submit git host w config (job.task ∷ []) job.ref (submitted_of job) root relative retries
        batch

  unfoldable pub retry_found :
      World Repo → Option Text → Option Job → World Repo × Result QueueError (List Job)
  retry_found w batch none = (w, err no_rows)
  retry_found w batch (some job) =
      retry_planned w job batch (plan_retry host exists own w.store.jobs job)

  unfoldable pub retry_context :
      World Repo → ℕ → Option Text → World Repo × Result QueueError (List Job)
  retry_context w id batch = retry_found w batch (find (has_id id) w.store.jobs)
