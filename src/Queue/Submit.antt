-- ===== src/Queue/Submit.antt =====
-- How tasks enter the queue: `submit` and `retryInfo` of internal/bitci/controller.go. The batch's
-- random name is an argument, and `none` if the source of randomness fails.
pub mod Effects
pub mod Atomic
use bitci.Prelude.{
  ℕ, zero, suc, ◌+◌, Bool, true, false, not, ◌&&◌, ◌||◌, Option, none, some, List, [], ◌∷◌, ◌++◌,
  ◌==◌, if◌then◌else◌, ltb, nat_eq, list_eq,
}
use bitci.Prelude.Text.{Text}
use bitci.Prelude.Int.{ℤ}
use bitci.Prelude.Strings.{is_empty}
use bitci.Prelude.Dict.{Dict, lookup}
use bitci.Prelude.Result.{Result, ok, err}
use bitci.Config.{Config, ConfigError}
use bitci.Config.Order.{ordered}
use bitci.Sha.{is_checkout_sha}
use bitci.Queue.{
  State, queued, Snapshot, stored, Job, BatchRef, Store, Git, Host, QueueError, lock_failed,
  pin_failed, commit_failed, config_error, nothing_requested, no_batch_name, batch_conflict, World,
}
use bitci.Queue.Table.{find}
use bitci.Queue.BatchRefs.{batch_ref, drop_batch_ref}

pub record RetryInfo : Type 0 where
  pub attempt : ℕ
  pub retry_of : ℕ
  pub retry_root : ℕ
  pub prior_exit_code : Option ℤ

-- Go's zero value, for a task with no entry, with the attempt set to 1 where it is 0.
abbrev pub first_attempt : RetryInfo → RetryInfo
first_attempt r = if r.attempt == 0 then record r { attempt = 1 } else r

abbrev pub retry_of_task : Dict Text RetryInfo → Text → RetryInfo
retry_of_task retries task = elim (lookup task retries) [
  | none ↦ record { attempt = 1; retry_of = 0; retry_root = 0; prior_exit_code = none }
  | some r ↦ first_attempt r
]

-- `NULLIF(?, 0)`.
abbrev pub null_if_zero : ℕ → Option ℕ
null_if_zero zero = none
null_if_zero (suc n) = some (suc n)

-- SQLite gives a new row the greatest rowid and one.
unfoldable pub max_id : List Job → ℕ
max_id [] = 0
max_id (j ∷ js) = let rest = max_id js in if ltb rest j.id then j.id else rest

pub record Submission : Type 0 where
  pub batch : Text
  pub config : Config
  pub ref : Text
  pub submitted_ref : Text
  pub checkout_root : Text
  pub config_relative : Text
  pub retries : Dict Text RetryInfo
  pub now : ℕ

abbrev pub root_of : ℕ → ℕ → ℕ
root_of zero id = id
root_of (suc n) id = suc n

unfoldable pub new_row : Submission → ℕ → Text → Job
new_row s id task =
    let retry = retry_of_task s.retries task in
    record {
      id = id;
      batch = s.batch;
      task = task;
      submitted_ref = s.submitted_ref;
      ref = s.ref;
      tested_sha = [];
      state = queued;
      created_at = s.now;
      started_at = none;
      finished_at = none;
      exit_code = none;
      log_path = [];
      config_json = stored s.config;
      checkout_root = s.checkout_root;
      config_relative = s.config_relative;
      cleanup_pending = false;
      attempt = retry.attempt;
      retry_of = null_if_zero retry.retry_of;
      retry_root = some (root_of retry.retry_root id);
      prior_exit_code = retry.prior_exit_code;
      queue_wait_seconds = 0;
      duration_seconds = 0;
      terminal_result = none;
      worker_pid = none;
    }

-- The new rows, and the table with them at its end.
unfoldable pub insert_rows : Submission → List Text → List Job → List Job × List Job
insert_rows s [] jobs = ([], jobs)
insert_rows s (task ∷ tasks) jobs =
    let row = new_row s (suc (max_id jobs)) task in
    let (rows, table) = insert_rows s tasks (jobs ++ row ∷ []) in (row ∷ rows, table)

abbrev pub records_ref : Submission → Bool
records_ref s = not (is_empty s.checkout_root) && is_checkout_sha s.ref

unfoldable pub record_ref : Submission → Store → Store
record_ref s store = record store {
  batch_refs =
      store.batch_refs
      ++ record { batch = s.batch; checkout_root = s.checkout_root; ref = s.ref } ∷ [];
}

module _ {Repo : Type 0} (git : Git Repo) (host : Host) where
  -- The transaction. When it is given up, `restored` is the store that stays.
  unfoldable pub enqueue :
      World Repo → Store → Submission → List Text → World Repo × Result QueueError (List Job)
  enqueue w restored s tasks =
      let (rows, table) = insert_rows s tasks w.store.jobs in
      let next = record (w.store) { jobs = table } in
      if records_ref s
      then elim (git.update_ref w.repo s.checkout_root (batch_ref s.batch) s.ref) [
        | none ↦ (record w { store = restored }, err pin_failed)
        | some repo ↦
            if host.commits
            then (record { store = next; repo = repo }, ok rows)
            else elim (git.delete_ref repo s.checkout_root (batch_ref s.batch)) [
              | none ↦ (record { store = restored; repo = repo }, err commit_failed)
              | some undone ↦ (record { store = restored; repo = undone }, err commit_failed)
            ]
      ]
      else if host.commits
      then (record w { store = next }, ok rows)
      else (record w { store = restored }, err commit_failed)

  unfoldable pub submit_batch :
      World Repo → Submission → List Text → World Repo × Result QueueError (List Job)
  submit_batch w s tasks =
      if records_ref s
      then elim (find (λ r. r.batch == s.batch) w.store.batch_refs) [
        | some r ↦ (w, err batch_conflict)
        | none ↦
            let recorded = record_ref s w.store in
            enqueue (record w { store = recorded }) (drop_batch_ref s.batch recorded) s tasks
      ]
      else enqueue w w.store s tasks

  unfoldable pub submit_ordered :
      World Repo
      → (Text → Submission)
      → Option Text
      → Result ConfigError (List Text)
      → World Repo × Result QueueError (List Job)
  submit_ordered w s batch (err e) = (w, err (config_error e))
  submit_ordered w s batch (ok []) = (w, err nothing_requested)
  submit_ordered w s none (ok (task ∷ tasks)) = (w, err no_batch_name)
  submit_ordered w s (some batch) (ok (task ∷ tasks)) = submit_batch w (s batch) (task ∷ tasks)

  unfoldable pub submit :
      World Repo
      → Config
      → List Text
      → (ref submitted_ref checkout_root config_relative : Text) → Dict Text RetryInfo
      → Option Text
      → World Repo × Result QueueError (List Job)
  submit w config names ref submitted_ref checkout_root config_relative retries batch =
      if not host.locked
      then (w, err lock_failed)
      else submit_ordered w
          (λ name. record {
            batch = name;
            config = config;
            ref = ref;
            submitted_ref = submitted_ref;
            checkout_root = checkout_root;
            config_relative = config_relative;
            retries = retries;
            now = host.now;
          })
          batch (ordered config names)
