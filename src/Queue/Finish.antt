-- ===== src/Queue/Finish.antt =====
-- The end of a job: `finish` and `CancelContext` of internal/bitci/controller.go. Errors that the
-- program joins are a list; those of the log file and the object cache, which change no table, are
-- left out.
pub mod Effects
use bitci.Prelude.{
  ℕ, zero, suc, Bool, true, false, not, ◌&&◌, ◌||◌, Option, none, some, List, [], ◌∷◌, ◌++◌, ◌==◌,
  if◌then◌else◌, nat_eq, list_eq,
}
use bitci.Prelude.Text.{Text}
use bitci.Prelude.Int.{ℤ, pos, int_eq}
use bitci.Prelude.Result.{Result, ok, err}
use bitci.Config.{Config}
use bitci.Queue.{
  State, queued, running, passed, failed, cancelled, Job, Lease, Store, Git, Host, QueueError,
  no_rows, not_finishable, World, seconds_between,
}
use bitci.Queue.Table.{select, count, find, update, is_queued, is_active, has_id}
use bitci.Queue.BatchRefs.{release_batch_ref}
use bitci.Queue.Retention.{prune_logs}

-- `CASE WHEN started_at IS NULL THEN 0 ELSE MAX(0, …) END`.
abbrev pub duration_of : Option ℕ → ℕ → ℕ
duration_of none now = 0
duration_of (some start) now = seconds_between start now

abbrev pub state_of_code : ℤ → State
state_of_code code = if code == pos 0 then passed else failed

unfoldable pub finish_row : ℕ → ℤ → Text → Bool → Job → Job
finish_row now code log_path cleanup_pending row = record row {
  state = state_of_code code;
  finished_at = some now;
  exit_code = some code;
  log_path = log_path;
  cleanup_pending = cleanup_pending;
  duration_seconds = duration_of row.started_at now;
  terminal_result = some (state_of_code code);
  worker_pid = none;
}

unfoldable pub cancel_row : ℕ → Job → Job
cancel_row now row = record row {
  state = cancelled;
  finished_at = some now;
  queue_wait_seconds = seconds_between row.created_at now;
  duration_seconds = 0;
  terminal_result = some cancelled;
}

-- `DELETE FROM leases WHERE job_id = ?`.
unfoldable pub drop_leases : ℕ → List Lease → List Lease
drop_leases id leases = select (λ l. not (l.job_id == id)) leases

abbrev pub errors_of : Result QueueError (Unit {0}) → List QueueError
errors_of (ok u) = []
errors_of (err e) = e ∷ []

abbrev pub code_or_zero : Option ℤ → ℤ
code_or_zero none = pos 0
code_or_zero (some code) = code

abbrev pub is_failed : State → Bool
is_failed failed = true
is_failed _ = false

abbrev pub is_null : Option ℕ → Bool
is_null none = true
is_null (some n) = false

-- A job that recovery has failed in the meantime may be finished once more.
unfoldable pub already_recovered : Option Job → List QueueError
already_recovered none = no_rows ∷ []
already_recovered (some row) =
    if is_failed row.state && code_or_zero row.exit_code == pos 125 && is_null row.worker_pid
    then []
    else not_finishable ∷ []

-- The rows that an update by id and state reaches.
abbrev pub matching : ℕ → (State → Bool) → Job → Bool
matching id states row = has_id id row && states row.state

module _ {Repo : Type 0} (git : Git Repo) (host : Host) where
  unfoldable pub finish :
      (Text → Bool) → Config → World Repo → Job → ℤ → Bool → World Repo × List QueueError
  finish remove own w job code cleanup_pending =
      if count (matching job.id is_active) w.store.jobs == 0
      then (w, already_recovered (find (has_id job.id) w.store.jobs))
      else let finished = record (w.store) {
        jobs =
            update (matching job.id is_active)
              (finish_row host.now code job.log_path cleanup_pending) w.store.jobs;
      } in
        let (pruned, log_errors) = prune_logs remove own finished in
        let free = record pruned { leases = drop_leases job.id pruned.leases } in
        let (next, released) =
          release_batch_ref git host (record w { store = free }) job.batch job.checkout_root in
        (next, log_errors ++ errors_of released)

  -- `true` says that the row was cancelled, whatever became of the batch's ref.
  unfoldable pub cancel_known : World Repo → ℕ → Option Job → World Repo × Bool × List QueueError
  cancel_known w id none = (w, false, [])
  cancel_known w id (some job) =
      let store = record (w.store) {
        jobs = update (matching id is_queued) (cancel_row host.now) w.store.jobs;
      } in
      let (next, released) =
        release_batch_ref git host (record w { store = store }) job.batch job.checkout_root in
      if count (matching id is_queued) w.store.jobs == 1
      then (next, true, errors_of released)
      else (record w { store = store }, false, [])

  unfoldable pub cancel_context : World Repo → ℕ → World Repo × Bool × List QueueError
  cancel_context w id = cancel_known w id (find (has_id id) w.store.jobs)
