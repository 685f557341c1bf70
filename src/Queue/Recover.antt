-- ===== src/Queue/Recover.antt =====
-- Jobs whose process is gone: `RecoverInterrupted`, `RecoverOrphaned`, `RecoverJob`,
-- `recoverJobs` and `orphanGraceExpired` of internal/bitci/controller.go. The cleanup of one job's
-- processes and worktree is one answer each of the host.
pub mod Effects
pub mod Clears
use bitci.Prelude.{
  ℕ, zero, suc, ◌+◌, ◌-◌, Bool, true, false, not, ◌&&◌, ◌||◌, Option, none, some, List, [], ◌∷◌,
  ◌++◌, ◌==◌, contains, if◌then◌else◌, leb, nat_eq, list_eq, option_eq, map, length,
}
use bitci.Prelude.Text.{Text}
use bitci.Prelude.Int.{ℤ, pos}
use bitci.Prelude.Result.{Result, ok, err, ◌>>=◌}
use bitci.Config.{Config}
use bitci.Sha.{is_checkout_sha}
use bitci.Queue.{
  State, queued, running, failed, cancelled, Job, Lease, Store, Git, Host, QueueError,
  commit_failed, not_running, no_process_yet, still_running, changed_before_recovery,
  process_unknown, termination_failed, worktree_kept, World,
}
use bitci.Queue.Table.{select, count, find, update, is_queued, is_running, has_id, in_batch}
use bitci.Queue.BatchRefs.{release_batch_ref, release_finished}
use bitci.Queue.Finish.{duration_of, cancel_row, drop_leases, errors_of, matching}
use bitci.Queue.Claim.{set_row}
use bitci.Queue.Retention.{prune_logs}
use bitci.Queue.OrphanRefs.{cleanup_orphan_refs}
use bitci.Prelude.Dict.{is_some}

unfoldable pub recover_row : ℕ → Bool → Job → Job
recover_row now cleanup row = record row {
  state = failed;
  finished_at = some now;
  exit_code = some (pos 125);
  duration_seconds = duration_of row.started_at now;
  terminal_result = some failed;
  worker_pid = none;
  cleanup_pending = cleanup;
}

-- `RecoverInterrupted` writes the same columns but worker_pid, and marks the cleanup on its own.
unfoldable pub interrupt_row : ℕ → Job → Job
interrupt_row now row = record row {
  state = failed;
  finished_at = some now;
  exit_code = some (pos 125);
  duration_seconds = duration_of row.started_at now;
  terminal_result = some failed;
}

-- `state = 'running' AND worker_pid IS NULL`, or `worker_pid = ?`, as the job was read.
abbrev pub same_worker : Job → Job → Bool
same_worker job row = matching job.id is_running row && row.worker_pid == job.worker_pid

-- The tables after one job of `recoverJobs`.
unfoldable pub recover_one : ℕ → Job → Store → Store
recover_one now job store = record store {
  jobs =
      update (λ row. is_queued row.state && in_batch job.batch row) (cancel_row now)
        (update (same_worker job) (recover_row now (is_checkout_sha job.ref)) store.jobs);
  leases = drop_leases job.id store.leases;
}

-- The transaction's loop: the tables, and the jobs that it recovered.
unfoldable pub recover_rows : ℕ → Bool → List Job → Store → Result QueueError (Store × List Job)
recover_rows now skip_changed [] store = ok (store, [])
recover_rows now skip_changed (job ∷ jobs) store =
    let skip = recover_rows now skip_changed jobs store in
    let rest = recover_rows now skip_changed jobs (recover_one now job store) in
    if count (same_worker job) store.jobs == 0
    then if skip_changed then skip else err changed_before_recovery
    else elim rest [ err e ↦ err e | ok (after, recovered) ↦ ok (after, job ∷ recovered) ]

-- The answers of the operating system about processes and worktrees.
pub record Processes : Type 0 where
  pub alive : ℕ → Option Bool
  pub terminated : ℕ → Bool
  pub removed : ℕ → Bool

abbrev pub grace : ℕ
grace = 5000000000

-- The process is judged only after the grace period; a job with no readable start is at once.
abbrev pub grace_expired : ℕ → Option ℕ → Bool
grace_expired now none = true
grace_expired now (some start) = leb grace (now - start)

module _ {Repo : Type 0} (git : Git Repo) (host : Host) (processes : Processes) where
  abbrev pub clear_pending : ℕ → World Repo → World Repo
  clear_pending id w = record w {
    store = set_row id (λ row. record row { cleanup_pending = false }) w.store;
  }

  -- After the commit: kill what is left, remove the worktree, release the ref.
  unfoldable pub clean_up : List Job → World Repo → World Repo × List QueueError
  clean_up [] w = (w, [])
  clean_up (job ∷ jobs) w =
      let skip = clean_up jobs w in
      let (next, released) =
        release_batch_ref git host (clear_pending job.id w) job.batch job.checkout_root in
      let rest = clean_up jobs next in
      if not (processes.terminated job.id)
      then (skip.0, termination_failed ∷ skip.1)
      else if not (processes.removed job.id)
      then (skip.0, worktree_kept ∷ skip.1)
      else (rest.0, errors_of released ++ rest.1)

  unfoldable pub after_recovery :
      World Repo → Result QueueError (Store × List Job) → World Repo × ℕ × List QueueError
  after_recovery w (err e) = (w, 0, e ∷ [])
  after_recovery w (ok (store, recovered)) =
      let (cleaned, failures) =
        clean_up (select (λ job. is_checkout_sha job.ref) recovered) (record w { store = store }) in
      let (next, released) = release_finished git host cleaned in
      if host.commits
      then (next, length recovered, failures ++ errors_of released)
      else (w, 0, commit_failed ∷ [])

  unfoldable pub recover_jobs : World Repo → Bool → List Job → World Repo × ℕ × List QueueError
  recover_jobs w skip_changed [] = (w, 0, [])
  recover_jobs w skip_changed (job ∷ jobs) =
      after_recovery w (recover_rows host.now skip_changed (job ∷ jobs) w.store)

  -- `active` is the controller's set of the jobs that its own workers run.
  unfoldable pub orphans : List ℕ → List Job → Result QueueError (List Job)
  orphans active [] = ok []
  orphans active (job ∷ jobs) =
      let rest = orphans active jobs in
      let kept = rest >>= λ (found : List Job). ok (job ∷ found) in
      if contains active job.id || not (grace_expired host.now job.started_at)
      then rest
      else elim job.worker_pid [
        | none ↦ kept
        | some pid ↦ elim (processes.alive pid) [
          | none ↦ err process_unknown
          | some true ↦ rest
          | some false ↦ kept
        ]
      ]

  unfoldable pub recover_orphaned : List ℕ → World Repo → World Repo × ℕ × List QueueError
  recover_orphaned active w =
      elim (orphans active (select (λ job. is_running job.state) w.store.jobs)) [
        | err e ↦ (w, 0, e ∷ [])
        | ok found ↦ recover_jobs w true found
      ]

  -- Whether `RecoverJob` may go on with the job that it has read.
  unfoldable pub may_recover : Job → Result QueueError (Unit {0})
  may_recover job = elim job.worker_pid [
    | none ↦ if grace_expired host.now job.started_at then ok tt else err no_process_yet
    | some pid ↦ elim (processes.alive pid) [
      | none ↦ err process_unknown
      | some true ↦ err still_running
      | some false ↦ ok tt
    ]
  ]

  unfoldable pub recover_checked :
      World Repo → Job → Result QueueError (Unit {0}) → World Repo × Bool × List QueueError
  recover_checked w job (err e) = (w, false, e ∷ [])
  recover_checked w job (ok u) =
      let (next, recovered, errors) = recover_jobs w false (job ∷ []) in
      (next, recovered == 1, errors)

  unfoldable pub recover_found : World Repo → Option Job → World Repo × Bool × List QueueError
  recover_found w none = (w, false, not_running ∷ [])
  recover_found w (some job) = recover_checked w job (may_recover job)

  unfoldable pub recover_job : World Repo → ℕ → World Repo × Bool × List QueueError
  recover_job w id = recover_found w (find (matching id is_running) w.store.jobs)

  -- The tables after the transaction of `RecoverInterrupted`.
  unfoldable pub interrupt : List Job → ℕ → Store → Store
  interrupt interrupted now store =
      let running_in = λ (batch : Text).
        not (count (λ row. is_running row.state && in_batch batch row) store.jobs == 0) in
      record store {
        jobs =
            update (λ row. contains (map (λ (j : Job). j.id) interrupted) row.id)
              (λ row. record row { cleanup_pending = true })
              (update (λ row. is_running row.state) (interrupt_row now)
                (update (λ row. is_queued row.state && running_in row.batch) (cancel_row now)
                  store.jobs));
        leases =
            select (λ l. not (is_some (find (matching l.job_id is_running) store.jobs)))
              store.leases;
      }

  abbrev pub is_interrupted : Job → Bool
  is_interrupted job = (is_running job.state || job.cleanup_pending) && is_checkout_sha job.ref

  unfoldable pub end_recovery :
      (Text → Bool) → Config → List Job → World Repo → World Repo × List QueueError
  end_recovery remove own interrupted w =
      let (cleaned, failures) = clean_up interrupted w in
      let (pruned, log_errors) = prune_logs remove own cleaned.store in
      let (next, released) = release_finished git host (record cleaned { store = pruned }) in
      (next, failures ++ log_errors ++ errors_of released)

  unfoldable pub recover_interrupted :
      (Text → Bool) → Config → World Repo → World Repo × List QueueError
  recover_interrupted remove own w =
      let (checked, orphaned) = cleanup_orphan_refs git host w in
      let interrupted = select is_interrupted checked.store.jobs in
      let store = interrupt interrupted host.now checked.store in
      elim orphaned [
        | err e ↦ (checked, e ∷ [])
        | ok u ↦
            if host.commits
            then end_recovery remove own interrupted (record checked { store = store })
            else (checked, commit_failed ∷ [])
      ]
