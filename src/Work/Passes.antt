-- ===== src/Work/Passes.antt =====
-- When `runOnce` of internal/bitci/controller.go runs the command of a job of a recorded commit, and
-- what is known if such a job passes.
use bitci.Prelude.{
  Bool, true, false, not, List, ◌==◌, ◌≡◌, refl, arith, if◌then◌else◌, nat_eq, list_eq, either,
  if_true,
}
use bitci.Prelude.Text.{Text}
use bitci.Prelude.Int.{ℤ, pos, int_eq}
use bitci.Prelude.Strings.{is_empty}
use bitci.Prelude.Result.{ok}
use bitci.Config.{Config, Task}
use bitci.Sha.{is_checkout_sha}
use bitci.Queue.{Job, Store, Host}
use bitci.Queue.JobConfig.{job_config}
use bitci.Queue.Retention.{prune_logs}
use bitci.Paths.State.{Places}
use bitci.Work.Worktree.{
  Staged, not_staged, staged_in, worktree_path, job_checkout_owner, job_checkout,
}
use bitci.Work.Once.{
  Meets, Ending, run_commands, close_log, end_worktree, fails, run_staged, run_checkout, run_logged,
  start_log, run_started, run_job,
}
use bitci.Work.Checks.{
  Outcome, held_back, went, IsClean, run_commands-Outcome, end_worktree-Outcome, close_log-Outcome,
}

-- The tested commit is no part of what is checked.
tested-Outcome :
    (environ : List Text) (places : Places) (own : Config) (host : Host) (meets : Meets)
    (config : Config) (task : Task) (job : Job) (sha : Text) (e : Ending)
    → Outcome environ places own host meets config task
        (record job { tested_sha = sha })
        (IsClean environ places own host meets config task (record job { tested_sha = sha }))
        e
    → Outcome environ places own host meets config task job
        (IsClean environ places own host meets config task job)
        e
unfolding worktree_path job_checkout_owner
tested-Outcome environ places own host meets config task job sha e (held_back no_task other) =
    held_back no_task other
tested-Outcome environ places own host meets config task job sha e (went d guards order clean) =
    went d
      (record {
        prepare_safe = guards.prepare_safe;
        command_safe = guards.command_safe;
        verified = guards.verified;
        inside = guards.inside;
      })
      order clean

module _ (environ : List Text) (places : Places) (own : Config) (host : Host) (meets : Meets)
    (config : Config) (task : Task) (job : Job) where
  failure :
      (code : ℤ) (pending : Bool) (store : Store)
      → (code == pos 0) ≡ false
      → Outcome environ places own host meets config task job
          (IsClean environ places own host meets config task job)
          (fails environ places own host meets code pending store)
  failure code pending store bad = held_back tt bad

  finished-Outcome :
      (work_dir sha : Text) (store : Store)
      → Outcome environ places own host meets config task job
          (IsClean environ places own host meets config task job)
          (close_log environ places own host meets (
            end_worktree environ places own host meets job (
              run_commands environ places own host meets true
                (record job { tested_sha = sha })
                config
                task
                (worktree_path places.state_dir job)
                work_dir
                store)))
  unfolding worktree_path job_checkout_owner end_worktree
  finished-Outcome work_dir sha store =
      let tested = record job { tested_sha = sha } in
      tested-Outcome environ places own host meets config task job sha _ (
        close_log-Outcome environ places own host meets config task tested _ (
          end_worktree-Outcome environ places own host meets config task tested _
            (run_commands-Outcome environ places own host meets config task tested work_dir store)))

  run_staged-Outcome :
      (work_dir : Text) (store : Store)
      → Outcome environ places own host meets config task job
          (IsClean environ places own host meets config task job)
          (run_staged environ places own host meets job config task work_dir store)
  unfolding run_staged
  run_staged-Outcome work_dir store = either Fine _ (failure (pos 127) true store (ground arith)) (
      either Fine _ (failure (pos 126) _ store (ground arith)) (
        either Fine _ (failure (pos 127) false store (ground arith))
          (finished-Outcome work_dir _ store)))
    where
      Fine : Ending → Type 0
      Fine e =
          Outcome environ places own host meets config task job
            (IsClean environ places own host meets config task job) e

  run_logged-Outcome :
      (store : Store)
      → is_checkout_sha job.ref ≡ true
      → Outcome environ places own host meets config task job
          (IsClean environ places own host meets config task job)
          (run_logged environ places own host meets job config task store)
  unfolding run_logged
  run_logged-Outcome store at_commit = if_true Fine _ _ at_commit (
      either Fine _ (checkout (job_checkout host places.state_dir job meets.staging store))
        (failure (pos 127) false store (ground arith)))
    where
      Fine : Ending → Type 0
      Fine e =
          Outcome environ places own host meets config task job
            (IsClean environ places own host meets config task job) e

      checkout :
          (r : Store × Staged)
          → Outcome environ places own host meets config task job
              (IsClean environ places own host meets config task job)
              (run_checkout environ places own host meets job config task r)
      checkout (s, not_staged cleanup) = failure (pos 126) _ s (ground arith)
      checkout (s, staged_in work_dir) = run_staged-Outcome work_dir s

module _ (environ : List Text) (places : Places) (own : Config) (host : Host) (meets : Meets)
    (config : Config) (task : Task) where
  abbrev pub Finished : Job × Ending → Type 0
  Finished (logged, ending) =
      Outcome environ places own host meets config task logged
        (IsClean environ places own host meets config task logged) ending

  run_started-Finished :
      (r : Store × Job × Bool)
      → is_checkout_sha r.1.ref ≡ true
      → Finished (run_started environ places own host meets config task r)
  run_started-Finished (store, logged, false) h = held_back tt (ground arith)
  run_started-Finished (store, logged, true) h =
      run_logged-Outcome environ places own host meets config task logged store h

  abbrev job_of : Store × Job × Bool → Job
  job_of (s, job, opened) = job

  start_log-ref :
      (remove : Text → Bool) (job : Job) (store : Store)
      → (start_log environ places own host meets remove job store).1.ref ≡ job.ref
  unfolding start_log
  start_log-ref remove job store =
      chosen (not (is_empty (prune_logs remove own store).1)) (not meets.log_opens) _ _ _ _
    where
      chosen :
          (a b : Bool) (s t u : Store) (path : Text)
          → (job_of (
              if a
              then (s, job, false)
              else if b
              then (t, record job { log_path = path }, false)
              else (u, record job { log_path = path }, true))).ref
            ≡ job.ref
      chosen true b s t u path = refl
      chosen false true s t u path = refl
      chosen false false s t u path = refl

  -- A job of a recorded commit: either no command of the task ran and the exit code is not 0; or the
  -- worktree was verified, the work directory lies inside, `prepare` and the task's command passed the
  -- checks on commands, and they ran in this order, each once. The code is 0 only if, besides, the
  -- worktree was verified again after the task and then removed.
  pub run_job-Finished :
      (remove : Text → Bool) (job : Job) (store : Store)
      → job_config own job ≡ ok (config, task)
      → is_checkout_sha job.ref ≡ true
      → Finished (run_job environ places own host meets remove job store)
  unfolding run_job
  run_job-Finished remove job store configured at_commit =
      rw (run_job, configured)
        (run_started-Finished (start_log environ places own host meets remove job store)
          (rw (start_log-ref remove job store) at_commit))
