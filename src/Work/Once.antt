-- ===== src/Work/Once.antt =====
-- `runOnce` and `startLog` of internal/bitci/controller.go, from the claimed job on: which commands run,
-- with which exit code the job ends, and what becomes of its worktree.
use bitci.Prelude.{
  Bool, true, false, not, ◌&&◌, Option, none, some, List, [], ◌∷◌, ◌++◌, ◌==◌, if◌then◌else◌,
  nat_eq, list_eq,
}
use bitci.Prelude.Text.{Text, codes}
use bitci.Prelude.Int.{ℤ, pos, int_eq}
use bitci.Prelude.Strings.{is_empty, decimal}
use bitci.Prelude.Result.{Result, ok, err}
use bitci.Config.{Config, Task}
use bitci.Sha.{is_checkout_sha}
use bitci.Queue.{Job, Store, Git, Host, World, QueueError}
use bitci.Queue.Table.{find, has_id}
use bitci.Queue.JobConfig.{job_config}
use bitci.Queue.Retention.{prune_logs}
use bitci.Queue.Claim.{claim_context}
use bitci.Queue.Finish.{finish}
use bitci.Paths.{Files, join_path, dir}
use bitci.Paths.State.{Places, git_directory}
use bitci.Paths.Commands.{Roots, has_unsafe_checkout_command, has_unsafe_prepare_command}
use bitci.Work.Worktree.{
  Staging, Staged, not_staged, staged_in, Worktree, set_rows, worktree_path, job_checkout_owner,
  job_checkout, verify_job_worktree, remove_job_worktree, work_dir_within_worktree, holds,
}
use bitci.Work.Execute.{Process, job_run_environment, execute}

-- What one run meets. The files and the worktree are read before the commands, after `prepare`, after
-- the task, and when the worktree is removed; the flags say whether the log takes what is written.
pub record Meets : Type 0 where
  pub log_opens : Bool
  pub header_written : Bool
  pub worktree_written : Bool
  pub tested_written : Bool
  pub log_closes : Bool
  pub staging : Staging
  pub owner : Option Text
  pub files : Files
  pub prepare : Process
  pub files_prepared : Files
  pub worktree_prepared : Worktree
  pub task : Process
  pub files_done : Files
  pub worktree_done : Worktree
  pub worktree_left : Worktree
  pub removed : Bool

-- The commands that were given to `execute`, in their order.
pub data Ran : Type 0 where
  prepares runs : List Text → Ran

-- A code that is still 0 becomes 126 at a refusal.
unfoldable pub refuse : Bool → ℤ → ℤ
refuse bad code = if code == pos 0 && bad then pos 126 else code

unfoldable pub log_row : Text → Job → Job
log_row path row = record row { log_path = path }

-- What is left of the run: the tables, the exit code, whether the worktree stays, the commands.
pub record Ending : Type 0 where
  pub store : Store
  pub code : ℤ
  pub pending : Bool
  pub ran : List Ran

abbrev pub roots_of : Places → Job → (worktree work_dir : Text) → Roots
roots_of places job worktree work_dir = record {
  checkout = if is_empty job.checkout_root then git_directory places else job.checkout_root;
  worktree = worktree;
  work_dir = work_dir;
}

module _ (environ : List Text) (places : Places) (own : Config) (host : Host) (meets : Meets) where
  -- The steps behind `prepare`. `at_commit` tells a job of a recorded commit.
  unfoldable pub checked_code : (at_commit : Bool) → Job → Task → (worktree work_dir : Text) → ℤ → ℤ
  checked_code at_commit job task worktree work_dir code =
      let prepared =
        verify_job_worktree meets.files_prepared worktree job.ref (job_checkout_owner job)
          meets.worktree_prepared in
      let inside = work_dir_within_worktree meets.files_prepared worktree work_dir in
      let unsafe =
        has_unsafe_checkout_command meets.files_prepared environ places.config_path
          (roots_of places job worktree work_dir) task.env task.run in
      refuse (at_commit && unsafe)
        (refuse (at_commit && not inside) (refuse (at_commit && not prepared) code))

  unfoldable pub done_code : (at_commit : Bool) → Job → (worktree : Text) → ℤ → ℤ
  done_code at_commit job worktree code =
      let done =
        verify_job_worktree meets.files_done worktree job.ref (job_checkout_owner job)
          meets.worktree_done in
      refuse (at_commit && not done) code

  unfoldable pub run_task :
      (at_commit : Bool) → Job → Task → (worktree work_dir : Text) → Store → ℤ → List Ran → Ending
  run_task at_commit job task worktree work_dir store code ran =
      let checked = checked_code at_commit job task worktree work_dir code in
      let (after, result) =
        execute meets.files_prepared environ task.env
          (job_run_environment places.state_dir job work_dir worktree) work_dir task.run job.id
          meets.task store in
      if checked == pos 0
      then record {
        store = after;
        code = done_code at_commit job worktree result;
        pending = false;
        ran = ran ++ runs task.run ∷ [];
      }
      else record { store = store; code = checked; pending = false; ran = ran }

  unfoldable pub run_commands :
      (at_commit : Bool) → Job → Config → Task → (worktree work_dir : Text) → Store → Ending
  run_commands at_commit job config task worktree work_dir store =
      let refused : Ending = record { store = store; code = pos 126; pending = false; ran = [] } in
      let (after, result) =
        execute meets.files environ [] (job_run_environment places.state_dir job work_dir worktree)
          work_dir config.prepare job.id meets.prepare store in
      let with_prepare =
        run_task at_commit job task worktree work_dir after result (prepares config.prepare ∷ []) in
      let without = run_task at_commit job task worktree work_dir store (pos 0) [] in
      if at_commit && not (work_dir_within_worktree meets.files worktree work_dir)
      then refused
      else if at_commit
          && not (is_empty config.prepare)
          && has_unsafe_prepare_command meets.files environ places.config_path
              (roots_of places job worktree work_dir) config.prepare
      then refused
      else if at_commit && not (is_empty config.prepare)
      then with_prepare
      else without

  -- The end of the log; a job of a recorded commit removes its worktree first.
  unfoldable pub close_log : Ending → Ending
  close_log e = record e {
    code = if not meets.log_closes && e.code == pos 0 then pos 127 else e.code;
  }

  unfoldable pub end_worktree : Job → Ending → Ending
  end_worktree job e =
      if remove_job_worktree (job_checkout_owner job) meets.worktree_left meets.removed
      then e
      else record e { pending = true; code = if e.code == pos 0 then pos 125 else e.code }

  abbrev pub fails : ℤ → Bool → Store → Ending
  fails code pending store = record { store = store; code = code; pending = pending; ran = [] }

  abbrev pub tested_of : Option Job → Text
  tested_of none = []
  tested_of (some row) = row.tested_sha

  -- In a worktree that was made.
  unfoldable pub run_staged : Job → Config → Task → (work_dir : Text) → Store → Ending
  run_staged job config task work_dir store =
      let worktree = worktree_path places.state_dir job in
      let cleaned =
        remove_job_worktree (job_checkout_owner job) meets.worktree_left meets.removed in
      let tested = record job { tested_sha = tested_of (find (has_id job.id) store.jobs) } in
      if not meets.worktree_written
      then fails (pos 127) true store
      else if not (holds (λ owner. owner == job_checkout_owner job) meets.owner)
      then fails (pos 126) (not cleaned) store
      else if not meets.tested_written
      then fails (pos 127) false store
      else close_log
          (end_worktree job (run_commands true tested config task worktree work_dir store))

  abbrev pub run_checkout : Job → Config → Task → Store × Staged → Ending
  run_checkout job config task (store, not_staged cleanup) =
      fails (pos 126)
        (cleanup
          && not (remove_job_worktree (job_checkout_owner job) meets.worktree_left meets.removed))
        store
  run_checkout job config task (store, staged_in work_dir) =
      run_staged job config task work_dir store

  unfoldable pub run_logged : Job → Config → Task → Store → Ending
  run_logged job config task store =
      let checkout =
        run_checkout job config task (job_checkout host places.state_dir job meets.staging store) in
      let plain =
        close_log (run_commands false job config task [] (dir places.config_path) store) in
      if is_checkout_sha job.ref
      then (if meets.header_written then checkout else fails (pos 127) false store)
      else plain

  -- `startLog`: the tables, the job with the path of its log, and whether the log is open.
  unfoldable pub start_log : (Text → Bool) → Job → Store → Store × Job × Bool
  start_log remove job store =
      let (pruned, errors) = prune_logs remove own store in
      let path = join_path places.state_dir (codes "logs/job-" ++ decimal job.id ++ codes ".log") in
      let logged = record job { log_path = path } in
      if not (is_empty errors)
      then (pruned, job, false)
      else if not meets.log_opens
      then (pruned, logged, false)
      else (set_rows (has_id job.id) (log_row path) pruned, logged, true)

  abbrev pub run_started : Config → Task → Store × Job × Bool → Job × Ending
  run_started config task (store, logged, false) = (logged, fails (pos 127) false store)
  run_started config task (store, logged, true) = (logged, run_logged logged config task store)

  abbrev pub run_configured :
      (Text → Bool) → Job → Store → Result QueueError (Config × Task) → Job × Ending
  run_configured remove job store (err e) = (job, fails (pos 127) false store)
  run_configured remove job store (ok (config, task)) =
      run_started config task (start_log remove job store)

  -- The job as it was claimed, up to the arguments of `finish`.
  unfoldable pub run_job : (Text → Bool) → Job → Store → Job × Ending
  run_job remove job store = run_configured remove job store (job_config own job)

-- A whole round: whether a job was claimed, the errors, and the commands.
pub record Round (Repo : Type 0) : Type 0 where
  pub world : World Repo
  pub claimed : Option Job
  pub code : ℤ
  pub errors : List QueueError
  pub ran : List Ran

module _ {Repo : Type 0} (git : Git Repo) (environ : List Text) (places : Places) (own : Config)
    (host : Host) (meets : Meets) (remove : Text → Bool) where
  unfoldable pub work : Job → World Repo → Round Repo
  work job w =
      let (logged, ending) = run_job environ places own host meets remove job w.store in
      let (after, errors) =
        finish git host remove own (record w { store = ending.store }) logged ending.code
          ending.pending in
      record {
        world = after;
        claimed = some job;
        code = ending.code;
        errors = errors;
        ran = ending.ran;
      }

  abbrev pub after_claim : World Repo × Result QueueError (Option Job) → Round Repo
  after_claim (w, err e) = record {
    world = w;
    claimed = none;
    code = pos 0;
    errors = e ∷ [];
    ran = [];
  }
  after_claim (w, ok none) = record {
    world = w;
    claimed = none;
    code = pos 0;
    errors = [];
    ran = [];
  }
  after_claim (w, ok (some job)) = work job w

  unfoldable pub run_once : World Repo → ℤ → Round Repo
  run_once w max_workers = after_claim (claim_context git host own w max_workers)
