-- ===== src/Work/Rows.antt =====
-- The tables in front of `finish` in `runOnce` of internal/bitci/controller.go: each step on the way is a
-- change that keeps their invariant.
use bitci.Prelude.{
  Bool, true, false, not, ◌&&◌, List, [], ◌∷◌, ◌==◌, ◌≡◌, refl, if◌then◌else◌, nat_eq, list_eq,
  Option-cases, inl, inr, either,
}
use bitci.Prelude.Text.{Text}
use bitci.Prelude.Int.{ℤ, pos, int_eq}
use bitci.Prelude.Strings.{is_empty, equal_fold}
use bitci.Prelude.Result.{Result, ok, err}
use bitci.Config.{Config, Task}
use bitci.Sha.{is_checkout_sha}
use bitci.Queue.{Job, Store, Host, QueueError}
use bitci.Queue.Table.{has_id}
use bitci.Queue.Edits.{Edits, here, Edits-trans}
use bitci.Queue.JobConfig.{job_config}
use bitci.Queue.Retention.{prune_logs}
use bitci.Queue.Retention.Effects.{prune_logs-Edits}
use bitci.Paths.{Entry, missing, unreadable, link, directory, file, join_path}
use bitci.Paths.Commands.{has_unsafe_prepare_command}
use bitci.Paths.State.{Places}
use bitci.Work.Worktree.{
  Staged, not_staged, staged_in, set_rows, pending_row, tested_row, full_sha, all_made,
  job_location, worktree_path, check_staged, work_dir_within_worktree, job_checkout,
}
use bitci.Work.Execute.{job_run_environment, execute}
use bitci.Work.Once.{
  Meets, Ran, prepares, Ending, log_row, roots_of, checked_code, run_task, run_commands, close_log,
  end_worktree, run_staged, run_checkout, run_logged, start_log, run_started, run_configured,
  run_job,
}
use bitci.Work.Changes.{
  staged_store, ending_store, pending_row-Revises, tested_row-Revises, log_row-Revises,
  set_rows-Edits, execute-Edits, Reaches, ending_at,
}

module _ (environ : List Text) (places : Places) (own : Config) (host : Host) (meets : Meets) where
  run_task-Edits :
      (at_commit : Bool) (job : Job) (task : Task) (worktree work_dir : Text) (s : Store) (code : ℤ)
      (ran : List Ran)
      → Edits own s
          (run_task environ places own host meets at_commit job task worktree work_dir s code
            ran).store
  unfolding run_task
  run_task-Edits at_commit job task worktree work_dir s code ran =
      chosen
        (checked_code environ places own host meets at_commit job task worktree work_dir code
          == pos 0)
        _ _ _
    where
      chosen :
          (b : Bool) (code1 code2 : ℤ) (ran1 : List Ran)
          → Edits own s (
              ending_store (
                if b
                then record {
                  store =
                      (execute meets.files_prepared environ task.env
                        (job_run_environment places.state_dir job work_dir worktree)
                        work_dir
                        task.run
                        job.id
                        meets.task
                        s).0;
                  code = code1;
                  pending = false;
                  ran = ran1;
                }
                else record { store = s; code = code2; pending = false; ran = ran }))
      chosen true c d r =
          execute-Edits own meets.files_prepared environ task.env _ work_dir task.run _ _ s
      chosen false c d r = here

  run_commands-Reaches :
      (at_commit : Bool) (job : Job) (config : Config) (task : Task) (worktree work_dir : Text)
      (s : Store)
      → Reaches own s
          (run_commands environ places own host meets at_commit job config task worktree work_dir s)
  unfolding run_commands
  run_commands-Reaches at_commit job config task worktree work_dir s =
      let prepared =
        execute-Edits own meets.files environ []
          (job_run_environment places.state_dir job work_dir worktree) work_dir config.prepare
          job.id meets.prepare s in
      let (after, result) =
        execute meets.files environ [] (job_run_environment places.state_dir job work_dir worktree)
          work_dir config.prepare job.id meets.prepare s in
      let first : Ending =
        run_task environ places own host meets at_commit job task worktree work_dir after result
          (prepares config.prepare ∷ []) in
      let other : Ending =
        run_task environ places own host meets at_commit job task worktree work_dir s (pos 0) [] in
      let with_prepare : Reaches own s first = record {
        edits = Edits-trans prepared (
            run_task-Edits at_commit job task worktree work_dir after result
              (prepares config.prepare ∷ []));
      } in
      let without : Reaches own s other = record {
        edits = run_task-Edits at_commit job task worktree work_dir s (pos 0) [];
      } in
      let refused = ending_at own s s (pos 126) false [] here in
      either (Reaches own s)
        (at_commit && not (work_dir_within_worktree meets.files worktree work_dir)) refused
        (either (Reaches own s)
          (at_commit
            && not (is_empty config.prepare)
            && has_unsafe_prepare_command meets.files environ places.config_path
                (roots_of places job worktree work_dir) config.prepare)
          refused
          (either (Reaches own s) (at_commit && not (is_empty config.prepare)) {x = first}
            {y = other} with_prepare without))

  close_log-Reaches :
      (s : Store) (e : Ending)
      → Reaches own s e
      → Reaches own s (close_log environ places own host meets e)
  unfolding close_log
  close_log-Reaches s e h = record { edits = h.edits }

  end_worktree-Reaches :
      (s : Store) (job : Job) (e : Ending)
      → Reaches own s e
      → Reaches own s (end_worktree environ places own host meets job e)
  unfolding end_worktree
  end_worktree-Reaches s job e h = either (Reaches own s) _ h (record { edits = h.edits })

  run_staged-Reaches :
      (job : Job) (config : Config) (task : Task) (work_dir : Text) (s : Store)
      → Reaches own s (run_staged environ places own host meets job config task work_dir s)
  unfolding run_staged
  run_staged-Reaches job config task work_dir s =
      either (Reaches own s) _ (ending_at own s s (pos 127) true [] here) (
        either (Reaches own s) _ (ending_at own s s (pos 126) _ [] here) (
          either (Reaches own s) _ (ending_at own s s (pos 127) false [] here) (
            close_log-Reaches s _ (
              end_worktree-Reaches s job _
                (run_commands-Reaches true _ config task _ work_dir s)))))

  job_checkout-Edits :
      (job : Job) (s : Store)
      → Edits own s (job_checkout host places.state_dir job meets.staging s).0
  unfolding job_checkout check_staged
  job_checkout-Edits job s = elim (Option-cases (job_location host job)) [
    | inl lost ↦ rw (job_checkout, lost) here
    | inr ((root, relative), found) ↦
        rw (job_checkout, found)
          (chosen meets.staging.root_made meets.staging.present _
            (staged (worktree_path places.state_dir job) relative))
  ]
    where
      pending : Edits own s (set_rows (has_id job.id) pending_row s)
      pending = set_rows-Edits own (has_id job.id) pending_row s pending_row-Revises

      kept :
          (b : Bool) (sha work_dir : Text)
          → Edits own s (
              staged_store (
                if b
                then (
                  set_rows
                      (has_id job.id)
                      (tested_row sha)
                      (set_rows (has_id job.id) pending_row s),
                  staged_in work_dir,
                )
                else (set_rows (has_id job.id) pending_row s, not_staged true)))
      kept true sha work_dir =
          Edits-trans pending
            (set_rows-Edits own (has_id job.id) (tested_row sha) _ (tested_row-Revises sha))
      kept false sha work_dir = pending

      staged :
          (path relative : Text)
          → Edits own s
              (check_staged path relative job meets.staging
                (set_rows (has_id job.id) pending_row s)).0
      staged path relative = elim (Option-cases (full_sha meets.staging.head)) [
        | inl unknown ↦ rw (check_staged, unknown) pending
        | inr (sha, known) ↦
            rw (check_staged, known)
              (kept (all_made meets.staging && equal_fold sha job.ref) sha
                (join_path path relative))
      ]

      chosen :
          (a : Bool) (entry : Entry) (r : Store × Staged)
          → Edits own s r.0
          → Edits own s (
              staged_store (
                if not a then (s, not_staged false) else elim entry as (λ x. Store × Staged) [
                  | missing ↦ r
                  | unreadable ↦ (s, not_staged false)
                  | link ↦ (s, not_staged false)
                  | directory ↦ (s, not_staged false)
                  | file executable ↦ (s, not_staged false)
                ]))
      chosen false entry r h = here
      chosen true missing r h = h
      chosen true unreadable r h = here
      chosen true link r h = here
      chosen true directory r h = here
      chosen true (file executable) r h = here

  run_checkout-Reaches :
      (job : Job) (config : Config) (task : Task) (s : Store) (r : Store × Staged)
      → Edits own s r.0
      → Reaches own s (run_checkout environ places own host meets job config task r)
  run_checkout-Reaches job config task s (t, not_staged cleanup) h = record { edits = h }
  run_checkout-Reaches job config task s (t, staged_in work_dir) h = record {
    edits = Edits-trans h (run_staged-Reaches job config task work_dir t).edits;
  }

  run_logged-Reaches :
      (job : Job) (config : Config) (task : Task) (s : Store)
      → Reaches own s (run_logged environ places own host meets job config task s)
  unfolding run_logged
  run_logged-Reaches job config task s =
      either (Reaches own s) (is_checkout_sha job.ref)
        (either (Reaches own s) meets.header_written
          (run_checkout-Reaches job config task s _ (job_checkout-Edits job s))
          (ending_at own s s (pos 127) false [] here))
        (close_log-Reaches s _ (run_commands-Reaches false job config task [] _ s))

  -- What `startLog` leaves, and the job that goes on.
  record Started (s : Store) (job : Job) (r : Store × Job × Bool) : Type 0 where
    edits : Edits own s r.0
    id : r.1.id ≡ job.id

  start_log-Started :
      (remove : Text → Bool) (job : Job) (s : Store)
      → Started s job (start_log environ places own host meets remove job s)
  unfolding start_log
  start_log-Started remove job s =
      let pruned = prune_logs-Edits own remove s in
      either (Started s job) (not (is_empty (prune_logs remove own s).1))
        (record { edits = pruned; id = refl })
        (either (Started s job) (not meets.log_opens) (record { edits = pruned; id = refl })
          (record {
            edits = Edits-trans pruned (set_rows-Edits own _ (log_row _) _ (log_row-Revises _));
            id = refl;
          }))

  pub record Prepared (s : Store) (job : Job) (r : Job × Ending) : Type 0 where
    pub edits : Edits own s r.1.store
    pub id : r.0.id ≡ job.id

  run_started-Prepared :
      (config : Config) (task : Task) (job : Job) (s : Store) (r : Store × Job × Bool)
      → Started s job r
      → Prepared s job (run_started environ places own host meets config task r)
  run_started-Prepared config task job s (t, logged, false) h = record {
    edits = h.edits;
    id = h.id;
  }
  run_started-Prepared config task job s (t, logged, true) h = record {
    edits = Edits-trans h.edits (run_logged-Reaches logged config task t).edits;
    id = h.id;
  }

  pub run_job-Prepared :
      (remove : Text → Bool) (job : Job) (s : Store)
      → Prepared s job (run_job environ places own host meets remove job s)
  unfolding run_job
  run_job-Prepared remove job s = configured (job_config own job)
    where
      configured :
          (r : Result QueueError (Config × Task))
          → Prepared s job (run_configured environ places own host meets remove job s r)
      configured (err e) = record { edits = here; id = refl }
      configured (ok (config, task)) =
          run_started-Prepared config task job s _ (start_log-Started remove job s)
