-- ===== src/Work/Checks.antt =====
-- What `runOnce` of internal/bitci/controller.go checks before the command of a job of a recorded
-- commit runs, from the work directory on.
use bitci.Prelude.{
  Bool, true, false, List, [], ◌∷◌, ◌++◌, ◌==◌, ◌≡◌, refl, arith, if◌then◌else◌, nat_eq, list_eq,
  Bool-cases, inl, inr,
}
use bitci.Prelude.Text.{Text}
use bitci.Prelude.Int.{ℤ, pos, int_eq}
use bitci.Prelude.Strings.{is_empty}
use bitci.Config.{Config, Task}
use bitci.Queue.{Job, Store, Host}
use bitci.Paths.State.{Places}
use bitci.Paths.Commands.{has_unsafe_checkout_command, has_unsafe_prepare_command}
use bitci.Work.Worktree.{
  worktree_path, job_checkout_owner, verify_job_worktree, remove_job_worktree,
  work_dir_within_worktree,
}
use bitci.Work.Once.{
  Meets, Ran, prepares, runs, refuse, Ending, roots_of, checked_code, done_code, run_task,
  run_commands, close_log, end_worktree,
}

-- No task's command is among them.
abbrev pub NoTask : List Ran → Type 0
NoTask [] = Unit {0}
NoTask (prepares argv ∷ ran) = NoTask ran
NoTask (runs argv ∷ ran) = ⊥

refuse-zero :
    (bad : Bool) (code : ℤ)
    → (refuse bad code == pos 0) ≡ true
    → (bad ≡ false) × ((code == pos 0) ≡ true)
unfolding refuse
refuse-zero true code h = absurd ground arith
refuse-zero false code h = (refl, ground arith)

module _ (environ : List Text) (places : Places) (own : Config) (host : Host) (meets : Meets)
    (config : Config) (task : Task) (job : Job) where
  -- What was checked before the command of a task ran in a directory.
  pub record Guards (work_dir : Text) : Type 0 where
    pub prepare_safe :
        is_empty config.prepare ≡ false
        → has_unsafe_prepare_command meets.files environ places.config_path
            (roots_of places job (worktree_path places.state_dir job) work_dir)
            config.prepare
          ≡ false
    pub command_safe :
        has_unsafe_checkout_command meets.files_prepared environ places.config_path
          (roots_of places job (worktree_path places.state_dir job) work_dir)
          task.env
          task.run
        ≡ false
    pub verified :
        verify_job_worktree meets.files_prepared
          (worktree_path places.state_dir job)
          job.ref
          (job_checkout_owner job)
          meets.worktree_prepared
        ≡ true
    pub inside :
        work_dir_within_worktree meets.files_prepared (worktree_path places.state_dir job) work_dir
        ≡ true

  abbrev pub expected_runs : List Ran
  expected_runs =
      if is_empty config.prepare
      then runs task.run ∷ []
      else prepares config.prepare ∷ runs task.run ∷ []

  -- Either no task's command ran and the code is not 0, or the checks held, the commands ran in their
  -- order, and the code is 0 only with what `Clean` says.
  pub data Outcome (Clean : Ending → Type 0) (e : Ending) : Type 0 where
    held_back : NoTask e.ran → (e.code == pos 0) ≡ false → Outcome Clean e
    went :
        (work_dir : Text)
        → Guards work_dir
        → e.ran ≡ expected_runs
        → ((e.code == pos 0) ≡ true → Clean e)
        → Outcome Clean e

  -- The worktree was as it should be after the task.
  abbrev pub IsVerified : Ending → Type 0
  IsVerified e =
      verify_job_worktree meets.files_done (worktree_path places.state_dir job) job.ref
        (job_checkout_owner job) meets.worktree_done
      ≡ true

  -- And it could be removed.
  abbrev pub IsClean : Ending → Type 0
  IsClean e =
      IsVerified e
      × (remove_job_worktree (job_checkout_owner job) meets.worktree_left meets.removed ≡ true)
      × (e.pending ≡ false)

  run_task-Outcome :
      (work_dir : Text) (store : Store) (code : ℤ) (ran : List Ran)
      → NoTask ran
      → (ran ++ runs task.run ∷ []) ≡ expected_runs
      → (is_empty config.prepare ≡ false
          → has_unsafe_prepare_command meets.files environ places.config_path
              (roots_of places job (worktree_path places.state_dir job) work_dir)
              config.prepare
            ≡ false)
      → Outcome
          (λ e. IsVerified e × (e.pending ≡ false))
          (run_task environ places own host meets true job task
            (worktree_path places.state_dir job)
            work_dir
            store
            code
            ran)
  unfolding run_task checked_code done_code
  run_task-Outcome work_dir store code ran no_task order safe =
      elim (Bool-cases (
        checked_code environ places own host meets true job task
          (worktree_path places.state_dir job) work_dir code
        == pos 0)) [
          | inr refused ↦ rw (run_task, refused) (held_back no_task refused)
          | inl passed ↦
              let (command_safe, inner) = refuse-zero _ _ passed in
              let (inside, most) = refuse-zero _ _ inner in
              let (verified, before) = refuse-zero _ _ most in
              rw (run_task, passed)
                (went work_dir
                  (record {
                    prepare_safe = safe;
                    command_safe = command_safe;
                    verified = ground arith;
                    inside = ground arith;
                  })
                  order (λ zero. (ground (arith, (refuse-zero _ _ zero).0), refl)))
        ]

  pub run_commands-Outcome :
      (work_dir : Text) (store : Store)
      → Outcome
          (λ e. IsVerified e × (e.pending ≡ false))
          (run_commands environ places own host meets true job config task
            (worktree_path places.state_dir job)
            work_dir
            store)
  unfolding run_commands
  run_commands-Outcome work_dir store =
      elim (Bool-cases
        (work_dir_within_worktree meets.files (worktree_path places.state_dir job) work_dir)) [
          | inr outside ↦ rw (run_commands, outside) (held_back tt (ground arith))
          | inl inside ↦ elim (Bool-cases (is_empty config.prepare)) [
            | inl none_to_run ↦
                rw (run_commands, inside, none_to_run)
                  (run_task-Outcome work_dir store (pos 0) [] tt (rw none_to_run refl)
                    (λ some_to_run. absurd ground arith))
            | inr some_to_run ↦
                elim (Bool-cases (
                  has_unsafe_prepare_command meets.files environ places.config_path
                    (roots_of places job (worktree_path places.state_dir job) work_dir)
                    config.prepare)) [
                      | inl unsafe ↦
                          rw (run_commands, inside, some_to_run, unsafe)
                            (held_back tt (ground arith))
                      | inr safe ↦
                          rw (run_commands, inside, some_to_run, safe)
                            (run_task-Outcome work_dir _ _ (prepares config.prepare ∷ []) tt
                              (rw some_to_run refl) (λ some_left. safe))
                    ]
          ]
        ]

  pub end_worktree-Outcome :
      (e : Ending)
      → Outcome (λ e. IsVerified e × (e.pending ≡ false)) e
      → Outcome IsClean (end_worktree environ places own host meets job e)
  unfolding end_worktree
  end_worktree-Outcome e o =
      elim (Bool-cases
        (remove_job_worktree (job_checkout_owner job) meets.worktree_left meets.removed)) [
          | inl gone ↦ rw (end_worktree, gone) (removed e gone o)
          | inr left ↦ rw (end_worktree, left) (kept e o)
        ]
    where
      removed :
          (f : Ending)
          → remove_job_worktree (job_checkout_owner job) meets.worktree_left meets.removed ≡ true
          → Outcome (λ g. IsVerified g × (g.pending ≡ false)) f
          → Outcome IsClean f
      removed f gone (held_back no_task other) = held_back no_task other
      removed f gone (went d guards order clean) =
          went d guards order (λ zero. ((clean zero).0, gone, (clean zero).1))

      kept :
          (f : Ending)
          → Outcome (λ g. IsVerified g × (g.pending ≡ false)) f
          → Outcome IsClean
              (record f { pending = true; code = if f.code == pos 0 then pos 125 else f.code })
      kept f (held_back no_task other) = held_back no_task (ground arith)
      kept f (went d guards order clean) = went d guards order (λ zero. absurd ground arith)

  pub close_log-Outcome :
      (e : Ending) → Outcome IsClean e → Outcome IsClean (close_log environ places own host meets e)
  unfolding close_log
  close_log-Outcome e (held_back no_task other) = held_back no_task (ground arith)
  close_log-Outcome e (went d guards order clean) =
      went d guards order (λ zero. clean (ground arith))
