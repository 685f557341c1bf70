-- ===== src/Work/Execute.antt =====
-- Running one command of a job: `executeCommandWithRunEnvironment` and `jobRunEnvironment` of
-- internal/bitci/controller.go, with the row's worker_pid. What the process does is given.
use bitci.Prelude.{
  ℕ, Bool, true, false, not, ◌&&◌, Option, none, some, List, [], ◌∷◌, ◌==◌, if◌then◌else◌, nat_eq,
  list_eq, contains,
}
use bitci.Prelude.Text.{Text, codes}
use bitci.Prelude.Int.{ℤ, pos, int_eq}
use bitci.Prelude.Strings.{is_empty, decimal}
use bitci.Prelude.Dict.{Dict}
use bitci.Guard.Environment.{task_environment, set_environment_value}
use bitci.Queue.{Job, Store}
use bitci.Queue.Table.{count, is_running, has_id}
use bitci.Queue.Finish.{matching}
use bitci.Paths.{Files}
use bitci.Paths.Commands.{look_path}
use bitci.Work.Worktree.{set_rows}

-- How a process goes: its group's number if it starts, whether that can be written down, how the
-- wait ends (`none` is an error that is no exit code), and whether the group is gone afterwards.
pub record Process : Type 0 where
  pub pid : Option ℕ
  pub recorded : Bool
  pub exits : Option ℤ
  pub group_stopped : Bool

-- The job's variables, in some order of Go's map.
unfoldable pub job_run_environment :
    (state_dir : Text) → Job → (directory worktree_root : Text) → Dict Text Text
job_run_environment state_dir job directory worktree_root =
    (codes "BITCI_JOB_ID", decimal job.id)
    ∷ (codes "BITCI_WORKTREE", if is_empty worktree_root then directory else worktree_root)
    ∷ (codes "BITCI_LOG_PATH", job.log_path)
    ∷ (codes "BITCI_STATE_DIR", state_dir)
    ∷ (codes "BITCI_SUBMITTED_SHA", job.submitted_ref)
    ∷ (codes "BITCI_TESTED_SHA", job.tested_sha)
    ∷ []

unfoldable pub set_all : Dict Text Text → List Text → List Text
set_all [] environment = environment
set_all ((name, value) ∷ rest) environment =
    set_all rest (set_environment_value environment name value)

unfoldable pub worker_row : Option ℕ → Job → Job
worker_row pid row = record row { worker_pid = pid }

-- `worker_pid = ?`.
abbrev pub has_worker : ℕ → Job → Bool
has_worker pid row = elim row.worker_pid [ none ↦ false | some n ↦ n == pid ]

-- The exit code, from the end of the wait.
unfoldable pub wait_code : Process → ℤ
wait_code process = elim process.exits [ none ↦ pos 127 | some code ↦ code ]

unfoldable pub run_process : (job_id : ℕ) → Process → Store → Store × ℤ
run_process job_id process store = elim process.pid [
  | none ↦ (store, pos 127)
  | some pid ↦
      let started = set_rows (matching job_id is_running) (worker_row (some pid)) store in
      let ended =
        set_rows (λ row. has_id job_id row && has_worker pid row) (worker_row none) started in
      if not process.recorded
      then (store, pos 127)
      else if not (count (matching job_id is_running) store.jobs == 1)
      then (started, pos 127)
      else if wait_code process == pos 0 && not process.group_stopped
      then (started, pos 127)
      else (ended, wait_code process)
]

abbrev pub starts_with_nothing : List Text → Bool
starts_with_nothing [] = true
starts_with_nothing (program ∷ args) = is_empty program

abbrev pub program_of : List Text → Text
program_of [] = []
program_of (program ∷ args) = program

-- A command without a slash is looked up in the environment that it will have.
unfoldable pub execute :
    Files
    → (environ : List Text) (overrides run_environment : Dict Text Text) (directory : Text)
    → (argv : List Text) (job_id : ℕ) → Process
    → Store
    → Store × ℤ
execute files environ overrides run_environment directory argv job_id process store =
    let environment = set_all run_environment (task_environment environ overrides directory) in
    let run = run_process job_id process store in
    if starts_with_nothing argv
    then (store, pos 127)
    else if contains (program_of argv) b'/'
    then run
    else elim (look_path files (program_of argv) environment directory) [
      | none ↦ (store, pos 127)
      | some resolved ↦ run
    ]
