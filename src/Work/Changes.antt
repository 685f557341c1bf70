-- ===== src/Work/Changes.antt =====
-- What setting rows and executing a command in `runOnce` of internal/bitci/controller.go change of the
-- tables.
use bitci.Prelude.{
  ℕ, Bool, true, false, not, ◌&&◌, Option, none, some, List, ◌==◌, refl, if◌then◌else◌, nat_eq,
  list_eq, contains, Option-cases, inl, inr,
}
use bitci.Prelude.Text.{Text}
use bitci.Prelude.Int.{ℤ, pos, int_eq}
use bitci.Prelude.Dict.{Dict}
use bitci.Config.{Config}
use bitci.Queue.{Job, Store}
use bitci.Queue.Table.{count, is_running}
use bitci.Queue.Rows.{Revises, stays}
use bitci.Queue.Edits.{Edits, here, Edits-trans, update-Edits}
use bitci.Queue.Finish.{matching}
use bitci.Guard.Environment.{task_environment}
use bitci.Paths.{Files}
use bitci.Paths.Commands.{look_path}
use bitci.Work.Worktree.{Staged, set_rows, pending_row, tested_row}
use bitci.Work.Execute.{
  Process, worker_row, wait_code, starts_with_nothing, program_of, set_all, run_process, execute,
}
use bitci.Work.Once.{Ran, Ending, log_row}

abbrev store_of : Store × ℤ → Store
store_of (s, code) = s

abbrev pub staged_store : Store × Staged → Store
staged_store (s, staged) = s

abbrev pub ending_store : Ending → Store
ending_store e = e.store

pub pending_row-Revises : (row : Job) → Revises row (pending_row row)
unfolding pending_row
pending_row-Revises row = record {
  id = refl;
  batch = refl;
  task = refl;
  config_json = refl;
  move = stays refl;
}

pub tested_row-Revises : (sha : Text) (row : Job) → Revises row (tested_row sha row)
unfolding tested_row
tested_row-Revises sha row = record {
  id = refl;
  batch = refl;
  task = refl;
  config_json = refl;
  move = stays refl;
}

pub log_row-Revises : (path : Text) (row : Job) → Revises row (log_row path row)
unfolding log_row
log_row-Revises path row = record {
  id = refl;
  batch = refl;
  task = refl;
  config_json = refl;
  move = stays refl;
}

module _ (own : Config) where
  -- An update of the columns that no other rule speaks of.
  pub set_rows-Edits :
      (p : Job → Bool) (f : Job → Job) (s : Store)
      → ((row : Job) → Revises row (f row))
      → Edits own s (set_rows p f s)
  set_rows-Edits p f s h = update-Edits own s (set_rows p f s) p f (λ row k. h row) refl refl

  worker_row-Revises : (pid : Option ℕ) (row : Job) → Revises row (worker_row pid row)
  unfolding worker_row
  worker_row-Revises pid row = record {
    id = refl;
    batch = refl;
    task = refl;
    config_json = refl;
    move = stays refl;
  }

  run_process-Edits :
      (id : ℕ) (process : Process) (s : Store) → Edits own s (run_process id process s).0
  unfolding run_process
  run_process-Edits id process s = elim (Option-cases process.pid) [
    | inl unstarted ↦ rw (run_process, unstarted) here
    | inr (pid, started) ↦
        let begun =
          set_rows-Edits (matching id is_running) (worker_row (some pid)) s
            (worker_row-Revises (some pid)) in
        let ended =
          Edits-trans begun (set_rows-Edits _ (worker_row none) _ (worker_row-Revises none)) in
        rw (run_process, started)
          (chosen (not process.recorded) (not (count (matching id is_running) s.jobs == 1))
            (wait_code process == pos 0 && not process.group_stopped) _ _ _ begun ended)
  ]
    where
      chosen :
          (a b c : Bool) (t u : Store) (code : ℤ)
          → Edits own s t
          → Edits own s u
          → Edits own s (
              store_of (
                if a
                then (s, pos 127)
                else if b
                then (t, pos 127)
                else if c
                then (t, pos 127)
                else (u, code)))
      chosen true b c t u code p q = here
      chosen false true c t u code p q = p
      chosen false false true t u code p q = p
      chosen false false false t u code p q = q

  pub execute-Edits :
      (files : Files) (environ : List Text) (overrides run_environment : Dict Text Text)
      (directory : Text) (argv : List Text) (id : ℕ) (process : Process) (s : Store)
      → Edits own s (execute files environ overrides run_environment directory argv id process s).0
  unfolding execute
  execute-Edits files environ overrides run_environment place argv id process s =
      chosen (starts_with_nothing argv) (contains (program_of argv) b'/') (
        look_path files (program_of argv)
          (set_all run_environment (task_environment environ overrides place)) place)
    where
      chosen :
          (a b : Bool) (o : Option Text)
          → Edits own s (
              store_of (
                if a
                then (s, pos 127)
                else if b
                then run_process id process s
                else elim o as (λ x. Store × ℤ) [
                  | none ↦ (s, pos 127)
                  | some resolved ↦ run_process id process s
                ]))
      chosen true b o = here
      chosen false true o = run_process-Edits id process s
      chosen false false none = here
      chosen false false (some resolved) = run_process-Edits id process s

-- The changes from a store to the one of an ending.
pub record Reaches (own : Config) (s : Store) (e : Ending) : Type 0 where
  pub edits : Edits own s e.store

pub ending_at :
    (own : Config) (s t : Store) (code : ℤ) (pending : Bool) (ran : List Ran)
    → Edits own s t
    → Reaches own s (record { store = t; code = code; pending = pending; ran = ran })
ending_at own s t code pending ran h = record { edits = h }
