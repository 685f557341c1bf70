-- ===== src/Queue.antt =====
-- The controller's tables (internal/bitci/controller.go, `migrate` and `Job`): the rows of jobs,
-- leases and batch_refs, and what the program asks of its host. A table is the list of its rows in
-- the order of their rowids.
pub mod Table
pub mod Rows
pub mod Edits
pub mod Leases
pub mod Invariant
pub mod JobConfig
pub mod BatchRefs
pub mod OrphanRefs
pub mod Claim
pub mod Retention
pub mod Finish
pub mod Submit
pub mod Request
pub mod Retry
pub mod Recover
pub mod Reach
pub mod Life
use bitci.Prelude.{ℕ, ◌-◌, ◌/◌, Bool, Option, List}
use bitci.Prelude.Text.{Text}
use bitci.Prelude.Int.{ℤ}
use bitci.Config.{Config, ConfigError}

pub data State : Type 0 where
  queued running passed failed cancelled : State

-- The column config_json: empty or null, JSON that does not decode, or a configuration.
pub data Snapshot : Type 0 where
  missing malformed : Snapshot
  stored : Config → Snapshot

-- Times count nanoseconds. A null text column that the program reads by COALESCE is empty.
pub record Job : Type 0 where
  pub id : ℕ
  pub batch : Text
  pub task : Text
  pub submitted_ref : Text
  pub ref : Text
  pub tested_sha : Text
  pub state : State
  pub created_at : ℕ
  pub started_at : Option ℕ
  pub finished_at : Option ℕ
  pub exit_code : Option ℤ
  pub log_path : Text
  pub config_json : Snapshot
  pub checkout_root : Text
  pub config_relative : Text
  pub cleanup_pending : Bool
  pub attempt : ℕ
  pub retry_of : Option ℕ
  pub retry_root : Option ℕ
  pub prior_exit_code : Option ℤ
  pub queue_wait_seconds : ℕ
  pub duration_seconds : ℕ
  pub terminal_result : Option State
  pub worker_pid : Option ℕ

pub record Lease : Type 0 where
  pub resource : Text
  pub job_id : ℕ

pub record BatchRef : Type 0 where
  pub batch : Text
  pub checkout_root : Text
  pub ref : Text

pub record Store : Type 0 where
  pub jobs : List Job
  pub leases : List Lease
  pub batch_refs : List BatchRef

-- The whole seconds between two times, as `strftime('%s', …)` gives them, and 0 if time went back.
abbrev pub seconds_between : ℕ → ℕ → ℕ
seconds_between from to = to / 1000000000 - from / 1000000000

-- Git in the checkout at a path: each command's output, or `none` if it fails.
pub record Git (Repo : Type 0) : Type 0 where
  -- `rev-parse --verify NAME^{commit}`
  pub rev_parse : Repo → (root name : Text) → Option Text
  -- `update-ref NAME VALUE` and `update-ref -d NAME`
  pub update_ref : Repo → (root name value : Text) → Option Repo
  pub delete_ref : Repo → (root name : Text) → Option Repo
  -- Whether `rev-parse --git-dir` and `cat-file -e VALUE^{commit}` succeed.
  pub is_repository : Repo → (root : Text) → Bool
  pub has_commit : Repo → (root value : Text) → Bool

-- The answers of the host in one call: the stage lock (`acquireStageLock`), the
-- checkout's root and the configuration's folder in it (`checkoutLocation`), the free bytes
-- (`Statfs`), the time, and whether the commit of a transaction succeeds.
pub record Host : Type 0 where
  pub locked : Bool
  pub location : Option (Text × Text)
  pub free_bytes : Option ℕ
  pub now : ℕ
  pub commits : Bool

pub data QueueError : Type 0 where
  lock_failed bad_max_workers disk_guard disk_unknown : QueueError
  need_missing unknown_job_task bad_snapshot : QueueError
  location_unknown ref_mismatch ref_changed pin_failed unpin_failed : QueueError
  lease_conflict commit_failed no_rows : QueueError
  config_error : ConfigError → QueueError
  nothing_requested no_batch_name batch_conflict : QueueError
  not_finishable log_removal_failed : QueueError
  not_finished history_missing retry_pending retries_exhausted directory_missing : QueueError
  not_running no_process_yet still_running changed_before_recovery process_unknown : QueueError
  termination_failed worktree_kept : QueueError
  ref_not_commit staged_unknown staged_mismatch ref_unavailable : QueueError
  checkout_unavailable : QueueError

pub record World (Repo : Type 0) : Type 0 where
  pub store : Store
  pub repo : Repo
