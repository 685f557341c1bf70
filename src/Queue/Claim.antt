-- ===== src/Queue/Claim.antt =====
-- How `serve` takes the next job: `claimContext`, `ready`, `resourcesFree`, `pinClaimedJob` and
-- `diskOK` of internal/bitci/controller.go. The transaction is a store of its own, which is kept
-- at a commit and dropped otherwise; what Git did stays.
pub mod Fits
pub mod Pending
pub mod Effects
use bitci.Prelude.{
  ℕ, zero, suc, Bool, true, false, not, ◌&&◌, ◌||◌, Option, none, some, List, [], ◌∷◌, ◌++◌, ◌==◌,
  contains, if◌then◌else◌, ltb, leb, nat_eq, list_eq,
}
use bitci.Prelude.Text.{Text}
use bitci.Prelude.Int.{ℤ, pos, ltℤ}
use bitci.Prelude.Strings.{is_empty, equal_fold, trim_space, to_lower}
use bitci.Prelude.Dict.{lookup}
use bitci.Prelude.Result.{Result, ok, err, ◌>>=◌}
use bitci.Config.{Config, Task}
use bitci.Sha.{is_checkout_sha}
use bitci.Queue.{
  State, queued, running, passed, failed, cancelled, Job, Lease, BatchRef, Store, Git, Host,
  QueueError, lock_failed, bad_max_workers, disk_guard, disk_unknown, need_missing,
  location_unknown, ref_mismatch, ref_changed, pin_failed, lease_conflict, commit_failed, World,
  seconds_between,
}
use bitci.Queue.Table.{select, count, find, update, is_queued, is_running, has_id, in_batch}
use bitci.Queue.JobConfig.{snapshot_config, job_config}
use bitci.Queue.BatchRefs.{batch_ref, remove_if_owned, release_finished_unlocked}

-- What `ready` finds: all needs passed, one failed or was cancelled, or one is not done.
pub data Readiness : Type 0 where
  is_ready is_blocked is_waiting : Readiness

-- One need by its state, with what the needs behind it give.
abbrev pub after_need : State → Result QueueError Readiness → Result QueueError Readiness
after_need passed rest = rest
after_need failed rest = ok is_blocked
after_need cancelled rest = ok is_blocked
after_need _ rest = ok is_waiting

unfoldable pub ready : List Job → Text → List Text → Result QueueError Readiness
ready jobs batch [] = ok is_ready
ready jobs batch (need ∷ needs) =
    let rest = ready jobs batch needs in
    elim (find (λ job. in_batch batch job && job.task == need) jobs) [
      | none ↦ err need_missing
      | some job ↦ after_need job.state rest
    ]

-- Go's reading of a missing key.
abbrev pub limit_of : Config → Text → ℤ
limit_of config resource = elim (lookup resource config.resources) [ none ↦ pos 0 | some l ↦ l ]

abbrev pub min_limit : ℤ → ℤ → ℤ
min_limit a b = if ltℤ a b then a else b

-- The leases of a resource, joined to their jobs: how many there are, and the least limit.
unfoldable pub held_and_limit :
    Config → List Job → Text → List Lease → ℕ → ℤ → Result QueueError (ℕ × ℤ)
held_and_limit own jobs resource [] held limit = ok (held, limit)
held_and_limit own jobs resource (l ∷ ls) held limit =
    let skip = held_and_limit own jobs resource ls held limit in
    let step = λ (config : Config).
      held_and_limit own jobs resource ls (suc held) (min_limit (limit_of config resource) limit) in
    if l.resource == resource
    then elim (find (has_id l.job_id) jobs) [
      | none ↦ skip
      | some job ↦ snapshot_config own job.config_json >>= step
    ]
    else skip

unfoldable pub resources_free : Config → Store → Config → List Text → Result QueueError Bool
resources_free own store config [] = ok true
resources_free own store config (r ∷ rs) =
    let rest = resources_free own store config rs in
    held_and_limit own store.jobs r store.leases 0 (limit_of config r) >>= λ (held, limit).
    if ltℤ (pos held) limit then rest else ok false

unfoldable pub disk_ok : Host → ℕ → Result QueueError (Unit {0})
disk_ok host zero = ok tt
disk_ok host (suc least) = elim host.free_bytes [
  | none ↦ err disk_unknown
  | some free ↦ if ltb free (suc least) then err disk_guard else ok tt
]

-- `INSERT INTO leases`: the primary key is the pair.
unfoldable pub has_lease : Text → ℕ → List Lease → Bool
has_lease resource id [] = false
has_lease resource id (l ∷ ls) =
    (l.resource == resource && l.job_id == id) || has_lease resource id ls

unfoldable pub insert_leases : ℕ → List Text → List Lease → Option (List Lease)
insert_leases id [] ls = some ls
insert_leases id (r ∷ rs) ls =
    let rest = insert_leases id rs (ls ++ record { resource = r; job_id = id } ∷ []) in
    if has_lease r id ls then none else rest

-- The checkout of the batch: recorded with the job, or the controller's own, which is recorded now.
unfoldable pub locate : Host → Store → Job → Result QueueError (Store × Job)
locate host store job =
    if is_empty job.checkout_root
    then elim host.location [
      | none ↦ err location_unknown
      | some (root, relative) ↦ ok (
        record store {
          jobs =
              update (in_batch job.batch)
                (λ row. record row { checkout_root = root; config_relative = relative }) store.jobs;
        },
        record job { checkout_root = root; config_relative = relative },
      )
    ]
    else ok (store, job)

-- Whether the pin is new: no row of batch_refs, or no Git ref.
unfoldable pub recorded_pin : List BatchRef → Job → Result QueueError Bool
recorded_pin refs job = elim (find (λ r. r.batch == job.batch) refs) [
  | none ↦ ok true
  | some r ↦ if equal_fold r.ref job.ref then ok false else err ref_mismatch
]

unfoldable pub git_pin : Option Text → Job → Bool → Result QueueError Bool
git_pin none job created = ok true
git_pin (some actual) job created =
    if equal_fold (trim_space actual) job.ref then ok created else err ref_changed

-- `INSERT OR REPLACE INTO batch_refs`.
unfoldable pub replace_batch_ref : Job → Store → Store
replace_batch_ref job store = record store {
  batch_refs =
      select (λ r. not (r.batch == job.batch)) store.batch_refs
      ++ record { batch = job.batch; checkout_root = job.checkout_root; ref = job.ref } ∷ [];
}

-- `UPDATE jobs SET state = 'running', …` of one row.
unfoldable pub start_row : ℕ → Job → Job
start_row now row = record row {
  state = running;
  started_at = some now;
  queue_wait_seconds = seconds_between row.created_at now;
}

unfoldable pub fail_row : ℕ → Job → Job
fail_row now row = record row {
  state = failed;
  finished_at = some now;
  exit_code = some (pos 127);
  terminal_result = some failed;
}

unfoldable pub block_row : ℕ → Job → Job
block_row now row = record row {
  state = cancelled;
  finished_at = some now;
  terminal_result = some cancelled;
}

-- How the loop over the queued rows ends, with the transaction's tables.
pub data Scan (Repo : Type 0) : Type 0 where
  took : World Repo → Job → (created : Bool) → Scan Repo
  scanned : Store → (changed : Bool) → Scan Repo
  aborted : QueueError → Scan Repo
  conflicted : World Repo → Scan Repo

abbrev pub set_row : ℕ → (Job → Job) → Store → Store
set_row id f store = record store { jobs = update (has_id id) f store.jobs }

module _ {Repo : Type 0} (git : Git Repo) (host : Host) (own : Config) where
  unfoldable pub pin_claimed_job : World Repo → Job → Result QueueError (World Repo × Job × Bool)
  pin_claimed_job w job = do
    (store, located) ← locate host w.store job
    let pinned = record located { ref = to_lower located.ref }
    recorded ← recorded_pin store.batch_refs pinned
    let name = batch_ref pinned.batch
    created ← git_pin (git.rev_parse w.repo pinned.checkout_root name) pinned recorded
    elim (git.update_ref w.repo pinned.checkout_root name pinned.ref) [
      | none ↦ err pin_failed
      | some repo ↦
          ok (record { store = replace_batch_ref pinned store; repo = repo }, pinned, created)
    ]

  -- The row becomes running and takes its leases.
  unfoldable pub start_job : World Repo → Job → Bool → List Text → Scan Repo
  start_job w job created resources =
      let store = set_row job.id (start_row host.now) w.store in
      elim (insert_leases job.id resources store.leases) [
        | none ↦ conflicted w
        | some leases ↦
            took (record w { store = record store { leases = leases } })
              (record job { state = running }) created
      ]

  unfoldable pub take_job : World Repo → Job → List Text → Scan Repo
  take_job w job resources =
      if is_checkout_sha job.ref
      then elim (pin_claimed_job w job) [
        | err e ↦ aborted e
        | ok (pinned_world, pinned, created) ↦ start_job pinned_world pinned created resources
      ]
      else start_job w job false resources

  -- The tests of one row that has a configuration. The two last arguments are what follows: the
  -- loop's next rows after the row was cancelled, and with the row left alone.
  unfoldable pub consider : World Repo → Job → Config → Task → (block skip : Scan Repo) → Scan Repo
  consider w job config task block skip = elim (disk_ok host config.min_free_bytes) [
    | err e ↦ aborted e
    | ok u ↦ elim (ready w.store.jobs job.batch task.needs) [
      | err e ↦ aborted e
      | ok is_blocked ↦ block
      | ok is_waiting ↦ skip
      | ok is_ready ↦ elim (resources_free own w.store config task.resources) [
        | err e ↦ aborted e
        | ok false ↦ skip
        | ok true ↦ take_job w job task.resources
      ]
    ]
  ]

  unfoldable pub scan_rows : World Repo → Bool → List Job → Scan Repo
  scan_rows w changed [] = scanned w.store changed
  scan_rows w changed (job ∷ rows) =
      let fail =
        scan_rows (record w { store = set_row job.id (fail_row host.now) w.store }) true rows in
      let block =
        scan_rows (record w { store = set_row job.id (block_row host.now) w.store }) true rows in
      let skip = scan_rows w changed rows in
      elim (job_config own job) [
        | err e ↦ fail
        | ok (config, task) ↦ consider w job config task block skip
      ]

  -- The end of the transaction. `conflicted` stands for a claim that never returns: its cleanup
  -- waits for the one database connection, which the open transaction holds.
  unfoldable pub end_claim : World Repo → Scan Repo → World Repo × Result QueueError (Option Job)
  end_claim w (took next job created) = if host.commits then (next, ok (some job)) else (
    if created
        then remove_if_owned git host (record next { store = w.store }) job
        else record next { store = w.store },
    err commit_failed,
  )
  end_claim w (scanned store false) = (w, ok none)
  end_claim w (scanned store true) =
      let (next, released) = release_finished_unlocked git host (record w { store = store }) in
      if host.commits then (next, released >>= λ _. ok none) else (w, err commit_failed)
  end_claim w (aborted e) = (w, err e)
  end_claim w (conflicted next) = (record next { store = w.store }, err lease_conflict)

  unfoldable pub claim_context : World Repo → ℤ → World Repo × Result QueueError (Option Job)
  claim_context w max_workers =
      if not host.locked
      then (w, err lock_failed)
      else if ltℤ max_workers (pos 1)
      then (w, err bad_max_workers)
      else if not (ltℤ (pos (count (λ job. is_running job.state) w.store.jobs)) max_workers)
      then (w, ok none)
      else end_claim w (scan_rows w false (select (λ job. is_queued job.state) w.store.jobs))
