-- ===== src/Queue/Claim/Effects/Loop.antt =====
-- The loop of `claimContext` (internal/bitci/controller.go) over the queued rows: what it claims.
use bitci.Prelude.{
  ℕ, suc, ◌≤◌, Bool, true, false, ◌&&◌, Option, none, some, ◌≡◌, refl, arith, ◌==◌, nat_eq, list_eq,
  contains,
}
use bitci.Prelude.Text.{Text}
use bitci.Prelude.Dict.{lookup}
use bitci.Prelude.Result.{ok, >>=-eq-ok}
use bitci.Config.{Config, Task}
use bitci.Config.Validate.{validate}
use bitci.Config.Validate.Sound.{validate-IsAccepted}
use bitci.Config.Order.Relations.{Distinct}
use bitci.Queue.{State, queued, running, passed, failed, cancelled, Job, Store, Git, Host}
use bitci.Queue.Table.{count, find, update, is_queued, is_running, has_id, in_batch}
use bitci.Queue.Rows.{Revises, Revised, config_of-Revised, config_of-find, ends}
use bitci.Queue.JobConfig.{snapshot_config, job_config, or_unknown_task}
use bitci.Queue.Edits.{Edits, Edits-trans, Edits-one, starts, revises, load, Fits, AtMost}
use bitci.Queue.Invariant.{Inv}
use bitci.Queue.Claim.{
  has_lease, Scan, took, scanned, aborted, conflicted, set_row, resources_free, disk_ok, limit_of,
  fail_row, block_row,
}
use bitci.Queue.Claim.Fits.{resources_free-Fits}
use bitci.Queue.Claim.Pending.{find-has_id, find-update_back}
use bitci.Queue.Claim.Effects.{
  Known-owned, snapshot_config-valid, count_running-Revised, IsRunning, IsStarted, IsStartable,
}
use bitci.Queue.Claim.Effects.Pins.{HasPassed}

abbrev pub count_running : Store → ℕ
count_running s = count (λ row. is_running row.state) s.jobs

-- A row that may start: it waits, its configuration is valid and gives its task, the disk has room,
-- and the tasks that it needs have passed.
pub record IsEligible (own : Config) (host : Host) (s : Store) (id : ℕ) (task : Task) : Type 0 where
  pub row : Job
  pub config : Config
  pub found : find (has_id id) s.jobs ≡ some row
  pub waiting : is_queued row.state ≡ true
  pub configured : job_config own row ≡ ok (config, task)
  pub room_on_disk : disk_ok host config.min_free_bytes ≡ ok tt
  pub needs : (need : Text) → contains task.needs need ≡ true → HasPassed s.jobs row.batch need

-- The claim of the job with this id.
pub record Claimed (own : Config) (host : Host) (s t : Store) (id : ℕ) : Type 0 where
  pub task : Task
  pub eligible : IsEligible own host s id task
  pub leased : (r : Text) → has_lease r id t.leases ≡ contains task.resources r
  pub running_now : IsRunning t id
  pub one_more : count_running t ≤ suc (count_running s)
  pub edits : Edits own s t

module _ {Repo : Type 0} (own : Config) (host : Host) where
  abbrev pub Outcome : Store → Scan Repo → Type 0
  Outcome s (took next job created) = Claimed own host s next.store job.id
  Outcome s (scanned t changed) = Edits own s t × (count_running t ≤ count_running s)
  Outcome s (aborted e) = Unit {0}
  Outcome s (conflicted w) = ⊥

  -- A start after the row was chosen and pinned.
  pub started-Outcome :
      (s u : Store) (id : ℕ) (task : Task) (r : Scan Repo)
      → IsEligible own host s id task
      → Revised s.jobs u.jobs
      → u.leases ≡ s.leases
      → IsStarted own u id task.resources r
      → Outcome s r
  started-Outcome s u id task (took next job created) e h k (st, same, leased, runs, more) =
      rw same (record {
        task = task;
        eligible = e;
        leased = leased;
        running_now = runs;
        one_more = omega (arith, more, count_running-Revised s.jobs u.jobs h);
        edits = Edits-trans (Edits-one (revises h k)) (Edits-one (starts st));
      })
  started-Outcome s u id task (scanned t changed) e h k st = absurd st
  started-Outcome s u id task (aborted x) e h k st = absurd st
  started-Outcome s u id task (conflicted w) e h k st = absurd st

abbrev pub is_passed : State → Bool
is_passed passed = true
is_passed _ = false

is_passed-eq : (s : State) → is_passed s ≡ true → s ≡ passed
is_passed-eq passed h = refl
is_passed-eq queued h = absurd (ground arith)
is_passed-eq running h = absurd (ground arith)
is_passed-eq failed h = absurd (ground arith)
is_passed-eq cancelled h = absurd (ground arith)

-- The end of a row outside the claim: `fail_row` and `block_row`.
pub record IsEnd (f : Job → Job) : Type 0 where
  pub id : (row : Job) → (f row).id ≡ row.id
  pub batch : (row : Job) → (f row).batch ≡ row.batch
  pub task : (row : Job) → (f row).task ≡ row.task
  pub not_queued : (row : Job) → is_queued (f row).state ≡ false
  pub not_passed : (row : Job) → is_passed (f row).state ≡ false
  pub revises : (row : Job) → is_queued row.state ≡ true → Revises row (f row)

pub fail_row-IsEnd : (now : ℕ) → IsEnd (fail_row now)
unfolding fail_row
fail_row-IsEnd now = record {
  id = λ row. refl;
  batch = λ row. refl;
  task = λ row. refl;
  not_queued = λ row. refl;
  not_passed = λ row. refl;
  revises = λ row h. record {
    id = refl;
    batch = refl;
    task = refl;
    config_json = refl;
    move = ends (ground arith) refl;
  };
}

pub block_row-IsEnd : (now : ℕ) → IsEnd (block_row now)
unfolding block_row
block_row-IsEnd now = record {
  id = λ row. refl;
  batch = λ row. refl;
  task = λ row. refl;
  not_queued = λ row. refl;
  not_passed = λ row. refl;
  revises = λ row h. record {
    id = refl;
    batch = refl;
    task = refl;
    config_json = refl;
    move = ends (ground arith) refl;
  };
}

module _ (own : Config) (host : Host) (s : Store) (id : ℕ) (f : Job → Job) (end : IsEnd f) where
  HasPassed-back :
      (batch need : Text)
      → HasPassed (update (has_id id) f s.jobs) batch need
      → HasPassed s.jobs batch need
  HasPassed-back batch need (row, found, state) = (
    row,
    find-update_back (λ job. in_batch batch job && job.task == need) (λ job. is_passed job.state)
        (has_id id) f s.jobs row (λ x. ground (arith, end.batch x, end.task x)) end.not_passed found
        (rw state refl),
    state,
  )

  IsEligible-back :
      (j : ℕ) (task : Task)
      → IsEligible own host (set_row id f s) j task
      → IsEligible own host s j task
  IsEligible-back j task e = record {
    row = e.row;
    config = e.config;
    found =
        find-update_back (has_id j) (λ job. is_queued job.state) (has_id id) f s.jobs e.row
          (λ x. ground (arith, end.id x)) end.not_queued e.found e.waiting;
    waiting = e.waiting;
    configured = e.configured;
    room_on_disk = e.room_on_disk;
    needs = λ need m. HasPassed-back e.row.batch need (e.needs need m);
  }

  -- What the loop does after a row has ended, seen from before.
  pub Outcome-back :
      {Repo : Type 0} (r : Scan Repo)
      → Revised s.jobs (update (has_id id) f s.jobs)
      → Outcome own host (set_row id f s) r
      → Outcome own host s r
  Outcome-back (took next job created) h c = record {
    task = c.task;
    eligible = IsEligible-back job.id c.task c.eligible;
    leased = c.leased;
    running_now = c.running_now;
    one_more =
        omega (arith, c.one_more, count_running-Revised s.jobs (update (has_id id) f s.jobs) h);
    edits = Edits-trans (Edits-one (revises h refl)) c.edits;
  }
  Outcome-back (scanned t changed) h (edits, fewer) = (
    Edits-trans (Edits-one (revises h refl)) edits,
    omega (arith, fewer, count_running-Revised s.jobs (update (has_id id) f s.jobs) h),
  )
  Outcome-back (aborted e) h c = tt
  Outcome-back (conflicted w) h c = absurd c

module _ {Repo : Type 0} (git : Git Repo) (host : Host) (own : Config)
    (own_valid : validate own ≡ ok tt) where
  task-Distinct :
      (row : Job) (config : Config) (task : Task)
      → job_config own row ≡ ok (config, task)
      → Distinct task.resources
  unfolding job_config
  task-Distinct row config task h =
      let (c, decoded, rest) = >>=-eq-ok (snapshot_config own row.config_json) _ h in
      let valid =
        validate-IsAccepted c (snapshot_config-valid own row.config_json c own_valid decoded) in
      let (known, same) = known_task c (lookup row.task c.tasks) rest in
      (valid.sound row.task task known).distinct
    where
      known_task :
          (c : Config) (o : Option Task)
          → or_unknown_task c o ≡ ok (config, task)
          → (o ≡ some task) × (c ≡ config)
      known_task c none e = absurd (ground arith)
      known_task c (some t) e = ground arith

  decoded_by :
      (row : Job) (config : Config) (task : Task)
      → job_config own row ≡ ok (config, task)
      → snapshot_config own row.config_json ≡ ok config
  unfolding job_config
  decoded_by row config task h =
      let (c, decoded, rest) = >>=-eq-ok (snapshot_config own row.config_json) _ h in
      rw (same c (lookup row.task c.tasks) rest) at decoded
    where
      same : (c : Config) (o : Option Task) → or_unknown_task c o ≡ ok (config, task) → c ≡ config
      same c none e = absurd (ground arith)
      same c (some t) e = ground arith

  -- What `resources_free` grants is still granted after the pin.
  pub startable :
      (s u : Store) (id out : ℕ) (row after : Job) (config : Config) (task : Task)
      → Inv own s
      → find (has_id id) s.jobs ≡ some row
      → job_config own row ≡ ok (config, task)
      → resources_free own s config task.resources ≡ ok true
      → Revised s.jobs u.jobs
      → u.leases ≡ s.leases
      → out ≡ id
      → find (has_id id) u.jobs ≡ some after
      → is_queued after.state ≡ true
      → IsStartable own u out task.resources
  startable s u id out row after config task inv found configured free revised leases same now
        waits =
      rw same (record {
        row = after;
        found = now;
        same_id = find-has_id id u.jobs after now;
        waiting = waits;
        distinct = task-Distinct row config task configured;
        fits = λ r m j h.
            rw (leases, config_of-Revised j s.jobs u.jobs revised)
              ((granted r m).0 j (rw leases at h));
        own_limit = λ r m.
            rw
              (
                leases,
                config_of-Revised id s.jobs u.jobs revised,
                config_of-find id s.jobs row found,
                decoded_by row config task configured,
              )
              (granted r m).1;
      })
    where
      granted :
          (r : Text)
          → contains task.resources r ≡ true
          → Fits own s r × AtMost (suc (load r s.leases)) (some (limit_of config r))
      granted =
          resources_free-Fits own s config task.resources (Known-owned s.jobs s.leases inv.owned)
            free
