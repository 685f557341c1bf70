-- ===== src/Queue/Claim/Effects.antt =====
-- What `claimContext` of internal/bitci/controller.go does to jobs and leases: a row that is taken
-- starts, with all its leases.
pub mod Pins
pub mod Loop
pub mod Claims
use bitci.Prelude.{
  ℕ, zero, suc, ◌+◌, ◌≤◌, Bool, true, false, ◌&&◌, ◌||◌, Option, none, some, List, [], ◌∷◌, ◌≡◌,
  refl, sym, arith, ◌==◌, if◌then◌else◌, nat_eq, list_eq, contains, Bool-cases, inl, inr,
  Option-cases,
}
use bitci.Prelude.Text.{Text}
use bitci.Prelude.Int.{ℤ, pos, ltℤ}
use bitci.Prelude.Dict.{lookup, is_some}
use bitci.Prelude.Strings.{is_empty}
use bitci.Prelude.Result.{Result, ok, err, ◌>>=◌, >>=-eq-ok}
use bitci.Config.{Config, Task}
use bitci.Config.Order.Relations.{Distinct}
use bitci.Config.Validate.{validate}
use bitci.Config.Validate.Sound.{validate-IsAccepted, IsAccepted, IsSound}
use bitci.Queue.{
  State, queued, running, passed, failed, cancelled, Snapshot, missing, malformed, stored, Job,
  Lease, Store, Git, Host, World, QueueError,
}
use bitci.Queue.Table.{select, count, find, update, is_queued, is_running, has_id, in_batch}
use bitci.Queue.Rows.{
  Revises, Revised, Revised-refl, update-Revised, count_id-Revised, config_of, config_of-Revised,
  config_of-find, stays, ends, Moves, count-update_add,
}
use bitci.Queue.JobConfig.{snapshot_config, job_config, or_unknown_task}
use bitci.Queue.Edits.{load, limit_for, AtMost, Fits, Starts, Edits, Edit, starts, revises}
use bitci.Queue.Leases.{insert_leases-load, insert_leases-total}
use bitci.Queue.Invariant.{Inv}
use bitci.Queue.Claim.{
  has_lease, insert_leases, locate, git_pin, recorded_pin, replace_batch_ref, start_row, Scan, took,
  scanned, aborted, conflicted, set_row, pin_claimed_job, start_job, take_job, limit_of,
  resources_free,
}
use bitci.Queue.Claim.Fits.{resources_free-Fits, Known}
use bitci.Queue.Claim.Pending.{find-update}

pub Known-owned :
    (jobs : List Job) (ls : List Lease)
    → ((r : Text) (id : ℕ) → has_lease r id ls ≡ true → is_some (config_of id jobs) ≡ true)
    → Known jobs ls
unfolding has_lease
Known-owned jobs [] h = tt
Known-owned jobs (l ∷ ls) h =
    (h l.resource l.job_id (ground arith), Known-owned jobs ls (λ r id m. h r id (ground arith)))

pub snapshot_config-valid :
    (own : Config) (snapshot : Snapshot) (config : Config)
    → validate own ≡ ok tt
    → snapshot_config own snapshot ≡ ok config
    → validate config ≡ ok tt
unfolding snapshot_config
snapshot_config-valid own missing config v h =
    let same : own ≡ config = ground arith in rw (← same) v
snapshot_config-valid own malformed config v h = absurd (ground arith)
snapshot_config-valid own (stored c) config v h = ground arith

pub count_running-Revised :
    (xs ys : List Job)
    → Revised xs ys
    → count (λ job. is_running job.state) ys ≤ count (λ job. is_running job.state) xs
unfolding count
count_running-Revised [] [] h = omega arith
count_running-Revised [] (y ∷ ys) h = absurd h
count_running-Revised (x ∷ xs) [] h = absurd h
count_running-Revised (x ∷ xs) (y ∷ ys) (r, h) =
    ground (arith, count_running-Revised xs ys h, moved r.move)
  where
    moved : Moves x.state y.state → is_running y.state ≡ true → is_running x.state ≡ true
    moved (stays e) m = rw e at m
    moved (ends _ done) m = absurd (ground arith)

count-ext : (p q : Job → Bool) (xs : List Job) → ((x : Job) → p x ≡ q x) → count p xs ≡ count q xs
unfolding count
count-ext p q [] h = refl
count-ext p q (x ∷ xs) h = ground (arith, count-ext p q xs h, h x)

-- The row of this id runs.
abbrev pub IsRunning : Store → ℕ → Type 0
IsRunning s id = (row : Job) × (find (has_id id) s.jobs ≡ some row) × (row.state ≡ running)

module _ {Repo : Type 0} (own : Config) (s : Store) where
  -- The scan took the job with this id and nothing went wrong.
  abbrev pub IsStarted : ℕ → List Text → Scan Repo → Type 0
  IsStarted id resources (took next job created) =
      Starts own s next.store
      × (job.id ≡ id)
      × ((r : Text) → has_lease r id next.store.leases ≡ contains resources r)
      × IsRunning next.store id
      × (count (λ row. is_running row.state) next.store.jobs
          ≤ suc (count (λ row. is_running row.state) s.jobs))
  IsStarted id resources (scanned t changed) = ⊥
  IsStarted id resources (aborted e) = ⊥
  IsStarted id resources (conflicted w) = ⊥

-- The row of a job that is about to start, and that its resources are free.
pub record IsStartable (own : Config) (s : Store) (id : ℕ) (resources : List Text) : Type 0 where
  pub row : Job
  pub found : find (has_id id) s.jobs ≡ some row
  pub same_id : row.id ≡ id
  pub waiting : is_queued row.state ≡ true
  pub distinct : Distinct resources
  pub fits : (r : Text) → contains resources r ≡ true → Fits own s r
  pub own_limit :
      (r : Text)
      → contains resources r ≡ true
      → AtMost (suc (load r s.leases)) (limit_for own s.jobs r id)

module _ {Repo : Type 0} (git : Git Repo) (host : Host) (own : Config) where
  pub start_job-IsStarted :
      (w : World Repo) (job : Job) (created : Bool) (resources : List Text)
      → Inv own w.store
      → IsStartable own w.store job.id resources
      → IsStarted own w.store job.id resources (start_job git host own w job created resources)
  unfolding start_job start_row
  start_job-IsStarted w job created resources inv st =
      rw (inserted, IsStarted)
        (
          record {
            now = host.now;
            row = st.row;
            resources = resources;
            found = simp st.same_id st.found;
            waiting = st.waiting;
            distinct = st.distinct;
            fits = st.fits;
            own_limit = simp st.same_id st.own_limit;
            started = simp st.same_id refl;
            taken = simp st.same_id inserted;
          },
          refl,
          (λ r. ground (arith, (loaded r).1 job.id, unleased r)),
          (start_row host.now st.row, started_row, refl),
          count_running,
        )
    where
      unleased : (r : Text) → has_lease r job.id w.store.leases ≡ false
      unleased r = elim (Bool-cases (has_lease r job.id w.store.leases)) [
        | inl held ↦ absurd (ground (arith, inv.busy r job.id st.row held st.found, st.waiting))
        | inr free ↦ free
      ]

      started_row :
          find (has_id job.id) (update (has_id job.id) (start_row host.now) w.store.jobs)
          ≡ some (start_row host.now st.row)
      started_row = ground (
        arith,
        find-update job.id (has_id job.id) (start_row host.now) w.store.jobs st.row (λ y. refl)
            st.found,
        st.same_id,
      )

      total : (after : List Lease) × (insert_leases job.id resources w.store.leases ≡ some after)
      total = insert_leases-total job.id resources w.store.leases st.distinct (λ r m. unleased r)

      after : List Lease
      after = total.0

      inserted : insert_leases job.id resources w.store.leases ≡ some after
      inserted = total.1

      loaded :
          (r : Text)
          → (load r after ≡ load r w.store.leases + (if contains resources r then 1 else 0))
            × ((j : ℕ)
                → has_lease r j after
                  ≡ (has_lease r j w.store.leases || (contains resources r && job.id == j)))
      loaded = insert_leases-load job.id resources w.store.leases after st.distinct inserted

      count_running :
          count
            (λ row. is_running row.state)
            (update (has_id job.id) (start_row host.now) w.store.jobs)
          ≤ suc (count (λ row. is_running row.state) w.store.jobs)
      count_running = omega (
        arith,
        count-update_add (λ row. is_running row.state) (has_id job.id) (start_row host.now)
            w.store.jobs,
        inv.ids job.id,
      )
