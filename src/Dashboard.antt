-- ===== src/Dashboard.antt =====
-- What the local dashboard shows of the controller's tables: internal/bitci/dashboard.go, the numbers
-- behind the page. Durations are numbers of nanoseconds, `none` standing for a dash, and sizes numbers
-- of bytes: the texts that the page makes of them are not modelled.
pub mod Usage
pub mod Counts
use bitci.Prelude.{
  ℕ, suc, ◌+◌, ◌-◌, ◌/◌, length, Eq, Bool, true, false, ◌&&◌, Option, none, some, List, [], ◌∷◌,
  map, ◌==◌, if◌then◌else◌, ltb, nat_eq, list_eq,
}
use bitci.Prelude.Text.{Text}
use bitci.Prelude.Int.{ℤ}
use bitci.Prelude.Dict.{Dict, keys, lookup}
use bitci.Prelude.Result.{Result, ok, err}
use bitci.Config.{Config, Task}
use bitci.Config.Order.{sort_strings}
use bitci.Queue.{State, queued, running, passed, failed, cancelled, Job, Lease, Store, QueueError}
use bitci.Queue.Table.{select, count}
use bitci.Queue.Claim.{limit_of}
use bitci.Queue.JobConfig.{job_config}

State_discrete : Discrete State
State_discrete = hlevel

instance unfoldable pub state_eq : Eq State
unfolding State_discrete
state_eq = record { dec = State_discrete }

module _ {ℓ} {K : Type ℓ} ⦃e : Eq K⦄ where
  -- A map's `counts[k]++`, and its reading of a missing key.
  unfoldable pub bump : K → Dict K ℕ → Dict K ℕ
  bump k [] = (k, 1) ∷ []
  bump k ((j, n) ∷ d) = let rest = bump k d in if k == j then (j, suc n) ∷ d else (j, n) ∷ rest

  unfoldable pub count_of : K → Dict K ℕ → ℕ
  count_of k d = elim (lookup k d) [ none ↦ 0 | some n ↦ n ]

  unfoldable pub tally : List K → Dict K ℕ → Dict K ℕ
  tally [] d = d
  tally (k ∷ ks) d = tally ks (bump k d)

pub record ResourceUsage : Type 0 where
  pub name : Text
  pub in_use : ℕ
  pub limit : ℤ

-- `SELECT resource, COUNT(*) FROM leases GROUP BY resource`.
unfoldable pub leases_in_use : List Lease → Dict Text ℕ
unfolding tally
leases_in_use leases = tally (map (λ (l : Lease). l.resource) leases) []

unfoldable pub usage_of : Config → Dict Text ℕ → Text → ResourceUsage
usage_of own in_use name = record {
  name = name;
  in_use = count_of name in_use;
  limit = limit_of own name;
}

unfoldable pub resource_usage : Config → Store → List ResourceUsage
resource_usage own store =
    map (usage_of own (leases_in_use store.leases)) (sort_strings (keys own.resources))

-- `elapsed`: nothing before the start, up to now before the end, and nothing if time went back.
unfoldable pub elapsed : (start end : Option ℕ) → (now : ℕ) → Option ℕ
elapsed none end now = none
elapsed (some start) none now = if ltb now start then none else some (now - start)
elapsed (some start) (some end) now = if ltb end start then none else some (end - start)

-- `timeout` and `resources` are `none` where the page says that they are unavailable.
pub record DashboardJob : Type 0 where
  pub job : Job
  pub queue_wait : Option ℕ
  pub stage_duration : Option ℕ
  pub timeout : Option ℤ
  pub resources : Option (List Text)

abbrev pub timeout_in : Result QueueError (Config × Task) → Option ℤ
timeout_in (ok (config, task)) = some task.timeout
timeout_in (err e) = none

abbrev pub resources_in : Result QueueError (Config × Task) → Option (List Text)
resources_in (ok (config, task)) = some task.resources
resources_in (err e) = none

unfoldable pub dashboard_job : Config → ℕ → Job → DashboardJob
dashboard_job own now job = record {
  job = job;
  queue_wait = elapsed (some job.created_at) job.started_at now;
  stage_duration = elapsed job.started_at job.finished_at now;
  timeout = timeout_in (job_config own job);
  resources = resources_in (job_config own job);
}

-- Seven days of nanoseconds.
abbrev pub week : ℕ
week = 604800000000000

abbrev pub is_passed : State → Bool
is_passed passed = true
is_passed _ = false

unfoldable pub since : (start end : Option ℕ) → (now : ℕ) → Bool
since none end now = false
since (some start) none now = false
since (some start) (some end) now = ltb now (end + week)

unfoldable pub is_recent_pass : ℕ → Job → Bool
is_recent_pass now job = is_passed job.state && since job.started_at job.finished_at now

abbrev time_or_zero : Option ℕ → ℕ
time_or_zero none = 0
time_or_zero (some time) = time

unfoldable pub total : (Job → Option ℕ) → List Job → ℕ
total time [] = 0
total time (job ∷ jobs) = time_or_zero (time job) + total time jobs

-- The mean duration of jobs. It is 0 in place of a negative mean; the page shows both alike.
unfoldable pub average : List Job → Option ℕ
average [] = none
average (job ∷ jobs) =
    let ends = total (λ (j : Job). j.finished_at) (job ∷ jobs) in
    let starts = total (λ (j : Job). j.started_at) (job ∷ jobs) in
    some ((ends - starts) / length (job ∷ jobs))

pub record DashboardPage : Type 0 where
  pub jobs : List DashboardJob
  pub counts : List (State × ℕ)
  pub passed_last_week : ℕ
  pub average_passed : Option ℕ
  pub disk_free : ℕ
  pub disk_guard : ℕ
  pub resources : List ResourceUsage

abbrev pub state_names : List State
state_names = queued ∷ running ∷ passed ∷ failed ∷ cancelled ∷ []

unfoldable pub state_counts : List Job → List (State × ℕ)
state_counts jobs =
    let counts =
      tally (map (λ (job : Job). job.state) jobs) (map (λ (s : State). (s, 0)) state_names) in
    map (λ (s : State). (s, count_of s counts)) state_names

-- The page at a time, or `none` where the free bytes are unknown.
unfoldable pub dashboard_data :
    Config → Store → (now : ℕ) → (free : Option ℕ) → Option DashboardPage
dashboard_data own store now none = none
dashboard_data own store now (some free) = some (record {
  jobs = map (dashboard_job own now) store.jobs;
  counts = state_counts store.jobs;
  passed_last_week = count (is_recent_pass now) store.jobs;
  average_passed = average (select (is_recent_pass now) store.jobs);
  disk_free = free;
  disk_guard = own.min_free_bytes;
  resources = resource_usage own store;
})
