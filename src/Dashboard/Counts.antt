-- ===== src/Dashboard/Counts.antt =====
-- The summary line of the dashboard (`dashboardData` of internal/bitci/dashboard.go).
use bitci.Prelude.{
  ℕ, suc, ◌+◌, Option, none, some, List, [], ◌∷◌, map, length, ◌≡◌, refl, sym, ap, ◌∙◌, arith, ◌==◌,
  if◌then◌else◌,
}
use bitci.Config.{Config}
use bitci.Queue.{State, queued, running, passed, failed, cancelled, Job, Store}
use bitci.Queue.Table.{count}
use bitci.Dashboard.{
  count_of, tally, state_eq, state_names, state_counts, dashboard_job, DashboardPage,
  dashboard_data,
}
use bitci.Dashboard.Usage.{count_of-tally, count-map}

abbrev pub in_state : State → List Job → ℕ
in_state s jobs = count (λ (job : Job). job.state == s) jobs

abbrev pub numbered : List (State × ℕ) → ℕ
numbered [] = 0
numbered ((s, n) ∷ counts) = n + numbered counts

-- A count of each state.
abbrev pub counts_by : (State → ℕ) → List (State × ℕ)
counts_by f = map (λ (s : State). (s, f s)) state_names

one_more :
    (t : State) (q r p f c n : ℕ)
    → q + (r + (p + (f + (c + 0)))) ≡ n
    → (if t == queued then suc q else q)
        + ((if t == running then suc r else r)
            + ((if t == passed then suc p else p)
                + ((if t == failed then suc f else f)
                    + ((if t == cancelled then suc c else c) + 0))))
      ≡ suc n
unfolding state_eq
one_more queued q r p f c n h = omega (arith, h)
one_more running q r p f c n h = omega (arith, h)
one_more passed q r p f c n h = omega (arith, h)
one_more failed q r p f c n h = omega (arith, h)
one_more cancelled q r p f c n h = omega (arith, h)

-- Every job is in one of the five states.
numbered-counts_by : (jobs : List Job) → numbered (counts_by (λ s. in_state s jobs)) ≡ length jobs
unfolding count
numbered-counts_by [] = refl
numbered-counts_by (x ∷ xs) =
    one_more x.state (in_state queued xs) (in_state running xs) (in_state passed xs)
      (in_state failed xs) (in_state cancelled xs) (length xs) (numbered-counts_by xs)

-- The map of the counts begins with a zero for each state.
zeros : (s : State) → count_of s (map (λ (s : State). (s, 0)) state_names) ≡ 0
unfolding count_of state_eq
zeros queued = refl
zeros running = refl
zeros passed = refl
zeros failed = refl
zeros cancelled = refl

tallied :
    (s : State) (jobs : List Job)
    → count_of s
        (tally (map (λ (job : Job). job.state) jobs) (map (λ (s : State). (s, 0)) state_names))
      ≡ in_state s jobs
tallied s jobs = omega (
  arith,
  zeros s,
  count_of-tally s (map (λ (job : Job). job.state) jobs) (map (λ (s : State). (s, 0)) state_names),
  count-map (λ t. t == s) (λ (job : Job). job.state) jobs,
)

state_counts-counts : (jobs : List Job) → state_counts jobs ≡ counts_by (λ s. in_state s jobs)
unfolding state_counts
state_counts-counts jobs =
    rw
      (
        tallied queued jobs,
        tallied running jobs,
        tallied passed jobs,
        tallied failed jobs,
        tallied cancelled jobs,
      )
      refl

length-map {ℓ κ} :
    {A : Type ℓ} {B : Type κ} (f : A → B) (xs : List A) → length (map f xs) ≡ length xs
length-map f [] = refl
length-map f (x ∷ xs) = ap suc (length-map f xs)

-- The summary gives for each of the five states the number of jobs in it, and these numbers add up
-- to the number of jobs that the page lists.
pub dashboard_data-counts :
    (own : Config) (store : Store) (now : ℕ) (free : Option ℕ) (page : DashboardPage)
    → dashboard_data own store now free ≡ some page
    → (page.counts ≡ counts_by (λ s. in_state s store.jobs))
      × (numbered page.counts ≡ length page.jobs)
unfolding dashboard_data
dashboard_data-counts own store now none page h = absurd (ground arith)
dashboard_data-counts own store now (some free) page h =
    let listed : map (dashboard_job own now) store.jobs ≡ page.jobs = ground arith in
    let shown : state_counts store.jobs ≡ page.counts = ground arith in
    let counts : page.counts ≡ counts_by (λ s. in_state s store.jobs) =
      sym shown ∙ state_counts-counts store.jobs in
    let total : numbered (counts_by (λ s. in_state s store.jobs)) ≡ length page.jobs =
      numbered-counts_by store.jobs
      ∙ sym (length-map (dashboard_job own now) store.jobs)
      ∙ ap length listed in
    (counts, ap numbered counts ∙ total)
