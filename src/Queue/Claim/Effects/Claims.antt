-- ===== src/Queue/Claim/Effects/Claims.antt =====
-- `claimContext` of internal/bitci/controller.go as a whole.
use bitci.Prelude.{
  ◌≤◌, Bool, true, false, Option, none, some, List, [], ◌∷◌, ◌≡◌, refl, arith, nat_eq, list_eq,
  Bool-cases, inl, inr,
}
use mathlib.Core.Path.{subst, subst⁻¹}
use bitci.Prelude.Int.{ℤ, pos, ltℤ}
use bitci.Prelude.Result.{Result, ok, err, ◌>>=◌, Result-cases}
use bitci.Config.{Config, Task}
use bitci.Config.Validate.{validate}
use bitci.Sha.{is_checkout_sha}
use bitci.Queue.{
  Job, Store, Git, Host, World, QueueError, lock_failed, bad_max_workers, commit_failed,
}
use bitci.Queue.Table.{select, find, update, is_queued, has_id}
use bitci.Queue.Rows.{Revised, Revised-refl}
use bitci.Queue.JobConfig.{job_config}
use bitci.Queue.Edits.{SameRows, SameRows-Edits, Edits, Edits-trans, revises, here}
use bitci.Queue.Invariant.{Inv, Edit-Inv}
use bitci.Queue.BatchRefs.{remove_if_owned, release_finished_unlocked}
use bitci.Queue.BatchRefs.Rows.{finished_unlocked-SameRows, remove_if_owned-store}
use bitci.Queue.Claim.{
  is_ready, is_blocked, is_waiting, ready, Scan, took, scanned, aborted, conflicted, set_row,
  pin_claimed_job, start_job, take_job, consider, scan_rows, resources_free, disk_ok, fail_row,
  block_row, end_claim, claim_context,
}
use bitci.Queue.Claim.Pending.{Pending, update-Pending, set-Revised, select-Pending}
use bitci.Queue.Claim.Effects.{IsStarted, start_job-IsStarted}
use bitci.Queue.Claim.Effects.Pins.{ready-HasPassed, pin_claimed_job-Pinned}
use bitci.Queue.Claim.Effects.Loop.{
  count_running, IsEligible, Claimed, Outcome, started-Outcome, IsEnd, fail_row-IsEnd,
  block_row-IsEnd, Outcome-back, startable,
}

module _ {Repo : Type 0} (git : Git Repo) (host : Host) (own : Config)
    (own_valid : validate own ≡ ok tt) where
  take_job-Outcome :
      (w : World Repo) (job : Job) (config : Config) (task : Task)
      → Inv own w.store
      → (e : IsEligible own host w.store job.id task) → find (has_id job.id) w.store.jobs ≡ some job
      → is_queued job.state ≡ true
      → job_config own job ≡ ok (config, task)
      → resources_free own w.store config task.resources ≡ ok true
      → Outcome own host w.store (take_job git host own w job task.resources)
  unfolding take_job
  take_job-Outcome w job config task inv e found waiting configured free =
      elim (Bool-cases (is_checkout_sha job.ref)) [
        | inr named ↦ rw named (
            started-Outcome own host w.store w.store job.id task _ e (Revised-refl w.store.jobs)
              refl
              (start_job-IsStarted git host own w job false task.resources inv (
                startable git host own own_valid w.store w.store job.id job.id job job config task
                  inv found configured free (Revised-refl w.store.jobs) refl refl found waiting)))
        | inl sha ↦ elim (Result-cases (pin_claimed_job git host own w job)) [
          | inl (x, failed) ↦ rw (sha, failed, Outcome) tt
          | inr ((next, out, created), pinned) ↦
              let p = pin_claimed_job-Pinned git host own w job next out created pinned in
              let (after, now, state) = p.still job found in
              let next_inv = Edit-Inv own w.store next.store (revises p.jobs p.leases) inv in
              let waits : is_queued after.state ≡ true = rw state waiting in
              let started : IsStarted own next.store job.id task.resources
                  (start_job git host own next out created task.resources) =
                subst
                  (λ i.
                    IsStarted own next.store i task.resources
                      (start_job git host own next out created task.resources))
                  p.same_id
                  (start_job-IsStarted git host own next out created task.resources next_inv (
                    startable git host own own_valid w.store next.store job.id out.id job after
                      config task inv found configured free p.jobs p.leases p.same_id now waits)) in
              rw (sha, pinned, Outcome)
                (started-Outcome own host w.store next.store job.id task _ e p.jobs p.leases
                  started)
        ]
      ]

  consider-Outcome :
      (w : World Repo) (job : Job) (config : Config) (task : Task) (block skip : Scan Repo)
      → Inv own w.store
      → find (has_id job.id) w.store.jobs ≡ some job
      → is_queued job.state ≡ true
      → job_config own job ≡ ok (config, task)
      → Outcome own host w.store block
      → Outcome own host w.store skip
      → Outcome own host w.store (consider git host own w job config task block skip)
  unfolding consider
  consider-Outcome w job config task block skip inv found waiting configured blocks skips =
      elim (Result-cases (disk_ok host config.min_free_bytes)) [
        | inl (x, full) ↦ rw (consider, full, Outcome) tt
        | inr (u, room) ↦ elim (Result-cases (ready w.store.jobs job.batch task.needs)) [
          | inl (x, lost) ↦ rw (consider, room, lost, Outcome) tt
          | inr (is_blocked, r) ↦ rw (consider, room, r) blocks
          | inr (is_waiting, r) ↦ rw (consider, room, r) skips
          | inr (is_ready, r) ↦
              elim (Result-cases (resources_free own w.store config task.resources)) [
                | inl (x, bad) ↦ rw (consider, room, r, bad, Outcome) tt
                | inr (false, busy) ↦ rw (consider, room, r, busy) skips
                | inr (true, free) ↦
                    rw (consider, room, r, free)
                      (take_job-Outcome w job config task inv
                        (record {
                          row = job;
                          config = config;
                          found = found;
                          waiting = waiting;
                          configured = configured;
                          room_on_disk = room;
                          needs =
                              λ need m. ready-HasPassed w.store.jobs job.batch task.needs need r m;
                        })
                        found waiting configured free)
              ]
        ]
      ]

  set-Edit :
      (w : World Repo) (job : Job) (f : Job → Job)
      → IsEnd f
      → Inv own w.store
      → find (has_id job.id) w.store.jobs ≡ some job
      → is_queued job.state ≡ true
      → Revised w.store.jobs (update (has_id job.id) f w.store.jobs)
  set-Edit w job f end inv found waiting =
      set-Revised job.id f w.store.jobs job (inv.ids job.id) found (end.revises job waiting)

  pub scan_rows-Outcome :
      (w : World Repo) (changed : Bool) (rows : List Job)
      → Inv own w.store
      → Pending w.store.jobs rows
      → Outcome own host w.store (scan_rows git host own w changed rows)
  unfolding scan_rows
  scan_rows-Outcome w changed [] inv pending = (here, omega arith)
  scan_rows-Outcome w changed (job ∷ rows) inv (found, waiting, once, rest) =
      let ended = λ (f : Job → Job) (end : IsEnd f).
        let revised = set-Edit w job f end inv found waiting in
        Outcome-back own host w.store job.id f end _ revised (
          scan_rows-Outcome (record w { store = set_row job.id f w.store }) true rows
            (Edit-Inv own w.store (set_row job.id f w.store) (revises revised refl) inv)
            (update-Pending job.id f w.store.jobs rows end.id once rest)) in
      elim (Result-cases (job_config own job)) [
        | inl (x, unreadable) ↦
            rw (scan_rows, unreadable) (ended (fail_row host.now) (fail_row-IsEnd host.now))
        | inr ((config, task), configured) ↦
            rw (scan_rows, configured)
              (consider-Outcome w job config task _ _ inv found waiting configured
                (ended (block_row host.now) (block_row-IsEnd host.now))
                (scan_rows-Outcome w changed rows inv rest))
      ]

  -- What a claim returns, and what it leaves of jobs and leases.
  abbrev pub ClaimResult : Store → World Repo × Result QueueError (Option Job) → Type 0
  ClaimResult s (next, ok (some job)) = Claimed own host s next.store job.id
  ClaimResult s (next, ok none) =
      Edits own s next.store × (count_running next.store ≤ count_running s)
  ClaimResult s (next, err e) =
      Edits own s next.store × (count_running next.store ≤ count_running s)

  unchanged : (s t : Store) → t ≡ s → Edits own s t × (count_running t ≤ count_running s)
  unchanged s t e = rw e (here, omega arith)

  same_rows :
      (s t u : Store)
      → Edits own s t × (count_running t ≤ count_running s)
      → SameRows t u
      → Edits own s u × (count_running u ≤ count_running s)
  same_rows s t u (edits, fewer) (jobs, leases) =
      (Edits-trans edits (SameRows-Edits own t u (jobs, leases)), rw jobs fewer)

  released-ClaimResult :
      (s : Store) (next : World Repo) (r : Result QueueError (Unit {0}))
      → Edits own s next.store × (count_running next.store ≤ count_running s)
      → ClaimResult s (next, r >>= λ _. ok none)
  released-ClaimResult s next (ok u) h = h
  released-ClaimResult s next (err e) h = h

  -- A result that is known by an equation.
  by_result :
      (s : Store) (r q : World Repo × Result QueueError (Option Job))
      → r ≡ q
      → ClaimResult s q
      → ClaimResult s r
  by_result s r q e h = subst⁻¹ (ClaimResult s) e h

  end_claim-ClaimResult :
      (w : World Repo) (r : Scan Repo)
      → Outcome own host w.store r
      → ClaimResult w.store (end_claim git host own w r)
  unfolding end_claim
  end_claim-ClaimResult w (took next job created) claimed = elim (Bool-cases host.commits) [
    | inl committed ↦
        by_result w.store (end_claim git host own w (took next job created)) (next, ok (some job))
          (simp committed refl) claimed
    | inr failed ↦ elim (Bool-cases created) [
      | inr old ↦
          by_result w.store (end_claim git host own w (took next job created))
            (record next { store = w.store }, err commit_failed) (simp (failed, old) refl)
            (here, omega arith)
      | inl new ↦
          by_result w.store (end_claim git host own w (took next job created))
            (remove_if_owned git host (record next { store = w.store }) job, err commit_failed)
            (simp (failed, new) refl)
            (unchanged w.store _
              (remove_if_owned-store git host (record next { store = w.store }) job))
    ]
  ]
  end_claim-ClaimResult w (scanned store false) h = (here, omega arith)
  end_claim-ClaimResult w (scanned store true) h = elim (Bool-cases host.commits) [
    | inr failed ↦
        by_result w.store (end_claim git host own w (scanned store true)) (w, err commit_failed)
          (simp failed refl) (here, omega arith)
    | inl committed ↦
        let released = release_finished_unlocked git host (record w { store = store }) in
        by_result w.store (end_claim git host own w (scanned store true))
          (released.0, released.1 >>= λ _. ok none) (simp committed refl)
          (released-ClaimResult w.store released.0 released.1 (
            same_rows w.store store released.0.store h
              (finished_unlocked-SameRows git host (record w { store = store }))))
  ]
  end_claim-ClaimResult w (aborted e) h = (here, omega arith)
  end_claim-ClaimResult w (conflicted next) h = absurd h

  -- From a store that satisfies the invariant, a claim that returns a job has started the row of its
  -- id: the row waited, its configuration was valid, the disk had room, and all tasks that it needs
  -- had passed; now the row is running, and it has leases of its resources and of no others. At most
  -- one job more runs. A claim that returns no job, or an error, starts none. In every case the changes to jobs and leases are those
  -- that keep the invariant.
  pub claim_context-ClaimResult :
      (w : World Repo) (max_workers : ℤ)
      → Inv own w.store
      → ClaimResult w.store (claim_context git host own w max_workers)
  unfolding claim_context
  claim_context-ClaimResult w max_workers inv = elim (Bool-cases host.locked) [
    | inr unlocked ↦
        by_result w.store (claim_context git host own w max_workers) (w, err lock_failed)
          (simp unlocked refl) (here, omega arith)
    | inl locked ↦ elim (Bool-cases (ltℤ max_workers (pos 1))) [
      | inl bad ↦
          by_result w.store (claim_context git host own w max_workers) (w, err bad_max_workers)
            (simp (locked, bad) refl) (here, omega arith)
      | inr good ↦ elim (Bool-cases (ltℤ (pos (count_running w.store)) max_workers)) [
        | inr full ↦
            by_result w.store (claim_context git host own w max_workers) (w, ok none)
              (simp (locked, good, full) refl) (here, omega arith)
        | inl room ↦
            let rows = select (λ (job : Job). is_queued job.state) w.store.jobs in
            by_result w.store (claim_context git host own w max_workers)
              (end_claim git host own w (scan_rows git host own w false rows))
              (simp (locked, good, room) refl)
              (end_claim-ClaimResult w (scan_rows git host own w false rows)
                (scan_rows-Outcome w false rows inv (select-Pending w.store.jobs inv.ids)))
      ]
    ]
  ]
