-- ===== src/Queue/Recover/Effects.antt =====
-- The recovery functions of internal/bitci/controller.go as changes of the tables.
use bitci.Prelude.{
  ℕ, Bool, true, false, not, ◌&&◌, Option, none, some, List, [], ◌∷◌, ◌≡◌, refl, ◌==◌, contains,
  if◌then◌else◌, nat_eq, list_eq, option_eq, arith, Bool-cases, inl, inr, map,
}
use bitci.Prelude.Text.{Text}
use bitci.Prelude.Result.{Result, ok, err}
use bitci.Config.{Config}
use bitci.Sha.{is_checkout_sha}
use bitci.Queue.{Job, Store, Git, Host, QueueError, changed_before_recovery, commit_failed, World}
use bitci.Queue.Table.{select, count, find, update, is_queued, is_running, has_id, in_batch}
use bitci.Queue.Rows.{Revises, stays, ends}
use bitci.Queue.Edits.{Edits, here, releases, Edits-one, Edits-trans, SameRows-Edits, update-Edits}
use bitci.Queue.BatchRefs.{release_batch_ref}
use bitci.Queue.BatchRefs.Rows.{finished-SameRows}
use bitci.Queue.OrphanRefs.{cleanup_orphan_refs}
use bitci.Queue.OrphanRefs.Rows.{cleanup_orphan_refs-SameRows}
use bitci.Queue.Retention.Effects.{prune_logs-Edits}
use bitci.Queue.Finish.{cancel_row, drop_leases, matching}
use bitci.Queue.Finish.Effects.{cancel_row-Revises, release-Edits}
use bitci.Queue.Recover.{
  recover_row, interrupt_row, same_worker, recover_one, recover_rows, Processes, clear_pending,
  clean_up, after_recovery, recover_jobs, orphans, recover_orphaned, may_recover, recover_checked,
  recover_found, recover_job, interrupt, is_interrupted, end_recovery, recover_interrupted,
}

recover_row-Revises :
    (job : Job) (now : ℕ) (cleanup : Bool) (row : Job)
    → same_worker job row ≡ true
    → Revises row (recover_row now cleanup row)
unfolding recover_row
recover_row-Revises job now cleanup row h = record {
  id = refl;
  batch = refl;
  task = refl;
  config_json = refl;
  move = ends (ground arith) refl;
}

interrupt_row-Revises :
    (now : ℕ) (row : Job) → is_running row.state ≡ true → Revises row (interrupt_row now row)
unfolding interrupt_row
interrupt_row-Revises now row h = record {
  id = refl;
  batch = refl;
  task = refl;
  config_json = refl;
  move = ends (ground arith) refl;
}

module _ (own : Config) where
  recover_one-Edits : (now : ℕ) (job : Job) (s : Store) → Edits own s (recover_one now job s)
  unfolding recover_one drop_leases
  recover_one-Edits now job s =
      Edits-trans
        (update-Edits own s failed_rows (same_worker job) _
          (recover_row-Revises job now (is_checkout_sha job.ref)) refl refl)
        (Edits-trans
          (update-Edits own failed_rows cancelled_rows _ (cancel_row now)
            (λ row h. cancel_row-Revises now row (ground arith)) refl refl)
          (Edits-one (releases (λ l. not (l.job_id == job.id)) refl refl)))
    where
      failed_rows : Store
      failed_rows = record s {
        jobs = update (same_worker job) (recover_row now (is_checkout_sha job.ref)) s.jobs;
      }

      cancelled_rows : Store
      cancelled_rows = record failed_rows {
        jobs =
            update (λ row. is_queued row.state && in_batch job.batch row) (cancel_row now)
              failed_rows.jobs;
      }

  recover_rows-Edits :
      (now : ℕ) (skip_changed : Bool) (jobs : List Job) (s t : Store) (found : List Job)
      → recover_rows now skip_changed jobs s ≡ ok (t, found)
      → Edits own s t
  unfolding recover_rows
  recover_rows-Edits now skip_changed [] s t found h =
      let same : s ≡ t = ground arith in rw (← same) here
  recover_rows-Edits now skip_changed (job ∷ jobs) s t found h =
      elim (Bool-cases (count (same_worker job) s.jobs == 0)) [
        | inl none_left ↦
            recover_rows-Edits now skip_changed jobs s t found
              (skipped skip_changed (rw none_left at h))
        | inr some_left ↦
            let (rest, e) =
              recovered (recover_rows now skip_changed jobs (recover_one now job s))
                (rw some_left at h) in
            Edits-trans (recover_one-Edits now job s)
              (recover_rows-Edits now skip_changed jobs (recover_one now job s) t rest e)
      ]
    where
      skipped :
          {r : Result QueueError (Store × List Job)} (skip : Bool)
          → (if skip then r else err changed_before_recovery) ≡ ok (t, found)
          → r ≡ ok (t, found)
      skipped true e = e
      skipped false e = cc

      recovered :
          (r : Result QueueError (Store × List Job))
          → (elim r as (λ x. Result QueueError (Store × List Job)) [
            | err e ↦ err e
            | ok (after, rest) ↦ ok (after, job ∷ rest)
          ])
            ≡ ok (t, found)
          → (rest : List Job) × (r ≡ ok (t, rest))
      recovered (err e) k = cc
      recovered (ok (after, rest)) k = (rest, ground arith)

module _ {Repo : Type 0} (git : Git Repo) (host : Host) (processes : Processes) (own : Config) where
  clear_pending-Edits :
      (id : ℕ) (w : World Repo) → Edits own w.store (clear_pending git host processes id w).store
  clear_pending-Edits id w =
      update-Edits own w.store _ (has_id id) (λ row. record row { cleanup_pending = false })
        (λ row h. record {
          id = refl;
          batch = refl;
          task = refl;
          config_json = refl;
          move = stays refl;
        })
        refl refl

  clean_up-Edits :
      (jobs : List Job) (w : World Repo)
      → Edits own w.store (clean_up git host processes jobs w).0.store
  unfolding clean_up
  clean_up-Edits [] w = here
  clean_up-Edits (job ∷ jobs) w = elim (Bool-cases (processes.terminated job.id)) [
    | inr alive ↦ rw alive (clean_up-Edits jobs w)
    | inl dead ↦ rw dead (elim (Bool-cases (processes.removed job.id)) [
      | inr kept ↦ rw kept (clean_up-Edits jobs w)
      | inl gone ↦
          let cleared = clear_pending git host processes job.id w in
          rw gone (
            Edits-trans (clear_pending-Edits job.id w) (
              Edits-trans (release-Edits git host own cleared job.batch job.checkout_root) (
                clean_up-Edits jobs
                  (release_batch_ref git host cleared job.batch job.checkout_root).0)))
    ])
  ]

  after_recovery-Edits :
      (w : World Repo) (jobs : List Job) (skip_changed : Bool)
      (r : Result QueueError (Store × List Job))
      → recover_rows host.now skip_changed jobs w.store ≡ r
      → Edits own w.store (after_recovery git host processes w r).0.store
  unfolding after_recovery
  after_recovery-Edits w jobs skip_changed (err e) h = here
  after_recovery-Edits w jobs skip_changed (ok (store, found)) h = elim (Bool-cases host.commits) [
    | inr failed ↦ simp failed here
    | inl committed ↦ simp committed (
        Edits-trans (recover_rows-Edits own host.now skip_changed jobs w.store store found h) (
          Edits-trans
            (clean_up-Edits (select (λ job. is_checkout_sha job.ref) found)
              (record w { store = store }))
            (SameRows-Edits own _ _ (finished-SameRows git host _))))
  ]

  recover_jobs-Edits :
      (w : World Repo) (skip_changed : Bool) (jobs : List Job)
      → Edits own w.store (recover_jobs git host processes w skip_changed jobs).0.store
  unfolding recover_jobs
  recover_jobs-Edits w skip_changed [] = here
  recover_jobs-Edits w skip_changed (job ∷ jobs) =
      after_recovery-Edits w (job ∷ jobs) skip_changed _ refl

  pub recover_orphaned-Edits :
      (active : List ℕ) (w : World Repo)
      → Edits own w.store (recover_orphaned git host processes active w).0.store
  unfolding recover_orphaned
  recover_orphaned-Edits active w =
      go (orphans git host processes active (select (λ job. is_running job.state) w.store.jobs))
    where
      go :
          (r : Result QueueError (List Job))
          → Edits own w.store
              (elim r as (λ x. World Repo × ℕ × List QueueError) [
                | err e ↦ (w, 0, e ∷ [])
                | ok found ↦ recover_jobs git host processes w true found
              ]).0.store
      go (err e) = here
      go (ok found) = recover_jobs-Edits w true found

  pub recover_job-Edits :
      (w : World Repo) (id : ℕ) → Edits own w.store (recover_job git host processes w id).0.store
  unfolding recover_job recover_found recover_checked
  recover_job-Edits w id = found (find (matching id is_running) w.store.jobs)
    where
      checked :
          (job : Job) (r : Result QueueError (Unit {0}))
          → Edits own w.store (recover_checked git host processes w job r).0.store
      checked job (err e) = here
      checked job (ok u) = recover_jobs-Edits w false (job ∷ [])

      found : (o : Option Job) → Edits own w.store (recover_found git host processes w o).0.store
      found none = here
      found (some job) = checked job (may_recover git host processes job)

  interrupt-Edits :
      (interrupted : List Job) (now : ℕ) (s : Store)
      → Edits own s (interrupt git host processes interrupted now s)
  unfolding interrupt
  interrupt-Edits interrupted now s =
      Edits-trans
        (update-Edits own s cancelled_rows _ (cancel_row now)
          (λ row h. cancel_row-Revises now row (ground arith)) refl refl)
        (Edits-trans
          (update-Edits own cancelled_rows failed_rows _ (interrupt_row now)
            (λ row h. interrupt_row-Revises now row h) refl refl)
          (Edits-trans
            (update-Edits own failed_rows marked_rows _
              (λ row. record row { cleanup_pending = true })
              (λ row h. record {
                id = refl;
                batch = refl;
                task = refl;
                config_json = refl;
                move = stays refl;
              })
              refl refl)
            (Edits-one (releases _ refl refl))))
    where
      cancelled_rows : Store
      cancelled_rows = record s {
        jobs =
            update
              (λ row.
                is_queued row.state
                && not (
                    count (λ other. is_running other.state && in_batch row.batch other) s.jobs
                    == 0))
              (cancel_row now) s.jobs;
      }

      failed_rows : Store
      failed_rows = record s {
        jobs = update (λ row. is_running row.state) (interrupt_row now) cancelled_rows.jobs;
      }

      marked_rows : Store
      marked_rows = record s {
        jobs =
            update (λ row. contains (map (λ (j : Job). j.id) interrupted) row.id)
              (λ row. record row { cleanup_pending = true }) failed_rows.jobs;
      }

  pub recover_interrupted-Edits :
      (remove : Text → Bool) (w : World Repo)
      → Edits own w.store (recover_interrupted git host processes remove own w).0.store
  unfolding recover_interrupted end_recovery
  recover_interrupted-Edits remove w =
      Edits-trans (SameRows-Edits own _ _ (cleanup_orphan_refs-SameRows git host w))
        (go (cleanup_orphan_refs git host w).1)
    where
      checked : World Repo
      checked = (cleanup_orphan_refs git host w).0

      interrupted : List Job
      interrupted = select (is_interrupted git host processes) checked.store.jobs

      store : Store
      store = interrupt git host processes interrupted host.now checked.store

      go :
          (r : Result QueueError (Unit {0}))
          → Edits own checked.store
              (elim r as (λ x. World Repo × List QueueError) [
                | err e ↦ (checked, e ∷ [])
                | ok u ↦
                    if host.commits
                    then end_recovery git host processes remove own interrupted
                        (record checked { store = store })
                    else (checked, commit_failed ∷ [])
              ]).0.store
      go (err e) = here
      go (ok u) = elim (Bool-cases host.commits) [
        | inr failed ↦ simp failed here
        | inl committed ↦ simp committed (
            Edits-trans (interrupt-Edits interrupted host.now checked.store) (
              Edits-trans (clean_up-Edits interrupted (record checked { store = store })) (
                Edits-trans (prune_logs-Edits own remove _)
                  (SameRows-Edits own _ _ (finished-SameRows git host _)))))
      ]
