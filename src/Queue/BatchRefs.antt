-- ===== src/Queue/BatchRefs.antt =====
-- The private Git refs that keep a batch's commit reachable: `batchRef`,
-- `releaseBatchRefUnlockedContext`, `releaseBatchRefContext`, `releaseFinishedBatchRefsUnlocked`
-- and `removeBatchRefIfOwned` of internal/bitci/controller.go.
pub mod Rows
pub mod Protected
use bitci.Prelude.{
  ℕ, zero, suc, Bool, true, false, not, ◌&&◌, ◌||◌, Option, none, some, List, [], ◌∷◌, ◌++◌, ◌==◌,
  contains, if◌then◌else◌, nat_eq, list_eq,
}
use bitci.Prelude.Text.{Text, codes}
use bitci.Prelude.Strings.{is_empty, equal_fold, trim_space}
use bitci.Prelude.Result.{Result, ok, err}
use bitci.Sha.{is_checkout_sha}
use bitci.Queue.{
  State, Job, BatchRef, Store, Git, Host, QueueError, lock_failed, location_unknown, unpin_failed,
  no_rows, World,
}
use bitci.Queue.Table.{select, count, find, is_active, in_batch}

unfoldable pub batch_ref : Text → Text
batch_ref batch = codes "refs/bitci/jobs/" ++ batch

-- The row keeps its batch's ref: it is queued, running or not yet cleaned up.
abbrev pub protects : Job → Bool
protects job = is_active job.state || job.cleanup_pending

unfoldable pub drop_batch_ref : Text → Store → Store
drop_batch_ref batch store = record store {
  batch_refs = select (λ r. not (r.batch == batch)) store.batch_refs;
}

module _ {Repo : Type 0} (git : Git Repo) (host : Host) where
  -- Deletes the ref if it still names the recorded commit.
  unfoldable pub delete_if_expected :
      World Repo → Text → Text → Text → Option Text → World Repo × Result QueueError (Unit {0})
  delete_if_expected w batch root expected none = (w, ok tt)
  delete_if_expected w batch root expected (some actual) =
      if equal_fold (trim_space actual) expected
      then elim (git.delete_ref w.repo root (batch_ref batch)) [
        | none ↦ (w, err unpin_failed)
        | some repo ↦ (record { store = drop_batch_ref batch w.store; repo = repo }, ok tt)
      ]
      else (w, ok tt)

  abbrev pub root_or_location : Text → Option Text
  root_or_location root =
      if is_empty root
      then elim host.location [ none ↦ none | some (found, relative) ↦ some found ]
      else some root

  unfoldable pub release_at :
      World Repo → Text → Text → Option Text → World Repo × Result QueueError (Unit {0})
  release_at w batch expected none = (w, err location_unknown)
  release_at w batch expected (some root) =
      delete_if_expected w batch root expected (git.rev_parse w.repo root (batch_ref batch))

  unfoldable pub release_expected :
      World Repo → Text → Text → Option Job → World Repo × Result QueueError (Unit {0})
  release_expected w batch root none = (w, err no_rows)
  release_expected w batch root (some job) =
      if not (is_checkout_sha job.ref)
      then (record w { store = drop_batch_ref batch w.store }, ok tt)
      else release_at w batch job.ref (root_or_location root)

  unfoldable pub release_batch_ref_unlocked :
      World Repo → Text → Text → World Repo × Result QueueError (Unit {0})
  release_batch_ref_unlocked w batch root =
      if count (λ job. in_batch batch job && protects job) w.store.jobs == 0
      then release_expected w batch root (find (in_batch batch) w.store.jobs)
      else (w, ok tt)

  unfoldable pub release_batch_ref :
      World Repo → Text → Text → World Repo × Result QueueError (Unit {0})
  release_batch_ref w batch root =
      if host.locked then release_batch_ref_unlocked w batch root else (w, err lock_failed)

  -- One row for each batch, its first, in the table's order.
  unfoldable pub first_of_batches : List Text → List Job → List Job
  first_of_batches seen [] = []
  first_of_batches seen (job ∷ jobs) =
      let rest = first_of_batches (job.batch ∷ seen) jobs in
      let same = first_of_batches seen jobs in if contains seen job.batch then same else job ∷ rest

  unfoldable pub release_each : World Repo → List Job → World Repo × Result QueueError (Unit {0})
  release_each w [] = (w, ok tt)
  release_each w (job ∷ jobs) =
      let (next, result) = release_batch_ref_unlocked w job.batch job.checkout_root in
      let rest = release_each next jobs in elim result [ ok u ↦ rest | err e ↦ (next, err e) ]

  unfoldable pub release_finished_unlocked : World Repo → World Repo × Result QueueError (Unit {0})
  release_finished_unlocked w = release_each w (
      select (λ job. count (λ other. in_batch job.batch other && protects other) w.store.jobs == 0)
        (first_of_batches [] w.store.jobs))

  unfoldable pub release_finished : World Repo → World Repo × Result QueueError (Unit {0})
  release_finished w = if host.locked then release_finished_unlocked w else (w, err lock_failed)

  -- Failures of the commands are not reported to the caller, which drops the result.
  unfoldable pub remove_if_owned : World Repo → Job → World Repo
  remove_if_owned w job =
      if count (λ other. in_batch job.batch other && protects other) w.store.jobs == 0
      then elim (git.rev_parse w.repo job.checkout_root (batch_ref job.batch)) [
        | none ↦ w
        | some actual ↦
            if equal_fold (trim_space actual) job.ref
            then elim (git.delete_ref w.repo job.checkout_root (batch_ref job.batch)) [
              | none ↦ w
              | some repo ↦ record w { repo = repo }
            ]
            else w
      ]
      else w
