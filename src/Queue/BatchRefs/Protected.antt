-- ===== src/Queue/BatchRefs/Protected.antt =====
-- A batch that is not done keeps its record in batch_refs when internal/bitci/controller.go releases
-- the refs of finished batches.
use bitci.Prelude.{
  ℕ, false, not, ◌&&◌, Option, none, some, List, [], ◌∷◌, ◌≡◌, refl, ◌∙◌, arith, ◌==◌, nat_eq,
  list_eq, Bool-cases, inl, inr,
}
use bitci.Prelude.Text.{Text}
use bitci.Prelude.Result.{Result, ok, err}
use bitci.Queue.{Job, BatchRef, Store, Git, Host, QueueError, World}
use bitci.Queue.Table.{select, count, find, in_batch}
use bitci.Queue.BatchRefs.{
  protects, drop_batch_ref, delete_if_expected, release_at, release_expected, root_or_location,
  batch_ref, release_batch_ref_unlocked, release_each, release_finished_unlocked, release_finished,
}
use bitci.Queue.BatchRefs.Rows.{unlocked-SameRows}

-- The record of a batch.
abbrev pub record_of : Text → Store → Option BatchRef
record_of batch s = find (λ r. r.batch == batch) s.batch_refs

abbrev pub protected_by : Text → List Job → ℕ
protected_by batch jobs = count (λ job. in_batch batch job && protects job) jobs

find-select :
    (batch x : Text) (refs : List BatchRef)
    → (x == batch) ≡ false
    → find (λ r. r.batch == batch) (select (λ r. not (r.batch == x)) refs)
      ≡ find (λ r. r.batch == batch) refs
unfolding find select
find-select batch x [] h = refl
find-select batch x (r ∷ refs) h = ground (arith, find-select batch x refs h)

module _ {Repo : Type 0} (git : Git Repo) (host : Host) (batch : Text) where
  record_of-delete :
      (w : World Repo) (x root expected : Text) (actual : Option Text)
      → (x == batch) ≡ false
      → record_of batch (delete_if_expected git host w x root expected actual).0.store
        ≡ record_of batch w.store
  unfolding delete_if_expected drop_batch_ref
  record_of-delete w x root expected none h = refl
  record_of-delete w x root expected (some actual) h =
      ground (arith, find-select batch x w.store.batch_refs h)

  record_of-release_at :
      (w : World Repo) (x expected : Text) (root : Option Text)
      → (x == batch) ≡ false
      → record_of batch (release_at git host w x expected root).0.store ≡ record_of batch w.store
  unfolding release_at
  record_of-release_at w x expected none h = refl
  record_of-release_at w x expected (some root) h =
      record_of-delete w x root expected (git.rev_parse w.repo root (batch_ref x)) h

  record_of-expected :
      (w : World Repo) (x root : Text) (o : Option Job)
      → (x == batch) ≡ false
      → record_of batch (release_expected git host w x root o).0.store ≡ record_of batch w.store
  unfolding release_expected drop_batch_ref
  record_of-expected w x root none h = refl
  record_of-expected w x root (some job) h = ground (
    arith,
    find-select batch x w.store.batch_refs h,
    record_of-release_at w x job.ref (root_or_location git host root) h,
  )

  record_of-unlocked :
      (w : World Repo) (x root : Text)
      → (protected_by batch w.store.jobs == 0) ≡ false
      → record_of batch (release_batch_ref_unlocked git host w x root).0.store
        ≡ record_of batch w.store
  unfolding release_batch_ref_unlocked
  record_of-unlocked w x root h = elim (list_eq.dec x batch) [
    | yes p ↦ rw (p, h) refl
    | no n ↦
        ground (arith, record_of-expected w x root (find (in_batch x) w.store.jobs) (ground arith))
  ]

  record_of-each :
      (w : World Repo) (jobs : List Job)
      → (protected_by batch w.store.jobs == 0) ≡ false
      → record_of batch (release_each git host w jobs).0.store ≡ record_of batch w.store
  unfolding release_each
  record_of-each w [] h = refl
  record_of-each w (job ∷ jobs) h =
      let released = release_batch_ref_unlocked git host w job.batch job.checkout_root in
      let kept = record_of-unlocked w job.batch job.checkout_root h in
      let jobs_at = (unlocked-SameRows git host w job.batch job.checkout_root).0 in
      let rest = record_of-each released.0 jobs (rw jobs_at h) in go released.1 rest kept
    where
      go :
          (r : Result QueueError (Unit {0}))
          → record_of batch
              (release_each git host
                (release_batch_ref_unlocked git host w job.batch job.checkout_root).0
                jobs).0.store
            ≡ record_of batch
                (release_batch_ref_unlocked git host w job.batch job.checkout_root).0.store
          → record_of batch
              (release_batch_ref_unlocked git host w job.batch job.checkout_root).0.store
            ≡ record_of batch w.store
          → record_of batch
              (elim r as (λ x. World Repo × Result QueueError (Unit {0})) [
                | ok u ↦
                    release_each git host
                      (release_batch_ref_unlocked git host w job.batch job.checkout_root).0
                      jobs
                | err e ↦
                    ((release_batch_ref_unlocked git host w job.batch job.checkout_root).0, err e)
              ]).0.store
            ≡ record_of batch w.store
      go (ok u) a b = a ∙ b
      go (err e) a b = b

  -- Where a row of the batch is queued, running or not yet cleaned up, the release of the refs of
  -- finished batches keeps the batch's record, whatever the host and Git answer.
  pub release_finished-protected :
      (w : World Repo)
      → (protected_by batch w.store.jobs == 0) ≡ false
      → record_of batch (release_finished git host w).0.store ≡ record_of batch w.store
  unfolding release_finished release_finished_unlocked
  release_finished-protected w h = elim (Bool-cases host.locked) [
    | inr unlocked ↦ simp unlocked refl
    | inl locked ↦ simp locked (record_of-each w _ h)
  ]
