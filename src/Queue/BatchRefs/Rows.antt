-- ===== src/Queue/BatchRefs/Rows.antt =====
-- The functions of internal/bitci/controller.go that release refs leave jobs and leases alone.
use bitci.Prelude.{Option, none, some, List, [], ◌∷◌, ◌≡◌, refl, arith}
use bitci.Prelude.Text.{Text}
use bitci.Queue.{Job, Git, Host, World}
use bitci.Queue.Table.{find, in_batch}
use bitci.Queue.Edits.{SameRows}
use bitci.Queue.BatchRefs.{
  drop_batch_ref, delete_if_expected, release_at, release_expected, root_or_location, batch_ref,
  release_batch_ref_unlocked, release_batch_ref, release_each, release_finished_unlocked,
  release_finished, remove_if_owned,
}

module _ {Repo : Type 0} (git : Git Repo) (host : Host) where
  delete_if_expected-SameRows :
      (w : World Repo) (batch root expected : Text) (actual : Option Text)
      → SameRows w.store (delete_if_expected git host w batch root expected actual).0.store
  unfolding delete_if_expected drop_batch_ref
  delete_if_expected-SameRows w batch root expected none = (refl, refl)
  delete_if_expected-SameRows w batch root expected (some actual) = ground arith

  release_at-SameRows :
      (w : World Repo) (batch expected : Text) (root : Option Text)
      → SameRows w.store (release_at git host w batch expected root).0.store
  unfolding release_at
  release_at-SameRows w batch expected none = (refl, refl)
  release_at-SameRows w batch expected (some root) =
      delete_if_expected-SameRows w batch root expected
        (git.rev_parse w.repo root (batch_ref batch))

  release_expected-SameRows :
      (w : World Repo) (batch root : Text) (o : Option Job)
      → SameRows w.store (release_expected git host w batch root o).0.store
  unfolding release_expected drop_batch_ref
  release_expected-SameRows w batch root none = (refl, refl)
  release_expected-SameRows w batch root (some job) =
      ground (arith, release_at-SameRows w batch job.ref (root_or_location git host root))

  pub unlocked-SameRows :
      (w : World Repo) (batch root : Text)
      → SameRows w.store (release_batch_ref_unlocked git host w batch root).0.store
  unfolding release_batch_ref_unlocked
  unlocked-SameRows w batch root =
      ground (arith, release_expected-SameRows w batch root (find (in_batch batch) w.store.jobs))

  pub release-SameRows :
      (w : World Repo) (batch root : Text)
      → SameRows w.store (release_batch_ref git host w batch root).0.store
  unfolding release_batch_ref
  release-SameRows w batch root = ground (arith, unlocked-SameRows w batch root)

  release_each-SameRows :
      (w : World Repo) (jobs : List Job) → SameRows w.store (release_each git host w jobs).0.store
  unfolding release_each
  release_each-SameRows w [] = (refl, refl)
  release_each-SameRows w (job ∷ jobs) =
      let first = unlocked-SameRows w job.batch job.checkout_root in
      let next = (release_batch_ref_unlocked git host w job.batch job.checkout_root).0 in
      ground (arith, first, release_each-SameRows next jobs)

  pub finished_unlocked-SameRows :
      (w : World Repo) → SameRows w.store (release_finished_unlocked git host w).0.store
  unfolding release_finished_unlocked
  finished_unlocked-SameRows w = release_each-SameRows w _

  pub finished-SameRows : (w : World Repo) → SameRows w.store (release_finished git host w).0.store
  unfolding release_finished
  finished-SameRows w = ground (arith, finished_unlocked-SameRows w)

  pub remove_if_owned-store :
      (w : World Repo) (job : Job) → (remove_if_owned git host w job).store ≡ w.store
  unfolding remove_if_owned
  remove_if_owned-store w job = ground arith
