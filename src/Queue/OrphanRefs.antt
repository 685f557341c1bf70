-- ===== src/Queue/OrphanRefs.antt =====
-- The check of all recorded refs when the controller starts: `cleanupOrphanBatchRefs` of
-- internal/bitci/controller.go.
pub mod Rows
use bitci.Prelude.{
  ℕ, Bool, true, false, not, ◌&&◌, ◌||◌, Option, none, some, List, [], ◌∷◌, ◌==◌, if◌then◌else◌,
  nat_eq,
}
use bitci.Prelude.Text.{Text}
use bitci.Prelude.Strings.{equal_fold, trim_space}
use bitci.Prelude.Result.{Result, ok, err}
use bitci.Queue.{
  Job, BatchRef, Store, Git, Host, QueueError, lock_failed, ref_changed, pin_failed, unpin_failed,
  World,
}
use bitci.Queue.Table.{count, in_batch}
use bitci.Queue.BatchRefs.{batch_ref, protects, drop_batch_ref}

module _ {Repo : Type 0} (git : Git Repo) (host : Host) where
  -- The batch still has work: a missing ref is restored if its commit is there.
  unfoldable pub keep_active :
      World Repo → BatchRef → Option Text → World Repo × Result QueueError (Unit {0})
  keep_active w owned (some actual) =
      if equal_fold (trim_space actual) owned.ref then (w, ok tt) else (w, err ref_changed)
  keep_active w owned none =
      if git.has_commit w.repo owned.checkout_root owned.ref
      then elim (git.update_ref w.repo owned.checkout_root (batch_ref owned.batch) owned.ref) [
        | none ↦ (w, err pin_failed)
        | some repo ↦ (record w { repo = repo }, ok tt)
      ]
      else (w, ok tt)

  abbrev pub forget : World Repo → BatchRef → World Repo
  forget w owned = record w { store = drop_batch_ref owned.batch w.store }

  -- The batch is done: the ref goes if it is the recorded one, and the row goes.
  unfoldable pub drop_idle :
      World Repo → BatchRef → Option Text → World Repo × Result QueueError (Unit {0})
  drop_idle w owned none = (forget w owned, ok tt)
  drop_idle w owned (some actual) =
      if equal_fold (trim_space actual) owned.ref
      then elim (git.delete_ref w.repo owned.checkout_root (batch_ref owned.batch)) [
        | none ↦ (w, err unpin_failed)
        | some repo ↦ (forget (record w { repo = repo }) owned, ok tt)
      ]
      else (forget w owned, ok tt)

  abbrev pub is_null_text : Option Text → Bool
  is_null_text none = true
  is_null_text (some t) = false

  unfoldable pub check_ref :
      World Repo → BatchRef → Option Text → World Repo × Result QueueError (Unit {0})
  check_ref w owned actual =
      if is_null_text actual && not (git.is_repository w.repo owned.checkout_root)
      then (w, ok tt)
      else if count (λ job. in_batch owned.batch job && protects job) w.store.jobs == 0
      then drop_idle w owned actual
      else keep_active w owned actual

  unfoldable pub check_refs : World Repo → List BatchRef → World Repo × Result QueueError (Unit {0})
  check_refs w [] = (w, ok tt)
  check_refs w (owned ∷ refs) =
      let (next, result) =
        check_ref w owned (git.rev_parse w.repo owned.checkout_root (batch_ref owned.batch)) in
      let rest = check_refs next refs in elim result [ err e ↦ (next, err e) | ok u ↦ rest ]

  unfoldable pub cleanup_orphan_refs : World Repo → World Repo × Result QueueError (Unit {0})
  cleanup_orphan_refs w =
      if host.locked then check_refs w w.store.batch_refs else (w, err lock_failed)
