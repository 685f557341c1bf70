-- ===== src/Queue/OrphanRefs/Rows.antt =====
-- `cleanupOrphanBatchRefs` of internal/bitci/controller.go leaves jobs and leases alone.
use bitci.Prelude.{Option, none, some, List, [], ◌∷◌, refl, arith}
use bitci.Prelude.Text.{Text}
use bitci.Queue.{BatchRef, Git, Host, World}
use bitci.Queue.Edits.{SameRows}
use bitci.Queue.BatchRefs.{batch_ref, drop_batch_ref}
use bitci.Queue.OrphanRefs.{keep_active, drop_idle, check_ref, check_refs, cleanup_orphan_refs}

module _ {Repo : Type 0} (git : Git Repo) (host : Host) where
  keep_active-SameRows :
      (w : World Repo) (owned : BatchRef) (actual : Option Text)
      → SameRows w.store (keep_active git host w owned actual).0.store
  unfolding keep_active
  keep_active-SameRows w owned none = ground arith
  keep_active-SameRows w owned (some actual) = ground arith

  drop_idle-SameRows :
      (w : World Repo) (owned : BatchRef) (actual : Option Text)
      → SameRows w.store (drop_idle git host w owned actual).0.store
  unfolding drop_idle drop_batch_ref
  drop_idle-SameRows w owned none = (refl, refl)
  drop_idle-SameRows w owned (some actual) = ground arith

  check_ref-SameRows :
      (w : World Repo) (owned : BatchRef) (actual : Option Text)
      → SameRows w.store (check_ref git host w owned actual).0.store
  unfolding check_ref
  check_ref-SameRows w owned actual =
      ground (arith, keep_active-SameRows w owned actual, drop_idle-SameRows w owned actual)

  check_refs-SameRows :
      (w : World Repo) (refs : List BatchRef)
      → SameRows w.store (check_refs git host w refs).0.store
  unfolding check_refs
  check_refs-SameRows w [] = (refl, refl)
  check_refs-SameRows w (owned ∷ refs) =
      let actual = git.rev_parse w.repo owned.checkout_root (batch_ref owned.batch) in
      ground (
        arith,
        check_ref-SameRows w owned actual,
        check_refs-SameRows (check_ref git host w owned actual).0 refs,
      )

  pub cleanup_orphan_refs-SameRows :
      (w : World Repo) → SameRows w.store (cleanup_orphan_refs git host w).0.store
  unfolding cleanup_orphan_refs
  cleanup_orphan_refs-SameRows w = ground (arith, check_refs-SameRows w w.store.batch_refs)
