-- ===== src/Queue/Finish/Effects.antt =====
-- `finish` and `CancelContext` of internal/bitci/controller.go as changes of the tables.
use bitci.Prelude.{
  ℕ, Bool, true, false, not, Option, none, some, ◌≡◌, refl, ◌==◌, nat_eq, arith, Bool-cases, inl,
  inr,
}
use bitci.Prelude.Text.{Text}
use bitci.Prelude.Int.{ℤ, int_eq}
use bitci.Config.{Config}
use bitci.Queue.{Job, Store, Git, Host, World}
use bitci.Queue.Table.{count, find, update, is_queued, is_active, has_id}
use bitci.Queue.Rows.{Revises, ends}
use bitci.Queue.Edits.{Edits, here, releases, Edits-one, Edits-trans, SameRows-Edits, update-Edits}
use bitci.Queue.BatchRefs.{release_batch_ref}
use bitci.Queue.BatchRefs.Rows.{release-SameRows}
use bitci.Queue.Retention.{prune_logs}
use bitci.Queue.Retention.Effects.{prune_logs-Edits}
use bitci.Queue.Finish.{
  state_of_code, finish_row, cancel_row, drop_leases, matching, finish, cancel_known,
  cancel_context,
}

state_of_code-final : (code : ℤ) → is_active (state_of_code code) ≡ false
state_of_code-final code = ground arith

pub finish_row-Revises :
    (id now : ℕ) (code : ℤ) (log_path : Text) (pending : Bool) (row : Job)
    → matching id is_active row ≡ true
    → Revises row (finish_row now code log_path pending row)
unfolding finish_row
finish_row-Revises id now code log_path pending row h = record {
  id = refl;
  batch = refl;
  task = refl;
  config_json = refl;
  move = ends (ground arith) (state_of_code-final code);
}

pub cancel_row-Revises :
    (now : ℕ) (row : Job) → is_queued row.state ≡ true → Revises row (cancel_row now row)
unfolding cancel_row
cancel_row-Revises now row h = record {
  id = refl;
  batch = refl;
  task = refl;
  config_json = refl;
  move = ends (ground arith) refl;
}

module _ {Repo : Type 0} (git : Git Repo) (host : Host) (own : Config) where
  pub release-Edits :
      (w : World Repo) (batch root : Text)
      → Edits own w.store (release_batch_ref git host w batch root).0.store
  release-Edits w batch root = SameRows-Edits own _ _ (release-SameRows git host w batch root)

  -- The tables right after the row has ended.
  abbrev pub ended_rows : Store → Job → ℤ → Bool → Store
  ended_rows s job code pending = record s {
    jobs =
        update (matching job.id is_active) (finish_row host.now code job.log_path pending) s.jobs;
  }

  -- What follows is the removal of logs and of leases, and the batch's ref.
  pub finish-after :
      (remove : Text → Bool) (w : World Repo) (job : Job) (code : ℤ) (pending : Bool)
      → (count (matching job.id is_active) w.store.jobs == 0) ≡ false
      → Edits own
          (ended_rows w.store job code pending)
          (finish git host remove own w job code pending).0.store
  unfolding finish drop_leases
  finish-after remove w job code pending present = rw present (
      Edits-trans (prune_logs-Edits own remove (ended_rows w.store job code pending)) (
        Edits-trans (Edits-one (releases (λ l. not (l.job_id == job.id)) refl refl))
          (release-Edits (record w { store = free }) job.batch job.checkout_root)))
    where
      free : Store
      free =
          let pruned = (prune_logs remove own (ended_rows w.store job code pending)).0 in
          record pruned { leases = drop_leases job.id pruned.leases }

  pub finish-Edits :
      (remove : Text → Bool) (w : World Repo) (job : Job) (code : ℤ) (pending : Bool)
      → Edits own w.store (finish git host remove own w job code pending).0.store
  unfolding finish
  finish-Edits remove w job code pending =
      elim (Bool-cases (count (matching job.id is_active) w.store.jobs == 0)) [
        | inl absent ↦ rw absent here
        | inr present ↦
            Edits-trans
              (update-Edits own w.store (ended_rows w.store job code pending)
                (matching job.id is_active) (finish_row host.now code job.log_path pending)
                (finish_row-Revises job.id host.now code job.log_path pending) refl refl)
              (finish-after remove w job code pending present)
      ]

  cancel_known-Edits :
      (w : World Repo) (id : ℕ) (o : Option Job)
      → Edits own w.store (cancel_known git host w id o).0.store
  unfolding cancel_known
  cancel_known-Edits w id none = here
  cancel_known-Edits w id (some job) =
      elim (Bool-cases (count (matching id is_queued) w.store.jobs == 1)) [
        | inl one ↦ rw one (
            Edits-trans cancelled
              (release-Edits (record w { store = after }) job.batch job.checkout_root))
        | inr other ↦ rw other cancelled
      ]
    where
      after : Store
      after = record (w.store) {
        jobs = update (matching id is_queued) (cancel_row host.now) w.store.jobs;
      }

      cancelled : Edits own w.store after
      cancelled =
          update-Edits own w.store after (matching id is_queued) (cancel_row host.now)
            (λ row h. cancel_row-Revises host.now row (ground arith)) refl refl

  pub cancel-Edits :
      (w : World Repo) (id : ℕ) → Edits own w.store (cancel_context git host w id).0.store
  unfolding cancel_context
  cancel-Edits w id = cancel_known-Edits w id (find (has_id id) w.store.jobs)
