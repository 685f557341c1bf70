-- ===== src/Queue/Retention/Effects.antt =====
-- `pruneLogs` of internal/bitci/controller.go changes nothing of the tables but log paths.
use bitci.Prelude.{zero, suc, Bool, List, [], ◌∷◌, refl, Bool-cases, inl, inr}
use bitci.Prelude.Text.{Text}
use bitci.Prelude.Int.{ℤ, pos, negsuc}
use bitci.Config.{Config}
use bitci.Queue.{Job, Store, QueueError}
use bitci.Queue.Table.{update, has_id}
use bitci.Queue.Rows.{Revises, stays}
use bitci.Queue.Edits.{Edits, here, Edits-trans, update-Edits}
use bitci.Queue.Retention.{remove_logs, expired_logs, prune_logs}

module _ (own : Config) (remove : Text → Bool) where
  remove_logs-Edits : (js : List Job) (s : Store) → Edits own s (remove_logs remove js s).0
  unfolding remove_logs
  remove_logs-Edits [] s = here
  remove_logs-Edits (j ∷ js) s = elim (Bool-cases (remove j.log_path)) [
    | inl gone ↦ rw gone (
        Edits-trans (update-Edits own s after (has_id j.id) clear (λ row h. kept row) refl refl)
          (remove_logs-Edits js after))
    | inr there ↦ rw there here
  ]
    where
      clear : Job → Job
      clear row = record row { log_path = [] }

      after : Store
      after = record s { jobs = update (has_id j.id) clear s.jobs }

      kept : (row : Job) → Revises row (clear row)
      kept row = record {
        id = refl;
        batch = refl;
        task = refl;
        config_json = refl;
        move = stays refl;
      }

  pub prune_logs-Edits : (s : Store) → Edits own s (prune_logs remove own s).0
  unfolding prune_logs
  prune_logs-Edits s = go own.log_retention
    where
      go :
          (k : ℤ)
          → Edits own s
              (elim k as (λ x. Store × List QueueError) [
                | pos zero ↦ (s, [])
                | other ↦ remove_logs remove (expired_logs other s.jobs) s
              ]).0
      go (pos zero) = here
      go (pos (suc n)) = remove_logs-Edits _ s
      go (negsuc n) = remove_logs-Edits _ s
