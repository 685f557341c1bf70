-- ===== src/Queue/Retry/Effects.antt =====
-- `RetryContext` of internal/bitci/controller.go as changes of the tables.
use bitci.Prelude.{Bool, ℕ, Option, none, some, [], ◌∷◌}
use bitci.Prelude.Text.{Text}
use bitci.Prelude.Dict.{Dict}
use bitci.Prelude.Result.{Result, ok, err}
use bitci.Config.{Config}
use bitci.Queue.{Job, Git, Host, QueueError, World}
use bitci.Queue.Table.{find, has_id}
use bitci.Queue.Edits.{Edits, here}
use bitci.Queue.Submit.{RetryInfo}
use bitci.Queue.Submit.Effects.{submit-Edits}
use bitci.Queue.Retry.{submitted_of, retry_planned, retry_found, retry_context}

module _ {Repo : Type 0} (git : Git Repo) (host : Host) (exists : Text → Text → Text → Bool)
    (own : Config) where
  retry_planned-Edits :
      (w : World Repo) (job : Job) (batch : Option Text)
      (r : Result QueueError (Config × (Text × Text) × Dict Text RetryInfo))
      → Edits own w.store (retry_planned git host exists own w job batch r).0.store
  unfolding retry_planned
  retry_planned-Edits w job batch (err e) = here
  retry_planned-Edits w job batch (ok (config, (root, relative), retries)) =
      submit-Edits git host w config (job.task ∷ []) job.ref (submitted_of job) root relative
        retries batch own

  retry_found-Edits :
      (w : World Repo) (batch : Option Text) (o : Option Job)
      → Edits own w.store (retry_found git host exists own w batch o).0.store
  unfolding retry_found
  retry_found-Edits w batch none = here
  retry_found-Edits w batch (some job) = retry_planned-Edits w job batch _

  pub retry-Edits :
      (w : World Repo) (id : ℕ) (batch : Option Text)
      → Edits own w.store (retry_context git host exists own w id batch).0.store
  unfolding retry_context
  retry-Edits w id batch = retry_found-Edits w batch (find (has_id id) w.store.jobs)
