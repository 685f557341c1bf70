-- ===== src/Tests/Recovery.antt =====
-- Tests of recovery, retries and the refs of batches.
use bitci.Prelude.{◌<◌, true, false, ◌&&◌, none, some, [], ◌∷◌, ◌≡◌, refl, ◌==◌, nat_eq, list_eq}
use bitci.Prelude.Text.{codes}
use bitci.Prelude.Dict.{is_some}
use bitci.Prelude.Result.{ok}
use bitci.Queue.{running, failed, queued, Store, World}
use bitci.Queue.Table.{select, count, find, All, is_running}
use bitci.Queue.Finish.{matching}
use bitci.Queue.Claim.{has_lease}
use bitci.Queue.Recover.{Processes, interrupt}
use bitci.Queue.Recover.Clears.{interrupt-clears}
use bitci.Queue.Submit.{RetryInfo}
use bitci.Queue.Retry.{root_of_row, retry_task, find_last, latest, next_attempt}
use bitci.Queue.Retry.Attempts.{retry_task-fresh}
use bitci.Queue.BatchRefs.{release_finished}
use bitci.Queue.BatchRefs.Protected.{record_of, protected_by, release_finished-protected}
use bitci.Tests.Sample.{build, test, config, job_of, git, host}

abbrev busy : Store
busy = record {
  jobs = job_of 1 build failed ∷ job_of 2 test running ∷ job_of 3 test queued ∷ [];
  leases = record { resource = codes "d"; job_id = 2 } ∷ [];
  batch_refs = record { batch = codes "x"; checkout_root = codes "/c"; ref = codes "a" } ∷ [];
}

abbrev gone : Processes
gone = record { alive = λ pid. some false; terminated = λ id. true; removed = λ id. true }

interrupt-clears_example :
    (count (λ row. is_running row.state) (interrupt git host gone [] 5 busy).jobs ≡ 0)
    × ((has_lease (codes "d") 2 (interrupt git host gone [] 5 busy).leases
          && is_some (find (matching 2 is_running) busy.jobs))
        ≡ false)
interrupt-clears_example = interrupt-clears git host gone [] 5 busy (codes "d") 2

abbrev second : RetryInfo
second = record { attempt = 2; retry_of = 1; retry_root = 1; prior_exit_code = none }

retried : retry_task config busy.jobs (codes "x") build ≡ ok second
unfolding retry_task find_last latest next_attempt select nat_eq list_eq
retried = refl

retry_task-fresh_example :
    All
      (λ row. row.attempt < second.attempt)
      (select (λ row. root_of_row row == second.retry_root) busy.jobs)
retry_task-fresh_example = retry_task-fresh config busy.jobs (codes "x") build second retried

is_protected : (protected_by (codes "x") busy.jobs == 0) ≡ false
unfolding count nat_eq list_eq
is_protected = refl

abbrev busy_world : World (Unit {0})
busy_world = record { store = busy; repo = tt }

release_finished-protected_example :
    record_of (codes "x") (release_finished git host busy_world).0.store
    ≡ record_of (codes "x") busy_world.store
release_finished-protected_example =
    release_finished-protected git host (codes "x") busy_world is_protected
