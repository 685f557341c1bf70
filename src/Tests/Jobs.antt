-- ===== src/Tests/Jobs.antt =====
-- Tests of the queue.
use bitci.Prelude.{true, false, some, List, [], ◌∷◌, ◌≡◌, refl, arith, nat_eq, list_eq, suc}
use bitci.Prelude.Text.{codes}
use bitci.Prelude.Int.{pos, int_eq}
use bitci.Prelude.Result.{ok}
use bitci.Queue.{passed, queued, Host}
use bitci.Queue.Table.{find, has_id}
use bitci.Queue.Invariant.{Inv}
use bitci.Queue.Edits.{Fits, AtMost, load}
use bitci.Queue.Claim.{claim_context, resources_free, held_and_limit, limit_of}
use bitci.Queue.Claim.Fits.{resources_free-Fits}
use bitci.Queue.Claim.Effects.Claims.{ClaimResult, claim_context-ClaimResult}
use bitci.Queue.Submit.{submit}
use bitci.Queue.Submit.Atomic.{Submitted, submit-Submitted}
use bitci.Queue.Reach.{
  claims, finishes, cancels, run_all, run_all-Inv, run_all-HasEnded, HasEnded, Call,
}
use bitci.Tests.Sample.{
  build, test, config, config_valid, job_of, store, git, host, world, store_Inv,
}

claim_context-ClaimResult_example :
    ClaimResult git host config config_valid world.store
      (claim_context git host config world (pos 1))
claim_context-ClaimResult_example =
    claim_context-ClaimResult git host config config_valid world (pos 1) store_Inv

free : resources_free config store config (codes "d" ∷ []) ≡ ok true
unfolding resources_free held_and_limit nat_eq list_eq
free = refl

resources_free-Fits_example :
    Fits config store (codes "d")
    × AtMost (suc (load (codes "d") [])) (some (limit_of config (codes "d")))
resources_free-Fits_example =
    resources_free-Fits config store config (codes "d" ∷ []) tt free (codes "d") (ground arith)

submit-Submitted_example :
    let r =
      submit git host world config (test ∷ []) [] (codes "main") [] [] [] (some (codes "y")) in
    Submitted git host world config
      (test ∷ [])
      []
      (codes "main")
      []
      []
      []
      (some (codes "y"))
      r.0.store
      r.1
submit-Submitted_example =
    submit-Submitted git host world config (test ∷ []) [] (codes "main") [] [] [] (some (codes "y"))

-- The job is claimed, finishes, and cannot be cancelled.
abbrev pub calls : List (Host × Call)
calls =
    (host, claims (pos 1))
    ∷ (host, finishes (λ path. true) (job_of 2 test queued) (pos 0) false)
    ∷ (host, cancels 2)
    ∷ []

run_all-Inv_example : Inv config (run_all git config world calls).store
run_all-Inv_example = run_all-Inv git config config_valid world calls store_Inv

found_build : find (has_id 1) store.jobs ≡ some (job_of 1 build passed)
unfolding find nat_eq
found_build = refl

run_all-HasEnded_example : HasEnded (run_all git config world calls).store 1 passed
run_all-HasEnded_example =
    run_all-HasEnded git config config_valid world calls 1 passed store_Inv
      (job_of 1 build passed, found_build, refl, refl)
