-- ===== src/Queue/Request.antt =====
-- From a request to a submission: `SubmitContext`, `resolveCommitSHA` and `recordedDirectoryExists`
-- of internal/bitci/controller.go.
use bitci.Prelude.{◌||◌, Option, none, some, List, [], ◌==◌, if◌then◌else◌, nat_eq, list_eq}
use bitci.Prelude.Text.{Text, codes}
use bitci.Prelude.Strings.{is_empty, to_lower, equal_fold, trim_space}
use bitci.Prelude.Result.{Result, ok, err, guard, ◌>>=◌, ◌>>◌}
use bitci.Config.{Config}
use bitci.Sha.{is_checkout_sha, is_commit_ref}
use bitci.Queue.{
  Job, Git, Host, QueueError, location_unknown, directory_missing, ref_not_commit, staged_unknown,
  staged_mismatch, ref_unavailable, checkout_unavailable, World,
}
use bitci.Queue.Submit.{submit}

-- The checkout's commit (`checkoutSHA`), the staged one (`stagedCheckoutSHA`, empty if nothing is
-- staged), each `none` at a failure, and the type that Git gives of a path in a commit.
pub record Checkout : Type 0 where
  pub sha : Option Text
  pub staged : Option Text
  pub object_type : (root ref path : Text) → Option Text

pub record Request : Type 0 where
  pub ref : Text
  pub submitted_ref : Text
  pub checkout_root : Text
  pub config_relative : Text

unfoldable pub recorded_directory_exists :
    Checkout → (root ref relative : Text) → Result QueueError (Unit {0})
recorded_directory_exists checkout root ref relative =
    if relative == codes "." || is_empty relative
    then ok tt
    else elim (checkout.object_type root ref relative) [
      | none ↦ err directory_missing
      | some found ↦ guard (trim_space found == codes "tree") directory_missing
    ]

abbrev pub or_error {ℓ} : {A : Type ℓ} → QueueError → Option A → Result QueueError A
or_error e none = err e
or_error e (some a) = ok a

module _ {Repo : Type 0} (git : Git Repo) (host : Host) where
  unfoldable pub resolve_commit_sha : Repo → (root ref : Text) → Result QueueError Text
  resolve_commit_sha repo root ref = do
    found ← or_error ref_unavailable (git.rev_parse repo root ref)
    guard (is_checkout_sha (trim_space found)) ref_unavailable
    ok (to_lower (trim_space found))

  -- The request in a checkout at a commit; an empty ref stands for that commit.
  unfoldable pub checkout_request :
      Repo → Checkout → (sha requested : Text) → Result QueueError Request
  checkout_request repo checkout sha requested = do
    guard (is_empty requested || is_commit_ref requested) ref_not_commit
    (root, relative) ← or_error location_unknown host.location
    staged ← or_error staged_unknown checkout.staged
    ref ← if is_empty requested then ok sha else resolve_commit_sha repo root requested
    guard (is_empty staged || equal_fold staged ref) staged_mismatch
    recorded_directory_exists checkout root ref relative
    ok (record {
      ref = ref;
      submitted_ref = if is_empty requested then sha else requested;
      checkout_root = root;
      config_relative = relative;
    })

  unfoldable pub request : Repo → Checkout → Text → Result QueueError Request
  request repo checkout ref = elim checkout.sha [
    | some sha ↦ checkout_request repo checkout sha (trim_space ref)
    | none ↦
        if is_commit_ref (trim_space ref)
        then err checkout_unavailable
        else ok (record {
          ref = ref;
          submitted_ref = trim_space ref;
          checkout_root = [];
          config_relative = [];
        })
  ]

  unfoldable pub submit_context :
      World Repo
      → Checkout
      → Config
      → List Text
      → Text
      → Option Text
      → World Repo × Result QueueError (List Job)
  submit_context w checkout config names ref batch = elim (request w.repo checkout ref) [
    | err e ↦ (w, err e)
    | ok r ↦
        submit git host w config names r.ref r.submitted_ref r.checkout_root r.config_relative []
          batch
  ]
