-- ===== src/Stage.antt =====
-- Staging a commit for testing: `StagePR`, `StageMain`, `StageBranch` and `stageTrustedRef` of
-- internal/bitci/stage.go. A call threads the site (the tables, the staged commit, the controller's
-- configuration and the checkout) through its steps, and stops at the first error.
pub mod After
pub mod Tree
pub mod Run
pub mod Trusted
pub mod Queueing
use bitci.Prelude.{
  ℕ, zero, suc, Bool, true, false, not, ◌&&◌, ◌||◌, Option, none, some, List, [], ◌∷◌, ◌++◌, ◌==◌,
  if◌then◌else◌, ltb, nat_eq, list_eq,
}
use bitci.Prelude.Text.{Text, codes}
use bitci.Prelude.Strings.{
  is_empty, to_lower, equal_fold, has_prefix, strip_prefix, trim_space, trim_suffix, split_space,
  count_byte,
}
use bitci.Prelude.Result.{Result, ok, err}
use bitci.Config.{Config}
use bitci.Sha.{is_checkout_sha}
use bitci.Queue.{Job, Store}
use bitci.Paths.{Files}
use bitci.Paths.State.{Places}
use bitci.Stage.Tree.{TreeGit}
use bitci.Queue.Table.{count, is_active}

-- The row of the table staged_checkouts.
pub record StagedCheckout : Type 0 where
  pub pull_request : ℕ
  pub source_ref : Text
  pub sha : Text

pub record Site (Repo : Type 0) : Type 0 where
  pub store : Store
  pub staged : Option StagedCheckout
  pub config : Config
  pub repo : Repo

-- Git in the dedicated checkout, the files around it, and the controller's own paths; `none` is a
-- command that fails. `load_config` reads the configuration file of the checked out commit.
pub record Checkout (Repo : Type 0) : Type 0 where
  pub head : Repo → Option Text
  pub origin : Repo → Option Text
  pub fetch : Repo → (source target : Text) → Option Repo
  pub rev_parse : Repo → (name : Text) → Option Text
  pub detach : Repo → (sha : Text) → Option Repo
  pub ls_remote : Repo → (ref : Text) → Option Text
  pub valid_ref : (ref : Text) → Bool
  pub tree : TreeGit Repo
  pub files : Repo → Files
  pub places : Places
  pub load_config : Repo → Option Config

pub data StageError : Type 0 where
  not_locked active_jobs no_origin origin_changed no_head cleanup_failed status_failed : StageError
  not_clean fetch_failed fetched_mismatch tree_unknown tracked_state checkout_failed : StageError
  checked_out_mismatch bad_config restore_failed invalid_record : StageError
  bad_number no_token pull_unavailable foreign_head bad_branch remote_unavailable : StageError
  remote_ambiguous staged_invalid : StageError

-- A step of a call; the errors of a call are a list, as `errors.Join` makes it.
abbrev pub Step : Type 0 → Type 0 → Type 0
Step Repo A = Site Repo → Site Repo × Result (List StageError) A

infixl 5 ◌>>=◌ ◌>>◌
unfoldable pub ◌>>=◌ : {Repo A B : Type 0} → Step Repo A → (A → Step Repo B) → Step Repo B
◌>>=◌ m f s = let (after, r) = m s in elim r [ err e ↦ (after, err e) | ok a ↦ f a after ]

abbrev pub ◌>>◌ : {Repo B : Type 0} → Step Repo (Unit {0}) → Step Repo B → Step Repo B
m >> k = m >>= λ _. k

unfoldable pub done : {Repo A : Type 0} → A → Step Repo A
done a s = (s, ok a)

unfoldable pub require : {Repo : Type 0} → Bool → StageError → Step Repo (Unit {0})
require true e s = (s, ok tt)
require false e s = (s, err (e ∷ []))

-- Reads the repository, and changes it.
unfoldable pub ask : {Repo A : Type 0} → (Repo → Option A) → StageError → Step Repo A
ask f e s = elim (f s.repo) [ none ↦ (s, err (e ∷ [])) | some a ↦ (s, ok a) ]

unfoldable pub change : {Repo : Type 0} → (Repo → Option Repo) → StageError → Step Repo (Unit {0})
change f e s = elim (f s.repo) [
  | none ↦ (s, err (e ∷ []))
  | some r ↦ (record s { repo = r }, ok tt)
]

-- `checkoutSHA`.
unfoldable pub checkout_sha : {Repo : Type 0} → Checkout Repo → Repo → Option Text
checkout_sha git repo = elim (git.head repo) [
  | none ↦ none
  | some found ↦ if is_checkout_sha (trim_space found) then some (trim_space found) else none
]

-- The rest of a GitHub address behind the first prefix that fits with one slash left.
unfoldable pub cut_repository : List Text → Text → Option Text
cut_repository [] value = none
cut_repository (prefix ∷ prefixes) value =
    let rest = cut_repository prefixes value in
    elim (strip_prefix value prefix) [
      | none ↦ rest
      | some repository ↦ if count_byte b'/' repository == 1 then some repository else rest
    ]

abbrev pub github_prefixes : List Text
github_prefixes =
    codes "https://github.com/" ∷ codes "git@github.com:" ∷ codes "ssh://git@github.com/" ∷ []

-- `configured` is the repository that the controller was given, empty if none.
unfoldable pub github_repository : {Repo : Type 0} → Checkout Repo → Text → Repo → Option Text
github_repository git configured repo =
    if not (is_empty configured) then some configured else elim (git.origin repo) [
      | none ↦ none
      | some remote ↦
          cut_repository github_prefixes (trim_suffix (trim_space remote) (codes ".git"))
    ]

-- `stagedCheckoutSHA`: empty if nothing is staged.
unfoldable pub staged_checkout_sha : Option StagedCheckout → Result StageError Text
staged_checkout_sha none = ok []
staged_checkout_sha (some row) =
    if is_checkout_sha row.sha then ok (to_lower row.sha) else err staged_invalid

unfoldable pub active_count : Store → ℕ
active_count store = count (λ job. is_active job.state) store.jobs

unfoldable pub clear_staged : {Repo : Type 0} → Step Repo (Unit {0})
clear_staged s = (record s { staged = none }, ok tt)

unfoldable pub record_staged : {Repo : Type 0} → Text → ℕ → Text → Step Repo (Unit {0})
record_staged source_ref number sha s =
    if not (is_checkout_sha sha) || is_empty source_ref then (s, err (invalid_record ∷ [])) else (
      record s {
        staged =
            some (record { pull_request = number; source_ref = source_ref; sha = to_lower sha });
      },
      ok tt,
    )

unfoldable pub set_config : {Repo : Type 0} → Config → Step Repo (Unit {0})
set_config config s = (record s { config = config }, ok tt)
