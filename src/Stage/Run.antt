-- ===== src/Stage/Run.antt =====
-- The calls of internal/bitci/stage.go, over the steps of the parent module.
use bitci.Prelude.{
  ℕ, Bool, not, ◌&&◌, ◌||◌, Option, none, some, List, [], ◌∷◌, ◌++◌, ◌==◌, if◌then◌else◌, nat_eq,
  list_eq,
}
use bitci.Prelude.Text.{Text, codes}
use bitci.Prelude.Strings.{
  is_empty, to_lower, equal_fold, has_prefix, trim_space, split_space, decimal,
}
use bitci.Prelude.Result.{Result, ok, err}
use bitci.Config.{Config}
use bitci.Sha.{is_checkout_sha}
use bitci.Stage.Tree.{clean_generated_next, clean_checkout, protect_state_from_target}
use bitci.Stage.{
  Site, Checkout, StageError, not_locked, active_jobs, no_origin, origin_changed, no_head,
  cleanup_failed, status_failed, not_clean, fetch_failed, fetched_mismatch, tree_unknown,
  tracked_state, checkout_failed, checked_out_mismatch, bad_config, restore_failed, bad_number,
  no_token, pull_unavailable, foreign_head, bad_branch, remote_unavailable, remote_ambiguous, Step,
  ◌>>=◌, ◌>>◌, done, require, ask, change, checkout_sha, github_repository, active_count,
  clear_staged, record_staged, set_config,
}

-- What a pull request's answer says of its head and its base.
pub record Pull : Type 0 where
  pub head_sha : Text
  pub head_repository : Text
  pub base_repository : Text

pub record StageResult : Type 0 where
  pub pull_request : ℕ
  pub ref : Text
  pub sha : Text

-- The two fields of a line of `ls-remote`.
unfoldable pub remote_fields : Text → List Text → Option Text
remote_fields source_ref (sha ∷ ref ∷ []) =
    if not (ref == source_ref) || not (is_checkout_sha sha) then none else some (to_lower sha)
remote_fields source_ref _ = none

-- Whether the fetched commit is a full identifier, and the expected one if one is given.
abbrev pub is_trusted : Text → Text → Bool
is_trusted fetched expected =
    is_checkout_sha fetched && (is_empty expected || equal_fold fetched expected)

module _ {Repo : Type 0} (git : Checkout Repo) where
  -- The steps before the checkout moves: the result is the commit to check out.
  unfoldable pub fetch_trusted :
      (source_ref stage_ref expected expected_repository : Text) → Step Repo Text
  fetch_trusted source_ref stage_ref expected expected_repository = do
    clear_staged
    change (λ r. clean_generated_next git.tree r (git.files r) git.places) cleanup_failed
    clean ← ask (λ r. clean_checkout git.tree r (git.files r) git.places) status_failed
    require clean not_clean
    change (λ r. git.fetch r source_ref stage_ref) fetch_failed
    found ← ask (λ r. git.rev_parse r stage_ref) fetched_mismatch
    let fetched = to_lower (trim_space found)
    require (is_trusted fetched expected) fetched_mismatch
    conflict ←
        ask (λ r. protect_state_from_target git.tree r (git.files r) git.places fetched)
          tree_unknown
    require (not conflict) tracked_state
    done fetched

  -- The steps after it has moved.
  unfoldable pub adopt : Text → ℕ → Text → Step Repo Text
  adopt source_ref number fetched = do
    sha ← ask (checkout_sha git) checked_out_mismatch
    require (equal_fold sha fetched) checked_out_mismatch
    config ← ask git.load_config bad_config
    set_config config
    record_staged source_ref number sha
    done sha

  -- The deferred restore of a call that failed after the checkout moved.
  unfoldable pub restore :
      Text → Config → List StageError → Site Repo → Site Repo × Result (List StageError) Text
  restore original config errors s = elim (git.detach s.repo original) [
    | none ↦ (record s { config = config }, err (errors ++ restore_failed ∷ []))
    | some r ↦ (record s { config = config; repo = r }, err errors)
  ]

  unfoldable pub or_restore :
      Text
      → Config
      → Site Repo × Result (List StageError) Text
      → Site Repo × Result (List StageError) Text
  or_restore original config (s, ok sha) = (s, ok sha)
  or_restore original config (s, err errors) = restore original config errors s

  unfoldable pub move_to : Text → ℕ → Text → Config → Text → Step Repo Text
  move_to source_ref number original config fetched s = elim (git.detach s.repo fetched) [
    | none ↦ (s, err (checkout_failed ∷ []))
    | some r ↦ or_restore original config (adopt source_ref number fetched (record s { repo = r }))
  ]

module _ {Repo : Type 0} (git : Checkout Repo) (locked : Bool) (configured : Text) where
  unfoldable pub stage_trusted_ref :
      ℕ → (source_ref stage_ref expected expected_repository : Text) → Step Repo Text
  stage_trusted_ref number source_ref stage_ref expected expected_repository s =
      (do
        require locked not_locked
        require (active_count s.store == 0) active_jobs
        repository ← ask (github_repository git configured) no_origin
        require (is_empty expected_repository || repository == expected_repository) origin_changed
        original ← ask (checkout_sha git) no_head
        fetched ← fetch_trusted git source_ref stage_ref expected expected_repository
        move_to git source_ref number original s.config fetched)
        s

  unfoldable pub stage_main : Step Repo StageResult
  stage_main = do
    sha ← stage_trusted_ref 0 (codes "refs/heads/main") (codes "refs/bitci/staged/main") [] []
    done (record { pull_request = 0; ref = codes "main"; sha = sha })

  unfoldable pub stage_branch : Text → Step Repo StageResult
  stage_branch branch = do
    require
        (not (
          is_empty branch
          || not (trim_space branch == branch)
          || has_prefix branch (codes "refs/")))
        bad_branch
    let source_ref = codes "refs/heads/" ++ branch
    require (git.valid_ref source_ref) bad_branch
    repository ← ask (github_repository git configured) no_origin
    output ← ask (λ r. git.ls_remote r source_ref) remote_unavailable
    sha ← ask (λ r. remote_fields source_ref (split_space (trim_space output))) remote_ambiguous
    staged ← stage_trusted_ref 0 source_ref (codes "refs/bitci/staged/branch") sha repository
    done (record { pull_request = 0; ref = branch; sha = sha })

  -- `pull` is the answer of GitHub to a request with the token.
  unfoldable pub stage_pr : (Text → ℕ → Option Pull) → ℕ → Text → Step Repo StageResult
  stage_pr pull number token = do
    require (not (number == 0)) bad_number
    require (not (is_empty token)) no_token
    repository ← ask (github_repository git configured) no_origin
    found ← ask (λ r. pull repository number) pull_unavailable
    require
        (found.head_repository == repository
          && found.base_repository == repository
          && is_checkout_sha found.head_sha)
        foreign_head
    sha ←
        stage_trusted_ref number (codes "refs/pull/" ++ decimal number ++ codes "/head")
          (codes "refs/bitci/staged/" ++ decimal number) found.head_sha repository
    done (record { pull_request = number; ref = []; sha = sha })
