-- ===== src/Stage/Queueing.antt =====
-- What a staged commit means for a later `SubmitContext` of internal/bitci/controller.go.
use bitci.Prelude.{
  ℕ, Bool, true, false, Option, none, some, [], ◌∷◌, ◌≡◌, refl, arith, nat_eq, list_eq, Bool-cases,
  Option-cases, inl, inr,
}
use mathlib.Core.Path.{subst}
use bitci.Prelude.Text.{Text}
use bitci.Prelude.Strings.{is_empty, to_lower, equal_fold, trim_space}
use bitci.Prelude.Result.{ok, err}
use bitci.Sha.{is_checkout_sha}
use bitci.Sha.Laws.{to_lower_idem}
use bitci.Queue.{Git, Host, QueueError}
use bitci.Queue.Request.{
  Request, checkout_request, request, resolve_commit_sha, recorded_directory_exists, or_error,
}
use bitci.Stage.{Site, Checkout, checkout_sha, staged_checkout_sha}
use bitci.Stage.Run.{stage_trusted_ref}
use bitci.Stage.After.{After}
use bitci.Stage.Trusted.{stage_trusted_ref-After}

-- What a submission reads of the checkout and of the staged commit.
unfoldable pub submitted_checkout :
    {Repo : Type 0}
    → Checkout Repo
    → (Text → Text → Text → Option Text)
    → Site Repo
    → bitci.Queue.Request.Checkout
submitted_checkout git types s = record {
  sha = checkout_sha git s.repo;
  staged = elim (staged_checkout_sha s.staged) [ ok sha ↦ some sha | err e ↦ none ];
  object_type = types;
}

sha-named : (sha : Text) → is_checkout_sha sha ≡ true → is_empty (to_lower sha) ≡ false
unfolding is_checkout_sha to_lower
sha-named [] h = absurd ground arith
sha-named (c ∷ s) h = refl

checkout_sha-named :
    {Repo : Type 0} (git : Checkout Repo) (repo : Repo) (sha : Text)
    → checkout_sha git repo ≡ some sha
    → is_empty (to_lower sha) ≡ false
unfolding checkout_sha
checkout_sha-named git repo sha h = elim (Option-cases (git.head repo)) [
  | inl lost ↦ absurd ground arith
  | inr (found, e) ↦ elim (Bool-cases (is_checkout_sha (trim_space found))) [
    | inl full ↦ ground (arith, sha-named (trim_space found) full)
    | inr cut ↦ absurd ground arith
  ]
]

module _ {Repo : Type 0} (git : Git Repo) (host : Host) where
  -- A request in a checkout with a staged commit is for that commit.
  checkout_request-staged :
      (repo : Repo) (c : bitci.Queue.Request.Checkout) (sha staged ref : Text) (r : Request)
      → c.staged ≡ some staged
      → is_empty staged ≡ false
      → checkout_request git host repo c sha ref ≡ ok r
      → equal_fold staged r.ref ≡ true
  unfolding checkout_request
  checkout_request-staged repo c sha staged ref r known full h = elim (Option-cases host.location) [
    | inl lost ↦ absurd ground arith
    | inr ((root, relative), found) ↦ ground arith
  ]

  request-in :
      (repo : Repo) (c : bitci.Queue.Request.Checkout) (sha ref : Text) (r : Request)
      → c.sha ≡ some sha
      → request git host repo c ref ≡ ok r
      → checkout_request git host repo c sha (trim_space ref) ≡ ok r
  unfolding request
  request-in repo c sha ref r known h = ground arith

  -- After a commit was staged, a request that is accepted, whatever ref it names, is for that commit.
  pub stage-request :
      (types : Text → Text → Text → Option Text) (checkout : Checkout Repo) (locked : Bool)
      (configured : Text) (n : ℕ) (source_ref stage_ref expected repository : Text)
      (s t : Site Repo) (sha ref : Text) (r : Request)
      → stage_trusted_ref checkout locked configured n source_ref stage_ref expected repository s
        ≡ (t, ok sha)
      → request git host t.repo (submitted_checkout checkout types t) ref ≡ ok r
      → equal_fold sha r.ref ≡ true
  unfolding submitted_checkout equal_fold
  stage-request types checkout locked configured n source_ref stage_ref expected repository s t sha
        ref r staged accepted =
      let reached = subst (After _ _) staged (
        stage_trusted_ref-After checkout locked configured n source_ref stage_ref expected
          repository s) in
      let known = reached.holds.0 in
      let lower : (submitted_checkout checkout types t).staged ≡ some (to_lower sha) =
        rw (submitted_checkout, known.staged) refl in
      let same =
        checkout_request-staged t.repo (submitted_checkout checkout types t) sha (to_lower sha)
          (trim_space ref) r lower (checkout_sha-named checkout t.repo sha known.head)
          (request-in t.repo (submitted_checkout checkout types t) sha ref r known.head accepted) in
      ground (arith, to_lower_idem sha)
