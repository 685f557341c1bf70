-- ===== src/Tests/Staging.antt =====
-- Tests of staging and of requests.
use bitci.Prelude.{ℕ, true, false, none, some, List, [], ◌∷◌, ◌≡◌, refl, nat_eq, list_eq}
use bitci.Prelude.Text.{codes}
use bitci.Prelude.Int.{pos}
use bitci.Prelude.Result.{ok}
use bitci.Queue.{State}
use bitci.Queue.Invariant.{Inv}
use bitci.Queue.Reach.{claims, cancels, run_all, HasEnded}
use bitci.Queue.Request.{Request, request, checkout_request, recorded_directory_exists}
use bitci.Stage.After.{After}
use bitci.Stage.Trusted.{IsStaged, IsLeft, stage_trusted_ref-After}
use bitci.Stage.Queueing.{submitted_checkout, stage-request}
use bitci.Log.{absent}
use bitci.Rpc.{Decoder, Surroundings, Event, works, serves, run_events}
use bitci.Rpc.Serve.{run_events-run_all, run_events-safe, asked, call_of}
use bitci.Prelude.Strings.{
  equal_fold, lower_byte, to_lower, has_prefix, trim_left, trim_space, fields,
}
use bitci.Guard.{any}
use bitci.Guard.Environment.{clean_parts, join_parts, clean}
use bitci.Paths.{
  path_parts, join_slash, join_path, path_of, without_last, dir, ancestors_of, ancestors, ups,
  relative_parts, rel, last_part,
}
use bitci.Paths.Compare.{
  take_bytes, drop_bytes, first_some, path_within, resolve_from, resolved_path_for_comparison,
  paths_overlap, relative_within, decides_within, path_or_ancestor_within,
}
use bitci.Paths.Links.{
  relative_behind, relative_from, relative_lexically_within, is_lexical_root, lexical_checkout_root,
}
use bitci.Paths.State.{
  resolved_inside_is_plain, below_lexical_root_is_plain, lexically_inside_is_plain, git_directory,
  checkout_state_path,
}
use bitci.Stage.Tree.{clean_generated_next, clean_checkout, protect_state_from_target}
use bitci.Stage.{
  Site, ◌>>=◌, done, require, ask, change, checkout_sha, github_repository, staged_checkout_sha,
  active_count, clear_staged, record_staged, set_config,
}
use bitci.Stage.Run.{fetch_trusted, adopt, or_restore, move_to, stage_trusted_ref}
use bitci.Sha.{is_hex, all_hex, is_checkout_sha, is_commit_ref}
use bitci.Queue.Table.{count}
use bitci.Tests.Sample.{config, config_valid, git, host, world, store_Inv}
use bitci.Tests.Places.{sha, checkout, idle, placed_host}

stage_trusted_ref-After_example :
    After
      (λ t staged. IsStaged checkout idle t sha staged × (true ≡ true))
      (IsLeft idle)
      (stage_trusted_ref checkout true
        (codes "o/r")
        0
        (codes "refs/heads/m")
        (codes "refs/s")
        sha
        (codes "o/r")
        idle)
stage_trusted_ref-After_example =
    stage_trusted_ref-After checkout true (codes "o/r") 0 (codes "refs/heads/m") (codes "refs/s")
      sha (codes "o/r") idle

abbrev after_staging : Site (Unit {0})
after_staging = record idle {
  staged = some (record { pull_request = 0; source_ref = codes "refs/heads/m"; sha = sha });
}

staged :
    stage_trusted_ref checkout true
      (codes "o/r")
      0
      (codes "refs/heads/m")
      (codes "refs/s")
      sha
      (codes "o/r")
      idle
    ≡ (after_staging, ok sha)
unfolding list_eq nat_eq lower_byte to_lower has_prefix trim_left trim_space fields any clean_parts
    join_parts clean path_parts join_slash join_path path_of without_last dir ancestors_of ancestors
    ups relative_parts rel last_part take_bytes drop_bytes first_some path_within resolve_from
    resolved_path_for_comparison paths_overlap relative_within decides_within
    path_or_ancestor_within relative_behind relative_from relative_lexically_within is_lexical_root
    lexical_checkout_root resolved_inside_is_plain below_lexical_root_is_plain
    lexically_inside_is_plain git_directory checkout_state_path clean_generated_next clean_checkout
    protect_state_from_target ◌>>=◌ done require ask change checkout_sha github_repository
    staged_checkout_sha active_count clear_staged record_staged set_config fetch_trusted adopt
    or_restore move_to stage_trusted_ref is_hex all_hex is_checkout_sha is_commit_ref count
    equal_fold
staged = refl

abbrev for_staged : Request
for_staged = record {
  ref = sha;
  submitted_ref = sha;
  checkout_root = codes "/c";
  config_relative = codes ".";
}

requested :
    request git placed_host tt
      (submitted_checkout checkout (λ root ref path. none) after_staging)
      []
    ≡ ok for_staged
unfolding request submitted_checkout checkout_sha is_checkout_sha nat_eq trim_space checkout_request
    staged_checkout_sha to_lower equal_fold list_eq recorded_directory_exists
requested = refl

stage-request_example : equal_fold sha for_staged.ref ≡ true
stage-request_example =
    stage-request git placed_host (λ root ref path. none) checkout true (codes "o/r") 0
      (codes "refs/heads/m") (codes "refs/s") sha (codes "o/r") idle after_staging sha [] for_staged
      staged requested

-- Requests that carry no parameters, apart from a job's number.
abbrev decoder : Decoder ℕ
decoder = record {
  plan = λ raw. none;
  job = λ raw. some raw;
  log = λ raw. none;
  cursor = λ raw. none;
  submit = λ raw. none;
}

abbrev around : Surroundings
around = record {
  host = host;
  checkout = record { sha = none; staged = none; object_type = λ root ref path. none };
  batch = some (codes "y");
  files = λ path. absent;
  exists = λ root ref path. false;
  processes = record { alive = λ pid. none; terminated = λ id. false; removed = λ id. false };
}

abbrev events : List (Event ℕ)
events =
    serves around (record { method = codes "cancel"; params = 2 })
    ∷ works host (claims (pos 1))
    ∷ serves around (record { method = codes "status"; params = 0 })
    ∷ []

run_events-run_all_example :
    run_events git decoder (λ pattern path. false) config world events
    ≡ run_all git config world (asked git decoder (λ pattern path. false) config world events)
run_events-run_all_example =
    run_events-run_all git decoder (λ pattern path. false) config world events

-- The events stand for a cancellation and a claim.
asked_calls :
    asked git decoder (λ pattern path. false) config world events
    ≡ (host, cancels 2) ∷ (host, claims (pos 1)) ∷ []
unfolding asked call_of list_eq nat_eq run_all
asked_calls = refl

run_events-safe_example :
    Inv config (run_events git decoder (λ pattern path. false) config world events).store
    × ((id : ℕ) (state : State)
        → HasEnded world.store id state
        → HasEnded
            (run_events git decoder (λ pattern path. false) config world events).store
            id
            state)
run_events-safe_example =
    run_events-safe git decoder (λ pattern path. false) config config_valid world events store_Inv
