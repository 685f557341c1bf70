-- ===== src/Tests/Runs.antt =====
-- Tests of what runs, of requests and of reading logs.
use bitci.Prelude.{◌≤◌, true, false, [], ◌∷◌, some, ◌≡◌, arith, refl, nat_eq, list_eq, length}
use bitci.Prelude.Text.{Text, codes}
use bitci.Prelude.Int.{pos, int_eq}
use bitci.Prelude.Result.{ok}
use bitci.Sha.{is_checkout_sha}
use bitci.Queue.{passed, Store}
use bitci.Queue.Table.{find, has_id}
use bitci.Queue.Invariant.{Inv}
use bitci.Queue.JobConfig.{job_config, snapshot_config}
use bitci.Queue.Reach.{run_all}
use bitci.Queue.Life.{Life, view, run_all-Life}
use bitci.Paths.Within.{IsContained, has_unsafe_checkout_command-IsContained}
use bitci.Log.{log_limit, redact_log_line}
use bitci.Log.Cursor.{LogCursorOutput, read_content, seek, read_lines, read_log_line, read_slice}
use bitci.Log.Fuel.{read_content-returns}
use bitci.Log.Reads.{read_content-Within}
use bitci.Work.Once.{run_job, run_once}
use bitci.Work.Passes.{Finished, run_job-Finished}
use bitci.Work.Caches.{Caches, listed, object_cache_name, prune_object_caches}
use bitci.Work.Caches.Keeps.{has_cache, cache_of, prune_object_caches-keeps}
use bitci.Work.Ends.{HasDone, run_once-HasDone}
use bitci.Prelude.Strings.{
  lower_byte, upper_byte, to_lower, to_upper, equal_fold, has_prefix, has_suffix, strip_prefix, cut,
  trim_left, trim_space, contains_text, fields,
}
use bitci.Guard.{
  base, interpreter_evaluator_option, all_version, any, is_interpreter, interpreter_command,
  script_operand, interpreter_script_operand, unsafe_env_option, unsafe_evaluator_command,
  path_has_parent_traversal, git_execution_environment, unsafe_git_environment,
}
use bitci.Guard.Git.{option_name, unsafe_git_arguments, unsafe_git_command}
use bitci.Guard.Environment.{
  clean_parts, join_parts, clean, contains_checkout_path, unsafe_assignment,
  unsafe_command_environment, put, put_all, inherited, task_values, task_environment,
  set_environment_value,
}
use bitci.Config.Order.{sort_strings, insert_name, text_leb}
use bitci.Paths.{
  path_parts, join_slash, join_path, path_of, without_last, dir, ancestors_of, ancestors, ups,
  relative_parts, rel, last_part,
}
use bitci.Paths.Compare.{
  first_some, path_within, resolve_from, resolved_path_for_comparison, decides_within,
  path_or_ancestor_within,
}
use bitci.Paths.Commands.{
  split_list, path_variable, trim_dashes, named_value, look_in, look_path, executable_at,
  is_checkout_executable, is_checkout_script, unsafe_place, unsafe_path, unsafe_with, unsafe_suffix,
  unsafe_path_operand, unsafe_entry, unsafe_task_path, unsafe_variable, unsafe_task_environment,
  unsafe_argument, unsafe_script, has_unsafe_checkout_command,
}
use bitci.Stage.Tree.{split}
use bitci.Tests.Sample.{build, task_of, config, config_valid, store, git, host, world, store_Inv}
use bitci.Tests.Jobs.{calls}
use bitci.Tests.Places.{files, places, roots, meets, commit_job}

configured : job_config config commit_job ≡ ok (config, task_of (build ∷ []) (codes "d" ∷ []))
unfolding job_config snapshot_config list_eq nat_eq
configured = refl

full : is_checkout_sha commit_job.ref ≡ true
unfolding is_checkout_sha nat_eq
full = refl

run_job-Finished_example :
    Finished [] places config host meets config
      (task_of (build ∷ []) (codes "d" ∷ []))
      (run_job [] places config host meets (λ path. true) commit_job store)
run_job-Finished_example =
    run_job-Finished [] places config host meets config (task_of (build ∷ []) (codes "d" ∷ []))
      (λ path. true) commit_job store configured full

run_once-HasDone_example :
    Inv config (run_once git [] places config host meets (λ path. true) world (pos 1)).world.store
    × HasDone git [] places config host meets
        (λ path. true)
        (run_once git [] places config host meets (λ path. true) world (pos 1))
run_once-HasDone_example =
    run_once-HasDone git [] places config host meets (λ path. true) config_valid world (pos 1)
      store_Inv

allowed :
    has_unsafe_checkout_command files []
      (codes "/c/bitci.json")
      roots
      []
      (codes "go" ∷ codes "a/b" ∷ [])
    ≡ false
unfolding list_eq nat_eq lower_byte upper_byte to_lower to_upper equal_fold has_prefix has_suffix
    strip_prefix cut trim_left trim_space contains_text fields base interpreter_evaluator_option
    all_version any is_interpreter interpreter_command script_operand interpreter_script_operand
    unsafe_env_option unsafe_evaluator_command path_has_parent_traversal git_execution_environment
    unsafe_git_environment option_name unsafe_git_arguments unsafe_git_command clean_parts
    join_parts clean contains_checkout_path unsafe_assignment unsafe_command_environment put put_all
    inherited task_values task_environment set_environment_value sort_strings insert_name text_leb
    path_parts join_slash join_path path_of without_last dir ancestors_of ancestors ups
    relative_parts rel last_part first_some path_within resolve_from resolved_path_for_comparison
    decides_within path_or_ancestor_within split_list path_variable trim_dashes named_value look_in
    look_path executable_at is_checkout_executable is_checkout_script unsafe_place unsafe_path
    unsafe_with unsafe_suffix unsafe_path_operand unsafe_entry unsafe_task_path unsafe_variable
    unsafe_task_environment unsafe_argument unsafe_script has_unsafe_checkout_command split
allowed = refl

has_unsafe_checkout_command-IsContained_example : IsContained files roots (codes "a/b")
unfolding has_prefix nat_eq cut
has_unsafe_checkout_command-IsContained_example =
    has_unsafe_checkout_command-IsContained files [] (codes "/c/bitci.json") roots []
      (codes "go" ∷ []) (codes "a/b") [] allowed refl refl refl refl

run_all-Life_example :
    Life (view world.store.jobs) (view (run_all git config world calls).store.jobs)
run_all-Life_example = run_all-Life git config config_valid world calls store_Inv

abbrev line : Text
line = codes "ab\ncd\n"

abbrev read_back : LogCursorOutput
read_back = record { lines = codes "cd" ∷ []; cursor = 6; state = passed }

read : read_content passed [] (pos 5) 3 line ≡ ok read_back
unfolding read_content seek read_lines log_limit nat_eq read_log_line read_slice redact_log_line
    strip_prefix
read = refl

read_content-Within_example :
    (length read_back.lines ≤ log_limit (pos 5))
    × (log_limit (pos 5) ≤ 80)
    × (3 ≤ read_back.cursor)
    × (read_back.cursor ≤ length line)
read_content-Within_example = read_content-Within passed [] (pos 5) 3 line read_back read

read_content-returns_example :
    (output : LogCursorOutput) × (read_content passed [] (pos 5) 3 line ≡ ok output)
read_content-returns_example = read_content-returns passed [] (pos 5) 3 line (omega arith)

-- Two caches, of which a waiting job needs the first, and the second is removed.
abbrev cache_store : Store
cache_store = record { jobs = commit_job ∷ []; leases = []; batch_refs = [] }

abbrev two_caches : Caches
two_caches =
    listed
      (record { name = codes "k"; is_dir = true } ∷ record { name = codes "o"; is_dir = true } ∷ [])

needed : find (has_id 2) cache_store.jobs ≡ some commit_job
unfolding find nat_eq
needed = refl

named :
    has_cache
      (cache_of files
        (λ s. codes "k")
        (λ root. some (codes "sha1"))
        (λ path. true)
        commit_job
        (codes "sha1"))
      two_caches
    ≡ true
unfolding object_cache_name list_eq nat_eq
named = refl

prune_object_caches-keeps_example :
    has_cache
      (cache_of files
        (λ s. codes "k")
        (λ root. some (codes "sha1"))
        (λ path. true)
        commit_job
        (codes "sha1"))
      (prune_object_caches files
        (λ s. codes "k")
        (λ root. some (codes "sha1"))
        (λ path. true)
        host
        cache_store
        two_caches).0
    ≡ true
prune_object_caches-keeps_example =
    prune_object_caches-keeps files (λ s. codes "k") (λ root. some (codes "sha1")) (λ path. true)
      host cache_store two_caches 2 commit_job (codes "sha1") needed refl refl full refl named
