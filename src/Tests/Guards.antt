-- ===== src/Tests/Guards.antt =====
-- Tests of the guards and of reading logs.
use bitci.Prelude.{
  ◌-◌, ◌≤◌, true, false, none, some, List, [], ◌∷◌, ◌++◌, ◌≡◌, refl, ◌==◌, contains, nat_eq,
  list_eq, length,
}
use bitci.Prelude.Text.{Text, codes}
use bitci.Prelude.Int.{pos}
use bitci.Prelude.Strings.{
  equal_fold, to_upper, fields, has_prefix, cut, to_lower, upper_byte, lower_byte, contains_text,
}
use bitci.Prelude.Dict.{lookup}
use bitci.Guard.{base, git_execution_environment}
use bitci.Guard.Git.{read_only, unsafe_git_command, unsafe_git_arguments, option_name, is_option}
use bitci.Guard.Environment.{task_values}
use bitci.Guard.Laws.{AllSafe, NoneUnsafe, unsafe_git_command-Safe, task_values-lookup}
use bitci.Log.{log_limit, keep_lines}
use bitci.Log.Bounds.{drop, wanted, keep_lines-last}

abbrev options : List Text
options = codes "--no-pager" ∷ []

abbrev arguments : List Text
arguments = codes "--stat" ∷ []

passes :
    unsafe_git_command (codes "env" ∷ codes "git" ∷ (options ++ codes "log" ∷ arguments)) ≡ false
unfolding unsafe_git_command unsafe_git_arguments option_name base equal_fold to_lower lower_byte
    fields has_prefix cut nat_eq list_eq
passes = refl

names_git : equal_fold (base (codes "git")) (codes "git") ≡ true
unfolding equal_fold base fields to_lower lower_byte nat_eq list_eq
names_git = refl

option_dash : is_option (codes "--no-pager") ≡ true
unfolding has_prefix nat_eq
option_dash = refl

log_plain : is_option (codes "log") ≡ false
unfolding has_prefix nat_eq
log_plain = refl

unsafe_git_command-Safe_example :
    AllSafe options × (contains read_only (codes "log") ≡ true) × NoneUnsafe arguments
unsafe_git_command-Safe_example =
    unsafe_git_command-Safe (codes "env" ∷ []) (codes "git") options (codes "log") arguments passes
      names_git (option_dash, tt) log_plain

pager_runs : git_execution_environment (to_upper (codes "GIT_PAGER")) ≡ true
unfolding git_execution_environment to_upper upper_byte has_prefix nat_eq list_eq
pager_runs = refl

pager_other : (codes "GIT_PAGER" == codes "PWD") ≡ false
unfolding nat_eq list_eq
pager_other = refl

pager_old : (codes "GIT_PAGER" == codes "OLDPWD") ≡ false
unfolding nat_eq list_eq
pager_old = refl

abbrev environ : List Text
environ = codes "GIT_PAGER=sh" ∷ codes "PWD=/" ∷ []

task_values-lookup_example :
    (lookup (codes "PWD") (task_values environ [] (codes "/w")) ≡ some (codes "/w"))
    × (lookup (codes "OLDPWD") (task_values environ [] (codes "/w")) ≡ some (codes "/w"))
    × (lookup (codes "GIT_PAGER") (task_values environ [] (codes "/w")) ≡ none)
task_values-lookup_example =
    task_values-lookup environ [] (codes "/w") (codes "GIT_PAGER") pager_runs refl pager_other
      pager_old

abbrev lines : List Text
lines = codes "one" ∷ codes "two" ∷ codes "three" ∷ []

keep_lines-last_example :
    (keep_lines (log_limit (pos 2)) (λ line. contains_text line (codes "t")) [] [] lines
      ≡ drop
          (length (wanted (λ line. contains_text line (codes "t")) [] lines) - log_limit (pos 2))
          (wanted (λ line. contains_text line (codes "t")) [] lines))
    × (1 ≤ log_limit (pos 2))
    × (log_limit (pos 2) ≤ 80)
keep_lines-last_example = keep_lines-last (pos 2) (λ line. contains_text line (codes "t")) [] lines
