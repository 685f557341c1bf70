-- ===== src/Guard.antt =====
-- The checks of internal/bitci/controller.go on the arguments and variables of a job that runs a
-- recorded commit: what could make it run code, or reach files, outside the job's worktree. Texts
-- are bytes, paths are those of Unix.
pub mod Git
pub mod Environment
pub mod Laws
use bitci.Prelude.{
  ℕ, zero, suc, Bool, true, false, not, ◌&&◌, ◌||◌, Option, none, some, List, [], ◌∷◌, ◌++◌, ◌==◌,
  contains, if◌then◌else◌, leb, ltb, nat_eq, list_eq, length, map,
}
use bitci.Prelude.Text.{Text, codes}
use bitci.Prelude.Strings.{
  is_empty, to_lower, to_upper, equal_fold, has_prefix, strip_prefix, cut, contains_text, fields,
}

abbrev is_slash : ℕ → Bool
is_slash c = c == b'/'

abbrev last_of : List Text → Text
last_of [] = codes "/"
last_of (p ∷ []) = p
last_of (p ∷ ps) = last_of ps

-- `filepath.Base` and `filepath.IsAbs`.
unfoldable pub base : Text → Text
base path = if is_empty path then codes "." else last_of (fields is_slash [] path)

abbrev pub is_abs : Text → Bool
is_abs path = has_prefix path (codes "/")

unfoldable pub interpreter_evaluator_option : Text → Bool
interpreter_evaluator_option argument =
    argument == codes "-c"
    || argument == codes "-e"
    || argument == codes "--command"
    || argument == codes "--eval"
    || (has_prefix argument (codes "-c") && ltb 2 (length argument))
    || (has_prefix argument (codes "-e") && ltb 2 (length argument))
    || has_prefix argument (codes "--command=")
    || has_prefix argument (codes "--eval=")

abbrev interpreters : List Text
interpreters =
    codes "ash"
    ∷ codes "bash"
    ∷ codes "dash"
    ∷ codes "fish"
    ∷ codes "ksh"
    ∷ codes "node"
    ∷ codes "nodejs"
    ∷ codes "perl"
    ∷ codes "php"
    ∷ codes "python"
    ∷ codes "ruby"
    ∷ codes "sh"
    ∷ codes "zsh"
    ∷ []

-- A digit or a dot.
abbrev is_version_byte : ℕ → Bool
is_version_byte c = c == b'.' || (leb b'0' c && leb c b'9')

unfoldable pub all_version : Text → Bool
all_version [] = true
all_version (c ∷ s) = is_version_byte c && all_version s

-- The name itself, or the name and a version behind it.
abbrev pub names_interpreter : Text → Text → Bool
names_interpreter name interpreter = elim (strip_prefix name interpreter) [
  | none ↦ false
  | some suffix ↦ all_version suffix
]

unfoldable pub any : (Text → Bool) → List Text → Bool
any p [] = false
any p (x ∷ xs) = p x || any p xs

unfoldable pub is_interpreter : Text → Bool
is_interpreter command = any (names_interpreter (to_lower (base command))) interpreters

unfoldable pub interpreter_command : List Text → Bool
interpreter_command [] = false
interpreter_command (c ∷ []) = false
interpreter_command (c ∷ d ∷ args) =
    is_interpreter c || (equal_fold (base c) (codes "busybox") && is_interpreter d)

-- The first operand, unless an option in front of it evaluates text.
unfoldable pub script_operand : List Text → Option Text
script_operand [] = none
script_operand (a ∷ args) =
    let rest = script_operand args in
    if interpreter_evaluator_option a
    then none
    else if a == codes "--" || has_prefix a (codes "-")
    then rest
    else some a

abbrev drop_one : List Text → List Text
drop_one [] = []
drop_one (x ∷ xs) = xs

unfoldable pub interpreter_script_operand : List Text → Option Text
interpreter_script_operand [] = none
interpreter_script_operand (c ∷ args) =
    if not (interpreter_command (c ∷ args))
    then none
    else if equal_fold (base c) (codes "busybox")
    then script_operand (drop_one args)
    else script_operand args

abbrev pub is_env : Text → Bool
is_env value = equal_fold (base value) (codes "env")

unfoldable pub unsafe_env_option : Text → Bool
unsafe_env_option a =
    a == codes "-S"
    || a == codes "--split-string"
    || a == codes "-C"
    || a == codes "--chdir"
    || has_prefix a (codes "-C")
    || has_prefix a (codes "--chdir=")

unfoldable pub unsafe_evaluator_command : List Text → Bool
unsafe_evaluator_command [] = false
unsafe_evaluator_command (value ∷ args) =
    (is_env value && any unsafe_env_option args)
    || (is_interpreter value && any interpreter_evaluator_option args)
    || unsafe_evaluator_command args

unfoldable pub path_has_parent_traversal : Text → Bool
path_has_parent_traversal path =
    any (λ part. part == codes "..") (fields (λ c. is_slash c || c == 92) [] path)

unfoldable pub git_execution_environment : Text → Bool
git_execution_environment name =
    contains
      (codes "GIT_ASKPASS"
        ∷ codes "GIT_CONFIG_COUNT"
        ∷ codes "GIT_CONFIG_PARAMETERS"
        ∷ codes "GIT_EDITOR"
        ∷ codes "GIT_EXTERNAL_DIFF"
        ∷ codes "GIT_PAGER"
        ∷ codes "GIT_PROXY_COMMAND"
        ∷ codes "GIT_SEQUENCE_EDITOR"
        ∷ codes "GIT_SSH"
        ∷ codes "GIT_SSH_COMMAND"
        ∷ [])
      name
    || has_prefix name (codes "GIT_CONFIG_KEY_")
    || has_prefix name (codes "GIT_CONFIG_VALUE_")

abbrev git_path_variables : List Text
git_path_variables =
    codes "GIT_ALTERNATE_OBJECT_DIRECTORIES"
    ∷ codes "GIT_CEILING_DIRECTORIES"
    ∷ codes "GIT_COMMON_DIR"
    ∷ codes "GIT_CONFIG_GLOBAL"
    ∷ codes "GIT_CONFIG_SYSTEM"
    ∷ codes "GIT_DIR"
    ∷ codes "GIT_INDEX_FILE"
    ∷ codes "GIT_OBJECT_DIRECTORY"
    ∷ codes "GIT_WORK_TREE"
    ∷ []

unfoldable pub unsafe_git_environment : Text → Text → Bool
unsafe_git_environment name value =
    if not (has_prefix name (codes "GIT_"))
    then false
    else contains git_path_variables name
      || git_execution_environment name
      || is_abs value
      || contains value b'/'
      || contains value 92
      || path_has_parent_traversal value
