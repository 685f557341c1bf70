-- ===== src/Guard/Git.antt =====
-- `unsafeGitCommand` of internal/bitci/controller.go: which Git commands a job may name.
use bitci.Prelude.{
  Bool, true, false, not, ◌&&◌, ◌||◌, none, some, List, [], ◌∷◌, contains, if◌then◌else◌, nat_eq,
  list_eq,
}
use bitci.Prelude.Text.{Text, codes}
use bitci.Prelude.Strings.{equal_fold, has_prefix, cut}
use bitci.Guard.{base}

abbrev pub read_only : List Text
read_only =
    codes "annotate"
    ∷ codes "blame"
    ∷ codes "cat-file"
    ∷ codes "check-attr"
    ∷ codes "check-ignore"
    ∷ codes "check-mailmap"
    ∷ codes "check-ref-format"
    ∷ codes "count-objects"
    ∷ codes "describe"
    ∷ codes "diff"
    ∷ codes "diff-files"
    ∷ codes "diff-index"
    ∷ codes "diff-tree"
    ∷ codes "for-each-ref"
    ∷ codes "grep"
    ∷ codes "log"
    ∷ codes "ls-files"
    ∷ codes "ls-remote"
    ∷ codes "ls-tree"
    ∷ codes "merge-base"
    ∷ codes "name-rev"
    ∷ codes "rev-list"
    ∷ codes "rev-parse"
    ∷ codes "show"
    ∷ codes "show-ref"
    ∷ codes "status"
    ∷ codes "verify-commit"
    ∷ codes "verify-pack"
    ∷ codes "verify-tag"
    ∷ codes "version"
    ∷ codes "whatchanged"
    ∷ []

abbrev pub safe_global : List Text
safe_global =
    codes "--glob-pathspecs"
    ∷ codes "--help"
    ∷ codes "--icase-pathspecs"
    ∷ codes "--literal-pathspecs"
    ∷ codes "--no-optional-locks"
    ∷ codes "--no-pager"
    ∷ codes "--noglob-pathspecs"
    ∷ codes "--version"
    ∷ codes "-P"
    ∷ []

abbrev pub unsafe_options : List Text
unsafe_options =
    codes "--ext-diff"
    ∷ codes "--filters"
    ∷ codes "--open-files-in-pager"
    ∷ codes "--output"
    ∷ codes "--receive-pack"
    ∷ codes "--textconv"
    ∷ codes "--upload-pack"
    ∷ []

abbrev pub is_option : Text → Bool
is_option a = has_prefix a (codes "-")

-- The part of an option in front of the first `=`.
unfoldable pub option_name : Text → Text
option_name a = elim (cut b'=' a) [ none ↦ a | some (before, after) ↦ before ]

-- The arguments behind `git`; the first argument says whether the subcommand was met.
unfoldable pub unsafe_git_arguments : Bool → List Text → Bool
unsafe_git_arguments found [] = false
unsafe_git_arguments false (a ∷ args) =
    let options = unsafe_git_arguments false args in
    let rest = unsafe_git_arguments true args in
    if is_option a
    then not (contains safe_global (option_name a)) || options
    else not (contains read_only a) || rest
unsafe_git_arguments true (a ∷ args) =
    let rest = unsafe_git_arguments true args in
    (is_option a && contains unsafe_options (option_name a)) || rest

unfoldable pub unsafe_git_command : List Text → Bool
unsafe_git_command [] = false
unsafe_git_command (value ∷ args) =
    (equal_fold (base value) (codes "git") && unsafe_git_arguments false args)
    || unsafe_git_command args
