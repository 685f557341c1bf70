-- ===== src/Guard/Laws.antt =====
-- What the guards of internal/bitci/controller.go let pass.
use bitci.Prelude.{
  true, false, ◌&&◌, none, some, List, [], ◌∷◌, ◌++◌, ◌≡◌, refl, arith, ◌==◌, contains,
  if◌then◌else◌, nat_eq, list_eq, Bool-cases, Option-cases, inl, inr, ◌∙◌,
}
use bitci.Prelude.Text.{Text, codes}
use bitci.Prelude.Strings.{equal_fold, to_upper, cut}
use bitci.Prelude.Dict.{Dict, lookup, keys}
use bitci.Guard.{base, git_execution_environment}
use bitci.Guard.Git.{
  read_only, safe_global, unsafe_options, is_option, option_name, unsafe_git_arguments,
  unsafe_git_command,
}
use bitci.Guard.Environment.{put, put_all, inherited, task_values}

-- Every option of the list is in `safe_global`.
abbrev pub AllSafe : List Text → Type 0
AllSafe [] = Unit {0}
AllSafe (o ∷ os) = (is_option o ≡ true) × (contains safe_global (option_name o) ≡ true) × AllSafe os

abbrev pub AllOptions : List Text → Type 0
AllOptions [] = Unit {0}
AllOptions (o ∷ os) = (is_option o ≡ true) × AllOptions os

-- No option of the list is in `unsafe_options`.
abbrev pub NoneUnsafe : List Text → Type 0
NoneUnsafe [] = Unit {0}
NoneUnsafe (a ∷ args) =
    ((is_option a && contains unsafe_options (option_name a)) ≡ false) × NoneUnsafe args

arguments-NoneUnsafe : (args : List Text) → unsafe_git_arguments true args ≡ false → NoneUnsafe args
unfolding unsafe_git_arguments
arguments-NoneUnsafe [] h = tt
arguments-NoneUnsafe (a ∷ args) h = (ground arith, arguments-NoneUnsafe args (ground arith))

arguments-Safe :
    (options : List Text) (subcommand : Text) (rest : List Text)
    → AllOptions options
    → is_option subcommand ≡ false
    → unsafe_git_arguments false (options ++ subcommand ∷ rest) ≡ false
    → AllSafe options × (contains read_only subcommand ≡ true) × NoneUnsafe rest
unfolding unsafe_git_arguments
arguments-Safe [] subcommand rest a s h =
    (tt, ground arith, arguments-NoneUnsafe rest (ground arith))
arguments-Safe (o ∷ os) subcommand rest a s h =
    let (safe, reads, none_unsafe) =
      arguments-Safe os subcommand rest a.1 s (ground (arith, a.0)) in
    ((a.0, ground (arith, a.0), safe), reads, none_unsafe)

command-suffix :
    (front : List Text) (git : Text) (args : List Text)
    → unsafe_git_command (front ++ git ∷ args) ≡ false
    → equal_fold (base git) (codes "git") ≡ true
    → unsafe_git_arguments false args ≡ false
unfolding unsafe_git_command
command-suffix [] git args h g = ground arith
command-suffix (f ∷ front) git args h g = command-suffix front git args (ground arith) g

-- A command line that `unsafe_git_command` lets pass, and that names Git at any place, with options,
-- a subcommand and further arguments behind it, has only options of the safe list in front of the
-- subcommand, a subcommand of the read-only list, and no option of the unsafe list behind it.
pub unsafe_git_command-Safe :
    (front : List Text) (git : Text) (options : List Text) (subcommand : Text) (rest : List Text)
    → unsafe_git_command (front ++ git ∷ (options ++ subcommand ∷ rest)) ≡ false
    → equal_fold (base git) (codes "git") ≡ true
    → AllOptions options
    → is_option subcommand ≡ false
    → AllSafe options × (contains read_only subcommand ≡ true) × NoneUnsafe rest
unsafe_git_command-Safe front git options subcommand rest h g a s =
    arguments-Safe options subcommand rest a s
      (command-suffix front git (options ++ subcommand ∷ rest) h g)

lookup-put :
    (k name value : Text) (d : Dict Text Text)
    → lookup k (put name value d) ≡ (if k == name then some value else lookup k d)
unfolding put
lookup-put k name value [] = refl
lookup-put k name value ((n, v) ∷ d) = ground (arith, lookup-put k name value d)

inherited-lookup :
    (items : List Text) (values : Dict Text Text) (k : Text)
    → git_execution_environment (to_upper k) ≡ true
    → lookup k (inherited items values) ≡ lookup k values
unfolding inherited
inherited-lookup [] values k g = refl
inherited-lookup (item ∷ items) values k g = elim (Option-cases (cut b'=' item)) [
  | inl plain ↦ rw (inherited, plain) (inherited-lookup items values k g)
  | inr ((name, value), split) ↦ elim (Bool-cases (git_execution_environment (to_upper name))) [
    | inl drops ↦ rw (inherited, split, drops) (inherited-lookup items values k g)
    | inr takes ↦
        rw (inherited, split, takes)
          (elim (list_eq.dec k name) [
            | yes p ↦ absurd (ground (arith, rw p at g))
            | no n ↦ ground (
              arith,
              inherited-lookup items (put name value values) k g,
              lookup-put k name value values,
            )
          ])
  ]
]

put_all-lookup :
    (overrides values : Dict Text Text) (k : Text)
    → contains (keys overrides) k ≡ false
    → lookup k (put_all overrides values) ≡ lookup k values
unfolding put_all
put_all-lookup [] values k h = refl
put_all-lookup ((name, value) ∷ rest) values k h =
    ground (arith, put_all-lookup rest (put name value values) k, lookup-put k name value values)

-- In the environment of a task, PWD and OLDPWD are the task's directory whatever the configuration
-- sets, and any other variable that makes Git run programs is unset unless the configuration sets
-- it: none is inherited.
pub task_values-lookup :
    (environ : List Text) (overrides : Dict Text Text) (directory k : Text)
    → git_execution_environment (to_upper k) ≡ true
    → contains (keys overrides) k ≡ false
    → (k == codes "PWD") ≡ false
    → (k == codes "OLDPWD") ≡ false
    → (lookup (codes "PWD") (task_values environ overrides directory) ≡ some directory)
      × (lookup (codes "OLDPWD") (task_values environ overrides directory) ≡ some directory)
      × (lookup k (task_values environ overrides directory) ≡ none)
unfolding task_values list_eq put nat_eq put_all
task_values-lookup environ overrides directory k g absent p o =
    let values = put_all overrides (inherited environ []) in
    (
      lookup-put (codes "PWD") (codes "OLDPWD") directory (put (codes "PWD") directory values)
          ∙ lookup-put (codes "PWD") (codes "PWD") directory values,
      lookup-put (codes "OLDPWD") (codes "OLDPWD") directory (put (codes "PWD") directory values),
      ground (
        arith,
        lookup-put k (codes "OLDPWD") directory (put (codes "PWD") directory values),
        lookup-put k (codes "PWD") directory values,
        put_all-lookup overrides (inherited environ []) k absent,
        inherited-lookup environ [] k g,
      ),
    )
