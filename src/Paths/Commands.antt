-- ===== src/Paths/Commands.antt =====
-- The checks of a job's command against its directories: `isCheckoutExecutable`,
-- `isCheckoutScript`, `unsafePathOperand`, `unsafeTaskPath`, `unsafeTaskEnvironment`, `lookPath`,
-- `hasUnsafeCheckoutCommand` and `hasUnsafePrepareCommand` of internal/bitci/controller.go.
use bitci.Prelude.{
  Bool, true, false, not, ◌&&◌, ◌||◌, Option, none, some, List, [], ◌∷◌, ◌++◌, ◌==◌, if◌then◌else◌,
  nat_eq, list_eq, contains,
}
use bitci.Prelude.Text.{Text, codes}
use bitci.Prelude.Strings.{is_empty, to_lower, to_upper, has_prefix, cut}
use bitci.Prelude.Dict.{Dict, lookup}
use bitci.Guard.{
  any, is_abs, interpreter_command, interpreter_script_operand, unsafe_evaluator_command,
  unsafe_git_environment,
}
use bitci.Guard.Git.{unsafe_git_command}
use bitci.Guard.Environment.{
  clean, contains_checkout_path, is_loader_variable, unsafe_command_environment, task_environment,
}
use bitci.Paths.{Entry, missing, unreadable, link, directory, file, Files, join_path, dir}
use bitci.Paths.Compare.{path_within, resolved_path_for_comparison, path_or_ancestor_within}
use bitci.Paths.Links.{absolute}
use bitci.Stage.Tree.{split}

-- The directories of a job; a job without a worktree has an empty one.
pub record Roots : Type 0 where
  pub checkout : Text
  pub worktree : Text
  pub work_dir : Text

-- `filepath.SplitList`.
unfoldable pub split_list : Text → List Text
split_list path = if is_empty path then [] else split b':' [] path

unfoldable pub path_variable : List Text → Text
path_variable [] = []
path_variable (item ∷ items) =
    let rest = path_variable items in
    elim (cut b'=' item) [
      | none ↦ rest
      | some (name, value) ↦ if name == codes "PATH" then value else rest
    ]

unfoldable pub trim_dashes : Text → Text
trim_dashes [] = []
trim_dashes (c ∷ s) = let rest = trim_dashes s in if c == b'-' then rest else c ∷ s

abbrev pub path_options : List Text
path_options =
    codes "if"
    ∷ codes "of"
    ∷ codes "input"
    ∷ codes "output"
    ∷ codes "file"
    ∷ codes "filename"
    ∷ codes "path"
    ∷ codes "target"
    ∷ codes "target-directory"
    ∷ codes "directory"
    ∷ codes "dir"
    ∷ codes "dest"
    ∷ codes "destination"
    ∷ codes "prefix"
    ∷ []

-- The value of an assignment to a name that stands for a path.
unfoldable pub named_value : Text → Text
named_value value = elim (cut b'=' value) [
  | none ↦ value
  | some (name, option) ↦
      if contains path_options (to_lower (trim_dashes name)) then option else value
]

module _ (files : Files) where
  abbrev pub is_executable : Entry → Bool
  is_executable (file executable) = executable
  is_executable _ = false

  unfoldable pub look_in : (base name : Text) → List Text → Option Text
  look_in base name [] = none
  look_in base name (entry ∷ entries) =
      let rest = look_in base name entries in
      let place =
        if is_empty entry then base else if is_abs entry then entry else join_path base entry in
      let candidate = join_path place name in
      if is_executable (files.stat candidate) then some candidate else rest

  unfoldable pub look_path : (name : Text) → List Text → (base : Text) → Option Text
  look_path name environment base =
      if is_empty environment
      then files.look_path name
      else look_in base name (split_list (path_variable environment))

  abbrev pub in_worktree : Roots → Text → Bool
  in_worktree roots path = not (is_empty roots.worktree) && path_within files roots.worktree path

  -- What a link in the worktree leads to stays there.
  abbrev pub resolves_inside : (root path : Text) → Bool
  resolves_inside root path =
      path_within files (resolved_path_for_comparison files root)
        (resolved_path_for_comparison files path)

  -- The check of a path, given whether it was written as a relative path with a slash.
  unfoldable pub executable_at : Roots → (relative : Bool) (path : Text) → Bool
  executable_at roots relative path =
      let inside = in_worktree roots path in
      if path_within files (clean roots.checkout) path && not inside
      then true
      else elim (files.eval_symlinks (clean roots.checkout)) [
        | none ↦ false
        | some root ↦
            if path_or_ancestor_within files root path roots.worktree
            then true
            else elim (files.eval_symlinks path) [
              | none ↦ false
              | some resolved ↦
                  if relative
                    && not (is_empty roots.worktree)
                    && not (resolves_inside roots.worktree path)
                  then true
                  else if inside
                  then not (
                      path_within files (resolved_path_for_comparison files roots.worktree)
                        resolved)
                  else path_within files root resolved
            ]
      ]

  unfoldable pub is_checkout_executable : Roots → (command : Text) → List Text → Bool
  is_checkout_executable roots command environment =
      let written = roots.work_dir ++ codes "/" ++ command in
      if is_abs command
      then executable_at roots false (clean command)
      else if contains command b'/'
      then if not (is_empty roots.worktree) && not (path_within files roots.worktree written)
        then true
        else executable_at roots true (clean written)
      else elim (look_path command environment roots.work_dir) [
        | none ↦ false
        | some resolved ↦ executable_at roots false (clean (absolute files resolved))
      ]

  unfoldable pub is_checkout_script : Roots → (script : Text) → List Text → Bool
  is_checkout_script roots script environment =
      let joined = join_path roots.work_dir script in
      if is_abs script
      then is_checkout_executable roots script environment
      else if not (is_empty roots.worktree) && not (path_within files roots.worktree joined)
      then true
      else is_checkout_executable roots joined environment

  -- A path that leaves the worktree, or is in the checkout and not in the worktree.
  unfoldable pub unsafe_place : Roots → (relative : Bool) (path : Text) → Bool
  unsafe_place roots relative path =
      let inside = in_worktree roots path in
      if relative && not (is_empty roots.worktree) && not inside
      then true
      else if path_within files roots.checkout path && not inside
      then true
      else inside && not (resolves_inside roots.worktree path)

  unfoldable pub unsafe_path : Roots → (value : Text) → Bool
  unsafe_path roots value =
      let relative = not (is_abs value) in
      let path = if relative then join_path roots.work_dir value else value in
      let placed = unsafe_place roots relative (clean path) in
      if relative && not (contains value b'/')
      then elim (files.lstat path) [
        | missing ↦ false
        | unreadable ↦ true
        | link ↦ placed
        | directory ↦ placed
        | file executable ↦ placed
      ]
      else placed

  -- An operand, given the answer for the values glued to an option's letters.
  unfoldable pub unsafe_with : Roots → (value : Text) (glued : Bool) → Bool
  unsafe_with roots value glued =
      if is_empty value
      then false
      else if not (has_prefix value (codes "-"))
      then unsafe_path roots (named_value value)
      else elim (cut b'=' value) [
        | none ↦ contains value b'/' || contains value 92 || glued
        | some (name, option) ↦
            if is_empty option then false else unsafe_path roots (named_value option)
      ]

  -- Whether a part of the text up to its end is an unsafe operand.
  unfoldable pub unsafe_suffix : Roots → Text → Bool
  unsafe_suffix roots [] = false
  unsafe_suffix roots (c ∷ []) = unsafe_with roots (c ∷ []) false
  unsafe_suffix roots (c ∷ d ∷ s) =
      unsafe_with roots (c ∷ d ∷ s) (unsafe_suffix roots s) || unsafe_suffix roots (d ∷ s)

  unfoldable pub unsafe_path_operand : Roots → Text → Bool
  unsafe_path_operand roots [] = false
  unsafe_path_operand roots (c ∷ []) = unsafe_with roots (c ∷ []) false
  unsafe_path_operand roots (c ∷ d ∷ s) = unsafe_with roots (c ∷ d ∷ s) (unsafe_suffix roots s)

  unfoldable pub unsafe_entry : Roots → Text → Bool
  unsafe_entry roots entry =
      let path = clean (
        if is_empty entry
        then roots.work_dir
        else if is_abs entry
        then entry
        else join_path roots.work_dir entry) in
      let resolved = resolved_path_for_comparison files path in
      let root = resolved_path_for_comparison files roots.checkout in
      let worktree = resolved_path_for_comparison files roots.worktree in
      (path_within files roots.checkout path && not (in_worktree roots path))
      || (in_worktree roots path && not (path_within files worktree resolved))
      || (path_within files root resolved
          && (is_empty roots.worktree || not (path_within files worktree resolved)))

  unfoldable pub unsafe_task_path : Roots → Text → Bool
  unsafe_task_path roots value = any (unsafe_entry roots) (split_list value)

  abbrev is_some {ℓ} : {A : Type ℓ} → Option A → Bool
  is_some none = false
  is_some (some a) = true

  unfoldable pub unsafe_variable : Roots → Dict Text Text → (item : Text) → Bool
  unsafe_variable roots overrides item = elim (cut b'=' item) [
    | none ↦ false
    | some (name, value) ↦
        is_loader_variable (to_upper name)
        || unsafe_git_environment (to_upper name) value
        || (is_some (lookup name overrides)
            && not (to_upper name == codes "PWD")
            && not (to_upper name == codes "OLDPWD")
            && contains_checkout_path value roots.checkout)
        || (to_upper name == codes "PATH" && unsafe_task_path roots value)
  ]

  unfoldable pub unsafe_task_environment : Roots → List Text → Dict Text Text → Bool
  unsafe_task_environment roots environment overrides =
      any (unsafe_variable roots overrides) environment

  unfoldable pub unsafe_argument : Roots → (config_path : Text) → List Text → (value : Text) → Bool
  unsafe_argument roots config_path environment value =
      contains_checkout_path value roots.checkout
      || contains_checkout_path value (dir config_path)
      || unsafe_path_operand roots value
      || is_checkout_executable roots value environment

  unfoldable pub unsafe_script : Roots → List Text → List Text → Bool
  unsafe_script roots environment argv = elim (interpreter_script_operand argv) [
    | none ↦ false
    | some script ↦ is_checkout_script roots script environment
  ]

  -- `environ` is the environment of the process.
  unfoldable pub has_unsafe_checkout_command :
      (environ : List Text) (config_path : Text) → Roots → Dict Text Text → List Text → Bool
  has_unsafe_checkout_command environ config_path roots overrides argv =
      let environment = task_environment environ overrides roots.work_dir in
      unsafe_evaluator_command argv
      || unsafe_command_environment argv roots.checkout
      || unsafe_task_environment roots environment overrides
      || unsafe_git_command argv
      || unsafe_script roots environment argv
      || any (unsafe_argument roots config_path environment) argv

  unfoldable pub has_unsafe_prepare_command :
      (environ : List Text) (config_path : Text) → Roots → List Text → Bool
  has_unsafe_prepare_command environ config_path roots [] =
      has_unsafe_checkout_command environ config_path roots [] []
  has_unsafe_prepare_command environ config_path roots (c ∷ args) =
      has_unsafe_checkout_command environ config_path roots [] (c ∷ args)
      || (not (is_empty roots.worktree)
          && (interpreter_command (c ∷ args) || is_abs c || contains c b'/'))
