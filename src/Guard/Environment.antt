-- ===== src/Guard/Environment.antt =====
-- The environment of a job in internal/bitci/controller.go: `taskEnvironment`,
-- `setEnvironmentValue`, and the variables that an `env` command may set.
use bitci.Prelude.{
  Bool, false, not, ◌&&◌, ◌||◌, none, some, List, [], ◌∷◌, ◌++◌, ◌==◌, if◌then◌else◌, nat_eq,
  list_eq, map,
}
use bitci.Prelude.Text.{Text, codes}
use bitci.Prelude.Strings.{is_empty, to_lower, to_upper, has_prefix, cut, contains_text, fields}
use bitci.Prelude.Dict.{Dict, lookup, keys}
use bitci.Config.Order.{sort_strings}
use bitci.Guard.{
  any, is_abs, is_env, git_execution_environment, unsafe_git_environment, path_has_parent_traversal,
}

-- `filepath.Clean`, part by part; the last parts are at the head of the list.
unfoldable pub clean_parts : Bool → List Text → List Text → List Text
clean_parts rooted done [] = done
clean_parts rooted done (part ∷ parts) =
    let same = clean_parts rooted done parts in
    let longer = clean_parts rooted (part ∷ done) parts in
    if part == codes "." then same else if not (part == codes "..") then longer else elim done [
      | [] ↦ if rooted then same else longer
      | p ∷ ps ↦
          let shorter = clean_parts rooted ps parts in if p == codes ".." then longer else shorter
    ]

unfoldable pub join_parts : List Text → Text → Text
join_parts [] after = after
join_parts (part ∷ []) after = part ++ after
join_parts (part ∷ parts) after = join_parts parts (codes "/" ++ part ++ after)

unfoldable pub clean : Text → Text
clean path =
    let parts = clean_parts (is_abs path) [] (fields (λ c. c == b'/') [] path) in
    if is_abs path
    then codes "/" ++ join_parts parts []
    else if is_empty parts
    then codes "."
    else join_parts parts []

unfoldable pub contains_checkout_path : Text → Text → Bool
contains_checkout_path value checkout_root =
    let root = to_lower (clean checkout_root) in
    contains_text (to_lower value) (root ++ codes "/") || to_lower value == root

-- `LD_…` and `DYLD_…` steer the loader.
abbrev pub is_loader_variable : Text → Bool
is_loader_variable upper = has_prefix upper (codes "LD_") || has_prefix upper (codes "DYLD_")

unfoldable pub unsafe_assignment : Text → Text → Bool
unsafe_assignment checkout_root argument = elim (cut b'=' argument) [
  | none ↦ false
  | some (name, value) ↦
      is_loader_variable (to_upper name)
      || unsafe_git_environment (to_upper name) value
      || contains_checkout_path value checkout_root
      || path_has_parent_traversal value
]

unfoldable pub unsafe_command_environment : List Text → Text → Bool
unsafe_command_environment [] checkout_root = false
unsafe_command_environment (command ∷ args) checkout_root =
    (is_env command && any (unsafe_assignment checkout_root) args)
    || unsafe_command_environment args checkout_root

-- A write to a Go map, which keeps each key once.
unfoldable pub put : Text → Text → Dict Text Text → Dict Text Text
put name value [] = (name, value) ∷ []
put name value ((n, v) ∷ rest) =
    let later = (n, v) ∷ put name value rest in if n == name then (n, value) ∷ rest else later

unfoldable pub put_all : Dict Text Text → Dict Text Text → Dict Text Text
put_all [] values = values
put_all ((name, value) ∷ rest) values = put_all rest (put name value values)

-- `os.Environ` in the order in which it is read, without what makes Git run programs.
unfoldable pub inherited : List Text → Dict Text Text → Dict Text Text
inherited [] values = values
inherited (item ∷ items) values =
    let skip = inherited items values in
    let read = λ (name value : Text).
      let take = inherited items (put name value values) in
      if git_execution_environment (to_upper name) then skip else take in
    elim (cut b'=' item) [ none ↦ skip | some (name, value) ↦ read name value ]

abbrev pub assignment : Dict Text Text → Text → Text
assignment values name = elim (lookup name values) [
  | none ↦ name ++ codes "="
  | some value ↦ name ++ codes "=" ++ value
]

unfoldable pub task_values : List Text → Dict Text Text → Text → Dict Text Text
task_values environ overrides directory =
    put (codes "OLDPWD") directory
      (put (codes "PWD") directory (put_all overrides (inherited environ [])))

unfoldable pub task_environment : List Text → Dict Text Text → Text → List Text
task_environment environ overrides directory =
    let values = task_values environ overrides directory in
    map (assignment values) (sort_strings (keys values))

unfoldable pub set_environment_value : List Text → Text → Text → List Text
set_environment_value [] name value = (name ++ codes "=" ++ value) ∷ []
set_environment_value (item ∷ items) name value =
    let later = item ∷ set_environment_value items name value in
    if has_prefix item (name ++ codes "=") then (name ++ codes "=" ++ value) ∷ items else later
