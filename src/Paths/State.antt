-- ===== src/Paths/State.antt =====
-- Where the controller's state directory may be: `gitDirectory`, `checkoutLocation`,
-- `ValidateStateDir` and what it calls in internal/bitci/controller.go, and `checkoutStatePath` of
-- internal/bitci/stage.go.
use bitci.Prelude.{
  Bool, true, false, not, ◌&&◌, ◌||◌, Option, none, some, ◌++◌, ◌==◌, if◌then◌else◌, nat_eq,
  list_eq,
}
use bitci.Prelude.Text.{Text, codes}
use bitci.Prelude.Strings.{is_empty, equal_fold, trim_space}
use bitci.Guard.{any}
use bitci.Guard.Environment.{clean}
use bitci.Paths.{
  Entry, directory, file, Files, join_path, dir, ancestors, rel, stays_inside, last_part,
}
use bitci.Paths.Compare.{resolved_path_for_comparison, relative_within, paths_overlap}
use bitci.Paths.Links.{
  absolute, path_uses_symlink, path_uses_symlink_into, relative_lexically_within,
  lexical_checkout_root,
}

-- The controller's own paths.
pub record Places : Type 0 where
  pub config_path : Text
  pub checkout_root : Text
  pub config_relative : Text
  pub state_dir : Text

unfoldable pub git_directory : Places → Text
git_directory places =
    if is_empty places.checkout_root then dir places.config_path else places.checkout_root

unfoldable pub state_inside_git_metadata : Text → Bool
state_inside_git_metadata path =
    any (λ current. equal_fold (last_part current) (codes ".git")) (ancestors path)

-- A link on the way is an error, and so is a way that cannot be read.
abbrev pub free_of_links : Option Bool → Bool
free_of_links none = false
free_of_links (some found) = not found

module _ (files : Files) where
  abbrev is_file : Entry → Bool
  is_file (file executable) = true
  is_file _ = false

  abbrev is_directory : Entry → Bool
  is_directory directory = true
  is_directory _ = false

  unfoldable pub path_has_git_metadata_ancestor : Text → Bool
  path_has_git_metadata_ancestor path =
      let is_git = λ (current : Text).
        is_file (files.stat (join_path current (codes "HEAD")))
        && is_directory (files.stat (join_path current (codes "objects"))) in
      any is_git (ancestors (resolved_path_for_comparison files path))

  -- The checkout of a configuration file, by the answer of `git rev-parse --show-toplevel` in a
  -- directory, and the file's directory in it.
  unfoldable pub checkout_location :
      (show_toplevel : Text → Option Text) (config_path : Text) → Option (Text × Text)
  checkout_location show_toplevel config_path = elim (files.eval_symlinks config_path) [
    | none ↦ none
    | some config ↦ elim (files.eval_symlinks (dir config)) [
      | none ↦ none
      | some config_directory ↦ elim (show_toplevel config_directory) [
        | none ↦ none
        | some output ↦ elim (files.eval_symlinks (trim_space output)) [
          | none ↦ none
          | some root ↦ elim (relative_within files root config_directory) [
            | none ↦ none
            | some relative ↦ some (root, relative)
          ]
        ]
      ]
    ]
  ]

  -- `not_exist` tells a missing file from the other errors of `filepath.EvalSymlinks`.
  unfoldable pub canonical_config_path :
      (not_exist : Text → Bool) (config_path : Text) (require_exists : Bool) → Option Text
  canonical_config_path not_exist config_path require_exists =
      let path = absolute files config_path in
      elim (files.eval_symlinks path) [
        | some resolved ↦ some resolved
        | none ↦
            if require_exists || not (not_exist path)
            then none
            else some (resolved_path_for_comparison files path)
      ]

  -- `digest` is the start of a hash in hexadecimal, `home` the user's directory.
  unfoldable pub default_state_dir :
      (not_exist : Text → Bool) (digest : Text → Text) (home : Option Text)
      (config_path state_dir : Text)
      → Text
  default_state_dir not_exist digest home config_path state_dir =
      let config : Text = elim (canonical_config_path not_exist config_path false) [
        | none ↦ config_path
        | some path ↦ path
      ] in
      if not (is_empty state_dir) then state_dir else elim home [
        | none ↦ join_path (dir config) (codes ".bitci")
        | some path ↦ join_path path (codes ".local/state/bitci/" ++ digest config)
      ]

  -- `common` is the Git directory, if there is one.
  unfoldable pub validate_state_dir :
      (not_exist : Text → Bool) (digest : Text → Text) (home : Option Text)
      (common : Text → Option Text) (config_path state_dir : Text)
      → Option Text
  validate_state_dir not_exist digest home common config_path state_dir =
      elim (canonical_config_path not_exist config_path false) [
        | none ↦ none
        | some config ↦
            let state = absolute files (default_state_dir not_exist digest home config state_dir) in
            let overlaps : Bool = elim (common config) [
              | none ↦ false
              | some git ↦ paths_overlap files state git
            ] in
            if overlaps
              || state_inside_git_metadata (resolved_path_for_comparison files state)
              || path_has_git_metadata_ancestor state
            then none
            else some state
      ]

  -- The checks of `checkoutStatePath` that come before its answer.
  unfoldable pub resolved_inside_is_plain : (checkout state : Text) → Bool
  resolved_inside_is_plain checkout state =
      elim (relative_within files checkout (resolved_path_for_comparison files state)) [
        | none ↦ true
        | some relative ↦
            relative == codes "." || free_of_links (path_uses_symlink_into files checkout state)
      ]

  unfoldable pub below_lexical_root_is_plain : (config_path checkout state : Text) → Bool
  below_lexical_root_is_plain config_path checkout state =
      elim (lexical_checkout_root files config_path checkout) [
        | none ↦ true
        | some root ↦ elim (rel root state) [
          | none ↦ true
          | some relative ↦
              relative == codes "."
              || not (stays_inside relative)
              || free_of_links (path_uses_symlink files root relative)
        ]
      ]

  unfoldable pub lexically_inside_is_plain : (checkout state : Text) → Bool
  lexically_inside_is_plain checkout state = elim (relative_lexically_within files checkout state) [
    | none ↦ true
    | some relative ↦
        relative == codes "." || free_of_links (path_uses_symlink files checkout relative)
  ]

  -- The state directory in the checkout: `none` is an error, `some none` a place outside.
  unfoldable pub checkout_state_path : Places → Option (Option Text)
  checkout_state_path places =
      let checkout = clean (git_directory places) in
      let state = clean places.state_dir in
      if not (
        resolved_inside_is_plain checkout state
        && below_lexical_root_is_plain places.config_path checkout state
        && lexically_inside_is_plain checkout state)
      then none
      else elim (relative_within files checkout (resolved_path_for_comparison files state)) [
        | none ↦ some none
        | some relative ↦
            if relative == codes "."
            then some none
            else if free_of_links (path_uses_symlink files checkout relative)
            then some (some relative)
            else none
      ]
