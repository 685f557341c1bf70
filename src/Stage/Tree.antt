-- ===== src/Stage/Tree.antt =====
-- The state directory and the commit to stage: `protectStateFromTarget`,
-- `gitTreeContainsStateConflict`, `cleanGeneratedNext`, `cleanCheckout` and `statePathspec` of
-- internal/bitci/stage.go, over what Git and the file system answer.
use bitci.Prelude.{
  ℕ, Bool, true, false, not, ◌&&◌, ◌||◌, Option, none, some, List, [], ◌∷◌, ◌++◌, ◌==◌,
  if◌then◌else◌, nat_eq, list_eq,
}
use bitci.Prelude.Text.{Text, codes}
use bitci.Prelude.Strings.{is_empty, equal_fold, trim_space, cut, split_space}
use bitci.Paths.{missing, unreadable, link, directory, file, Files, join_path}
use bitci.Paths.Compare.{paths_overlap}
use bitci.Paths.Links.{case_insensitive_filesystem}
use bitci.Paths.State.{Places, git_directory, checkout_state_path}

-- The commands of Git, each `none` if it fails: `ls-tree -z`, `ls-files`, `status --porcelain`
-- with its path arguments, and `clean -fdX`.
pub record TreeGit (Repo : Type 0) : Type 0 where
  pub ls_tree : Repo → (tree : Text) → Option Text
  pub ls_files : Repo → (pathspec : Text) → Option Text
  pub status : Repo → List Text → Option Text
  pub clean_ignored : Repo → (pathspec : Text) → Option Repo

-- `strings.Split` at one byte: there is one part more than separators.
unfoldable pub split : ℕ → Text → Text → List Text
split sep part [] = part ∷ []
split sep part (c ∷ s) =
    let next = part ∷ split sep [] s in
    let same = split sep (part ++ c ∷ []) s in if c == sep then next else same

unfoldable pub state_pathspec : Text → Bool → Text
state_pathspec relative fold_case =
    (if fold_case then codes ":(top,icase,literal)" else codes ":(top,literal)") ++ relative

unfoldable pub kind_and_id : List Text → Option (Text × Text)
kind_and_id (mode ∷ kind ∷ id ∷ []) = some (kind, id)
kind_and_id _ = none

-- The kind and the identifier of an entry with a name, `none` of a record that is no such entry.
unfoldable pub entry_named : (fold_case : Bool) (part entry : Text) → Option (Text × Text)
entry_named fold_case part entry = elim (cut 9 entry) [
  | none ↦ none
  | some (metadata, name) ↦
      if name == part || (fold_case && equal_fold name part)
      then kind_and_id (split_space metadata)
      else none
]

unfoldable pub find_entry : (fold_case : Bool) (part : Text) → List Text → Option (Text × Text)
find_entry fold_case part [] = none
find_entry fold_case part (entry ∷ entries) =
    let rest = find_entry fold_case part entries in
    elim (entry_named fold_case part entry) [ none ↦ rest | some answer ↦ some answer ]

module _ {Repo : Type 0} (git : TreeGit Repo) (repo : Repo) where
  -- One level for each part of the path.
  unfoldable pub conflict_below : (fold_case : Bool) (tree : Text) → List Text → Option Bool
  conflict_below fold_case tree [] = some false
  conflict_below fold_case tree (part ∷ parts) = elim (git.ls_tree repo tree) [
    | none ↦ none
    | some output ↦ elim (find_entry fold_case part (split 0 [] output)) [
      | none ↦ some false
      | some (kind, id) ↦
          let below = conflict_below fold_case id parts in
          if is_empty parts || not (kind == codes "tree") then some true else below
    ]
  ]

  unfoldable pub git_tree_contains_state_conflict :
      (sha relative : Text) (fold_case : Bool) → Option Bool
  git_tree_contains_state_conflict sha relative fold_case =
      conflict_below fold_case (sha ++ codes "^{tree}") (split b'/' [] relative)

  module _ (files : Files) (places : Places) where
    -- The state directory must not be tracked by the commit.
    unfoldable pub protect_state_from_target : (sha : Text) → Option Bool
    protect_state_from_target sha = elim (checkout_state_path files places) [
      | none ↦ none
      | some none ↦ some false
      | some (some relative) ↦
          git_tree_contains_state_conflict sha relative
            (case_insensitive_filesystem files (git_directory places))
    ]

    -- `none` is an error. Only an ignored output directory is removed.
    unfoldable pub clean_generated_next : Option Repo
    clean_generated_next =
        let next = join_path places.config_relative (codes ".next") in
        let path = join_path (git_directory places) next in
        elim (checkout_state_path files places) [
          | none ↦ none
          | some state ↦
              if paths_overlap files path places.state_dir then none else elim (files.lstat path) [
                | missing ↦ some repo
                | unreadable ↦ none
                | link ↦ none
                | file executable ↦ none
                | directory ↦ git.clean_ignored repo (codes ":(top,literal)" ++ next)
              ]
        ]

    abbrev is_blank : Option Text → Option Bool
    is_blank none = none
    is_blank (some output) = some (is_empty (trim_space output))

    -- Nothing is changed, except in a state directory without tracked files.
    unfoldable pub clean_checkout : Option Bool
    clean_checkout = elim (checkout_state_path files places) [
      | none ↦ none
      | some none ↦ is_blank (git.status repo [])
      | some (some relative) ↦
          let fold_case = case_insensitive_filesystem files (git_directory places) in
          let exclude =
            (if fold_case
              then codes ":(top,exclude,icase,literal)"
              else codes ":(top,exclude,literal)")
            ++ relative in
          elim (git.ls_files repo (state_pathspec relative fold_case)) [
            | none ↦ none
            | some tracked ↦
                if is_empty tracked
                then is_blank (git.status repo (codes ":(top)" ∷ exclude ∷ []))
                else none
          ]
    ]
