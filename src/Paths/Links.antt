-- ===== src/Paths/Links.antt =====
-- Symbolic links and letters' case on the way to a path: `pathUsesSymlink`, `pathUsesSymlinkInto`,
-- `caseInsensitiveFilesystem`, `relativeLexicallyWithin` and `lexicalCheckoutRoot` of
-- internal/bitci/stage.go.
use bitci.Prelude.{
  Bool, true, false, ◌&&◌, Option, none, some, List, [], ◌∷◌, ◌==◌, if◌then◌else◌, nat_eq, list_eq,
  leb, ◌+◌, ◌-◌,
}
use bitci.Prelude.Text.{Text, codes}
use bitci.Prelude.Strings.{fields}
use bitci.Guard.{is_abs}
use bitci.Guard.Environment.{clean}
use bitci.Paths.{
  missing, unreadable, link, directory, file, Files, found, path_parts, join_path, path_of, dir,
  ancestors, last_part,
}
use bitci.Paths.Compare.{first_some, same_path, resolved_path_for_comparison, relative_within}
use mathlib.Core.List.{reverse}

-- Another case for the first letter, if there is one.
unfoldable pub flip_first : Text → Option Text
flip_first [] = none
flip_first (c ∷ s) =
    let later = flip_first s in
    if leb b'a' c && leb c b'z'
    then some ((c - 32) ∷ s)
    else if leb b'A' c && leb c b'Z'
    then some ((c + 32) ∷ s)
    else elim later [ none ↦ none | some t ↦ some (c ∷ t) ]

module _ (files : Files) where
  -- `none` is an error.
  unfoldable pub link_on_way : (path : Text) → List Text → Option Bool
  link_on_way path [] = some false
  link_on_way path (part ∷ parts) =
      let current = join_path path part in
      let rest = link_on_way current parts in
      elim (files.lstat current) [
        | missing ↦ some false
        | unreadable ↦ none
        | link ↦ some true
        | directory ↦ rest
        | file executable ↦ rest
      ]

  unfoldable pub path_uses_symlink : (root relative : Text) → Option Bool
  path_uses_symlink root relative = link_on_way root (fields (λ c. c == b'/') [] relative)

  -- What a link on the way leads to is compared with the root.
  unfoldable pub leads_into : (root current : Text) (rest : Option Bool) → Option Bool
  leads_into root current rest = elim (files.eval_symlinks current) [
    | none ↦ none
    | some resolved ↦
        elim (relative_within files root (resolved_path_for_comparison files resolved)) [
          | none ↦ rest
          | some relative ↦ some true
        ]
  ]

  unfoldable pub link_into_on_way : (root path : Text) → List Text → Option Bool
  link_into_on_way root path [] = some false
  link_into_on_way root path (part ∷ parts) =
      let current = join_path path part in
      let rest = link_into_on_way root current parts in
      elim (files.lstat current) [
        | missing ↦ some false
        | unreadable ↦ none
        | link ↦ leads_into root current rest
        | directory ↦ rest
        | file executable ↦ rest
      ]

  abbrev pub absolute : Text → Text
  absolute path = if is_abs path then clean path else join_path files.working_directory path

  unfoldable pub path_uses_symlink_into : (root path : Text) → Option Bool
  path_uses_symlink_into root path = link_into_on_way root (codes "/") (path_parts (absolute path))

  -- Whether the name with another case is the same file, for the first name with a letter.
  unfoldable pub same_with_other_case : Text → Option Bool
  same_with_other_case current = elim (flip_first (last_part current)) [
    | none ↦ none
    | some name ↦
        let alias = join_path (dir current) name in
        some
          (found (files.stat current) && found (files.stat alias) && files.same_file current alias)
  ]

  unfoldable pub case_insensitive_filesystem : Text → Bool
  case_insensitive_filesystem path =
      elim (first_some same_with_other_case (ancestors (resolved_path_for_comparison files path))) [
        | none ↦ false
        | some answer ↦ answer
      ]

  unfoldable pub relative_behind : (root parent suffix : Text) → Option Text
  relative_behind root parent suffix = elim (files.eval_symlinks parent) [
    | none ↦ none
    | some resolved ↦ relative_within files root (join_path resolved suffix)
  ]

  unfoldable pub relative_from : (root : Text) → Bool → List Text → (suffix : Text) → Option Text
  relative_from root rooted [] suffix = relative_behind root (path_of rooted []) suffix
  relative_from root rooted (part ∷ parts) suffix =
      let above = relative_from root rooted parts (join_path part suffix) in
      elim (relative_behind root (path_of rooted (part ∷ parts)) suffix) [
        | none ↦ above
        | some relative ↦ some relative
      ]

  unfoldable pub relative_lexically_within : (root path : Text) → Option Text
  relative_lexically_within root path =
      relative_from root (is_abs path) (reverse (path_parts (dir path))) (last_part path)

  -- The first directory above the configuration that is the checkout.
  unfoldable pub is_lexical_root : (checkout path : Text) → Option Text
  is_lexical_root checkout path =
      if same_path files (resolved_path_for_comparison files path) checkout then some path else none

  unfoldable pub lexical_checkout_root : (config_path checkout : Text) → Option Text
  lexical_checkout_root config_path checkout =
      first_some (is_lexical_root checkout) (ancestors (dir config_path))
