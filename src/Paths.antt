-- ===== src/Paths.antt =====
-- Paths and what the file system says of them: the path functions that
-- internal/bitci/controller.go and internal/bitci/stage.go share. Paths are those of Unix.
pub mod Compare
pub mod Links
pub mod State
pub mod Commands
pub mod Within
use bitci.Prelude.{
  ℕ, zero, suc, Bool, true, false, not, ◌&&◌, ◌||◌, Option, none, some, List, [], ◌∷◌, ◌++◌, ◌==◌,
  if◌then◌else◌, nat_eq, list_eq,
}
use bitci.Prelude.Text.{Text, codes}
use bitci.Prelude.Strings.{is_empty, has_prefix, fields}
use bitci.Guard.{is_abs}
use bitci.Guard.Environment.{clean_parts, clean}
use mathlib.Core.List.{reverse}

-- What `os.Lstat` or `os.Stat` says of a path: `unreadable` is an error other than a missing file.
pub data Entry : Type 0 where
  missing unreadable link directory : Entry
  file : (executable : Bool) → Entry

-- The file system at one time, and the directory of the process. `same_file` is `os.SameFile` of what
-- two paths lead to, `look_path` is `exec.LookPath`.
pub record Files : Type 0 where
  pub lstat : Text → Entry
  pub stat : Text → Entry
  pub eval_symlinks : Text → Option Text
  pub same_file : Text → Text → Bool
  pub look_path : Text → Option Text
  pub working_directory : Text

abbrev pub found : Entry → Bool
found missing = false
found unreadable = false
found _ = true

-- The parts of a cleaned path, the first one first.
unfoldable pub path_parts : Text → List Text
path_parts path = reverse (clean_parts (is_abs path) [] (fields (λ c. c == b'/') [] path))

unfoldable pub join_slash : List Text → Text
join_slash [] = []
join_slash (part ∷ []) = part
join_slash (part ∷ parts) = part ++ codes "/" ++ join_slash parts

-- `filepath.Join`.
unfoldable pub join_path : Text → Text → Text
join_path first second =
    if is_empty first && is_empty second
    then []
    else if is_empty first
    then clean second
    else clean (first ++ codes "/" ++ second)

-- The path with some parts, given from the last one on.
unfoldable pub path_of : Bool → List Text → Text
path_of rooted parts =
    if rooted
    then codes "/" ++ join_slash (reverse parts)
    else if is_empty parts
    then codes "."
    else join_slash (reverse parts)

-- `filepath.Dir`, of a path without a slash at its end.
unfoldable pub without_last : Bool → List Text → Text
without_last rooted [] = path_of rooted []
without_last rooted (part ∷ parts) = path_of rooted parts

unfoldable pub dir : Text → Text
dir path = without_last (is_abs path) (reverse (path_parts path))

-- The paths that a loop over `filepath.Dir` visits from a cleaned path on, up to the first that is its
-- own directory. Each is the one in front of it without its last part.
unfoldable pub ancestors_of : Bool → List Text → List Text
ancestors_of rooted [] = path_of rooted [] ∷ []
ancestors_of rooted (part ∷ parts) = path_of rooted (part ∷ parts) ∷ ancestors_of rooted parts

unfoldable pub ancestors : Text → List Text
ancestors path = ancestors_of (is_abs path) (reverse (path_parts path))

-- The steps up and the parts down of `filepath.Rel`, from one list of parts to another.
unfoldable pub ups : List Text → List Text → List Text
ups [] target = target
ups (b ∷ base) target = codes ".." ∷ ups base target

unfoldable pub relative_parts : (base target : List Text) → Option (List Text)
relative_parts [] target = some target
relative_parts (b ∷ base) [] = if b == codes ".." then none else some (ups (b ∷ base) [])
relative_parts (b ∷ base) (t ∷ target) =
    let rest = relative_parts base target in
    if b == t then rest else if b == codes ".." then none else some (ups (b ∷ base) (t ∷ target))

abbrev same_root : Bool → Bool → Bool
same_root true b = b
same_root false b = not b

unfoldable pub rel : (base target : Text) → Option Text
rel base target =
    if clean base == clean target
    then some (codes ".")
    else if not (same_root (is_abs base) (is_abs target))
    then none
    else elim (relative_parts (path_parts base) (path_parts target)) [
      | none ↦ none
      | some parts ↦ some (join_slash parts)
    ]

-- The relative path does not lead out of the base.
abbrev pub stays_inside : Text → Bool
stays_inside relative = not (relative == codes "..") && not (has_prefix relative (codes "../"))

-- `filepath.Base` of a cleaned path.
unfoldable pub last_part : Text → Text
last_part path = elim (reverse (path_parts path)) [
  | [] ↦ if is_abs path then codes "/" else codes "."
  | part ∷ parts ↦ part
]
