-- ===== src/Paths/Compare.antt =====
-- `pathWithin`, `resolvedPathForComparison`, `samePath`, `relativeWithin` and the functions on them in
-- internal/bitci/controller.go and internal/bitci/stage.go.
use bitci.Prelude.{
  ℕ, zero, suc, Bool, true, false, not, ◌&&◌, ◌||◌, Option, none, some, List, [], ◌∷◌, ◌++◌,
  if◌then◌else◌, nat_eq, list_eq, leb, length,
}
use bitci.Prelude.Text.{Text, codes}
use bitci.Prelude.Strings.{is_empty, equal_fold}
use bitci.Guard.{is_abs, any}
use bitci.Guard.Environment.{clean}
use bitci.Paths.{Files, found, path_parts, join_slash, path_of, ancestors, rel, stays_inside}
use mathlib.Core.List.{reverse}

-- The first `n` bytes, and the others.
unfoldable pub take_bytes : ℕ → Text → Text
take_bytes zero s = []
take_bytes (suc n) [] = []
take_bytes (suc n) (c ∷ s) = c ∷ take_bytes n s

unfoldable pub drop_bytes : ℕ → Text → Text
drop_bytes zero s = s
drop_bytes (suc n) [] = []
drop_bytes (suc n) (c ∷ s) = drop_bytes n s

-- The first answer of a test on a list of paths.
unfoldable pub first_some {ℓ} : {A : Type ℓ} → (Text → Option A) → List Text → Option A
first_some f [] = none
first_some f (path ∷ paths) =
    let rest = first_some f paths in elim (f path) [ none ↦ rest | some a ↦ some a ]

module _ (files : Files) where
  unfoldable pub path_within : (root path : Text) → Bool
  path_within root path =
      let same = λ (current : Text). found (files.stat current) && files.same_file root current in
      let by_file = found (files.stat root) && any same (ancestors path) in
      elim (rel root path) [ none ↦ by_file | some relative ↦ stays_inside relative || by_file ]

  abbrev pub same_path : Text → Text → Bool
  same_path first second = path_within first second && path_within second first

  -- The deepest ancestor that exists, resolved, with the parts behind it; `missing` has these, the
  -- last one being the deepest.
  unfoldable pub resolve_from : Bool → List Text → (missing : List Text) → Text
  resolve_from rooted [] missing = elim (files.eval_symlinks (path_of rooted [])) [
    | none ↦ path_of rooted []
    | some resolved ↦ clean (join_slash (resolved ∷ missing))
  ]
  resolve_from rooted (part ∷ parts) missing =
      let above = resolve_from rooted parts (part ∷ missing) in
      elim (files.eval_symlinks (path_of rooted (part ∷ parts))) [
        | none ↦ above
        | some resolved ↦ clean (join_slash (resolved ∷ missing))
      ]

  unfoldable pub resolved_path_for_comparison : Text → Text
  resolved_path_for_comparison path = resolve_from (is_abs path) (reverse (path_parts path)) []

  unfoldable pub paths_overlap : Text → Text → Bool
  paths_overlap first second =
      let one = resolved_path_for_comparison first in
      let other = resolved_path_for_comparison second in
      path_within one other || path_within other one

  -- The relative path of what lies inside a root, also where only the letters' case differs.
  unfoldable pub relative_within : (root path : Text) → Option Text
  relative_within root path =
      let prefix = clean root ++ codes "/" in
      let cleaned = clean path in
      let folded =
        if not (path_within (clean root) cleaned)
          || leb (length cleaned) (length prefix)
          || not (equal_fold (take_bytes (length prefix) cleaned) prefix)
        then none
        else some (drop_bytes (length prefix) cleaned) in
      elim (rel root path) [
        | none ↦ folded
        | some relative ↦ if stays_inside relative then some relative else folded
      ]

  -- `pathOrAncestorWithin`: the first ancestor that decides.
  unfoldable pub decides_within : (root worktree current : Text) → Option Bool
  decides_within root worktree current = elim (files.eval_symlinks current) [
    | none ↦ none
    | some resolved ↦
        if not (is_empty worktree) && same_path resolved worktree
        then some false
        else if path_within root resolved
            && (is_empty worktree
                || not (path_within (resolved_path_for_comparison worktree) resolved))
        then some true
        else none
  ]

  unfoldable pub path_or_ancestor_within : (root path worktree : Text) → Bool
  path_or_ancestor_within root path worktree =
      elim (first_some (decides_within root worktree) (ancestors path)) [
        | none ↦ false
        | some answer ↦ answer
      ]
