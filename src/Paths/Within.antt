-- ===== src/Paths/Within.antt =====
-- What it means that `pathWithin` of internal/bitci/controller.go accepts a path, and what the checks
-- on a command therefore say of its operands.
use bitci.Prelude.{
  Bool, true, false, ◌&&◌, none, some, List, [], ◌∷◌, ◌++◌, ◌==◌, ◌≡◌, refl, arith, if◌then◌else◌,
  nat_eq, list_eq, Bool-cases, Option-cases, inl, inr, ◌⊎◌, contains,
}
use bitci.Prelude.Text.{Text, codes}
use bitci.Prelude.Strings.{is_empty, has_prefix, cut}
use bitci.Prelude.Dict.{Dict}
use bitci.Guard.{any, is_abs}
use bitci.Guard.Environment.{clean, task_environment}
use bitci.Paths.{
  Files, found, path_parts, join_slash, join_path, ancestors, ups, relative_parts, rel,
  stays_inside,
}
use bitci.Paths.Compare.{path_within}
use bitci.Paths.Commands.{
  Roots, resolves_inside, unsafe_place, unsafe_path, unsafe_with, unsafe_path_operand,
  unsafe_argument, has_unsafe_checkout_command, named_value,
}

join_slash-up : (parts : List Text) → stays_inside (join_slash (codes ".." ∷ parts)) ≡ false
unfolding join_slash has_prefix list_eq nat_eq
join_slash-up [] = refl
join_slash-up (part ∷ parts) = refl

-- The rest of a relative path stays inside the base only if the base's parts come first.
relative_parts-inside :
    (base target rest : List Text)
    → relative_parts base target ≡ some rest
    → stays_inside (join_slash rest) ≡ true
    → target ≡ base ++ rest
unfolding relative_parts ups
relative_parts-inside [] target rest h s = ground arith
relative_parts-inside (b ∷ base) [] rest h s = elim (Bool-cases (b == codes "..")) [
  | inl up ↦ absurd ground arith
  | inr down ↦ absurd ground (arith, join_slash-up (ups base []))
]
relative_parts-inside (b ∷ base) (t ∷ target) rest h s = elim (Bool-cases (b == t)) [
  | inl same ↦ ground (arith, relative_parts-inside base target rest (ground arith) s)
  | inr other ↦ elim (Bool-cases (b == codes "..")) [
    | inl up ↦ absurd ground arith
    | inr down ↦ absurd ground (arith, join_slash-up (ups base (t ∷ target)))
  ]
]

-- The file that is the root is on the way to the path.
pub data OnTheWay (files : Files) (root : Text) : List Text → Type 0 where
  reached :
      (path : Text) (paths : List Text)
      → files.same_file root path ≡ true
      → OnTheWay files root (path ∷ paths)
  above :
      (path : Text) (paths : List Text)
      → OnTheWay files root paths
      → OnTheWay files root (path ∷ paths)

-- The root's parts come first in the path, or the root is a directory on the way to it.
abbrev pub Inside : Files → (root path : Text) → Type 0
Inside files root path =
    (clean root ≡ clean path)
    ⊎ ((rest : List Text) × (path_parts path ≡ path_parts root ++ rest))
    ⊎ OnTheWay files root (ancestors path)

any-OnTheWay :
    (files : Files) (root : Text) (paths : List Text)
    → any (λ current. found (files.stat current) && files.same_file root current) paths ≡ true
    → OnTheWay files root paths
unfolding any
any-OnTheWay files root [] h = absurd ground arith
any-OnTheWay files root (path ∷ paths) h =
    elim (Bool-cases (found (files.stat path) && files.same_file root path)) [
      | inl here ↦ reached path paths (ground arith)
      | inr other ↦ above path paths (any-OnTheWay files root paths (ground arith))
    ]

pub path_within-Inside :
    (files : Files) (root path : Text) → path_within files root path ≡ true → Inside files root path
unfolding path_within rel
path_within-Inside files root path h =
    let by_file =
      λ (k : found (files.stat root)
            && any (λ current. found (files.stat current) && files.same_file root current)
                (ancestors path)
          ≡ true).
        any-OnTheWay files root (ancestors path) (ground arith) in
    elim (Bool-cases (clean root == clean path)) [
      | inl same ↦ inl (ground arith)
      | inr other ↦ elim (Option-cases (relative_parts (path_parts root) (path_parts path))) [
        | inl none_left ↦ inr (inr (by_file (ground arith)))
        | inr (rest, e) ↦ elim (Bool-cases (stays_inside (join_slash rest))) [
          | inl stays ↦
              inr
                (inl (rest, relative_parts-inside (path_parts root) (path_parts path) rest e stays))
          | inr leaves ↦ inr (inr (by_file (ground arith)))
        ]
      ]
    ]

-- An operand that is no option and assigns nothing.
unsafe_path_operand-plain :
    (files : Files) (roots : Roots) (value : Text)
    → has_prefix value (codes "-") ≡ false
    → cut b'=' value ≡ none
    → contains value b'/' ≡ true
    → unsafe_path_operand files roots value ≡ unsafe_path files roots value
unfolding unsafe_path_operand unsafe_with named_value
unsafe_path_operand-plain files roots [] p e c = absurd ground arith
unsafe_path_operand-plain files roots (x ∷ []) p e c = ground arith
unsafe_path_operand-plain files roots (x ∷ y ∷ s) p e c = ground arith

abbrev pub operand_path : Roots → Text → Text
operand_path roots value = clean (if is_abs value then value else join_path roots.work_dir value)

-- Where an accepted operand with a slash leads: into the worktree, also behind its links, or, where it
-- is absolute, to a place that is neither in the worktree nor in the checkout.
pub data IsContained (files : Files) (roots : Roots) (value : Text) : Type 0 where
  inside :
      Inside files roots.worktree (operand_path roots value)
      → resolves_inside files roots.worktree (operand_path roots value) ≡ true
      → IsContained files roots value
  elsewhere :
      is_abs value ≡ true
      → path_within files roots.worktree (operand_path roots value) ≡ false
      → path_within files roots.checkout (operand_path roots value) ≡ false
      → IsContained files roots value

unsafe_path-IsContained :
    (files : Files) (roots : Roots) (value : Text)
    → unsafe_path files roots value ≡ false
    → is_empty roots.worktree ≡ false
    → contains value b'/' ≡ true
    → IsContained files roots value
unfolding unsafe_path unsafe_place
unsafe_path-IsContained files roots value h w c =
    elim (Bool-cases (path_within files roots.worktree (operand_path roots value))) [
      | inl within ↦
          inside (path_within-Inside files roots.worktree (operand_path roots value) within)
            (ground arith)
      | inr outside ↦ elsewhere (ground arith) outside (ground arith)
    ]

any-false :
    (p : Text → Bool) (front : List Text) (value : Text) (rest : List Text)
    → any p (front ++ value ∷ rest) ≡ false
    → p value ≡ false
unfolding any
any-false p [] value rest h = ground arith
any-false p (x ∷ front) value rest h = any-false p front value rest (ground arith)

-- Where a job has a worktree, each operand with a slash of a command that the checks accept, apart from
-- options and assignments, leads into the worktree, and stays there when its links are followed; or it
-- is an absolute path outside of both the worktree and the checkout.
pub has_unsafe_checkout_command-IsContained :
    (files : Files) (environ : List Text) (config_path : Text) (roots : Roots)
    (overrides : Dict Text Text) (front : List Text) (value : Text) (rest : List Text)
    → has_unsafe_checkout_command files environ config_path roots overrides (front ++ value ∷ rest)
      ≡ false
    → is_empty roots.worktree ≡ false
    → has_prefix value (codes "-") ≡ false
    → cut b'=' value ≡ none
    → contains value b'/' ≡ true
    → IsContained files roots value
unfolding has_unsafe_checkout_command unsafe_argument
has_unsafe_checkout_command-IsContained files environ config_path roots overrides front value rest h
      w p e c =
    let environment = task_environment environ overrides roots.work_dir in
    let argument =
      any-false (unsafe_argument files roots config_path environment) front value rest
        (ground arith) in
    unsafe_path-IsContained files roots value
      (ground (arith, unsafe_path_operand-plain files roots value p e c)) w c
