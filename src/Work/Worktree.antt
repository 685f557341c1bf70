-- ===== src/Work/Worktree.antt =====
-- The worktree of a job: `jobCheckout`, `jobLocation`, `jobCheckoutOwner`, `verifyJobWorktree`,
-- `verifyJobGitMetadata`,
-- `removeJobWorktree` and `workDirWithinWorktree` of internal/bitci/controller.go. What the file
-- system and Git answer at each step is a part of the model's input.
use bitci.Prelude.{
  Bool, true, false, not, ◌&&◌, ◌||◌, Option, none, some, List, [], ◌∷◌, ◌++◌, ◌==◌, if◌then◌else◌,
  nat_eq, list_eq, leb,
}
use bitci.Prelude.Text.{Text, codes}
use bitci.Prelude.Strings.{is_empty, to_lower, equal_fold, trim_space, decimal}
use bitci.Sha.{is_checkout_sha}
use bitci.Guard.{any}
use bitci.Queue.{Job, Store, Host}
use bitci.Queue.Table.{update, has_id}
use bitci.Paths.{Entry, missing, unreadable, link, directory, file, Files, join_path}
use bitci.Paths.Compare.{path_within, same_path, resolved_path_for_comparison}
use bitci.Stage.Tree.{split}

-- What `jobCheckout` meets, in the order of its steps.
-- `objects` is the cache that `copyRecordedObjects` makes, `head` what `rev-parse` says at the end.
pub record Staging : Type 0 where
  pub root_made : Bool
  pub present : Entry
  pub directory_made : Bool
  pub owner_written : Bool
  pub object_format : Option Text
  pub initialized : Bool
  pub objects : Option Text
  pub linked : Bool
  pub checked_out : Bool
  pub refs_copied : Bool
  pub head : Option Text

-- `checkoutSHA` of a directory.
unfoldable pub full_sha : Option Text → Option Text
full_sha none = none
full_sha (some output) =
    if is_checkout_sha (trim_space output) then some (trim_space output) else none

unfoldable pub job_location : Host → Job → Option (Text × Text)
job_location host job =
    if is_empty job.checkout_root
    then host.location
    else some (job.checkout_root, job.config_relative)

unfoldable pub worktree_path : (state_dir : Text) → Job → Text
worktree_path state_dir job = join_path state_dir (codes "worktrees/job-" ++ decimal job.id)

unfoldable pub job_checkout_owner : Job → Text
job_checkout_owner job = decimal job.id ++ codes "\n" ++ to_lower job.ref ++ codes "\n"

abbrev is_some {ℓ} : {A : Type ℓ} → Option A → Bool
is_some none = false
is_some (some a) = true

abbrev pub all_made : Staging → Bool
all_made staging =
    staging.directory_made
    && staging.owner_written
    && is_some staging.object_format
    && staging.initialized
    && is_some staging.objects
    && staging.linked
    && staging.checked_out
    && staging.refs_copied

-- A worktree, or a failure, and whether something is left to remove.
pub data Staged : Type 0 where
  not_staged : (cleanup : Bool) → Staged
  staged_in : (work_dir : Text) → Staged

unfoldable pub pending_row : Job → Job
pending_row row = record row { cleanup_pending = true }

unfoldable pub tested_row : Text → Job → Job
tested_row sha row = record row { tested_sha = sha }

abbrev pub set_rows : (Job → Bool) → (Job → Job) → Store → Store
set_rows p f store = record store { jobs = update p f store.jobs }

unfoldable pub check_staged : Text → Text → Job → Staging → Store → Store × Staged
check_staged path relative job staging store = elim (full_sha staging.head) [
  | none ↦ (store, not_staged true)
  | some sha ↦
      if all_made staging && equal_fold sha job.ref
      then (set_rows (has_id job.id) (tested_row sha) store, staged_in (join_path path relative))
      else (store, not_staged true)
]

unfoldable pub job_checkout : Host → (state_dir : Text) → Job → Staging → Store → Store × Staged
job_checkout host state_dir job staging store = elim (job_location host job) [
  | none ↦ (store, not_staged false)
  | some (root, relative) ↦
      let path = worktree_path state_dir job in
      let staged =
        check_staged path relative job staging (set_rows (has_id job.id) pending_row store) in
      if not staging.root_made then (store, not_staged false) else elim staging.present [
        | missing ↦ staged
        | unreadable ↦ (store, not_staged false)
        | link ↦ (store, not_staged false)
        | directory ↦ (store, not_staged false)
        | file executable ↦ (store, not_staged false)
      ]
]

-- What a check of the worktree reads: the entries below `.git`, and Git's answers there.
pub record Worktree : Type 0 where
  pub root : Entry
  pub git_directory : Entry
  pub metadata : Option (List Entry)
  pub owner : Option Text
  pub toplevel : Option Text
  pub common_directory : Option Text
  pub flags : Option Text
  pub status : Option Text
  pub head : Option Text

abbrev pub is_link : Entry → Bool
is_link link = true
is_link _ = false

abbrev pub is_plain_directory : Entry → Bool
is_plain_directory directory = true
is_plain_directory _ = false

unfoldable pub any_link : List Entry → Bool
any_link [] = false
any_link (entry ∷ entries) = is_link entry || any_link entries

unfoldable pub verify_job_git_metadata : Option (List Entry) → Bool
verify_job_git_metadata none = false
verify_job_git_metadata (some entries) = not (any_link entries)

-- An index entry that is skipped, or assumed unchanged.
abbrev pub is_flagged : Text → Bool
is_flagged [] = false
is_flagged (c ∷ entry) = c == b'S' || (leb b'a' c && leb c b'z')

abbrev pub holds {ℓ} : {A : Type ℓ} → (A → Bool) → Option A → Bool
holds p none = false
holds p (some a) = p a

unfoldable pub verify_job_worktree :
    Files → (worktree_root ref expected_owner : Text) → Worktree → Bool
verify_job_worktree files worktree_root ref expected_owner tree =
    is_plain_directory tree.root
    && is_plain_directory tree.git_directory
    && verify_job_git_metadata tree.metadata
    && holds (λ owner. owner == expected_owner) tree.owner
    && holds (λ root. same_path files (trim_space root) worktree_root) tree.toplevel
    && holds
        (λ common. same_path files (trim_space common) (join_path worktree_root (codes ".git")))
        tree.common_directory
    && holds (λ flags. not (any is_flagged (split 0 [] flags))) tree.flags
    && holds (λ status. is_empty status) tree.status
    && holds (λ sha. equal_fold sha ref) (full_sha tree.head)

-- `removed` is the answer of `os.RemoveAll`; only a worktree that is still the job's is given to it.
unfoldable pub remove_job_worktree : (expected_owner : Text) → Worktree → (removed : Bool) → Bool
remove_job_worktree expected_owner tree removed = elim tree.root [
  | missing ↦ true
  | unreadable ↦ false
  | link ↦ false
  | file executable ↦ false
  | directory ↦
      holds (λ owner. owner == expected_owner) tree.owner
      && is_plain_directory tree.git_directory
      && verify_job_git_metadata tree.metadata
      && removed
]

unfoldable pub work_dir_within_worktree : Files → (worktree_root work_dir : Text) → Bool
work_dir_within_worktree files worktree_root work_dir =
    not (is_empty worktree_root)
    && path_within files (resolved_path_for_comparison files worktree_root)
        (resolved_path_for_comparison files work_dir)
