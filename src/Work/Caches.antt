-- ===== src/Work/Caches.antt =====
-- The object caches of checkouts: `objectCacheRoot`, `pruneObjectCaches` and
-- `pruneObjectCachesUnlocked` of internal/bitci/controller.go. The hash of a cache's name is any
-- function of texts. Rows with a null checkout_root, at which the scan fails, are not modelled.
pub mod Keeps
use bitci.Prelude.{
  Bool, true, false, not, ◌&&◌, ◌||◌, Option, none, some, List, [], ◌∷◌, ◌++◌, map, ◌≡◌, refl,
  arith, contains, ◌==◌, if◌then◌else◌, nat_eq, list_eq, Bool-cases, inl, inr, Option-cases, ℕ,
}
use bitci.Prelude.Text.{Text}
use bitci.Prelude.Strings.{is_empty, trim_space, to_lower}
use bitci.Sha.{is_checkout_sha}
use bitci.Paths.{Files}
use bitci.Paths.Compare.{resolved_path_for_comparison}
use bitci.Queue.{Job, Store, Host}
use bitci.Queue.Table.{select, find, is_active, has_id}

pub record CacheEntry : Type 0 where
  pub name : Text
  pub is_dir : Bool

-- What `os.ReadDir` gives for the folder of the caches.
pub data Caches : Type 0 where
  no_caches unlistable : Caches
  listed : List CacheEntry → Caches

pub data Pruned : Type 0 where
  done stage_locked list_failed remove_failed : Pruned

-- `state IN ('queued', 'running') OR cleanup_pending = 1`.
abbrev pub needs_cache : Job → Bool
needs_cache job = is_active job.state || job.cleanup_pending

-- The loop over the folder, which stops at a removal that fails.
unfoldable pub remove_entries :
    (remove : Text → Bool) (kept : List Text) → List CacheEntry → List CacheEntry × Pruned
remove_entries remove kept [] = ([], done)
remove_entries remove kept (e ∷ es) =
    let rest = remove_entries remove kept es in
    if not e.is_dir || contains kept e.name
    then (e ∷ rest.0, rest.1)
    else if remove e.name
    then rest
    else (e ∷ es, remove_failed)

-- `format` is what `rev-parse --show-object-format` prints in a checkout.
module _ (files : Files) (hash : Text → Text) (format : Text → Option Text)
    (remove : Text → Bool) where
  unfoldable pub object_cache_name : (root ref object_format : Text) → Text
  object_cache_name root ref object_format = hash (
      resolved_path_for_comparison files root
      ++ 0 ∷ to_lower (trim_space object_format)
      ++ 0 ∷ to_lower ref)

  -- The names to keep, or `none` as soon as Git fails in a checkout.
  unfoldable pub kept_caches : List Job → Option (List Text)
  kept_caches [] = some []
  kept_caches (job ∷ jobs) =
      let rest = kept_caches jobs in
      if is_empty job.checkout_root || not (is_checkout_sha job.ref)
      then rest
      else elim (format job.checkout_root) [
        | none ↦ none
        | some object_format ↦ elim rest [
          | none ↦ none
          | some names ↦ some (object_cache_name job.checkout_root job.ref object_format ∷ names)
        ]
      ]

  unfoldable pub prune_listed : Store → List CacheEntry → List CacheEntry × Pruned
  prune_listed store entries = elim (kept_caches (select needs_cache store.jobs)) [
    | none ↦ (entries, done)
    | some kept ↦ remove_entries remove kept entries
  ]

  unfoldable pub prune_object_caches_unlocked : Store → Caches → Caches × Pruned
  prune_object_caches_unlocked store no_caches = (no_caches, done)
  prune_object_caches_unlocked store unlistable = (unlistable, list_failed)
  prune_object_caches_unlocked store (listed entries) =
      let pruned = prune_listed store entries in (listed pruned.0, pruned.1)

  unfoldable pub prune_object_caches : Host → Store → Caches → Caches × Pruned
  prune_object_caches host store caches =
      if host.locked then prune_object_caches_unlocked store caches else (caches, stage_locked)
