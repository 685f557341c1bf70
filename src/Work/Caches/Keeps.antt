-- ===== src/Work/Caches/Keeps.antt =====
-- What the pruning of the object caches in internal/bitci/controller.go never removes.
use bitci.Prelude.{
  Bool, true, false, not, ◌||◌, Option, some, List, [], ◌∷◌, map, ◌≡◌, arith, contains, nat_eq,
  list_eq, Bool-cases, inl, inr, Option-cases, ℕ,
}
use bitci.Prelude.Text.{Text}
use bitci.Prelude.Strings.{is_empty}
use bitci.Sha.{is_checkout_sha}
use bitci.Paths.{Files}
use bitci.Queue.{Job, Store, Host}
use bitci.Queue.Table.{select, find, has_id}
use bitci.Work.Caches.{
  CacheEntry, Caches, no_caches, unlistable, listed, needs_cache, remove_entries, object_cache_name,
  kept_caches, prune_listed, prune_object_caches_unlocked, prune_object_caches,
}

-- The folder has an entry of this name.
abbrev pub has_cache : Text → Caches → Bool
has_cache name (listed entries) = contains (map (λ (e : CacheEntry). e.name) entries) name
has_cache name _ = false

remove_entries-keeps :
    (remove : Text → Bool) (kept : List Text) (name : Text) (entries : List CacheEntry)
    → contains kept name ≡ true
    → has_cache name (listed entries) ≡ true
    → has_cache name (listed (remove_entries remove kept entries).0) ≡ true
unfolding remove_entries
remove_entries-keeps remove kept name [] keep h = h
remove_entries-keeps remove kept name (e ∷ es) keep h = elim (list_eq.dec name e.name) [
  | yes p ↦ let same : contains kept e.name ≡ true = rw p at keep in ground (arith, same)
  | no n ↦ ground (arith, remove_entries-keeps remove kept name es keep)
]

module _ (files : Files) (hash : Text → Text) (format : Text → Option Text)
    (remove : Text → Bool) where
  abbrev pub cache_of : Job → Text → Text
  cache_of job object_format =
      object_cache_name files hash format remove job.checkout_root job.ref object_format

  -- The names of the rows behind the first are kept as well.
  kept_caches-cons :
      (x : Job) (xs : List Job) (kept : List Text)
      → kept_caches files hash format remove (x ∷ xs) ≡ some kept
      → (names : List Text) × (kept_caches files hash format remove xs ≡ some names)
        × ((name : Text) → contains names name ≡ true → contains kept name ≡ true)
  unfolding kept_caches
  kept_caches-cons x xs kept k =
      elim (Bool-cases (is_empty x.checkout_root || not (is_checkout_sha x.ref))) [
        | inl skip ↦ (kept, rw skip at k, λ name h. h)
        | inr go ↦ elim (Option-cases (kept_caches files hash format remove xs)) [
          | inl stop ↦ elim (Option-cases (format x.checkout_root)) [
            | inl bad ↦ absurd (ground (arith, rw (go, bad) at k))
            | inr (f, good) ↦ absurd (ground (arith, rw (go, good, stop) at k))
          ]
          | inr (names, rest) ↦ elim (Option-cases (format x.checkout_root)) [
            | inl bad ↦ absurd (ground (arith, rw (go, bad) at k))
            | inr (f, good) ↦
                let all : some (cache_of x f ∷ names) ≡ some kept = rw (go, good, rest) at k in
                let same : cache_of x f ∷ names ≡ kept = ground arith in
                (names, rest, λ name h. rw (← same) ground arith)
          ]
        ]
      ]

  kept_caches-first :
      (x : Job) (xs : List Job) (object_format : Text) (kept : List Text)
      → is_empty x.checkout_root ≡ false
      → is_checkout_sha x.ref ≡ true
      → format x.checkout_root ≡ some object_format
      → kept_caches files hash format remove (x ∷ xs) ≡ some kept
      → contains kept (cache_of x object_format) ≡ true
  unfolding kept_caches
  kept_caches-first x xs f kept r c good k =
      elim (Option-cases (kept_caches files hash format remove xs)) [
        | inl stop ↦ absurd (ground (arith, rw (r, c, good, stop) at k))
        | inr (names, rest) ↦
            let all : some (cache_of x f ∷ names) ≡ some kept = rw (r, c, good, rest) at k in
            let same : cache_of x f ∷ names ≡ kept = ground arith in rw (← same) ground arith
      ]

  kept_caches-contains :
      (jobs : List Job) (id : ℕ) (job : Job) (object_format : Text) (kept : List Text)
      → find (has_id id) jobs ≡ some job
      → needs_cache job ≡ true
      → is_empty job.checkout_root ≡ false
      → is_checkout_sha job.ref ≡ true
      → format job.checkout_root ≡ some object_format
      → kept_caches files hash format remove (select needs_cache jobs) ≡ some kept
      → contains kept (cache_of job object_format) ≡ true
  unfolding find select
  kept_caches-contains [] id job object_format kept found n r c f k = absurd (ground arith)
  kept_caches-contains (x ∷ xs) id job object_format kept found n r c f k =
      elim (Bool-cases (has_id id x)) [
        | inl hit ↦
            let first : some x ≡ some job = rw hit at found in
            let same : x ≡ job = ground arith in
            kept_caches-first job (select needs_cache xs) object_format kept r c f
              (rw n at (rw same at k))
        | inr miss ↦
            let behind : find (has_id id) xs ≡ some job = rw miss at found in
            elim (Bool-cases (needs_cache x)) [
              | inl want ↦
                  let (names, rest, more) =
                    kept_caches-cons x (select needs_cache xs) kept (rw want at k) in
                  more (cache_of job object_format)
                    (kept_caches-contains xs id job object_format names behind n r c f rest)
              | inr idle ↦
                  kept_caches-contains xs id job object_format kept behind n r c f (rw idle at k)
            ]
      ]

  -- The cache of a job that waits, runs or is not cleaned up, if it was there, is there after the
  -- pruning, whatever fails.
  pub prune_object_caches-keeps :
      (host : Host) (store : Store) (cs : Caches) (id : ℕ) (job : Job) (object_format : Text)
      → find (has_id id) store.jobs ≡ some job
      → needs_cache job ≡ true
      → is_empty job.checkout_root ≡ false
      → is_checkout_sha job.ref ≡ true
      → format job.checkout_root ≡ some object_format
      → has_cache (cache_of job object_format) cs ≡ true
      → has_cache
          (cache_of job object_format)
          (prune_object_caches files hash format remove host store cs).0
        ≡ true
  unfolding prune_object_caches prune_object_caches_unlocked prune_listed
  prune_object_caches-keeps host store no_caches id job object_format found n r c f h =
      absurd (ground arith)
  prune_object_caches-keeps host store unlistable id job object_format found n r c f h =
      absurd (ground arith)
  prune_object_caches-keeps host store (listed entries) id job object_format found n r c f h =
      elim (Option-cases (kept_caches files hash format remove (select needs_cache store.jobs))) [
        | inl stop ↦ ground (arith, stop)
        | inr (kept, all) ↦
            let keep =
              kept_caches-contains store.jobs id job object_format kept found n r c f all in
            ground (
              arith,
              remove_entries-keeps remove kept (cache_of job object_format) entries keep h,
              all,
            )
      ]
