-- ===== src/Dashboard/Usage.antt =====
-- The resources on the dashboard (`resourceUsage` of internal/bitci/dashboard.go) against the limits
-- that the queue keeps.
use bitci.Prelude.{
  ℕ, ◌+◌, Eq, contains, none, Bool, true, Option, some, List, [], ◌∷◌, map, ◌≡◌, refl, ◌∙◌, arith,
  ◌==◌, if◌then◌else◌, nat_eq, list_eq,
}
use bitci.Prelude.Text.{Text}
use bitci.Prelude.Dict.{Dict, keys, lookup, is_some, contains-keys}
use bitci.Prelude.Result.{ok}
use bitci.Config.{Config}
use bitci.Config.Order.{sort_strings}
use bitci.Config.Order.Names.{contains-sort_strings}
use bitci.Config.Validate.{validate}
use bitci.Queue.{Snapshot, Lease, Store, Git, Host, World}
use bitci.Queue.Table.{count, find}
use bitci.Queue.Rows.{config_of}
use bitci.Queue.JobConfig.{snapshot_config}
use bitci.Queue.Claim.{has_lease, limit_of}
use bitci.Queue.Edits.{load, limit_under, AtMost}
use bitci.Queue.Invariant.{Inv}
use bitci.Queue.Reach.{Call, run_all, run_all-Inv}
use bitci.Dashboard.{bump, count_of, tally, leases_in_use, ResourceUsage, usage_of, resource_usage}

module _ {ℓ} {K : Type ℓ} ⦃e : Eq K⦄ where
  count_of-bump :
      (k j : K) (d : Dict K ℕ) → count_of k (bump j d) ≡ count_of k d + (if j == k then 1 else 0)
  unfolding count_of bump
  count_of-bump k j [] = ground arith
  count_of-bump k j ((i, n) ∷ d) = ground (arith, count_of-bump k j d)

  -- A tally adds to each key the number of its occurrences.
  pub count_of-tally :
      (k : K) (ks : List K) (d : Dict K ℕ)
      → count_of k (tally ks d) ≡ count_of k d + count (λ j. j == k) ks
  unfolding tally count
  count_of-tally k [] d = ground arith
  count_of-tally k (j ∷ ks) d = ground (arith, count_of-tally k ks (bump j d), count_of-bump k j d)

pub count-map {ℓ κ} :
    {A : Type ℓ} {B : Type κ} (p : B → Bool) (f : A → B) (xs : List A)
    → count p (map f xs) ≡ count (λ x. p (f x)) xs
unfolding count
count-map p f [] = refl
count-map p f (x ∷ xs) = ground (arith, count-map p f xs)

leases_in_use-load :
    (name : Text) (leases : List Lease) → count_of name (leases_in_use leases) ≡ load name leases
unfolding leases_in_use load count_of
leases_in_use-load name leases = omega (
  arith,
  count_of-tally name (map (λ (l : Lease). l.resource) leases) [],
  count-map (λ q. q == name) (λ (l : Lease). l.resource) leases,
)

module _ (own : Config) (in_use : Dict Text ℕ) where
  -- A name has a row exactly if it is listed, and the row is the one that `usage_of` makes.
  find-usage :
      (name : Text) (names : List Text)
      → find (λ u. u.name == name) (map (usage_of own in_use) names)
        ≡ (if contains names name then some (usage_of own in_use name) else none)
  unfolding find usage_of
  find-usage name [] = refl
  find-usage name (n ∷ ns) = elim (list_eq.dec n name) [
    | yes p ↦ rw p ground arith
    | no q ↦ ground (arith, find-usage name ns)
  ]

-- The dashboard has a row for each configured resource and for no other name. The row shows how many
-- leases of the resource there are, and its configured limit.
pub resource_usage-rows :
    (own : Config) (store : Store) (name : Text)
    → find (λ u. u.name == name) (resource_usage own store) ≡ (
        if is_some (lookup name own.resources)
        then some
            (record { name = name; in_use = load name store.leases; limit = limit_of own name })
        else none)
unfolding resource_usage usage_of
resource_usage-rows own store name =
    find-usage own (leases_in_use store.leases) name (sort_strings (keys own.resources))
    ∙ rw
        (
          contains-sort_strings (keys own.resources) name,
          contains-keys name own.resources,
          leases_in_use-load name store.leases,
        )
        refl

AtMost-under :
    (own config : Config) (r : Text) (n : ℕ) (snapshot : Snapshot) (o : Option Snapshot)
    → o ≡ some snapshot
    → snapshot_config own snapshot ≡ ok config
    → AtMost n (limit_under own r o)
    → AtMost n (some (limit_of config r))
AtMost-under own config r n snapshot o h k a = rw k at (rw h at a)

module _ {Repo : Type 0} (git : Git Repo) (own : Config) (own_valid : validate own ≡ ok tt) where
  -- After any calls from a store that satisfies the invariant: where a job holds a lease of a
  -- configured resource, and its configuration has the limit that the dashboard shows, the number of
  -- leases shown is at most this limit.
  pub resource_usage-bounded :
      (w : World Repo) (calls : List (Host × Call)) (name : Text) (row : ResourceUsage) (id : ℕ)
      (snapshot : Snapshot) (config : Config)
      → Inv own w.store
      → let after = (run_all git own w calls).store in
        find (λ u. u.name == name) (resource_usage own after) ≡ some row
        → has_lease name id after.leases ≡ true
        → config_of id after.jobs ≡ some snapshot
        → snapshot_config own snapshot ≡ ok config
        → limit_of config name ≡ row.limit
        → AtMost row.in_use (some row.limit)
  resource_usage-bounded w calls name row id snapshot config inv found held job decoded equal =
      let after = (run_all git own w calls).store in
      let within =
        AtMost-under own config name (load name after.leases) snapshot (config_of id after.jobs) job
          decoded ((run_all-Inv git own own_valid w calls inv).within name id held) in
      let counted : row.in_use ≡ load name after.leases =
        ground (arith, resource_usage-rows own after name) in
      rw (counted, ← equal) within
