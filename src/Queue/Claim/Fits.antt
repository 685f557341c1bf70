-- ===== src/Queue/Claim/Fits.antt =====
-- `resourcesFree` of internal/bitci/controller.go is right: when it says yes, one more lease of each
-- resource keeps within the limit of the job and of every job that holds one.
use bitci.Prelude.{
  ℕ, suc, ◌+◌, true, false, Option, none, some, List, [], ◌∷◌, ◌≡◌, refl, arith, contains, ◌==◌,
  nat_eq, list_eq, Bool-cases, Option-cases, inl, inr, ℕ_discrete,
}
use bitci.Prelude.Text.{Text}
use bitci.Prelude.Int.{ℤ, pos, negsuc, ltℤ}
use bitci.Prelude.Dict.{is_some}
use bitci.Prelude.Result.{ok, >>=-eq-ok}
use bitci.Config.{Config}
use bitci.Queue.{Job, Lease, Store}
use bitci.Queue.Table.{count, find, has_id}
use bitci.Queue.Rows.{config_of, config_of-find, config_of-find-none}
use bitci.Queue.JobConfig.{snapshot_config}
use bitci.Queue.Edits.{load, limit_for, AtMost, Fits}
use bitci.Queue.Claim.{limit_of, min_limit, held_and_limit, resources_free, has_lease}

-- `a ≤ b`.
abbrev Below : ℤ → ℤ → Type 0
Below a b = ltℤ b a ≡ false

Below-refl : (a : ℤ) → Below a a
Below-refl (pos n) = ground arith
Below-refl (negsuc n) = ground arith

Below-trans : (a b c : ℤ) → Below a b → Below b c → Below a c
Below-trans (pos a) (pos b) (pos c) h k = ground arith
Below-trans (pos a) (pos b) (negsuc c) h k = ground arith
Below-trans (pos a) (negsuc b) c h k = absurd (ground arith)
Below-trans (negsuc a) (pos b) (pos c) h k = refl
Below-trans (negsuc a) (pos b) (negsuc c) h k = absurd (ground arith)
Below-trans (negsuc a) (negsuc b) (pos c) h k = refl
Below-trans (negsuc a) (negsuc b) (negsuc c) h k = ground arith

min_limit-Below : (a b : ℤ) → Below (min_limit a b) a × Below (min_limit a b) b
min_limit-Below (pos a) (pos b) = ground arith
min_limit-Below (pos a) (negsuc b) = ground arith
min_limit-Below (negsuc a) (pos b) = ground arith
min_limit-Below (negsuc a) (negsuc b) = ground arith

abbrev BelowOption : ℤ → Option ℤ → Type 0
BelowOption a none = Unit {0}
BelowOption a (some b) = Below a b

-- What one scan of the leases of a resource finds out.
record Scanned (own : Config) (jobs : List Job) (r : Text) (ls : List Lease) (held : ℕ) (limit : ℤ)
    (held' : ℕ) (limit' : ℤ) : Type 0 where
  counted : held' ≡ held + load r ls
  lower : Below limit' limit
  holders : (id : ℕ) → has_lease r id ls ≡ true → BelowOption limit' (limit_for own jobs r id)

abbrev pub Known : List Job → List Lease → Type 0
Known jobs [] = Unit {0}
Known jobs (l ∷ ls) = (is_some (config_of l.job_id jobs) ≡ true) × Known jobs ls

module _ (own : Config) (jobs : List Job) (r : Text) where
  -- A lease of the resource: its job's limit joins the minimum.
  Scanned-cons :
      (l : Lease) (ls : List Lease) (held : ℕ) (limit : ℤ) (held' : ℕ) (limit' : ℤ) (job : Job)
      (config : Config)
      → (l.resource == r) ≡ true
      → find (has_id l.job_id) jobs ≡ some job
      → snapshot_config own job.config_json ≡ ok config
      → Scanned own jobs r ls (suc held) (min_limit (limit_of config r) limit) held' limit'
      → Scanned own jobs r (l ∷ ls) held limit held' limit'
  unfolding load count has_lease
  Scanned-cons l ls held limit held' limit' job config same found decoded s = record {
    counted = ground (arith, s.counted);
    lower =
        Below-trans limit' (min_limit (limit_of config r) limit) limit s.lower
          (min_limit-Below (limit_of config r) limit).1;
    holders = λ id m. elim (ℕ_discrete l.job_id id) [
      | yes p ↦
          rw (← p, config_of-find l.job_id jobs job found, decoded)
            (Below-trans limit' (min_limit (limit_of config r) limit) (limit_of config r) s.lower
              (min_limit-Below (limit_of config r) limit).0)
      | no n ↦ s.holders id (ground arith)
    ];
  }

  held_and_limit-Scanned :
      (ls : List Lease) (held : ℕ) (limit : ℤ) (held' : ℕ) (limit' : ℤ)
      → Known jobs ls
      → held_and_limit own jobs r ls held limit ≡ ok (held', limit')
      → Scanned own jobs r ls held limit held' limit'
  unfolding held_and_limit load count has_lease
  held_and_limit-Scanned [] held limit held' limit' known h = record {
    counted = ground arith;
    lower = let same : limit ≡ limit' = ground arith in rw same (Below-refl limit');
    holders = λ id m. absurd (ground arith);
  }
  held_and_limit-Scanned (l ∷ ls) held limit held' limit' known h =
      elim (Bool-cases (l.resource == r)) [
        | inr other ↦
            let s = held_and_limit-Scanned ls held limit held' limit' known.1 (rw other at h) in
            record {
              counted = ground (arith, s.counted);
              lower = s.lower;
              holders = λ id m. s.holders id (ground arith);
            }
        | inl same ↦ elim (Option-cases (find (has_id l.job_id) jobs)) [
          | inl missing ↦
              absurd (ground (arith, config_of-find-none l.job_id jobs missing, known.0))
          | inr (job, found) ↦
              let (config, decoded, rest) =
                >>=-eq-ok (snapshot_config own job.config_json) _
                  (rw (same, found, held_and_limit) at h) in
              Scanned-cons l ls held limit held' limit' job config same found decoded (
                held_and_limit-Scanned ls (suc held) (min_limit (limit_of config r) limit) held'
                  limit' known.1 rest)
        ]
      ]

BelowOption-AtMost :
    (n : ℕ) (limit : ℤ) (o : Option ℤ) → Below (pos n) limit → BelowOption limit o → AtMost n o
BelowOption-AtMost n limit none h k = tt
BelowOption-AtMost n limit (some b) h k = Below-trans (pos n) limit b h k

suc-Below : (n : ℕ) (limit : ℤ) → ltℤ (pos n) limit ≡ true → Below (pos (suc n)) limit
suc-Below n (pos k) h = ground arith
suc-Below n (negsuc k) h = absurd (ground arith)

module _ (own : Config) (store : Store) (config : Config) where
  -- Where each lease belongs to a job of the table and `resources_free` answers yes, one more lease
  -- of any listed resource stays within the limit of the configuration asked for, and within the
  -- limit of the configuration of every job that holds a lease of it.
  pub resources_free-Fits :
      (rs : List Text)
      → Known store.jobs store.leases
      → resources_free own store config rs ≡ ok true
      → (r : Text) → contains rs r ≡ true
      → Fits own store r × AtMost (suc (load r store.leases)) (some (limit_of config r))
  unfolding resources_free
  resources_free-Fits [] known h r m = absurd (ground arith)
  resources_free-Fits (q ∷ qs) known h r m =
      let ((held, limit), scan, test) =
        >>=-eq-ok (held_and_limit own store.jobs q store.leases 0 (limit_of config q)) _ h in
      let s =
        held_and_limit-Scanned own store.jobs q store.leases 0 (limit_of config q) held limit known
          scan in
      let counted : held ≡ load q store.leases = omega (arith, s.counted) in
      let tested : ltℤ (pos held) limit ≡ true = ground arith in
      let room : Below (pos (suc (load q store.leases))) limit =
        suc-Below (load q store.leases) limit (rw counted at tested) in
      elim (list_eq.dec r q) [
        | yes p ↦ rw p (
          λ id old. BelowOption-AtMost _ limit _ room (s.holders id old),
          Below-trans (pos (suc (load q store.leases))) limit (limit_of config q) room s.lower,
        )
        | no n ↦ resources_free-Fits qs known (ground arith) r (ground arith)
      ]
