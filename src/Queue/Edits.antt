-- ===== src/Queue/Edits.antt =====
-- The changes that the operations of internal/bitci/controller.go make to the tables jobs and
-- leases, as a step relation. The table batch_refs may change in any step.
use bitci.Prelude.{
  ℕ, suc, Bool, true, false, Option, none, some, List, [], ◌∷◌, ◌++◌, ◌≡◌, contains, ◌==◌, nat_eq,
  list_eq,
}
use bitci.Prelude.Text.{Text}
use bitci.Prelude.Int.{ℤ, pos, ltℤ}
use bitci.Prelude.Result.{Result, ok, err}
use bitci.Config.{Config}
use bitci.Config.Order.Relations.{Distinct}
use bitci.Queue.{Snapshot, Job, Lease, Store, QueueError}
use bitci.Queue.Table.{select, count, find, update, is_queued, has_id}
use bitci.Queue.Rows.{Revised, Revised-refl, Revises, update-Revised, config_of}
use bitci.Queue.JobConfig.{snapshot_config}
use bitci.Queue.Claim.{limit_of, has_lease, insert_leases, start_row}

-- How many leases a resource has.
unfoldable pub load : Text → List Lease → ℕ
load r leases = count (λ l. l.resource == r) leases

abbrev pub limit_in : Text → Result QueueError Config → Option ℤ
limit_in r (ok config) = some (limit_of config r)
limit_in r (err e) = none

abbrev pub limit_under : Config → Text → Option Snapshot → Option ℤ
limit_under own r none = none
limit_under own r (some snapshot) = limit_in r (snapshot_config own snapshot)

-- The limit that the configuration of the job with this id sets, if that can be read.
abbrev pub limit_for : Config → List Job → Text → ℕ → Option ℤ
limit_for own jobs r id = limit_under own r (config_of id jobs)

abbrev pub AtMost : ℕ → Option ℤ → Type 0
AtMost n none = Unit {0}
AtMost n (some limit) = ltℤ limit (pos n) ≡ false

-- One more lease of the resource stays within the limit of every job that holds one.
abbrev pub Fits : Config → Store → Text → Type 0
Fits own s r =
    (id : ℕ)
    → has_lease r id s.leases ≡ true
    → AtMost (suc (load r s.leases)) (limit_for own s.jobs r id)

-- A queued row starts and takes a lease of each of its resources.
pub record Starts (own : Config) (s t : Store) : Type 0 where
  pub now : ℕ
  pub row : Job
  pub resources : List Text
  pub found : find (has_id row.id) s.jobs ≡ some row
  pub waiting : is_queued row.state ≡ true
  pub distinct : Distinct resources
  pub fits : (r : Text) → contains resources r ≡ true → Fits own s r
  pub own_limit :
      (r : Text)
      → contains resources r ≡ true
      → AtMost (suc (load r s.leases)) (limit_for own s.jobs r row.id)
  pub started : t.jobs ≡ update (has_id row.id) (start_row now) s.jobs
  pub taken : insert_leases row.id resources s.leases ≡ some t.leases

pub data Edit (own : Config) (s t : Store) : Type 0 where
  revises : Revised s.jobs t.jobs → t.leases ≡ s.leases → Edit own s t
  releases : (p : Lease → Bool) → t.jobs ≡ s.jobs → t.leases ≡ select p s.leases → Edit own s t
  enqueues :
      (row : Job)
      → count (has_id row.id) s.jobs ≡ 0
      → is_queued row.state ≡ true
      → t.jobs ≡ s.jobs ++ row ∷ []
      → t.leases ≡ s.leases
      → Edit own s t
  starts : Starts own s t → Edit own s t

pub data Edits (own : Config) (s : Store) : Store → Type 0 where
  here : Edits own s s
  next : {t u : Store} → Edits own s t → Edit own t u → Edits own s u

pub Edits-trans : {own : Config} {s t u : Store} → Edits own s t → Edits own t u → Edits own s u
Edits-trans a here = a
Edits-trans a (next b e) = next (Edits-trans a b) e

pub Edits-one : {own : Config} {s t : Store} → Edit own s t → Edits own s t
Edits-one e = next here e

-- Only batch_refs differs.
abbrev pub SameRows : Store → Store → Type 0
SameRows s t = (t.jobs ≡ s.jobs) × (t.leases ≡ s.leases)

pub SameRows-Edits : (own : Config) (s t : Store) → SameRows s t → Edits own s t
SameRows-Edits own s t (e, f) = Edits-one (revises (rw e (Revised-refl s.jobs)) f)

pub update-Edits :
    (own : Config) (s t : Store) (p : Job → Bool) (f : Job → Job)
    → ((row : Job) → p row ≡ true → Revises row (f row))
    → t.jobs ≡ update p f s.jobs
    → t.leases ≡ s.leases
    → Edits own s t
update-Edits own s t p f h e g = Edits-one (revises (rw e (update-Revised p f s.jobs h)) g)
