-- ===== src/Queue/Leases.antt =====
-- The laws of the table leases: what `INSERT INTO leases` and `DELETE FROM leases` of
-- internal/bitci/controller.go change of a resource's load.
use bitci.Prelude.{
  ℕ, ◌+◌, ◌≤◌, Bool, true, false, ◌&&◌, ◌||◌, Option, none, some, List, [], ◌∷◌, ◌++◌, ◌≡◌, refl,
  arith, contains, ◌==◌, if◌then◌else◌, nat_eq, list_eq,
}
use bitci.Prelude.Text.{Text}
use bitci.Prelude.Int.{ℤ, pos, negsuc}
use bitci.Config.Order.Relations.{Distinct}
use bitci.Queue.{Lease}
use bitci.Queue.Table.{select, count}
use bitci.Queue.Rows.{count-append}
use bitci.Queue.Claim.{has_lease, insert_leases}
use bitci.Queue.Edits.{load, AtMost}

abbrev lease_of : Text → ℕ → Lease
lease_of r id = record { resource = r; job_id = id }

has_lease-append :
    (r : Text) (j : ℕ) (ls : List Lease) (q : Text) (id : ℕ)
    → has_lease r j (ls ++ lease_of q id ∷ []) ≡ (has_lease r j ls || (q == r && id == j))
unfolding has_lease
has_lease-append r j [] q id = ground arith
has_lease-append r j (l ∷ ls) q id = ground (arith, has_lease-append r j ls q id)

load-append :
    (r : Text) (ls : List Lease) (q : Text) (id : ℕ)
    → load r (ls ++ lease_of q id ∷ []) ≡ load r ls + (if q == r then 1 else 0)
unfolding load count
load-append r ls q id =
    ground (arith, count-append (λ (l : Lease). l.resource == r) ls (lease_of q id ∷ []))

-- After the inserts exactly the given resources have one lease more, all of them by the job.
pub insert_leases-load :
    (id : ℕ) (rs : List Text) (ls after : List Lease)
    → Distinct rs
    → insert_leases id rs ls ≡ some after
    → (r : Text)
    → (load r after ≡ load r ls + (if contains rs r then 1 else 0))
      × ((j : ℕ) → has_lease r j after ≡ (has_lease r j ls || (contains rs r && id == j)))
unfolding insert_leases
insert_leases-load id [] ls after d h r = (ground arith, λ j. ground arith)
insert_leases-load id (q ∷ qs) ls after d h r =
    let inserted : insert_leases id qs (ls ++ lease_of q id ∷ []) ≡ some after = ground arith in
    let rest = insert_leases-load id qs (ls ++ lease_of q id ∷ []) after d.1 inserted r in
    (
      ground (arith, rest.0, load-append r ls q id, d.0),
      λ j. ground (arith, rest.1 j, has_lease-append r j ls q id),
    )

-- A job without leases can take distinct ones: the primary key is never violated.
pub insert_leases-total :
    (id : ℕ) (rs : List Text) (ls : List Lease)
    → Distinct rs
    → ((r : Text) → contains rs r ≡ true → has_lease r id ls ≡ false)
    → (after : List Lease) × (insert_leases id rs ls ≡ some after)
unfolding insert_leases
insert_leases-total id [] ls d h = (ls, refl)
insert_leases-total id (q ∷ qs) ls d h =
    let (after, e) =
      insert_leases-total id qs (ls ++ lease_of q id ∷ []) d.1
        (λ r m. ground (arith, has_lease-append r id ls q id, h r, d.0)) in
    (after, rw (h q (ground arith)) e)

pub has_lease-select :
    (p : Lease → Bool) (r : Text) (j : ℕ) (ls : List Lease)
    → has_lease r j (select p ls) ≡ true
    → has_lease r j ls ≡ true
unfolding has_lease select
has_lease-select p r j [] h = h
has_lease-select p r j (l ∷ ls) h = ground (arith, has_lease-select p r j ls)

pub load-select : (p : Lease → Bool) (r : Text) (ls : List Lease) → load r (select p ls) ≤ load r ls
unfolding load select count
load-select p r [] = omega arith
load-select p r (l ∷ ls) = ground (arith, load-select p r ls)

pub AtMost-mono : (n m : ℕ) (o : Option ℤ) → n ≤ m → AtMost m o → AtMost n o
AtMost-mono n m none h a = tt
AtMost-mono n m (some (pos k)) h a = ground arith
AtMost-mono n m (some (negsuc k)) h a = ground arith
