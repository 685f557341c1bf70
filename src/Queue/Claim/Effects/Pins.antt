-- ===== src/Queue/Claim/Effects/Pins.antt =====
-- What `ready` and `pinClaimedJob` of internal/bitci/controller.go find out and change.
use bitci.Prelude.{
  ℕ, Bool, true, ◌&&◌, some, List, [], ◌∷◌, ◌≡◌, refl, arith, ◌==◌, if◌then◌else◌, nat_eq, list_eq,
  contains, Bool-cases, inl, inr, Option-cases,
}
use bitci.Prelude.Text.{Text}
use bitci.Prelude.Strings.{is_empty, to_lower}
use bitci.Prelude.Result.{ok, >>=-eq-ok}
use bitci.Config.{Config}
use bitci.Queue.BatchRefs.{batch_ref}
use bitci.Queue.{State, queued, running, passed, failed, cancelled, Job, Store, Git, Host, World}
use bitci.Queue.Table.{find, update, has_id, in_batch}
use bitci.Queue.Rows.{Revised, Revised-refl, update-Revised, stays}
use bitci.Queue.Claim.{
  is_ready, after_need, ready, locate, git_pin, recorded_pin, replace_batch_ref, pin_claimed_job,
}
use bitci.Queue.Claim.Pending.{find-update}

-- The row of the task in the batch, as `ready` finds it, has passed.
abbrev pub HasPassed : List Job → Text → Text → Type 0
HasPassed jobs batch need =
    (row : Job) × (find (λ job. in_batch batch job && job.task == need) jobs ≡ some row)
    × (row.state ≡ passed)

pub ready-HasPassed :
    (jobs : List Job) (batch : Text) (needs : List Text) (need : Text)
    → ready jobs batch needs ≡ ok is_ready
    → contains needs need ≡ true
    → HasPassed jobs batch need
unfolding ready
ready-HasPassed jobs batch [] need h m = absurd (ground arith)
ready-HasPassed jobs batch (n ∷ ns) need h m =
    elim (Option-cases (find (λ job. in_batch batch job && job.task == n) jobs)) [
      | inl lost ↦ absurd (ground arith)
      | inr (row, found) ↦ elim (list_eq.dec need n) [
        | yes p ↦ rw p (row, found, done row.state (rw (found, ready) at h))
        | no other ↦
            ready-HasPassed jobs batch ns need (rest row.state (rw (found, ready) at h))
              (ground arith)
      ]
    ]
  where
    done : (s : State) → after_need s (ready jobs batch ns) ≡ ok is_ready → s ≡ passed
    done passed e = refl
    done queued e = absurd (ground arith)
    done running e = absurd (ground arith)
    done failed e = absurd (ground arith)
    done cancelled e = absurd (ground arith)

    rest :
        (s : State)
        → after_need s (ready jobs batch ns) ≡ ok is_ready
        → ready jobs batch ns ≡ ok is_ready
    rest s e = rw (done s e) at e

-- What `pin_claimed_job` leaves of the tables jobs and leases.
pub record Pinned (s : Store) (id : ℕ) (t : Store) (out : Job) : Type 0 where
  pub same_id : out.id ≡ id
  pub jobs : Revised s.jobs t.jobs
  pub leases : t.leases ≡ s.leases
  pub still :
      (row : Job)
      → find (has_id id) s.jobs ≡ some row
      → (after : Job) × (find (has_id id) t.jobs ≡ some after) × (after.state ≡ row.state)

locate-Pinned :
    (host : Host) (s : Store) (job : Job) (t : Store) (out : Job)
    → locate host s job ≡ ok (t, out)
    → Pinned s job.id t out
unfolding locate
locate-Pinned host s job t out h = elim (Bool-cases (is_empty job.checkout_root)) [
  | inr recorded ↦
      let same : s ≡ t = ground arith in
      let same_job : job ≡ out = ground arith in
      rw (← same, ← same_job)
        (record {
          same_id = refl;
          jobs = Revised-refl s.jobs;
          leases = refl;
          still = λ row f. (row, f, refl);
        })
  | inl fresh ↦ elim (Option-cases host.location) [
    | inl unknown ↦ absurd (ground (arith, unknown))
    | inr ((root, relative), known) ↦
        let at_root =
          λ (row : Job). record row { checkout_root = root; config_relative = relative } in
        let jobs_at : t.jobs ≡ update (in_batch job.batch) at_root s.jobs = ground (arith, known) in
        let leases_at : t.leases ≡ s.leases = ground (arith, known) in
        record {
          same_id = ground (arith, known);
          jobs = rw jobs_at (
              update-Revised (in_batch job.batch) at_root s.jobs (λ row m. record {
                id = refl;
                batch = refl;
                task = refl;
                config_json = refl;
                move = stays refl;
              }));
          leases = leases_at;
          still = λ row f.
              let g = find-update job.id (in_batch job.batch) at_root s.jobs row (λ y. refl) f in
              (if in_batch job.batch row then at_root row else row, rw jobs_at g, ground arith);
        }
  ]
]

pub pin_claimed_job-Pinned :
    {Repo : Type 0} (git : Git Repo) (host : Host) (own : Config) (w : World Repo) (job : Job)
    (next : World Repo) (out : Job) (created : Bool)
    → pin_claimed_job git host own w job ≡ ok (next, out, created)
    → Pinned w.store job.id next.store out
unfolding pin_claimed_job replace_batch_ref
pin_claimed_job-Pinned git host own w job next out created h =
    let ((store, located), e₁, h₁) = >>=-eq-ok (locate host w.store job) _ h in
    let pinned : Job = record located { ref = to_lower located.ref } in
    let (recorded, _, h₂) = >>=-eq-ok (recorded_pin store.batch_refs pinned) _ h₁ in
    let (fresh, _, h₃) =
      >>=-eq-ok
        (git_pin (git.rev_parse w.repo pinned.checkout_root (batch_ref pinned.batch)) pinned
          recorded)
        _ h₂ in
    let p = locate-Pinned host w.store job store located e₁ in
    elim (Option-cases
      (git.update_ref w.repo pinned.checkout_root (batch_ref pinned.batch) pinned.ref)) [
        | inl refused ↦ absurd (ground (arith, refused))
        | inr (repo, updated) ↦
            let jobs_at : next.store.jobs ≡ store.jobs = ground (arith, updated) in
            let leases_at : next.store.leases ≡ store.leases = ground (arith, updated) in
            let same : out.id ≡ located.id = ground (arith, updated) in
            record {
              same_id = cc (same, p.same_id);
              jobs = rw jobs_at p.jobs;
              leases = cc (leases_at, p.leases);
              still = rw jobs_at p.still;
            }
      ]
