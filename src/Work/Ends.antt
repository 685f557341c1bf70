-- ===== src/Work/Ends.antt =====
-- Every round of `runOnce` of internal/bitci/controller.go ends the job that it has claimed, and keeps
-- the invariant of the tables.
use bitci.Prelude.{
  ℕ, Bool, true, false, Option, none, some, List, [], ◌∷◌, ◌==◌, ◌≡◌, refl, arith, if◌then◌else◌,
  nat_eq, list_eq, Bool-cases, inl, inr,
}
use mathlib.Core.Path.{subst, subst⁻¹}
use bitci.Prelude.Text.{Text}
use bitci.Prelude.Int.{ℤ, int_eq}
use bitci.Prelude.Result.{Result, ok, err}
use bitci.Config.{Config}
use bitci.Config.Validate.{validate}
use bitci.Queue.{State, Job, Store, Git, Host, World, QueueError}
use bitci.Queue.Table.{count, find, is_active, has_id}
use bitci.Queue.Edits.{Edit, revises, releases, enqueues, starts, Edits, here, next, Edits-trans}
use bitci.Queue.Invariant.{Inv, Edits-Inv}
use bitci.Queue.Claim.{claim_context, start_row}
use bitci.Queue.Claim.Pending.{find-update, find-has_id}
use bitci.Queue.Claim.Effects.Claims.{ClaimResult, claim_context-ClaimResult}
use bitci.Queue.Finish.{state_of_code, finish_row, matching, finish}
use bitci.Queue.Finish.Effects.{ended_rows, finish-after, finish-Edits}
use bitci.Queue.Reach.{HasEnded, find-Revised_on, find-append_left, start_row-id, Edits-HasEnded}
use bitci.Paths.State.{Places}
use bitci.Work.Once.{Meets, run_job, Round, work, after_claim, run_once}
use bitci.Work.Rows.{run_job-Prepared}

-- A row of this id is in the table.
abbrev pub HasRow : Store → ℕ → Type 0
HasRow s id = (row : Job) × (find (has_id id) s.jobs ≡ some row)

Edit-HasRow : (own : Config) (s t : Store) (id : ℕ) → Edit own s t → HasRow s id → HasRow t id
Edit-HasRow own s t id (revises h _) (row, found) =
    let (after, found_after, r) = find-Revised_on id s.jobs t.jobs row h found in
    (after, found_after)
Edit-HasRow own s t id (releases _ e _) (row, found) = (row, rw e found)
Edit-HasRow own s t id (enqueues new _ _ e _) (row, found) =
    (row, rw e (find-append_left id s.jobs (new ∷ []) row found))
Edit-HasRow own s t id (starts st) (row, found) = (
  if has_id st.row.id row then start_row st.now row else row,
  rw st.started
      (find-update id (has_id st.row.id) (start_row st.now) s.jobs row (start_row-id st.now) found),
)

Edits-HasRow :
    (own : Config) (s : Store) {t : Store} (id : ℕ) → Edits own s t → HasRow s id → HasRow t id
Edits-HasRow own s id here h = h
Edits-HasRow own s id (next {t = t} {u = u} es e) h =
    Edit-HasRow own t u id e (Edits-HasRow own s id es h)

none_active :
    (id : ℕ) (xs : List Job) (row : Job)
    → count (matching id is_active) xs ≡ 0
    → find (has_id id) xs ≡ some row
    → is_active row.state ≡ false
unfolding count find
none_active id [] row h e = absurd ground arith
none_active id (x ∷ xs) row h e = ground (arith, none_active id xs row)

finish_row-id :
    (now : ℕ) (code : ℤ) (path : Text) (pending : Bool) (row : Job)
    → (finish_row now code path pending row).id ≡ row.id
unfolding finish_row
finish_row-id now code path pending row = refl

module _ {Repo : Type 0} (git : Git Repo) (host : Host) (own : Config) (remove : Text → Bool) where
  finish-HasEnded :
      (w : World Repo) (job : Job) (code : ℤ) (pending : Bool)
      → HasRow w.store job.id
      → (state : State) × HasEnded
          (finish git host remove own w job code pending).0.store
          job.id
          state
  unfolding finish finish_row
  finish-HasEnded w job code pending (row, found) =
      elim (Bool-cases (count (matching job.id is_active) w.store.jobs == 0)) [
        | inl absent ↦ rw absent (
          row.state,
          (row, found, none_active job.id w.store.jobs row (ground arith) found, refl),
        )
        | inr present ↦
            let (state, ended) = updated in
            (
              state,
              Edits-HasEnded own (ended_rows git host own w.store job code pending) job.id state
                  (finish-after git host own remove w job code pending present) ended,
            )
      ]
    where
      finished_state :
          (r : Job) → (finish_row host.now code job.log_path pending r).state ≡ state_of_code code
      finished_state r = refl

      finished_final :
          (r : Job) → is_active (finish_row host.now code job.log_path pending r).state ≡ false
      finished_final r = ground arith

      updated :
          (state : State) × HasEnded (ended_rows git host own w.store job code pending) job.id state
      updated =
          let same = find-has_id job.id w.store.jobs row found in
          let row_after =
            find-update job.id (matching job.id is_active)
              (finish_row host.now code job.log_path pending) w.store.jobs row
              (finish_row-id host.now code job.log_path pending) found in
          elim (Bool-cases (is_active row.state)) [
            | inl active ↦
                let hit : matching job.id is_active row ≡ true = ground arith in
                (
                  state_of_code code,
                  (
                    finish_row host.now code job.log_path pending row,
                    rw hit at row_after,
                    finished_final row,
                    finished_state row,
                  ),
                )
            | inr ended ↦
                let miss : matching job.id is_active row ≡ false = ground arith in
                (row.state, (row, rw miss at row_after, ended, refl))
          ]

module _ {Repo : Type 0} (git : Git Repo) (environ : List Text) (places : Places) (own : Config)
    (host : Host) (meets : Meets) (remove : Text → Bool) where
  -- A round that has claimed a job has ended it.
  pub HasDone : Round Repo → Type 0
  HasDone r = elim r.claimed [
    | none ↦ Unit {0}
    | some job ↦ (state : State) × HasEnded r.world.store job.id state
  ]

  work-ends :
      (job : Job) (w : World Repo)
      → HasRow w.store job.id
      → Edits own w.store (work git environ places own host meets remove job w).world.store
        × ((state : State) × HasEnded
              (work git environ places own host meets remove job w).world.store
              job.id
              state)
  unfolding work
  work-ends job w row =
      let (logged, ending) = run_job environ places own host meets remove job w.store in
      let prepared = run_job-Prepared environ places own host meets remove job w.store in
      let start = record w { store = ending.store } in
      let kept = Edits-HasRow own w.store job.id prepared.edits row in
      (
        Edits-trans prepared.edits
            (finish-Edits git host own remove start logged ending.code ending.pending),
        subst
            (λ (i : ℕ).
              (state : State) × HasEnded
                (finish git host remove own start logged ending.code ending.pending).0.store i
                state)
            prepared.id
            (finish-HasEnded git host own remove start logged ending.code ending.pending
              (subst⁻¹ (HasRow start.store) prepared.id kept)),
      )

  -- Under a valid configuration, one round keeps the invariant of the tables, whatever the host, Git, the
  -- file system and the processes answer; and if it has claimed a job, the job's row has ended.
  pub run_once-HasDone :
      (own_valid : validate own ≡ ok tt) (w : World Repo) (max_workers : ℤ)
      → Inv own w.store
      → Inv own (run_once git environ places own host meets remove w max_workers).world.store
        × HasDone (run_once git environ places own host meets remove w max_workers)
  unfolding run_once HasDone work
  run_once-HasDone own_valid w max_workers inv =
      claimed (claim_context git host own w max_workers)
        (claim_context-ClaimResult git host own own_valid w max_workers inv)
    where
      claimed :
          (r : World Repo × Result QueueError (Option Job))
          → ClaimResult git host own own_valid w.store r
          → Inv own (after_claim git environ places own host meets remove r).world.store
            × HasDone (after_claim git environ places own host meets remove r)
      claimed (t, err e) (edits, fewer) = (Edits-Inv own w.store edits inv, tt)
      claimed (t, ok none) (edits, fewer) = (Edits-Inv own w.store edits inv, tt)
      claimed (t, ok (some job)) taken =
          let row = Edits-HasRow own w.store job.id taken.edits (_, taken.eligible.found) in
          let (edits, ended) = work-ends job t row in
          (Edits-Inv own w.store (Edits-trans taken.edits edits) inv, ended)
