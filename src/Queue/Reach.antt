-- ===== src/Queue/Reach.antt =====
-- Any sequence of the operations of internal/bitci/controller.go on the tables, from an empty
-- database on: each step is one call, with its own answers of the host. What Git did is a part of the
-- world that the steps carry along.
use bitci.Prelude.{
  ℕ, Bool, true, false, Option, none, some, List, [], ◌∷◌, ◌++◌, ◌≡◌, refl, arith, if◌then◌else◌,
  nat_eq, list_eq, Bool-cases, inl, inr,
}
use bitci.Prelude.Text.{Text}
use bitci.Prelude.Int.{ℤ}
use bitci.Prelude.Result.{Result, ok, err}
use bitci.Config.{Config}
use bitci.Config.Validate.{validate}
use bitci.Queue.{State, Job, Store, Git, Host, World, QueueError}
use bitci.Queue.Table.{find, update, is_active, has_id}
use bitci.Queue.Rows.{Revises, Revised, Moves, stays, ends}
use bitci.Queue.Edits.{Edit, revises, releases, enqueues, starts, Edits, here, next, Edits-trans}
use bitci.Queue.Invariant.{Inv, Edits-Inv}
use bitci.Queue.Claim.{claim_context, start_row}
use bitci.Queue.Claim.Pending.{find-update, find-has_id}
use bitci.Queue.Claim.Effects.Claims.{ClaimResult, claim_context-ClaimResult}
use bitci.Queue.Submit.{submit}
use bitci.Queue.Submit.Effects.{submit-Edits}
use bitci.Queue.Retry.{retry_context}
use bitci.Queue.Retry.Effects.{retry-Edits}
use bitci.Queue.Finish.{finish, cancel_context}
use bitci.Queue.Finish.Effects.{finish-Edits, cancel-Edits}
use bitci.Queue.Recover.{Processes, recover_orphaned, recover_job, recover_interrupted}
use bitci.Queue.Recover.Effects.{
  recover_orphaned-Edits, recover_job-Edits, recover_interrupted-Edits,
}

-- The controller's calls, with their arguments.
pub data Call : Type 0 where
  submits :
      (config : Config) (names : List Text) (ref submitted_ref root relative : Text)
      (batch : Option Text)
      → Call
  claims : (max_workers : ℤ) → Call
  finishes : (remove : Text → Bool) (job : Job) (code : ℤ) (cleanup_pending : Bool) → Call
  cancels : (id : ℕ) → Call
  retries : (exists : Text → Text → Text → Bool) (id : ℕ) (batch : Option Text) → Call
  recovers_orphaned : Processes → (active : List ℕ) → Call
  recovers_job : Processes → (id : ℕ) → Call
  recovers_interrupted : Processes → (remove : Text → Bool) → Call

module _ {Repo : Type 0} (git : Git Repo) (own : Config) where
  unfoldable pub run : Host → World Repo → Call → World Repo
  run host w (submits config names ref submitted_ref root relative batch) =
      (submit git host w config names ref submitted_ref root relative [] batch).0
  run host w (claims max_workers) = (claim_context git host own w max_workers).0
  run host w (finishes remove job code pending) = (finish git host remove own w job code pending).0
  run host w (cancels id) = (cancel_context git host w id).0
  run host w (retries exists id batch) = (retry_context git host exists own w id batch).0
  run host w (recovers_orphaned processes active) = (recover_orphaned git host processes active w).0
  run host w (recovers_job processes id) = (recover_job git host processes w id).0
  run host w (recovers_interrupted processes remove) =
      (recover_interrupted git host processes remove own w).0

  unfoldable pub run_all : World Repo → List (Host × Call) → World Repo
  run_all w [] = w
  run_all w ((host, call) ∷ calls) = run_all (run host w call) calls

  module _ (own_valid : validate own ≡ ok tt) where
    ClaimResult-Edits :
        (host : Host) (s : Store) (r : World Repo × Result QueueError (Option Job))
        → ClaimResult git host own own_valid s r
        → Edits own s r.0.store
    ClaimResult-Edits host s (after, ok (some job)) claimed = claimed.edits
    ClaimResult-Edits host s (after, ok none) (edits, fewer) = edits
    ClaimResult-Edits host s (after, err e) (edits, fewer) = edits

    run-Edits :
        (host : Host) (w : World Repo) (call : Call)
        → Inv own w.store
        → Edits own w.store (run host w call).store
    unfolding run
    run-Edits host w (submits config names ref submitted_ref root relative batch) inv =
        submit-Edits git host w config names ref submitted_ref root relative [] batch own
    run-Edits host w (claims max_workers) inv =
        ClaimResult-Edits host w.store (claim_context git host own w max_workers)
          (claim_context-ClaimResult git host own own_valid w max_workers inv)
    run-Edits host w (finishes remove job code pending) inv =
        finish-Edits git host own remove w job code pending
    run-Edits host w (cancels id) inv = cancel-Edits git host own w id
    run-Edits host w (retries exists id batch) inv = retry-Edits git host exists own w id batch
    run-Edits host w (recovers_orphaned processes active) inv =
        recover_orphaned-Edits git host processes own active w
    run-Edits host w (recovers_job processes id) inv = recover_job-Edits git host processes own w id
    run-Edits host w (recovers_interrupted processes remove) inv =
        recover_interrupted-Edits git host processes own remove w

    -- Under a valid configuration, every sequence of the controller's calls, whatever the host and
    -- Git answer, keeps the invariant of the tables: ids are distinct, each lease belongs to a job
    -- that no longer waits, and no resource has more leases than the configuration of any job that
    -- holds one allows.
    pub run_all-Inv :
        (w : World Repo) (calls : List (Host × Call))
        → Inv own w.store
        → Inv own (run_all w calls).store
    unfolding run_all
    run_all-Inv w [] inv = inv
    run_all-Inv w ((host, call) ∷ calls) inv =
        run_all-Inv (run host w call) calls (Edits-Inv own w.store (run-Edits host w call inv) inv)

    pub run_all-Edits :
        (w : World Repo) (calls : List (Host × Call))
        → Inv own w.store
        → Edits own w.store (run_all w calls).store
    unfolding run_all
    run_all-Edits w [] inv = here
    run_all-Edits w ((host, call) ∷ calls) inv =
        let edits = run-Edits host w call inv in
        Edits-trans edits (run_all-Edits (run host w call) calls (Edits-Inv own w.store edits inv))

-- The row of this id has ended in this state.
abbrev pub HasEnded : Store → ℕ → State → Type 0
HasEnded s id state =
    (row : Job) × (find (has_id id) s.jobs ≡ some row)
    × (is_active row.state ≡ false)
    × (row.state ≡ state)

pub find-Revised_on :
    (id : ℕ) (xs ys : List Job) (x : Job)
    → Revised xs ys
    → find (has_id id) xs ≡ some x
    → (y : Job) × (find (has_id id) ys ≡ some y) × Revises x y
unfolding find
find-Revised_on id [] ys x h e = absurd (ground arith)
find-Revised_on id (z ∷ xs) [] x h e = absurd h
find-Revised_on id (z ∷ xs) (y ∷ ys) x h e = elim (Bool-cases (has_id id z)) [
  | inl hit ↦
      let same : z ≡ x = ground arith in
      let hit_too : has_id id y ≡ true = ground (arith, h.0.id) in
      (y, rw hit_too refl, rw (← same) h.0)
  | inr miss ↦
      let miss_too : has_id id y ≡ false = ground (arith, h.0.id) in
      let (w, found, r) = find-Revised_on id xs ys x h.1 (ground arith) in (w, rw miss_too found, r)
]

pub find-append_left :
    (id : ℕ) (xs ys : List Job) (x : Job)
    → find (has_id id) xs ≡ some x
    → find (has_id id) (xs ++ ys) ≡ some x
unfolding find
find-append_left id [] ys x e = absurd (ground arith)
find-append_left id (z ∷ xs) ys x e = ground (arith, find-append_left id xs ys x)

pub start_row-id : (now : ℕ) (row : Job) → (start_row now row).id ≡ row.id
unfolding start_row
start_row-id now row = refl

Edit-HasEnded :
    (own : Config) (s t : Store) (id : ℕ) (state : State)
    → Edit own s t
    → HasEnded s id state
    → HasEnded t id state
Edit-HasEnded own s t id state (revises h _) (row, found, ended, is) =
    let (after, found_after, r) = find-Revised_on id s.jobs t.jobs row h found in
    let kept = stayed row.state after.state r.move ended in
    (after, found_after, rw kept ended, rw kept is)
  where
    stayed : (a b : State) → Moves a b → is_active a ≡ false → b ≡ a
    stayed a b (stays e) f = e
    stayed a b (ends active _) f = absurd (ground arith)
Edit-HasEnded own s t id state (releases _ e _) (row, found, ended, is) =
    (row, rw e found, ended, is)
Edit-HasEnded own s t id state (enqueues new _ _ e _) (row, found, ended, is) =
    (row, rw e (find-append_left id s.jobs (new ∷ []) row found), ended, is)
Edit-HasEnded own s t id state (starts st) (row, found, ended, is) =
    elim (Bool-cases (has_id st.row.id row)) [
      | inr other ↦ (row, rw st.started (rw other at updated), ended, is)
      | inl same ↦ absurd (ground (arith, find-has_id id s.jobs row found, st.found, st.waiting))
    ]
  where
    updated :
        find (has_id id) (update (has_id st.row.id) (start_row st.now) s.jobs)
        ≡ some (if has_id st.row.id row then start_row st.now row else row)
    updated =
        find-update id (has_id st.row.id) (start_row st.now) s.jobs row (start_row-id st.now) found

pub Edits-HasEnded :
    (own : Config) (s : Store) {t : Store} (id : ℕ) (state : State)
    → Edits own s t
    → HasEnded s id state
    → HasEnded t id state
Edits-HasEnded own s id state here h = h
Edits-HasEnded own s id state (next {t = t} {u = u} es e) h =
    Edit-HasEnded own t u id state e (Edits-HasEnded own s id state es h)

-- A job that has passed, failed or been cancelled stays in the table, in that state, through every
-- sequence of calls.
pub run_all-HasEnded :
    {Repo : Type 0} (git : Git Repo) (own : Config) (own_valid : validate own ≡ ok tt)
    (w : World Repo) (calls : List (Host × Call)) (id : ℕ) (state : State)
    → Inv own w.store
    → HasEnded w.store id state
    → HasEnded (run_all git own w calls).store id state
run_all-HasEnded git own own_valid w calls id state inv h =
    Edits-HasEnded own w.store id state (run_all-Edits git own own_valid w calls inv) h
