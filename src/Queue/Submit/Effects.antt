-- ===== src/Queue/Submit/Effects.antt =====
-- `submit` of internal/bitci/controller.go as changes of the tables, and what it leaves behind when
-- it fails.
use bitci.Prelude.{
  ℕ, suc, ◌<◌, not, Option, none, some, List, [], ◌∷◌, ◌++◌, ◌≡◌, refl, sym, ap, ◌==◌, nat_eq,
  list_eq, arith, Bool-cases, inl, inr, map, Option-cases, if◌then◌else◌,
}
use bitci.Prelude.Text.{Text}
use bitci.Prelude.Dict.{Dict}
use bitci.Prelude.Result.{Result, ok, err}
use bitci.Config.{Config, ConfigError}
use bitci.Config.Order.{ordered}
use bitci.Queue.{queued, Job, BatchRef, Store, Git, Host, QueueError, World}
use bitci.Queue.Table.{select, count, find, has_id, All}
use bitci.Queue.Edits.{Edits, here, enqueues, Edits-one, Edits-trans, SameRows, SameRows-Edits}
use bitci.Queue.BatchRefs.{drop_batch_ref}
use bitci.Queue.Submit.{
  RetryInfo, Submission, max_id, new_row, insert_rows, records_ref, record_ref, enqueue,
  submit_batch, submit_ordered, submit,
}
use mathlib.Core.List.{append_assoc, append-nil}

pub count_id-above : (id : ℕ) (jobs : List Job) → max_id jobs < id → count (has_id id) jobs ≡ 0
unfolding max_id count
count_id-above id [] h = refl
count_id-above id (j ∷ js) h = ground (arith, count_id-above id js)

-- The rows go to the end of the table, one for each task, in order.
pub insert_rows_lem :
    (s : Submission) (tasks : List Text) (jobs : List Job)
    → ((insert_rows s tasks jobs).1 ≡ jobs ++ (insert_rows s tasks jobs).0)
      × (map (λ (j : Job). j.task) (insert_rows s tasks jobs).0 ≡ tasks)
      × All
          (λ (j : Job). (j.state ≡ queued) × (j.batch ≡ s.batch) × (j.ref ≡ s.ref))
          (insert_rows s tasks jobs).0
unfolding insert_rows new_row
insert_rows_lem s [] jobs = (sym (append-nil jobs), refl, tt)
insert_rows_lem s (task ∷ tasks) jobs =
    let row = new_row s (suc (max_id jobs)) task in
    let rest = insert_rows_lem s tasks (jobs ++ row ∷ []) in
    (rw rest.0 (append_assoc jobs (row ∷ []) _), ap (◌∷◌ task) rest.1, ((refl, refl, refl), rest.2))

insert_rows-Edits :
    (own : Config) (s : Submission) (tasks : List Text) (store t : Store)
    → t.jobs ≡ (insert_rows s tasks store.jobs).1
    → t.leases ≡ store.leases
    → Edits own store t
unfolding insert_rows new_row
insert_rows-Edits own s [] store t e f = SameRows-Edits own store t (e, f)
insert_rows-Edits own s (task ∷ tasks) store t e f =
    Edits-trans
      (Edits-one (enqueues row (count_id-above row.id store.jobs (omega arith)) refl refl refl))
      (insert_rows-Edits own s tasks after t e f)
  where
    row : Job
    row = new_row s (suc (max_id store.jobs)) task

    after : Store
    after = record store { jobs = store.jobs ++ row ∷ [] }

-- What a submission may leave: on success the rows at the end of the table, else what was there.
abbrev Outcome :
    Store → List BatchRef → Submission → List Text → Store → Result QueueError (List Job) → Type 0
Outcome old refs s tasks new (ok rows) =
    (new.jobs ≡ old.jobs ++ rows)
    × (new.leases ≡ old.leases)
    × (new.batch_refs ≡ refs)
    × (rows ≡ (insert_rows s tasks old.jobs).0)
Outcome old refs s tasks new (err e) = new ≡ old

-- The records of the batches' commits after a submission.
abbrev pub refs_with : Submission → List BatchRef → List BatchRef
refs_with s refs =
    if records_ref s
    then refs ++ record { batch = s.batch; checkout_root = s.checkout_root; ref = s.ref } ∷ []
    else refs

module _ {Repo : Type 0} (git : Git Repo) (host : Host) where
  enqueue-Outcome :
      (w : World Repo) (old : Store) (s : Submission) (tasks : List Text)
      → SameRows old w.store
      → Outcome old w.store.batch_refs s tasks
          (enqueue git host w old s tasks).0.store
          (enqueue git host w old s tasks).1
  unfolding enqueue
  enqueue-Outcome w old s tasks same = ground (arith, (insert_rows_lem s tasks w.store.jobs).0)

  drop_recorded :
      (s : Submission) (refs : List BatchRef)
      → find (λ r. r.batch == s.batch) refs ≡ none
      → select
          (λ r. not (r.batch == s.batch))
          (refs ++ record { batch = s.batch; checkout_root = s.checkout_root; ref = s.ref } ∷ [])
        ≡ refs
  unfolding find select
  drop_recorded s [] h = ground arith
  drop_recorded s (r ∷ refs) h = ground (arith, drop_recorded s refs)

  restored :
      (s : Submission) (store : Store)
      → find (λ r. r.batch == s.batch) store.batch_refs ≡ none
      → drop_batch_ref s.batch (record_ref s store) ≡ store
  unfolding drop_batch_ref record_ref
  restored s store free =
      ap (λ refs. record store { batch_refs = refs }) (drop_recorded s store.batch_refs free)

  recorded_rows : (s : Submission) (store : Store) → SameRows store (record_ref s store)
  unfolding record_ref
  recorded_rows s store = (refl, refl)

  submit_batch-Outcome :
      (w : World Repo) (s : Submission) (tasks : List Text)
      → Outcome w.store
          (refs_with s w.store.batch_refs)
          s
          tasks
          (submit_batch git host w s tasks).0.store
          (submit_batch git host w s tasks).1
  unfolding submit_batch record_ref
  submit_batch-Outcome w s tasks = elim (Bool-cases (records_ref s)) [
    | inr plain ↦ rw plain (enqueue-Outcome w w.store s tasks (refl, refl))
    | inl pins ↦ rw pins (elim (Option-cases (find (λ r. r.batch == s.batch) w.store.batch_refs)) [
      | inr (r, taken) ↦ rw taken refl
      | inl free ↦ rw free (pinned free)
    ])
  ]
    where
      pinned :
          find (λ r. r.batch == s.batch) w.store.batch_refs ≡ none
          → let recorded = record_ref s w.store in
            let r =
              enqueue git host
                (record w { store = recorded })
                (drop_batch_ref s.batch recorded)
                s
                tasks in
            Outcome w.store (record_ref s w.store).batch_refs s tasks r.0.store r.1
      pinned free = rw (restored s w.store free) (
          enqueue-Outcome (record w { store = record_ref s w.store }) w.store s tasks
            (recorded_rows s w.store))

  -- Either the rows of all tasks in their run order went to the end of the table, or the store is
  -- what it was.
  abbrev pub Placed :
      World Repo
      → (Text → Submission)
      → Option Text
      → Result ConfigError (List Text)
      → Store
      → Result QueueError (List Job)
      → Type 0
  Placed w s batch order new (ok rows) =
      (name task : Text) × (tasks : List Text) × (batch ≡ some name)
      × (order ≡ ok (task ∷ tasks))
      × (new.jobs ≡ w.store.jobs ++ rows)
      × (new.leases ≡ w.store.leases)
      × (new.batch_refs ≡ refs_with (s name) w.store.batch_refs)
      × (rows ≡ (insert_rows (s name) (task ∷ tasks) w.store.jobs).0)
  Placed w s batch order new (err e) = new ≡ w.store

  Outcome-Placed :
      (w : World Repo) (s : Text → Submission) (name task : Text) (tasks : List Text) (new : Store)
      (r : Result QueueError (List Job))
      → Outcome w.store (refs_with (s name) w.store.batch_refs) (s name) (task ∷ tasks) new r
      → Placed w s (some name) (ok (task ∷ tasks)) new r
  Outcome-Placed w s name task tasks new (ok rows) (a, b, c, d) =
      (name, task, tasks, refl, refl, a, b, c, d)
  Outcome-Placed w s name task tasks new (err e) h = h

  submit_ordered-Placed :
      (w : World Repo) (s : Text → Submission) (batch : Option Text)
      (order : Result ConfigError (List Text))
      → Placed w s batch order
          (submit_ordered git host w s batch order).0.store
          (submit_ordered git host w s batch order).1
  unfolding submit_ordered
  submit_ordered-Placed w s batch (err e) = refl
  submit_ordered-Placed w s batch (ok []) = refl
  submit_ordered-Placed w s none (ok (task ∷ tasks)) = refl
  submit_ordered-Placed w s (some batch) (ok (task ∷ tasks)) =
      Outcome-Placed w s batch task tasks _ _ (submit_batch-Outcome w (s batch) (task ∷ tasks))

module _ {Repo : Type 0} (git : Git Repo) (host : Host) (w : World Repo) (config : Config)
    (names : List Text) (ref submitted_ref checkout_root config_relative : Text)
    (retries : Dict Text RetryInfo) (batch : Option Text) where
  abbrev pub submitted : World Repo × Result QueueError (List Job)
  submitted =
      submit git host w config names ref submitted_ref checkout_root config_relative retries batch

  -- What the arguments say of the rows of a batch.
  abbrev pub asked_for : Text → Submission
  asked_for name = record {
    batch = name;
    config = config;
    ref = ref;
    submitted_ref = submitted_ref;
    checkout_root = checkout_root;
    config_relative = config_relative;
    retries = retries;
    now = host.now;
  }

  pub submit-Placed :
      Placed git host w asked_for batch (ordered config names) submitted.0.store submitted.1
  unfolding submit
  submit-Placed = elim (Bool-cases host.locked) [
    | inr unlocked ↦ rw unlocked refl
    | inl locked ↦
        simp locked (submit_ordered-Placed git host w asked_for batch (ordered config names))
  ]

  Placed-Edits :
      (own : Config) (order : Result ConfigError (List Text)) (new : Store)
      (r : Result QueueError (List Job))
      → Placed git host w asked_for batch order new r
      → Edits own w.store new
  Placed-Edits own order new (err e) h = rw h here
  Placed-Edits own order new (ok rows) (name, task, tasks, _, _, jobs, leases, _, made) =
      insert_rows-Edits own (asked_for name) (task ∷ tasks) w.store new
        (cc (jobs, made, (insert_rows_lem (asked_for name) (task ∷ tasks) w.store.jobs).0)) leases

  pub submit-Edits : (own : Config) → Edits own w.store submitted.0.store
  submit-Edits own = Placed-Edits own (ordered config names) _ _ submit-Placed
