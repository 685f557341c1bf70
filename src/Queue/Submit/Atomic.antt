-- ===== src/Queue/Submit/Atomic.antt =====
-- What `submit` of internal/bitci/controller.go promises its callers: all rows of the run order with
-- the values of the request, or no change.
use bitci.Prelude.{
  ℕ, suc, ◌≤◌, ◌<◌, false, not, ◌&&◌, Option, none, some, List, [], ◌∷◌, ◌++◌, ◌≡◌, refl, sym, ap,
  ◌∙◌, arith, if◌then◌else◌, nat_eq, list_eq, map,
}
use bitci.Prelude.Text.{Text}
use bitci.Prelude.Strings.{is_empty}
use bitci.Prelude.Dict.{Dict}
use bitci.Prelude.Result.{Result, ok, err}
use bitci.Config.{Config}
use bitci.Config.Order.{ordered}
use bitci.Sha.{is_checkout_sha}
use bitci.Queue.{queued, stored, Job, Store, Git, Host, QueueError, World}
use bitci.Queue.Table.{count, has_id, All}
use bitci.Queue.Submit.{
  RetryInfo, Submission, max_id, new_row, insert_rows, retry_of_task, null_if_zero, root_of, submit,
}
use bitci.Queue.Submit.Effects.{count_id-above, insert_rows_lem, Placed, asked_for, submit-Placed}

-- A row that a submission adds to a table: it waits, carries the values of the request and the facts
-- of the run that it repeats, and has an id that the table has not.
pub record IsNewRow (s : Submission) (old : List Job) (row : Job) : Type 0 where
  pub waits : row.state ≡ queued
  pub batch : row.batch ≡ s.batch
  pub ref : row.ref ≡ s.ref
  pub submitted_ref : row.submitted_ref ≡ s.submitted_ref
  pub checkout_root : row.checkout_root ≡ s.checkout_root
  pub config_relative : row.config_relative ≡ s.config_relative
  pub config : row.config_json ≡ stored s.config
  pub created : row.created_at ≡ s.now
  pub unstarted : row.started_at ≡ none
  pub unfinished : row.finished_at ≡ none
  pub no_result : row.terminal_result ≡ none
  pub attempt : row.attempt ≡ (retry_of_task s.retries row.task).attempt
  pub retry_of : row.retry_of ≡ null_if_zero (retry_of_task s.retries row.task).retry_of
  pub retry_root :
      row.retry_root ≡ some (root_of (retry_of_task s.retries row.task).retry_root row.id)
  pub prior_exit_code : row.prior_exit_code ≡ (retry_of_task s.retries row.task).prior_exit_code
  pub fresh : count (has_id row.id) old ≡ 0

-- The ids count up from a number.
abbrev pub Consecutive : ℕ → List Job → Type 0
Consecutive n [] = Unit {0}
Consecutive n (row ∷ rows) = (row.id ≡ n) × Consecutive (suc n) rows

max_id-last :
    (jobs : List Job) (row : Job) → max_id jobs < row.id → max_id (jobs ++ row ∷ []) ≡ row.id
unfolding max_id
max_id-last [] row h = ground arith
max_id-last (j ∷ jobs) row h = ground (arith, max_id-last jobs row)

insert_rows-IsNewRow :
    (s : Submission) (tasks : List Text) (old jobs : List Job)
    → max_id old ≤ max_id jobs
    → All (IsNewRow s old) (insert_rows s tasks jobs).0
      × Consecutive (suc (max_id jobs)) (insert_rows s tasks jobs).0
unfolding insert_rows new_row
insert_rows-IsNewRow s [] old jobs h = (tt, tt)
insert_rows-IsNewRow s (task ∷ tasks) old jobs h =
    let row = new_row s (suc (max_id jobs)) task in
    let last : max_id (jobs ++ row ∷ []) ≡ suc (max_id jobs) = max_id-last jobs row (omega arith) in
    let (new, ids) = insert_rows-IsNewRow s tasks old (jobs ++ row ∷ []) (omega (arith, last, h)) in
    (
      (
        record {
          waits = refl;
          batch = refl;
          ref = refl;
          submitted_ref = refl;
          checkout_root = refl;
          config_relative = refl;
          config = refl;
          created = refl;
          unstarted = refl;
          unfinished = refl;
          no_result = refl;
          attempt = refl;
          retry_of = refl;
          retry_root = refl;
          prior_exit_code = refl;
          fresh = count_id-above (suc (max_id jobs)) old (omega (arith, h));
        },
        new,
      ),
      (refl, rw last at ids),
    )

module _ {Repo : Type 0} (git : Git Repo) (host : Host) (w : World Repo) (config : Config)
    (names : List Text) (ref submitted_ref checkout_root config_relative : Text)
    (retries : Dict Text RetryInfo) (batch : Option Text) where
  -- The rows that a submission returned, and the tables behind it.
  pub record Queued (new : Store) (rows : List Job) : Type 0 where
    pub name : Text
    pub named : batch ≡ some name
    pub not_empty : is_empty rows ≡ false
    -- One row for each task of the run order, in this order.
    pub all_tasks : ordered config names ≡ ok (map (λ (row : Job). row.task) rows)
    pub new_rows :
        All
          (IsNewRow
            (record {
              batch = name;
              config = config;
              ref = ref;
              submitted_ref = submitted_ref;
              checkout_root = checkout_root;
              config_relative = config_relative;
              retries = retries;
              now = host.now;
            })
            w.store.jobs)
          rows
    pub ids : Consecutive (suc (max_id w.store.jobs)) rows
    pub jobs : new.jobs ≡ w.store.jobs ++ rows
    pub leases : new.leases ≡ w.store.leases
    -- The commit of a checkout is recorded for the batch.
    pub batch_refs : new.batch_refs ≡ (
        if not (is_empty checkout_root) && is_checkout_sha ref
        then w.store.batch_refs
          ++ record { batch = name; checkout_root = checkout_root; ref = ref } ∷ []
        else w.store.batch_refs)

  abbrev pub Submitted : Store → Result QueueError (List Job) → Type 0
  Submitted new (ok rows) = Queued new rows
  Submitted new (err e) = new ≡ w.store

  abbrev result : World Repo × Result QueueError (List Job)
  result =
      submit git host w config names ref submitted_ref checkout_root config_relative retries batch

  Placed-Submitted :
      (new : Store) (r : Result QueueError (List Job))
      → Placed git host w
          (asked_for git host w config names ref submitted_ref checkout_root config_relative retries
            batch)
          batch
          (ordered config names)
          new
          r
      → Submitted new r
  unfolding insert_rows
  Placed-Submitted new (err e) h = h
  Placed-Submitted new (ok rows) (name, task, tasks, named, order, jobs, leases, refs, made) =
      let s =
        asked_for git host w config names ref submitted_ref checkout_root config_relative retries
          batch name in
      let listed = (insert_rows_lem s (task ∷ tasks) w.store.jobs).1 in
      let (new_rows, ids) =
        insert_rows-IsNewRow s (task ∷ tasks) w.store.jobs w.store.jobs (omega arith) in
      record {
        name = name;
        named = named;
        not_empty = ap is_empty made;
        all_tasks = order ∙ ap ok (sym (rw made listed));
        new_rows = rw made new_rows;
        ids = rw made ids;
        jobs = jobs;
        leases = leases;
        batch_refs = refs;
      }

  -- `submit` is atomic. Where it returns rows, the requested tasks have a run order, and the rows are
  -- one for each task of it, in this order, with new ids that count up; each waits and carries the
  -- batch's name, the configuration, the commit, the submitted ref, the place of the configuration
  -- and the facts of the run that it repeats. They went to the end of the table, no lease changed, and
  -- the commit of a checkout was recorded for the batch. Where it returns an error, the tables jobs,
  -- leases and batch_refs are what they were.
  pub submit-Submitted : Submitted result.0.store result.1
  submit-Submitted = Placed-Submitted result.0.store result.1 (
      submit-Placed git host w config names ref submitted_ref checkout_root config_relative retries
        batch)
