-- ===== src/Rpc.antt =====
-- The requests of other processes: `handleRPC` and the parameter types of internal/bitci/rpc.go, over
-- the operations of the queue, the plan and the logs. A request's parameters are decoded by Go's
-- package for JSON, a parameter here; so is the encoding of an answer, which is left out.
pub mod Serve
use bitci.Prelude.{
  ℕ, Bool, true, false, Option, none, some, List, [], ◌∷◌, ◌++◌, ◌==◌, if◌then◌else◌, nat_eq,
  list_eq, contains,
}
use bitci.Prelude.Text.{Text, codes}
use bitci.Prelude.Int.{ℤ, pos}
use bitci.Prelude.Strings.{is_empty, contains_text}
use bitci.Prelude.Result.{Result, ok, err}
use bitci.Config.{Config, ConfigError}
use bitci.Config.Plan.{plan}
use bitci.Queue.{Job, Git, Host, QueueError, World}
use bitci.Queue.Reach.{Call, run}
use bitci.Queue.Claim.{disk_ok}
use bitci.Queue.Request.{Checkout, submit_context}
use bitci.Queue.Retry.{retry_context}
use bitci.Queue.Finish.{cancel_context}
use bitci.Queue.Recover.{Processes, recover_job}
use bitci.Prelude.Dict.{lookup}
use bitci.Log.{LogError, line_too_long, File, tail_log, search_log}
use bitci.Log.Cursor.{LogCursorOutput, read_log}

pub record LogParams : Type 0 where
  pub id : ℕ
  pub limit : ℤ
  pub query : Text

pub record LogCursorParams : Type 0 where
  pub id : ℕ
  pub cursor : ℤ
  pub limit : ℤ

pub record SubmitParams : Type 0 where
  pub task_ids : List Text
  pub ref : Text

-- How the parameters of a request decode, for each method; `none` is an error.
pub record Decoder (Raw : Type 0) : Type 0 where
  pub plan : Raw → Option (List Text)
  pub job : Raw → Option ℕ
  pub log : Raw → Option LogParams
  pub cursor : Raw → Option LogCursorParams
  pub submit : Raw → Option SubmitParams

pub record RpcRequest (Raw : Type 0) : Type 0 where
  pub method : Text
  pub params : Raw

pub data RpcError : Type 0 where
  bad_params unknown_method : RpcError
  refused : QueueError → RpcError
  -- The errors of a call that may have several.
  failed_with : List QueueError → RpcError
  no_plan : ConfigError → RpcError
  log_failed : LogError → RpcError

pub data Answer : Type 0 where
  jobs_are : List Job → Answer
  tasks_are : List Text → Answer
  lines_are : List Text → Answer
  log_is : LogCursorOutput → Answer
  disk_is_ok : Answer
  cancelled_is : Bool → Answer
  recovered_is : Bool → Answer

-- What one request finds outside of the tables.
pub record Surroundings : Type 0 where
  pub host : Host
  pub checkout : Checkout
  pub batch : Option Text
  pub files : Text → File
  pub exists : Text → Text → Text → Bool
  pub processes : Processes

-- `result`: an answer that stands only if there is no error.
abbrev pub with_errors : Answer → List QueueError → Result RpcError Answer
with_errors answer [] = ok answer
with_errors answer (e ∷ es) = err (failed_with (e ∷ es))

abbrev pub answer_of {ε} :
    {E : Type ε} {A : Type 0} → (E → RpcError) → (A → Answer) → Result E A → Result RpcError Answer
answer_of wrap f (ok a) = ok (f a)
answer_of wrap f (err e) = err (wrap e)

-- The methods of the switch.
pub data Method : Type 0 where
  status plans tail_logs search_logs read_logs doctor submits cancels retries recovers : Method

abbrev pub methods : List (Text × Method)
methods =
    (codes "status", status)
    ∷ (codes "plan", plans)
    ∷ (codes "tail_logs", tail_logs)
    ∷ (codes "search_logs", search_logs)
    ∷ (codes "read_logs", read_logs)
    ∷ (codes "doctor", doctor)
    ∷ (codes "submit", submits)
    ∷ (codes "cancel", cancels)
    ∷ (codes "retry", retries)
    ∷ (codes "recover", recovers)
    ∷ []

unfoldable pub method_of : Text → Option Method
method_of name = lookup name methods

-- A scan that met a line that is too long is an error.
abbrev pub scanned : List Text × Bool → Result RpcError Answer
scanned (lines, true) = ok (lines_are lines)
scanned (lines, false) = err (log_failed line_too_long)

abbrev pub scan_answer : Result LogError (List Text × Bool) → Result RpcError Answer
scan_answer (err e) = err (log_failed e)
scan_answer (ok found) = scanned found

abbrev pub decoded : {A B : Type 0} → Option A → B → (A → B) → B
decoded none fail f = fail
decoded (some a) fail f = f a

pub data Event (Raw : Type 0) : Type 0 where
  works : Host → Call → Event Raw
  serves : Surroundings → RpcRequest Raw → Event Raw

module _ {Repo Raw : Type 0} (git : Git Repo) (decoder : Decoder Raw) (match : Text → Text → Bool)
    (own : Config) where
  unfoldable pub handle_method :
      Surroundings → World Repo → Method → Raw → World Repo × Result RpcError Answer
  handle_method around w status raw = (w, ok (jobs_are w.store.jobs))
  handle_method around w plans raw =
      decoded (decoder.plan raw) (w, err bad_params)
        λ paths. (w, answer_of no_plan tasks_are (plan match own paths))
  handle_method around w tail_logs raw =
      decoded (decoder.log raw) (w, err bad_params)
        λ params. (w, scan_answer (tail_log own w.store around.files params.id params.limit))
  handle_method around w search_logs raw =
      decoded (decoder.log raw) (w, err bad_params)
        λ params.
          (w, scan_answer (search_log own w.store around.files params.id params.query params.limit))
  handle_method around w read_logs raw =
      decoded (decoder.cursor raw) (w, err bad_params)
        λ params. (
          w,
          answer_of log_failed log_is
              (read_log own w.store around.files params.id params.cursor params.limit),
        )
  handle_method around w doctor raw =
      (w, answer_of refused (λ u. disk_is_ok) (disk_ok around.host own.min_free_bytes))
  handle_method around w submits raw =
      decoded (decoder.submit raw) (w, err bad_params)
        λ params.
          let (after, submitted) =
            submit_context git around.host w around.checkout own params.task_ids params.ref
              around.batch in
          (after, answer_of refused jobs_are submitted)
  handle_method around w cancels raw =
      decoded (decoder.job raw) (w, err bad_params)
        λ id.
          let (after, cancelled, errors) = cancel_context git around.host w id in
          (after, with_errors (cancelled_is cancelled) errors)
  handle_method around w retries raw =
      decoded (decoder.job raw) (w, err bad_params)
        λ id.
          let (after, retried) =
            retry_context git around.host around.exists own w id around.batch in
          (after, answer_of refused jobs_are retried)
  handle_method around w recovers raw =
      decoded (decoder.job raw) (w, err bad_params)
        λ id.
          let (after, recovered, errors) = recover_job git around.host around.processes w id in
          (after, with_errors (recovered_is recovered) errors)

  unfoldable pub handle_rpc :
      Surroundings → World Repo → RpcRequest Raw → World Repo × Result RpcError Answer
  handle_rpc around w request = elim (method_of request.method) [
    | none ↦ (w, err unknown_method)
    | some method ↦ handle_method around w method request.params
  ]

  -- One after the other: requests, and calls of the controller's own loops.
  unfoldable pub run_events : World Repo → List (Event Raw) → World Repo
  run_events w [] = w
  run_events w (works host call ∷ events) = run_events (run git own host w call) events
  run_events w (serves around request ∷ events) = run_events (handle_rpc around w request).0 events
