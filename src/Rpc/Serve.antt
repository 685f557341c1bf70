-- ===== src/Rpc/Serve.antt =====
-- What the requests of internal/bitci/rpc.go may do to the tables.
use bitci.Prelude.{
  ℕ, Bool, Option, none, some, List, [], ◌∷◌, ◌≡◌, refl, arith, inl, inr, Option-cases, ◌++◌, ◌==◌,
  if◌then◌else◌, nat_eq, list_eq, sym, ◌∙◌,
}
use bitci.Prelude.Text.{Text, codes}
use bitci.Prelude.Result.{Result, ok, err, Result-cases}
use bitci.Config.{Config}
use bitci.Config.Validate.{validate}
use bitci.Queue.{State, Git, Host, World, QueueError}
use bitci.Queue.Invariant.{Inv}
use bitci.Queue.Reach.{
  Call, submits, cancels, retries, recovers_job, run, run_all, run_all-Inv, HasEnded,
  run_all-HasEnded,
}
use bitci.Queue.Request.{Request, request, submit_context}
use bitci.Rpc
use bitci.Rpc.{
  RpcError, Answer, Decoder, SubmitParams, RpcRequest, Surroundings, Method, method_of,
  handle_method, handle_rpc, Event, works, serves, run_events, decoded,
}

-- The name that a client sends for a method.
abbrev name_of : Method → Text
name_of Rpc.status = codes "status"
name_of Rpc.plans = codes "plan"
name_of Rpc.tail_logs = codes "tail_logs"
name_of Rpc.search_logs = codes "search_logs"
name_of Rpc.read_logs = codes "read_logs"
name_of Rpc.doctor = codes "doctor"
name_of Rpc.submits = codes "submit"
name_of Rpc.cancels = codes "cancel"
name_of Rpc.retries = codes "retry"
name_of Rpc.recovers = codes "recover"

method_of-name :
    (name : Text) (method : Method) → method_of name ≡ some method → name ≡ name_of method
unfolding method_of
method_of-name name Rpc.status h = ground arith
method_of-name name Rpc.plans h = ground arith
method_of-name name Rpc.tail_logs h = ground arith
method_of-name name Rpc.search_logs h = ground arith
method_of-name name Rpc.read_logs h = ground arith
method_of-name name Rpc.doctor h = ground arith
method_of-name name Rpc.submits h = ground arith
method_of-name name Rpc.cancels h = ground arith
method_of-name name Rpc.retries h = ground arith
method_of-name name Rpc.recovers h = ground arith

abbrev pub job_call : (ℕ → Call) → Option ℕ → Option Call
job_call call none = none
job_call call (some id) = some (call id)

abbrev pub calls_at : Host → Option Call → List (Host × Call)
calls_at host none = []
calls_at host (some call) = (host, call) ∷ []

-- A handler's world, by whether the parameters decode.
decoded_world :
    {A B W : Type 0} (o : Option A) (fail : W × B) (f : A → W × B) (after : Option A → W)
    → fail.0 ≡ after none
    → ((a : A) → (f a).0 ≡ after (some a))
    → (decoded o fail f).0 ≡ after o
decoded_world none fail f after p q = p
decoded_world (some a) fail f after p q = q a

module _ {Repo Raw : Type 0} (git : Git Repo) (decoder : Decoder Raw) (match : Text → Text → Bool)
    (own : Config) where
  abbrev submission : List Text → Option Text → Result QueueError Request → Option Call
  submission names batch (err e) = none
  submission names batch (ok r) =
      some (submits own names r.ref r.submitted_ref r.checkout_root r.config_relative batch)

  abbrev submit_call : Surroundings → World Repo → Option SubmitParams → Option Call
  submit_call around w none = none
  submit_call around w (some params) =
      submission params.task_ids around.batch
        (request git around.host w.repo around.checkout params.ref)

  -- The call that a request stands for, by the name that the client sends. Requests of any other
  -- name, with parameters that do not decode, or for a commit that is refused, stand for none.
  unfoldable pub call_of : Surroundings → World Repo → (name : Text) → Raw → Option Call
  call_of around w name raw =
      if name == codes "submit"
      then submit_call around w (decoder.submit raw)
      else if name == codes "cancel"
      then job_call cancels (decoder.job raw)
      else if name == codes "retry"
      then job_call (λ id. retries around.exists id around.batch) (decoder.job raw)
      else if name == codes "recover"
      then job_call (recovers_job around.processes) (decoder.job raw)
      else none

  -- The calls that a sequence of events stands for, in their order, each in the world that those in
  -- front of it leave.
  unfoldable pub asked : World Repo → List (Event Raw) → List (Host × Call)
  asked w [] = []
  asked w (works host call ∷ events) = (host, call) ∷ asked (run git own host w call) events
  asked w (serves around request ∷ events) =
      let calls = calls_at around.host (call_of around w request.method request.params) in
      calls ++ asked (run_all git own w calls) events

  run_all-append :
      (w : World Repo) (calls more : List (Host × Call))
      → run_all git own w (calls ++ more) ≡ run_all git own (run_all git own w calls) more
  unfolding run_all
  run_all-append w [] more = refl
  run_all-append w ((host, call) ∷ calls) more = run_all-append (run git own host w call) calls more

  submit_context-run :
      (around : Surroundings) (w : World Repo) (params : SubmitParams)
      → (submit_context git around.host w around.checkout own params.task_ids params.ref
          around.batch).0
        ≡ run_all git own w (calls_at around.host (submit_call around w (some params)))
  unfolding submit_context run run_all
  submit_context-run around w params =
      elim (Result-cases (request git around.host w.repo around.checkout params.ref)) [
        | inl (e, refused) ↦ rw (submit_context, refused) refl
        | inr (r, found) ↦ rw (submit_context, found) refl
      ]

  handle_method-call :
      (around : Surroundings) (w : World Repo) (method : Method) (raw : Raw)
      → (handle_method git decoder match own around w method raw).0
        ≡ run_all git own w (calls_at around.host (call_of around w (name_of method) raw))
  unfolding handle_method run run_all call_of list_eq nat_eq
  handle_method-call around w Rpc.status raw = refl
  handle_method-call around w Rpc.doctor raw = refl
  handle_method-call around w Rpc.plans raw =
      decoded_world (decoder.plan raw) _ _ (λ o. w) refl (λ p. refl)
  handle_method-call around w Rpc.tail_logs raw =
      decoded_world (decoder.log raw) _ _ (λ o. w) refl (λ p. refl)
  handle_method-call around w Rpc.search_logs raw =
      decoded_world (decoder.log raw) _ _ (λ o. w) refl (λ p. refl)
  handle_method-call around w Rpc.read_logs raw =
      decoded_world (decoder.cursor raw) _ _ (λ o. w) refl (λ p. refl)
  handle_method-call around w Rpc.submits raw =
      decoded_world (decoder.submit raw) _ _
        (λ o. run_all git own w (calls_at around.host (submit_call around w o))) refl
        (submit_context-run around w)
  handle_method-call around w Rpc.cancels raw =
      decoded_world (decoder.job raw) _ _
        (λ o. run_all git own w (calls_at around.host (job_call cancels o))) refl (λ id. refl)
  handle_method-call around w Rpc.retries raw =
      decoded_world (decoder.job raw) _ _
        (λ o.
          run_all git own w
            (calls_at around.host (job_call (λ id. retries around.exists id around.batch) o)))
        refl (λ id. refl)
  handle_method-call around w Rpc.recovers raw =
      decoded_world (decoder.job raw) _ _
        (λ o. run_all git own w (calls_at around.host (job_call (recovers_job around.processes) o)))
        refl (λ id. refl)

  unknown-call :
      (around : Surroundings) (w : World Repo) (name : Text) (raw : Raw)
      → method_of name ≡ none
      → call_of around w name raw ≡ none
  unfolding method_of call_of
  unknown-call around w name raw h = ground arith

  handle_rpc-call :
      (around : Surroundings) (w : World Repo) (request : RpcRequest Raw)
      → (handle_rpc git decoder match own around w request).0
        ≡ run_all git own w (calls_at around.host (call_of around w request.method request.params))
  unfolding handle_rpc run_all
  handle_rpc-call around w request = elim (Option-cases (method_of request.method)) [
    | inl unknown ↦
        rw (handle_rpc, unknown, unknown-call around w request.method request.params unknown) refl
    | inr (method, known) ↦
        rw (handle_rpc, known, method_of-name request.method method known)
          (handle_method-call around w method request.params)
  ]

  -- Requests of other processes, between the controller's own calls in any order, do to the tables and
  -- to Git what the calls do that they stand for, in the same order: a request named submit, cancel,
  -- retry or recover the call of this name, with the decoded parameters, and any other none.
  pub run_events-run_all :
      (w : World Repo) (events : List (Event Raw))
      → run_events git decoder match own w events ≡ run_all git own w (asked w events)
  unfolding run_events run_all asked
  run_events-run_all w [] = refl
  run_events-run_all w (works host call ∷ events) =
      run_events-run_all (run git own host w call) events
  run_events-run_all w (serves around request ∷ events) =
      let calls = calls_at around.host (call_of around w request.method request.params) in
      rw (handle_rpc-call around w request) (
        run_events-run_all (run_all git own w calls) events
        ∙ sym (run_all-append w calls (asked (run_all git own w calls) events)))

  -- Therefore the invariant of the tables, and every job that has ended, outlast any such sequence.
  pub run_events-safe :
      (own_valid : validate own ≡ ok tt) (w : World Repo) (events : List (Event Raw))
      → Inv own w.store
      → Inv own (run_events git decoder match own w events).store
        × ((id : ℕ) (state : State)
            → HasEnded w.store id state
            → HasEnded (run_events git decoder match own w events).store id state)
  run_events-safe own_valid w events inv =
      let calls = asked w events in
      rw (run_events-run_all w events) (
        run_all-Inv git own own_valid w calls inv,
        λ id state ended. run_all-HasEnded git own own_valid w calls id state inv ended,
      )
