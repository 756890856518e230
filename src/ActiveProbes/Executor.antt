-- ===== src/ActiveProbes/Executor.antt =====
-- active_probes.py: the execution of a request.
use celery_diagnostics_obser.Prelude.{
  ℕ, ℤ, String, ◌&&◌, ◌||◌, not, Option, none, some, List, str_eq, if◌then◌else◌,
}
use celery_diagnostics_obser.Result.{
  Result, ok, err, Error, key_error, capsule_error, class_name, or_raise, ◌>>=◌,
}
use celery_diagnostics_obser.Values.{Value, float, str, Fields, end, field, ◌or◌}
use celery_diagnostics_obser.Values.Dict.{get, get?, set}
use celery_diagnostics_obser.Config.{ObserverConfig}
use celery_diagnostics_obser.Policy.{TelemetryPolicy, identities_local_only}
use celery_diagnostics_obser.Identity.{open_identity, task_run_ref}
use celery_diagnostics_obser.Runtime.{Runtime, text_or_empty}
use celery_diagnostics_obser.Sanitizer.Labels.{public_observer_id, ◌&◌}
use celery_diagnostics_obser.ActiveProbes.Answers.{is_member, incomplete}
use celery_diagnostics_obser.ActiveProbes.Handlers.{
  App, query_task, query_reservation, query_schedule, query_worker_presence, query_result_backend,
  query_broker_message,
}
use celery_diagnostics_obser.ActiveProbes.Capacity.{query_capacity, query_queue_consumers}

-- the error_type of an exception: the message of an IdentityCapsuleError, the class of another
abbrev pub error_type : Error → String
error_type (capsule_error message) = message
error_type e = class_name e

-- {**base, **outcome}
unfoldable pub merge : Fields → Fields → Fields
merge base end = base
merge base (field k v outcome) = merge (set k v base) outcome

abbrev pub or_error : Result Fields → Fields
or_error (ok outcome) = outcome
or_error (err e) = incomplete (error_type e)

module _ (rt : Runtime) (config : ObserverConfig) (policy : TelemetryPolicy) where
  unfoldable pub same_identity : Fields → String → String → Value → Result Fields
  same_identity request expected_ref actual_ref task_id =
      if not (str_eq expected_ref "") && not (str_eq expected_ref actual_ref)
      then err (capsule_error "identity_capsule_mismatch")
      else ok (set "task_id" task_id (set "run_ref" (str actual_ref) request))

  unfoldable pub with_identity : Fields → String → Fields → Result Fields
  unfolding same_identity
  with_identity request expected_ref identity = do
    task_id ← or_raise (get? "task_id" identity) key_error
    actual_ref ← task_run_ref rt task_id config.identity_key
    same_identity request expected_ref actual_ref task_id

  -- _resolve_local_identity
  unfoldable pub resolve_local_identity : Fields → Result Fields
  unfolding with_identity
  resolve_local_identity request =
      if not (identities_local_only policy)
      then ok request
      else let capsule = text_or_empty rt (get "identity_capsule" request) in
        if str_eq capsule ""
        then err (capsule_error "identity_capsule_unavailable")
        else (open_identity rt capsule config.identity_key
            >>= with_identity request
                (text_or_empty rt (get "run_ref" request or get "task_id" request)))

  module _ (app : App) (now : ℤ) where
    -- ActiveProbeExecutor.handlers
    unfoldable pub handler_of : String → Option (Fields → Result Fields)
    handler_of capability =
        if str_eq capability "celery.broker.message_presence"
        then some (query_broker_message rt config policy app)
        else if str_eq capability "celery.inspect.query_task"
        then some (query_task rt config policy app)
        else if str_eq capability "celery.inspect.task_reservation"
        then some (query_reservation rt config policy app)
        else if str_eq capability "celery.inspect.task_schedule"
        then some (query_schedule rt config policy app now)
        else if str_eq capability "celery.inspect.worker_capacity"
        then some (query_capacity rt config policy app)
        else if str_eq capability "celery.inspect.worker_presence"
        then some (query_worker_presence rt config policy app)
        else if str_eq capability "celery.broker.queue_consumers"
        then some (query_queue_consumers rt config policy app)
        else if str_eq capability "celery.result_backend.status"
        then some (query_result_backend rt config policy app)
        else none

    -- the outcome of a request, if the capability is there
    unfoldable pub outcome_of : Option (Fields → Result Fields) → Fields → Fields
    outcome_of none request = incomplete "missing_handler"
    outcome_of (some handler) request = or_error (resolve_local_identity request >>= handler)

    unfoldable pub supported_outcome : List String → String → String → Fields → Fields
    unfolding outcome_of handler_of
    supported_outcome capabilities request_id capability request =
        if str_eq request_id "" || not (is_member capability capabilities)
        then incomplete "unsupported_capability"
        else outcome_of (handler_of capability) request

    -- execute, with the time as text and the latency
    unfoldable pub execute : List String → String → ℕ → Fields → Result Fields
    unfolding supported_outcome merge
    execute capabilities observed_at latency request = do
      let request_id = text_or_empty rt (get "request_id" request)
      let capability = text_or_empty rt (get "capability" request)
      observer_id ← public_observer_id rt config
      let base =
          ("request_id", str request_id)
          & ("observer_id", str observer_id)
          & ("capability", str capability)
          & ("observed_at", str observed_at)
          & ("attempt_ref", str (text_or_empty rt (get "attempt_ref" request)))
          & ("attempt_index", get "attempt_index" request)
          & end
      ok (
          set "latency_seconds" (float latency)
            (merge base (supported_outcome capabilities request_id capability request)))
