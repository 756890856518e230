-- ===== src/ActiveProbes/Capabilities.antt =====
-- capabilities.py: the probes that this observer can execute.
use celery_diagnostics_obser.Prelude.{
  String, Bool, true, false, ◌&&◌, not, List, [], ◌∷◌, ◌++◌, str_eq, if◌then◌else◌,
}
use celery_diagnostics_obser.Config.{ObserverConfig}
use celery_diagnostics_obser.Policy.{TelemetryPolicy}
use celery_diagnostics_obser.Text.{has_char, before_colon}
use celery_diagnostics_obser.Runtime.{Runtime, lowered}
use celery_diagnostics_obser.Sanitizer.Snapshots.{insert_sorted}

-- ObserverConfig.broker_type of config.py
unfoldable pub broker_type : Runtime → ObserverConfig → String
broker_type rt config =
    if has_char b':' config.broker_url then lowered rt (before_colon config.broker_url) else ""

-- CONTROL_INSPECT_CAPABILITIES
abbrev pub control_inspect_capabilities : List String
control_inspect_capabilities =
    "celery.broker.queue_consumers" ∷ "celery.inspect.query_task"
    ∷ "celery.inspect.task_reservation" ∷ "celery.inspect.task_schedule"
    ∷ "celery.inspect.worker_capacity" ∷ "celery.inspect.worker_presence" ∷ []

abbrev pub some_queue : List String → Bool
some_queue [] = false
some_queue (q ∷ qs) = true

abbrev pub only_if : Bool → String → List String
only_if true s = s ∷ []
only_if false s = []

-- the sorted set of the texts
unfoldable pub sorted_set : List String → List String
unfolding insert_sorted
sorted_set [] = []
sorted_set (s ∷ ss) = insert_sorted s (sorted_set ss)

-- active_probe_capabilities; the two flags are what supports_status_only_result_probe and
-- uses_default_priority_layout say of the app
unfoldable pub active_probe_capabilities :
    Runtime → Bool → Bool → ObserverConfig → TelemetryPolicy → List String
unfolding sorted_set broker_type
active_probe_capabilities rt status_only default_layout config policy =
    if not config.active_probes
    then []
    else sorted_set (
        control_inspect_capabilities
        ++ (only_if status_only "celery.result_backend.status"
            ++ only_if
                (str_eq (broker_type rt config) "redis"
                  && (policy.enable_redis_queue_snapshots
                      && (some_queue config.queues && default_layout)))
                "celery.broker.message_presence"))
