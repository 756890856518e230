-- ===== src/Sanitizer/Parts.antt =====
-- sanitizer.py: what _sanitize_task_event and _sanitize_worker_event read from a raw event, part by part.
use celery_diagnostics_obser.Prelude.{
  String, Bool, true, false, ◌&&◌, ◌||◌, Option, none, some, str_eq, if◌then◌else◌,
}
use celery_diagnostics_obser.Result.{Result, ok, ◌>>=◌}
use celery_diagnostics_obser.Values.{Value, null, bool, str, Fields, end, ◌or◌, as_dict}
use celery_diagnostics_obser.Values.Dict.{get}
use celery_diagnostics_obser.Config.{ObserverConfig}
use celery_diagnostics_obser.Policy.{TelemetryPolicy, identities_local_only}
use celery_diagnostics_obser.Identity.{seal_identity, task_run_ref}
use celery_diagnostics_obser.Runtime.{Runtime, stripped}
use celery_diagnostics_obser.Sanitizer.Coerce.{
  optional_non_negative_int, optional_positive_int, int_or_none, str_or_none, datetime_iso, truthy,
}
use celery_diagnostics_obser.Sanitizer.Labels.{label, ◌&◌}

-- TASK_EVENT_MAP
unfoldable pub task_event_map : String → Option (String × String)
task_event_map t =
    if str_eq t "task-sent"
    then some ("task_published", "published")
    else if str_eq t "task-received"
    then some ("task_received", "received")
    else if str_eq t "task-started"
    then some ("task_started", "started")
    else if str_eq t "task-progress"
    then some ("task_progress", "progress")
    else if str_eq t "task-succeeded"
    then some ("task_succeeded", "succeeded")
    else if str_eq t "task-failed"
    then some ("task_failed", "failed")
    else if str_eq t "task-retried"
    then some ("task_retried", "retried")
    else if str_eq t "task-rejected"
    then some ("task_rejected", "rejected")
    else if str_eq t "task-revoked"
    then some ("task_revoked", "revoked")
    else if str_eq t "task-delivery-fact"
    then some ("task_received", "received")
    else if str_eq t "beat-task-due"
    then some ("beat_task_due", "due")
    else if str_eq t "beat-publish-failed"
    then some ("publish_failed", "publish_failed")
    else none

-- WORKER_EVENT_MAP
unfoldable pub worker_event_map : String → Option (String × String)
worker_event_map t =
    if str_eq t "worker-online"
    then some ("worker_ready", "online")
    else if str_eq t "worker-heartbeat"
    then some ("worker_heartbeat", "online")
    else if str_eq t "worker-offline"
    then some ("worker_shutdown", "offline")
    else if str_eq t "beat-schedule-snapshot"
    then some ("beat_schedule_snapshot", "online")
    else none

-- the type of a raw event
unfoldable pub type_of : Runtime → Fields → String
type_of rt raw = stripped rt (get "type" raw or get "event_type" raw)

-- the task id of a raw event
unfoldable pub id_of : Runtime → Fields → String
id_of rt raw = stripped rt (get "uuid" raw or get "id" raw or get "task_id" raw)

unfoldable pub delivery_info : Fields → Fields
delivery_info raw = as_dict (get "delivery_info" raw)

unfoldable pub name_value : Fields → Value
name_value raw = get "name" raw or get "task" raw

unfoldable pub worker_value : Fields → Value
worker_value raw = get "hostname" raw or get "worker" raw

unfoldable pub task_label :
    Runtime → ObserverConfig → TelemetryPolicy → Fields → Result (String × Bool)
unfolding name_value
task_label rt config policy raw = label rt (name_value raw) policy.send_task_names "task" config

unfoldable pub queue_label :
    Runtime → ObserverConfig → TelemetryPolicy → Fields → Result (String × Bool)
unfolding delivery_info
queue_label rt config policy raw =
    label rt (get "queue" raw or get "routing_key" raw or get "routing_key" (delivery_info raw))
      policy.send_queue_names "queue" config

unfoldable pub route_label :
    Runtime → ObserverConfig → TelemetryPolicy → Fields → Result (String × Bool)
unfolding delivery_info
route_label rt config policy raw =
    label rt (get "routing_key" raw or get "routing_key" (delivery_info raw))
      policy.send_routing_labels "route" config

unfoldable pub worker_label :
    Runtime → ObserverConfig → TelemetryPolicy → Fields → Result (String × Bool)
unfolding worker_value
worker_label rt config policy raw =
    label rt (worker_value raw) policy.send_worker_names "worker" config

-- of a published task there is no worker yet
unfoldable pub task_worker_label :
    Runtime → ObserverConfig → TelemetryPolicy → String → Fields → Result (String × Bool)
unfolding worker_label
task_worker_label rt config policy event_type raw =
    if str_eq event_type "task-sent" then ok ("", false) else worker_label rt config policy raw

unfoldable pub run_ref_for : Runtime → ObserverConfig → TelemetryPolicy → String → Result String
run_ref_for rt config policy task_id =
    if identities_local_only policy
    then task_run_ref rt (str task_id) config.identity_key
    else ok ""

-- the identities to seal
unfoldable pub identity_values : Runtime → String → String → Fields → Fields
unfolding name_value worker_value
identity_values rt event_type task_id raw =
    ("task_id", str task_id)
    & ("task_name", name_value raw or str "")
    & ("queue", get "queue" raw or get "routing_key" raw or str "")
    & ("routing_key", get "routing_key" raw or str "")
    & ("worker", str (if str_eq event_type "task-sent" then "" else stripped rt (worker_value raw)))
    & end

unfoldable pub capsule_for :
    Runtime → ObserverConfig → TelemetryPolicy → String → String → Fields → Result String
capsule_for rt config policy event_type task_id raw =
    if identities_local_only policy
    then seal_identity rt (identity_values rt event_type task_id raw) config.identity_key
    else ok ""

unfoldable pub expired_revoke : Runtime → String → Fields → Bool
expired_revoke rt event_type raw = str_eq event_type "task-revoked" && truthy rt (get "expired" raw)

unfoldable pub requeued_rejection : Runtime → String → Fields → Bool
requeued_rejection rt event_type raw =
    str_eq event_type "task-rejected" && truthy rt (get "requeue" raw)

unfoldable pub delivery_redelivered : Runtime → String → Fields → Bool
unfolding requeued_rejection delivery_info
delivery_redelivered rt event_type raw =
    requeued_rejection rt event_type raw
    || truthy rt (get "redelivered" raw or get "redelivered" (delivery_info raw))

unfoldable pub progress_entries : Runtime → Fields → Result Fields
progress_entries rt raw = do
  sequence ← optional_non_negative_int rt (get "progress_sequence" raw)
  silence ← optional_positive_int rt (get "progress_max_silence_seconds" raw)
  ok (
      ("progress_sequence", int_or_none sequence)
      & ("progress_max_silence_seconds", int_or_none silence)
      & end)

-- the entries of `metadata` for a progress event
unfoldable pub progress_metadata : Runtime → String → Fields → Result Fields
unfolding progress_entries
progress_metadata rt event_type raw =
    if str_eq event_type "task-progress" then progress_entries rt raw else ok end

unfoldable pub task_metadata : Runtime → String → Fields → Result Fields
unfolding expired_revoke requeued_rejection progress_metadata
task_metadata rt event_type raw = do
  clock ← optional_non_negative_int rt (get "clock" raw)
  local_received ← datetime_iso rt (get "local_received" raw)
  progress ← progress_metadata rt event_type raw
  let rejection =
      if str_eq event_type "task-rejected"
      then ("requeue", bool (requeued_rejection rt event_type raw)) & progress
      else progress
  let expiry =
      if expired_revoke rt event_type raw then ("expired", bool true) & rejection else rejection
  ok (("celery_clock", int_or_none clock) & ("local_received", str_or_none local_received) & expiry)

-- a if a is not None else b
abbrev pub unless_null : Value → Value → Value
unless_null null b = b
unless_null a b = a

-- the retries of the event, else of the application
unfoldable pub retries_value : Fields → Value
retries_value raw = unless_null (get "retries" raw) (get "application_retry_index" raw)
