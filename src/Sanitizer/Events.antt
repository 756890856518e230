-- ===== src/Sanitizer/Events.antt =====
-- sanitizer.py: sanitize_celery_event, with the task and the worker events.
pub mod Entries
pub mod Forbidden
pub mod Links
pub mod Reads
use celery_diagnostics_obser.Prelude.{
  String, Bool, true, false, ◌||◌, Option, none, some, str_eq, if◌then◌else◌,
}
use celery_diagnostics_obser.Result.{Result, ok, ◌>>=◌}
use celery_diagnostics_obser.Values.{Value, bool, str, list, dict, Fields, end, field, truth}
use celery_diagnostics_obser.Values.Dict.{get}
use celery_diagnostics_obser.Config.{ObserverConfig}
use celery_diagnostics_obser.Policy.{TelemetryPolicy}
use celery_diagnostics_obser.Text.{starts_with}
use celery_diagnostics_obser.Runtime.{Runtime}
use celery_diagnostics_obser.Sanitizer.Coerce.{
  safe_token, optional_non_negative_int, optional_float, int_or_none, float_or_none, str_or_none,
  datetime_iso, or_text,
}
use celery_diagnostics_obser.Sanitizer.Labels.{
  public_observer_id, label, task_relation_ref, strip_forbidden, ◌&◌,
}
use celery_diagnostics_obser.Sanitizer.Exceptions.{exception_identity}
use celery_diagnostics_obser.Sanitizer.Beat.{sanitize_beat_schedule_entries}
use celery_diagnostics_obser.Sanitizer.Parts.{
  task_event_map, worker_event_map, type_of, id_of, task_label, queue_label, route_label,
  worker_label, task_worker_label, run_ref_for, capsule_for, expired_revoke, delivery_redelivered,
  task_metadata, retries_value,
}

abbrev pub schema_version : String
schema_version = "observer.v1"

-- a text that is not empty, else the other
abbrev pub first_text : String → String → String
first_text a b = if str_eq a "" then b else a

abbrev pub public_event_type : String → String
public_event_type t = if str_eq t "task-delivery-fact" then "task-received" else t

abbrev pub source_of : Bool → String
source_of true = "celery_beat_adapter"
source_of false = "celery_event_stream"

-- the entries for schedules, then `payload_redacted` and `metadata`
unfoldable pub periodic_part :
    Runtime → ObserverConfig → TelemetryPolicy → String → String → Fields → Fields → Result Fields
periodic_part rt config policy event_type schedule_name raw metadata = do
  scheduled_fire_at ← datetime_iso rt (get "periodic_scheduled_fire_at" raw)
  lateness ← optional_non_negative_int rt (get "periodic_task_lateness_ms" raw)
  (beat_hostname, _) ← label rt (get "beat_hostname" raw) policy.send_worker_names "worker" config
  ok (
      (
        "is_periodic_task",
        bool (starts_with "beat-" event_type || truth (get "is_periodic_task" raw)),
      )
      & ("periodic_schedule_name", str schedule_name)
      & ("periodic_schedule_id", str (safe_token rt (get "periodic_schedule_id" raw) 128))
      & ("periodic_schedule_hash", str (safe_token rt (get "periodic_schedule_hash" raw) 128))
      & ("periodic_schedule_version", str (safe_token rt (get "periodic_schedule_version" raw) 128))
      & ("periodic_occurrence_key", str (safe_token rt (get "periodic_occurrence_key" raw) 128))
      & ("periodic_scheduled_fire_at", str_or_none scheduled_fire_at)
      & ("periodic_task_lateness_ms", int_or_none lateness)
      & ("beat_hostname", str beat_hostname)
      & ("payload_redacted", bool true)
      & ("metadata", dict metadata)
      & end)

-- the entries on the run of the task, then those for schedules
unfoldable pub run_part :
    Runtime
    → ObserverConfig
    → TelemetryPolicy
    → String
    → String
    → String
    → String
    → Fields
    → Fields
    → Result Fields
unfolding periodic_part
run_part rt config policy now event_type state schedule_name raw metadata = do
  timestamp ← datetime_iso rt (get "timestamp" raw)
  root_id ← task_relation_ref rt (get "root_id" raw) config policy
  parent_id ← task_relation_ref rt (get "parent_id" raw) config policy
  retries ← optional_non_negative_int rt (retries_value raw)
  eta ← datetime_iso rt (get "eta" raw)
  runtime ← optional_float rt (get "runtime" raw)
  periodic ← periodic_part rt config policy event_type schedule_name raw metadata
  let (exception_type, exception_module) = exception_identity rt raw policy
  ok (
      ("state", str (if expired_revoke rt event_type raw then "expired" else state))
      & ("event_timestamp", str (or_text timestamp now))
      & ("observed_at", str now)
      & ("root_id", str root_id)
      & ("parent_id", str parent_id)
      & ("retries", int_or_none retries)
      & ("delivery_redelivered", bool (delivery_redelivered rt event_type raw))
      & ("eta", str_or_none eta)
      & ("runtime", float_or_none runtime)
      & ("exception_type", str_or_none exception_type)
      & ("exception_module", str_or_none exception_module)
      & periodic)

-- the event of a task with this id; `now` is utc_now_iso() at the call
unfoldable pub task_payload :
    Runtime
    → ObserverConfig
    → TelemetryPolicy
    → String
    → String
    → String × String
    → String
    → Fields
    → Result Fields
task_payload rt config policy now event_type (normalized_type, state) task_id raw = do
  (task_name, task_name_hashed) ← task_label rt config policy raw
  (queue, queue_hashed) ← queue_label rt config policy raw
  (routing_key, routing_key_hashed) ← route_label rt config policy raw
  (worker, worker_hashed) ← task_worker_label rt config policy event_type raw
  run_ref ← run_ref_for rt config policy task_id
  identity_capsule ← capsule_for rt config policy event_type task_id raw
  metadata ← task_metadata rt event_type raw
  (schedule_name, _) ←
      label rt (get "periodic_schedule_name" raw) policy.send_task_names "task" config
  observer_id ← public_observer_id rt config
  (exchange, _) ← label rt (get "exchange" raw) policy.send_routing_labels "exchange" config
  run ← run_part rt config policy now event_type state schedule_name raw metadata
  ok (
      ("schema_version", str schema_version)
      & ("observer_id", str observer_id)
      & ("observer_mode", str config.mode)
      & ("telemetry_policy", str policy.name)
      & ("source", str (source_of (starts_with "beat-" event_type)))
      & ("event_type", str (public_event_type event_type))
      & ("normalized_event_type", str normalized_type)
      & ("task_id", str (first_text run_ref task_id))
      & ("run_ref", str run_ref)
      & ("identity_capsule", str identity_capsule)
      & ("task_name", str task_name)
      & ("task_name_is_hashed", bool task_name_hashed)
      & ("queue", str queue)
      & ("queue_is_hashed", bool queue_hashed)
      & ("routing_key", str routing_key)
      & ("routing_key_is_hashed", bool routing_key_hashed)
      & ("exchange", str exchange)
      & ("worker", str worker)
      & ("worker_is_hashed", bool worker_hashed)
      & run)

-- the payload without its forbidden fields, as the function returns it
abbrev pub without_forbidden : Result Fields → Result (Option Fields)
without_forbidden payload = do entries ← payload; ok (some (strip_forbidden entries))

-- _sanitize_task_event, with its entry of TASK_EVENT_MAP
unfoldable pub sanitize_task_event :
    Runtime
    → ObserverConfig
    → TelemetryPolicy
    → String
    → String
    → String × String
    → Fields
    → Result (Option Fields)
unfolding id_of
sanitize_task_event rt config policy now event_type mapped raw =
    let task_id = id_of rt raw in
    if str_eq task_id ""
    then ok none
    else without_forbidden (task_payload rt config policy now event_type mapped task_id raw)

-- the event of a worker with this label
unfoldable pub worker_payload :
    Runtime
    → ObserverConfig
    → TelemetryPolicy
    → String
    → String
    → String × String
    → String × Bool
    → Fields
    → Result Fields
worker_payload rt config policy now event_type (normalized_type, state) (worker, worker_hashed)
      raw =
    do
      observer_id ← public_observer_id rt config
      entry_count ← optional_non_negative_int rt (get "beat_schedule_entry_count" raw)
      entries ← sanitize_beat_schedule_entries rt config policy (get "beat_schedule_entries" raw)
      timestamp ← datetime_iso rt (get "timestamp" raw)
      clock ← optional_non_negative_int rt (get "clock" raw)
      freq ← optional_float rt (get "freq" raw)
      ok (
          ("schema_version", str schema_version)
          & ("observer_id", str observer_id)
          & ("observer_mode", str config.mode)
          & ("telemetry_policy", str policy.name)
          & ("source", str (source_of (str_eq event_type "beat-schedule-snapshot")))
          & ("event_type", str event_type)
          & ("normalized_event_type", str normalized_type)
          & ("worker", str worker)
          & ("worker_is_hashed", bool worker_hashed)
          & ("state", str state)
          & ("hostname", str worker)
          & ("beat_schedule_version", str (safe_token rt (get "beat_schedule_version" raw) 128))
          & ("beat_schedule_entry_count", int_or_none entry_count)
          & (
            "beat_schedule_snapshot_complete",
            bool (truth (get "beat_schedule_snapshot_complete" raw)),
          )
          & ("beat_schedule_entries", list entries)
          & ("event_timestamp", str (or_text timestamp now))
          & ("observed_at", str now)
          & ("payload_redacted", bool true)
          & (
            "metadata",
            dict (("celery_clock", int_or_none clock) & ("freq", float_or_none freq) & end),
          )
          & end)

-- _sanitize_worker_event, with its entry of WORKER_EVENT_MAP
unfoldable pub sanitize_worker_event :
    Runtime
    → ObserverConfig
    → TelemetryPolicy
    → String
    → String
    → String × String
    → Fields
    → Result (Option Fields)
sanitize_worker_event rt config policy now event_type mapped raw = do
  labelled ← worker_label rt config policy raw
  if str_eq (labelled.0) ""
      then ok none
      else without_forbidden (worker_payload rt config policy now event_type mapped labelled raw)

unfoldable pub dispatch :
    Runtime
    → ObserverConfig
    → TelemetryPolicy
    → String
    → Fields
    → String
    → Option (String × String)
    → Option (String × String)
    → Result (Option Fields)
dispatch rt config policy now raw event_type (some mapped) worker_mapped =
    sanitize_task_event rt config policy now event_type mapped raw
dispatch rt config policy now raw event_type none (some mapped) =
    sanitize_worker_event rt config policy now event_type mapped raw
dispatch rt config policy now raw event_type none none = ok none

unfoldable pub sanitize_fields :
    Runtime → ObserverConfig → TelemetryPolicy → String → Fields → Result (Option Fields)
unfolding dispatch
sanitize_fields rt config policy now raw =
    let event_type = type_of rt raw in
    dispatch rt config policy now raw event_type (task_event_map event_type)
      (worker_event_map event_type)

-- sanitize_celery_event, at the time `now`
unfoldable pub sanitize_celery_event :
    Runtime → ObserverConfig → TelemetryPolicy → String → Value → Result (Option Fields)
sanitize_celery_event rt config policy now (dict raw) = sanitize_fields rt config policy now raw
sanitize_celery_event rt config policy now _ = ok none
