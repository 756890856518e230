-- ===== src/Sanitizer/Events/Reads.antt =====
-- sanitizer.py: which entries of a raw event the event that leaves depends on.
use celery_diagnostics_obser.Prelude.{
  String, Bool, true, Option, none, some, ◌≡◌, refl, ◌||◌, str_eq,
}
use celery_diagnostics_obser.Result.{>>=_ext, >>=_same}
use celery_diagnostics_obser.Values.{Fields, dict}
use celery_diagnostics_obser.Values.Dict.{get}
use celery_diagnostics_obser.Config.{ObserverConfig}
use celery_diagnostics_obser.Policy.{TelemetryPolicy}
use celery_diagnostics_obser.Runtime.{Runtime}
use celery_diagnostics_obser.Sanitizer.Exceptions.{exception_identity}
use celery_diagnostics_obser.Sanitizer.Parts.{
  type_of, id_of, delivery_info, name_value, worker_value, task_label, queue_label, route_label,
  worker_label, task_worker_label, identity_values, capsule_for, expired_revoke, requeued_rejection,
  delivery_redelivered, progress_entries, progress_metadata, task_metadata, retries_value,
}
use celery_diagnostics_obser.Sanitizer.Events.{
  periodic_part, run_part, task_payload, worker_payload, sanitize_task_event, sanitize_worker_event,
  dispatch, sanitize_fields, sanitize_celery_event,
}

-- the keys that are read for anything but the class of an exception
abbrev pub is_read : String → Bool
is_read k =
    str_eq k "type"
    || str_eq k "event_type"
    || str_eq k "uuid"
    || str_eq k "id"
    || str_eq k "task_id"
    || str_eq k "name"
    || str_eq k "task"
    || str_eq k "queue"
    || str_eq k "routing_key"
    || str_eq k "delivery_info"
    || str_eq k "hostname"
    || str_eq k "worker"
    || str_eq k "expired"
    || str_eq k "requeue"
    || str_eq k "redelivered"
    || str_eq k "clock"
    || str_eq k "local_received"
    || str_eq k "progress_sequence"
    || str_eq k "progress_max_silence_seconds"
    || str_eq k "periodic_schedule_name"
    || str_eq k "exchange"
    || str_eq k "timestamp"
    || str_eq k "root_id"
    || str_eq k "parent_id"
    || str_eq k "retries"
    || str_eq k "application_retry_index"
    || str_eq k "eta"
    || str_eq k "runtime"
    || str_eq k "is_periodic_task"
    || str_eq k "periodic_schedule_id"
    || str_eq k "periodic_schedule_hash"
    || str_eq k "periodic_schedule_version"
    || str_eq k "periodic_occurrence_key"
    || str_eq k "periodic_scheduled_fire_at"
    || str_eq k "periodic_task_lateness_ms"
    || str_eq k "beat_hostname"
    || str_eq k "beat_schedule_version"
    || str_eq k "beat_schedule_entry_count"
    || str_eq k "beat_schedule_snapshot_complete"
    || str_eq k "beat_schedule_entries"
    || str_eq k "freq"

module _ (rt : Runtime) (config : ObserverConfig) (policy : TelemetryPolicy) (now : String)
    (raw raw' : Fields) (same : (k : String) → is_read k ≡ true → get k raw ≡ get k raw') where
  task_label_same : task_label rt config policy raw ≡ task_label rt config policy raw'
  unfolding task_label name_value
  task_label_same = rw (same "name" refl, same "task" refl) refl

  delivery_info_same : delivery_info raw ≡ delivery_info raw'
  unfolding delivery_info
  delivery_info_same = rw (same "delivery_info" refl) refl

  queue_label_same : queue_label rt config policy raw ≡ queue_label rt config policy raw'
  unfolding queue_label
  queue_label_same = rw (same "queue" refl, same "routing_key" refl, delivery_info_same) refl

  route_label_same : route_label rt config policy raw ≡ route_label rt config policy raw'
  unfolding route_label
  route_label_same = rw (same "routing_key" refl, delivery_info_same) refl

  worker_label_same : worker_label rt config policy raw ≡ worker_label rt config policy raw'
  unfolding worker_label worker_value
  worker_label_same = rw (same "hostname" refl, same "worker" refl) refl

  capsule_for_same :
      (event_type task_id : String)
      → capsule_for rt config policy event_type task_id raw
        ≡ capsule_for rt config policy event_type task_id raw'
  unfolding capsule_for identity_values name_value worker_value
  capsule_for_same event_type task_id =
      rw
        (
          same "name" refl,
          same "task" refl,
          same "queue" refl,
          same "routing_key" refl,
          same "hostname" refl,
          same "worker" refl,
        )
        refl

  task_metadata_same :
      (event_type : String) → task_metadata rt event_type raw ≡ task_metadata rt event_type raw'
  unfolding task_metadata progress_metadata progress_entries expired_revoke requeued_rejection
  task_metadata_same event_type =
      rw
        (
          same "clock" refl,
          same "local_received" refl,
          same "progress_sequence" refl,
          same "progress_max_silence_seconds" refl,
          same "expired" refl,
          same "requeue" refl,
        )
        refl

  periodic_part_same :
      (event_type schedule_name : String) (metadata : Fields)
      → periodic_part rt config policy event_type schedule_name raw metadata
        ≡ periodic_part rt config policy event_type schedule_name raw' metadata
  unfolding periodic_part
  periodic_part_same event_type schedule_name metadata =
      rw
        (
          same "periodic_scheduled_fire_at" refl,
          same "periodic_task_lateness_ms" refl,
          same "beat_hostname" refl,
          same "is_periodic_task" refl,
          same "periodic_schedule_id" refl,
          same "periodic_schedule_hash" refl,
          same "periodic_schedule_version" refl,
          same "periodic_occurrence_key" refl,
        )
        refl

  retries_value_same : retries_value raw ≡ retries_value raw'
  unfolding retries_value
  retries_value_same = rw (same "retries" refl, same "application_retry_index" refl) refl

  expired_revoke_same :
      (event_type : String) → expired_revoke rt event_type raw ≡ expired_revoke rt event_type raw'
  unfolding expired_revoke
  expired_revoke_same event_type = rw (same "expired" refl) refl

  delivery_redelivered_same :
      (event_type : String)
      → delivery_redelivered rt event_type raw ≡ delivery_redelivered rt event_type raw'
  unfolding delivery_redelivered requeued_rejection
  delivery_redelivered_same event_type =
      rw (same "requeue" refl, same "redelivered" refl, delivery_info_same) refl

  task_worker_label_same :
      (event_type : String)
      → task_worker_label rt config policy event_type raw
        ≡ task_worker_label rt config policy event_type raw'
  unfolding task_worker_label
  task_worker_label_same event_type = rw worker_label_same refl

  run_part_same :
      (event_type state schedule_name : String) (metadata : Fields)
      → exception_identity rt raw policy ≡ exception_identity rt raw' policy
      → run_part rt config policy now event_type state schedule_name raw metadata
        ≡ run_part rt config policy now event_type state schedule_name raw' metadata
  unfolding run_part
  run_part_same event_type state schedule_name metadata exception =
      rw
        (
          same "timestamp" refl,
          same "root_id" refl,
          same "parent_id" refl,
          retries_value_same,
          same "eta" refl,
          same "runtime" refl,
          periodic_part_same event_type schedule_name metadata,
          exception,
          expired_revoke_same event_type,
          delivery_redelivered_same event_type,
        )
        refl

  task_payload_same :
      (event_type : String) (mapped : String × String) (task_id : String)
      → exception_identity rt raw policy ≡ exception_identity rt raw' policy
      → task_payload rt config policy now event_type mapped task_id raw
        ≡ task_payload rt config policy now event_type mapped task_id raw'
  unfolding task_payload
  task_payload_same event_type (normalized_type, state) task_id exception =
      rw
        (
          task_label_same,
          queue_label_same,
          route_label_same,
          task_worker_label_same event_type,
          capsule_for_same event_type task_id,
          task_metadata_same event_type,
          same "periodic_schedule_name" refl,
          same "exchange" refl,
        )
        (>>=_ext _ _ _ (λ a. >>=_ext _ _ _ (λ b. >>=_ext _ _ _ (λ c. >>=_ext _ _ _ (λ d.
          >>=_ext _ _ _ (λ e. >>=_ext _ _ _ (λ f. >>=_ext _ _ _ (λ metadata.
            >>=_ext _ _ _ (λ (g : String × Bool). >>=_ext _ _ _ (λ h.
              >>=_ext _ _ _ (λ (i : String × Bool).
                >>=_same _ _ _ (run_part_same event_type state (g.0) metadata exception))))))))))))

  worker_payload_same :
      (event_type : String) (mapped : String × String) (labelled : String × Bool)
      → worker_payload rt config policy now event_type mapped labelled raw
        ≡ worker_payload rt config policy now event_type mapped labelled raw'
  unfolding worker_payload
  worker_payload_same event_type (n, s) (w, h) =
      rw
        (
          same "beat_schedule_entry_count" refl,
          same "beat_schedule_entries" refl,
          same "timestamp" refl,
          same "clock" refl,
          same "freq" refl,
          same "beat_schedule_version" refl,
          same "beat_schedule_snapshot_complete" refl,
        )
        refl

  worker_event_same :
      (event_type : String) (mapped : String × String)
      → sanitize_worker_event rt config policy now event_type mapped raw
        ≡ sanitize_worker_event rt config policy now event_type mapped raw'
  unfolding sanitize_worker_event
  worker_event_same event_type mapped =
      rw worker_label_same
        (>>=_ext _ _ _ (λ labelled. rw (worker_payload_same event_type mapped labelled) refl))

  type_of_same : type_of rt raw ≡ type_of rt raw'
  unfolding type_of
  type_of_same = rw (same "type" refl, same "event_type" refl) refl

  id_of_same : id_of rt raw ≡ id_of rt raw'
  unfolding id_of
  id_of_same = rw (same "uuid" refl, same "id" refl, same "task_id" refl) refl

  module _ (exception : exception_identity rt raw policy ≡ exception_identity rt raw' policy) where
    task_event_same :
        (event_type : String) (mapped : String × String)
        → sanitize_task_event rt config policy now event_type mapped raw
          ≡ sanitize_task_event rt config policy now event_type mapped raw'
    unfolding sanitize_task_event
    task_event_same event_type mapped =
        rw id_of_same (rw (task_payload_same event_type mapped (id_of rt raw') exception) refl)

    dispatch_same :
        (event_type : String) (t w : Option (String × String))
        → dispatch rt config policy now raw event_type t w
          ≡ dispatch rt config policy now raw' event_type t w
    unfolding dispatch
    dispatch_same event_type (some mapped) w = task_event_same event_type mapped
    dispatch_same event_type none (some mapped) = worker_event_same event_type mapped
    dispatch_same event_type none none = refl

    -- The event that leaves depends on the listed keys of the raw event and on the class that is
    -- read from its exception texts: two raw events that agree on these give the same event, whatever
    -- else they hold, such as arguments, a result or a traceback.
    pub sanitize_depends :
        sanitize_celery_event rt config policy now (dict raw)
        ≡ sanitize_celery_event rt config policy now (dict raw')
    unfolding sanitize_celery_event sanitize_fields
    sanitize_depends = rw type_of_same (dispatch_same (type_of rt raw') _ _)
