-- ===== src/Tests/ReplayRuns.antt =====
-- A capture that is replayed.
use celery_diagnostics_obser.EventReceiver.{handle_event, wait_of, next_backoff, backoff_after}
use celery_diagnostics_obser.Samplers.Queues.{queue_snapshot, sample_queues, sample_once}
use celery_diagnostics_obser.ActiveProbes.Executor.{
  merge, same_identity, with_identity, resolve_local_identity, handler_of, outcome_of,
  supported_outcome, execute,
}
use celery_diagnostics_obser.ActiveProbes.Capacity.{
  concurrency_of, worker_concurrency, common_keys, keys_of, total_capacity, capacity_in,
  query_capacity, consumers_in, query_queue_consumers,
}
use celery_diagnostics_obser.ActiveProbes.Handlers.{
  query_with, query_schedule, query_worker_presence, state_of_text, redis_result_status,
  query_result_backend, scan_queue, query_broker_message,
}
use celery_diagnostics_obser.ActiveProbes.Answers.{
  is_member, is_subset, common_count, negative_complete, positive, negative,
}
use celery_diagnostics_obser.ActiveProbes.Matching.{
  find_in, find_queried_task, non_negative_int, task_retry_count, task_redelivered, attempt_error,
  attempt_error_of, matching_attempt_error,
}
use celery_diagnostics_obser.ActiveProbes.Requests.{
  required, worker_set, expected_workers, is_routable_worker_name, all_routable, destination,
  privacy_label, worker_name, queue_name, labels_of, reply_labels, labeled_entries, labeled_mapping,
  queue_label_set, queue_names, configured_queue, parse_datetime,
}
use celery_diagnostics_obser.ActiveProbes.Capabilities.{
  broker_type, sorted_set, active_probe_capabilities,
}
use celery_diagnostics_obser.Sanitizer.Snapshots.{
  sanitize_queue_snapshot, queue_labels, sanitize_worker_snapshot, text_ltb, insert_sorted,
  capability_set, comma_join, transport_details, sanitize_observer_heartbeat,
}
use celery_diagnostics_obser.Sanitizer.Events.{
  periodic_part, run_part, task_payload, sanitize_task_event, worker_payload, sanitize_worker_event,
  dispatch, sanitize_fields, sanitize_celery_event,
}
use celery_diagnostics_obser.Sanitizer.Beat.{
  schedule_display, beat_entry, beat_entries, sanitize_beat_schedule_entries,
}
use celery_diagnostics_obser.Sanitizer.Parts.{
  task_event_map, worker_event_map, type_of, id_of, delivery_info, name_value, worker_value,
  task_label, queue_label, route_label, worker_label, task_worker_label, run_ref_for,
  identity_values, capsule_for, expired_revoke, requeued_rejection, delivery_redelivered,
  progress_entries, progress_metadata, task_metadata, retries_value,
}
use celery_diagnostics_obser.Sanitizer.Exceptions.{
  split_exception_identity, name_ends, match_exception_type, split_match, parse_exception_identity,
  is_known_inner, inner_name, match_inner, search_inner, first_inner,
  known_inner_exception_identity, exception_identity,
}
use celery_diagnostics_obser.Sanitizer.Coerce.{
  safe_token, parsed_int, optional_non_negative_int, optional_positive_int, parsed_float,
  optional_float, timestamp_text, moment_of_text, iso_of_text, iso_of_number, datetime_iso, truthy,
  safe_status, safe_detail, safe_details,
}
use celery_diagnostics_obser.Identity.{
  required_key, identity_key_id, prefix_of, keyed_ref, identity_ref, run_ref_of, task_run_ref,
  add_field, named_fields, seal_payload, seal_identity, is_ascii, opened, decrypted, open_token,
  open_parts, open_identity,
}
use celery_diagnostics_obser.Text.Laws.{has_nul}
use celery_diagnostics_obser.Text.{
  is_space, lstrip, before_end, rstrip, strip, take_text, length_text, without_nul, dashed, lower,
  upper, has_char, before_colon, has_dot, partition_dot, last_part, before_last_dot, starts_with,
  utc_offset, is_ident_start, is_word, is_dotted, dotted_run, ends_with, has_text,
}
use celery_diagnostics_obser.Prelude.{
  pos, ◌+◌, ◌-◌, leb, String, true, false, none, some, List, [], ◌∷◌, str_eq, ◌≡◌, refl, All,
  if◌then◌else◌,
}
use celery_diagnostics_obser.Result.{Result, ok, ◌>>=◌}
use celery_diagnostics_obser.Values.{
  null, str, float, bool, list, nil, dict, Moment, Fields, field, end,
}
use celery_diagnostics_obser.Sanitizer.Labels.{
  ◌&◌, public_observer_id, label, task_relation_ref, strip_forbidden,
}
use celery_diagnostics_obser.Values.Dict.{get?, set, pop, pop_all}
use celery_diagnostics_obser.Runtime.{Runtime, to_text, text_or_empty, stripped}
use celery_diagnostics_obser.Replay.{
  Arithmetic, ReplayExport, read_jsonl, export_event_replay, export_rows, select_rows, replay_rows,
  replay_row, shifted_event, shift_key, number, event_time, annotated, set_observed, write_jsonl,
}
use celery_diagnostics_obser.Replay.Export.{Exported, Accounts, the_request, export_sound}
use celery_diagnostics_obser.Tests.Samples.{sample_config, runtime, local_policy}

abbrev arithmetic : Arithmetic
arithmetic = record {
  add = λ a b. a + b;
  subtract = λ a b. a - b;
  at_most = leb;
  is_negative = λ b. false;
  timestamp = λ m. 1000;
  isoformat = λ m. "anchor";
}

abbrev heartbeat : Fields
heartbeat =
    field "type" (str "worker-heartbeat")
      (field "hostname" (str "celery@a") (field "timestamp" (float 7) end))

abbrev other_event : Fields
other_event = field "type" (str "other") (field "timestamp" (float 8) end)

abbrev late_event : Fields
late_event = field "type" (str "worker-heartbeat") (field "timestamp" (float 50) end)

abbrev replay_runtime : Runtime
replay_runtime = record (runtime end) {
  loads = λ s.
      some (
        dict
          (if str_eq s "h" then heartbeat else if str_eq s "o" then other_event else late_event));
  from_timestamp = λ b. ok (record { micros = pos b; offset = some (pos 0) });
  iso_utc = λ m. ok "then";
}

abbrev clock : Moment
clock = record { micros = pos 0; offset = some (pos 0) }

abbrev lines : List String
lines = "h" ∷ "" ∷ "o" ∷ "l" ∷ []

abbrev exported_event : Result (ReplayExport × List Fields)
exported_event =
    export_event_replay arithmetic replay_runtime sample_config local_policy (λ n. "now") clock
      lines 10 none

abbrev first_export : ReplayExport
first_export = record {
  read = 3;
  before_cutoff = 2;
  exported = 1;
  unsupported = 1;
  shift_seconds = 990;
}

abbrev first_row : Fields
first_row =
    ("schema_version", str "observer.v1")
    & ("observer_id", str "observer-1")
    & ("observer_mode", str "standalone")
    & ("telemetry_policy", str "local-only")
    & ("source", str "celery_event_stream")
    & ("event_type", str "worker-heartbeat")
    & ("normalized_event_type", str "worker_heartbeat")
    & ("worker", str "W-worker:celer")
    & ("worker_is_hashed", bool true)
    & ("state", str "online")
    & ("hostname", str "W-worker:celer")
    & ("beat_schedule_version", str "")
    & ("beat_schedule_entry_count", null)
    & ("beat_schedule_snapshot_complete", bool false)
    & ("beat_schedule_entries", list nil)
    & ("event_timestamp", str "then")
    & ("observed_at", str "now")
    & ("payload_redacted", bool true)
    & ("metadata", dict (("celery_clock", null) & ("freq", null) & end))
    & (
      "research_replay",
      dict (
          ("public_cutoff", float 10)
          & ("cutoff_anchor", str "anchor")
          & ("event_intervals_preserved", bool true)
          & end),
    )
    & end

export_runs :
    (read_jsonl replay_runtime lines ≡ ok (heartbeat ∷ other_event ∷ late_event ∷ []))
    × ((exported_event ≡ ok (first_export, first_row ∷ []))
        × (shifted_event arithmetic replay_runtime 990 heartbeat
            ≡ ok (
                field "type"
                  (str "worker-heartbeat")
                  (field "hostname" (str "celery@a") (field "timestamp" (float 997) end)))))
unfolding ◌>>=◌ get? set pop pop_all is_space lstrip before_end rstrip strip take_text length_text
    without_nul dashed lower upper has_char before_colon has_dot partition_dot last_part
    before_last_dot starts_with utc_offset is_ident_start is_word is_dotted dotted_run ends_with
    has_text has_nul to_text text_or_empty stripped required_key identity_key_id prefix_of keyed_ref
    identity_ref run_ref_of task_run_ref add_field named_fields seal_payload seal_identity is_ascii
    opened decrypted open_token open_parts open_identity safe_token parsed_int
    optional_non_negative_int optional_positive_int parsed_float optional_float timestamp_text
    moment_of_text iso_of_text iso_of_number datetime_iso truthy safe_status safe_detail
    safe_details public_observer_id label task_relation_ref strip_forbidden split_exception_identity
    name_ends match_exception_type split_match parse_exception_identity is_known_inner inner_name
    match_inner search_inner first_inner known_inner_exception_identity exception_identity
    task_event_map worker_event_map type_of id_of delivery_info name_value worker_value task_label
    queue_label route_label worker_label task_worker_label run_ref_for identity_values capsule_for
    expired_revoke requeued_rejection delivery_redelivered progress_entries progress_metadata
    task_metadata retries_value schedule_display beat_entry beat_entries
    sanitize_beat_schedule_entries periodic_part run_part task_payload sanitize_task_event
    worker_payload sanitize_worker_event dispatch sanitize_fields sanitize_celery_event
    sanitize_queue_snapshot queue_labels sanitize_worker_snapshot text_ltb insert_sorted
    capability_set comma_join transport_details sanitize_observer_heartbeat broker_type sorted_set
    active_probe_capabilities required worker_set expected_workers is_routable_worker_name
    all_routable destination privacy_label worker_name queue_name labels_of reply_labels
    labeled_entries labeled_mapping queue_label_set queue_names configured_queue parse_datetime
    find_in find_queried_task non_negative_int task_retry_count task_redelivered attempt_error
    attempt_error_of matching_attempt_error is_member is_subset common_count negative_complete
    positive negative query_with query_schedule query_worker_presence state_of_text
    redis_result_status query_result_backend scan_queue query_broker_message concurrency_of
    worker_concurrency common_keys keys_of total_capacity capacity_in query_capacity consumers_in
    query_queue_consumers merge same_identity with_identity resolve_local_identity handler_of
    outcome_of supported_outcome execute queue_snapshot sample_queues sample_once handle_event
    wait_of next_backoff backoff_after number event_time shift_key shifted_event set_observed
    annotated replay_row replay_rows select_rows read_jsonl write_jsonl export_rows
    export_event_replay
export_runs = (refl, (refl, refl))

export_sound_example :
    All
      (Exported arithmetic replay_runtime
        (the_request arithmetic replay_runtime sample_config local_policy
          (λ n. "now")
          clock
          lines
          10
          none)
        (heartbeat ∷ other_event ∷ late_event ∷ []))
      (first_row ∷ [])
    × Accounts first_export (heartbeat ∷ other_event ∷ late_event ∷ []) (first_row ∷ [])
export_sound_example =
    export_sound arithmetic replay_runtime sample_config local_policy (λ n. "now") clock lines 10
      none (heartbeat ∷ other_event ∷ late_event ∷ []) first_export (first_row ∷ []) (export_runs.0)
      (export_runs.1.0)

abbrev shifted : Fields
shifted =
    field "type" (str "worker-heartbeat")
      (field "hostname" (str "celery@a") (field "timestamp" (float 997) end))
