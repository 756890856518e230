-- ===== src/Tests/BeatRuns.antt =====
-- A schedule of one entry, a publish of it that fails, and exceptions that lead to each other.
use celery_diagnostics_obser.EventReceiver.{handle_event, wait_of, next_backoff, backoff_after}
use celery_diagnostics_obser.Samplers.Queues.{queue_snapshot, sample_queues, sample_once}
use celery_diagnostics_obser.ActiveProbes.Executor.{
  merge, same_identity, with_identity, resolve_local_identity, handler_of, outcome_of,
  supported_outcome, execute,
}
use celery_diagnostics_obser.ActiveProbes.Capacity.{
  concurrency_of, worker_concurrency, common_keys, keys_of, total_capacity, capacity_in,
  query_capacity, consumers_in, query_queue_consumers,
}
use celery_diagnostics_obser.ActiveProbes.Handlers.{
  query_with, query_schedule, query_worker_presence, state_of_text, redis_result_status,
  query_result_backend, scan_queue, query_broker_message,
}
use celery_diagnostics_obser.ActiveProbes.Answers.{
  is_member, is_subset, common_count, negative_complete, positive, negative,
}
use celery_diagnostics_obser.ActiveProbes.Matching.{
  find_in, find_queried_task, non_negative_int, task_retry_count, task_redelivered, attempt_error,
  attempt_error_of, matching_attempt_error,
}
use celery_diagnostics_obser.ActiveProbes.Requests.{
  required, worker_set, expected_workers, is_routable_worker_name, all_routable, destination,
  privacy_label, worker_name, queue_name, labels_of, reply_labels, labeled_entries, labeled_mapping,
  queue_label_set, queue_names, configured_queue, parse_datetime,
}
use celery_diagnostics_obser.ActiveProbes.Capabilities.{
  broker_type, sorted_set, active_probe_capabilities,
}
use celery_diagnostics_obser.Sanitizer.Snapshots.{
  sanitize_queue_snapshot, queue_labels, sanitize_worker_snapshot, text_ltb, insert_sorted,
  capability_set, comma_join, transport_details, sanitize_observer_heartbeat,
}
use celery_diagnostics_obser.Sanitizer.Events.{
  periodic_part, run_part, task_payload, sanitize_task_event, worker_payload, sanitize_worker_event,
  dispatch, sanitize_fields, sanitize_celery_event,
}
use celery_diagnostics_obser.Sanitizer.Beat.{
  schedule_display, beat_entry, beat_entries, sanitize_beat_schedule_entries,
}
use celery_diagnostics_obser.Sanitizer.Parts.{
  task_event_map, worker_event_map, type_of, id_of, delivery_info, name_value, worker_value,
  task_label, queue_label, route_label, worker_label, task_worker_label, run_ref_for,
  identity_values, capsule_for, expired_revoke, requeued_rejection, delivery_redelivered,
  progress_entries, progress_metadata, task_metadata, retries_value,
}
use celery_diagnostics_obser.Sanitizer.Exceptions.{
  split_exception_identity, name_ends, match_exception_type, split_match, parse_exception_identity,
  is_known_inner, inner_name, match_inner, search_inner, first_inner,
  known_inner_exception_identity, exception_identity,
}
use celery_diagnostics_obser.Sanitizer.Labels.{
  public_observer_id, label, task_relation_ref, strip_forbidden,
}
use celery_diagnostics_obser.Sanitizer.Coerce.{
  safe_token, parsed_int, optional_non_negative_int, optional_positive_int, parsed_float,
  optional_float, timestamp_text, moment_of_text, iso_of_text, iso_of_number, datetime_iso, truthy,
  safe_status, safe_detail, safe_details,
}
use celery_diagnostics_obser.Identity.{
  required_key, identity_key_id, prefix_of, keyed_ref, identity_ref, run_ref_of, task_run_ref,
  add_field, named_fields, seal_payload, seal_identity, is_ascii, opened, decrypted, open_token,
  open_parts, open_identity,
}
use celery_diagnostics_obser.Text.Laws.{has_nul}
use celery_diagnostics_obser.Text.{
  is_space, lstrip, before_end, rstrip, strip, take_text, length_text, without_nul, dashed, lower,
  upper, has_char, before_colon, has_dot, partition_dot, last_part, before_last_dot, starts_with,
  utc_offset, is_ident_start, is_word, is_dotted, dotted_run, ends_with, has_text,
}
use celery_diagnostics_obser.Prelude.{
  ℕ, ◌<◌, pos, true, false, Option, none, some, [], ◌∷◌, map, ◌≡◌, refl, ◌==◌, if◌then◌else◌, arith,
  inl, inr, Bool-cases, subst,
}
use celery_diagnostics_obser.Result.{Result, ok, err, other_error, ◌>>=◌}
use celery_diagnostics_obser.Values.{null, str, int, bool, datetime, Moment, Fields, field, end}
use celery_diagnostics_obser.Values.Dict.{get, get?, set, pop, pop_all}
use celery_diagnostics_obser.Runtime.{Runtime, to_text, text_or_empty, stripped}
use celery_diagnostics_obser.Transport.{
  ObserverTransport, World, delivered, without_project_key, is_waiting, init, take_buffer,
  drain_batch, backoff, retry_delay, sent, idle, send, flush_once, buffered, enqueue,
}
use celery_diagnostics_obser.Beat.{
  ScheduleEntry, RunEvery, BeatRuntime, expected_fire_at, json_hash, as_utc, interval_of,
  interval_seconds, type_of_name, schedule_type, schedule_text, entry_enabled, run_count,
  entry_hash, plus_seconds, seconds_until, next_due_at,
}
use celery_diagnostics_obser.Beat.Errors.{
  ExceptionObject, next_error, is_broker_error, is_visited, is_broker_class, broker_loop,
}
use celery_diagnostics_obser.Beat.Errors.Exact.{IsClosed, Decides, broker_error_decided}
use celery_diagnostics_obser.Beat.Entries.{
  Adapter, Clocks, Prepared, prepare_entry, context_of, headers_of, with_options, update,
  task_id_of, periodic_task_payload, schedule_id_of, occurrence_key, periodic_event,
}
use celery_diagnostics_obser.Beat.Snapshots.{
  Schedule, snapshot_raw, schedule_item, schedule_items, schedule_entries, schedule_entry_count,
  as_items, version_items, snapshot_event, snapshot_payload, first_due_of, first_due_entry,
}
use celery_diagnostics_obser.Beat.Scheduler.{
  Env, Applied, raised, apply_enabled, cd_enqueue, flush_failure_evidence, evidence, failed_publish,
  publish_run, apply_prepared, apply_async, emit_schedule_snapshot, call, calls, failed_tick,
  after_failure, tick, shutdown,
}
use celery_diagnostics_obser.Beat.Runs.{ends, and_then}
use celery_diagnostics_obser.Beat.Scheduler.Evidence.{
  FailedPublish, both_buffered, failure_reported, failure_kept_in_memory,
}
use celery_diagnostics_obser.Beat.Scheduler.Complete.{IsComplete, snapshot-IsComplete}
use celery_diagnostics_obser.Beat.Scheduler.Options.{SameTask, prepared_task}
use celery_diagnostics_obser.Tests.Samples.{sample_config, sample_json, runtime, local_policy}

abbrev beat_runtime : BeatRuntime
beat_runtime = record {
  dumps = λ v. "{}";
  isoformat = λ m. "moment";
  lateness = λ now fire. 5;
  after = λ m seconds. ok m;
  is_far = λ seconds. false;
}

abbrev rt : Runtime
rt = record (runtime end) {
  from_timestamp = λ b. ok (record { micros = pos b; offset = some (pos 0) });
  iso_utc = λ m. ok "then";
}

abbrev adapter : Adapter
adapter = record {
  runtime = rt;
  beat = beat_runtime;
  config = record sample_config { batch_size = 1000 };
  policy = local_policy;
}

abbrev entry : ScheduleEntry
entry = record {
  name = str "nightly";
  task = str "mail.send";
  options = field "queue" (str "mail") end;
  schedule = some (record {
    type_name = "schedule";
    text = "every minute";
    run_every = RunEvery.delta (pos 60_000_000);
  });
  last_run_at = datetime (record { micros = pos 1_500_000; offset = none });
  total_run_count = int (pos 3);
  enabled = null;
  model_enabled = none;
  is_due = some (ok (true, null));
}

abbrev clocks : Clocks
clocks = record {
  utc_now = record { micros = pos 70_000_000; offset = some (pos 0) };
  timestamp = 7;
  sanitized_at = "now";
}

abbrev up : World
up = record { now = 100; reply = delivered; can_spool = true }

abbrev env : Env
env = record {
  clocks = clocks;
  monotonic = 0;
  fresh = "fresh-id";
  snapshot_world = up;
  due_world = up;
  failed_world = up;
  flush_world = up;
}

-- a minute after the last run, in whole seconds
abbrev fire_at : Moment
fire_at = record { micros = pos 61_000_000; offset = some (pos 0) }

abbrev context : Fields
context = context_of adapter clocks entry "fresh-id" fire_at (some 3)

abbrev prepared : Prepared
prepared = record {
  entry = with_options entry (update end (headers_of adapter context)) "fresh-id";
  context = context;
}

abbrev payload_or_end : Result (Option Fields) → Fields
payload_or_end (ok (some payload)) = payload
payload_or_end r = end

abbrev due : Fields
due = payload_or_end (periodic_task_payload adapter clocks "beat-task-due" prepared none)

abbrev failure : Fields
failure =
    payload_or_end (
      periodic_task_payload adapter clocks "beat-publish-failed" prepared (some "OperationalError"))

prepared_runs : prepare_entry adapter clocks "fresh-id" entry ≡ ok prepared
unfolding ◌>>=◌ get? set pop pop_all is_space lstrip before_end rstrip strip take_text length_text
    without_nul dashed lower upper has_char before_colon has_dot partition_dot last_part
    before_last_dot starts_with utc_offset is_ident_start is_word is_dotted dotted_run ends_with
    has_text has_nul to_text text_or_empty stripped required_key identity_key_id prefix_of keyed_ref
    identity_ref run_ref_of task_run_ref add_field named_fields seal_payload seal_identity is_ascii
    opened decrypted open_token open_parts open_identity safe_token parsed_int
    optional_non_negative_int optional_positive_int parsed_float optional_float timestamp_text
    moment_of_text iso_of_text iso_of_number datetime_iso truthy safe_status safe_detail
    safe_details public_observer_id label task_relation_ref strip_forbidden split_exception_identity
    name_ends match_exception_type split_match parse_exception_identity is_known_inner inner_name
    match_inner search_inner first_inner known_inner_exception_identity exception_identity
    task_event_map worker_event_map type_of id_of delivery_info name_value worker_value task_label
    queue_label route_label worker_label task_worker_label run_ref_for identity_values capsule_for
    expired_revoke requeued_rejection delivery_redelivered progress_entries progress_metadata
    task_metadata retries_value schedule_display beat_entry beat_entries
    sanitize_beat_schedule_entries periodic_part run_part task_payload sanitize_task_event
    worker_payload sanitize_worker_event dispatch sanitize_fields sanitize_celery_event
    sanitize_queue_snapshot queue_labels sanitize_worker_snapshot text_ltb insert_sorted
    capability_set comma_join transport_details sanitize_observer_heartbeat broker_type sorted_set
    active_probe_capabilities required worker_set expected_workers is_routable_worker_name
    all_routable destination privacy_label worker_name queue_name labels_of reply_labels
    labeled_entries labeled_mapping queue_label_set queue_names configured_queue parse_datetime
    find_in find_queried_task non_negative_int task_retry_count task_redelivered attempt_error
    attempt_error_of matching_attempt_error is_member is_subset common_count negative_complete
    positive negative query_with query_schedule query_worker_presence state_of_text
    redis_result_status query_result_backend scan_queue query_broker_message concurrency_of
    worker_concurrency common_keys keys_of total_capacity capacity_in query_capacity consumers_in
    query_queue_consumers merge same_identity with_identity resolve_local_identity handler_of
    outcome_of supported_outcome execute queue_snapshot sample_queues sample_once handle_event
    wait_of next_backoff backoff_after json_hash as_utc interval_of interval_seconds type_of_name
    schedule_type schedule_text entry_enabled run_count entry_hash plus_seconds expected_fire_at
    seconds_until next_due_at update schedule_id_of occurrence_key context_of headers_of
    with_options task_id_of prepare_entry periodic_event periodic_task_payload schedule_item
    schedule_items schedule_entries schedule_entry_count as_items version_items snapshot_event
    snapshot_raw snapshot_payload first_due_of first_due_entry next_error is_visited is_broker_class
    broker_loop is_broker_error and_then cd_enqueue flush_failure_evidence evidence failed_publish
    publish_run apply_prepared apply_enabled apply_async emit_schedule_snapshot call calls
    failed_tick after_failure tick shutdown init without_project_key take_buffer drain_batch backoff
    retry_delay sent idle send is_waiting flush_once buffered enqueue
prepared_runs = refl

payloads_run :
    (periodic_task_payload adapter clocks "beat-task-due" prepared none ≡ ok (some due))
    × (periodic_task_payload adapter clocks "beat-publish-failed" prepared (some "OperationalError")
        ≡ ok (some failure))
unfolding ◌>>=◌ get? set pop pop_all is_space lstrip before_end rstrip strip take_text length_text
    without_nul dashed lower upper has_char before_colon has_dot partition_dot last_part
    before_last_dot starts_with utc_offset is_ident_start is_word is_dotted dotted_run ends_with
    has_text has_nul to_text text_or_empty stripped required_key identity_key_id prefix_of keyed_ref
    identity_ref run_ref_of task_run_ref add_field named_fields seal_payload seal_identity is_ascii
    opened decrypted open_token open_parts open_identity safe_token parsed_int
    optional_non_negative_int optional_positive_int parsed_float optional_float timestamp_text
    moment_of_text iso_of_text iso_of_number datetime_iso truthy safe_status safe_detail
    safe_details public_observer_id label task_relation_ref strip_forbidden split_exception_identity
    name_ends match_exception_type split_match parse_exception_identity is_known_inner inner_name
    match_inner search_inner first_inner known_inner_exception_identity exception_identity
    task_event_map worker_event_map type_of id_of delivery_info name_value worker_value task_label
    queue_label route_label worker_label task_worker_label run_ref_for identity_values capsule_for
    expired_revoke requeued_rejection delivery_redelivered progress_entries progress_metadata
    task_metadata retries_value schedule_display beat_entry beat_entries
    sanitize_beat_schedule_entries periodic_part run_part task_payload sanitize_task_event
    worker_payload sanitize_worker_event dispatch sanitize_fields sanitize_celery_event
    sanitize_queue_snapshot queue_labels sanitize_worker_snapshot text_ltb insert_sorted
    capability_set comma_join transport_details sanitize_observer_heartbeat broker_type sorted_set
    active_probe_capabilities required worker_set expected_workers is_routable_worker_name
    all_routable destination privacy_label worker_name queue_name labels_of reply_labels
    labeled_entries labeled_mapping queue_label_set queue_names configured_queue parse_datetime
    find_in find_queried_task non_negative_int task_retry_count task_redelivered attempt_error
    attempt_error_of matching_attempt_error is_member is_subset common_count negative_complete
    positive negative query_with query_schedule query_worker_presence state_of_text
    redis_result_status query_result_backend scan_queue query_broker_message concurrency_of
    worker_concurrency common_keys keys_of total_capacity capacity_in query_capacity consumers_in
    query_queue_consumers merge same_identity with_identity resolve_local_identity handler_of
    outcome_of supported_outcome execute queue_snapshot sample_queues sample_once handle_event
    wait_of next_backoff backoff_after json_hash as_utc interval_of interval_seconds type_of_name
    schedule_type schedule_text entry_enabled run_count entry_hash plus_seconds expected_fire_at
    seconds_until next_due_at update schedule_id_of occurrence_key context_of headers_of
    with_options task_id_of prepare_entry periodic_event periodic_task_payload schedule_item
    schedule_items schedule_entries schedule_entry_count as_items version_items snapshot_event
    snapshot_raw snapshot_payload first_due_of first_due_entry next_error is_visited is_broker_class
    broker_loop is_broker_error and_then cd_enqueue flush_failure_evidence evidence failed_publish
    publish_run apply_prepared apply_enabled apply_async emit_schedule_snapshot call calls
    failed_tick after_failure tick shutdown init without_project_key take_buffer drain_batch backoff
    retry_delay sent idle send is_waiting flush_once buffered enqueue
payloads_run = (refl, refl)

failed_run : FailedPublish adapter env entry "OperationalError" prepared due failure
failed_run = record {
  live = refl;
  is_prepared = prepared_runs;
  has_due = payloads_run.0;
  has_failure = payloads_run.1;
}

abbrev fresh_transport : ObserverTransport
fresh_transport = record {
  buffer = [];
  spool = none;
  failed_send_count = 0;
  dropped_event_count = 0;
  sent_event_count = 0;
  spooled_event_count = 0;
  last_error = "";
  last_flush_at = 0;
  retry_state = none;
}

abbrev waiting_transport : ObserverTransport
waiting_transport = record fresh_transport {
  retry_state = some (record { batch = end ∷ []; attempts = 1; next_retry_at = 5_000 });
  spool = some (record { lines = none });
}

abbrev applied : ObserverTransport → Applied
applied t = apply_enabled sample_json adapter env entry (raised "OperationalError") t

failure_reported_example :
    ((applied fresh_transport).run.posted
      ≡ map without_project_key
          (both_buffered sample_json adapter env entry "OperationalError" prepared due failure
            failed_run fresh_transport).buffer
        ∷ [])
    × (((applied fresh_transport).run.transport.buffer ≡ [])
        × (((applied fresh_transport).run.result ≡ err (other_error "OperationalError"))
            × ((applied fresh_transport).handed ≡ some prepared.entry)))
failure_reported_example =
    failure_reported sample_json adapter env entry "OperationalError" prepared due failure
      failed_run fresh_transport (omega arith) refl refl refl

retry_waits : is_waiting 100 waiting_transport.retry_state ≡ true
unfolding is_waiting
retry_waits = refl

failure_kept_in_memory_example : applied waiting_transport ≡ record {
  run = ends (err (other_error "OperationalError")) (
      both_buffered sample_json adapter env entry "OperationalError" prepared due failure failed_run
        waiting_transport);
  handed = some prepared.entry;
}
failure_kept_in_memory_example =
    failure_kept_in_memory sample_json adapter env entry "OperationalError" prepared due failure
      failed_run waiting_transport retry_waits retry_waits retry_waits

prepared_task_example : SameTask adapter "fresh-id" entry prepared
prepared_task_example = prepared_task adapter entry clocks "fresh-id" prepared prepared_runs

abbrev schedule : Schedule
schedule = record {
  items = some ((str "nightly", entry) ∷ []);
  values = some (entry ∷ []);
  size = ok 1;
}

abbrev raw_or_end : Result Fields → Fields
raw_or_end (ok raw) = raw
raw_or_end (err e) = end

abbrev snapshot : Fields
snapshot = raw_or_end (snapshot_raw adapter clocks schedule)

snapshot_runs :
    (snapshot_raw adapter clocks schedule ≡ ok snapshot)
    × (get "beat_schedule_snapshot_complete" snapshot ≡ bool true)
unfolding ◌>>=◌ get? set pop pop_all is_space lstrip before_end rstrip strip take_text length_text
    without_nul dashed lower upper has_char before_colon has_dot partition_dot last_part
    before_last_dot starts_with utc_offset is_ident_start is_word is_dotted dotted_run ends_with
    has_text has_nul to_text text_or_empty stripped required_key identity_key_id prefix_of keyed_ref
    identity_ref run_ref_of task_run_ref add_field named_fields seal_payload seal_identity is_ascii
    opened decrypted open_token open_parts open_identity safe_token parsed_int
    optional_non_negative_int optional_positive_int parsed_float optional_float timestamp_text
    moment_of_text iso_of_text iso_of_number datetime_iso truthy safe_status safe_detail
    safe_details public_observer_id label task_relation_ref strip_forbidden split_exception_identity
    name_ends match_exception_type split_match parse_exception_identity is_known_inner inner_name
    match_inner search_inner first_inner known_inner_exception_identity exception_identity
    task_event_map worker_event_map type_of id_of delivery_info name_value worker_value task_label
    queue_label route_label worker_label task_worker_label run_ref_for identity_values capsule_for
    expired_revoke requeued_rejection delivery_redelivered progress_entries progress_metadata
    task_metadata retries_value schedule_display beat_entry beat_entries
    sanitize_beat_schedule_entries periodic_part run_part task_payload sanitize_task_event
    worker_payload sanitize_worker_event dispatch sanitize_fields sanitize_celery_event
    sanitize_queue_snapshot queue_labels sanitize_worker_snapshot text_ltb insert_sorted
    capability_set comma_join transport_details sanitize_observer_heartbeat broker_type sorted_set
    active_probe_capabilities required worker_set expected_workers is_routable_worker_name
    all_routable destination privacy_label worker_name queue_name labels_of reply_labels
    labeled_entries labeled_mapping queue_label_set queue_names configured_queue parse_datetime
    find_in find_queried_task non_negative_int task_retry_count task_redelivered attempt_error
    attempt_error_of matching_attempt_error is_member is_subset common_count negative_complete
    positive negative query_with query_schedule query_worker_presence state_of_text
    redis_result_status query_result_backend scan_queue query_broker_message concurrency_of
    worker_concurrency common_keys keys_of total_capacity capacity_in query_capacity consumers_in
    query_queue_consumers merge same_identity with_identity resolve_local_identity handler_of
    outcome_of supported_outcome execute queue_snapshot sample_queues sample_once handle_event
    wait_of next_backoff backoff_after json_hash as_utc interval_of interval_seconds type_of_name
    schedule_type schedule_text entry_enabled run_count entry_hash plus_seconds expected_fire_at
    seconds_until next_due_at update schedule_id_of occurrence_key context_of headers_of
    with_options task_id_of prepare_entry periodic_event periodic_task_payload schedule_item
    schedule_items schedule_entries schedule_entry_count as_items version_items snapshot_event
    snapshot_raw snapshot_payload first_due_of first_due_entry next_error is_visited is_broker_class
    broker_loop is_broker_error and_then cd_enqueue flush_failure_evidence evidence failed_publish
    publish_run apply_prepared apply_enabled apply_async emit_schedule_snapshot call calls
    failed_tick after_failure tick shutdown init without_project_key take_buffer drain_batch backoff
    retry_delay sent idle send is_waiting flush_once buffered enqueue
snapshot_runs = (refl, refl)

snapshot-IsComplete_example : IsComplete adapter ((str "nightly", entry) ∷ []) snapshot
snapshot-IsComplete_example =
    snapshot-IsComplete adapter clocks schedule ((str "nightly", entry) ∷ []) refl refl snapshot
      (snapshot_runs.0) (snapshot_runs.1)

-- An error of the task's own, raised from a broker's error that was raised while handling it.
abbrev heap : ℕ → ExceptionObject
heap id =
    if id == 0
    then record {
      is_connection = false;
      module_name = "shop.errors";
      type_name = "PublishError";
      cause = some 1;
      context = none;
    }
    else record {
      is_connection = false;
      module_name = "redis.exceptions";
      type_name = "ConnectionError";
      cause = none;
      context = some 0;
    }

heap-IsClosed : IsClosed heap 2
unfolding next_error
heap-IsClosed id next below leads = elim (Bool-cases (id == 0)) [
  | inl first ↦ below_two 1 next (omega arith) (rw first at leads)
  | inr second ↦ below_two 0 next (omega arith) (rw second at leads)
]
  where
    below_two : (k next : ℕ) → k < 2 → ◌≡◌ {A = Option ℕ} (some k) (some next) → next < 2
    below_two k next h e = subst (λ n. n < 2) (cc) h

broker_error_decided_example : Decides rt heap 0 (is_broker_error rt heap 2 0)
broker_error_decided_example = broker_error_decided rt heap 0 2 heap-IsClosed (omega arith)
