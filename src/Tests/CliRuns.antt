-- ===== src/Tests/CliRuns.antt =====
-- Commands that are run.
use celery_diagnostics_obser.Sanitizer.Urls.{
  redact_items, public_host, with_port, redact_parsed, redact_split, redact_url_credentials,
  redact_again, redact_url,
}
use celery_diagnostics_obser.Coverage.Render.{
  source_line, source_lines, bullet_lines, blocked_lines, mode_label, format_seconds,
  render_startup_summary, render_doctor_report, render_status_report,
}
use celery_diagnostics_obser.Coverage.{safe_claims, blocked_claims, next_steps}
use celery_diagnostics_obser.Coverage.Report.{
  redis_source, has_redis_broker, report_on, build_coverage_report,
}
use celery_diagnostics_obser.Coverage.Sources.{
  joined_by, count_label, routing_config_source, beat_schedule_source, visibility_timeout_source,
  task_track_started_source, one_line, safe_error_label, normalize_app_context, app_context_source,
  worker_topology_source,
}
use celery_diagnostics_obser.AppLoader.{
  after_colon, app_path, load_at, load_project_app, is_app_aware, load_celery_app,
}
use celery_diagnostics_obser.AppContext.{
  conf_get, positive_setting, visibility_timeout, optional_bool, length_items, length_dict,
  safe_count, safe_string, inspect_celery_app, bare_context, failed_app_context,
  unloaded_app_context,
}
use celery_diagnostics_obser.Config.Bounds.{clamp_float, bounded_float}
use celery_diagnostics_obser.Config.Numbers.{bounded_int}
use celery_diagnostics_obser.Config.Queues.{
  is_listed, split_comma, collect, keys_as_items, bytes_as_items, parse_queues, boolean, texts,
}
use celery_diagnostics_obser.Policy.{normalize_policy_name, policy_from_name}
use celery_diagnostics_obser.EventReceiver.{handle_event, wait_of, next_backoff, backoff_after}
use celery_diagnostics_obser.Samplers.Queues.{queue_snapshot, sample_queues, sample_once}
use celery_diagnostics_obser.ActiveProbes.Executor.{
  merge, same_identity, with_identity, resolve_local_identity, handler_of, outcome_of,
  supported_outcome, execute,
}
use celery_diagnostics_obser.ActiveProbes.Capacity.{
  concurrency_of, worker_concurrency, common_keys, keys_of, total_capacity, capacity_in,
  query_capacity, consumers_in, query_queue_consumers,
}
use celery_diagnostics_obser.ActiveProbes.Handlers.{
  query_with, query_schedule, query_worker_presence, state_of_text, redis_result_status,
  query_result_backend, scan_queue, query_broker_message,
}
use celery_diagnostics_obser.ActiveProbes.Answers.{
  is_member, is_subset, common_count, negative_complete, positive, negative,
}
use celery_diagnostics_obser.ActiveProbes.Matching.{
  find_in, find_queried_task, non_negative_int, task_retry_count, task_redelivered, attempt_error,
  attempt_error_of, matching_attempt_error,
}
use celery_diagnostics_obser.ActiveProbes.Requests.{
  required, worker_set, expected_workers, is_routable_worker_name, all_routable, destination,
  privacy_label, worker_name, queue_name, labels_of, reply_labels, labeled_entries, labeled_mapping,
  queue_label_set, queue_names, configured_queue, parse_datetime,
}
use celery_diagnostics_obser.ActiveProbes.Capabilities.{
  broker_type, sorted_set, active_probe_capabilities,
}
use celery_diagnostics_obser.Sanitizer.Snapshots.{
  sanitize_queue_snapshot, queue_labels, sanitize_worker_snapshot, text_ltb, insert_sorted,
  capability_set, comma_join, transport_details, sanitize_observer_heartbeat,
}
use celery_diagnostics_obser.Sanitizer.Events.{
  periodic_part, run_part, task_payload, sanitize_task_event, worker_payload, sanitize_worker_event,
  dispatch, sanitize_fields, sanitize_celery_event,
}
use celery_diagnostics_obser.Sanitizer.Beat.{
  schedule_display, beat_entry, beat_entries, sanitize_beat_schedule_entries,
}
use celery_diagnostics_obser.Sanitizer.Parts.{
  task_event_map, worker_event_map, type_of, id_of, delivery_info, name_value, worker_value,
  task_label, queue_label, route_label, worker_label, task_worker_label, run_ref_for,
  identity_values, capsule_for, expired_revoke, requeued_rejection, delivery_redelivered,
  progress_entries, progress_metadata, task_metadata, retries_value,
}
use celery_diagnostics_obser.Sanitizer.Exceptions.{
  split_exception_identity, name_ends, match_exception_type, split_match, parse_exception_identity,
  is_known_inner, inner_name, match_inner, search_inner, first_inner,
  known_inner_exception_identity, exception_identity,
}
use celery_diagnostics_obser.Sanitizer.Coerce.{
  safe_token, parsed_int, optional_non_negative_int, optional_positive_int, parsed_float,
  optional_float, timestamp_text, moment_of_text, iso_of_text, iso_of_number, datetime_iso, truthy,
  safe_status, safe_detail, safe_details,
}
use celery_diagnostics_obser.Text.Laws.{has_nul}
use celery_diagnostics_obser.Prelude.{
  pos, String, true, false, Option, none, some, str_eq, ltb, ◌≡◌, refl, arith, eq_iff,
  if◌then◌else◌, inl, inr, Bool-cases, subst,
}
use celery_diagnostics_obser.Result.{Result, ok, err, value_error, ◌>>=◌}
use celery_diagnostics_obser.Values.{str, dict, Fields, field, end}
use celery_diagnostics_obser.Values.Dict.{get, get?, set, pop, pop_all}
use celery_diagnostics_obser.Text.{
  strip, take_text, length_text, is_space, lstrip, before_end, rstrip, without_nul, dashed, lower,
  upper, has_char, before_colon, has_dot, partition_dot, last_part, before_last_dot, starts_with,
  utc_offset, is_ident_start, is_word, is_dotted, dotted_run, ends_with, has_text,
}
use celery_diagnostics_obser.Runtime.{Runtime, stripped, to_text, text_or_empty}
use celery_diagnostics_obser.Config.{ObserverConfig}
use celery_diagnostics_obser.Config.Settings.{
  Process, config_from_env, mode_of, interval, observer_config, strip_slashes, observer_events_url,
  probe_next_url, probe_result_url, identity_resolve_url, is_safe_ingest, validate_ingest_transport,
}
use celery_diagnostics_obser.Config.Settings.Valid.{IsValid, config_from_env-IsValid}
use celery_diagnostics_obser.Identity.{
  named_fields, identity_fields, seal_identity, identity_key_id, open_parts, required_key,
  prefix_of, keyed_ref, identity_ref, run_ref_of, task_run_ref, add_field, seal_payload, is_ascii,
  opened, decrypted, open_token, open_identity,
}
use celery_diagnostics_obser.Identity.Capsule.{CapsuleLaws, IsShort}
use celery_diagnostics_obser.Sanitizer.Labels.{
  public_observer_id, label, task_relation_ref, strip_forbidden,
}
use celery_diagnostics_obser.Cli.{
  Machine, overrides_of, config_from_args, identity_config_error, app_context_for_report,
  report_for, doctor, status,
}
use celery_diagnostics_obser.Cli.Observe.{
  ObserveWorld, observe, sample_events, sanitized, dry_run_sample_events, dry_run, serve,
  summary_of, observed_context, observe_valid,
}
use celery_diagnostics_obser.Cli.Observe.Gated.{is_live, Gated, observe-Gated}
use celery_diagnostics_obser.Cli.Resolve.{
  Http, Resolved, resolve_with, is_token, is_run_ref, fetch_identity, checked_identity,
  resolve_identity, replay_keyed, replay_config, replay_events, main,
}
use celery_diagnostics_obser.Cli.Resolve.Sound.{IsResolution, resolve_sound, resolve-seal}
use celery_diagnostics_obser.Tests.Samples.{sample_config, runtime}
use celery_diagnostics_obser.Tests.AppRuns.{sample_loader, sample_urls}
use celery_diagnostics_obser.Tests.SanitizerRuns.{
  identity, payload, key, sealed_text, dotless_digits, ascii_digits,
}

abbrev environment : String → Option String
environment name =
    if str_eq name "CD_PROJECT_KEY"
    then some "pk_test"
    else if str_eq name "CELERY_BROKER_URL"
    then some "redis://host/0"
    else none

abbrev process : Process
process = record {
  getenv = environment;
  default_observer_id = "host-1";
  less = ltb;
  micros = λ b. 10_000_000;
}

-- Every token is the same.
abbrev cli_runtime : Runtime
cli_runtime = record (runtime payload) { hmac_token = λ k message. "ABCDEFGHIJKLMNOPQRST" }

abbrev machine : Machine
machine = record {
  runtime = cli_runtime;
  urls = sample_urls;
  process = process;
  loader = sample_loader;
  conf = λ app. none;
  tenths = λ micros. "0.5";
}

abbrev config_or_sample : Result ObserverConfig → ObserverConfig
config_or_sample (ok config) = config
config_or_sample (err e) = sample_config

abbrev made_config : ObserverConfig
made_config = config_or_sample (config_from_env cli_runtime process end)

abbrev world : ObserveWorld
world = record {
  timestamp = 7;
  now = "now";
  queue_now = λ queue. "now";
  sampled_at = record { micros = pos 0; offset = some (pos 0) };
  python_version = "3.12";
  client = err value_error;
  new_transport = end;
  receiver_end = err value_error;
  last_flush = ok true;
}

observe_runs :
    (config_from_env cli_runtime process end ≡ ok made_config)
    × (is_live ((observe machine world end).1) ≡ true)
unfolding ◌>>=◌ get? set pop pop_all is_space lstrip before_end rstrip strip take_text length_text
    without_nul dashed lower upper has_char before_colon has_dot partition_dot last_part
    before_last_dot starts_with utc_offset is_ident_start is_word is_dotted dotted_run ends_with
    has_text has_nul to_text text_or_empty stripped required_key identity_key_id prefix_of keyed_ref
    identity_ref run_ref_of task_run_ref add_field named_fields seal_payload seal_identity is_ascii
    opened decrypted open_token open_parts open_identity safe_token parsed_int
    optional_non_negative_int optional_positive_int parsed_float optional_float timestamp_text
    moment_of_text iso_of_text iso_of_number datetime_iso truthy safe_status safe_detail
    safe_details public_observer_id label task_relation_ref strip_forbidden split_exception_identity
    name_ends match_exception_type split_match parse_exception_identity is_known_inner inner_name
    match_inner search_inner first_inner known_inner_exception_identity exception_identity
    task_event_map worker_event_map type_of id_of delivery_info name_value worker_value task_label
    queue_label route_label worker_label task_worker_label run_ref_for identity_values capsule_for
    expired_revoke requeued_rejection delivery_redelivered progress_entries progress_metadata
    task_metadata retries_value schedule_display beat_entry beat_entries
    sanitize_beat_schedule_entries periodic_part run_part task_payload sanitize_task_event
    worker_payload sanitize_worker_event dispatch sanitize_fields sanitize_celery_event
    sanitize_queue_snapshot queue_labels sanitize_worker_snapshot text_ltb insert_sorted
    capability_set comma_join transport_details sanitize_observer_heartbeat broker_type sorted_set
    active_probe_capabilities required worker_set expected_workers is_routable_worker_name
    all_routable destination privacy_label worker_name queue_name labels_of reply_labels
    labeled_entries labeled_mapping queue_label_set queue_names configured_queue parse_datetime
    find_in find_queried_task non_negative_int task_retry_count task_redelivered attempt_error
    attempt_error_of matching_attempt_error is_member is_subset common_count negative_complete
    positive negative query_with query_schedule query_worker_presence state_of_text
    redis_result_status query_result_backend scan_queue query_broker_message concurrency_of
    worker_concurrency common_keys keys_of total_capacity capacity_in query_capacity consumers_in
    query_queue_consumers merge same_identity with_identity resolve_local_identity handler_of
    outcome_of supported_outcome execute queue_snapshot sample_queues sample_once handle_event
    wait_of next_backoff backoff_after normalize_policy_name policy_from_name is_listed split_comma
    collect keys_as_items bytes_as_items parse_queues boolean texts bounded_int clamp_float
    bounded_float mode_of interval observer_config config_from_env strip_slashes observer_events_url
    probe_next_url probe_result_url identity_resolve_url is_safe_ingest validate_ingest_transport
    conf_get positive_setting visibility_timeout optional_bool length_items length_dict safe_count
    safe_string inspect_celery_app bare_context failed_app_context unloaded_app_context after_colon
    app_path load_at load_project_app is_app_aware load_celery_app safe_claims blocked_claims
    next_steps joined_by count_label routing_config_source beat_schedule_source
    visibility_timeout_source task_track_started_source one_line safe_error_label
    normalize_app_context app_context_source worker_topology_source redis_source has_redis_broker
    report_on build_coverage_report source_line source_lines bullet_lines blocked_lines mode_label
    format_seconds render_startup_summary render_doctor_report render_status_report redact_items
    public_host with_port redact_parsed redact_split redact_url_credentials redact_again redact_url
    overrides_of config_from_args identity_config_error app_context_for_report report_for doctor
    status sample_events sanitized dry_run_sample_events dry_run serve summary_of observed_context
    observe_valid observe is_token is_run_ref fetch_identity checked_identity resolve_with
    resolve_identity replay_keyed replay_config replay_events main
observe_runs = (refl, refl)

config_from_env-IsValid_example : IsValid made_config
config_from_env-IsValid_example =
    config_from_env-IsValid cli_runtime process end made_config (observe_runs.0)

observe-Gated_example : Gated machine world end (observe machine world end)
observe-Gated_example = observe-Gated machine world end (observe_runs.1)

abbrev http : Http
http = record {
  get_json = λ url token. ok (dict (field "identity_capsule" (str sealed_text) end));
  is_request_error = λ name. false;
}

abbrev run_ref : String
run_ref = "R-ABCDEFGHIJKLMNOPQRST"

abbrev sealed_fields : Fields
sealed_fields = named_fields cli_runtime identity_fields identity

abbrev resolved : Resolved
resolved = record {
  code = 0;
  result = some (field "run_ref" (str run_ref) sealed_fields);
  message = "";
}

resolve_runs : resolve_with machine http sample_config run_ref ≡ ok resolved
unfolding ◌>>=◌ get? set pop pop_all is_space lstrip before_end rstrip strip take_text length_text
    without_nul dashed lower upper has_char before_colon has_dot partition_dot last_part
    before_last_dot starts_with utc_offset is_ident_start is_word is_dotted dotted_run ends_with
    has_text has_nul to_text text_or_empty stripped required_key identity_key_id prefix_of keyed_ref
    identity_ref run_ref_of task_run_ref add_field named_fields seal_payload seal_identity is_ascii
    opened decrypted open_token open_parts open_identity safe_token parsed_int
    optional_non_negative_int optional_positive_int parsed_float optional_float timestamp_text
    moment_of_text iso_of_text iso_of_number datetime_iso truthy safe_status safe_detail
    safe_details public_observer_id label task_relation_ref strip_forbidden split_exception_identity
    name_ends match_exception_type split_match parse_exception_identity is_known_inner inner_name
    match_inner search_inner first_inner known_inner_exception_identity exception_identity
    task_event_map worker_event_map type_of id_of delivery_info name_value worker_value task_label
    queue_label route_label worker_label task_worker_label run_ref_for identity_values capsule_for
    expired_revoke requeued_rejection delivery_redelivered progress_entries progress_metadata
    task_metadata retries_value schedule_display beat_entry beat_entries
    sanitize_beat_schedule_entries periodic_part run_part task_payload sanitize_task_event
    worker_payload sanitize_worker_event dispatch sanitize_fields sanitize_celery_event
    sanitize_queue_snapshot queue_labels sanitize_worker_snapshot text_ltb insert_sorted
    capability_set comma_join transport_details sanitize_observer_heartbeat broker_type sorted_set
    active_probe_capabilities required worker_set expected_workers is_routable_worker_name
    all_routable destination privacy_label worker_name queue_name labels_of reply_labels
    labeled_entries labeled_mapping queue_label_set queue_names configured_queue parse_datetime
    find_in find_queried_task non_negative_int task_retry_count task_redelivered attempt_error
    attempt_error_of matching_attempt_error is_member is_subset common_count negative_complete
    positive negative query_with query_schedule query_worker_presence state_of_text
    redis_result_status query_result_backend scan_queue query_broker_message concurrency_of
    worker_concurrency common_keys keys_of total_capacity capacity_in query_capacity consumers_in
    query_queue_consumers merge same_identity with_identity resolve_local_identity handler_of
    outcome_of supported_outcome execute queue_snapshot sample_queues sample_once handle_event
    wait_of next_backoff backoff_after normalize_policy_name policy_from_name is_listed split_comma
    collect keys_as_items bytes_as_items parse_queues boolean texts bounded_int clamp_float
    bounded_float mode_of interval observer_config config_from_env strip_slashes observer_events_url
    probe_next_url probe_result_url identity_resolve_url is_safe_ingest validate_ingest_transport
    conf_get positive_setting visibility_timeout optional_bool length_items length_dict safe_count
    safe_string inspect_celery_app bare_context failed_app_context unloaded_app_context after_colon
    app_path load_at load_project_app is_app_aware load_celery_app safe_claims blocked_claims
    next_steps joined_by count_label routing_config_source beat_schedule_source
    visibility_timeout_source task_track_started_source one_line safe_error_label
    normalize_app_context app_context_source worker_topology_source redis_source has_redis_broker
    report_on build_coverage_report source_line source_lines bullet_lines blocked_lines mode_label
    format_seconds render_startup_summary render_doctor_report render_status_report redact_items
    public_host with_port redact_parsed redact_split redact_url_credentials redact_again redact_url
    overrides_of config_from_args identity_config_error app_context_for_report report_for doctor
    status sample_events sanitized dry_run_sample_events dry_run serve summary_of observed_context
    observe_valid observe is_token is_run_ref fetch_identity checked_identity resolve_with
    resolve_identity replay_keyed replay_config replay_events main
resolve_runs = refl

resolve_sound_example : IsResolution machine http sample_config run_ref resolved
resolve_sound_example = resolve_sound machine http sample_config run_ref resolved resolve_runs refl

same_cli_entries : (k : String) → get k payload ≡ get k sealed_fields
unfolding get? strip take_text stripped named_fields
same_cli_entries k = elim (Bool-cases (str_eq "queue" k)) [
  | inl same ↦ subst (λ i. get i payload ≡ get i sealed_fields) ((eq_iff "queue" k).0 same) refl
  | inr other ↦ rw other refl
]

cli_laws : CapsuleLaws cli_runtime sealed_fields payload
unfolding open_parts
cli_laws = record {
  decrypt-encrypt = λ k. refl;
  encrypt_ascii = λ k. refl;
  key_id_dotless = dotless_digits;
  key_id_ascii = ascii_digits;
  loads-dumps = refl;
  get_decoded = same_cli_entries;
}

short_cli_fields : IsShort cli_runtime identity payload cli_laws
unfolding get? strip length_text stripped
short_cli_fields = (omega arith, (omega arith, (omega arith, (omega arith, (omega arith, tt)))))

capsule_facts :
    (is_run_ref run_ref ≡ true)
    × ((identity_key_id cli_runtime key ≡ ok "9f9f5111f7b2")
        × ((seal_identity cli_runtime identity key ≡ ok sealed_text)
            × ((text_or_empty cli_runtime
                    (get "identity_capsule" (field "identity_capsule" (str sealed_text) end))
                  ≡ sealed_text)
                × ((get? "task_id" sealed_fields ≡ some (str "a-1"))
                    × (task_run_ref cli_runtime (str "a-1") key ≡ ok run_ref)))))
unfolding ◌>>=◌ get? set pop pop_all is_space lstrip before_end rstrip strip take_text length_text
    without_nul dashed lower upper has_char before_colon has_dot partition_dot last_part
    before_last_dot starts_with utc_offset is_ident_start is_word is_dotted dotted_run ends_with
    has_text has_nul to_text text_or_empty stripped required_key identity_key_id prefix_of keyed_ref
    identity_ref run_ref_of task_run_ref add_field named_fields seal_payload seal_identity is_ascii
    opened decrypted open_token open_parts open_identity safe_token parsed_int
    optional_non_negative_int optional_positive_int parsed_float optional_float timestamp_text
    moment_of_text iso_of_text iso_of_number datetime_iso truthy safe_status safe_detail
    safe_details public_observer_id label task_relation_ref strip_forbidden split_exception_identity
    name_ends match_exception_type split_match parse_exception_identity is_known_inner inner_name
    match_inner search_inner first_inner known_inner_exception_identity exception_identity
    task_event_map worker_event_map type_of id_of delivery_info name_value worker_value task_label
    queue_label route_label worker_label task_worker_label run_ref_for identity_values capsule_for
    expired_revoke requeued_rejection delivery_redelivered progress_entries progress_metadata
    task_metadata retries_value schedule_display beat_entry beat_entries
    sanitize_beat_schedule_entries periodic_part run_part task_payload sanitize_task_event
    worker_payload sanitize_worker_event dispatch sanitize_fields sanitize_celery_event
    sanitize_queue_snapshot queue_labels sanitize_worker_snapshot text_ltb insert_sorted
    capability_set comma_join transport_details sanitize_observer_heartbeat broker_type sorted_set
    active_probe_capabilities required worker_set expected_workers is_routable_worker_name
    all_routable destination privacy_label worker_name queue_name labels_of reply_labels
    labeled_entries labeled_mapping queue_label_set queue_names configured_queue parse_datetime
    find_in find_queried_task non_negative_int task_retry_count task_redelivered attempt_error
    attempt_error_of matching_attempt_error is_member is_subset common_count negative_complete
    positive negative query_with query_schedule query_worker_presence state_of_text
    redis_result_status query_result_backend scan_queue query_broker_message concurrency_of
    worker_concurrency common_keys keys_of total_capacity capacity_in query_capacity consumers_in
    query_queue_consumers merge same_identity with_identity resolve_local_identity handler_of
    outcome_of supported_outcome execute queue_snapshot sample_queues sample_once handle_event
    wait_of next_backoff backoff_after normalize_policy_name policy_from_name is_listed split_comma
    collect keys_as_items bytes_as_items parse_queues boolean texts bounded_int clamp_float
    bounded_float mode_of interval observer_config config_from_env strip_slashes observer_events_url
    probe_next_url probe_result_url identity_resolve_url is_safe_ingest validate_ingest_transport
    conf_get positive_setting visibility_timeout optional_bool length_items length_dict safe_count
    safe_string inspect_celery_app bare_context failed_app_context unloaded_app_context after_colon
    app_path load_at load_project_app is_app_aware load_celery_app safe_claims blocked_claims
    next_steps joined_by count_label routing_config_source beat_schedule_source
    visibility_timeout_source task_track_started_source one_line safe_error_label
    normalize_app_context app_context_source worker_topology_source redis_source has_redis_broker
    report_on build_coverage_report source_line source_lines bullet_lines blocked_lines mode_label
    format_seconds render_startup_summary render_doctor_report render_status_report redact_items
    public_host with_port redact_parsed redact_split redact_url_credentials redact_again redact_url
    overrides_of config_from_args identity_config_error app_context_for_report report_for doctor
    status sample_events sanitized dry_run_sample_events dry_run serve summary_of observed_context
    observe_valid observe is_token is_run_ref fetch_identity checked_identity resolve_with
    resolve_identity replay_keyed replay_config replay_events main
capsule_facts = (refl, (refl, (refl, (refl, (refl, refl)))))

resolve-seal_example : resolve_with machine http sample_config run_ref ≡ ok resolved
resolve-seal_example =
    resolve-seal machine http sample_config identity payload cli_laws short_cli_fields run_ref
      sealed_text "9f9f5111f7b2" (field "identity_capsule" (str sealed_text) end) (str "a-1")
      (capsule_facts.0) refl (capsule_facts.1.0) (capsule_facts.1.1.0) refl (capsule_facts.1.1.1.0)
      (capsule_facts.1.1.1.1.0) (capsule_facts.1.1.1.1.1)
