-- ===== src/Tests/ReceiverRuns.antt =====
-- An event that is received, and connections that fail.

use celery_diagnostics_obser.Sanitizer.Events.{
  run_part, task_payload, sanitize_task_event, sanitize_fields, sanitize_celery_event,
}
use celery_diagnostics_obser.Sanitizer.Parts.{
  task_event_map, type_of, task_label, queue_label, route_label, task_worker_label, run_ref_for,
  identity_values, capsule_for, task_metadata, retries_value,
}
use celery_diagnostics_obser.Sanitizer.Coerce.{
  safe_token, optional_non_negative_int, optional_float, datetime_iso,
}
use celery_diagnostics_obser.Identity.{
  required_key, identity_key_id, run_ref_of, task_run_ref, named_fields, seal_payload,
  seal_identity,
}
use celery_diagnostics_obser.Runtime.{stripped}
use celery_diagnostics_obser.Text.{strip, take_text, without_nul}
use celery_diagnostics_obser.Values.Dict.{get?}
use celery_diagnostics_obser.Prelude.{true, ◌≡◌, ◌⊎◌, refl, none, [], ◌∷◌, ◌++◌}
use celery_diagnostics_obser.Result.{Result, ok, err, ◌>>=◌}
use celery_diagnostics_obser.Values.{str, dict, Fields, end}
use celery_diagnostics_obser.Transport.{ObserverTransport, Outcome, World, delivered, idle}
use celery_diagnostics_obser.Sanitizer.Labels.{◌&◌, public_observer_id, label, task_relation_ref}
use celery_diagnostics_obser.EventReceiver.Backoff.{refusals, powers, waits_after_connection}
use celery_diagnostics_obser.EventReceiver.Clean.{Enqueues, handle_event_clean}
use celery_diagnostics_obser.EventReceiver.{refused, lost, waits, handle_event}
use celery_diagnostics_obser.Tests.Samples.{sample_config, sample_json, runtime, local_policy}

abbrev raw : Fields
raw = ("type", str "task-failed") & ("uuid", str "b-2") & ("args", str "secret") & end

abbrev world : World
world = record { now = 1; reply = delivered; can_spool = true }

abbrev transport : ObserverTransport
transport = record {
  buffer = [];
  spool = none;
  failed_send_count = 0;
  dropped_event_count = 0;
  sent_event_count = 0;
  spooled_event_count = 0;
  last_error = "";
  last_flush_at = 0;
  retry_state = none;
}

abbrev handled : Result Outcome
handled =
    handle_event (runtime end) sample_json sample_config local_policy "now" world transport
      (dict raw)

abbrev outcome_of_call : Result Outcome → Outcome
outcome_of_call (ok outcome) = outcome
outcome_of_call (err e) = idle transport

returns : handled ≡ ok (outcome_of_call handled)
unfolding ◌>>=◌ get? strip take_text without_nul stripped required_key identity_key_id run_ref_of
    task_run_ref named_fields seal_payload seal_identity safe_token optional_non_negative_int
    optional_float datetime_iso public_observer_id label task_relation_ref task_event_map type_of
    task_label queue_label route_label task_worker_label run_ref_for identity_values capsule_for
    task_metadata retries_value run_part task_payload sanitize_task_event sanitize_fields
    sanitize_celery_event handle_event
returns = refl

handle_event_clean_example :
    (outcome_of_call handled ≡ idle transport)
    ⊎ Enqueues
        (runtime end)
        sample_json
        sample_config
        local_policy
        "now"
        world
        transport
        (outcome_of_call handled)
handle_event_clean_example =
    handle_event_clean (runtime end) sample_json sample_config local_policy "now" world transport
      (dict raw) (outcome_of_call handled) returns

waits_after_connection_example :
    waits 1 ((refused ∷ refused ∷ []) ++ (lost ∷ refusals 2))
    ≡ waits 1 (refused ∷ refused ∷ []) ++ powers 0 3
waits_after_connection_example = waits_after_connection 1 2 (refused ∷ refused ∷ [])
