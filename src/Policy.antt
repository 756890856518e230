-- ===== src/Policy.antt =====
-- policy.py: which identities leave the process in readable form.
use celery_diagnostics_obser.Prelude.{String, Bool, true, str_eq, ◌||◌, if◌then◌else◌}
use celery_diagnostics_obser.Values.{Value, str, ◌or◌}
use celery_diagnostics_obser.Text.{strip, dashed}
use celery_diagnostics_obser.Runtime.{Runtime, to_text, lowered}

pub record TelemetryPolicy : Type 0 where
  pub name : String
  pub send_task_names : Bool
  pub send_queue_names : Bool
  pub send_routing_labels : Bool
  pub send_worker_names : Bool
  pub collect_exception_type : Bool
  pub collect_exception_module : Bool
  pub enable_redis_queue_snapshots : Bool
  pub enable_control_inspect : Bool
  pub collect_runtime_details : Bool

abbrev pub policy_local_only : String
policy_local_only = "local-only"

abbrev pub policy_readable : String
policy_readable = "readable"

abbrev pub identities_local_only : TelemetryPolicy → Bool
identities_local_only p = str_eq p.name policy_local_only

-- POLICY_CHOICES
abbrev pub is_policy : String → Bool
is_policy s = str_eq s policy_local_only || str_eq s policy_readable

unfoldable pub normalize_policy_name : Runtime → Value → String
normalize_policy_name rt v =
    let policy = dashed (lowered rt (strip (to_text rt (v or str policy_readable)))) in
    if is_policy policy then policy else policy_readable

unfoldable pub policy_from_name : Runtime → Value → TelemetryPolicy
policy_from_name rt v =
    let name = normalize_policy_name rt v in
    let readable = str_eq name policy_readable in
    record {
      name = name;
      send_task_names = readable;
      send_queue_names = readable;
      send_routing_labels = readable;
      send_worker_names = readable;
      collect_exception_type = true;
      collect_exception_module = readable;
      enable_redis_queue_snapshots = true;
      enable_control_inspect = true;
      collect_runtime_details = true;
    }
