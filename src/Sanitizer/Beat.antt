-- ===== src/Sanitizer/Beat.antt =====
-- sanitizer.py: the entries of a beat schedule snapshot.
use Prim.Native.Nat.{zero, suc}
use celery_diagnostics_obser.Prelude.{ℕ, String, Bool, true, Option, none, some, if◌then◌else◌}
use celery_diagnostics_obser.Result.{Result, ok, ◌>>=◌}
use celery_diagnostics_obser.Values.{
  Value, bool, str, list, dict, Items, nil, cons, Fields, end, truth,
}
use celery_diagnostics_obser.Values.Dict.{get, get?}
use celery_diagnostics_obser.Config.{ObserverConfig}
use celery_diagnostics_obser.Policy.{TelemetryPolicy, identities_local_only}
use celery_diagnostics_obser.Runtime.{Runtime}
use celery_diagnostics_obser.Sanitizer.Coerce.{
  safe_token, optional_non_negative_int, int_or_none, datetime_iso, or_text,
}
use celery_diagnostics_obser.Sanitizer.Labels.{label, ◌&◌}

-- raw.get("enabled", True)
abbrev pub enabled_of : Option Value → Bool
enabled_of none = true
enabled_of (some v) = truth v

unfoldable pub schedule_display : Runtime → TelemetryPolicy → Value → String
schedule_display rt policy v = if identities_local_only policy then "" else safe_token rt v 255

-- one entry of the list, from a dictionary
unfoldable pub beat_entry : Runtime → ObserverConfig → TelemetryPolicy → Fields → Result Fields
unfolding schedule_display
beat_entry rt config policy raw = do
  (schedule_name, _) ← label rt (get "schedule_name" raw) policy.send_task_names "task" config
  (task_name, _) ← label rt (get "task_name" raw) policy.send_task_names "task" config
  (queue, _) ← label rt (get "queue" raw) policy.send_queue_names "queue" config
  (routing_key, _) ← label rt (get "routing_key" raw) policy.send_routing_labels "route" config
  (exchange, _) ← label rt (get "exchange" raw) policy.send_routing_labels "exchange" config
  next_due_at ← datetime_iso rt (get "next_due_at" raw)
  last_run_at ← datetime_iso rt (get "last_run_at" raw)
  total_run_count ← optional_non_negative_int rt (get "total_run_count" raw)
  interval_seconds ← optional_non_negative_int rt (get "interval_seconds" raw)
  ok (
      ("schedule_id", str (safe_token rt (get "schedule_id" raw) 128))
      & ("schedule_name", str schedule_name)
      & ("task_name", str task_name)
      & ("schedule_type", str (safe_token rt (get "schedule_type" raw) 64))
      & ("schedule_display", str (schedule_display rt policy (get "schedule_display" raw)))
      & ("schedule_hash", str (safe_token rt (get "schedule_hash" raw) 128))
      & ("schedule_version", str (safe_token rt (get "schedule_version" raw) 128))
      & ("enabled", bool (enabled_of (get? "enabled" raw)))
      & ("queue", str queue)
      & ("routing_key", str routing_key)
      & ("exchange", str exchange)
      & ("next_due_at", str (or_text next_due_at ""))
      & ("last_run_at", str (or_text last_run_at ""))
      & ("total_run_count", int_or_none total_run_count)
      & ("interval_seconds", int_or_none interval_seconds)
      & end)

-- the dictionaries among the first `limit` items of the list
unfoldable pub beat_entries : Runtime → ObserverConfig → TelemetryPolicy → ℕ → Items → Result Items
beat_entries rt config policy zero items = ok nil
beat_entries rt config policy (suc limit) nil = ok nil
beat_entries rt config policy (suc limit) (cons (dict raw) items) = do
  entry ← beat_entry rt config policy raw
  rest ← beat_entries rt config policy limit items
  ok (cons (dict entry) rest)
beat_entries rt config policy (suc limit) (cons v items) = beat_entries rt config policy limit items

abbrev pub entry_limit : ℕ
entry_limit = 200

-- _sanitize_beat_schedule_entries
unfoldable pub sanitize_beat_schedule_entries :
    Runtime → ObserverConfig → TelemetryPolicy → Value → Result Items
sanitize_beat_schedule_entries rt config policy (list items) =
    beat_entries rt config policy entry_limit items
sanitize_beat_schedule_entries rt config policy _ = ok nil
