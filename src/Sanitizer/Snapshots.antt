-- ===== src/Sanitizer/Snapshots.antt =====
-- sanitizer.py: queue and worker snapshots, and the observer's heartbeat.
use Prim.Native.Char.{code}
use celery_diagnostics_obser.Prelude.{
  String, Bool, true, false, Option, none, some, List, [], ◌∷◌, concat, str_eq, ltb, ◌==◌,
  if◌then◌else◌,
}
use celery_diagnostics_obser.Result.{Result, ok, ◌>>=◌}
use celery_diagnostics_obser.Values.{
  Value, null, bool, str, list, dict, Items, nil, cons, Fields, end, field,
}
use celery_diagnostics_obser.Values.Dict.{get?}
use celery_diagnostics_obser.Config.{ObserverConfig}
use celery_diagnostics_obser.Policy.{TelemetryPolicy}
use celery_diagnostics_obser.Runtime.{Runtime}
use celery_diagnostics_obser.Sanitizer.Coerce.{
  safe_token, optional_non_negative_int, int_or_none, datetime_iso, or_text, safe_status,
  safe_details,
}
use celery_diagnostics_obser.Sanitizer.Labels.{public_observer_id, label, ◌&◌}
use celery_diagnostics_obser.Sanitizer.Events.{schema_version}

-- sanitize_queue_snapshot, at the time `now`
unfoldable pub sanitize_queue_snapshot :
    Runtime
    → ObserverConfig
    → TelemetryPolicy
    → String
    → String
    → Value
    → Value
    → Value
    → String
    → Result Fields
sanitize_queue_snapshot rt config policy now queue messages_ready_approx sampled_at broker_reachable
      error_type =
    do
      (queue_label, is_hashed) ← label rt (str queue) policy.send_queue_names "queue" config
      observer_id ← public_observer_id rt config
      ready ← optional_non_negative_int rt messages_ready_approx
      sampled ← datetime_iso rt sampled_at
      ok (
          ("schema_version", str schema_version)
          & ("observer_id", str observer_id)
          & ("observer_mode", str config.mode)
          & ("telemetry_policy", str policy.name)
          & ("source", str "redis_queue_sampler")
          & ("event_type", str "queue_snapshot")
          & ("broker_type", str "redis")
          & ("queue", str queue_label)
          & ("queue_is_hashed", bool is_hashed)
          & ("messages_ready_approx", int_or_none ready)
          & ("messages_unacknowledged", null)
          & ("consumers", null)
          & ("sampled_at", str (or_text sampled now))
          & ("observed_at", str now)
          & ("broker_reachable", broker_reachable)
          & ("error_type", str (safe_token rt (str error_type) 128))
          & ("payload_redacted", bool true)
          & end)

-- the labels of the queues that are not empty
unfoldable pub queue_labels :
    Runtime → ObserverConfig → TelemetryPolicy → List String → Result Items
queue_labels rt config policy [] = ok nil
queue_labels rt config policy (queue ∷ queues) = do
  (queue_label, _) ← label rt (str queue) policy.send_queue_names "queue" config
  rest ← queue_labels rt config policy queues
  ok (if str_eq queue_label "" then rest else cons (str queue_label) rest)

-- sanitize_worker_snapshot, at the time `now`; no list of queues is an empty one
unfoldable pub sanitize_worker_snapshot :
    Runtime
    → ObserverConfig
    → TelemetryPolicy
    → String
    → String
    → List String
    → Value
    → Value
    → Value
    → Value
    → Bool
    → Result Fields
sanitize_worker_snapshot rt config policy now worker active_queues active_count reserved_count
      scheduled_count sampled_at alive =
    do
      (worker_text, worker_hashed) ← label rt (str worker) policy.send_worker_names "worker" config
      queues ← queue_labels rt config policy active_queues
      observer_id ← public_observer_id rt config
      active ← optional_non_negative_int rt active_count
      reserved ← optional_non_negative_int rt reserved_count
      scheduled ← optional_non_negative_int rt scheduled_count
      sampled ← datetime_iso rt sampled_at
      ok (
          ("schema_version", str schema_version)
          & ("observer_id", str observer_id)
          & ("observer_mode", str config.mode)
          & ("telemetry_policy", str policy.name)
          & ("source", str "celery_control_inspect")
          & ("event_type", str "worker_snapshot")
          & ("worker", str worker_text)
          & ("worker_is_hashed", bool worker_hashed)
          & ("alive", bool alive)
          & ("active_queues", list queues)
          & ("active_count", int_or_none active)
          & ("reserved_count", int_or_none reserved)
          & ("scheduled_count", int_or_none scheduled)
          & ("sampled_at", str (or_text sampled now))
          & ("observed_at", str now)
          & ("payload_redacted", bool true)
          & end)

-- s < t, by code points
unfoldable pub text_ltb : String → String → Bool
text_ltb s String.[] = false
text_ltb String.[] (String.◌∷◌ d t) = true
text_ltb (String.◌∷◌ c s) (String.◌∷◌ d t) =
    let rest = text_ltb s t in if code c == code d then rest else ltb (code c) (code d)

-- a member of a sorted set is not added again
unfoldable pub insert_sorted : String → List String → List String
insert_sorted s [] = s ∷ []
insert_sorted s (t ∷ ts) =
    let rest = insert_sorted s ts in
    if str_eq s t then t ∷ ts else if text_ltb s t then s ∷ t ∷ ts else t ∷ rest

-- the sorted set of the tokens that are not empty
unfoldable pub capability_set : Runtime → List String → List String
unfolding insert_sorted
capability_set rt [] = []
capability_set rt (item ∷ items) =
    let token = safe_token rt (str item) 128 in
    let rest = capability_set rt items in if str_eq token "" then rest else insert_sorted token rest

-- ",".join(texts)
unfoldable pub comma_join : List String → String
comma_join [] = ""
comma_join (s ∷ []) = s
comma_join (s ∷ t ∷ ts) = concat s (concat "," (comma_join (t ∷ ts)))

-- the attributes of the transport that go into the details
abbrev pub transport_keys : List String
transport_keys =
    "failed_send_count" ∷ "dropped_event_count" ∷ "sent_event_count" ∷ "spooled_event_count"
    ∷ "last_error" ∷ []

abbrev pub found : String → Option Value → Fields → Fields
found key none rest = rest
found key (some v) rest = field key v rest

-- those of the keys that `transport` has
unfoldable pub transport_details : List String → Fields → Fields
transport_details [] transport = end
transport_details (key ∷ keys) transport =
    found key (get? key transport) (transport_details keys transport)

-- sanitize_observer_heartbeat, at the time `now`; `transport` holds the attributes of the object,
-- and none if there is no object
unfoldable pub sanitize_observer_heartbeat :
    Runtime
    → ObserverConfig
    → TelemetryPolicy
    → String
    → String
    → Fields
    → String
    → List String
    → Result Fields
unfolding capability_set comma_join transport_details
sanitize_observer_heartbeat rt config policy now python_version transport status capabilities = do
  observer_id ← public_observer_id rt config
  ok (
      ("schema_version", str schema_version)
      & ("observer_id", str observer_id)
      & ("observer_mode", str config.mode)
      & ("telemetry_policy", str policy.name)
      & ("source", str "observer")
      & ("event_type", str "observer_heartbeat")
      & ("status", str (safe_status rt status))
      & ("observed_at", str now)
      & (
        "details",
        dict (
            safe_details rt (
              ("python_version", str python_version)
              & ("active_probe_capabilities", str (comma_join (capability_set rt capabilities)))
              & transport_details transport_keys transport)),
      )
      & ("payload_redacted", bool true)
      & end)
