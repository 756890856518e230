-- ===== src/ActiveProbes/AppFacts.antt =====
-- redis_result_probe.py and redis_message_probe.py: what the probes ask of the app before they offer
-- a capability.
use celery_diagnostics_obser.Prelude.{
  ℤ, pos, String, Bool, true, false, ◌&&◌, Option, none, some, List, [], ◌∷◌, str_eq, ◌==◌,
  if◌then◌else◌,
}
use celery_diagnostics_obser.Result.{Result, ok, ◌>>=◌}
use celery_diagnostics_obser.Values.{
  Value, null, str, list, dict, Items, nil, cons, Fields, end, field,
}
use celery_diagnostics_obser.Values.Dict.{get}
use celery_diagnostics_obser.Runtime.{Runtime, lowered, stripped}
use celery_diagnostics_obser.Sanitizer.Coerce.{parsed_int}
use celery_diagnostics_obser.Config.{ObserverConfig}
use celery_diagnostics_obser.Policy.{TelemetryPolicy}
use celery_diagnostics_obser.ActiveProbes.Capabilities.{
  broker_type, some_queue, active_probe_capabilities,
}

-- Attributes of the app: conf.result_serializer, whether backend.get_key_for_task and
-- backend.client.eval are callable, and conf.broker_transport_options; null where there is none.
pub record AppAttributes : Type 0 where
  pub result_serializer : Value
  pub has_get_key : Bool
  pub has_eval : Bool
  pub transport_options : Value

unfoldable pub supports_status_only_result_probe : Runtime → AppAttributes → Bool
supports_status_only_result_probe rt app =
    str_eq (lowered rt (stripped rt app.result_serializer)) "json"
    && (app.has_get_key && app.has_eval)

-- what iterating over a value gives; `none` if it is not iterable
abbrev items_of : Value → Option (List Value)
items_of (list items) = some (listed items)
  where
    listed : Items → List Value
    listed nil = []
    listed (cons v items) = v ∷ listed items
items_of (str s) = some (characters s)
  where
    characters : String → List Value
    characters String.[] = []
    characters (String.◌∷◌ c s) = str (String.◌∷◌ c String.[]) ∷ characters s
items_of (dict m) = some (keys m)
  where
    keys : Fields → List Value
    keys end = []
    keys (field k v m) = str k ∷ keys m
items_of _ = none

-- tuple(int(item) for item in items); `none` where it raises TypeError or ValueError
unfoldable pub ints_of : Runtime → List Value → Result (Option (List ℤ))
ints_of rt [] = ok (some [])
ints_of rt (v ∷ vs) = do
  n ← parsed_int rt v
  let rest = ints_of rt vs
  elim n [
    | none ↦ ok none
    | some i ↦ rest >>= λ is. ok (elim is [ none ↦ none | some js ↦ some (i ∷ js) ])
  ]

-- == DEFAULT_PRIORITY_STEPS
abbrev is_default_steps : Option (List ℤ) → Bool
is_default_steps (some (pos a ∷ pos b ∷ pos c ∷ pos d ∷ [])) =
    (a == 0) && ((b == 3) && ((c == 6) && (d == 9)))
is_default_steps _ = false

abbrev steps_default : Runtime → Option (List Value) → Result Bool
steps_default rt none = ok false
steps_default rt (some items) = ints_of rt items >>= λ steps. ok (is_default_steps steps)

abbrev default_layout : Runtime → Value → Result Bool
default_layout rt null = ok true
default_layout rt (str s) = if str_eq s "" then ok true else steps_default rt (items_of (str s))
default_layout rt v = steps_default rt (items_of v)

unfoldable pub uses_default_priority_layout : Runtime → AppAttributes → Result Bool
unfolding ints_of
uses_default_priority_layout rt app = elim app.transport_options [
  | dict options ↦ default_layout rt (get "priority_steps" options)
  | _ ↦ ok true
]

-- The capabilities of an executor, from the app; its layout is asked for last.
unfoldable pub capabilities_of :
    Runtime → AppAttributes → ObserverConfig → TelemetryPolicy → Result (List String)
capabilities_of rt app config policy =
    let status = supports_status_only_result_probe rt app in
    if config.active_probes
      && (str_eq (broker_type rt config) "redis"
          && (policy.enable_redis_queue_snapshots && some_queue config.queues))
    then (uses_default_priority_layout rt app >>= λ layout.
        ok (active_probe_capabilities rt status layout config policy))
    else ok (active_probe_capabilities rt status false config policy)
