-- ===== src/ActiveProbes/Requests.antt =====
-- active_probes.py: what is read from a probe request and from the replies of workers.
use celery_diagnostics_obser.Prelude.{
  ℤ, String, Bool, true, false, ◌&&◌, not, Option, none, some, List, [], ◌∷◌, str_eq, if◌then◌else◌,
}
use celery_diagnostics_obser.Result.{Result, ok, err, value_error, ◌>>=◌}
use celery_diagnostics_obser.Values.{
  Value, str, list, dict, Items, nil, cons, Fields, end, field, Moment, truth, ◌or◌, as_dict,
}
use celery_diagnostics_obser.Values.Dict.{get, set}
use celery_diagnostics_obser.Config.{ObserverConfig}
use celery_diagnostics_obser.Policy.{TelemetryPolicy}
use celery_diagnostics_obser.Identity.{identity_ref}
use celery_diagnostics_obser.Text.{strip, take_text, starts_with, has_char, utc_offset}
use celery_diagnostics_obser.Runtime.{Runtime, to_text, stripped, lowered}
use celery_diagnostics_obser.Sanitizer.Coerce.{aware}
use celery_diagnostics_obser.Sanitizer.Snapshots.{insert_sorted}

-- _required
unfoldable pub required : Runtime → Fields → String → Result String
required rt request name =
    let value = stripped rt (get name request) in
    if str_eq value "" then err value_error else ok value

abbrev pub add_to_set : String → List String → List String
add_to_set s set = if str_eq s "" then set else insert_sorted s set

-- the sorted set of the texts that are not empty
unfoldable pub worker_set : Runtime → Items → List String
unfolding to_text strip
worker_set rt nil = []
worker_set rt (cons item items) = add_to_set (strip (to_text rt item)) (worker_set rt items)

abbrev pub one_worker : String → List String
one_worker worker = if str_eq worker "" then [] else worker ∷ []

abbrev pub workers_of : Runtime → Value → String → List String
workers_of rt (list items) worker = worker_set rt items
workers_of rt _ worker = one_worker worker

-- _expected_workers
unfoldable pub expected_workers : Runtime → Fields → List String
unfolding worker_set
expected_workers rt request =
    workers_of rt (get "expected_workers" request) (stripped rt (get "worker" request))

-- _is_routable_worker_name
unfoldable pub is_routable_worker_name : Runtime → String → Bool
is_routable_worker_name rt value =
    let normalized = strip value in
    not (str_eq normalized "")
    && not (starts_with "worker_" (lowered rt normalized) && not (has_char b'@' normalized))

unfoldable pub all_routable : Runtime → List String → Bool
all_routable rt [] = true
all_routable rt (worker ∷ workers) = is_routable_worker_name rt worker && all_routable rt workers

abbrev pub has_worker : List String → Bool
has_worker [] = false
has_worker (w ∷ ws) = true

-- the workers that are asked, if not all
unfoldable pub destination : Runtime → TelemetryPolicy → Fields → Option (List String)
unfolding all_routable
destination rt policy request =
    let expected = expected_workers rt request in
    if has_worker expected && (policy.send_worker_names && all_routable rt expected)
    then some expected
    else none

-- _privacy_label
unfoldable pub privacy_label : Runtime → Value → String → Bool → ObserverConfig → Result String
privacy_label rt value kind allowed config =
    let raw = stripped rt value in
    if str_eq raw ""
    then ok ""
    else if allowed
    then ok (take_text 255 raw)
    else identity_ref rt kind (str raw) config.identity_key

unfoldable pub worker_name : Runtime → ObserverConfig → TelemetryPolicy → String → Result String
worker_name rt config policy worker =
    privacy_label rt (str worker) "worker" policy.send_worker_names config

unfoldable pub queue_name : Runtime → ObserverConfig → TelemetryPolicy → String → Result String
queue_name rt config policy queue =
    privacy_label rt (str queue) "queue" policy.send_queue_names config

-- _reply_labels of the entries of a dictionary
unfoldable pub labels_of :
    Runtime → ObserverConfig → TelemetryPolicy → Fields → Result (List String)
labels_of rt config policy end = ok []
labels_of rt config policy (field worker v rest) = do
  name ← worker_name rt config policy worker
  names ← labels_of rt config policy rest
  ok (add_to_set name names)

unfoldable pub reply_labels :
    Runtime → ObserverConfig → TelemetryPolicy → Value → Result (List String)
reply_labels rt config policy payload = labels_of rt config policy (as_dict payload)

-- _labeled_mapping: a later worker of the same label takes the place of an earlier one
unfoldable pub labeled_entries :
    Runtime → ObserverConfig → TelemetryPolicy → Fields → Fields → Result Fields
labeled_entries rt config policy end result = ok result
labeled_entries rt config policy (field worker v rest) result = do
  name ← worker_name rt config policy worker
  labeled_entries rt config policy rest (if str_eq name "" then result else set name v result)

unfoldable pub labeled_mapping : Runtime → ObserverConfig → TelemetryPolicy → Value → Result Fields
unfolding labeled_entries
labeled_mapping rt config policy payload = labeled_entries rt config policy (as_dict payload) end

-- the name of a queue in a reply
abbrev pub item_name : Runtime → Value → String
item_name rt (dict item) = stripped rt (get "name" item or get "queue" item)
item_name rt v = stripped rt v

-- _queue_names, then the labels of self._queue_names
unfoldable pub queue_label_set :
    Runtime → ObserverConfig → TelemetryPolicy → Items → Result (List String)
queue_label_set rt config policy nil = ok []
queue_label_set rt config policy (cons item items) = do
  name ← queue_name rt config policy (item_name rt item)
  names ← queue_label_set rt config policy items
  ok (add_to_set name names)

unfoldable pub queue_names :
    Runtime → ObserverConfig → TelemetryPolicy → Value → Result (List String)
unfolding queue_label_set
queue_names rt config policy (list items) = queue_label_set rt config policy items
queue_names rt config policy _ = ok []

-- _configured_queue
unfoldable pub configured_queue :
    Runtime → ObserverConfig → TelemetryPolicy → List String → String → Result (Option String)
configured_queue rt config policy [] requested = ok none
configured_queue rt config policy (queue ∷ queues) requested = do
  name ← queue_name rt config policy queue
  let rest = configured_queue rt config policy queues requested
  if str_eq name requested then ok (some queue) else rest

abbrev pub utc_of : Runtime → Option Moment → Result (Option ℤ)
utc_of rt none = ok none
utc_of rt (some m) = rt.to_utc (aware m) >>= λ micros. ok (some micros)

-- _parse_datetime
unfoldable pub parse_datetime : Runtime → Value → Result (Option ℤ)
parse_datetime rt value =
    if truth value then utc_of rt (rt.from_isoformat (utc_offset (to_text rt value))) else ok none
