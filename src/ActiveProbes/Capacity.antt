-- ===== src/ActiveProbes/Capacity.antt =====
-- active_probes.py: the probes for the capacity of workers and for the consumers of a queue.
use celery_diagnostics_obser.Prelude.{
  ℕ, pos, ◌+◌, ltb, leb, String, true, false, ◌&&◌, not, Option, none, some, List, [], ◌∷◌, length,
  if◌then◌else◌,
}
use celery_diagnostics_obser.Result.{Result, ok, err, other_error, ◌>>=◌}
use celery_diagnostics_obser.Values.{
  Value, bool, int, str, list, dict, Items, nil, cons, Fields, end, field, ◌or◌, as_dict,
}
use celery_diagnostics_obser.Values.Dict.{get}
use celery_diagnostics_obser.Config.{ObserverConfig}
use celery_diagnostics_obser.Policy.{TelemetryPolicy}
use celery_diagnostics_obser.Runtime.{Runtime}
use celery_diagnostics_obser.Sanitizer.Coerce.{parsed_int, at_least_0, above_0}
use celery_diagnostics_obser.Sanitizer.Labels.{◌&◌}
use celery_diagnostics_obser.ActiveProbes.Requests.{
  required, expected_workers, destination, worker_name, reply_labels, labeled_mapping, queue_names,
}
use celery_diagnostics_obser.ActiveProbes.Answers.{
  is_member, is_subset, common_count, has_workers, negative_complete, negative,
}
use celery_diagnostics_obser.ActiveProbes.Handlers.{App}

abbrev pub items_count : Items → ℕ
items_count nil = 0
items_count (cons v vs) = 1 + items_count vs

abbrev pub fields_count : Fields → ℕ
fields_count end = 0
fields_count (field k v m) = 1 + fields_count m

-- _collection_count
abbrev pub collection_count : Value → ℕ
collection_count (list vs) = items_count vs
collection_count (dict m) = fields_count m
collection_count _ = 0

-- _worker_concurrency of a dictionary
unfoldable pub concurrency_of : Runtime → Fields → Result (Option ℕ)
concurrency_of rt stats = do
  let pool = as_dict (get "pool" stats)
  parsed ←
      parsed_int rt
        (get "max-concurrency" pool or get "max_concurrency" pool or get "concurrency" stats)
  ok (above_0 (at_least_0 parsed))

unfoldable pub worker_concurrency : Runtime → Value → Result (Option ℕ)
unfolding concurrency_of
worker_concurrency rt (dict stats) = concurrency_of rt stats
worker_concurrency rt _ = ok none

-- the keys of `m` that are keys of the other, set(m) & set(other)
unfoldable pub common_keys : Fields → List String → List String
common_keys end other = []
common_keys (field k v m) other =
    let rest = common_keys m other in if is_member k other then k ∷ rest else rest

unfoldable pub keys_of : Fields → List String
keys_of end = []
keys_of (field k v m) = k ∷ keys_of m

abbrev pub total_count : Fields → List String → ℕ
total_count active [] = 0
total_count active (worker ∷ workers) =
    collection_count (get worker active) + total_count active workers

abbrev pub add_capacity : Option ℕ → Option ℕ → Option ℕ
add_capacity (some m) (some n) = some (m + n)
add_capacity _ _ = none

-- the sum of the capacities, `none` if one is not known
unfoldable pub total_capacity : Runtime → Fields → List String → Result (Option ℕ)
unfolding worker_concurrency
total_capacity rt stats [] = ok (some 0)
total_capacity rt stats (worker ∷ workers) = do
  capacity ← worker_concurrency rt (get worker stats)
  rest ← total_capacity rt stats workers
  ok (add_capacity capacity rest)

abbrev pub capacity_answer : ℕ → Option ℕ → List String → List String → List String → Fields
capacity_answer active none scope expected replies =
    negative "" "capacity_unknown" false expected replies "capacity_unknown" ""
capacity_answer active (some total) scope expected replies =
    let outcome = if ltb 0 total && leb total active then "saturated" else "available" in
    ("outcome_id", str outcome)
    & ("complete", bool true)
    & ("state", str outcome)
    & ("worker_replies_expected", int (pos (length scope)))
    & ("worker_replies_received", int (pos (common_count scope replies)))
    & end

-- the answer from the replies of the workers in scope
unfoldable pub capacity_in :
    Runtime → Fields → Fields → List String → List String → List String → Result Fields
unfolding total_capacity
capacity_in rt active stats scope expected replies =
    if not (has_workers scope && is_subset scope replies)
    then ok (negative "" "capacity_partial" false expected replies "partial_reply" "")
    else do
      total ← total_capacity rt stats scope
      ok (capacity_answer (total_count active scope) total scope expected replies)

module _ (rt : Runtime) (config : ObserverConfig) (policy : TelemetryPolicy) (app : App) where
  unfoldable pub query_capacity : Fields → Result Fields
  unfolding common_keys keys_of
  query_capacity request = do
    let expected = expected_workers rt request
    active_reply ← app.active (destination rt policy request)
    active ← labeled_mapping rt config policy (active_reply or dict end)
    stats_reply ← app.stats (destination rt policy request)
    stats ← labeled_mapping rt config policy (stats_reply or dict end)
    let replies = common_keys active (keys_of stats)
    capacity_in rt active stats (if has_workers expected then expected else replies) expected
        replies

  -- the labels of the workers that consume from the queue
  unfoldable pub consumers_in : String → Fields → Result (List String)
  consumers_in queue end = ok []
  consumers_in queue (field worker rows rest) = do
    names ← queue_names rt config policy rows
    name ← if is_member queue names then worker_name rt config policy worker else ok ""
    others ← consumers_in queue rest
    ok (if is_member queue names then name ∷ others else others)

  abbrev pub consumers_answer : String → Fields → List String → List String → List String → Fields
  consumers_answer queue active_queues expected replies [] =
      negative "no_consumers" "no_consumers" (negative_complete expected replies) expected replies
        "" queue
  consumers_answer queue active_queues expected replies (c ∷ cs) =
      ("outcome_id", str "consumers_present")
      & ("complete", bool true)
      & ("state", str "consumers_present")
      & ("queue", str queue)
      & ("worker_replies_expected", int (pos (length expected)))
      & ("worker_replies_received", int (pos (fields_count active_queues)))
      & end

  -- reply.items(), of a dictionary
  abbrev pub items_of : Value → Result Fields
  items_of (dict m) = ok m
  items_of v = err (other_error "AttributeError")

  -- _query_queue_consumers
  unfoldable pub query_queue_consumers : Fields → Result Fields
  unfolding consumers_in
  query_queue_consumers request = do
    queue ← required rt request "queue"
    reply ← app.active_queues (destination rt policy request)
    active_queues ← items_of (reply or dict end)
    consumers ← consumers_in queue active_queues
    replies ← reply_labels rt config policy (reply or dict end)
    ok (consumers_answer queue active_queues (expected_workers rt request) replies consumers)
