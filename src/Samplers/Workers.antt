-- ===== src/Samplers/Workers.antt =====
-- inspect_sampler.py: one sample of what the workers report.

use celery_diagnostics_obser.Prelude.{pos, String, not, List, [], ◌∷◌, take, if◌then◌else◌}
use celery_diagnostics_obser.Result.{Result, ok, err, other_error, ◌>>=◌}
use celery_diagnostics_obser.Values.{
  Value, null, int, list, dict, datetime, Moment, Items, nil, cons, Fields, end, field, ◌or◌,
}
use celery_diagnostics_obser.Values.Dict.{get, get?, is_some}
use celery_diagnostics_obser.Config.{ObserverConfig}
use celery_diagnostics_obser.Config.Queues.{add_queue}
use celery_diagnostics_obser.Policy.{TelemetryPolicy}
use celery_diagnostics_obser.Runtime.{Runtime}
use celery_diagnostics_obser.Sanitizer.Snapshots.{sanitize_worker_snapshot, insert_sorted}
use celery_diagnostics_obser.ActiveProbes.Requests.{item_name}
use celery_diagnostics_obser.ActiveProbes.Capacity.{items_count, fields_count}

-- The inspector's commands, each a reply or an exception.
pub record Inspector : Type 0 where
  pub ping : Result Value
  pub active_queues : Result Value
  pub active : Result Value
  pub reserved : Result Value
  pub scheduled : Result Value

-- the five replies
pub record Replies : Type 0 where
  pub ping : Value
  pub active_queues : Value
  pub active : Value
  pub reserved : Value
  pub scheduled : Value

unfoldable pub ask : Inspector → Result Replies
ask inspector = do
  ping ← inspector.ping
  active_queues ← inspector.active_queues
  active ← inspector.active
  reserved ← inspector.reserved
  scheduled ← inspector.scheduled
  ok (record {
    ping = ping or dict end;
    active_queues = active_queues or dict end;
    active = active or dict end;
    reserved = reserved or dict end;
    scheduled = scheduled or dict end;
  })

-- the loop of _queue_names
unfoldable pub distinct_names : Runtime → List String → Items → List String
distinct_names rt names nil = names
distinct_names rt names (cons item items) =
    distinct_names rt (add_queue (item_name rt item) names) items

-- _queue_names
unfoldable pub queue_names_of : Runtime → Value → List String
unfolding distinct_names
queue_names_of rt (list items) = take 100 (distinct_names rt [] items)
queue_names_of rt _ = []

-- _inspect_count
unfoldable pub inspect_count : Value → Value
inspect_count (list items) = int (pos (items_count items))
inspect_count (dict m) = int (pos (fields_count m))
inspect_count _ = null

-- set.add of each key of a reply; of no dictionary there are no keys() to take
unfoldable pub add_keys : Fields → List String → List String
unfolding insert_sorted
add_keys end workers = workers
add_keys (field worker v m) workers = insert_sorted worker (add_keys m workers)

abbrev pub keyed : Value → Result Fields
keyed (dict m) = ok m
keyed v = err (other_error "AttributeError")

module _ (rt : Runtime) (config : ObserverConfig) (policy : TelemetryPolicy) (now : String → String)
    (sampled_at : Moment) where
  unfoldable pub worker_snapshots :
      Fields → Fields → Fields → Fields → Fields → List String → Result (List Fields)
  worker_snapshots ping active_queues active reserved scheduled [] = ok []
  worker_snapshots ping active_queues active reserved scheduled (worker ∷ workers) = do
    snapshot ←
        sanitize_worker_snapshot rt config policy (now worker) worker
          (queue_names_of rt (get worker active_queues)) (inspect_count (get worker active))
          (inspect_count (get worker reserved)) (inspect_count (get worker scheduled))
          (datetime sampled_at) (is_some (get? worker ping))
    rest ← worker_snapshots ping active_queues active reserved scheduled workers
    ok (snapshot ∷ rest)

  -- the snapshots of all workers in some reply, sorted
  unfoldable pub sample_replies : Replies → Result (List Fields)
  unfolding worker_snapshots add_keys
  sample_replies replies = do
    ping ← keyed replies.ping
    active_queues ← keyed replies.active_queues
    active ← keyed replies.active
    reserved ← keyed replies.reserved
    scheduled ← keyed replies.scheduled
    worker_snapshots ping active_queues active reserved scheduled (
        add_keys ping
          (add_keys active_queues (add_keys active (add_keys reserved (add_keys scheduled [])))))

  abbrev pub sample_if_asked : Result Replies → Result (List Fields)
  sample_if_asked (ok replies) = sample_replies replies
  sample_if_asked (err e) = ok []

  -- sample_once: no snapshot if a command raises
  unfoldable pub sample_workers : Inspector → Result (List Fields)
  unfolding ask
  sample_workers inspector =
      if not policy.enable_control_inspect then ok [] else sample_if_asked (ask inspector)
