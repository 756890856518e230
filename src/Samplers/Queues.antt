-- ===== src/Samplers/Queues.antt =====
-- redis_sampler.py: one sample of the length of each queue.
use celery_diagnostics_obser.Prelude.{
  String, true, false, ◌||◌, not, List, [], ◌∷◌, str_eq, if◌then◌else◌,
}
use celery_diagnostics_obser.Result.{Result, ok, err, class_name, ◌>>=◌}
use celery_diagnostics_obser.Values.{Value, null, bool, datetime, Moment, Fields}
use celery_diagnostics_obser.Config.{ObserverConfig}
use celery_diagnostics_obser.Policy.{TelemetryPolicy}
use celery_diagnostics_obser.Runtime.{Runtime}
use celery_diagnostics_obser.Sanitizer.Snapshots.{sanitize_queue_snapshot}
use celery_diagnostics_obser.ActiveProbes.Capabilities.{broker_type}

-- without a client, each queue has the error of the connection
abbrev pub llen_of : Result (String → Result Value) → String → Result Value
llen_of (ok llen) queue = llen queue
llen_of (err e) queue = err e

-- `now queue` is utc_now_iso() at the snapshot of the queue, and `sampled_at` the time of the sample.
module _ (rt : Runtime) (config : ObserverConfig) (policy : TelemetryPolicy) (now : String → String)
    (sampled_at : Moment) where
  -- the snapshot of a queue, from what `llen` returns or raises
  unfoldable pub queue_snapshot : String → Result Value → Result Fields
  queue_snapshot queue (ok count) =
      sanitize_queue_snapshot rt config policy (now queue) queue count (datetime sampled_at)
        (bool true) ""
  queue_snapshot queue (err e) =
      sanitize_queue_snapshot rt config policy (now queue) queue null (datetime sampled_at)
        (bool false) (class_name e)

  unfoldable pub sample_queues : (String → Result Value) → List String → Result (List Fields)
  unfolding queue_snapshot
  sample_queues llen [] = ok []
  sample_queues llen (queue ∷ queues) = do
    snapshot ← queue_snapshot queue (llen queue)
    rest ← sample_queues llen queues
    ok (snapshot ∷ rest)

  -- sample_once; `client` is what client_factory returns or raises
  unfoldable pub sample_once : Result (String → Result Value) → Result (List Fields)
  unfolding sample_queues
  sample_once client =
      if not (str_eq (broker_type rt config) "redis") || not policy.enable_redis_queue_snapshots
      then ok []
      else sample_queues (llen_of client) config.queues
