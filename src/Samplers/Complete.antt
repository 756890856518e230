-- ===== src/Samplers/Complete.antt =====
-- redis_sampler.py: the snapshots of a sample, and the configured queues.
use celery_diagnostics_obser.Prelude.{
  String, Bool, true, false, ◌||◌, not, some, List, [], ◌∷◌, ◌≡◌, refl, ap₂, str_eq,
}
use celery_diagnostics_obser.Result.{
  Result, ok, err, Returns, Returns->>=, Returns-ok, Returns_at, class_name,
}
use celery_diagnostics_obser.Values.{Value, null, bool, str, datetime, Moment, Fields}
use celery_diagnostics_obser.Values.Dict.{get?}
use celery_diagnostics_obser.Config.{ObserverConfig}
use celery_diagnostics_obser.Policy.{TelemetryPolicy}
use celery_diagnostics_obser.Runtime.{Runtime}
use celery_diagnostics_obser.Sanitizer.Labels.{label}
use celery_diagnostics_obser.Sanitizer.Snapshots.{sanitize_queue_snapshot}
use celery_diagnostics_obser.ActiveProbes.Capabilities.{broker_type}
use celery_diagnostics_obser.Samplers.Queues.{queue_snapshot, sample_queues, llen_of, sample_once}

abbrev pub replied : Result Value → Bool
replied (ok count) = true
replied (err e) = false

module _ (rt : Runtime) (config : ObserverConfig) (policy : TelemetryPolicy) (now : String → String)
    (sampled_at : Moment) where
  -- a snapshot of the queue, marked by whether the broker replied
  pub record Tells (queue : String) (reachable : Bool) (snapshot : Fields) : Type 0 where
    pub name : String × Bool
    pub name_lem : label rt (str queue) policy.send_queue_names "queue" config ≡ ok name
    pub queue_lem : get? "queue" snapshot ≡ some (str (name.0))
    pub reachable_lem : get? "broker_reachable" snapshot ≡ some (bool reachable)

  -- one snapshot for each queue, in order
  abbrev pub TellsAll : (String → Result Value) → List String → List Fields → Type 0
  TellsAll llen [] [] = Unit
  TellsAll llen (q ∷ qs) (s ∷ ss) = Tells q (replied (llen q)) s × TellsAll llen qs ss
  TellsAll llen _ _ = ⊥

  sanitized_Tells :
      (queue : String) (count : Value) (reachable : Bool) (error_type : String)
      → Returns (Tells queue reachable) (
          sanitize_queue_snapshot rt config policy
            (now queue)
            queue
            count
            (datetime sampled_at)
            (bool reachable)
            error_type)
  unfolding sanitize_queue_snapshot get?
  sanitized_Tells queue count reachable error_type = Returns->>= _ _ _ (λ (text, hashed) e1.
      Returns->>= _ _ _ (λ observer_id e2. Returns->>= _ _ _ (λ ready e3.
        Returns->>= _ _ _ (λ sampled e4. Returns-ok _ _ (record {
          name = (text, hashed);
          name_lem = e1;
          queue_lem = refl;
          reachable_lem = refl;
        })))))

  snapshot_Tells :
      (queue : String) (reply : Result Value)
      → Returns
          (Tells queue (replied reply))
          (queue_snapshot rt config policy now sampled_at queue reply)
  unfolding queue_snapshot
  snapshot_Tells queue (ok count) = sanitized_Tells queue count true ""
  snapshot_Tells queue (err e) = sanitized_Tells queue null false (class_name e)

  sample_TellsAll :
      (llen : String → Result Value) (queues : List String)
      → Returns (TellsAll llen queues) (sample_queues rt config policy now sampled_at llen queues)
  unfolding sample_queues
  sample_TellsAll llen [] = Returns-ok _ _ tt
  sample_TellsAll llen (queue ∷ queues) = Returns->>= _ _ _ (λ snapshot e1.
      Returns->>= _ _ _ (λ rest e2. Returns-ok _ _ (
        Returns_at _ _ snapshot (snapshot_Tells queue (llen queue)) e1,
        Returns_at _ _ rest (sample_TellsAll llen queues) e2,
      )))

  -- A sample of a Redis broker has exactly one snapshot for each configured queue, in their order,
  -- under the queue's label, and marked as reachable exactly if the broker told its length: a
  -- queue that fails, or a connection that fails, hides no other queue.
  pub every_queue_sampled :
      (client : Result (String → Result Value)) (snapshots : List Fields)
      → str_eq (broker_type rt config) "redis" ≡ true
      → policy.enable_redis_queue_snapshots ≡ true
      → sample_once rt config policy now sampled_at client ≡ ok snapshots
      → TellsAll (llen_of client) config.queues snapshots
  unfolding sample_once
  every_queue_sampled client snapshots redis enabled h =
      let open_guard = ap₂ (λ a b. not a || not b) redis enabled in
      Returns_at _ _ snapshots (sample_TellsAll (llen_of client) config.queues) (rw open_guard at h)
