-- ===== src/Cli/Observe.antt =====
-- cli.py: `observe`.
pub mod Order
pub mod Gated
use celery_diagnostics_obser.Prelude.{
  ℕ, String, Bool, true, false, ◌&&◌, ◌||◌, not, Option, none, some, List, [], ◌∷◌, ◌++◌, map,
  str_eq, concat, if◌then◌else◌,
}
use celery_diagnostics_obser.Result.{Result, ok, err, Error, ◌>>=◌}
use celery_diagnostics_obser.Values.{Value, float, str, dict, Moment, Fields, end}
use celery_diagnostics_obser.Runtime.{Runtime}
use celery_diagnostics_obser.Policy.{TelemetryPolicy}
use celery_diagnostics_obser.Config.{ObserverConfig, mode_standalone}
use celery_diagnostics_obser.Config.Settings.{validate_ingest_transport}
use celery_diagnostics_obser.Sanitizer.Labels.{◌&◌}
use celery_diagnostics_obser.Sanitizer.Events.{sanitize_celery_event}
use celery_diagnostics_obser.Sanitizer.Snapshots.{sanitize_observer_heartbeat}
use celery_diagnostics_obser.Samplers.Queues.{sample_once}
use celery_diagnostics_obser.AppContext.{
  AppContextSnapshot, inspect_celery_app, failed_app_context, unloaded_app_context,
}
use celery_diagnostics_obser.AppLoader.{is_app_aware, load_celery_app, Loader}
use celery_diagnostics_obser.Coverage.Report.{build_coverage_report}
use celery_diagnostics_obser.Coverage.Render.{render_startup_summary}
use celery_diagnostics_obser.Cli.{Machine, config_from_args, policy_of, identity_config_error}

pub data Service : Type 0 where
  health sampler inspect probes : Service

-- What `observe` does, in order: it enqueues an event, prints to the error stream, starts and stops
-- the loops, runs the receiver, and flushes the transport.
pub data Action : Type 0 where
  enqueued : Value → Action
  printed : String → Action
  started stopped : Service → Action
  received flushed : Action

-- What it meets: the clocks, the Redis client of the sampler, the attributes of the new transport,
-- how the receiver's loop ends, and whether the last flush raises.
pub record ObserveWorld : Type 0 where
  pub timestamp : ℕ
  pub now : String
  pub queue_now : String → String
  pub sampled_at : Moment
  pub python_version : String
  pub client : Result (String → Result Value)
  pub new_transport : Fields
  pub receiver_end : Result Bool
  pub last_flush : Result Bool

abbrev pub Observed : Type 0
Observed = Result ℕ × List Action

abbrev pub first_queue : List String → String
first_queue [] = "default"
first_queue (q ∷ qs) = q

-- the two raw events of dry_run_sample_events
unfoldable pub sample_events : ObserveWorld → ObserverConfig → List Fields
sample_events w config =
    (("type", str "task-sent")
      & ("uuid", str "dry-run-task-id")
      & ("name", str "example.tasks.process")
      & ("routing_key", str (first_queue config.queues))
      & ("timestamp", float w.timestamp)
      & ("argsrepr", str "(secret,)")
      & ("kwargsrepr", str "{'token': 'secret'}")
      & end)
    ∷ (("type", str "worker-heartbeat")
        & ("hostname", str "celery@dry-run-worker")
        & ("timestamp", float w.timestamp)
        & end)
    ∷ []

abbrev cons_payload : Option Fields → List Fields → List Fields
cons_payload none events = events
cons_payload (some payload) events = payload ∷ events

unfoldable pub sanitized :
    Runtime → ObserverConfig → TelemetryPolicy → String → List Fields → Result (List Fields)
sanitized rt config policy now [] = ok []
sanitized rt config policy now (event ∷ events) = do
  payload ← sanitize_celery_event rt config policy now (dict event)
  rest ← sanitized rt config policy now events
  ok (cons_payload payload rest)

-- dry_run_sample_events
unfoldable pub dry_run_sample_events :
    Runtime → ObserveWorld → ObserverConfig → TelemetryPolicy → Result (List Fields)
unfolding sample_events sanitized
dry_run_sample_events rt w config policy = sanitized rt config policy w.now (sample_events w config)

abbrev pub enqueue_all : List Fields → List Action
enqueue_all events = map (λ event. enqueued (dict event)) events

-- events are made, enqueued, and the rest follows, unless they cannot be made
abbrev pub enqueue_then : Result (List Fields) → Observed → Observed
enqueue_then (err e) rest = (err e, [])
enqueue_then (ok events) (result, actions) = (result, enqueue_all events ++ actions)

abbrev pub one_event : Result Fields → Result (List Fields)
one_event (err e) = err e
one_event (ok event) = ok (event ∷ [])

abbrev pub refused : String → Observed
refused text = (ok 2, printed text ∷ [])

-- the result of the `try` with its `finally`: an exception of the flush takes the other's place
abbrev pub exit_of : Result Bool → Result Bool → Result ℕ
exit_of receiver_end (err e) = err e
exit_of (err e) (ok b) = err e
exit_of (ok b') (ok b) = ok 0

abbrev pub refused_if : Result String → Observed
refused_if (err e) = (err e, [])
refused_if (ok summary) = refused summary

-- not config.broker_url and config.mode == MODE_STANDALONE
abbrev pub lacks_broker : ObserverConfig → Bool
lacks_broker config = str_eq config.broker_url "" && str_eq config.mode mode_standalone

module _ (m : Machine) (w : ObserveWorld) where
  unfoldable pub dry_run : ObserverConfig → TelemetryPolicy → Observed
  unfolding dry_run_sample_events
  dry_run config policy = enqueue_then (dry_run_sample_events m.runtime w config policy) (
      enqueue_then
        (one_event (
          sanitize_observer_heartbeat m.runtime config policy w.now w.python_version w.new_transport
            "healthy" []))
        (enqueue_then (sample_once m.runtime config policy w.queue_now w.sampled_at w.client)
          (ok 0, [])))

  -- the loops around the receiver
  unfoldable pub serve : String → Observed
  serve summary = (
    exit_of w.receiver_end w.last_flush,
    printed summary
        ∷ started health
        ∷ started sampler
        ∷ started inspect
        ∷ started probes
        ∷ received
        ∷ stopped probes
        ∷ stopped health
        ∷ stopped inspect
        ∷ stopped sampler
        ∷ flushed
        ∷ [],
  )

  abbrev pub serve_if : Result String → Observed
  serve_if (err e) = (err e, [])
  serve_if (ok summary) = serve summary

  unfoldable pub summary_of : ObserverConfig → AppContextSnapshot → Result String
  summary_of config context =
      render_startup_summary m.urls m.runtime m.tenths config
        (build_coverage_report m.runtime config (policy_of m config) (some context) false "")

  unfoldable pub observed_context : ObserverConfig → m.loader.Object → Result AppContextSnapshot
  observed_context config app =
      if is_app_aware config
      then inspect_celery_app m.runtime (m.conf app)
      else ok unloaded_app_context

  abbrev pub serve_app : ObserverConfig → Result m.loader.Object → Observed
  serve_app config (err e) = refused_if (summary_of config (failed_app_context e))
  serve_app config (ok app) = serve_if (observed_context config app >>= summary_of config)

  unfoldable pub observe_valid : ObserverConfig → Observed
  unfolding dry_run
  observe_valid config =
      if config.dry_run
      then dry_run config (policy_of m config)
      else if str_eq config.project_key ""
      then refused "CD_PROJECT_KEY environment variable is required"
      else if lacks_broker config
      then refused "Redis broker URL is required in standalone mode"
      else serve_app config (load_celery_app m.loader config)

  -- ObserverTransport(config) raises if the ingest URL is not safe
  abbrev pub observe_transport : ObserverConfig → Result (Unit {0}) → Observed
  observe_transport config (err e) = (err e, [])
  observe_transport config (ok tt) = observe_valid config

  abbrev pub observe_keyed : ObserverConfig → Result String → Observed
  observe_keyed config (err e) = (err e, [])
  observe_keyed config (ok text) =
      if not (str_eq text "")
      then refused text
      else observe_transport config (validate_ingest_transport m.urls m.runtime config)

  abbrev pub observe_config : Result ObserverConfig → Observed
  observe_config (err e) = (err e, [])
  observe_config (ok config) =
      observe_keyed config (identity_config_error m.runtime config (policy_of m config))

  -- observe
  unfoldable pub observe : Fields → Observed
  observe args = observe_config (config_from_args m args)
