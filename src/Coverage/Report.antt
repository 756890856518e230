-- ===== src/Coverage/Report.antt =====
-- coverage.py: build_coverage_report.
use celery_diagnostics_obser.Prelude.{String, Bool, ◌||◌, Option, str_eq, if◌then◌else◌}
use celery_diagnostics_obser.Runtime.{Runtime}
use celery_diagnostics_obser.Config.{ObserverConfig}
use celery_diagnostics_obser.Policy.{TelemetryPolicy}
use celery_diagnostics_obser.AppContext.{AppContextSnapshot}
use celery_diagnostics_obser.ActiveProbes.Capabilities.{broker_type}
use celery_diagnostics_obser.Coverage.{
  CoverageSource, CoverageReport, source_of, safe_claims, blocked_claims, next_steps,
}
use celery_diagnostics_obser.Coverage.Sources.{
  routing_config_source, beat_schedule_source, visibility_timeout_source, task_track_started_source,
  normalize_app_context, app_context_source, worker_topology_source,
}

unfoldable pub redis_source : Bool → CoverageSource
redis_source available =
    if available
    then source_of "Redis broker sampling" "available"
        "Redis broker sampling can use safe queue depth checks."
    else source_of "Redis broker sampling" "unavailable"
        "Set CELERY_BROKER_URL to a Redis broker URL."

-- broker_type in {"redis", "rediss"}
unfoldable pub has_redis_broker : Runtime → ObserverConfig → Bool
has_redis_broker rt config =
    str_eq (broker_type rt config) "redis" || str_eq (broker_type rt config) "rediss"

unfoldable pub report_on :
    Runtime → ObserverConfig → TelemetryPolicy → AppContextSnapshot → CoverageReport
unfolding redis_source worker_topology_source app_context_source
report_on rt config policy context = record {
  redis_broker_sampling = redis_source (has_redis_broker rt config);
  celery_event_stream =
      source_of "Celery event stream" "unknown"
        "The receiver runs during observe; doctor does not confirm live task events yet.";
  app_context = app_context_source context;
  worker_topology = worker_topology_source policy;
  routing_config = routing_config_source rt context;
  beat_schedule = beat_schedule_source rt context;
  visibility_timeout = visibility_timeout_source rt context;
  task_track_started = task_track_started_source context;
  producer_publish_tracking =
      source_of "Producer publish tracking" "unavailable"
        "The standalone observer does not run inside producer processes.";
  diagnostic_level = if context.loaded then "Enhanced Observer" else "Basic Observer";
  safe_claims = safe_claims (has_redis_broker rt config);
  blocked_claims = blocked_claims context;
  next_steps = next_steps config policy context;
}

-- build_coverage_report
unfoldable pub build_coverage_report :
    Runtime
    → ObserverConfig
    → TelemetryPolicy
    → Option AppContextSnapshot
    → Bool
    → String
    → CoverageReport
unfolding report_on normalize_app_context
build_coverage_report rt config policy context loaded error =
    report_on rt config policy (normalize_app_context context loaded error)
