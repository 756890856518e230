-- ===== src/Beat/Startup.antt =====
-- beat.py: the construction of the scheduler, up to the one of Celery's.
use celery_diagnostics_obser.Prelude.{
  pos, String, Option, none, some, str_eq, concat, if◌then◌else◌,
}
use celery_diagnostics_obser.Result.{Result, ok, ◌>>=◌}
use celery_diagnostics_obser.Values.{int, str, Fields, end}
use celery_diagnostics_obser.Runtime.{Runtime}
use celery_diagnostics_obser.Sanitizer.Labels.{◌&◌}
use celery_diagnostics_obser.Sanitizer.Urls.{UrlLibrary}
use celery_diagnostics_obser.Config.{ObserverConfig}
use celery_diagnostics_obser.Config.Settings.{
  Process, interval, config_from_env, validate_ingest_transport, float_5, float_30, float_3600,
}
use celery_diagnostics_obser.Policy.{policy_from_name}
use celery_diagnostics_obser.Spool.{Json, JsonlSpool}
use celery_diagnostics_obser.Beat.{BeatRuntime}
use celery_diagnostics_obser.Transport.{ObserverTransport, init}
use celery_diagnostics_obser.Beat.Entries.{Adapter}
use celery_diagnostics_obser.Beat.Scheduler.{BeatState}

abbrev text_or : Option String → String → String
text_or none default = default
text_or (some s) default = s

-- os.getenv(name) or default
abbrev filled_or : Option String → String → String
filled_or none default = default
filled_or (some s) default = if str_eq s "" then default else s

-- the overrides of the settings
unfoldable pub beat_overrides : Process → String → Fields
beat_overrides process hostname =
    (
      "observer_id",
      str (filled_or (process.getenv "CD_BEAT_OBSERVER_ID") (concat "beat@" hostname)),
    )
    & ("batch_size", int (pos 1000))
    & ("spool_path", str (text_or (process.getenv "CD_BEAT_SPOOL_PATH") ""))
    & end

module _ (lib : UrlLibrary) (rt : Runtime) (process : Process) (found : String → JsonlSpool) where
  abbrev spool_at : String → Option JsonlSpool
  spool_at path = if str_eq path "" then none else some (found path)

  -- ObserverTransport(config); `found` is the spool's file as it was found
  unfoldable pub make_transport : ObserverConfig → Result ObserverTransport
  make_transport config = do
    checked ← validate_ingest_transport lib rt config
    ok (init (spool_at config.spool_path))

  -- the transport, if a project key is configured
  unfoldable pub beat_transport : ObserverConfig → Result (Option ObserverTransport)
  unfolding make_transport
  beat_transport config =
      if str_eq config.project_key ""
      then ok none
      else (make_transport config >>= λ transport. ok (some transport))

  module _ (json : Json) (beat : BeatRuntime) where
    -- __init__, and what the adapter is made of
    unfoldable pub new_scheduler : String → Result ((a : Adapter) × BeatState json a)
    unfolding beat_overrides beat_transport
    new_scheduler hostname = do
      config ← config_from_env rt process (beat_overrides process hostname)
      transport ← beat_transport config
      snapshot_interval ←
          interval rt process (str (text_or (process.getenv "CD_BEAT_SNAPSHOT_INTERVAL") "30"))
            float_30 float_5 float_3600
      ok (
        record {
          runtime = rt;
          beat = beat;
          config = config;
          policy = policy_from_name rt (str config.telemetry_policy);
        },
        record {
          transport = transport;
          last_snapshot_at = 0;
          current_due_entry = none;
          snapshot_interval = snapshot_interval;
        },
      )
