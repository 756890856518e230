-- ===== src/Cli.antt =====
-- cli.py: the commands, their exit codes, and the order of what `observe` starts and stops. The
-- parsing of the command line is argparse's; its result is a dict of attributes.
pub mod Observe
pub mod Resolve
use celery_diagnostics_obser.Prelude.{
  ℕ, String, Bool, true, false, ◌&&◌, ◌||◌, not, Option, none, some, List, [], ◌∷◌, str_eq, concat,
  if◌then◌else◌,
}
use celery_diagnostics_obser.Result.{
  Result, ok, err, Error, value_error, type_error, overflow_error, key_error, os_error,
  capsule_error, other_error, ◌>>=◌,
}
use celery_diagnostics_obser.Values.{Value, null, bool, str, Fields, end}
use celery_diagnostics_obser.Values.Dict.{get, get?}
use celery_diagnostics_obser.Runtime.{Runtime}
use celery_diagnostics_obser.Policy.{TelemetryPolicy, policy_local_only, policy_from_name}
use celery_diagnostics_obser.Identity.{identity_key_id}
use celery_diagnostics_obser.Config.{ObserverConfig}
use celery_diagnostics_obser.Config.Settings.{Process, config_from_env}
use celery_diagnostics_obser.Sanitizer.Labels.{◌&◌}
use celery_diagnostics_obser.Sanitizer.Urls.{UrlLibrary}
use celery_diagnostics_obser.AppContext.{
  AppContextSnapshot, Conf, inspect_celery_app, failed_app_context, unloaded_app_context,
}
use celery_diagnostics_obser.AppLoader.{Loader, is_app_aware, load_celery_app}
use celery_diagnostics_obser.Coverage.{CoverageReport}
use celery_diagnostics_obser.Coverage.Report.{build_coverage_report}
use celery_diagnostics_obser.Coverage.Render.{
  render_doctor_report, render_status_report, render_startup_summary,
}

-- What a command is run with: the interpreter, urllib, the process, the loader of apps with the
-- `conf` of an app, and the printing of a float with one decimal place.
pub record Machine : Type 1 where
  pub runtime : Runtime
  pub urls : UrlLibrary
  pub process : Process
  pub loader : Loader
  pub conf : loader.Object → Conf
  pub tenths : ℕ → String

-- getattr(args, name, default)
abbrev pub attribute : Option Value → Value → Value
attribute none default = default
attribute (some v) default = v

-- the overrides of _config_from_args
unfoldable pub overrides_of : Fields → Fields
overrides_of args =
    let arg = λ (name : String). attribute (get? name args) null in
    ("broker_url", arg "broker")
    & ("queues", arg "queues")
    & ("ingest_url", arg "ingest_url")
    & ("telemetry_policy", arg "policy")
    & ("mode", arg "mode")
    & ("app", arg "app")
    & ("observer_id", arg "observer_id")
    & ("sample_interval", arg "sample_interval")
    & ("inspect_interval", arg "inspect_interval")
    & ("batch_size", arg "batch_size")
    & ("flush_interval", arg "flush_interval")
    & ("spool_path", arg "spool_path")
    & ("log_level", arg "log_level")
    & ("dry_run", attribute (get? "dry_run" args) (bool false))
    & ("print_sanitized_events", attribute (get? "print_sanitized_events" args) (bool false))
    & ("active_probes", arg "active_probes")
    & end

-- _config_from_args
unfoldable pub config_from_args : Machine → Fields → Result ObserverConfig
unfolding overrides_of
config_from_args m args = config_from_env m.runtime m.process (overrides_of args)

abbrev pub policy_of : Machine → ObserverConfig → TelemetryPolicy
policy_of m config = policy_from_name m.runtime (str config.telemetry_policy)

abbrev pub key_error_text : Result String → Result String
key_error_text (ok key_id) = ok ""
key_error_text (err (capsule_error message)) =
    ok (concat "CD_IDENTITY_KEY is required for local-only mode: " message)
key_error_text (err e) = err e

-- _identity_config_error
unfoldable pub identity_config_error : Runtime → ObserverConfig → TelemetryPolicy → Result String
identity_config_error rt config policy =
    if not (str_eq policy.name policy_local_only)
    then ok ""
    else key_error_text (identity_key_id rt config.identity_key)

abbrev pub or_failed : Result AppContextSnapshot → AppContextSnapshot
or_failed (ok context) = context
or_failed (err e) = failed_app_context e

-- _app_context_for_report
unfoldable pub app_context_for_report : Machine → ObserverConfig → AppContextSnapshot
app_context_for_report m config =
    if not (is_app_aware config)
    then unloaded_app_context
    else or_failed
        (do app ← load_celery_app m.loader config; inspect_celery_app m.runtime (m.conf app))

unfoldable pub report_for : Machine → ObserverConfig → CoverageReport
report_for m config =
    build_coverage_report m.runtime config (policy_of m config)
      (some (app_context_for_report m config)) false ""

-- What a command prints, with its exit code.
pub record Printed : Type 0 where
  pub text : String
  pub code : ℕ

-- doctor
unfoldable pub doctor : Machine → Fields → Result Printed
unfolding report_for
doctor m args = do
  config ← config_from_args m args
  text ← render_doctor_report m.urls m.runtime config (report_for m config)
  ok (record { text = text; code = 0 })

-- status
unfoldable pub status : Machine → Fields → Result Printed
unfolding report_for
status m args = do
  config ← config_from_args m args
  ok (record { text = render_status_report config (report_for m config); code = 0 })
