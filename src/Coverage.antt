-- ===== src/Coverage.antt =====
-- coverage.py: what the observer can and cannot tell, from its settings and the app's facts.
pub mod Report
pub mod Sources
pub mod Render
pub mod Honest
use celery_diagnostics_obser.Prelude.{
  ℕ, zero, suc, pos, String, Bool, true, false, ◌&&◌, ◌||◌, not, Option, none, some, List, [], ◌∷◌,
  ◌++◌, str_eq, concat, ◌==◌, if◌then◌else◌,
}
use Prim.Native.Char.{Char, code}
use celery_diagnostics_obser.Values.{int}
use celery_diagnostics_obser.Values.Dict.{is_some}
use celery_diagnostics_obser.Text.{take_text}
use celery_diagnostics_obser.Runtime.{Runtime, to_text}
use celery_diagnostics_obser.Config.{ObserverConfig}
use celery_diagnostics_obser.Policy.{TelemetryPolicy}
use celery_diagnostics_obser.AppContext.{AppContextSnapshot, bare_context, unloaded_app_context}
use celery_diagnostics_obser.AppLoader.{is_app_aware}
use celery_diagnostics_obser.ActiveProbes.Capabilities.{broker_type}

pub record CoverageSource : Type 0 where
  pub label : String
  pub status : String
  pub detail : String

pub record BlockedClaim : Type 0 where
  pub claim : String
  pub reason : String

pub record CoverageReport : Type 0 where
  pub redis_broker_sampling : CoverageSource
  pub celery_event_stream : CoverageSource
  pub app_context : CoverageSource
  pub worker_topology : CoverageSource
  pub routing_config : CoverageSource
  pub beat_schedule : CoverageSource
  pub visibility_timeout : CoverageSource
  pub task_track_started : CoverageSource
  pub producer_publish_tracking : CoverageSource
  pub diagnostic_level : String
  pub safe_claims : List String
  pub blocked_claims : List BlockedClaim
  pub next_steps : List String

abbrev pub source_of : String → String → String → CoverageSource
source_of label status detail = record { label = label; status = status; detail = detail }

-- _safe_claims
unfoldable pub safe_claims : Bool → List String
safe_claims redis_available =
    "broker reachability problems"
    ∷ (if redis_available then "queue backlog growth" ∷ "queue pressure symptoms" ∷ [] else [])

abbrev blocked : String → String → BlockedClaim
blocked claim reason = record { claim = claim; reason = reason }

-- _blocked_claims
unfoldable pub blocked_claims : AppContextSnapshot → List BlockedClaim
blocked_claims context =
    blocked "no_worker_consuming_queue" "requires worker topology or active queue evidence"
    ∷ blocked "worker_wedged_after_broker_reconnect"
        "requires broker reconnect, fresh worker liveness, queue backlog, and broker consumer evidence"
    ∷ blocked "worker_received_but_not_executing"
        "requires task_track_started plus fresh worker liveness after receive/reserve"
    ∷ blocked "routing_mismatch" (
        if context.loaded && context.routing_config_known
        then "requires worker active queue evidence"
        else "requires routing config plus worker active queues")
    ∷ blocked "beat_schedule_missed" (
        if context.loaded && context.beat_schedule_known
        then "requires beat runtime scheduling evidence"
        else "requires beat schedule evidence")
    ∷ blocked "visibility_timeout_runtime_risk" (
        if context.loaded && is_some context.visibility_timeout
        then "requires runtime evidence and ack/redelivery semantics"
        else "requires known visibility timeout and runtime evidence")
    ∷ blocked "publish_failed_before_broker"
        "cannot be established from external observer evidence alone"
    ∷ []

abbrev pub step_if : Bool → String → List String
step_if true step = step ∷ []
step_if false step = []

-- value is True
abbrev pub is_true : Option Bool → Bool
is_true (some true) = true
is_true (some false) = false
is_true none = false

abbrev pub app_step : ObserverConfig → AppContextSnapshot → List String
app_step config context =
    if not (str_eq context.error "")
    then "fix the Celery app import path passed with `-A`" ∷ []
    else if not (is_app_aware config)
    then "run with `-A myproject.celery:app` for app-aware context" ∷ []
    else step_if (not context.loaded)
        "make sure the Celery app can be imported by the observer process"

-- _next_steps
unfoldable pub next_steps : ObserverConfig → TelemetryPolicy → AppContextSnapshot → List String
next_steps config policy context =
    step_if (str_eq config.broker_url "") "configure CELERY_BROKER_URL"
    ++ (app_step config context
        ++ (step_if (context.loaded && not (is_some context.visibility_timeout))
              "set broker_transport_options.visibility_timeout when Redis/SQS redelivery risk matters"
            ++ (step_if (context.loaded && not (is_true context.task_track_started))
                  "enable task_track_started for stronger received-to-started diagnostics"
                ++ (step_if (not policy.enable_control_inspect)
                      "use a telemetry policy with control inspect when worker topology is safe to collect"
                    ++ "enable Celery task events so the observer can see lifecycle transitions"
                      ∷ []))))
