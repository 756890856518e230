-- ===== src/Coverage/Sources.antt =====
-- coverage.py: what the report says of each source, from the facts of the app.
use celery_diagnostics_obser.Prelude.{
  ℕ, zero, suc, pos, String, Bool, true, false, ◌||◌, not, Option, none, some, List, [], ◌∷◌, ◌++◌,
  str_eq, concat, ◌==◌, if◌then◌else◌,
}
use Prim.Native.Char.{code}
use celery_diagnostics_obser.Values.{int}
use celery_diagnostics_obser.Text.{take_text}
use celery_diagnostics_obser.Runtime.{Runtime, to_text}
use celery_diagnostics_obser.Policy.{TelemetryPolicy}
use celery_diagnostics_obser.AppContext.{AppContextSnapshot, bare_context, unloaded_app_context}
use celery_diagnostics_obser.Coverage.{CoverageSource, source_of, step_if}

-- "; ".join(parts)
unfoldable pub joined_by : String → List String → String
joined_by separator [] = ""
joined_by separator (s ∷ []) = s
joined_by separator (s ∷ t ∷ ss) = concat s (concat separator (joined_by separator (t ∷ ss)))

-- _count_label
unfoldable pub count_label : Runtime → ℕ → String → String
unfolding to_text
count_label rt count noun =
    concat (to_text rt (int (pos count)))
      (concat " " (concat noun (if count == 1 then "" else "s")))

abbrev pub count_part : Runtime → Option ℕ → String → List String
count_part rt none noun = []
count_part rt (some count) noun = count_label rt count noun ∷ []

-- a text, or another one if it is empty
abbrev pub text_or_else : String → String → String
text_or_else s default = if str_eq s "" then default else s

-- _routing_config_source
unfoldable pub routing_config_source : Runtime → AppContextSnapshot → CoverageSource
unfolding count_label joined_by
routing_config_source rt context =
    if not context.loaded
    then source_of "Routing config" "unknown" "Routing config requires app-aware observer context."
    else if not context.routing_config_known
    then source_of "Routing config" "unknown"
        "No safe routing config facts were found on the Celery app."
    else source_of "Routing config" "known" (
        text_or_else
          (joined_by "; " (
            count_part rt context.route_count "explicit route"
            ++ (count_part rt context.queue_count "configured queue"
                ++ step_if context.default_queue_configured "default queue configured")))
          "Routing config facts are available.")

abbrev pub or_zero : Option ℕ → ℕ
or_zero none = 0
or_zero (some n) = n

abbrev pub is_zero_count : Option ℕ → Bool
is_zero_count (some zero) = true
is_zero_count (some (suc n)) = false
is_zero_count none = false

-- _beat_schedule_source
unfoldable pub beat_schedule_source : Runtime → AppContextSnapshot → CoverageSource
unfolding count_label
beat_schedule_source rt context =
    if not context.loaded
    then source_of "Beat schedule" "unknown" "Beat schedule requires app-aware observer context."
    else if not context.beat_schedule_known
    then source_of "Beat schedule" "unknown"
        "No safe beat_schedule config was found on the Celery app."
    else source_of "Beat schedule"
        (if is_zero_count context.beat_schedule_entry_count then "empty" else "known")
        (count_label rt (or_zero context.beat_schedule_entry_count) "configured schedule entry")

abbrev pub timeout_source : Runtime → Option ℕ → CoverageSource
timeout_source rt none =
    source_of "Visibility timeout" "unknown"
      "broker_transport_options.visibility_timeout is not configured or not safely readable."
timeout_source rt (some n) =
    source_of "Visibility timeout" "known" (concat (to_text rt (int (pos n))) "s")

-- _visibility_timeout_source
unfoldable pub visibility_timeout_source : Runtime → AppContextSnapshot → CoverageSource
unfolding to_text
visibility_timeout_source rt context =
    if not context.loaded
    then source_of "Visibility timeout" "unknown"
        "Visibility timeout requires app-aware observer context."
    else timeout_source rt context.visibility_timeout

abbrev pub started_source : Option Bool → CoverageSource
started_source (some true) =
    source_of "task_track_started" "enabled"
      "Received-to-started gaps can be interpreted more safely."
started_source (some false) =
    source_of "task_track_started" "disabled" "Missing task-started events may be expected."
started_source none =
    source_of "task_track_started" "unknown" "task_track_started is not safely readable."

-- _task_track_started_source
unfoldable pub task_track_started_source : AppContextSnapshot → CoverageSource
task_track_started_source context =
    if not context.loaded
    then source_of "task_track_started" "unknown"
        "Task start tracking requires app-aware observer context."
    else started_source context.task_track_started

-- text.replace("\n", " ").replace("\r", " ")
unfoldable pub one_line : String → String
one_line String.[] = ""
one_line (String.◌∷◌ c s) =
    String.◌∷◌ (if code c == 10 || code c == 13 then " " else c) (one_line s)

-- _safe_error_label
unfoldable pub safe_error_label : String → String
unfolding one_line
safe_error_label value = take_text 120 (one_line value)

-- _normalize_app_context
unfoldable pub normalize_app_context :
    Option AppContextSnapshot → Bool → String → AppContextSnapshot
unfolding unloaded_app_context bare_context
normalize_app_context (some context) loaded error = context
normalize_app_context none loaded error =
    if not (str_eq error "")
    then bare_context false error
    else if loaded
    then bare_context true ""
    else unloaded_app_context

unfoldable pub app_context_source : AppContextSnapshot → CoverageSource
unfolding safe_error_label
app_context_source context =
    if not (str_eq context.error "")
    then source_of "App context" "failed"
        (concat "App context load failed: " (safe_error_label context.error))
    else if context.loaded
    then source_of "App context" "loaded" "App context was loaded in the observer process."
    else source_of "App context" "not_loaded" "No Celery app context is loaded."

unfoldable pub worker_topology_source : TelemetryPolicy → CoverageSource
worker_topology_source policy =
    if policy.enable_control_inspect
    then source_of "Worker topology" "limited"
        "Control inspect can provide active queues when reachable."
    else source_of "Worker topology" "unknown" "Worker active queues are not confirmed."
