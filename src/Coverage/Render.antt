-- ===== src/Coverage/Render.antt =====
-- coverage.py: the texts of the reports.
pub mod Secrets
use celery_diagnostics_obser.Prelude.{
  ℕ, pos, ◌/◌, ◌%◌, ◌==◌, String, Bool, true, false, ◌&&◌, ◌||◌, not, List, [], ◌∷◌, ◌++◌, map,
  str_eq, concat, if◌then◌else◌,
}
use celery_diagnostics_obser.Result.{Result, ok, ◌>>=◌}
use celery_diagnostics_obser.Values.{int}
use celery_diagnostics_obser.Runtime.{Runtime, to_text}
use celery_diagnostics_obser.Config.{ObserverConfig}
use celery_diagnostics_obser.Sanitizer.Urls.{UrlLibrary, redact_url}
use celery_diagnostics_obser.AppLoader.{is_app_aware}
use celery_diagnostics_obser.Coverage.{CoverageSource, BlockedClaim, CoverageReport}
use celery_diagnostics_obser.Coverage.Sources.{joined_by, text_or_else}

-- _source_line
unfoldable pub source_line : CoverageSource → String
source_line source = concat "- " (
    concat source.label (
      concat ": " (
        concat source.status (if str_eq source.detail "" then "" else concat " - " source.detail))))

-- _source_lines
unfoldable pub source_lines : CoverageReport → List String
unfolding source_line
source_lines report = map source_line (
    report.redis_broker_sampling ∷ report.celery_event_stream ∷ report.app_context
    ∷ report.worker_topology ∷ report.routing_config ∷ report.beat_schedule
    ∷ report.visibility_timeout ∷ report.task_track_started ∷ report.producer_publish_tracking ∷ [])

abbrev or_none_line : List String → List String
or_none_line [] = "- none" ∷ []
or_none_line (line ∷ lines) = line ∷ lines

-- _bullet_lines
unfoldable pub bullet_lines : List String → List String
bullet_lines items = or_none_line (map (λ item. concat "- " item) items)

-- _blocked_lines
unfoldable pub blocked_lines : List BlockedClaim → List String
blocked_lines items =
    or_none_line (map (λ item. concat "- " (concat item.claim (concat ": " item.reason))) items)

-- _mode_label
unfoldable pub mode_label : ObserverConfig → String
mode_label config = if is_app_aware config then "enhanced" else "basic"

-- _format_seconds, of microseconds; `tenths` prints a number of seconds with one decimal place
unfoldable pub format_seconds : Runtime → (ℕ → String) → ℕ → String
unfolding to_text
format_seconds rt tenths micros =
    if micros % 1_000_000 == 0
    then concat (to_text rt (int (pos (micros / 1_000_000)))) "s"
    else concat (tenths micros) "s"

-- _yes_no
abbrev pub yes_no : Bool → String
yes_no true = "yes"
yes_no false = "no"

-- bool(text)
abbrev pub is_given : String → Bool
is_given s = not (str_eq s "")

startup_lines :
    Runtime → (ℕ → String) → ObserverConfig → CoverageReport → String → String → List String
unfolding source_lines bullet_lines blocked_lines mode_label format_seconds
startup_lines rt tenths config report broker ingest =
    "Celery Diagnostics Observer"
    ∷ ""
    ∷ concat "Mode: " (mode_label config)
    ∷ concat "Broker: " (text_or_else broker "not configured")
    ∷ concat "Ingest: " (text_or_else ingest "not configured")
    ∷ concat "Sample interval: " (format_seconds rt tenths config.sample_interval)
    ∷ concat "Telemetry policy: " config.telemetry_policy
    ∷ ""
    ∷ "Telemetry sources:"
    ∷ (source_lines report
        ++ ("" ∷ concat "Diagnostic level: " report.diagnostic_level ∷ "" ∷ "CD can detect:" ∷ []
            ++ (bullet_lines report.safe_claims
                ++ ("" ∷ "CD will not claim yet:" ∷ []
                    ++ (blocked_lines report.blocked_claims
                        ++ ("" ∷ "Reason:" ∷ "Required telemetry is missing for stronger claims."
                            ∷ []))))))

-- render_startup_summary
unfoldable pub render_startup_summary :
    UrlLibrary → Runtime → (ℕ → String) → ObserverConfig → CoverageReport → Result String
unfolding startup_lines joined_by
render_startup_summary lib rt tenths config report = do
  broker ← redact_url lib rt config.broker_url
  ingest ← redact_url lib rt config.ingest_url
  ok (joined_by "\n" (startup_lines rt tenths config report broker ingest))

doctor_lines : ObserverConfig → CoverageReport → String → String → List String
unfolding source_lines bullet_lines blocked_lines
doctor_lines config report broker ingest =
    "Celery Diagnostics Doctor"
    ∷ ""
    ∷ "Connectivity:"
    ∷ concat "- Broker configured: " (yes_no (is_given config.broker_url))
    ∷ concat "- Broker URL: " (text_or_else broker "not configured")
    ∷ concat "- Ingest configured: " (yes_no (is_given config.ingest_url))
    ∷ concat "- Ingest URL: " (text_or_else ingest "not configured")
    ∷ concat "- Project key configured: " (yes_no (is_given config.project_key))
    ∷ ""
    ∷ "Telemetry sources:"
    ∷ (source_lines report
        ++ ("" ∷ concat "Diagnostic level: " report.diagnostic_level ∷ "" ∷ "Safe claims:" ∷ []
            ++ (bullet_lines report.safe_claims
                ++ ("" ∷ "Blocked claims:" ∷ []
                    ++ (blocked_lines report.blocked_claims
                        ++ ("" ∷ "Next steps:" ∷ [] ++ bullet_lines report.next_steps))))))

-- render_doctor_report
unfoldable pub render_doctor_report :
    UrlLibrary → Runtime → ObserverConfig → CoverageReport → Result String
unfolding doctor_lines joined_by
render_doctor_report lib rt config report = do
  broker ← redact_url lib rt config.broker_url
  ingest ← redact_url lib rt config.ingest_url
  ok (joined_by "\n" (doctor_lines config report broker ingest))

-- render_status_report
unfoldable pub render_status_report : ObserverConfig → CoverageReport → String
unfolding mode_label joined_by
render_status_report config report = joined_by "\n" (
    "Celery Diagnostics Status"
    ∷ ""
    ∷ concat "Observer configured: "
        (yes_no (is_given config.broker_url || is_given config.ingest_url))
    ∷ concat "Broker configured: " (yes_no (is_given config.broker_url))
    ∷ concat "Mode: " (mode_label config)
    ∷ concat "Telemetry policy: " config.telemetry_policy
    ∷ concat "Diagnostic level: " report.diagnostic_level
    ∷ ""
    ∷ "Run `celery-diagnostics doctor` for detailed telemetry coverage."
    ∷ [])
