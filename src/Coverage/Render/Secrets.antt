-- ===== src/Coverage/Render/Secrets.antt =====
-- coverage.py: what the texts of the reports depend on.
use celery_diagnostics_obser.Prelude.{
  ℕ, String, Bool, Option, some, str_eq, ◌≡◌, refl, false, ap, ◌∙◌,
}
use celery_diagnostics_obser.Runtime.{Runtime}
use celery_diagnostics_obser.Config.{ObserverConfig}
use celery_diagnostics_obser.Policy.{TelemetryPolicy}
use celery_diagnostics_obser.AppContext.{AppContextSnapshot}
use celery_diagnostics_obser.AppLoader.{is_app_aware}
use celery_diagnostics_obser.ActiveProbes.Capabilities.{broker_type}
use celery_diagnostics_obser.Sanitizer.Urls.{SplitUrl, UrlLibrary, redact_url}
use celery_diagnostics_obser.Sanitizer.Credentials.{SameBarCredentials, credentials_hidden}
use celery_diagnostics_obser.Coverage.{CoverageReport, next_steps}
use celery_diagnostics_obser.Coverage.Report.{build_coverage_report, report_on, has_redis_broker}
use celery_diagnostics_obser.Coverage.Render.{
  startup_lines, render_startup_summary, doctor_lines, render_doctor_report, render_status_report,
  mode_label,
}

-- The same URL, or two that differ at most in credentials.
pub data SameUrl (lib : UrlLibrary) (rt : Runtime) (s t : String) : Type 0 where
  equal : s ≡ t → SameUrl lib rt s t
  bar_credentials :
      (u v : SplitUrl)
      → lib.urlsplit s ≡ some u
      → lib.urlsplit t ≡ some v
      → str_eq s "" ≡ false
      → str_eq t "" ≡ false
      → SameBarCredentials lib rt u v
      → SameUrl lib rt s t

-- Settings that differ at most in credentials of URLs, in the project key if both have one or
-- neither, in the identity key, and in what no report reads.
pub record SameBarSecrets (lib : UrlLibrary) (rt : Runtime) (c d : ObserverConfig) : Type 0 where
  pub brokers : SameUrl lib rt c.broker_url d.broker_url
  pub broker_types : broker_type rt c ≡ broker_type rt d
  pub ingests : SameUrl lib rt c.ingest_url d.ingest_url
  pub project_keys : str_eq c.project_key "" ≡ str_eq d.project_key ""
  pub modes : c.mode ≡ d.mode
  pub apps : c.app ≡ d.app
  pub policies : c.telemetry_policy ≡ d.telemetry_policy
  pub intervals : c.sample_interval ≡ d.sample_interval

module _ (lib : UrlLibrary) (rt : Runtime) where
  redact_url-SameUrl :
      (s t : String) → SameUrl lib rt s t → redact_url lib rt s ≡ redact_url lib rt t
  redact_url-SameUrl s t (equal e) = ap (redact_url lib rt) e
  redact_url-SameUrl s t (bar_credentials u v hs ht s_given t_given same) =
      (credentials_hidden lib rt s t u v hs ht s_given t_given same).1

  given-SameUrl : (s t : String) → SameUrl lib rt s t → str_eq s "" ≡ str_eq t ""
  given-SameUrl s t (equal e) = ap (λ x. str_eq x "") e
  given-SameUrl s t (bar_credentials u v hs ht s_given t_given same) = rw (s_given, t_given) refl

  module _ (tenths : ℕ → String) (c d : ObserverConfig) (same : SameBarSecrets lib rt c d) where
    redis-same : has_redis_broker rt c ≡ has_redis_broker rt d
    unfolding has_redis_broker
    redis-same = rw (same.broker_types) refl

    aware-same : is_app_aware c ≡ is_app_aware d
    unfolding is_app_aware
    aware-same = rw (same.modes, same.apps) refl

    steps-same :
        (policy : TelemetryPolicy) (context : AppContextSnapshot)
        → next_steps c policy context ≡ next_steps d policy context
    unfolding next_steps
    steps-same policy context = rw (given-SameUrl _ _ same.brokers, aware-same) refl

    report-same :
        (policy : TelemetryPolicy) (context : Option AppContextSnapshot) (loaded : Bool)
        (error : String)
        → build_coverage_report rt c policy context loaded error
          ≡ build_coverage_report rt d policy context loaded error
    unfolding build_coverage_report report_on
    report-same policy context loaded error = rw (redis-same, steps-same policy _) refl

    startup-same :
        (report : CoverageReport)
        → render_startup_summary lib rt tenths c report
          ≡ render_startup_summary lib rt tenths d report
    unfolding render_startup_summary startup_lines mode_label
    startup-same report =
        rw
          (
            redact_url-SameUrl _ _ same.brokers,
            redact_url-SameUrl _ _ same.ingests,
            aware-same,
            same.intervals,
            same.policies,
          )
          refl

    doctor-same :
        (report : CoverageReport)
        → render_doctor_report lib rt c report ≡ render_doctor_report lib rt d report
    unfolding render_doctor_report doctor_lines
    doctor-same report =
        rw
          (
            redact_url-SameUrl _ _ same.brokers,
            redact_url-SameUrl _ _ same.ingests,
            given-SameUrl _ _ same.brokers,
            given-SameUrl _ _ same.ingests,
            same.project_keys,
          )
          refl

    status-same :
        (report : CoverageReport) → render_status_report c report ≡ render_status_report d report
    unfolding render_status_report mode_label
    status-same report =
        rw
          (
            given-SameUrl _ _ same.brokers,
            given-SameUrl _ _ same.ingests,
            aware-same,
            same.policies,
          )
          refl

    -- Settings that differ at most in the credentials of their URLs, in the value of a project key
    -- that both have or neither, in the identity key and in what else no report shows, have the
    -- same coverage report and the same three texts, whatever the app's facts are. The URLs that
    -- differ are ones that urlsplit takes; credentials are the user's name, where both URLs name
    -- one or neither does, what else of the net location is neither host nor port, such as the
    -- password, and the values of secret keys of the query. The brokers are of the same type.
    pub reports_hide_secrets :
        (policy : TelemetryPolicy) (context : Option AppContextSnapshot) (loaded : Bool)
        (error : String)
        → let report = λ (config : ObserverConfig).
          build_coverage_report rt config policy context loaded error in
          (report c ≡ report d)
          × ((render_startup_summary lib rt tenths c (report c)
                ≡ render_startup_summary lib rt tenths d (report d))
              × ((render_doctor_report lib rt c (report c)
                    ≡ render_doctor_report lib rt d (report d))
                  × (render_status_report c (report c) ≡ render_status_report d (report d))))
    reports_hide_secrets policy context loaded error =
        let r = report-same policy context loaded error in
        (
          r,
          (
            startup-same _ ∙ ap (render_startup_summary lib rt tenths d) r,
            (
              doctor-same _ ∙ ap (render_doctor_report lib rt d) r,
              status-same _ ∙ ap (render_status_report d) r,
            ),
          ),
        )
