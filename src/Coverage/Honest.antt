-- ===== src/Coverage/Honest.antt =====
-- coverage.py and app_context.py: what a report says of an app's facts, and which steps it asks for.
use celery_diagnostics_obser.Prelude.{
  ℕ, zero, suc, ◌+◌, String, Bool, true, false, ◌&&◌, ◌||◌, not, Option, none, some, List, [], ◌∷◌,
  ◌++◌, str_eq, ltb, ◌==◌, ◌≡◌, ◌↔◌, refl, ap, sym, ◌∙◌, arith, if◌then◌else◌, length, one_if,
}
use celery_diagnostics_obser.Result.{Result, ok, ◌>>=◌, Returns, Returns_at}
use celery_diagnostics_obser.Values.Dict.{is_some}
use celery_diagnostics_obser.Runtime.{Runtime}
use celery_diagnostics_obser.Config.{ObserverConfig}
use celery_diagnostics_obser.Policy.{TelemetryPolicy}
use celery_diagnostics_obser.AppContext.{
  AppContextSnapshot, Conf, conf_get, inspect_celery_app, safe_count, safe_string, is_set,
  optional_bool, visibility_timeout,
}
use celery_diagnostics_obser.AppLoader.{is_app_aware}
use celery_diagnostics_obser.Coverage.{
  CoverageReport, CoverageSource, source_of, next_steps, step_if, is_true, app_step,
}
use celery_diagnostics_obser.Coverage.Report.{build_coverage_report, report_on}
use celery_diagnostics_obser.Coverage.Sources.{
  normalize_app_context, routing_config_source, beat_schedule_source, visibility_timeout_source,
  task_track_started_source, is_zero_count, timeout_source, started_source,
}

-- What the configuration says of the start of tasks.
abbrev pub started_status : Option Bool → String
started_status none = "unknown"
started_status (some true) = "enabled"
started_status (some false) = "disabled"

abbrev pub known_if : Bool → String
known_if b = if b then "known" else "unknown"

-- The four facts of a report, each by what stands in the configuration.
pub record Shows (rt : Runtime) (conf : Conf) (report : CoverageReport) : Type 0 where
  pub enhanced : report.diagnostic_level ≡ "Enhanced Observer"
  pub routing :
      report.routing_config.status
      ≡ known_if (
          not (str_eq (safe_string rt (conf_get conf "task_default_queue")) "")
          || (ltb 0 (safe_count (conf_get conf "task_routes"))
              || ltb 0 (safe_count (conf_get conf "task_queues"))))
  pub beat : report.beat_schedule.status ≡ (
      if not (is_set (conf_get conf "beat_schedule"))
      then "unknown"
      else if safe_count (conf_get conf "beat_schedule") == 0
      then "empty"
      else "known")
  pub timeout :
      (n : Option ℕ)
      → visibility_timeout rt (conf_get conf "broker_transport_options") ≡ ok n
      → report.visibility_timeout.status ≡ known_if (is_some n)
  pub started :
      report.task_track_started.status
      ≡ started_status (optional_bool rt (conf_get conf "task_track_started"))

status_if :
    (b : Bool) (x y : CoverageSource)
    → x.status ≡ "unknown"
    → y.status ≡ "known"
    → (if not b then x else y).status ≡ known_if b
status_if true x y h k = k
status_if false x y h k = h

beat_status_if :
    (b : Bool) (n : ℕ) (x : CoverageSource) (detail : String)
    → x.status ≡ "unknown"
    → (if not b
        then x
        else source_of "Beat schedule"
            (if is_zero_count (if b then some n else none) then "empty" else "known")
            detail).status
      ≡ (if not b then "unknown" else if n == 0 then "empty" else "known")
beat_status_if false n x detail h = h
beat_status_if true zero x detail h = refl
beat_status_if true (suc n) x detail h = ground arith

module _ (rt : Runtime) where
  timeout_status : (t n : Option ℕ) → t ≡ n → (timeout_source rt t).status ≡ known_if (is_some n)
  timeout_status none n e = rw (← e) refl
  timeout_status (some m) n e = rw (← e) refl

ok_same : (t n : Option ℕ) → ◌≡◌ {A = Result (Option ℕ)} (ok t) (ok n) → t ≡ n
ok_same t n e = cc

started_status_of : (t : Option Bool) → (started_source t).status ≡ started_status t
started_status_of none = refl
started_status_of (some true) = refl
started_status_of (some false) = refl

module _ (rt : Runtime) (conf : Conf) (config : ObserverConfig) (policy : TelemetryPolicy) where
  abbrev pub report_of : AppContextSnapshot → CoverageReport
  report_of context = build_coverage_report rt config policy (some context) false ""

  shown :
      (t : Option ℕ)
      → visibility_timeout rt (conf_get conf "broker_transport_options") ≡ ok t
      → Returns (λ context. Shows rt conf (report_of context)) (inspect_celery_app rt conf)
  unfolding inspect_celery_app build_coverage_report report_on normalize_app_context
      routing_config_source beat_schedule_source visibility_timeout_source task_track_started_source
      ◌>>=◌ Returns
  shown t read = rw read (record {
    enhanced = refl;
    routing = status_if _ _ _ refl refl;
    beat = beat_status_if _ _ _ _ refl;
    timeout = λ n e. timeout_status rt t n (ok_same t n (rw read at e));
    started = started_status_of _;
  })

  -- What the report says of a loaded app is what its configuration holds: the level is enhanced;
  -- the routing is known exactly if a default queue, a route or a queue is configured; the schedule
  -- is unknown, empty or known as it is unset, has no entry or has some; the visibility timeout is
  -- known exactly if a positive one is read; and the tracking of starts is enabled, disabled or
  -- unknown as it is configured.
  pub facts_reported :
      (t : Option ℕ) (context : AppContextSnapshot)
      → visibility_timeout rt (conf_get conf "broker_transport_options") ≡ ok t
      → inspect_celery_app rt conf ≡ ok context
      → Shows rt conf (report_of context)
  facts_reported t context read inspected =
      Returns_at (λ c. Shows rt conf (report_of c)) _ context (shown t read) inspected

-- The observer has all that it can have.
pub record IsEnhanced (config : ObserverConfig) (policy : TelemetryPolicy)
    (context : AppContextSnapshot) : Type 0 where
  pub has_broker : str_eq config.broker_url "" ≡ false
  pub no_error : str_eq context.error "" ≡ true
  pub app_aware : is_app_aware config ≡ true
  pub app_loaded : context.loaded ≡ true
  pub has_timeout : is_some context.visibility_timeout ≡ true
  pub tracks_start : is_true context.task_track_started ≡ true
  pub inspects : policy.enable_control_inspect ≡ true

length-step_if :
    (b : Bool) (step : String) (steps : List String)
    → length (step_if b step ++ steps) ≡ one_if b + length steps
length-step_if true step steps = omega arith
length-step_if false step steps = omega arith

no_step :
    (a e w l t s i : Bool)
    → one_if a
        + (one_if (not (e && (w && l)))
            + (one_if (l && not t) + (one_if (l && not s) + (one_if (not i) + 1))))
      ≡ 1
    → (a ≡ false) × (e ≡ true) × (w ≡ true) × (l ≡ true) × (t ≡ true) × (s ≡ true) × (i ≡ true)
no_step a e w l t s i h = ground arith

module _ (config : ObserverConfig) (context : AppContextSnapshot) where
  abbrev app_ready : Bool
  app_ready = str_eq context.error "" && (is_app_aware config && context.loaded)

  length-app_step :
      (steps : List String)
      → length (app_step config context ++ steps) ≡ one_if (not app_ready) + length steps
  length-app_step steps = ground arith

  module _ (policy : TelemetryPolicy) where
    length-next_steps :
        length (next_steps config policy context)
        ≡ one_if (str_eq config.broker_url "")
          + (one_if (not app_ready)
              + (one_if (context.loaded && not (is_some context.visibility_timeout))
                  + (one_if (context.loaded && not (is_true context.task_track_started))
                      + (one_if (not policy.enable_control_inspect) + 1))))
    unfolding next_steps
    length-next_steps = simp (length-step_if, length-app_step) refl

    -- The only next step of a report is to enable task events exactly if there is nothing else to
    -- do: a broker is set, the app of a project is loaded without an error, it has a visibility
    -- timeout and tracks the start of tasks, and the policy lets the observer ask the workers.
    pub nothing_left :
        (next_steps config policy context
          ≡ "enable Celery task events so the observer can see lifecycle transitions" ∷ [])
        ↔ IsEnhanced config policy context
    unfolding next_steps
    nothing_left = (
      λ h.
          let (a, e, w, l, t, s, i) = no_step _ _ _ _ _ _ _ (sym length-next_steps ∙ ap length h) in
          record {
            has_broker = a;
            no_error = e;
            app_aware = w;
            app_loaded = l;
            has_timeout = t;
            tracks_start = s;
            inspects = i;
          },
      λ h.
          rw
            (
              h.has_broker, h.no_error, h.app_aware, h.app_loaded, h.has_timeout, h.tracks_start,
              h.inspects,
            )
            refl,
    )
