-- ===== src/Cli/Observe/Gated.antt =====
-- cli.py: what has been checked before a loop of `observe` is started.
use celery_diagnostics_obser.Prelude.{
  String, Bool, true, false, List, [], ◌∷◌, ◌++◌, str_eq, ◌≡◌, refl, if_cases, Bool-cases, inl, inr,
  ap, sym, ◌∙◌, eq_iff,
}
use celery_diagnostics_obser.Result.{Result, Error, ok, err}
use celery_diagnostics_obser.Values.{Fields}
use celery_diagnostics_obser.Policy.{TelemetryPolicy}
use celery_diagnostics_obser.Config.{ObserverConfig}
use celery_diagnostics_obser.Config.Settings.{validate_ingest_transport}
use celery_diagnostics_obser.AppLoader.{load_celery_app}
use celery_diagnostics_obser.Samplers.Queues.{sample_once}
use celery_diagnostics_obser.Sanitizer.Snapshots.{sanitize_observer_heartbeat}
use celery_diagnostics_obser.Cli.{Machine, config_from_args, policy_of, identity_config_error}
use celery_diagnostics_obser.Transport.Returns.{raised}
use celery_diagnostics_obser.Cli.Observe.{
  Action, enqueued, printed, started, stopped, received, flushed, ObserveWorld, Observed,
  enqueue_all, enqueue_then, dry_run, dry_run_sample_events, one_event, refused, serve, serve_if,
  refused_if, serve_app, lacks_broker, observe_valid, observe_transport, observe_keyed,
  observe_config, observe,
}
use celery_diagnostics_obser.Cli.Observe.Order.{InOrder, serve-InOrder, exit_of_ok}

-- one of the loops is started, or the receiver is run
abbrev pub is_live : List Action → Bool
is_live [] = false
is_live (started s ∷ actions) = true
is_live (received ∷ actions) = true
is_live (enqueued v ∷ actions) = is_live actions
is_live (printed text ∷ actions) = is_live actions
is_live (stopped s ∷ actions) = is_live actions
is_live (flushed ∷ actions) = is_live actions

enqueue_all-not_live :
    (events : List Fields) (actions : List Action)
    → is_live (enqueue_all events ++ actions) ≡ is_live actions
enqueue_all-not_live [] actions = refl
enqueue_all-not_live (e ∷ es) actions = enqueue_all-not_live es actions

module _ (m : Machine) (w : ObserveWorld) where
  -- All that is checked before the loops are started, and what is done then.
  pub record Gated (args : Fields) (outcome : Observed) : Type 0 where
    pub config : ObserverConfig
    pub configured : config_from_args m args ≡ ok config
    pub key_fits : identity_config_error m.runtime config (policy_of m config) ≡ ok ""
    pub safe_ingest : validate_ingest_transport m.urls m.runtime config ≡ ok tt
    pub not_dry : config.dry_run ≡ false
    pub has_key : str_eq config.project_key "" ≡ false
    pub has_broker : lacks_broker config ≡ false
    pub app : m.loader.Object
    pub app_loaded : load_celery_app m.loader config ≡ ok app
    pub in_order : InOrder (outcome.1)
    pub exit : outcome.0 ≡ ok 0 → (raised w.receiver_end ≡ false) × (raised w.last_flush ≡ false)

  module _ (args : Fields) where
    IfLive : Observed → Type 0
    IfLive outcome = is_live (outcome.1) ≡ true → Gated args outcome

    IsQuiet : Observed → Type 0
    IsQuiet outcome = is_live (outcome.1) ≡ false

    quiet : (outcome : Observed) → IsQuiet outcome → IfLive outcome
    unfolding IfLive IsQuiet
    quiet outcome still live = let wrong = sym still ∙ live in cc

    enqueue_then-not_live :
        (events : Result (List Fields)) (rest : Observed)
        → IsQuiet rest
        → IsQuiet (enqueue_then events rest)
    unfolding IsQuiet
    enqueue_then-not_live (err e) rest h = refl
    enqueue_then-not_live (ok events) (result, actions) h = enqueue_all-not_live events actions ∙ h

    no_action : IsQuiet (ok 0, [])
    unfolding IsQuiet
    no_action = refl

    refused-not_live : (text : String) → IsQuiet (refused text)
    unfolding IsQuiet
    refused-not_live text = refl

    raised-not_live : (e : Error) → IsQuiet (err e, [])
    unfolding IsQuiet
    raised-not_live e = refl

    dry_run-not_live :
        (config : ObserverConfig) (policy : TelemetryPolicy) → IsQuiet (dry_run m w config policy)
    unfolding dry_run
    dry_run-not_live config policy =
        enqueue_then-not_live (dry_run_sample_events m.runtime w config policy) _ (
          enqueue_then-not_live
            (one_event (
              sanitize_observer_heartbeat m.runtime config policy w.now w.python_version
                w.new_transport "healthy" []))
            _
            (enqueue_then-not_live
              (sample_once m.runtime config policy w.queue_now w.sampled_at w.client) _ no_action))

    refused_if-not_live : (summary : Result String) → IsQuiet (refused_if summary)
    refused_if-not_live (err e) = raised-not_live e
    refused_if-not_live (ok summary) = refused-not_live summary

    module _ (config : ObserverConfig) (configured : config_from_args m args ≡ ok config)
        (key_fits : identity_config_error m.runtime config (policy_of m config) ≡ ok "")
        (safe_ingest : validate_ingest_transport m.urls m.runtime config ≡ ok tt)
        (not_dry : config.dry_run ≡ false) (has_key : str_eq config.project_key "" ≡ false)
        (has_broker : lacks_broker config ≡ false) where
      serve_if-IfLive :
          (app : m.loader.Object) (summary : Result String)
          → load_celery_app m.loader config ≡ ok app
          → IfLive (serve_if m w summary)
      unfolding IfLive serve
      serve_if-IfLive app (err e) loaded = quiet _ (raised-not_live e)
      serve_if-IfLive app (ok summary) loaded = λ live. record {
        config = config;
        configured = configured;
        key_fits = key_fits;
        safe_ingest = safe_ingest;
        not_dry = not_dry;
        has_key = has_key;
        has_broker = has_broker;
        app = app;
        app_loaded = loaded;
        in_order = serve-InOrder m w summary;
        exit = exit_of_ok w.receiver_end w.last_flush;
      }

      serve_app-IfLive :
          (loaded : Result m.loader.Object)
          → load_celery_app m.loader config ≡ loaded
          → IfLive (serve_app m w config loaded)
      serve_app-IfLive (err e) h = quiet _ (refused_if-not_live _)
      serve_app-IfLive (ok app) h = serve_if-IfLive app _ h

    module _ (config : ObserverConfig) (configured : config_from_args m args ≡ ok config)
        (key_fits : identity_config_error m.runtime config (policy_of m config) ≡ ok "") where
      observe_valid-IfLive :
          validate_ingest_transport m.urls m.runtime config ≡ ok tt
          → IfLive (observe_valid m w config)
      unfolding observe_valid
      observe_valid-IfLive safe =
          if_cases IfLive config.dry_run (λ dry. quiet _ (dry_run-not_live config _))
            (λ not_dry.
              if_cases IfLive (str_eq config.project_key "")
                (λ no_key. quiet _ (refused-not_live _))
                (λ has_key.
                  if_cases IfLive (lacks_broker config) (λ no_broker. quiet _ (refused-not_live _))
                    (λ has_broker.
                      serve_app-IfLive config configured key_fits safe not_dry has_key has_broker _
                        refl)))

      observe_transport-IfLive :
          (checked : Result (Unit {0}))
          → validate_ingest_transport m.urls m.runtime config ≡ checked
          → IfLive (observe_transport m w config checked)
      observe_transport-IfLive (err e) h = quiet _ (raised-not_live e)
      observe_transport-IfLive (ok tt) h = observe_valid-IfLive h

    observe_keyed-IfLive :
        (config : ObserverConfig) (text : Result String)
        → config_from_args m args ≡ ok config
        → identity_config_error m.runtime config (policy_of m config) ≡ text
        → IfLive (observe_keyed m w config text)
    observe_keyed-IfLive config (err e) configured h = quiet _ (raised-not_live e)
    observe_keyed-IfLive config (ok text) configured h = elim (Bool-cases (str_eq text "")) [
      | inl empty ↦
          rw empty (
            observe_transport-IfLive config configured (h ∙ ap ok ((eq_iff text "").0 empty)) _
              refl)
      | inr given ↦ rw given (quiet _ (refused-not_live text))
    ]

    observe_config-IfLive :
        (made : Result ObserverConfig)
        → config_from_args m args ≡ made
        → IfLive (observe_config m w made)
    observe_config-IfLive (err e) h = quiet _ (raised-not_live e)
    observe_config-IfLive (ok config) h = observe_keyed-IfLive config _ h refl

    -- If `observe` starts one of its loops or runs the receiver, then the settings were made, the
    -- identity key fits the policy, the ingest URL is safe, it is no dry run, there is a project key,
    -- there is a broker or the mode is not standalone, and the app was loaded; it starts each loop
    -- once before the receiver runs, stops each once after the receiver has ended, also by an
    -- exception, and flushes the transport at last; and the exit code is 0 only if neither the
    -- receiver nor that flush raised.
    pub observe-Gated : is_live ((observe m w args).1) ≡ true → Gated args (observe m w args)
    unfolding observe IfLive
    observe-Gated live = observe_config-IfLive (config_from_args m args) refl live
