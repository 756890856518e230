-- ===== src/Config/Settings/Valid.antt =====
-- config.py: what holds of all settings that are made.
use celery_diagnostics_obser.Prelude.{
  ◌≤◌, String, Bool, true, [], ◌≡◌, refl, arith, if◌then◌else◌, if_cases,
}
use celery_diagnostics_obser.Result.{ok, Returns, Returns->>=, Returns-ok, Returns_at}
use celery_diagnostics_obser.Values.{Value, str, ◌or◌, Fields}
use celery_diagnostics_obser.Runtime.{Runtime, to_text, lowered}
use celery_diagnostics_obser.Text.{strip, dashed}
use celery_diagnostics_obser.Policy.{normalize_policy_name, is_policy, policy_readable}
use celery_diagnostics_obser.Config.{ObserverConfig, mode_standalone}
use celery_diagnostics_obser.Config.Queues.{IsQueueList, parse_queues-parse_queues}
use celery_diagnostics_obser.Config.Numbers.{bounded_int_within}
use celery_diagnostics_obser.Config.Settings.{
  Process, Settings, mode_of, is_mode, observer_config, config_from_env,
}

-- Settings with one of the two modes and one of the two policies, with queues that are stripped, not
-- empty and without duplicates, and with whole numbers within their bounds.
pub record IsValid (config : ObserverConfig) : Type 0 where
  pub mode_known : is_mode config.mode ≡ true
  pub policy_known : is_policy config.telemetry_policy ≡ true
  pub queues_clean : IsQueueList [] config.queues
  pub batch_some : 1 ≤ config.batch_size
  pub batch_small : config.batch_size ≤ 1000
  pub scan_some : 1 ≤ config.broker_message_scan_limit
  pub scan_small : config.broker_message_scan_limit ≤ 100_000

-- a text that passes a test, or another that passes it
or_passing :
    (test : String → Bool) (s default : String)
    → test default ≡ true
    → test (if test s then s else default) ≡ true
or_passing test s default h = if_cases (λ r. test r ≡ true) (test s) (λ passes. passes) (λ fails. h)

module _ (rt : Runtime) where
  mode_of-known : (value : Value) → is_mode (mode_of rt value) ≡ true
  unfolding mode_of
  mode_of-known value =
      or_passing is_mode (dashed (lowered rt (strip (to_text rt (value or str mode_standalone)))))
        mode_standalone refl

  policy-known : (value : Value) → is_policy (normalize_policy_name rt value) ≡ true
  unfolding normalize_policy_name
  policy-known value =
      or_passing is_policy (dashed (lowered rt (strip (to_text rt (value or str policy_readable)))))
        policy_readable refl

  observer_config-IsValid :
      (process : Process) (s : Settings) → Returns IsValid (observer_config rt process s)
  unfolding observer_config
  observer_config-IsValid process s = Returns->>= IsValid _ _ (λ queues q.
      Returns->>= IsValid _ _ (λ sample e1. Returns->>= IsValid _ _ (λ inspect e2.
        Returns->>= IsValid _ _ (λ batch b. Returns->>= IsValid _ _ (λ flush e3.
          Returns->>= IsValid _ _ (λ scan c.
            let batch_in = bounded_int_within rt s.batch_size 50 1 1000 batch (omega arith) b in
            let scan_in =
              bounded_int_within rt s.broker_message_scan_limit 10_000 1 100_000 scan (omega arith)
                c in
            Returns-ok IsValid _ (record {
              mode_known = mode_of-known s.mode;
              policy_known = policy-known s.telemetry_policy;
              queues_clean = (parse_queues-parse_queues rt s.queues queues q).0;
              batch_some = batch_in.0;
              batch_small = batch_in.1;
              scan_some = scan_in.0;
              scan_small = scan_in.1;
            })))))))

  -- Whatever the environment and the overrides hold, the settings that are made of them have one of
  -- the two modes and one of the two policies, queues that are stripped, not empty and without
  -- duplicates, a batch size from 1 to 1000 and a scan limit from 1 to 100,000.
  pub config_from_env-IsValid :
      (process : Process) (overrides : Fields) (config : ObserverConfig)
      → config_from_env rt process overrides ≡ ok config
      → IsValid config
  unfolding config_from_env
  config_from_env-IsValid process overrides config made =
      Returns_at IsValid _ config
        (Returns->>= IsValid _ _ (λ queues e. observer_config-IsValid process _)) made
