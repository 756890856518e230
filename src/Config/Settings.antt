-- ===== src/Config/Settings.antt =====
-- config.py: the settings, from the environment and from overrides.
pub mod Valid
use Prim.Native.Char.{code}
use celery_diagnostics_obser.Prelude.{
  ℕ, pos, String, Bool, true, false, ◌||◌, ◌&&◌, ◌==◌, not, Option, none, some, List, [], ◌∷◌,
  str_eq, concat, if◌then◌else◌,
}
use celery_diagnostics_obser.Result.{Result, ok, err, value_error, ◌>>=◌}
use celery_diagnostics_obser.Values.{Value, null, bool, int, float, str, list, Fields, truth, ◌or◌}
use celery_diagnostics_obser.Values.Dict.{get, get?, is_some}
use celery_diagnostics_obser.Text.{strip, upper, dashed}
use celery_diagnostics_obser.Runtime.{Runtime, to_text, text_or_empty, lowered}
use celery_diagnostics_obser.Policy.{normalize_policy_name, policy_readable}
use celery_diagnostics_obser.Config.{ObserverConfig, mode_standalone, mode_project_aware}
use celery_diagnostics_obser.Config.Queues.{parse_queues, texts, boolean}
use celery_diagnostics_obser.Config.Numbers.{bounded_int}
use celery_diagnostics_obser.Config.Bounds.{bounded_float}
use celery_diagnostics_obser.Sanitizer.Urls.{UrlLibrary, SplitUrl, some_text}

-- What the settings take from the process: the environment, the default observer id, the order of
-- floats, and a float of seconds as microseconds.
pub record Process : Type 0 where
  pub getenv : String → Option String
  pub default_observer_id : String
  pub less : ℕ → ℕ → Bool
  pub micros : ℕ → ℕ

-- The arguments of ObserverConfig(...).
pub record Settings : Type 0 where
  pub broker_url : Value
  pub queues : Value
  pub project_key : Value
  pub ingest_url : Value
  pub telemetry_policy : Value
  pub identity_key : Value
  pub mode : Value
  pub app : Value
  pub observer_id : Value
  pub sample_interval : Value
  pub inspect_interval : Value
  pub batch_size : Value
  pub flush_interval : Value
  pub spool_path : Value
  pub log_level : Value
  pub dry_run : Value
  pub print_sanitized_events : Value
  pub active_probes : Value
  pub broker_message_scan_limit : Value

-- mode in MODE_CHOICES
abbrev pub is_mode : String → Bool
is_mode s = str_eq s mode_standalone || str_eq s mode_project_aware

unfoldable pub mode_of : Runtime → Value → String
mode_of rt value =
    let mode = dashed (lowered rt (strip (to_text rt (value or str mode_standalone)))) in
    if is_mode mode then mode else mode_standalone

-- a float of seconds between the bounds, in microseconds
unfoldable pub interval : Runtime → Process → Value → ℕ → ℕ → ℕ → Result ℕ
interval rt process value default minimum maximum = do
  b ← bounded_float rt process.less value default minimum maximum
  ok (process.micros b)

-- the floats 0.1, 0.5, 1.0, 5.0, 10.0, 30.0 and 3600.0
abbrev pub float_0_1 : ℕ
float_0_1 = 0x3FB999999999999A

abbrev pub float_0_5 : ℕ
float_0_5 = 0x3FE0000000000000

abbrev pub float_1 : ℕ
float_1 = 0x3FF0000000000000

abbrev pub float_5 : ℕ
float_5 = 0x4014000000000000

abbrev pub float_10 : ℕ
float_10 = 0x4024000000000000

abbrev pub float_30 : ℕ
float_30 = 0x403E000000000000

abbrev pub float_3600 : ℕ
float_3600 = 0x40AC200000000000

-- ObserverConfig.__post_init__
unfoldable pub observer_config : Runtime → Process → Settings → Result ObserverConfig
unfolding mode_of interval
observer_config rt process s = do
  queues ← parse_queues rt s.queues
  sample_interval ← interval rt process s.sample_interval float_10 float_0_5 float_3600
  inspect_interval ← interval rt process s.inspect_interval float_30 float_1 float_3600
  batch_size ← bounded_int rt s.batch_size 50 1 1000
  flush_interval ← interval rt process s.flush_interval float_5 float_0_1 float_3600
  scan_limit ← bounded_int rt s.broker_message_scan_limit 10_000 1 100_000
  ok (record {
    broker_url = text_or_empty rt s.broker_url;
    queues = queues;
    project_key = text_or_empty rt s.project_key;
    ingest_url = to_text rt (s.ingest_url or str "http://127.0.0.1:8000");
    telemetry_policy = normalize_policy_name rt s.telemetry_policy;
    identity_key = text_or_empty rt s.identity_key;
    mode = mode_of rt s.mode;
    app = text_or_empty rt s.app;
    observer_id = to_text rt (s.observer_id or str process.default_observer_id);
    sample_interval = sample_interval;
    inspect_interval = inspect_interval;
    batch_size = batch_size;
    flush_interval = flush_interval;
    spool_path = text_or_empty rt s.spool_path;
    log_level = upper rt.upper_wide (to_text rt (s.log_level or str "INFO"));
    dry_run = truth s.dry_run;
    print_sanitized_events = truth s.print_sanitized_events;
    active_probes = truth s.active_probes;
    broker_message_scan_limit = scan_limit;
  })

abbrev pub some_or : Option String → Value → Value
some_or none default = default
some_or (some s) default = str s

-- value, or what the environment holds if it is None
abbrev pub unless_none : Value → Value → Value
unless_none null default = default
unless_none value default = value

abbrev pub value_or : Option Value → Value → Value
value_or none default = default
value_or (some v) default = v

-- config_from_env
unfoldable pub config_from_env : Runtime → Process → Fields → Result ObserverConfig
config_from_env rt process overrides = do
  let env = λ (name : String) (default : Value). some_or (process.getenv name) default
  queues ← parse_queues rt (unless_none (get "queues" overrides) (env "CD_QUEUES" (str "")))
  observer_config rt process (record {
    broker_url = get "broker_url" overrides or env "CELERY_BROKER_URL" (str "");
    queues = list (texts queues);
    project_key = env "CD_PROJECT_KEY" (str "");
    ingest_url = get "ingest_url" overrides or env "CD_INGEST_URL" (str "http://127.0.0.1:8000");
    telemetry_policy =
        get "telemetry_policy" overrides or env "CD_TELEMETRY_POLICY" (str policy_readable);
    identity_key = get "identity_key" overrides or env "CD_IDENTITY_KEY" (str "");
    mode = get "mode" overrides or env "CD_OBSERVER_MODE" (str mode_standalone);
    app = get "app" overrides or env "CELERY_APP" (str "");
    observer_id = get "observer_id" overrides or env "CD_OBSERVER_ID" (str "");
    sample_interval = get "sample_interval" overrides or env "CD_SAMPLE_INTERVAL" (float float_10);
    inspect_interval =
        get "inspect_interval" overrides or env "CD_INSPECT_INTERVAL" (float float_30);
    batch_size = get "batch_size" overrides or env "CD_BATCH_SIZE" (int (pos 50));
    flush_interval = get "flush_interval" overrides or env "CD_FLUSH_INTERVAL" (float float_5);
    spool_path = get "spool_path" overrides or env "CD_SPOOL_PATH" (str "");
    log_level = get "log_level" overrides or env "CD_LOG_LEVEL" (str "INFO");
    dry_run = value_or (get? "dry_run" overrides) (bool false);
    print_sanitized_events = value_or (get? "print_sanitized_events" overrides) (bool false);
    active_probes = bool (
        boolean rt (unless_none (get "active_probes" overrides) (env "CD_ACTIVE_PROBES" (str "1")))
          true);
    broker_message_scan_limit =
        get "broker_message_scan_limit" overrides
        or env "CD_BROKER_MESSAGE_SCAN_LIMIT" (int (pos 10_000));
  })

-- url.rstrip("/")
unfoldable pub strip_slashes : String → String
strip_slashes String.[] = ""
strip_slashes (String.◌∷◌ c s) =
    let rest = strip_slashes s in if str_eq rest "" && code c == b'/' then "" else String.◌∷◌ c rest

-- observer_events_url, probe_next_url, probe_result_url and identity_resolve_url
unfoldable pub observer_events_url : ObserverConfig → String
unfolding strip_slashes
observer_events_url config = concat (strip_slashes config.ingest_url) "/api/ingest/observer/events/"

unfoldable pub probe_next_url : ObserverConfig → String
unfolding strip_slashes
probe_next_url config = concat (strip_slashes config.ingest_url) "/api/ingest/observer/probes/next/"

unfoldable pub probe_result_url : ObserverConfig → String
unfolding strip_slashes
probe_result_url config =
    concat (strip_slashes config.ingest_url) "/api/ingest/observer/probes/result/"

unfoldable pub identity_resolve_url : ObserverConfig → String
unfolding strip_slashes
identity_resolve_url config =
    concat (strip_slashes config.ingest_url) "/api/ingest/observer/identities/"

-- host in {"127.0.0.1", "localhost", "::1"}
abbrev pub is_loopback : String → Bool
is_loopback host = str_eq host "127.0.0.1" || (str_eq host "localhost" || str_eq host "::1")

unfoldable pub is_safe_ingest : Runtime → SplitUrl → Bool
is_safe_ingest rt parsed =
    str_eq parsed.scheme "https"
    || (str_eq parsed.scheme "http" && is_loopback (lowered rt (some_text parsed.hostname)))

abbrev safe_or_error : Runtime → Option SplitUrl → Result (Unit {0})
safe_or_error rt none = err value_error
safe_or_error rt (some parsed) = if is_safe_ingest rt parsed then ok tt else err value_error

-- validate_ingest_transport
unfoldable pub validate_ingest_transport : UrlLibrary → Runtime → ObserverConfig → Result (Unit {0})
validate_ingest_transport lib rt config = safe_or_error rt (lib.urlsplit config.ingest_url)
