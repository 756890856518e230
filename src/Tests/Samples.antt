-- ===== src/Tests/Samples.antt =====
-- A configuration, events, and JSON for events that carry one text.
use celery_diagnostics_obser.Prelude.{
  ℕ, zero, suc, if◌then◌else◌, ◌≡◌, refl, String, true, false, Option, none, some, Bool-cases,
  subst, sym, ap, inl, inr, [], ◌∷◌, str_eq, eq_iff,
}
use celery_diagnostics_obser.Result.{err, ok, value_error}
use celery_diagnostics_obser.Runtime.{Runtime}
use celery_diagnostics_obser.Policy.{TelemetryPolicy}
use celery_diagnostics_obser.Values.{Value, str, dict, Fields, end, field}
use celery_diagnostics_obser.Values.Dict.{get?}
use celery_diagnostics_obser.Config.{ObserverConfig}
use celery_diagnostics_obser.Spool.{Json}
use celery_diagnostics_obser.Spool.Contents.{JsonLaws}

abbrev pub sample_config : ObserverConfig
sample_config = record {
  broker_url = "redis://127.0.0.1/0";
  queues = "celery" ∷ "mail" ∷ [];
  project_key = "pk_test";
  ingest_url = "https://ingest.example";
  telemetry_policy = "readable";
  identity_key = "0123456789abcdef";
  mode = "standalone";
  app = "";
  observer_id = "observer-1";
  sample_interval = 10_000_000;
  inspect_interval = 30_000_000;
  batch_size = 2;
  flush_interval = 5_000_000;
  spool_path = "";
  log_level = "INFO";
  dry_run = false;
  print_sanitized_events = false;
  active_probes = true;
  broker_message_scan_limit = 10_000;
}

abbrev pub event : String → Fields
event uuid = field "type" (str "task-sent") (field "uuid" (str uuid) end)

-- The JSON of an event is its uuid, if that is a text, and nothing else of it.
abbrev only_uuid : Option Value → Fields
only_uuid (some (str s)) = field "uuid" (str s) end
only_uuid _ = end

abbrev pub sample_canon : Fields → Fields
sample_canon e = only_uuid (get? "uuid" e)

abbrev uuid_text : Option Value → String
uuid_text (some (str s)) = String.◌∷◌ "u" s
uuid_text _ = ""

abbrev sample_loads : String → Option Value
sample_loads String.[] = some (dict end)
sample_loads (String.◌∷◌ c s) = some (dict (field "uuid" (str s) end))

abbrev pub sample_json : Json
sample_json = record { dumps = λ e. uuid_text (get? "uuid" e); loads = sample_loads }

loads-uuid_text : (o : Option Value) → sample_loads (uuid_text o) ≡ some (dict (only_uuid o))
loads-uuid_text none = refl
loads-uuid_text (some (str s)) = refl
loads-uuid_text (some _) = refl

only_uuid-only_uuid : (o : Option Value) → only_uuid (get? "uuid" (only_uuid o)) ≡ only_uuid o
unfolding get?
only_uuid-only_uuid none = refl
only_uuid-only_uuid (some (str s)) = refl
only_uuid-only_uuid (some _) = refl

absent-only_uuid :
    (k : String) (o : Option Value) → str_eq "uuid" k ≡ false → get? k (only_uuid o) ≡ none
unfolding get?
absent-only_uuid k none h = refl
absent-only_uuid k (some (str s)) h = rw h
absent-only_uuid k (some _) h = refl

sample_absent : (k : String) (e : Fields) → get? k e ≡ none → get? k (sample_canon e) ≡ none
unfolding get?
sample_absent k e h = elim (Bool-cases (str_eq "uuid" k)) [
  | inl same ↦
      ap (λ o. get? k (only_uuid o))
        (subst (λ j. get? j e ≡ none) (sym ((eq_iff "uuid" k).0 same)) h)
  | inr differs ↦ absent-only_uuid k (get? "uuid" e) differs
]

pub sample_laws : JsonLaws sample_json sample_canon
sample_laws = record {
  loads-dumps = λ e. loads-uuid_text (get? "uuid" e);
  canon-canon = λ e. only_uuid-only_uuid (get? "uuid" e);
  canon_absent = sample_absent;
}

abbrev pub drop_text : ℕ → String → String
drop_text zero s = s
drop_text (suc n) String.[] = ""
drop_text (suc n) (String.◌∷◌ c s) = drop_text n s

abbrev pub digits : String → String
digits key =
    if str_eq key "0123456789abcdef" then "9f9f5111f7b27a781f1f" else "0000000000000000aaaa"

-- A runtime without numbers and dates: tokens show what they refer to, and JSON holds one dictionary.
abbrev pub runtime : Fields → Runtime
runtime decoded = record {
  lower_wide = λ c. "";
  upper_wide = λ c. "";
  text_of = λ v. "";
  int_of_text = λ s. none;
  int_of_bytes = λ b. none;
  int_of_float = λ b. err value_error;
  float_of_text = λ s. none;
  float_of_bytes = λ b. none;
  float_of_int = λ n. err value_error;
  from_timestamp = λ b. err value_error;
  from_isoformat = λ s. none;
  iso_utc = λ m. ok "1970-01-01T00:00:00+00:00";
  to_utc = λ m. err value_error;
  hmac_token = λ key message. drop_text 19 message;
  sha256_hex = digits;
  encrypt = λ key text. text;
  decrypt = λ key text. some text;
  dumps = λ m. "{}";
  loads = λ s. some (dict decoded);
}

abbrev pub local_policy : TelemetryPolicy
local_policy = record {
  name = "local-only";
  send_task_names = false;
  send_queue_names = false;
  send_routing_labels = false;
  send_worker_names = false;
  collect_exception_type = true;
  collect_exception_module = false;
  enable_redis_queue_snapshots = true;
  enable_control_inspect = true;
  collect_runtime_details = true;
}
