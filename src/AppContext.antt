-- ===== src/AppContext.antt =====
-- app_context.py and app_loader.py: the facts that are read from the configuration of a Celery app.
use celery_diagnostics_obser.Prelude.{
  ℕ, zero, suc, pos, negsuc, ℤ, String, Bool, true, false, ◌||◌, not, Option, none, some, str_eq,
  length, ltb, if◌then◌else◌,
}
use celery_diagnostics_obser.Result.{Result, ok, err, Error, ◌>>=◌, class_name}
use celery_diagnostics_obser.Values.{
  Value, null, bool, str, bytes, list, tuple, dict, Items, nil, cons, Fields, end, field, truth,
}
use celery_diagnostics_obser.Values.Dict.{get}
use celery_diagnostics_obser.Text.{strip, length_text}
use celery_diagnostics_obser.Runtime.{Runtime, to_text, lowered}
use celery_diagnostics_obser.Sanitizer.Coerce.{parsed_int}

pub record AppContextSnapshot : Type 0 where
  pub loaded : Bool
  pub error : String
  pub routing_config_known : Bool
  pub route_count : Option ℕ
  pub queue_count : Option ℕ
  pub default_queue_configured : Bool
  pub beat_schedule_known : Bool
  pub beat_schedule_entry_count : Option ℕ
  pub visibility_timeout : Option ℕ
  pub task_track_started : Option Bool

-- `app.conf`: what each attribute is, or raises; `none` where the app has no `conf`.
abbrev pub Conf : Type 0
Conf = Option (String → Result Value)

abbrev pub or_none : Result Value → Value
or_none (err e) = null
or_none (ok v) = v

-- _conf_get
unfoldable pub conf_get : Conf → String → Value
conf_get none key = null
conf_get (some conf) key = or_none (conf key)

-- value in (None, "")
abbrev pub is_unset : Value → Bool
is_unset null = true
is_unset (str s) = str_eq s ""
is_unset v = false

abbrev pub if_positive : Option ℤ → Option ℕ
if_positive none = none
if_positive (some (negsuc n)) = none
if_positive (some (pos zero)) = none
if_positive (some (pos (suc n))) = some (suc n)

-- _positive_int
unfoldable pub positive_setting : Runtime → Value → Result (Option ℕ)
positive_setting rt value =
    if is_unset value then ok none else do parsed ← parsed_int rt value; ok (if_positive parsed)

-- _visibility_timeout
unfoldable pub visibility_timeout : Runtime → Value → Result (Option ℕ)
visibility_timeout rt (dict options) = positive_setting rt (get "visibility_timeout" options)
visibility_timeout rt _ = ok none

abbrev pub flag_of : String → Option Bool
flag_of normalized =
    if str_eq normalized "1"
      || (str_eq normalized "true" || (str_eq normalized "yes" || str_eq normalized "on"))
    then some true
    else if str_eq normalized "0"
        || (str_eq normalized "false" || (str_eq normalized "no" || str_eq normalized "off"))
    then some false
    else none

-- _optional_bool
unfoldable pub optional_bool : Runtime → Value → Option Bool
optional_bool rt (bool b) = some b
optional_bool rt value =
    if is_unset value then none else flag_of (lowered rt (strip (to_text rt value)))

unfoldable pub length_items : Items → ℕ
length_items nil = 0
length_items (cons v vs) = suc (length_items vs)

unfoldable pub length_dict : Fields → ℕ
length_dict end = 0
length_dict (field k v m) = suc (length_dict m)

-- _safe_count
unfoldable pub safe_count : Value → ℕ
safe_count null = 0
safe_count (dict m) = length_dict m
safe_count (str s) = length_text s
safe_count (bytes b) = length b
safe_count (list vs) = length_items vs
safe_count (tuple vs) = length_items vs
safe_count value = if truth value then 1 else 0

-- _safe_string
unfoldable pub safe_string : Runtime → Value → String
safe_string rt value = if is_unset value then "" else strip (to_text rt value)

-- value is not None
abbrev pub is_set : Value → Bool
is_set null = false
is_set v = true

-- inspect_celery_app
unfoldable pub inspect_celery_app : Runtime → Conf → Result AppContextSnapshot
inspect_celery_app rt conf = do
  let route_count = safe_count (conf_get conf "task_routes")
  let queue_count = safe_count (conf_get conf "task_queues")
  let default_queue = not (str_eq (safe_string rt (conf_get conf "task_default_queue")) "")
  let beat_schedule = conf_get conf "beat_schedule"
  timeout ← visibility_timeout rt (conf_get conf "broker_transport_options")
  ok (record {
    loaded = true;
    error = "";
    routing_config_known = default_queue || (ltb 0 route_count || ltb 0 queue_count);
    route_count = some route_count;
    queue_count = some queue_count;
    default_queue_configured = default_queue;
    beat_schedule_known = is_set beat_schedule;
    beat_schedule_entry_count =
        if is_set beat_schedule then some (safe_count beat_schedule) else none;
    visibility_timeout = timeout;
    task_track_started = optional_bool rt (conf_get conf "task_track_started");
  })

-- AppContextSnapshot(loaded=loaded, error=error), the other facts by default
unfoldable pub bare_context : Bool → String → AppContextSnapshot
bare_context loaded error = record {
  loaded = loaded;
  error = error;
  routing_config_known = false;
  route_count = none;
  queue_count = none;
  default_queue_configured = false;
  beat_schedule_known = false;
  beat_schedule_entry_count = none;
  visibility_timeout = none;
  task_track_started = none;
}

-- failed_app_context
unfoldable pub failed_app_context : Error → AppContextSnapshot
unfolding bare_context
failed_app_context e = bare_context false (class_name e)

-- unloaded_app_context
unfoldable pub unloaded_app_context : AppContextSnapshot
unfolding bare_context
unloaded_app_context = bare_context false ""
