-- ===== src/Beat/Entries.antt =====
-- beat.py: the evidence of one entry, and the snapshot of the schedule.
use celery_diagnostics_obser.Prelude.{
  ℕ, pos, String, true, Option, none, some, str_eq, if◌then◌else◌,
}
use celery_diagnostics_obser.Result.{Result, ok, err, type_error, ◌>>=◌}
use celery_diagnostics_obser.Values.{
  Value, null, bool, int, float, str, dict, Moment, Fields, end, field, truth, ◌or◌,
}
use celery_diagnostics_obser.Values.Dict.{get, set}
use celery_diagnostics_obser.Runtime.{Runtime, to_text, text_or_empty}
use celery_diagnostics_obser.Config.{ObserverConfig}
use celery_diagnostics_obser.Policy.{TelemetryPolicy}
use celery_diagnostics_obser.Sanitizer.Labels.{◌&◌}
use celery_diagnostics_obser.Sanitizer.Events.{sanitize_celery_event}
use celery_diagnostics_obser.Beat.{
  ScheduleEntry, BeatRuntime, json_hash, run_count, entry_hash, expected_fire_at,
}

-- The clocks that a step reads: the date in UTC, time.time() as a float, and the time as the
-- sanitizer writes it.
pub record Clocks : Type 0 where
  pub utc_now : Moment
  pub timestamp : ℕ
  pub sanitized_at : String

-- What the adapter is configured with.
pub record Adapter : Type 0 where
  pub runtime : Runtime
  pub beat : BeatRuntime
  pub config : ObserverConfig
  pub policy : TelemetryPolicy

-- An entry with its task id and headers, and the context of its evidence.
pub record Prepared : Type 0 where
  pub entry : ScheduleEntry
  pub context : Fields

abbrev pub int_or_null : Option ℕ → Value
int_or_null none = null
int_or_null (some n) = int (pos n)

-- number or 0
abbrev pub int_or_zero : Option ℕ → Value
int_or_zero none = int (pos 0)
int_or_zero (some n) = int (pos n)

-- dict(value or {}); a list of pairs counts as an error
abbrev pub dict_or_empty : Value → Result Fields
dict_or_empty (dict m) = ok m
dict_or_empty value = if truth value then err type_error else ok end

-- a dict with the entries of the second one set
unfoldable pub update : Fields → Fields → Fields
update m end = m
update m (field k v rest) = update (set k v m) rest

-- {"name": ..., "task_name": ...}
unfoldable pub schedule_id_of : Adapter → String → String → String
unfolding json_hash
schedule_id_of a schedule_name task_name =
    json_hash a.runtime a.beat
      (dict (("name", str schedule_name) & ("task_name", str task_name) & end))

unfoldable pub occurrence_key : Adapter → String → String → Option ℕ → String
unfolding json_hash
occurrence_key a schedule_id fire_at count = json_hash a.runtime a.beat (
    dict (
      ("schedule_id", str schedule_id)
      & ("scheduled_fire_at", str fire_at)
      & ("total_run_count", int_or_zero count)
      & end))

-- schedule_name or task_name
abbrev pub name_or : String → String → String
name_or schedule_name task_name = if str_eq schedule_name "" then task_name else schedule_name

-- the context of the evidence
unfoldable pub context_of : Adapter → Clocks → ScheduleEntry → String → Moment → Option ℕ → Fields
unfolding schedule_id_of occurrence_key
context_of a now entry task_id fire_at count =
    let rt = a.runtime in
    let schedule_name = text_or_empty rt entry.name in
    let task_name = text_or_empty rt entry.task in
    let schedule_id = schedule_id_of a schedule_name task_name in
    let schedule_hash = entry_hash rt a.beat entry in
    let fire_text = a.beat.isoformat fire_at in
    ("task_id", str task_id)
    & ("periodic_schedule_name", str (name_or schedule_name task_name))
    & ("periodic_schedule_id", str schedule_id)
    & ("periodic_schedule_hash", str schedule_hash)
    & ("periodic_schedule_version", str schedule_hash)
    & ("periodic_occurrence_key", str (occurrence_key a schedule_id fire_text count))
    & ("periodic_scheduled_fire_at", str fire_text)
    & ("periodic_task_lateness_ms", int (pos (a.beat.lateness now.utc_now fire_at)))
    & ("beat_hostname", str a.config.observer_id)
    & end

-- the headers that the task gets
unfoldable pub headers_of : Adapter → Fields → Fields
headers_of a context =
    ("celery_diagnostics_periodic", str "1")
    & ("celery_diagnostics_schedule_name", get "periodic_schedule_name" context)
    & ("celery_diagnostics_schedule_id", get "periodic_schedule_id" context)
    & ("celery_diagnostics_schedule_hash", get "periodic_schedule_hash" context)
    & ("celery_diagnostics_schedule_version", get "periodic_schedule_hash" context)
    & ("celery_diagnostics_occurrence_key", get "periodic_occurrence_key" context)
    & ("celery_diagnostics_scheduled_fire_at", get "periodic_scheduled_fire_at" context)
    & ("celery_diagnostics_beat_hostname", str a.config.observer_id)
    & end

-- options["headers"] = headers; options["task_id"] = task_id
unfoldable pub with_options : ScheduleEntry → Fields → String → ScheduleEntry
with_options entry headers task_id = record entry {
  options = set "task_id" (str task_id) (set "headers" (dict headers) entry.options);
}

-- str(options.get("task_id") or uuid.uuid4())
unfoldable pub task_id_of : Adapter → ScheduleEntry → String → String
task_id_of a entry fresh = to_text a.runtime (get "task_id" entry.options or str fresh)

-- _prepare_entry; `fresh` is the new uuid
unfoldable pub prepare_entry : Adapter → Clocks → String → ScheduleEntry → Result Prepared
unfolding context_of headers_of with_options update
prepare_entry a now fresh entry = do
  fire_at ← expected_fire_at a.runtime now.utc_now entry
  count ← run_count a.runtime entry.total_run_count
  let task_id = task_id_of a entry fresh
  let context = context_of a now entry task_id fire_at count
  headers ← dict_or_empty (get "headers" entry.options)
  ok (record {
    entry = with_options entry (update headers (headers_of a context)) task_id;
    context = context;
  })

abbrev pub exc_type_entry : Option String → Fields → Fields
exc_type_entry none raw = raw
exc_type_entry (some class) raw = set "exc_type" (str class) raw

-- the raw event of _periodic_task_payload; `failure` is the class of the exception
unfoldable pub periodic_event : Adapter → Clocks → String → Prepared → Option String → Fields
unfolding update
periodic_event a now event_type prepared failure =
    let options = prepared.entry.options in
    exc_type_entry failure (
      update
        (("type", str event_type)
          & ("uuid", get "task_id" prepared.context)
          & ("name", str (text_or_empty a.runtime prepared.entry.task))
          & ("queue", get "queue" options or get "routing_key" options or str "")
          & ("routing_key", get "routing_key" options or get "queue" options or str "")
          & ("exchange", get "exchange" options or str "")
          & ("timestamp", float now.timestamp)
          & ("is_periodic_task", bool true)
          & end)
        prepared.context)

-- _periodic_task_payload
unfoldable pub periodic_task_payload :
    Adapter → Clocks → String → Prepared → Option String → Result (Option Fields)
periodic_task_payload a now event_type prepared failure =
    sanitize_celery_event a.runtime a.config a.policy now.sanitized_at
      (dict (periodic_event a now event_type prepared failure))
