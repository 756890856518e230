-- ===== src/Beat/Snapshots.antt =====
-- beat.py: the items and the snapshot of a schedule, and the entry that is due first.
use celery_diagnostics_obser.Prelude.{
  ℕ, pos, String, Bool, true, Option, none, some, List, [], ◌∷◌, length, take, str_eq, leb,
  if◌then◌else◌,
}
use celery_diagnostics_obser.Result.{Result, ok, err, type_error, value_error, Error, ◌>>=◌}
use celery_diagnostics_obser.Values.{
  Value, bool, int, float, str, list, dict, Items, nil, cons, Moment, Fields, end, ◌or◌,
}
use celery_diagnostics_obser.Values.Dict.{get}
use celery_diagnostics_obser.Runtime.{text_or_empty}
use celery_diagnostics_obser.Sanitizer.Labels.{◌&◌}
use celery_diagnostics_obser.Sanitizer.Events.{sanitize_celery_event}
use celery_diagnostics_obser.Beat.{
  ScheduleEntry, BeatRuntime, json_hash, as_utc, interval_seconds, schedule_type, schedule_text,
  entry_enabled, run_count, entry_hash, next_due_at,
}
use celery_diagnostics_obser.Beat.Entries.{Clocks, Adapter, int_or_null, schedule_id_of}

abbrev iso_or_blank : BeatRuntime → Option Moment → String
iso_or_blank bt none = ""
iso_or_blank bt (some m) = bt.isoformat m

-- the item of one entry
unfoldable pub schedule_item : Adapter → Clocks → Value → ScheduleEntry → String → Result Fields
unfolding schedule_id_of schedule_type schedule_text entry_enabled
schedule_item a now name entry task_name = do
  let rt = a.runtime
  let schedule_name = text_or_empty rt (name or entry.name or str task_name)
  let schedule_hash = entry_hash rt a.beat entry
  next_due ← next_due_at rt a.beat now.utc_now entry
  last_run ← as_utc rt entry.last_run_at
  count ← run_count rt entry.total_run_count
  seconds ← interval_seconds rt entry.schedule
  ok (
      ("schedule_id", str (schedule_id_of a schedule_name task_name))
      & ("schedule_name", str schedule_name)
      & ("task_name", str task_name)
      & ("schedule_type", str (schedule_type rt entry.schedule))
      & ("schedule_display", str (schedule_text entry.schedule))
      & ("schedule_hash", str schedule_hash)
      & ("schedule_version", str schedule_hash)
      & ("enabled", bool (entry_enabled entry))
      & ("queue", str (text_or_empty rt (get "queue" entry.options)))
      & ("routing_key", str (text_or_empty rt (get "routing_key" entry.options)))
      & ("exchange", str (text_or_empty rt (get "exchange" entry.options)))
      & ("next_due_at", str (iso_or_blank a.beat next_due))
      & ("last_run_at", str (iso_or_blank a.beat last_run))
      & ("total_run_count", int_or_null count)
      & ("interval_seconds", int_or_null seconds)
      & end)

-- the loop over the items
unfoldable pub schedule_items :
    Adapter → Clocks → List (Value × ScheduleEntry) → Result (List Fields)
schedule_items a now [] = ok []
schedule_items a now ((name, entry) ∷ items) =
    let task_name = text_or_empty a.runtime entry.task in
    let rest = schedule_items a now items in
    if str_eq task_name ""
    then rest
    else do item ← schedule_item a now name entry task_name; entries ← rest; ok (item ∷ entries)

-- MAX_SCHEDULE_SNAPSHOT_ENTRIES
abbrev pub max_schedule_snapshot_entries : ℕ
max_schedule_snapshot_entries = 200

-- A schedule: its items and its values, where it has such methods, and what len() gives.
pub record Schedule : Type 0 where
  pub items : Option (List (Value × ScheduleEntry))
  pub values : Option (List ScheduleEntry)
  pub size : Result ℕ

abbrev pub entries_of :
    Adapter → Clocks → Option (List (Value × ScheduleEntry)) → Result (List Fields)
entries_of a now none = ok []
entries_of a now (some items) = schedule_items a now (take max_schedule_snapshot_entries items)

-- _schedule_entries
unfoldable pub schedule_entries : Adapter → Clocks → Schedule → Result (List Fields)
schedule_entries a now schedule = entries_of a now schedule.items

-- _schedule_entry_count; an `AttributeError` is one of the other errors
unfoldable pub schedule_entry_count : Result ℕ → ℕ → Result ℕ
schedule_entry_count (ok n) fallback = ok n
schedule_entry_count (err type_error) fallback = ok fallback
schedule_entry_count (err value_error) fallback = ok fallback
schedule_entry_count (err (Error.other_error name)) fallback =
    if str_eq name "AttributeError" then ok fallback else err (Error.other_error name)
schedule_entry_count (err e) fallback = err e

unfoldable pub as_items : List Fields → Items
as_items [] = nil
as_items (m ∷ ms) = cons (dict m) (as_items ms)

-- the part of an item that the version of the schedule depends on
abbrev pub version_part : Fields → Fields
version_part item =
    ("schedule_id", get "schedule_id" item)
    & ("schedule_hash", get "schedule_hash" item)
    & ("enabled", get "enabled" item)
    & end

unfoldable pub version_items : List Fields → Items
version_items [] = nil
version_items (item ∷ items) = cons (dict (version_part item)) (version_items items)

-- the raw event of the snapshot
unfoldable pub snapshot_event : Adapter → Clocks → List Fields → ℕ → Fields
unfolding as_items version_items json_hash
snapshot_event a now entries total =
    ("type", str "beat-schedule-snapshot")
    & ("hostname", str a.config.observer_id)
    & ("timestamp", float now.timestamp)
    & ("beat_schedule_version", str (json_hash a.runtime a.beat (list (version_items entries))))
    & ("beat_schedule_entry_count", int (pos total))
    & ("beat_schedule_snapshot_complete", bool (leb total (length entries)))
    & ("beat_schedule_entries", list (as_items entries))
    & end

unfoldable pub snapshot_raw : Adapter → Clocks → Schedule → Result Fields
snapshot_raw a now schedule = do
  entries ← schedule_entries a now schedule
  total ← schedule_entry_count schedule.size (length entries)
  ok (snapshot_event a now entries total)

-- the payload of _cd_emit_schedule_snapshot
unfoldable pub snapshot_payload : Adapter → Clocks → Schedule → Result (Option Fields)
snapshot_payload a now schedule = do
  raw ← snapshot_raw a now schedule
  sanitize_celery_event a.runtime a.config a.policy now.sanitized_at (dict raw)

abbrev first_due :
    Option (Result (Bool × Value)) → ScheduleEntry → Option ScheduleEntry → Option ScheduleEntry
first_due (some (ok (true, next))) entry rest = some entry
first_due called entry rest = rest

unfoldable pub first_due_of : List ScheduleEntry → Option ScheduleEntry
first_due_of [] = none
first_due_of (entry ∷ entries) = first_due entry.is_due entry (first_due_of entries)

abbrev pub due_among : Option (List ScheduleEntry) → Option ScheduleEntry
due_among none = none
due_among (some entries) = first_due_of (take max_schedule_snapshot_entries entries)

-- _first_due_entry
unfoldable pub first_due_entry : Schedule → Option ScheduleEntry
unfolding first_due_of
first_due_entry schedule = due_among schedule.values
