-- ===== src/Beat.antt =====
-- beat.py: the scheduler's entries, as the adapter reads them.
pub mod Startup
pub mod Runs
pub mod Snapshots
pub mod Errors
pub mod Entries
pub mod Scheduler
use celery_diagnostics_obser.Prelude.{
  ℕ, ℤ, pos, negsuc, zero, suc, ◌*◌, ◌/◌, ◌+ℤ◌, floor_to, int_ltb, String, Bool, true, false, ◌&&◌,
  ◌||◌, not, Option, none, some, List, [], ◌∷◌, str_eq, concat, if◌then◌else◌,
}
use celery_diagnostics_obser.Result.{
  Result, ok, err, type_error, value_error, overflow_error, Error, ◌>>=◌,
}
use celery_diagnostics_obser.Values.{
  Value, null, bool, int, float, str, bytes, dict, datetime, Moment, Fields, end, field, truth,
  ◌or◌,
}
use celery_diagnostics_obser.Values.Dict.{get}
use celery_diagnostics_obser.Text.{take_text, has_text}
use celery_diagnostics_obser.Runtime.{Runtime, text_or_empty, lowered}
use celery_diagnostics_obser.Sanitizer.Coerce.{parsed_int, at_least_0}
use celery_diagnostics_obser.Sanitizer.Labels.{◌&◌}
use celery_diagnostics_obser.AppContext.{if_positive}

-- `run_every` of a schedule: a timedelta in microseconds, or another value, `null` if there is none.
pub data RunEvery : Type 0 where
  delta : ℤ → RunEvery
  other : Value → RunEvery

-- A schedule object: the name of its class, its text, and `run_every`.
pub record ScheduleObject : Type 0 where
  pub type_name : String
  pub text : String
  pub run_every : RunEvery

-- An entry of the schedule. An attribute that is missing is `null` or `none`; `options` are a dict,
-- as Celery's entries make them. `is_due` is what a call of it gives: whether the entry is due and
-- when to check next, or an exception; `none` if it cannot be called.
pub record ScheduleEntry : Type 0 where
  pub name : Value
  pub task : Value
  pub options : Fields
  pub schedule : Option ScheduleObject
  pub last_run_at : Value
  pub total_run_count : Value
  pub enabled : Value
  pub model_enabled : Option Value
  pub is_due : Option (Result (Bool × Value))

-- What the adapter takes from the interpreter: JSON with sorted keys, dates and floats.
-- `lateness` is int(seconds * 1000) of a difference in microseconds, at least 0; `after` adds a float of seconds, and raises for a NaN; `is_far` says
-- that a float of seconds is negative or above a year.
pub record BeatRuntime : Type 0 where
  pub dumps : Value → String
  pub isoformat : Moment → String
  pub lateness : Moment → Moment → ℕ
  pub after : Moment → ℕ → Result Moment
  pub is_far : ℕ → Bool

-- _stable_hash
unfoldable pub json_hash : Runtime → BeatRuntime → Value → String
json_hash rt bt value = concat "sha256:" (rt.sha256_hex (bt.dumps value))

-- _as_utc
unfoldable pub as_utc : Runtime → Value → Result (Option Moment)
as_utc rt (datetime m) = elim m.offset [
  | none ↦ ok (some (record { micros = m.micros; offset = some (pos 0) }))
  | some o ↦ do micros ← rt.to_utc m; ok (some (record { micros = micros; offset = some (pos 0) }))
]
as_utc rt _ = ok none

abbrev pub seconds_of_delta : ℤ → Option ℕ
seconds_of_delta (pos micros) = if_positive (some (pos (micros / 1_000_000)))
seconds_of_delta (negsuc micros) = none

-- _interval_seconds of `run_every`
unfoldable pub interval_of : Runtime → RunEvery → Result (Option ℕ)
interval_of rt (delta micros) = ok (seconds_of_delta micros)
interval_of rt (other value) = do parsed ← parsed_int rt value; ok (if_positive parsed)

-- _interval_seconds
unfoldable pub interval_seconds : Runtime → Option ScheduleObject → Result (Option ℕ)
unfolding interval_of
interval_seconds rt none = ok none
interval_seconds rt (some schedule) = interval_of rt schedule.run_every

unfoldable pub type_of_name : String → String
type_of_name name =
    if has_text "crontab" name
    then "crontab"
    else if has_text "solar" name
    then "solar"
    else if has_text "clocked" name
    then "clocked"
    else if has_text "schedule" name
    then "interval"
    else take_text 64 name

-- _schedule_type
unfoldable pub schedule_type : Runtime → Option ScheduleObject → String
unfolding type_of_name
schedule_type rt none = ""
schedule_type rt (some schedule) = type_of_name (lowered rt schedule.type_name)

-- str(schedule or "")[:255]
unfoldable pub schedule_text : Option ScheduleObject → String
schedule_text none = ""
schedule_text (some schedule) = take_text 255 schedule.text

abbrev pub or_model : Value → Option Value → Value
or_model null (some value) = value
or_model value model = value

abbrev pub true_unless_set : Value → Bool
true_unless_set null = true
true_unless_set value = truth value

-- _entry_enabled
unfoldable pub entry_enabled : ScheduleEntry → Bool
entry_enabled entry = true_unless_set (or_model entry.enabled entry.model_enabled)

-- _non_negative_int
unfoldable pub run_count : Runtime → Value → Result (Option ℕ)
run_count rt value = do parsed ← parsed_int rt value; ok (at_least_0 parsed)

-- _entry_hash
unfoldable pub entry_hash : Runtime → BeatRuntime → ScheduleEntry → String
unfolding json_hash schedule_type schedule_text
entry_hash rt bt entry = json_hash rt bt (
    dict (
      ("name", str (text_or_empty rt entry.name))
      & ("task", str (text_or_empty rt entry.task))
      & ("schedule_type", str (schedule_type rt entry.schedule))
      & ("schedule", str (schedule_text entry.schedule))
      & (
        "options",
        dict (
            ("queue", get "queue" entry.options)
            & ("routing_key", get "routing_key" entry.options)
            & ("exchange", get "exchange" entry.options)
            & ("expires", get "expires" entry.options)
            & ("priority", get "priority" entry.options)
            & end),
      )
      & end))

-- the first microsecond after the year 9999
abbrev pub end_of_time : ℕ
end_of_time = 253_402_300_800_000_000

-- moment.replace(microsecond=0)
abbrev pub whole_second : Moment → Moment
whole_second m = record { micros = floor_to 1_000_000 m.micros; offset = m.offset }

-- moment + timedelta(seconds=n)
unfoldable pub plus_seconds : Moment → ℕ → Result Moment
plus_seconds m n =
    let micros = m.micros +ℤ n * 1_000_000 in
    if int_ltb micros (pos end_of_time)
    then ok (record { micros = micros; offset = m.offset })
    else err overflow_error

abbrev fire_after : Moment → Option Moment → Option ℕ → Result Moment
fire_after now (some last) (some seconds) = do m ← plus_seconds last seconds; ok (whole_second m)
fire_after now last seconds = ok (whole_second now)

-- _expected_fire_at
unfoldable pub expected_fire_at : Runtime → Moment → ScheduleEntry → Result Moment
unfolding plus_seconds
expected_fire_at rt now entry = do
  last_run_at ← as_utc rt entry.last_run_at
  seconds ← interval_seconds rt entry.schedule
  fire_after now last_run_at seconds

-- `TypeError`, `ValueError` and `OverflowError` are caught
abbrev pub but_number_errors : Result (Option ℕ) → Result (Option ℕ)
but_number_errors (err type_error) = ok none
but_number_errors (err value_error) = ok none
but_number_errors (err overflow_error) = ok none
but_number_errors r = r

-- float(next_check), 0.0 if the entry is due
unfoldable pub seconds_until : Runtime → Bool × Value → Result (Option ℕ)
seconds_until rt (true, next) = ok (some 0)
seconds_until rt (false, int n) = do b ← rt.float_of_int n; ok (some b)
seconds_until rt (false, bool b) = do f ← rt.float_of_int (if b then pos 1 else pos 0); ok (some f)
seconds_until rt (false, float b) = ok (some b)
seconds_until rt (false, str s) = ok (rt.float_of_text s)
seconds_until rt (false, bytes b) = ok (rt.float_of_bytes b)
seconds_until rt (false, _) = ok none

abbrev some_moment : Result Moment → Result (Option Moment)
some_moment r = do m ← r; ok (some m)

due_at : BeatRuntime → Moment → Option ℕ → Result (Option Moment)
due_at bt now none = ok none
due_at bt now (some seconds) =
    if bt.is_far seconds then ok none else some_moment (bt.after now seconds)

due_of : Runtime → BeatRuntime → Moment → Option (Result (Bool × Value)) → Result (Option Moment)
unfolding due_at
due_of rt bt now none = ok none
due_of rt bt now (some called) = do
  seconds ← but_number_errors (called >>= seconds_until rt)
  due_at bt now seconds

-- _next_due_at
unfoldable pub next_due_at : Runtime → BeatRuntime → Moment → ScheduleEntry → Result (Option Moment)
unfolding due_of
next_due_at rt bt now entry = due_of rt bt now entry.is_due
